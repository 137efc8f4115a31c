-- ===== src/Bus/Mock.antt =====
-- crates/common-msgbus/src/lib.rs: MockBus, the bus in memory. A call runs at one go, except that
-- `request` waits for its response: it is two steps, between which other calls run.

pub mod Calls
pub mod Senders
pub mod Valid
pub mod Latest
pub mod Delivery
pub mod Heard
pub mod Subscriptions
pub mod Effects
pub mod Steady
pub mod Answers
pub mod Responses
use lokan_os.Prelude.{ℕ, zero, suc, ◌+◌, Option, none, some, List, [], ◌∷◌, ◌++◌, Bool, true, false}
use lokan_os.Prelude.Text.{Text, codes}
use lokan_os.Prelude.Words.{u64}
use lokan_os.Prelude.Digits.{decimal}
use lokan_os.Prelude.Result.{Result, ok, err, map_err, ◌>>=◌}
use lokan_os.Bus.Messages.{BusMessage, MsgBusError}
use lokan_os.Bus.Tokio.{Libraries}

abbrev channel_capacity : ℕ
channel_capacity = 64

abbrev pub Done : Type 0
Done = Result MsgBusError (Unit {0})

-- Result::map(|_| ())
abbrev pub forget : Result MsgBusError ℕ → Done
forget (ok n) = ok tt
forget (err e) = err e

module _ (lib : Libraries) where
  open lib use {broadcast, oneshot, senders, waiters}

  pub record MockBus : Type 0 where
    pub subjects : senders.Map
    pub pending : waiters.Map
    pub request_counter : ℕ
    pub channels : broadcast.Channels
    pub slots : oneshot.Slots

  pub record Subscription : Type 0 where
    pub subject : Text
    pub inner : broadcast.Receiver

  -- A request that waits for its response.
  pub record Waiting : Type 0 where
    pub reply_subject : Text
    pub rx : oneshot.Receiver

  unfoldable pub new : MockBus
  new = record {
    subjects = senders.empty;
    pending = waiters.empty;
    request_counter = 0;
    channels = broadcast.no_channels;
    slots = oneshot.no_slots;
  }

  -- map.entry(subject)
  enter : MockBus → Text → broadcast.Sender → Option broadcast.Sender → MockBus × broadcast.Sender
  enter bus subject tx (some existing) = (bus, existing)
  enter bus subject tx none = (record bus { subjects = senders.insert bus.subjects subject tx }, tx)

  find_or_make : MockBus → Text → Option broadcast.Sender → MockBus × broadcast.Sender
  unfolding enter
  find_or_make bus subject (some existing) = (bus, existing)
  find_or_make bus subject none =
      let (channels, tx) = broadcast.channel bus.channels channel_capacity in
      enter (record bus { channels = channels }) subject tx (senders.get bus.subjects subject)

  unfoldable pub ensure_subject : MockBus → Text → MockBus × broadcast.Sender
  unfolding find_or_make
  ensure_subject bus subject = find_or_make bus subject (senders.get bus.subjects subject)

  -- The sender of the subject sends the message.
  unfoldable pub send_message : MockBus → BusMessage → (Text → MsgBusError) → MockBus × Done
  unfolding ensure_subject
  send_message bus message error =
      let (entered, sender) = ensure_subject bus message.subject in
      let (channels, sent) = broadcast.send entered.channels sender message in
      (record entered { channels = channels }, forget (map_err error sent))

  unfoldable pub next_reply_subject : MockBus → MockBus × Text
  next_reply_subject bus = (
    record bus { request_counter = u64 (bus.request_counter + 1) },
    codes "inproc.reply." ++ decimal bus.request_counter,
  )

  unfoldable pub publish : MockBus → Text → List ℕ → MockBus × Done
  unfolding send_message
  publish bus subject payload =
      send_message bus (record { subject = subject; payload = payload; reply = none })
        MsgBusError.publish

  unfoldable pub subscribe : MockBus → Text → MockBus × Result MsgBusError Subscription
  unfolding ensure_subject
  subscribe bus subject =
      let (entered, sender) = ensure_subject bus subject in
      let (channels, receiver) = broadcast.subscribe entered.channels sender in
      (record entered { channels = channels }, ok record { subject = subject; inner = receiver })

  -- DashMap::insert, which drops the waiter that was there.
  pub insert_waiter : MockBus → Text → oneshot.Sender → Option oneshot.Sender → MockBus
  insert_waiter bus key tx none = record bus { pending = waiters.insert bus.pending key tx }
  insert_waiter bus key tx (some old) = record bus {
    pending = waiters.insert bus.pending key tx;
    slots = oneshot.drop bus.slots old;
  }

  -- A request that could not be sent drops its receiver.
  pub wait_for : MockBus → Waiting → Done → MockBus × Result MsgBusError Waiting
  wait_for bus waiting (ok _) = (bus, ok waiting)
  wait_for bus waiting (err e) = (record bus { slots = oneshot.close bus.slots waiting.rx }, err e)

  -- `request` up to where it waits.
  unfoldable pub request : MockBus → Text → List ℕ → MockBus × Result MsgBusError Waiting
  unfolding next_reply_subject insert_waiter send_message wait_for
  request bus subject payload =
      let (slots, tx, rx) = oneshot.channel bus.slots in
      let (counted, reply_subject) = next_reply_subject (record bus { slots = slots }) in
      let waiting =
        insert_waiter counted reply_subject tx (waiters.get counted.pending reply_subject) in
      let (after, sent) =
        send_message waiting
          (record { subject = subject; payload = payload; reply = some reply_subject })
          MsgBusError.request in
      wait_for after (record { reply_subject = reply_subject; rx = rx }) sent

  abbrev respond_message : Text → Result Text (List ℕ) → Result MsgBusError BusMessage
  respond_message reply_subject answer = map_err MsgBusError.request answer >>= λ payload.
      ok record { subject = reply_subject; payload = payload; reply = none }

  -- `request` from there: `none` is Pending.
  unfoldable pub response : MockBus → Waiting → Option (Result MsgBusError BusMessage)
  response bus waiting = elim (oneshot.poll bus.slots waiting.rx) [
    | none ↦ none
    | some answer ↦ some (respond_message waiting.reply_subject answer)
  ]

  -- The future of a request is dropped while it waits.
  unfoldable pub cancel : MockBus → Waiting → MockBus
  cancel bus waiting = record bus { slots = oneshot.close bus.slots waiting.rx }

  abbrev taken : Bool → Done
  taken true = ok tt
  taken false = err (MsgBusError.request (codes "pending request dropped"))

  pub respond_through : MockBus → Text → List ℕ → Option oneshot.Sender → MockBus × Done
  unfolding send_message
  respond_through bus reply_to payload (some waiter) =
      let (slots, sent) = oneshot.send bus.slots waiter payload in
      (record bus { pending = waiters.remove bus.pending reply_to; slots = slots }, taken sent)
  respond_through bus reply_to payload none =
      send_message bus (record { subject = reply_to; payload = payload; reply = none })
        (λ _. MsgBusError.unknown_reply_subject reply_to)

  unfoldable pub respond : MockBus → Text → List ℕ → MockBus × Done
  unfolding respond_through
  respond bus reply_to payload =
      respond_through bus reply_to payload (waiters.get bus.pending reply_to)

  pub next_after :
      ℕ → MockBus → Subscription → Option (Result ℕ BusMessage) → MockBus × Option BusMessage
  next_after fuel bus subscription none = (bus, none)
  next_after fuel bus subscription (some (ok message)) = (bus, some message)
  next_after zero bus subscription (some (err missed)) = (bus, none)
  next_after (suc fuel) bus subscription (some (err missed)) =
      let (channels, item) = broadcast.poll bus.channels subscription.inner in
      next_after fuel (record bus { channels = channels }) subscription item

  -- Subscription::poll_next, whose `filter_map` drops the notes on messages that were missed.
  unfoldable pub poll_next : MockBus → Subscription → MockBus × Option BusMessage
  unfolding next_after
  poll_next bus subscription =
      let (channels, item) = broadcast.poll bus.channels subscription.inner in
      next_after 1 (record bus { channels = channels }) subscription item
