-- ===== src/Bus/Mock/Heard.antt =====
-- crates/common-msgbus/src/lib.rs: what each call of MockBus leaves of what a subscription hears.
use lokan_os.Prelude.{ℕ, zero, suc, ◌≤◌, ◌≡◌, ◌≢◌, Option, none, some, arith, List, [], ◌∷◌, ◌++◌}
use lokan_os.Prelude.Text.{Text}
use lokan_os.Prelude.Result.{Result, ok, err}
use lokan_os.Bus.Messages.{BusMessage, MsgBusError}
use lokan_os.Bus.Tokio.{Libraries}
use lokan_os.Bus.Mock
use lokan_os.Bus.Mock.{
  MockBus, Subscription, Waiting, Done, ensure_subject, send_message, next_reply_subject,
  insert_waiter, wait_for, next_after,
}
use lokan_os.Bus.Mock.Senders.{Ensured, ensure_subject-Ensured}
use lokan_os.Bus.Mock.Latest.{on}
use lokan_os.Bus.Mock.Delivery.{Hears, send_message-Sent, Sent-Hears}

module _ (lib : Libraries) where
  open lib use {broadcast, senders}

  -- What the other parts of a bus hold makes no difference to a subscription.
  pub Hears-parts :
      {bus : MockBus lib} {sub : Subscription lib} {xs : List BusMessage}
      (pending : lib.waiters.Map) (slots : lib.oneshot.Slots) (counter : ℕ)
      → Hears lib bus sub xs
      → Hears lib
          (record bus { pending = pending; slots = slots; request_counter = counter })
          sub
          xs
  Hears-parts pending slots counter h = record {
    valid = record { made = h.valid.made; apart = h.valid.apart };
    sender = h.sender;
    entered = h.entered;
    placed = h.placed;
    channel = h.channel;
    room = h.room;
    unread = h.unread;
  }

  pub insert_waiter-Hears :
      {bus : MockBus lib} {sub : Subscription lib} {xs : List BusMessage} (key : Text)
      (tx : lib.oneshot.Sender) (old : Option lib.oneshot.Sender)
      → Hears lib bus sub xs
      → Hears lib (insert_waiter lib bus key tx old) sub xs
  unfolding insert_waiter
  insert_waiter-Hears key tx none h = Hears-parts _ _ _ h
  insert_waiter-Hears key tx (some old) h = Hears-parts _ _ _ h

  pub wait_for-Hears :
      {bus : MockBus lib} {sub : Subscription lib} {xs : List BusMessage} (waiting : Waiting lib)
      (sent : Done)
      → Hears lib bus sub xs
      → Hears lib (wait_for lib bus waiting sent).0 sub xs
  unfolding wait_for
  wait_for-Hears waiting (ok done) h = h
  wait_for-Hears waiting (err e) h = Hears-parts _ _ _ h

  pub send_message-Hears :
      {bus : MockBus lib} {sub : Subscription lib} {xs : List BusMessage} (m : BusMessage)
      (error : Text → MsgBusError)
      → Hears lib bus sub xs
      → Hears lib (send_message lib bus m error).0 sub (xs ++ on sub.subject (m ∷ []))
  send_message-Hears {bus} m error h = Sent-Hears lib (send_message-Sent lib bus m error h.valid) h

  Ensured-Hears :
      {bus : MockBus lib} {sub : Subscription lib} {xs : List BusMessage} {s : Text}
      {e : MockBus lib × broadcast.Sender}
      → Ensured lib bus s e
      → Hears lib bus sub xs
      → Hears lib e.0 sub xs
  Ensured-Hears {sub} e h = record {
    valid = e.valid;
    sender = h.sender;
    entered = e.kept sub.subject h.sender h.entered;
    placed = rw e.receivers h.placed;
    channel = rw (e.views sub.inner) h.channel;
    room = rw (e.views sub.inner) h.room;
    unread = rw (e.views sub.inner) h.unread;
  }

  -- A change of the channels that leaves the subscription what it had.
  Hears-channels :
      {bus : MockBus lib} {sub : Subscription lib} {xs : List BusMessage}
      (channels : broadcast.Channels)
      → broadcast.count channels ≡ broadcast.count bus.channels
      → broadcast.receivers bus.channels ≤ broadcast.receivers channels
      → broadcast.view channels sub.inner ≡ broadcast.view bus.channels sub.inner
      → Hears lib bus sub xs
      → Hears lib (record bus { channels = channels }) sub xs
  Hears-channels channels made more same h = record {
    valid = record { made = λ s c there. rw made (h.valid.made s c there); apart = h.valid.apart };
    sender = h.sender;
    entered = h.entered;
    placed = omega (arith, h.placed);
    channel = rw same h.channel;
    room = rw same h.room;
    unread = rw same h.unread;
  }

  pub subscribe-Hears :
      {bus : MockBus lib} {sub : Subscription lib} {xs : List BusMessage} (s : Text)
      → Hears lib bus sub xs
      → Hears lib (Mock.subscribe lib bus s).0 sub xs
  unfolding Mock.subscribe
  subscribe-Hears {bus} {sub} s h =
      let e = Ensured-Hears (ensure_subject-Ensured lib bus s h.valid) h in
      let (entered, c) = ensure_subject lib bus s in
      Hears-channels (broadcast.subscribe entered.channels c).0
        (broadcast.count-subscribe entered.channels c)
        (omega (arith, broadcast.receivers-subscribe entered.channels c))
        (broadcast.view-subscribe_other entered.channels c sub.inner e.placed) e

  pub polled-Hears :
      {bus : MockBus lib} {sub : Subscription lib} {xs : List BusMessage} (q : broadcast.Receiver)
      → broadcast.place q ≢ broadcast.place sub.inner
      → Hears lib bus sub xs
      → Hears lib (record bus { channels = (broadcast.poll bus.channels q).0 }) sub xs
  polled-Hears {bus} {sub} q other h =
      Hears-channels (broadcast.poll bus.channels q).0 (broadcast.count-poll bus.channels q)
        (omega (arith, broadcast.receivers-poll bus.channels q))
        (broadcast.view-poll_other bus.channels q sub.inner other) h

  pub next_after-Hears :
      {sub : Subscription lib} {xs : List BusMessage} (fuel : ℕ) (bus : MockBus lib)
      (q : Subscription lib) (item : Option (Result ℕ BusMessage))
      → broadcast.place q.inner ≢ broadcast.place sub.inner
      → Hears lib bus sub xs
      → Hears lib (next_after lib fuel bus q item).0 sub xs
  unfolding next_after
  next_after-Hears fuel bus q none other h = h
  next_after-Hears fuel bus q (some (ok m)) other h = h
  next_after-Hears zero bus q (some (err n)) other h = h
  next_after-Hears (suc fuel) bus q (some (err n)) other h =
      next_after-Hears fuel (record bus { channels = (broadcast.poll bus.channels q.inner).0 }) q
        (broadcast.poll bus.channels q.inner).1 other (polled-Hears q.inner other h)
