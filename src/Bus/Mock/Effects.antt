-- ===== src/Bus/Mock/Effects.antt =====
-- crates/common-msgbus/src/lib.rs: what each call of MockBus does to the requests that wait.
use lokan_os.Prelude.{
  ℕ, zero, suc, ◌+◌, ◌≡◌, refl, sym, ap, ◌∙◌, Option, none, some, List, ◌++◌, ◌⊎◌, inl, inr,
  Option-cases,
}
use lokan_os.Prelude.Text.{Text, codes}
use lokan_os.Prelude.Words.{u64}
use lokan_os.Prelude.Digits.{decimal}
use lokan_os.Prelude.Result.{Result, ok, err}
use lokan_os.Bus.Messages.{BusMessage, MsgBusError}
use lokan_os.Bus.Tokio.{Libraries}
use lokan_os.Bus.Mock
use lokan_os.Bus.Mock.{
  MockBus, Subscription, Waiting, Done, send_message, next_reply_subject, insert_waiter, wait_for,
  respond_through, next_after,
}
use lokan_os.Bus.Mock.Calls.{Call, step}
use lokan_os.Bus.Mock.Senders.{IsValid, ensure_subject-Ensured}
use lokan_os.Bus.Mock.Delivery.{send_message-Sent}
use lokan_os.Bus.Mock.Valid.{insert_waiter-IsValid, IsValid-parts}

-- The subject on which the response to the request of this number is awaited.
abbrev pub reply_text : ℕ → Text
reply_text i = codes "inproc.reply." ++ decimal i

module _ (lib : Libraries) where
  open lib use {broadcast, oneshot, waiters}

  -- What a bus knows of requests.
  pub record Requests : Type 0 where
    pub pending : waiters.Map
    pub slots : oneshot.Slots
    pub counter : ℕ

  abbrev pub requests_of : MockBus lib → Requests
  requests_of bus = record {
    pending = bus.pending;
    slots = bus.slots;
    counter = bus.request_counter;
  }

  abbrev pub drop_old : oneshot.Slots → Option oneshot.Sender → oneshot.Slots
  drop_old slots none = slots
  drop_old slots (some old) = oneshot.drop slots old

  -- A new request waits.
  abbrev pub asked : Requests → Requests
  asked r = record {
    pending = waiters.insert r.pending (reply_text r.counter) (oneshot.channel r.slots).1;
    slots = drop_old (oneshot.channel r.slots).0 (waiters.get r.pending (reply_text r.counter));
    counter = u64 (r.counter + 1);
  }

  -- The receiver of a request is dropped.
  abbrev pub closed : oneshot.Receiver → Requests → Requests
  closed rx r = record r { slots = oneshot.close r.slots rx }

  -- A request is answered.
  abbrev pub answered : Text → List ℕ → oneshot.Sender → Requests → Requests
  answered key payload tx r = record r {
    pending = waiters.remove r.pending key;
    slots = (oneshot.send r.slots tx payload).0;
  }

  abbrev pub Effect : Call lib → Requests → Requests → Type 0
  Effect (Call.request subject payload) r after =
      (after ≡ asked r) ⊎ (after ≡ closed (oneshot.channel r.slots).2 (asked r))
  Effect (Call.cancel waiting) r after = after ≡ closed waiting.rx r
  Effect (Call.respond key payload) r after =
      ((waiters.get r.pending key ≡ none) × (after ≡ r))
      ⊎ ((tx : oneshot.Sender) × (waiters.get r.pending key ≡ some tx)
          × (after ≡ answered key payload tx r))
  Effect (Call.publish subject payload) r after = after ≡ r
  Effect (Call.subscribe subject) r after = after ≡ r
  Effect (Call.poll_next sub) r after = after ≡ r

  send_message-requests_of :
      (bus : MockBus lib) (m : BusMessage) (error : Text → MsgBusError)
      → IsValid lib bus
      → requests_of (send_message lib bus m error).0 ≡ requests_of bus
  send_message-requests_of bus m error v =
      let t = send_message-Sent lib bus m error v in rw (t.pending, t.slots, t.counter) refl

  insert_waiter-requests_of :
      (bus : MockBus lib) (key : Text) (tx : oneshot.Sender) (old : Option oneshot.Sender)
      → requests_of (insert_waiter lib bus key tx old) ≡ record {
        pending = waiters.insert bus.pending key tx;
        slots = drop_old bus.slots old;
        counter = bus.request_counter;
      }
  unfolding insert_waiter
  insert_waiter-requests_of bus key tx none = refl
  insert_waiter-requests_of bus key tx (some old) = refl

  wait_for-requests_of :
      (bus : MockBus lib) (waiting : Waiting lib) (sent : Done)
      → (requests_of (wait_for lib bus waiting sent).0 ≡ requests_of bus)
        ⊎ (requests_of (wait_for lib bus waiting sent).0 ≡ closed waiting.rx (requests_of bus))
  unfolding wait_for
  wait_for-requests_of bus waiting (ok done) = inl refl
  wait_for-requests_of bus waiting (err e) = inr refl

  next_after-requests_of :
      (fuel : ℕ) (bus : MockBus lib) (sub : Subscription lib) (item : Option (Result ℕ BusMessage))
      → requests_of (next_after lib fuel bus sub item).0 ≡ requests_of bus
  unfolding next_after
  next_after-requests_of fuel bus sub none = refl
  next_after-requests_of fuel bus sub (some (ok m)) = refl
  next_after-requests_of zero bus sub (some (err n)) = refl
  next_after-requests_of (suc fuel) bus sub (some (err n)) =
      next_after-requests_of fuel
        (record bus { channels = (broadcast.poll bus.channels sub.inner).0 }) sub
        (broadcast.poll bus.channels sub.inner).1

  respond-Effect :
      (bus : MockBus lib) (key : Text) (payload : List ℕ)
      → IsValid lib bus
      → Effect
          (Call.respond key payload)
          (requests_of bus)
          (requests_of (Mock.respond lib bus key payload).0)
  unfolding Mock.respond
  respond-Effect bus key payload v = elim (Option-cases (waiters.get bus.pending key)) [
    | inl missing ↦ inl (
      missing,
      rw (missing, respond_through)
          (send_message-requests_of bus (record { subject = key; payload = payload; reply = none })
            (λ _. MsgBusError.unknown_reply_subject key) v),
    )
    | inr (tx, there) ↦ inr (tx, there, rw (there, respond_through) refl)
  ]

  -- A request up to where it has sent its message.
  waiting_bus : MockBus lib → MockBus lib
  waiting_bus bus =
      insert_waiter lib
        (record bus {
          slots = (oneshot.channel bus.slots).0;
          request_counter = u64 (bus.request_counter + 1);
        })
        (reply_text bus.request_counter) (oneshot.channel bus.slots).1
        (waiters.get bus.pending (reply_text bus.request_counter))

  sent_bus : MockBus lib → Text → List ℕ → MockBus lib × Done
  unfolding waiting_bus
  sent_bus bus subject payload =
      send_message lib (waiting_bus bus)
        (record {
          subject = subject;
          payload = payload;
          reply = some (reply_text bus.request_counter);
        })
        MsgBusError.request

  sent_bus-requests_of :
      (bus : MockBus lib) (subject : Text) (payload : List ℕ)
      → IsValid lib bus
      → requests_of (sent_bus bus subject payload).0 ≡ asked (requests_of bus)
  unfolding sent_bus
  sent_bus-requests_of bus subject payload v =
      send_message-requests_of _ _ MsgBusError.request
        (insert_waiter-IsValid lib _ _ _ (IsValid-parts lib _ _ _ v))
      ∙ insert_waiter-requests_of _ _ _ (waiters.get bus.pending (reply_text bus.request_counter))

  request-Effect :
      (bus : MockBus lib) (subject : Text) (payload : List ℕ)
      → IsValid lib bus
      → Effect
          (Call.request subject payload)
          (requests_of bus)
          (requests_of (Mock.request lib bus subject payload).0)
  unfolding Mock.request next_reply_subject sent_bus
  request-Effect bus subject payload v =
      let (after, sent) = sent_bus bus subject payload in
      let kept = sent_bus-requests_of bus subject payload v in
      elim (wait_for-requests_of after _ sent) [
        | inl e ↦ inl (e ∙ kept)
        | inr e ↦ inr (e ∙ ap (closed (oneshot.channel bus.slots).2) kept)
      ]

  wait_for_ok :
      (bus : MockBus lib) (waiting w : Waiting lib) (sent : Done)
      → (wait_for lib bus waiting sent).1 ≡ ok w
      → ((wait_for lib bus waiting sent).0 ≡ bus) × (waiting ≡ w)
  unfolding wait_for
  wait_for_ok bus waiting w (ok done) h = (refl, cc)
  wait_for_ok bus waiting w (err e) h = absurd (cc)

  -- A request that waits.
  pub request-asked :
      (bus : MockBus lib) (subject : Text) (payload : List ℕ) (w : Waiting lib)
      → IsValid lib bus
      → (Mock.request lib bus subject payload).1 ≡ ok w
      → (requests_of (Mock.request lib bus subject payload).0 ≡ asked (requests_of bus))
        × (w.reply_subject ≡ reply_text bus.request_counter)
        × (w.rx ≡ (oneshot.channel bus.slots).2)
  unfolding Mock.request next_reply_subject sent_bus
  request-asked bus subject payload w v h =
      let (after, sent) = sent_bus bus subject payload in
      let waiting : Waiting lib = record {
        reply_subject = reply_text bus.request_counter;
        rx = (oneshot.channel bus.slots).2;
      } in
      let (same, e) = wait_for_ok after waiting w sent h in
      (
        ap requests_of same ∙ sent_bus-requests_of bus subject payload v,
        sym (ap (λ q. q.reply_subject) e),
        sym (ap (λ q. q.rx) e),
      )

  pub step-Effect :
      (bus : MockBus lib) (call : Call lib)
      → IsValid lib bus
      → Effect call (requests_of bus) (requests_of (step lib bus call))
  unfolding step Mock.publish Mock.subscribe Mock.cancel Mock.poll_next
  step-Effect bus (Call.publish subject payload) v =
      send_message-requests_of bus (record { subject = subject; payload = payload; reply = none })
        MsgBusError.publish v
  step-Effect bus (Call.subscribe subject) v =
      let e = ensure_subject-Ensured lib bus subject v in rw (e.pending, e.slots, e.counter) refl
  step-Effect bus (Call.request subject payload) v = request-Effect bus subject payload v
  step-Effect bus (Call.cancel waiting) v = refl
  step-Effect bus (Call.respond key payload) v = respond-Effect bus key payload v
  step-Effect bus (Call.poll_next sub) v =
      next_after-requests_of 1 (record bus { channels = (broadcast.poll bus.channels sub.inner).0 })
        sub (broadcast.poll bus.channels sub.inner).1
