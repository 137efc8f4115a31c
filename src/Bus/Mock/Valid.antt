-- ===== src/Bus/Mock/Valid.antt =====
-- crates/common-msgbus/src/lib.rs: the channels of MockBus stay apart, whatever calls are made.
use lokan_os.Prelude.{ℕ, zero, suc, ◌≡◌, Option, none, some, List, [], ◌∷◌}
use lokan_os.Prelude.Text.{Text}
use lokan_os.Prelude.Result.{Result, ok, err}
use lokan_os.Bus.Messages.{BusMessage, MsgBusError}
use lokan_os.Bus.Tokio.{Libraries}
use lokan_os.Bus.Mock
use lokan_os.Bus.Mock.{
  MockBus, Subscription, Waiting, Done, ensure_subject, send_message, next_reply_subject,
  insert_waiter, wait_for, respond_through, next_after, new,
}
use lokan_os.Bus.Mock.Calls.{Call, step, run}
use lokan_os.Bus.Mock.Senders.{IsValid, new-IsValid, ensure_subject-Ensured}
use lokan_os.Bus.Mock.Delivery.{send_message-Sent}

module _ (lib : Libraries) where
  open lib use {broadcast, oneshot, senders, waiters}

  pub IsValid-parts :
      {bus : MockBus lib} (pending : waiters.Map) (slots : oneshot.Slots) (counter : ℕ)
      → IsValid lib bus
      → IsValid lib (record bus { pending = pending; slots = slots; request_counter = counter })
  IsValid-parts pending slots counter v = record { made = v.made; apart = v.apart }

  IsValid-channels :
      {bus : MockBus lib} (channels : broadcast.Channels)
      → broadcast.count channels ≡ broadcast.count bus.channels
      → IsValid lib bus
      → IsValid lib (record bus { channels = channels })
  IsValid-channels channels same v = record {
    made = λ s c there. rw same (v.made s c there);
    apart = v.apart;
  }

  send_message-IsValid :
      {bus : MockBus lib} (m : BusMessage) (error : Text → MsgBusError)
      → IsValid lib bus
      → IsValid lib (send_message lib bus m error).0
  send_message-IsValid {bus} m error v = (send_message-Sent lib bus m error v).valid

  pub insert_waiter-IsValid :
      {bus : MockBus lib} (key : Text) (tx : oneshot.Sender) (old : Option oneshot.Sender)
      → IsValid lib bus
      → IsValid lib (insert_waiter lib bus key tx old)
  unfolding insert_waiter
  insert_waiter-IsValid key tx none v = IsValid-parts _ _ _ v
  insert_waiter-IsValid key tx (some old) v = IsValid-parts _ _ _ v

  wait_for-IsValid :
      {bus : MockBus lib} (waiting : Waiting lib) (sent : Done)
      → IsValid lib bus
      → IsValid lib (wait_for lib bus waiting sent).0
  unfolding wait_for
  wait_for-IsValid waiting (ok done) v = v
  wait_for-IsValid waiting (err e) v = IsValid-parts _ _ _ v

  respond_through-IsValid :
      {bus : MockBus lib} (reply_to : Text) (payload : List ℕ) (waiter : Option oneshot.Sender)
      → IsValid lib bus
      → IsValid lib (respond_through lib bus reply_to payload waiter).0
  unfolding respond_through
  respond_through-IsValid reply_to payload none v =
      send_message-IsValid _ (λ _. MsgBusError.unknown_reply_subject reply_to) v
  respond_through-IsValid reply_to payload (some waiter) v = IsValid-parts _ _ _ v

  next_after-IsValid :
      (fuel : ℕ) (bus : MockBus lib) (sub : Subscription lib) (item : Option (Result ℕ BusMessage))
      → IsValid lib bus
      → IsValid lib (next_after lib fuel bus sub item).0
  unfolding next_after
  next_after-IsValid fuel bus sub none v = v
  next_after-IsValid fuel bus sub (some (ok m)) v = v
  next_after-IsValid zero bus sub (some (err n)) v = v
  next_after-IsValid (suc fuel) bus sub (some (err n)) v =
      next_after-IsValid fuel (record bus { channels = (broadcast.poll bus.channels sub.inner).0 })
        sub (broadcast.poll bus.channels sub.inner).1
        (IsValid-channels _ (broadcast.count-poll bus.channels sub.inner) v)

  pub step-IsValid :
      (bus : MockBus lib) (call : Call lib) → IsValid lib bus → IsValid lib (step lib bus call)
  unfolding step Mock.publish Mock.subscribe Mock.request Mock.cancel Mock.respond Mock.poll_next
      next_reply_subject
  step-IsValid bus (Call.publish subject payload) v = send_message-IsValid _ MsgBusError.publish v
  step-IsValid bus (Call.subscribe subject) v =
      let e = ensure_subject-Ensured lib bus subject v in
      IsValid-channels _ (broadcast.count-subscribe _ _) e.valid
  step-IsValid bus (Call.request subject payload) v = wait_for-IsValid _ _ (
      send_message-IsValid _ MsgBusError.request
        (insert_waiter-IsValid _ _ _ (IsValid-parts _ _ _ v)))
  step-IsValid bus (Call.cancel waiting) v = IsValid-parts _ _ _ v
  step-IsValid bus (Call.respond reply_to payload) v = respond_through-IsValid reply_to payload _ v
  step-IsValid bus (Call.poll_next sub) v =
      next_after-IsValid 1 _ sub _
        (IsValid-channels _ (broadcast.count-poll bus.channels sub.inner) v)

  pub run-IsValid :
      (bus : MockBus lib) (calls : List (Call lib))
      → IsValid lib bus
      → IsValid lib (run lib bus calls)
  unfolding run
  run-IsValid bus [] v = v
  run-IsValid bus (call ∷ calls) v = run-IsValid (step lib bus call) calls (step-IsValid bus call v)

  pub run-new-IsValid : (calls : List (Call lib)) → IsValid lib (run lib (new lib) calls)
  run-new-IsValid calls = run-IsValid (new lib) calls (new-IsValid lib)
