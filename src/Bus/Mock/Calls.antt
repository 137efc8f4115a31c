-- ===== src/Bus/Mock/Calls.antt =====
-- crates/common-msgbus/src/lib.rs: the calls of MockBus as a sequence.
use lokan_os.Prelude.{ℕ, List, [], ◌∷◌}
use lokan_os.Prelude.Text.{Text}
use lokan_os.Bus.Tokio.{Libraries}
use lokan_os.Bus.Mock
use lokan_os.Bus.Mock.{MockBus, Subscription, Waiting}

module _ (lib : Libraries) where
  -- What a client of the bus can do.
  pub data Call : Type 0 where
    publish : Text → List ℕ → Call
    subscribe : Text → Call
    request : Text → List ℕ → Call
    cancel : Waiting lib → Call
    respond : Text → List ℕ → Call
    poll_next : Subscription lib → Call

  unfoldable pub step : MockBus lib → Call → MockBus lib
  unfolding Mock.publish Mock.subscribe Mock.request Mock.cancel Mock.respond Mock.poll_next
  step bus (Call.publish subject payload) = (Mock.publish lib bus subject payload).0
  step bus (Call.subscribe subject) = (Mock.subscribe lib bus subject).0
  step bus (Call.request subject payload) = (Mock.request lib bus subject payload).0
  step bus (Call.cancel waiting) = Mock.cancel lib bus waiting
  step bus (Call.respond reply_to payload) = (Mock.respond lib bus reply_to payload).0
  step bus (Call.poll_next subscription) = (Mock.poll_next lib bus subscription).0

  unfoldable pub run : MockBus lib → List Call → MockBus lib
  unfolding step
  run bus [] = bus
  run bus (call ∷ calls) = run (step bus call) calls
