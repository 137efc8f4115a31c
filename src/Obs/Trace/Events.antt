-- ===== src/Obs/Trace/Events.antt =====
-- crates/common-obs/src/lib.rs: what happens to spans, and the contexts that it makes.
use lokan_os.Prelude.{ℕ, ◌+◌, Option, List, [], ◌∷◌}
use lokan_os.Prelude.Text.{Text}
use lokan_os.Prelude.Keys.{nat_key}
use lokan_os.Obs.Trace.{TraceState, on_new_span, on_close, set_request_id}

-- What happens to spans: one is opened, with its parent, or closed, or gets a request id.
pub data SpanEvent : Type 0 where
  open_span : ℕ → Option ℕ → SpanEvent
  close_span : ℕ → SpanEvent
  with_req : ℕ → Text → SpanEvent

unfoldable pub step : TraceState → SpanEvent → TraceState
step state (open_span id parent) = on_new_span state id parent
step state (close_span id) = on_close state id
step state (with_req id value) = set_request_id state id value

unfoldable pub run : TraceState → List SpanEvent → TraceState
unfolding step
run state [] = state
run state (event ∷ events) = run (step state event) events

-- The contexts that an event makes, at most.
abbrev pub cost : SpanEvent → ℕ
cost (open_span id parent) = 1
cost (close_span id) = 0
cost (with_req id value) = 0

abbrev pub costs : List SpanEvent → ℕ
costs [] = 0
costs (event ∷ events) = cost event + costs events
