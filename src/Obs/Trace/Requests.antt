-- ===== src/Obs/Trace/Requests.antt =====
-- crates/common-obs/src/lib.rs: a request id reaches just the spans of its trace.
use lokan_os.Prelude.{
  ℕ, suc, ◌<◌, ◌^◌, ◌≡◌, ◌≢◌, refl, ap, sym, ◌∙◌, Bool, Option, none, some, List, if◌then◌else◌,
  ◌==◌, arith, inl, inr, Bool-cases, ==_iff,
}
use mathlib.Core.Option.{some-injective}
use lokan_os.Prelude.Text.{Text}
use lokan_os.Prelude.Digits.{hex_16_inj}
use lokan_os.Prelude.Keys.{nat_key}
use lokan_os.Prelude.Dict.{get}
use lokan_os.Obs.Trace.{
  TraceContext, TraceState, default_state, at, requested, set_request_id, find, context_of,
}
use lokan_os.Obs.Trace.Events.{SpanEvent, run, costs}
use lokan_os.Obs.Trace.Places.{at_lt, asked, at-set_at}
use lokan_os.Obs.Trace.Numbered.{IsSmall, run-IsSmall, start-IsSmall}

-- The context of a span, with its address.
find_lem :
    (state : TraceState) (o : Option ℕ) (c : TraceContext)
    → find state o ≡ some c
    → (k : ℕ) × (o ≡ some k) × (at state.made k ≡ some c)
find_lem state none c h = absurd cc
find_lem state (some k) c h = (k, refl, h)

context_after :
    (state : TraceState) (s j a k : ℕ) (value : Text)
    → get state.contexts s ≡ some a
    → get state.contexts j ≡ some k
    → context_of (set_request_id state s value) j
      ≡ (if a == k then asked value (at state.made k) else at state.made k)
unfolding context_of set_request_id
context_after state s j a k value hs hj =
    ap (λ o. find (requested state o value) (get (requested state o value).contexts j)) hs
    ∙ ap (find (requested state (some a) value)) hj
    ∙ at-set_at state.made a value k

-- Let fewer than 2^64 spans have been opened, with any closings and request ids in between. A request
-- id that is then recorded on a span is that of every open span with the same trace id, and changes
-- no context of another trace.
pub set_request_id_lem :
    (events : List SpanEvent) (s j : ℕ) (value : Text) (c d : TraceContext)
    → costs events < 2 ^ 64
    → context_of (run default_state events) s ≡ some c
    → context_of (run default_state events) j ≡ some d
    → (let after = set_request_id (run default_state events) s value in
        (d.trace_id ≡ c.trace_id
          → context_of after j ≡ some (record { trace_id = d.trace_id; request_id = some value }))
        × (d.trace_id ≢ c.trace_id → context_of after j ≡ some d))
unfolding context_of default_state IsSmall
set_request_id_lem events s j value c d small hs hj =
    let state = run default_state events in
    let (n, few) = run-IsSmall 0 default_state events (omega (arith, small)) start-IsSmall in
    let (a, at_a, is_c) = find_lem state (get state.contexts s) c hs in
    let (k, at_k, is_d) = find_lem state (get state.contexts j) d hj in
    let after = context_after state s j a k value at_a at_k in
    let place : Bool → Option TraceContext =
      λ b. if b then asked value (at state.made k) else at state.made k in
    let below_a = at_lt state.made a c is_c in
    let below_k = at_lt state.made k d is_d in
    (
      (λ e.
          let numbers = sym (n.numbers k d is_d) ∙ e ∙ n.numbers a c is_c in
          let same : suc k ≡ suc a =
            hex_16_inj (suc k) (suc a) (omega (arith, below_k, few, small))
              (omega (arith, below_a, few, small)) numbers in
          after ∙ ap place ((==_iff a k).1 (omega (arith, same))) ∙ ap (asked value) is_d),
      (λ e. elim (Bool-cases (a == k)) [
        | inl b ↦ absurd (
            e (
              ap (λ x. x.trace_id)
                (some-injective d c
                  (sym is_d ∙ ap (at state.made) (sym ((==_iff a k).0 b)) ∙ is_c))))
        | inr b ↦ after ∙ ap place b ∙ is_d
      ]),
    )
