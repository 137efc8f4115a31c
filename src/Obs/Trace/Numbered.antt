-- ===== src/Obs/Trace/Numbered.antt =====
-- crates/common-obs/src/lib.rs: a trace id is the number of its context, as long as the counter does not wrap.
use lokan_os.Prelude.{
  ℕ, suc, ◌+◌, ◌≤◌, ◌<◌, ◌^◌, ◌≡◌, refl, ap, sym, subst, ◌∙◌, Option, none, some, List, [], ◌∷◌,
  ◌++◌, length, length-append, u64, ◌==◌, arith, inl, inr,
}
use lokan_os.Prelude.Text.{Text}
use lokan_os.Prelude.Digits.{hex_16}
use lokan_os.Prelude.Keys.{nat_key}
use lokan_os.Prelude.Dict.{get}
use lokan_os.Obs.Trace.{
  TraceContext, TraceState, default_state, at, make_context, inherited, bound, opened, on_new_span,
  on_close, set_at, requested, set_request_id,
}
use lokan_os.Obs.Trace.Events.{SpanEvent, open_span, close_span, with_req, step, run, cost, costs}
use lokan_os.Obs.Trace.Places.{
  IsBelow, at-append, at-set_at, length-set_at, insert-IsBelow, remove-IsBelow, longer-IsBelow,
  asked_id,
}

-- The contexts have the numbers of their places, and every span's context was made.
pub record IsNumbered (state : TraceState) : Type 0 where
  pub counter : state.counter ≡ length state.made
  pub numbers : (k : ℕ) (c : TraceContext) → at state.made k ≡ some c → c.trace_id ≡ hex_16 (suc k)
  pub contexts : IsBelow (length state.made) state.contexts
  pub extensions : IsBelow (length state.made) state.extensions

bound-IsNumbered :
    (state : TraceState) (id a : ℕ)
    → a < length state.made
    → IsNumbered state
    → IsNumbered (bound id (state, a))
bound-IsNumbered state id a h n = record {
  counter = n.counter;
  numbers = n.numbers;
  contexts = insert-IsBelow (length state.made) state.contexts id a h n.contexts;
  extensions = insert-IsBelow (length state.made) state.extensions id a h n.extensions;
}

make_context-IsNumbered :
    (state : TraceState)
    → length state.made + 1 < 2 ^ 64
    → IsNumbered state
    → IsNumbered (make_context state).0
unfolding make_context
make_context-IsNumbered state small n =
    let one : List TraceContext =
      record { trace_id = hex_16 (u64 (state.counter + 1)); request_id = none } ∷ [] in
    let size : length (state.made ++ one) ≡ suc (length state.made) =
      omega (arith, length-append state.made one) in
    record {
      counter = omega (arith, n.counter, size);
      numbers = λ k c e. elim (at-append state.made _ k c e) [
        | inl there ↦ n.numbers k c there
        | inr (last, same) ↦
            ap (λ x. x.trace_id) (sym same) ∙ ap hex_16 (omega (arith, last, n.counter, small))
      ];
      contexts =
          longer-IsBelow (length state.made) _ state.contexts (omega (arith, size)) n.contexts;
      extensions =
          longer-IsBelow (length state.made) _ state.extensions (omega (arith, size)) n.extensions;
    }

-- A state that is numbered and has at most this many contexts.
unfoldable pub IsSmall : ℕ → TraceState → Type 0
IsSmall n state = IsNumbered state × (length state.made ≤ n)

opened-IsSmall :
    (n : ℕ) (state : TraceState) (id : ℕ) (o : Option ℕ)
    → n + 1 < 2 ^ 64
    → ((k : ℕ) → o ≡ some k → k < length state.made)
    → IsSmall n state
    → IsSmall (n + 1) (opened state id o)
unfolding IsSmall opened make_context
opened-IsSmall n state id none small known (s, few) =
    let made = make_context-IsNumbered state (omega (arith, few)) s in
    let one : List TraceContext =
      record { trace_id = hex_16 (u64 (state.counter + 1)); request_id = none } ∷ [] in
    let size : length (state.made ++ one) ≡ suc (length state.made) =
      omega (arith, length-append state.made one) in
    (
      bound-IsNumbered (make_context state).0 id (length state.made) (omega (arith, size)) made,
      omega (arith, size, few),
    )
opened-IsSmall n state id (some a) small known (s, few) =
    (bound-IsNumbered state id a (known a refl) s, omega (arith, few))

inherited-known :
    (state : TraceState) (parent : Option ℕ) (k : ℕ)
    → IsNumbered state
    → inherited state parent ≡ some k
    → k < length state.made
unfolding IsBelow
inherited-known state none k n e = absurd cc
inherited-known state (some parent) k n e = n.extensions parent k e

renumbered :
    (state : TraceState) (a : ℕ) (value : Text) (k : ℕ) (c : TraceContext)
    → IsNumbered state
    → at (set_at state.made a value) k ≡ some c
    → c.trace_id ≡ hex_16 (suc k)
renumbered state a value k c n e =
    let (old, there, same) =
      asked_id (a == k) value (at state.made k) c (sym (at-set_at state.made a value k) ∙ e) in
    same ∙ n.numbers k old there

requested-IsSmall :
    (n : ℕ) (state : TraceState) (o : Option ℕ) (value : Text)
    → IsSmall n state
    → IsSmall n (requested state o value)
unfolding IsSmall
requested-IsSmall n state none value s = s
requested-IsSmall n state (some a) value (s, few) =
    let size = length-set_at state.made a value in
    (
      record {
        counter = s.counter ∙ sym size;
        numbers = λ k c e. renumbered state a value k c s e;
        contexts = longer-IsBelow _ _ state.contexts (omega (arith, size)) s.contexts;
        extensions = longer-IsBelow _ _ state.extensions (omega (arith, size)) s.extensions;
      },
      omega (arith, size, few),
    )

step-IsSmall :
    (n : ℕ) (state : TraceState) (event : SpanEvent)
    → n + cost event < 2 ^ 64
    → IsSmall n state
    → IsSmall (n + cost event) (step state event)
unfolding IsSmall step on_new_span on_close set_request_id
step-IsSmall n state (open_span id parent) small s =
    opened-IsSmall n state id (inherited state parent) small
      (λ k e. inherited-known state parent k s.0 e) s
step-IsSmall n state (close_span id) small (s, few) = (
  record {
    counter = s.counter;
    numbers = s.numbers;
    contexts = remove-IsBelow (length state.made) state.contexts id s.contexts;
    extensions = remove-IsBelow (length state.made) state.extensions id s.extensions;
  },
  omega (arith, few),
)
step-IsSmall n state (with_req id value) small s =
    subst (λ m. IsSmall m (requested state (get state.contexts id) value)) (omega arith)
      (requested-IsSmall n state (get state.contexts id) value s)

pub run-IsSmall :
    (n : ℕ) (state : TraceState) (events : List SpanEvent)
    → n + costs events < 2 ^ 64
    → IsSmall n state
    → IsSmall (n + costs events) (run state events)
unfolding run
run-IsSmall n state [] small s = subst (λ m. IsSmall m state) (omega arith) s
run-IsSmall n state (event ∷ events) small s =
    subst (λ m. IsSmall m (run (step state event) events)) (omega arith)
      (run-IsSmall (n + cost event) (step state event) events (omega (arith, small))
        (step-IsSmall n state event (omega (arith, small)) s))

pub start-IsSmall : IsSmall 0 default_state
unfolding IsSmall default_state get IsBelow
start-IsSmall = (
  record {
    counter = refl;
    numbers = λ k c e. absurd cc;
    contexts = λ id k e. absurd cc;
    extensions = λ id k e. absurd cc;
  },
  omega arith,
)
