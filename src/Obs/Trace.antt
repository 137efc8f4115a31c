-- ===== src/Obs/Trace.antt =====
-- crates/common-obs/src/lib.rs: spans and their trace contexts. A context is shared by the spans of a
-- tree (`Arc<TraceContext>`): it has an address, its place in `made`. Closing a span drops its
-- extensions too.
pub mod Places
pub mod Events
pub mod Numbered
pub mod Requests
use lokan_os.Prelude.{ℕ, zero, suc, ◌+◌, Option, none, some, List, [], ◌∷◌, ◌++◌, length, u64}
use lokan_os.Prelude.Text.{Text}
use lokan_os.Prelude.Digits.{hex_16}
use lokan_os.Prelude.Keys.{nat_key}
use lokan_os.Prelude.Dict.{Dict, get, insert, remove}

pub record TraceContext : Type 0 where
  pub trace_id : Text
  pub request_id : Option Text

-- `TraceState`, with the contexts that were made and the extensions of the spans.
pub record TraceState : Type 0 where
  pub counter : ℕ  -- u64
  pub contexts : Dict ℕ ℕ
  pub extensions : Dict ℕ ℕ
  pub made : List TraceContext

-- TraceState::default
unfoldable pub default_state : TraceState
default_state = record { counter = 0; contexts = []; extensions = []; made = [] }

abbrev pub at : List TraceContext → ℕ → Option TraceContext
at [] address = none
at (c ∷ made) zero = some c
at (c ∷ made) (suc address) = at made address

-- TraceState::make_context, with its address
unfoldable pub make_context : TraceState → TraceState × ℕ
unfolding hex_16
make_context state = (
  record {
    counter = u64 (state.counter + 1);
    contexts = state.contexts;
    extensions = state.extensions;
    made =
        state.made
        ++ record { trace_id = hex_16 (u64 (state.counter + 1)); request_id = none } ∷ [];
  },
  length state.made,
)

-- The context of the parent, if there is a parent that has one.
abbrev pub inherited : TraceState → Option ℕ → Option ℕ
inherited state none = none
inherited state (some parent) = get state.extensions parent

-- `extensions_mut().insert` and TraceState::insert
abbrev pub bound : ℕ → TraceState × ℕ → TraceState
bound id (state, address) = record {
  counter = state.counter;
  contexts = insert state.contexts id address;
  extensions = insert state.extensions id address;
  made = state.made;
}

-- TraceLayer::on_new_span, once the context of the parent is looked up
unfoldable pub opened : TraceState → ℕ → Option ℕ → TraceState
unfolding make_context
opened state id none = bound id (make_context state)
opened state id (some address) = bound id (state, address)

-- TraceLayer::on_new_span
unfoldable pub on_new_span : TraceState → ℕ → Option ℕ → TraceState
unfolding opened
on_new_span state id parent = opened state id (inherited state parent)

-- TraceLayer::on_close, with TraceState::remove
unfoldable pub on_close : TraceState → ℕ → TraceState
on_close state id = record {
  counter = state.counter;
  contexts = remove state.contexts id;
  extensions = remove state.extensions id;
  made = state.made;
}

-- TraceContext::set_request_id
unfoldable pub set_at : List TraceContext → ℕ → Text → List TraceContext
set_at [] address value = []
set_at (c ∷ made) zero value = record { trace_id = c.trace_id; request_id = some value } ∷ made
set_at (c ∷ made) (suc address) value = c ∷ set_at made address value

abbrev pub requested : TraceState → Option ℕ → Text → TraceState
requested state none value = state
requested state (some address) value = record {
  counter = state.counter;
  contexts = state.contexts;
  extensions = state.extensions;
  made = set_at state.made address value;
}

-- TraceState::set_request_id, for `with_req`
unfoldable pub set_request_id : TraceState → ℕ → Text → TraceState
unfolding set_at
set_request_id state span_id value = requested state (get state.contexts span_id) value

abbrev pub find : TraceState → Option ℕ → Option TraceContext
find state none = none
find state (some address) = at state.made address

-- The context of a span.
unfoldable pub context_of : TraceState → ℕ → Option TraceContext
context_of state span_id = find state (get state.contexts span_id)

abbrev pub id_of : Option TraceContext → Option Text
id_of none = none
id_of (some c) = some c.trace_id

-- TraceState::trace_id
unfoldable pub trace_id : TraceState → ℕ → Option Text
unfolding context_of
trace_id state span_id = id_of (context_of state span_id)
