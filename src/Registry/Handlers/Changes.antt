-- ===== src/Registry/Handlers/Changes.antt =====
-- services/device-registry/src/main.rs: the events of the handlers that change or delete.
use lokan_os.Prelude.{
  ℕ, zero, suc, ◌≡◌, refl, ap, sym, ◌∙◌, Bool, true, false, ◌&&◌, Option, none, some, if◌then◌else◌,
}
use lokan_os.Prelude.Text.{Text, codes_eq, codes_eq-eq}
use lokan_os.Prelude.Result.{Result, ok, err, is_ok, unwrap_or_else}
use lokan_os.Registry.Database.{DeviceRow, with_state, Database, Json}
use lokan_os.Registry.Handlers.{
  updated, deleted, Device, UpdateDevice, device, nothing, capability, AppState, with_pool,
  publish_event, device_of, fetch_device, merged, row_of, update_device, update_device_state,
  after_delete, delete_device, after_capability, inserted_capability,
}
use lokan_os.Registry.Handlers.Mirrors.{
  View, Mirrors, shown, shown_by, of_text, told-Mirrors, same-Mirrors, written, finish-Mirrors,
  fetch_lem, fetched-Mirrors, changed_if, stored_at,
}

module _ (sql : Database) (json : Json) where
  open sql use {Db, stored}
  open json use {Value, to_string, from_str}

  -- A device with another state.
  abbrev set_state : Device sql json → Value → Device sql json
  set_state d v = record {
    id = d.id;
    room_id = d.room_id;
    name = d.name;
    kind = d.kind;
    status = d.status;
    state = v;
  }

  -- An update of a device that is there.
  updated_to :
      (state : AppState sql json) (id : Text) (d : Device sql json) (old row : DeviceRow)
      → stored state.pool id ≡ some old
      → shown sql json d ≡ row
      → shown_by sql json updated (device d) (stored state.pool id) ≡ some row
  updated_to state id d old row there same =
      ap (shown_by sql json updated (device d)) there ∙ ap some same

  pub update-Mirrors :
      (view : View sql json) (state : AppState sql json) (id : Text)
      (payload : UpdateDevice sql json)
      → Mirrors sql json view state
      → Mirrors sql json view (update_device sql json state id payload).0
  unfolding update_device
  update-Mirrors view state id payload m =
      fetched-Mirrors sql json view state (fetch_device sql json state id) _ m (λ existing e.
        let (old, there, of_old) = fetch_lem sql json state id existing e in
        let d = merged sql json existing id payload in
        let row = row_of sql json d existing.state in
        finish-Mirrors sql json view state _ _ updated row d
          (λ done. updated_to state id d old row there (
            ap (of_text sql json row)
              (sym (written sql json d.state (json.display existing.state)))))
          (λ other.
            sql.update_lem state.pool row other
            ∙ changed_if sql json _ (codes_eq id other) (λ _. row) (stored state.pool other) old
                (stored_at sql json state.pool id other (some old) there))
          m)

  pub update_state-Mirrors :
      (view : View sql json) (state : AppState sql json) (id : Text) (new_state : Value)
      → Mirrors sql json view state
      → Mirrors sql json view (update_device_state sql json state id new_state).0
  unfolding update_device_state device_of
  update_state-Mirrors view state id new_state m =
      fetched-Mirrors sql json view state (fetch_device sql json state id) _ m (λ existing e.
        let (old, there, of_old) = fetch_lem sql json state id existing e in
        let raw = unwrap_or_else (to_string new_state) (json.display existing.state) in
        let d = set_state existing new_state in
        let same_id : id ≡ existing.id =
          sym (sql.stored_id state.pool id old there) ∙ ap (λ x. x.id) of_old in
        finish-Mirrors sql json view state _ _ updated (with_state raw old) d
          (λ done.
            ap (λ i. shown_by sql json updated (device d) (stored state.pool i)) (sym same_id)
            ∙ updated_to state id d old (with_state raw old) there (
                ap (λ x. shown sql json (set_state x new_state)) (sym of_old)
                ∙ ap (of_text sql json old)
                    (sym (written sql json new_state (json.display existing.state)))))
          (λ other.
            sql.update_state_lem state.pool id raw other
            ∙ changed_if sql json _ (codes_eq id other) (with_state raw) (stored state.pool other)
                old (stored_at sql json state.pool id other (some old) there)
            ∙ ap
                (λ i.
                  if is_ok (sql.update_state state.pool id raw).1 && codes_eq i other
                  then some (with_state raw old)
                  else stored state.pool other)
                same_id)
          m)

  gone : (b : Bool) (o : Option DeviceRow) → (b ≡ true → o ≡ none) → (if b then none else o) ≡ o
  gone true o h = sym (h refl)
  gone false o h = refl

  if_same : (b : Bool) (o : Option DeviceRow) → (if b then o else o) ≡ o
  if_same true o = refl
  if_same false o = refl

  after_delete-Mirrors :
      (view : View sql json) (state : AppState sql json) (id : Text) (pool : Db) (r : Result Text ℕ)
      → ((other : Text)
          → stored pool other
            ≡ (if is_ok r && codes_eq id other then none else stored state.pool other))
      → (r ≡ ok 0 → stored state.pool id ≡ none)
      → Mirrors sql json view state
      → Mirrors sql json view (after_delete sql json state id (pool, r)).0
  unfolding after_delete publish_event
  after_delete-Mirrors view state id pool (err e) h k m = same-Mirrors sql json view state pool m h
  after_delete-Mirrors view state id pool (ok zero) h k m =
      same-Mirrors sql json view state pool m (λ other.
        h other
        ∙ gone (codes_eq id other) (stored state.pool other)
            (λ e. ap (stored state.pool) (sym (codes_eq-eq id other e)) ∙ k refl))
  after_delete-Mirrors view state id pool (ok (suc n)) h k m =
      told-Mirrors sql json view state pool deleted id nothing m h

  pub delete-Mirrors :
      (view : View sql json) (state : AppState sql json) (id : Text)
      → Mirrors sql json view state
      → Mirrors sql json view (delete_device sql json state id).0
  unfolding delete_device
  delete-Mirrors view state id m =
      after_delete-Mirrors view state id _ _ (sql.delete_lem state.pool id)
        (sql.deleted_lem state.pool id) m

  after_capability-Mirrors :
      (view : View sql json) (state : AppState sql json) (id name : Text) (properties : Value)
      (r : Result Text ℕ)
      → Mirrors sql json view state
      → Mirrors sql json view (after_capability sql json state id name properties r).0
  unfolding after_capability publish_event
  after_capability-Mirrors view state id name properties (err e) m = m
  after_capability-Mirrors view state id name properties (ok n) m =
      told-Mirrors sql json view state state.pool updated id (capability name) m
        (λ other. sym (if_same (codes_eq id other) (stored state.pool other)))

  pub inserted_capability-Mirrors :
      (view : View sql json) (state : AppState sql json) (id name : Text) (properties : Value)
      (pool : Db) (r : Result Text (Unit {0}))
      → ((other : Text) → stored pool other ≡ stored state.pool other)
      → Mirrors sql json view state
      → Mirrors sql json view (inserted_capability sql json state id name properties (pool, r)).0
  unfolding inserted_capability
  inserted_capability-Mirrors view state id name properties pool (err e) h m =
      same-Mirrors sql json view state pool m h
  inserted_capability-Mirrors view state id name properties pool (ok x) h m =
      after_capability-Mirrors view (with_pool sql json state pool) id name properties _
        (same-Mirrors sql json view state pool m h)
