-- ===== src/Registry/Handlers/Replay.antt =====
-- services/device-registry/src/main.rs: the events, replayed, give the devices of the database.
use lokan_os.Prelude.{◌≡◌, refl, ap, sym, ◌∙◌, Option, none, some, List, [], ◌∷◌, inl, inr, ◌⊎◌}
use lokan_os.Prelude.Text.{Text}
use lokan_os.Prelude.Result.{Result, ok, err, ◌>>=◌, map_err}
use lokan_os.Registry.Database.{DeviceRow, map_option, Database, Json}
use lokan_os.Registry.Handlers.{
  RegistryError, not_found, database, Device, NewDevice, UpdateDevice, AppState, device_of,
  create_room, found, fetch_device, create_device, update_device, update_device_state,
  delete_device, add_capability,
}
use lokan_os.Registry.Handlers.Mirrors.{View, replay, Mirrors, same-Mirrors, create-Mirrors}
use lokan_os.Registry.Handlers.Changes.{
  update-Mirrors, update_state-Mirrors, delete-Mirrors, inserted_capability-Mirrors,
}

module _ (sql : Database) (json : Json) where
  open sql use {Db, stored}
  open json use {Value}

  -- A call of a handler that changes the database, with the id that is drawn for a new record.
  pub data Call : Type 0 where
    create : Text → NewDevice sql json → Call
    update : Text → UpdateDevice sql json → Call
    update_state : Text → Value → Call
    delete : Text → Call
    add : Text → Text → Value → Call
    room : Text → Text → Call

  unfoldable pub step : AppState sql json → Call → AppState sql json
  step state (create id payload) = (create_device sql json state id payload).0
  step state (update id payload) = (update_device sql json state id payload).0
  step state (update_state id v) = (update_device_state sql json state id v).0
  step state (delete id) = (delete_device sql json state id).0
  step state (add id name v) = (add_capability sql json state id name v).0
  step state (room id name) = (create_room sql json state id name).0

  -- Calls one after the other.
  unfoldable pub run : AppState sql json → List Call → AppState sql json
  unfolding step
  run state [] = state
  run state (call ∷ calls) = run (step state call) calls

  step-Mirrors :
      (view : View sql json) (state : AppState sql json) (call : Call)
      → Mirrors sql json view state
      → Mirrors sql json view (step state call)
  unfolding step add_capability create_room
  step-Mirrors view state (create id payload) m = create-Mirrors sql json view state id payload m
  step-Mirrors view state (update id payload) m = update-Mirrors sql json view state id payload m
  step-Mirrors view state (update_state id v) m = update_state-Mirrors sql json view state id v m
  step-Mirrors view state (delete id) m = delete-Mirrors sql json view state id m
  step-Mirrors view state (add id name v) m =
      inserted_capability-Mirrors sql json view state id name v _ _
        (λ other. ap (λ f. f other) (sql.insert_capability_lem state.pool id name _)) m
  step-Mirrors view state (room id name) m =
      same-Mirrors sql json view state _ m
        (λ other. ap (λ f. f other) (sql.insert_room_lem state.pool _))

  run-Mirrors :
      (view : View sql json) (state : AppState sql json) (calls : List Call)
      → Mirrors sql json view state
      → Mirrors sql json view (run state calls)
  unfolding run
  run-Mirrors view state [] m = m
  run-Mirrors view state (call ∷ calls) m =
      run-Mirrors view (step state call) calls (step-Mirrors view state call m)

  -- What a fetch answers to someone with this view.
  abbrev pub known : Option (Device sql json) → Result RegistryError (Device sql json)
  known none = err not_found
  known (some d) = ok d

  found-known :
      (o : Option DeviceRow) → found sql json o ≡ known (map_option (device_of sql json) o)
  unfolding found
  found-known none = refl
  found-known (some row) = refl

  fetch_known :
      (state : AppState sql json) (id : Text) (d : Result Text (Option DeviceRow))
      → sql.select_device state.pool id ≡ d
      → (fetch_device sql json state id
          ≡ known (map_option (device_of sql json) (stored state.pool id)))
        ⊎ ((e : Text) × (fetch_device sql json state id ≡ err (database e)))
  unfolding fetch_device found
  fetch_known state id (err e) h = inr (e, ap (λ r. map_err database r >>= found sql json) h)
  fetch_known state id (ok o) h = inl (
      ap (λ r. map_err database r >>= found sql json) h
      ∙ found-known o
      ∙ ap (λ x. known (map_option (device_of sql json) x)) (sql.select_lem state.pool id o h))

  -- Let a service start with no event sent, and let any calls of its handlers follow, each run to its
  -- end before the next, whether they succeed or fail. A subscriber knows the devices of the start,
  -- with their states as JSON texts, and goes by the kinds of the events: it adds a device that is
  -- created and was unknown, replaces one that is updated and known, and forgets one that is deleted.
  -- Then it knows the devices of the database: a fetch of any id answers with the device that the
  -- subscriber knows, its state read from the text, or with 404 where there is none, unless the
  -- database fails.
  pub fetch_device-replay :
      (pool : Db) (calls : List Call) (id : Text)
      → (let state = run (record { pool = pool; events = [] }) calls in
          (fetch_device sql json state id
            ≡ known
                (map_option (device_of sql json) (replay sql json (stored pool) state.events id)))
          ⊎ ((e : Text) × (fetch_device sql json state id ≡ err (database e))))
  unfolding replay
  fetch_device-replay pool calls id =
      let start : AppState sql json = record { pool = pool; events = [] } in
      let state = run start calls in
      let m = run-Mirrors (stored pool) start calls (λ i. refl) in
      elim (fetch_known state id _ refl) [
        | inl h ↦ inl (h ∙ ap (λ o. known (map_option (device_of sql json) o)) (sym (m id)))
        | inr h ↦ inr h
      ]
