-- ===== src/Registry/Handlers/Mirrors.antt =====
-- services/device-registry/src/main.rs: what a subscriber knows, and the devices in the database.
use lokan_os.Prelude.{
  ◌≡◌, refl, ap, sym, ◌∙◌, Bool, true, false, ◌&&◌, Option, none, some, List, [], ◌∷◌, ◌++◌,
  if◌then◌else◌, inl, inr,
}
use lokan_os.Prelude.Text.{Text, codes, codes_eq, codes_eq-eq}
use lokan_os.Prelude.Result.{Result, ok, err, is_ok, ◌>>=◌, map_err, unwrap_or_else, Result-cases}
use lokan_os.Registry.Database.{DeviceRow, with_state, map_option, Database, Json}
use lokan_os.Registry.Handlers.{
  RegistryError, database, EventKind, created, Device, NewDevice, Payload, device, DeviceEvent,
  AppState, Answer, with_pool, publish_event, device_of, found, fetch_device, finish, create_device,
  fetched, updated, deleted,
}

module _ (sql : Database) (json : Json) where
  open sql use {Db, stored}
  open json use {Value, to_string, from_str}

  -- What someone knows of the devices, by their ids: each as the row of a table, with its state as a
  -- JSON text.
  abbrev pub View : Type 0
  View = Text → Option DeviceRow

  -- The text that serde_json makes of a state.
  abbrev pub text_of : Value → Text
  text_of v = unwrap_or_else (to_string v) (json.display v)

  abbrev pub shown : Device sql json → DeviceRow
  shown d = record {
    id = d.id;
    room_id = d.room_id;
    name = d.name;
    kind = d.kind;
    status = d.status;
    state = text_of d.state;
  }

  -- What becomes of a device by an event on it. A device that is created was not there, and one that
  -- is updated was; whoever is told otherwise takes no notice.
  abbrev pub shown_by : EventKind → Payload sql json → Option DeviceRow → Option DeviceRow
  shown_by created (device d) none = some (shown d)
  shown_by updated (device d) (some old) = some (shown d)
  shown_by deleted payload old = none
  shown_by _ _ old = old

  -- What a subscriber knows after an event.
  abbrev pub told : View → DeviceEvent sql json → View
  told view event id =
      if codes_eq event.device_id id then shown_by event.kind event.payload (view id) else view id

  unfoldable pub replay : View → List (DeviceEvent sql json) → View
  replay view [] = view
  replay view (event ∷ events) = replay (told view event) events

  abbrev pub Mirrors : View → AppState sql json → Type 0
  Mirrors view state = (id : Text) → replay view state.events id ≡ stored state.pool id

  replay-append :
      (view : View) (events : List (DeviceEvent sql json)) (event : DeviceEvent sql json)
      → replay view (events ++ event ∷ []) ≡ told (replay view events) event
  unfolding replay
  replay-append view [] event = refl
  replay-append view (e ∷ events) event = replay-append (told view e) events event

  -- An event that tells what the database has now.
  pub told-Mirrors :
      (view : View) (state : AppState sql json) (pool : Db) (kind : EventKind) (of_id : Text)
      (payload : Payload sql json)
      → Mirrors view state
      → ((id : Text)
          → stored pool id ≡ (
              if codes_eq of_id id
              then shown_by kind payload (stored state.pool id)
              else stored state.pool id))
      → Mirrors view (publish_event sql json (with_pool sql json state pool) kind of_id payload)
  unfolding publish_event
  told-Mirrors view state pool kind of_id payload m h id =
      ap (λ v. v id) (replay-append view state.events _)
      ∙ ap (λ o. if codes_eq of_id id then shown_by kind payload o else o) (m id)
      ∙ sym (h id)

  pub same-Mirrors :
      (view : View) (state : AppState sql json) (pool : Db)
      → Mirrors view state
      → ((id : Text) → stored pool id ≡ stored state.pool id)
      → Mirrors view (with_pool sql json state pool)
  same-Mirrors view state pool m h id = m id ∙ sym (h id)

  -- A state is written as its text, whatever is at hand for a failure.
  pub written : (v : Value) (raw : Text) → unwrap_or_else (to_string v) raw ≡ text_of v
  written v raw = elim (Result-cases (to_string v)) [
    | inl (t, e) ↦ rw e refl
    | inr (e, h) ↦ absurd (cc (json.to_string_total v, ap is_ok h))
  ]

  told_if :
      (b : Bool) (kind : EventKind) (d : Device sql json) (row : DeviceRow) (old : Option DeviceRow)
      → (b ≡ true → shown_by kind (device d) old ≡ some row)
      → (if b then some row else old) ≡ (if b then shown_by kind (device d) old else old)
  told_if true kind d row old h = sym (h refl)
  told_if false kind d row old h = refl

  pub stored_at :
      (db : Db) (id other : Text) (o : Option DeviceRow)
      → stored db id ≡ o
      → codes_eq id other ≡ true
      → stored db other ≡ o
  stored_at db id other o h e = ap (stored db) (sym (codes_eq-eq id other e)) ∙ h

  -- The event of a handler that changed the row of one device to `row`: a subscriber makes the same
  -- change of what was there.
  pub finish-Mirrors :
      (view : View) (state : AppState sql json) (pool : Db) (done : Result Text (Unit {0}))
      (kind : EventKind) (row : DeviceRow) (d : Device sql json)
      → (is_ok done ≡ true → shown_by kind (device d) (stored state.pool d.id) ≡ some row)
      → ((id : Text)
          → stored pool id
            ≡ (if is_ok done && codes_eq d.id id then some row else stored state.pool id))
      → Mirrors view state
      → Mirrors view (finish sql json state (pool, done) kind d).0
  unfolding finish publish_event
  finish-Mirrors view state pool (err e) kind row d to_row h m = same-Mirrors view state pool m h
  finish-Mirrors view state pool (ok x) kind row d to_row h m =
      told-Mirrors view state pool kind d.id (device d) m (λ id.
        h id
        ∙ told_if (codes_eq d.id id) kind d row (stored state.pool id) (λ e.
          ap (λ i. shown_by kind (device d) (stored state.pool i)) (sym (codes_eq-eq d.id id e))
          ∙ to_row refl))

  -- A row with this text for its state.
  abbrev pub of_text : DeviceRow → Text → DeviceRow
  of_text row t = with_state t row

  pub create-Mirrors :
      (view : View) (state : AppState sql json) (id : Text) (payload : NewDevice sql json)
      → Mirrors view state
      → Mirrors view (create_device sql json state id payload).0
  unfolding create_device
  create-Mirrors view state id payload m =
      let d : Device sql json = record {
        id = id;
        room_id = payload.room_id;
        name = payload.name;
        kind = payload.kind;
        status = payload.status;
        state = payload.state;
      } in
      finish-Mirrors view state _ _ created _ d
        (λ done.
          ap (shown_by created (device d)) (sql.inserted_lem state.pool _ done)
          ∙ ap (λ t. some (of_text (shown d) t)) (sym (written payload.state (codes "{}"))))
        (sql.insert_lem state.pool _) m

  found_lem :
      (r : Result Text (Option DeviceRow)) (d : Device sql json)
      → (map_err database r >>= found sql json) ≡ ok d
      → (row : DeviceRow) × (r ≡ ok (some row)) × (device_of sql json row ≡ d)
  unfolding found
  found_lem (ok none) d h = cc
  found_lem (ok (some row)) d h = (row, refl, cc)
  found_lem (err e) d h = cc

  -- What `fetch_device` found is what the database has.
  pub fetch_lem :
      (state : AppState sql json) (id : Text) (d : Device sql json)
      → fetch_device sql json state id ≡ ok d
      → (row : DeviceRow) × (stored state.pool id ≡ some row) × (device_of sql json row ≡ d)
  unfolding fetch_device
  fetch_lem state id d h =
      let (row, e, of_row) = found_lem (sql.select_device state.pool id) d h in
      (row, sym (sql.select_lem state.pool id (some row) e), of_row)

  pub fetched-Mirrors :
      (view : View) (state : AppState sql json) (r : Result RegistryError (Device sql json))
      (rest : Device sql json → Answer sql json (Device sql json))
      → Mirrors view state
      → ((existing : Device sql json) → r ≡ ok existing → Mirrors view (rest existing).0)
      → Mirrors view (fetched sql json state r rest).0
  fetched-Mirrors view state (ok existing) rest m h = h existing refl
  fetched-Mirrors view state (err e) rest m h = m

  -- A change of the row that is there.
  pub changed_if :
      (b c : Bool) (f : DeviceRow → DeviceRow) (o : Option DeviceRow) (row : DeviceRow)
      → (c ≡ true → o ≡ some row)
      → (if b && c then map_option f o else o) ≡ (if b && c then some (f row) else o)
  changed_if true true f o row h = ap (map_option f) (h refl)
  changed_if true false f o row h = refl
  changed_if false true f o row h = refl
  changed_if false false f o row h = refl
