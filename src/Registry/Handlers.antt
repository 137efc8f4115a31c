-- ===== src/Registry/Handlers.antt =====
-- services/device-registry/src/main.rs: the handlers. `Uuid::new_v4` is an argument. The source holds
-- no lock from the first statement of a handler to its event; each handler is run to its end here,
-- so handlers that interleave are not covered. The events of the broadcast channel are kept in the
-- order in which they are sent.
pub mod Mirrors
pub mod Changes
pub mod Replay
use lokan_os.Prelude.{ℕ, zero, suc, Option, none, some, List, [], ◌∷◌, ◌++◌, map}
use lokan_os.Prelude.Text.{Text, codes}
use lokan_os.Prelude.Result.{Result, ok, err, ◌>>=◌, map_err, unwrap_or_else}
use lokan_os.Prelude.Dict.{unwrap_or}
use lokan_os.Registry.Database.{DeviceRow, Room, CapabilityRow, Database, Json}

pub data RegistryError : Type 0 where
  not_found : RegistryError
  database : Text → RegistryError

-- RegistryError::into_response
unfoldable pub status : RegistryError → ℕ
status not_found = 404
status (database e) = 500

pub data EventKind : Type 0 where
  created updated deleted : EventKind

module _ (database_of : Database) (json : Json) where
  open database_of use {
    Db, select_device, select_devices, insert_device, update_state, delete_device as delete_row,
    select_rooms, insert_room, select_capabilities, insert_capability, last_capability,
  }
  open json use {Value, empty_object, to_string, display, from_str}

  pub record Device : Type 0 where
    pub id : Text
    pub room_id : Option Text
    pub name : Text
    pub kind : Text
    pub status : Text
    pub state : Value

  pub record NewDevice : Type 0 where
    pub room_id : Option Text
    pub name : Text
    pub kind : Text
    pub status : Text
    pub state : Value

  pub record UpdateDevice : Type 0 where
    pub room_id : Option Text
    pub name : Option Text
    pub kind : Option Text
    pub status : Option Text
    pub state : Option Value

  pub record Capability : Type 0 where
    pub id : ℕ
    pub device_id : Text
    pub capability : Text
    pub properties : Value

  -- What an event carries: a device, `{}`, or the name of a capability.
  pub data Payload : Type 0 where
    device : Device → Payload
    nothing : Payload
    capability : Text → Payload

  pub record DeviceEvent : Type 0 where
    pub kind : EventKind
    pub device_id : Text
    pub payload : Payload

  pub record AppState : Type 0 where
    pub pool : Db
    pub events : List DeviceEvent

  abbrev pub Answer : Type 0 → Type 0
  Answer A = AppState × Result RegistryError A

  abbrev pub with_pool : AppState → Db → AppState
  with_pool state pool = record { pool = pool; events = state.events }

  -- publish_event
  unfoldable pub publish_event : AppState → EventKind → Text → Payload → AppState
  publish_event state kind id payload = record {
    pool = state.pool;
    events = state.events ++ record { kind = kind; device_id = id; payload = payload } ∷ [];
  }

  -- parse_state
  unfoldable pub parse_state : Text → Value
  parse_state raw = unwrap_or_else (from_str raw) empty_object

  -- The `Device` of a row.
  abbrev pub device_of : DeviceRow → Device
  unfolding parse_state
  device_of row = record {
    id = row.id;
    room_id = row.room_id;
    name = row.name;
    kind = row.kind;
    status = row.status;
    state = parse_state row.state;
  }

  -- list_rooms
  pub list_rooms : AppState → Result RegistryError (List Room)
  list_rooms state = map_err database (select_rooms state.pool)

  -- create_room
  unfoldable pub create_room : AppState → Text → Text → Answer Room
  create_room state id name =
      let room : Room = record { id = id; name = name } in
      let (pool, done) = insert_room state.pool room in
      (with_pool state pool, map_err database done >>= λ _. ok room)

  -- list_devices
  pub list_devices : AppState → Result RegistryError (List Device)
  unfolding device_of
  list_devices state =
      map_err database (select_devices state.pool) >>= λ rows. ok (map device_of rows)

  abbrev pub found : Option DeviceRow → Result RegistryError Device
  unfolding device_of
  found none = err not_found
  found (some row) = ok (device_of row)

  -- fetch_device
  unfoldable pub fetch_device : AppState → Text → Result RegistryError Device
  unfolding found
  fetch_device state id = map_err database (select_device state.pool id) >>= found

  -- The end of a handler that changes one device: `?` on the statement, and the event.
  abbrev pub finish : AppState → Db × Result Text (Unit {0}) → EventKind → Device → Answer Device
  unfolding publish_event
  finish state (pool, err e) kind d = (with_pool state pool, err (database e))
  finish state (pool, ok _) kind d =
      (publish_event (with_pool state pool) kind d.id (device d), ok d)

  -- create_device
  unfoldable pub create_device : AppState → Text → NewDevice → Answer Device
  unfolding finish
  create_device state id payload =
      let row : DeviceRow = record {
        id = id;
        room_id = payload.room_id;
        name = payload.name;
        kind = payload.kind;
        status = payload.status;
        state = unwrap_or_else (to_string payload.state) (codes "{}");
      } in
      let d : Device = record {
        id = id;
        room_id = payload.room_id;
        name = payload.name;
        kind = payload.kind;
        status = payload.status;
        state = payload.state;
      } in
      finish state (insert_device state.pool row) created d

  -- Option::or
  abbrev pub or_option : Option Text → Option Text → Option Text
  or_option none other = other
  or_option (some t) other = some t

  -- The device as the update leaves it.
  abbrev pub merged : Device → Text → UpdateDevice → Device
  merged existing id payload = record {
    id = id;
    room_id = or_option payload.room_id existing.room_id;
    name = unwrap_or payload.name existing.name;
    kind = unwrap_or payload.kind existing.kind;
    status = unwrap_or payload.status existing.status;
    state = unwrap_or payload.state existing.state;
  }

  -- The row of a device; `old` is its state of before.
  abbrev pub row_of : Device → Value → DeviceRow
  row_of d old = record {
    id = d.id;
    room_id = d.room_id;
    name = d.name;
    kind = d.kind;
    status = d.status;
    state = unwrap_or_else (to_string d.state) (display old);
  }

  -- `?` on the device that is fetched first.
  abbrev pub fetched :
      AppState → Result RegistryError Device → (Device → Answer Device) → Answer Device
  fetched state (err e) rest = (state, err e)
  fetched state (ok existing) rest = rest existing

  -- update_device
  unfoldable pub update_device : AppState → Text → UpdateDevice → Answer Device
  unfolding fetch_device finish
  update_device state id payload = fetched state (fetch_device state id) (λ existing.
      let d = merged existing id payload in
      finish state (database_of.update_device state.pool (row_of d existing.state)) updated d)

  -- update_device_state
  unfoldable pub update_device_state : AppState → Text → Value → Answer Device
  unfolding fetch_device finish
  update_device_state state id new_state = fetched state (fetch_device state id) (λ existing.
      finish state
        (update_state state.pool id (unwrap_or_else (to_string new_state) (display existing.state)))
        updated
        (record {
          id = existing.id;
          room_id = existing.room_id;
          name = existing.name;
          kind = existing.kind;
          status = existing.status;
          state = new_state;
        }))

  abbrev pub after_delete : AppState → Text → Db × Result Text ℕ → Answer ℕ
  unfolding publish_event
  after_delete state id (pool, err e) = (with_pool state pool, err (database e))
  after_delete state id (pool, ok zero) = (with_pool state pool, err not_found)
  after_delete state id (pool, ok (suc n)) =
      (publish_event (with_pool state pool) deleted id nothing, ok 204)

  -- delete_device
  unfoldable pub delete_device : AppState → Text → Answer ℕ
  unfolding after_delete
  delete_device state id = after_delete state id (delete_row state.pool id)

  -- list_capabilities
  pub list_capabilities : AppState → Text → Result RegistryError (List Capability)
  unfolding parse_state
  list_capabilities state id = map_err database (select_capabilities state.pool id) >>= λ rows. ok (
      map
        (λ row. record {
          id = row.id;
          device_id = row.device_id;
          capability = row.capability;
          properties = parse_state row.properties;
        })
        rows)

  abbrev pub after_capability : AppState → Text → Text → Value → Result Text ℕ → Answer Capability
  unfolding publish_event
  after_capability state id name properties (err e) = (state, err (database e))
  after_capability state id name properties (ok cap_id) = (
    publish_event state updated id (capability name),
    ok (record { id = cap_id; device_id = id; capability = name; properties = properties }),
  )

  -- `?` on the insertion, and then the query for the id.
  abbrev pub inserted_capability :
      AppState → Text → Text → Value → Db × Result Text (Unit {0}) → Answer Capability
  unfolding after_capability
  inserted_capability state id name properties (pool, err e) =
      (with_pool state pool, err (database e))
  inserted_capability state id name properties (pool, ok _) =
      after_capability (with_pool state pool) id name properties (last_capability pool id name)

  -- add_capability
  unfoldable pub add_capability : AppState → Text → Text → Value → Answer Capability
  unfolding inserted_capability
  add_capability state id name properties =
      inserted_capability state id name properties
        (insert_capability state.pool id name (unwrap_or_else (to_string properties) (codes "{}")))
