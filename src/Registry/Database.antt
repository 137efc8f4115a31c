-- ===== src/Registry/Database.antt =====
-- services/device-registry/src/main.rs: the rows of the tables, and the statements that the service
-- runs. `sqlx`, the database behind it and `serde_json` are parameters.
use lokan_os.Prelude.{ℕ, ◌≡◌, true, ◌&&◌, Option, none, some, List, if◌then◌else◌}
use lokan_os.Prelude.Text.{Text, codes_eq}
use lokan_os.Prelude.Result.{Result, ok, is_ok}

-- A row of `devices`; the state is JSON text.
pub record DeviceRow : Type 0 where
  pub id : Text
  pub room_id : Option Text
  pub name : Text
  pub kind : Text
  pub status : Text
  pub state : Text

pub record Room : Type 0 where
  pub id : Text
  pub name : Text

-- A row of `capabilities`, whose ids the database gives.
pub record CapabilityRow : Type 0 where
  pub id : ℕ
  pub device_id : Text
  pub capability : Text
  pub properties : Text

-- A row with another state.
abbrev pub with_state : Text → DeviceRow → DeviceRow
with_state state row = record {
  id = row.id;
  room_id = row.room_id;
  name = row.name;
  kind = row.kind;
  status = row.status;
  state = state;
}

abbrev pub map_option : {A B : Type 0} → (A → B) → Option A → Option B
map_option f none = none
map_option f (some x) = some (f x)

-- The service's statements. `stored` is what the table `devices` has. As SQL has it, a statement that
-- fails changes nothing, and one that succeeds changes the rows that its WHERE names;
-- and an id is a primary key.
pub record Database : Type 1 where
  pub Db : Type 0
  pub stored : Db → Text → Option DeviceRow
  pub select_device : Db → Text → Result Text (Option DeviceRow)
  pub select_devices : Db → Result Text (List DeviceRow)
  pub insert_device : Db → DeviceRow → Db × Result Text (Unit {0})
  pub update_device : Db → DeviceRow → Db × Result Text (Unit {0})
  pub update_state : Db → Text → Text → Db × Result Text (Unit {0})
  pub delete_device : Db → Text → Db × Result Text ℕ
  pub select_rooms : Db → Result Text (List Room)
  pub insert_room : Db → Room → Db × Result Text (Unit {0})
  pub select_capabilities : Db → Text → Result Text (List CapabilityRow)
  pub insert_capability : Db → Text → Text → Text → Db × Result Text (Unit {0})
  pub last_capability : Db → Text → Text → Result Text ℕ
  pub stored_id : (db : Db) (id : Text) (row : DeviceRow) → stored db id ≡ some row → row.id ≡ id
  pub select_lem :
      (db : Db) (id : Text) (row : Option DeviceRow)
      → select_device db id ≡ ok row
      → row ≡ stored db id
  pub insert_lem :
      (db : Db) (row : DeviceRow) (id : Text)
      → stored (insert_device db row).0 id
        ≡ (if is_ok (insert_device db row).1 && codes_eq row.id id then some row else stored db id)
  pub inserted_lem :
      (db : Db) (row : DeviceRow) → is_ok (insert_device db row).1 ≡ true → stored db row.id ≡ none
  pub update_lem :
      (db : Db) (row : DeviceRow) (id : Text)
      → stored (update_device db row).0 id ≡ (
          if is_ok (update_device db row).1 && codes_eq row.id id
          then map_option (λ _. row) (stored db id)
          else stored db id)
  pub update_state_lem :
      (db : Db) (of_id state id : Text)
      → stored (update_state db of_id state).0 id ≡ (
          if is_ok (update_state db of_id state).1 && codes_eq of_id id
          then map_option (with_state state) (stored db id)
          else stored db id)
  pub delete_lem :
      (db : Db) (of_id id : Text)
      → stored (delete_device db of_id).0 id
        ≡ (if is_ok (delete_device db of_id).1 && codes_eq of_id id then none else stored db id)
  pub deleted_lem : (db : Db) (id : Text) → (delete_device db id).1 ≡ ok 0 → stored db id ≡ none
  pub insert_room_lem : (db : Db) (room : Room) → stored (insert_room db room).0 ≡ stored db
  pub insert_capability_lem :
      (db : Db) (id capability properties : Text)
      → stored (insert_capability db id capability properties).0 ≡ stored db

-- What the service uses of `serde_json`: every value can be written. That a value is read back as it
-- was is not said: numbers may be rounded.
pub record Json : Type 1 where
  pub Value : Type 0
  pub empty_object : Value
  pub to_string : Value → Result Text Text
  pub display : Value → Text
  pub from_str : Text → Result Text Value
  pub to_string_total : (v : Value) → is_ok (to_string v) ≡ true
