-- ===== src/Registry/Tests.antt =====
-- services/device-registry: runs of the handlers over tables that are lists.
use lokan_os.Prelude.{
  ℕ, suc, ◌≡◌, refl, ap, ◌∙◌, ◌&&◌, true, Option, none, some, List, [], ◌∷◌, if◌then◌else◌, arith,
  ◌⊎◌, if-cases, sym,
}
use mathlib.Core.Option.{some-injective}
use lokan_os.Prelude.Text.{Text, codes, codes_eq, codes_eq-eq}
use lokan_os.Prelude.Keys.{codes_eq_iff}
use lokan_os.Prelude.Result.{Result, ok, err, is_ok}
use lokan_os.Registry.Database.{DeviceRow, with_state, map_option, Database, Json}
use lokan_os.Registry.Handlers.{database, device_of, fetch_device}
use lokan_os.Registry.Handlers.Mirrors.{replay}
use lokan_os.Registry.Handlers.Replay.{known, Call, create, delete, run, fetch_device-replay}

abbrev lookup : List DeviceRow → Text → Option DeviceRow
lookup [] id = none
lookup (row ∷ rows) id = if codes_eq row.id id then some row else lookup rows id

lookup_id :
    (rows : List DeviceRow) (id : Text) (row : DeviceRow) → lookup rows id ≡ some row → row.id ≡ id
lookup_id [] id row h = cc
lookup_id (r ∷ rows) id row h =
    if-cases (λ o. o ≡ some row → row.id ≡ id) (codes_eq r.id id) (some r) (lookup rows id)
      (λ e k. ap (λ x. x.id) (sym (some-injective r row k)) ∙ codes_eq-eq r.id id e)
      (λ e k. lookup_id rows id row k) h

-- The rows of an id, changed.
change : (DeviceRow → DeviceRow) → Text → List DeviceRow → List DeviceRow
change f id [] = []
change f id (row ∷ rows) = (if codes_eq row.id id then f row else row) ∷ change f id rows

without : Text → List DeviceRow → List DeviceRow
without id [] = []
without id (row ∷ rows) =
    let rest = without id rows in if codes_eq row.id id then rest else row ∷ rest

lookup-without :
    (rows : List DeviceRow) (of_id id : Text)
    → lookup (without of_id rows) id ≡ (if codes_eq of_id id then none else lookup rows id)
unfolding without
lookup-without [] of_id id = ground arith
lookup-without (row ∷ rows) of_id id = ground (
  arith,
  codes_eq_iff of_id id,
  codes_eq_iff row.id id,
  codes_eq_iff row.id of_id,
  lookup-without rows of_id id,
)

lookup-change :
    (f : DeviceRow → DeviceRow) (rows : List DeviceRow) (of_id id : Text)
    → ((row : DeviceRow) → row.id ≡ of_id → (f row).id ≡ of_id)
    → lookup (change f of_id rows) id
      ≡ (if codes_eq of_id id then map_option f (lookup rows id) else lookup rows id)
unfolding change
lookup-change f [] of_id id h = ground arith
lookup-change f (row ∷ rows) of_id id h =
    if-cases
      (λ r. (if codes_eq r.id id then some r else lookup (change f of_id rows) id) ≡ (
        if codes_eq of_id id
        then map_option f (if codes_eq row.id id then some row else lookup rows id)
        else (if codes_eq row.id id then some row else lookup rows id)))
      (codes_eq row.id of_id) (f row) row
      (λ e.
        let same = codes_eq-eq row.id of_id e in
        ground (
          arith,
          ap (λ i. codes_eq i id) (h row same),
          ap (λ i. codes_eq i id) same,
          lookup-change f rows of_id id h,
        ))
      (λ e. ground (
        arith,
        e,
        codes_eq_iff of_id id,
        codes_eq_iff row.id id,
        codes_eq_iff row.id of_id,
        lookup-change f rows of_id id h,
      ))

-- How many rows have this id.
count : Text → List DeviceRow → ℕ
count id [] = 0
count id (row ∷ rows) = let rest = count id rows in if codes_eq row.id id then suc rest else rest

ok_inj : {A : Type 0} {x y : A} → Path (Result Text A) (ok x) (ok y) → x ≡ y
ok_inj e = cc

none_counted :
    (rows : List DeviceRow) (id : Text)
    → Path (Result Text ℕ) (ok (count id rows)) (ok 0)
    → lookup rows id ≡ none
unfolding count
none_counted [] id h = refl
none_counted (row ∷ rows) id h = ground (arith, ok_inj h, none_counted rows id)

abbrev inserted :
    List DeviceRow → DeviceRow → Option DeviceRow → List DeviceRow × Result Text (Unit {0})
inserted rows row none = (row ∷ rows, ok tt)
inserted rows row (some old) = (rows, err (codes "UNIQUE"))

inserted_lem :
    (rows : List DeviceRow) (row : DeviceRow) (o : Option DeviceRow) (id : Text)
    → lookup (inserted rows row o).0 id
      ≡ (if is_ok (inserted rows row o).1 && codes_eq row.id id then some row else lookup rows id)
inserted_lem rows row none id = refl
inserted_lem rows row (some old) id = refl

inserted_new :
    (rows : List DeviceRow) (row : DeviceRow) (o : Option DeviceRow)
    → is_ok (inserted rows row o).1 ≡ true
    → o ≡ none
inserted_new rows row none h = refl
inserted_new rows row (some old) h = cc

abbrev tables : Database
tables = record {
  Db = List DeviceRow;
  stored = lookup;
  select_device = λ rows id. ok (lookup rows id);
  select_devices = λ rows. ok rows;
  insert_device = λ rows row. inserted rows row (lookup rows row.id);
  update_device = λ rows row. (change (λ _. row) row.id rows, ok tt);
  update_state = λ rows id state. (change (with_state state) id rows, ok tt);
  delete_device = λ rows id. (without id rows, ok (count id rows));
  select_rooms = λ rows. ok [];
  insert_room = λ rows room. (rows, ok tt);
  select_capabilities = λ rows id. ok [];
  insert_capability = λ rows id name properties. (rows, ok tt);
  last_capability = λ rows id name. ok 1;
  stored_id = lookup_id;
  select_lem = λ rows id o h. sym (ok_inj h);
  insert_lem = λ rows row id. inserted_lem rows row (lookup rows row.id) id;
  inserted_lem = λ rows row h. inserted_new rows row (lookup rows row.id) h;
  update_lem = λ rows row id. lookup-change (λ _. row) rows row.id id (λ r e. refl);
  update_state_lem =
      λ rows of_id state id. lookup-change (with_state state) rows of_id id (λ r e. e);
  delete_lem = λ rows of_id id. lookup-without rows of_id id;
  deleted_lem = none_counted;
  insert_room_lem = λ rows room. refl;
  insert_capability_lem = λ rows id name properties. refl;
}

-- Texts as values.
abbrev texts : Json
texts = record {
  Value = Text;
  empty_object = codes "{}";
  to_string = ok;
  display = λ v. v;
  from_str = ok;
  to_string_total = λ v. refl;
}

abbrev lamp : Text
lamp = codes "lamp"

abbrev calls : List (Call tables texts)
calls =
    create lamp (record {
      room_id = none;
      name = codes "Lamp";
      kind = codes "light";
      status = codes "on";
      state = codes "{}";
    })
    ∷ delete lamp
    ∷ []

fetch_device-replay_example :
    (let state = run tables texts (record { pool = []; events = [] }) calls in
      (fetch_device tables texts state lamp
        ≡ known tables texts (
            map_option
              (device_of tables texts)
              (replay tables texts (lookup []) state.events lamp)))
      ⊎ ((e : Text) × (fetch_device tables texts state lamp ≡ err (database e))))
fetch_device-replay_example = fetch_device-replay tables texts [] calls lamp
