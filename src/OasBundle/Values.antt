-- ===== src/OasBundle/Values.antt =====
-- What tools/oas-bundle.rs takes from other libraries: serde_yaml, indexmap and the tables of
-- Unicode as records, and the functions of the standard library that it calls.

use lokan_os.Prelude.{
  Bool, true, false, ◌&&◌, Option, none, some, List, [], ◌∷◌, if◌then◌else◌, any, ◌≡◌,
}
use lokan_os.Prelude.Text.{Text, codes_eq}
use lokan_os.Prelude.Result.{Result, ok, err, ◌>>=◌}

-- serde_yaml: `string`, `sequence` and `mapping` are the patterns on `Value`; `object` is a mapping
-- that is filled by inserts.
pub record Yaml : Type 1 where
  pub Value : Type 0
  pub Mapping : Type 0
  pub string : Value → Option Text
  pub sequence : Value → Option (List Value)
  pub mapping : Value → Option Mapping
  pub as_str : Value → Option Text
  pub as_mapping : Value → Option Mapping
  -- Mapping::get with a string
  pub field : Mapping → Text → Option Value
  pub entries : Mapping → List (Value × Value)
  pub eq : Value → Value → Bool
  pub text : Text → Value
  pub list : List Value → Value
  pub object : List (Text × Value) → Value

-- indexmap::IndexMap<String, V>
pub record IndexMap (V : Type 0) : Type 1 where
  pub Map : Type 0
  pub empty : Map
  pub get : Map → Text → Option V
  pub insert : Map → Text → V → Map
  pub entries : Map → List (Text × V)
  pub get-empty : (k : Text) → get empty k ≡ none
  pub get-insert :
      (m : Map) (k : Text) (v : V) (j : Text)
      → get (insert m k v) j ≡ (if codes_eq k j then some v else get m j)

-- str::to_lowercase and str::to_uppercase
pub record Unicode : Type 0 where
  pub to_lowercase : Text → Text
  pub to_uppercase : Text → Text

-- `for x in xs` with `?` in its body
unfoldable pub for_each : {S A : Type 0} → (S → A → Result Text S) → S → List A → Result Text S
for_each body s [] = ok s
for_each body s (x ∷ xs) = body s x >>= λ s'. for_each body s' xs

-- Option::ok_or_else
abbrev pub ok_or : {A : Type 0} → Option A → Text → Result Text A
ok_or none message = err message
ok_or (some x) message = ok x

-- Option::and_then
abbrev pub and_then : {A B : Type 0} → Option A → (A → Option B) → Option B
and_then none f = none
and_then (some x) f = f x

abbrev pub is_none : {A : Type 0} → Option A → Bool
is_none none = true
is_none (some x) = false

abbrev pub contains : List Text → Text → Bool
contains set k = any (codes_eq k) set

-- str::starts_with
abbrev pub starts_with : Text → Text → Bool
starts_with s [] = true
starts_with [] (c ∷ prefix) = false
starts_with (d ∷ s) (c ∷ prefix) = codes_eq (d ∷ []) (c ∷ []) && starts_with s prefix
