-- ===== src/Obs/Log/Lines.antt =====
-- crates/common-obs/src/lib.rs: an event is one line of the log.
use lokan_os.Prelude.{
  ℕ, ◌≡◌, refl, Bool, true, false, not, Option, none, some, List, [], ◌∷◌, ◌++◌, ◌==◌, all, All,
  map, if◌then◌else◌, arith,
}
use lokan_os.Prelude.Text.{Text, codes, to_ascii_lowercase}
use lokan_os.Prelude.Digits.{hex_4, low_digits}
use lokan_os.Obs.Log.{
  escape_char, escape, JsonValue, string, number, boolean, JsonWriter, write_raw, write_comma,
  quoted, write_string_field, write_null_field, write_value, write_entries, write_fields_object,
  write_optional, format_event,
}

-- No character is a line feed.
abbrev pub IsOneLine : Text → Type 0
IsOneLine t = all (λ c. not (c == 10)) t ≡ true

join : (s t : Text) → IsOneLine s → IsOneLine t → IsOneLine (s ++ t)
join [] t h k = k
join (c ∷ s) t h k = ground (arith, h, join s t)

escape_char-IsOneLine : (c : ℕ) → IsOneLine (escape_char c)
unfolding escape_char hex_4 low_digits
escape_char-IsOneLine c = ground arith

escape-IsOneLine : (t : Text) → IsOneLine (escape t)
unfolding escape
escape-IsOneLine [] = refl
escape-IsOneLine (c ∷ t) =
    join (escape_char c) (escape t) (escape_char-IsOneLine c) (escape-IsOneLine t)

quoted-IsOneLine : (t : Text) → IsOneLine (quoted t)
unfolding quoted
quoted-IsOneLine t = join (escape t) (codes "\"") (escape-IsOneLine t) refl

-- The text of a number has no line feed.
abbrev pub IsPlain : JsonValue → Type 0
IsPlain (string t) = Unit
IsPlain (number t) = IsOneLine t
IsPlain (boolean b) = Unit

write_value-IsOneLine : (v : JsonValue) → IsPlain v → IsOneLine (write_value v)
unfolding write_value
write_value-IsOneLine (string t) h = quoted-IsOneLine t
write_value-IsOneLine (number t) h = h
write_value-IsOneLine (boolean true) h = refl
write_value-IsOneLine (boolean false) h = refl

comma_IsOneLine :
    (b : Bool) (s t : Text) → IsOneLine s → IsOneLine t → IsOneLine (if b then s else t)
comma_IsOneLine true s t h k = h
comma_IsOneLine false s t h k = k

write_entries-IsOneLine :
    (first : Bool) (fields : List (Text × JsonValue))
    → All (λ field. IsPlain field.1) fields
    → IsOneLine (write_entries first fields)
unfolding write_entries
write_entries-IsOneLine first [] h = refl
write_entries-IsOneLine first ((name, value) ∷ fields) h =
    join (if first then [] else codes ",") _ (comma_IsOneLine first [] (codes ",") refl refl) (
      join (quoted name) _ (quoted-IsOneLine name) (
        join (write_value value) _ (write_value-IsOneLine value h.0)
          (write_entries-IsOneLine false fields h.1)))

written_IsOneLine :
    (json : JsonWriter) (t : Text)
    → IsOneLine json.written
    → IsOneLine t
    → IsOneLine (write_raw (write_comma json) t).written
written_IsOneLine json t h k =
    join (json.written ++ (if json.needs_comma then codes "," else [])) t
      (join json.written _ h (comma_IsOneLine json.needs_comma (codes ",") [] refl refl)) k

string_field_IsOneLine :
    (json : JsonWriter) (key value : Text)
    → IsOneLine json.written
    → IsOneLine (write_string_field json key value).written
unfolding write_string_field
string_field_IsOneLine json key value h =
    written_IsOneLine json _ h (join (quoted key) _ (quoted-IsOneLine key) (quoted-IsOneLine value))

optional_IsOneLine :
    (json : JsonWriter) (key : Text) (value : Option Text)
    → IsOneLine json.written
    → IsOneLine (write_optional json key value).written
unfolding write_optional write_null_field
optional_IsOneLine json key none h =
    written_IsOneLine json _ h (join (quoted key) (codes ":null") (quoted-IsOneLine key) refl)
optional_IsOneLine json key (some value) h = string_field_IsOneLine json key value h

fields_IsOneLine :
    (json : JsonWriter) (key : Text) (fields : List (Text × JsonValue))
    → All (λ field. IsPlain field.1) fields
    → IsOneLine json.written
    → IsOneLine (write_fields_object json key fields).written
unfolding write_fields_object
fields_IsOneLine json key fields plain h = written_IsOneLine json _ h (
    join (quoted key) _ (quoted-IsOneLine key) (
      join (write_entries true fields) (codes "}") (write_entries-IsOneLine true fields plain)
        refl))

-- Let no number among the fields be written with a line feed. Then the line of an event ends with a
-- line feed and has no other, whatever is in its target, its service, its ids and its fields: no
-- text that is logged can make up a line of its own.
pub format_event_lem :
    (service level target : Text) (trace_id request_id : Option Text)
    (fields : List (Text × JsonValue))
    → All (λ field. IsPlain field.1) fields
    → (line : Text) × (format_event service level target trace_id request_id fields
        ≡ line ++ 10 ∷ [])
      × IsOneLine line
unfolding format_event
format_event_lem service level target trace_id request_id fields plain =
    let begun : JsonWriter = record { written = codes "{"; needs_comma = false } in
    let lower = map to_ascii_lowercase level in
    let json1 = write_string_field begun (codes "level") lower in
    let json2 = write_string_field json1 (codes "target") target in
    let json3 = write_string_field json2 (codes "service") service in
    let json4 = write_optional json3 (codes "trace_id") trace_id in
    let json5 = write_optional json4 (codes "request_id") request_id in
    let json6 = write_fields_object json5 (codes "fields") fields in
    let line1 = string_field_IsOneLine begun (codes "level") lower refl in
    let line2 = string_field_IsOneLine json1 (codes "target") target line1 in
    let line3 = string_field_IsOneLine json2 (codes "service") service line2 in
    let line4 = optional_IsOneLine json3 (codes "trace_id") trace_id line3 in
    let line5 = optional_IsOneLine json4 (codes "request_id") request_id line4 in
    let line6 = fields_IsOneLine json5 (codes "fields") fields plain line5 in
    (json6.written ++ codes "}", refl, join json6.written (codes "}") line6 refl)
