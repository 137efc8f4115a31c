-- ===== src/Obs/Log.antt =====
-- crates/common-obs/src/lib.rs: the log lines. The writer behind `JsonWriter` is the text that was
-- written, and takes all it is given.
pub mod Reading
pub mod Lines
use lokan_os.Prelude.{
  ℕ, Bool, true, false, ◌||◌, ◌==◌, Option, none, some, List, [], ◌∷◌, ◌++◌, map, if◌then◌else◌,
}
use lokan_os.Prelude.Text.{Text, codes, in_range, to_ascii_lowercase}
use lokan_os.Prelude.Digits.{hex_4}

-- char::is_control
abbrev pub is_control : ℕ → Bool
is_control c = in_range 0 31 c || in_range 127 159 c

unfoldable pub escape_char : ℕ → Text
unfolding hex_4
escape_char c =
    if c == b'\\'
    then codes "\\\\"
    else if c == b'"'
    then codes "\\\""
    else if c == 10
    then codes "\\n"
    else if c == 13
    then codes "\\r"
    else if c == 9
    then codes "\\t"
    else if is_control c
    then codes "\\u" ++ hex_4 c
    else c ∷ []

-- escape
unfoldable pub escape : Text → Text
unfolding escape_char
escape [] = []
escape (c ∷ input) = escape_char c ++ escape input

-- What a field has, as `JsonFieldVisitor` records it; a number is its text.
pub data JsonValue : Type 0 where
  string : Text → JsonValue
  number : Text → JsonValue
  boolean : Bool → JsonValue

pub record JsonWriter : Type 0 where
  pub written : Text
  pub needs_comma : Bool

-- JsonWriter::write_raw
abbrev pub write_raw : JsonWriter → Text → JsonWriter
write_raw json value = record { written = json.written ++ value; needs_comma = json.needs_comma }

-- JsonWriter::write_comma
abbrev pub write_comma : JsonWriter → JsonWriter
write_comma json = record {
  written = json.written ++ (if json.needs_comma then codes "," else []);
  needs_comma = true;
}

-- The text that JsonWriter::write_quoted writes
unfoldable pub quoted : Text → Text
unfolding escape
quoted value = codes "\"" ++ (escape value ++ codes "\"")

-- JsonWriter::write_string_field
unfoldable pub write_string_field : JsonWriter → Text → Text → JsonWriter
unfolding quoted
write_string_field json key value =
    write_raw (write_comma json) (quoted key ++ (codes ":" ++ quoted value))

-- JsonWriter::write_null_field
unfoldable pub write_null_field : JsonWriter → Text → JsonWriter
unfolding quoted
write_null_field json key = write_raw (write_comma json) (quoted key ++ codes ":null")

-- The text that JsonValue::write writes
unfoldable pub write_value : JsonValue → Text
unfolding quoted
write_value (string value) = quoted value
write_value (number value) = value
write_value (boolean true) = codes "true"
write_value (boolean false) = codes "false"

-- The loop of JsonWriter::write_fields_object; `first` says that no field is written yet.
unfoldable pub write_entries : Bool → List (Text × JsonValue) → Text
unfolding quoted write_value
write_entries first [] = []
write_entries first ((name, value) ∷ fields) =
    (if first then [] else codes ",")
    ++ (quoted name ++ (codes ":" ++ (write_value value ++ write_entries false fields)))

-- JsonWriter::write_fields_object
unfoldable pub write_fields_object : JsonWriter → Text → List (Text × JsonValue) → JsonWriter
unfolding quoted write_entries
write_fields_object json key fields =
    write_raw (write_comma json)
      (quoted key ++ (codes ":{" ++ (write_entries true fields ++ codes "}")))

-- `match … { Some(id) => write_string_field, None => write_null_field }`
abbrev pub write_optional : JsonWriter → Text → Option Text → JsonWriter
unfolding write_string_field write_null_field
write_optional json key none = write_null_field json key
write_optional json key (some value) = write_string_field json key value

-- ObsJsonFormat::format_event
unfoldable pub format_event :
    Text → Text → Text → Option Text → Option Text → List (Text × JsonValue) → Text
unfolding write_optional write_string_field write_fields_object
format_event service level target trace_id request_id fields =
    let begun : JsonWriter = record { written = codes "{"; needs_comma = false } in
    let json1 = write_string_field begun (codes "level") (map to_ascii_lowercase level) in
    let json2 = write_string_field json1 (codes "target") target in
    let json3 = write_string_field json2 (codes "service") service in
    let json4 = write_optional json3 (codes "trace_id") trace_id in
    let json5 = write_optional json4 (codes "request_id") request_id in
    let json6 = write_fields_object json5 (codes "fields") fields in
    (write_raw json6 (codes "}")).written ++ (10 ∷ [])
