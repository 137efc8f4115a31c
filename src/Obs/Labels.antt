-- ===== src/Obs/Labels.antt =====
-- crates/common-obs/src/metrics.rs: the labels of a sample, as the exposition format has them.
pub mod Reading
use lokan_os.Prelude.{
  ℕ, Bool, Option, none, some, List, [], ◌∷◌, ◌++◌, ◌==◌, ◌&&◌, any, reverse, if◌then◌else◌,
}
use lokan_os.Prelude.Text.{Text, codes, codes_eq}

abbrev pub escape_char : ℕ → Text
escape_char c =
    if c == b'\\'
    then codes "\\\\"
    else if c == b'"'
    then codes "\\\""
    else if c == 10
    then codes "\\n"
    else c ∷ []

-- escape_label_value
unfoldable pub escape_label_value : Text → Text
escape_label_value [] = []
escape_label_value (c ∷ value) = escape_char c ++ escape_label_value value

-- `name="value"`
unfoldable pub write_label : Text → Text → Text
unfolding escape_label_value
write_label name value = name ++ codes "=\"" ++ escape_label_value value ++ codes "\""

-- The labels after the first, each with a comma before it.
unfoldable pub write_more : List Text → List Text → Text
unfolding write_label
write_more (name ∷ names) (value ∷ values) =
    codes "," ++ write_label name value ++ write_more names values
write_more _ _ = []

-- The loop over `names.iter().zip(values.iter())`.
unfoldable pub write_pairs : List Text → List Text → Text
unfolding write_label write_more
write_pairs (name ∷ names) (value ∷ values) = write_label name value ++ write_more names values
write_pairs _ _ = []

-- write_labels
unfoldable pub write_labels : List Text → List Text → Text
unfolding write_pairs
write_labels [] values = []
write_labels (name ∷ names) values = codes "{" ++ write_pairs (name ∷ names) values ++ codes "}"

-- `while formatted.contains('.') && formatted.ends_with('0') { formatted.pop(); }` on the text
-- backwards, where `dot` says that it has a dot: no pop of a zero removes a dot.
drop_zeros : Bool → Text → Text
drop_zeros dot [] = []
drop_zeros dot (c ∷ s) = let rest = drop_zeros dot s in if dot && c == b'0' then rest else c ∷ s

-- The tests after the loop, on the text backwards.
abbrev tidy : Text → Text
tidy [] = codes "0"
tidy (c ∷ s) =
    if c == b'.'
    then reverse (b'0' ∷ c ∷ s)
    else if codes_eq (c ∷ s) (codes "0-")
    then codes "0"
    else reverse (c ∷ s)

-- format_float, from the text that `{:.6}` gives
unfoldable pub format_float : Text → Text
unfolding drop_zeros
format_float formatted = tidy (drop_zeros (any (λ c. c == b'.') formatted) (reverse formatted))
