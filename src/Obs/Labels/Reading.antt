-- ===== src/Obs/Labels/Reading.antt =====
-- crates/common-obs/src/metrics.rs: the labels of a sample, read back as the exposition format says.
use lokan_os.Prelude.{
  ℕ, ◌≡◌, refl, ap, Bool, true, false, Option, none, some, List, [], ◌∷◌, ◌++◌, length, ◌==◌,
  if◌then◌else◌, arith,
}
use lokan_os.Prelude.Text.{Text, codes}
use lokan_os.Obs.Labels.{
  escape_char, escape_label_value, write_label, write_more, write_pairs, write_labels,
}

abbrev push : ℕ → Option (Text × Text) → Option (Text × Text)
push c none = none
push c (some (value, rest)) = some (c ∷ value, rest)

-- The character that an escape stands for. There are three escapes.
unescaped : ℕ → Option ℕ
unescaped c =
    if c == b'n'
    then some 10
    else if c == b'\\'
    then some b'\\'
    else if c == b'"'
    then some b'"'
    else none

abbrev push_unescaped : Option ℕ → Option (Text × Text) → Option (Text × Text)
push_unescaped none value = none
push_unescaped (some c) value = push c value

-- A label value up to its closing quote, and what follows; `escaped` after a backslash. A line feed
-- has no place in a sample, which is one line.
pub read_value : Bool → Text → Option (Text × Text)
unfolding unescaped
read_value escaped [] = none
read_value true (c ∷ s) = push_unescaped (unescaped c) (read_value false s)
read_value false (c ∷ s) =
    let value = push c (read_value false s) in
    let escape = read_value true s in
    if c == b'"'
    then some ([], s)
    else if c == b'\\'
    then escape
    else if c == 10
    then none
    else value

pub strip_prefix : Text → Text → Option Text
strip_prefix [] s = some s
strip_prefix (c ∷ p) [] = none
strip_prefix (c ∷ p) (d ∷ s) = let rest = strip_prefix p s in if c == d then rest else none

infixl 10 ◌>>=◌
abbrev ◌>>=◌ : {A B : Type 0} → Option A → (A → Option B) → Option B
none >>= f = none
some x >>= f = f x

-- The value of this label, after this text.
read_label : Text → Text → Text → Option (Text × Text)
unfolding strip_prefix read_value
read_label before name s = strip_prefix (before ++ name ++ codes "=\"") s >>= read_value false

-- The values of the labels of these names, each after a comma, up to the brace.
read_more : List Text → Text → Option (List Text × Text)
unfolding read_label
read_more [] s = strip_prefix (codes "}") s >>= λ rest. some ([], rest)
read_more (name ∷ names) s =
    read_label (codes ",") name s >>= λ x. read_more names x.1 >>= λ y. some (x.0 ∷ y.0, y.1)

-- The values of the labels of these names, and what follows them.
pub read_labels : List Text → Text → Option (List Text × Text)
unfolding read_more
read_labels [] s = some ([], s)
read_labels (name ∷ names) s =
    read_label (codes "{") name s >>= λ x. read_more names x.1 >>= λ y. some (x.0 ∷ y.0, y.1)

strip_prefix-append : (p q s : Text) → strip_prefix (p ++ q) (p ++ s) ≡ strip_prefix q s
unfolding strip_prefix
strip_prefix-append [] q s = refl
strip_prefix-append (c ∷ p) q s = ground (arith, strip_prefix-append p q s)

append_assoc : (xs ys zs : Text) → (xs ++ ys) ++ zs ≡ xs ++ (ys ++ zs)
append_assoc [] ys zs = refl
append_assoc (x ∷ xs) ys zs = ap (x ∷◌) (append_assoc xs ys zs)

read_value-escape_char :
    (c : ℕ) (s : Text) → read_value false (escape_char c ++ s) ≡ push c (read_value false s)
unfolding read_value unescaped
read_value-escape_char c s = ground arith

read_value-escape_label_value :
    (value rest : Text)
    → read_value false (escape_label_value value ++ b'"' ∷ rest) ≡ some (value, rest)
unfolding escape_label_value read_value
read_value-escape_label_value [] rest = refl
read_value-escape_label_value (c ∷ value) rest =
    rw (append_assoc, read_value-escape_char, read_value-escape_label_value value rest) refl

read_label-write_label :
    (before name value rest : Text)
    → read_label before name (before ++ write_label name value ++ rest) ≡ some (value, rest)
unfolding read_label write_label
read_label-write_label before name value rest =
    simp (append_assoc, strip_prefix-append, read_value-escape_label_value value rest) refl

read_more-write_more :
    (names values : List Text) (rest : Text)
    → length names ≡ length values
    → read_more names (write_more names values ++ b'}' ∷ rest) ≡ some (values, rest)
unfolding read_more write_more write_label read_label strip_prefix
read_more-write_more [] [] rest same = refl
read_more-write_more [] (value ∷ values) rest same = cc
read_more-write_more (name ∷ names) [] rest same = cc
read_more-write_more (name ∷ names) (value ∷ values) rest same =
    simp
      (
        append_assoc,
        strip_prefix-append,
        read_value-escape_label_value,
        read_more-write_more names values rest (omega (arith, same)),
      )
      refl

-- A sample has as many label values as its metric has label names. Then the labels it is written
-- with can be read back, with the three escapes of the exposition format and no line feed in a value:
-- the values come out as they were, whatever characters they have, and nothing of what follows is
-- taken.
pub read_labels-write_labels :
    (names values : List Text) (rest : Text)
    → length names ≡ length values
    → read_labels names (write_labels names values ++ rest) ≡ some (values, rest)
unfolding read_labels write_labels write_pairs write_label read_label strip_prefix
read_labels-write_labels [] [] rest same = refl
read_labels-write_labels [] (value ∷ values) rest same = cc
read_labels-write_labels (name ∷ names) [] rest same = cc
read_labels-write_labels (name ∷ names) (value ∷ values) rest same =
    simp
      (
        append_assoc,
        strip_prefix-append,
        read_value-escape_label_value,
        read_more-write_more names values rest (omega (arith, same)),
      )
      refl
