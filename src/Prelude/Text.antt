-- ===== src/Prelude/Text.antt =====
-- Text as Rust's `str` shows it: code points, length in UTF-8 bytes, ASCII classes and cases.
use Prim.Native.Char.{code}
use Prim.Native.String.{String}
use Prim.Native.Nat.{ℕ, ◌+◌}
use mathlib.Core.Path.{◌≡◌, refl}
use mathlib.Core.Bool.{Bool, true, false, ◌&&◌, ◌||◌}
use mathlib.Core.List.{List, [], ◌∷◌, ◌++◌, map, reverse}
use native.Mathlib.Omega.{arith}
use lokan_os.Prelude.Tests.{ltb, leb, ◌==◌, if◌then◌else◌}

-- A text by its code points.
abbrev pub Text : Type 0
Text = List ℕ

-- The code points of a text.
abbrev pub codes : String → List ℕ
codes String.[] = []
codes (String.◌∷◌ c s) = code c ∷ codes s

-- char::len_utf8
abbrev pub utf8_width : ℕ → ℕ
utf8_width c = if ltb c 0x80 then 1 else if ltb c 0x800 then 2 else if ltb c 0x10000 then 3 else 4

-- str::len
abbrev pub byte_len : List ℕ → ℕ
byte_len [] = 0
byte_len (c ∷ s) = utf8_width c + byte_len s

abbrev pub in_range : ℕ → ℕ → ℕ → Bool
in_range lo hi c = leb lo c && leb c hi

abbrev pub is_ascii_digit : ℕ → Bool
is_ascii_digit c = in_range b'0' b'9' c

-- char::is_ascii_hexdigit
abbrev pub is_ascii_hexdigit : ℕ → Bool
is_ascii_hexdigit c = is_ascii_digit c || in_range b'a' b'f' c || in_range b'A' b'F' c

-- char::is_ascii_alphanumeric
abbrev pub is_ascii_alphanumeric : ℕ → Bool
is_ascii_alphanumeric c = is_ascii_digit c || in_range b'a' b'z' c || in_range b'A' b'Z' c

-- char::is_ascii_graphic
abbrev pub is_ascii_graphic : ℕ → Bool
is_ascii_graphic c = in_range 33 126 c

-- char::to_ascii_lowercase
abbrev pub to_ascii_lowercase : ℕ → ℕ
to_ascii_lowercase c = if in_range b'A' b'Z' c then c + 32 else c

abbrev pub codes_eq : List ℕ → List ℕ → Bool
codes_eq [] [] = true
codes_eq (c ∷ s) (d ∷ t) = c == d && codes_eq s t
codes_eq _ _ = false

-- str::eq_ignore_ascii_case
abbrev pub eq_ignore_ascii_case : String → String → Bool
eq_ignore_ascii_case s t =
    codes_eq (map to_ascii_lowercase (codes s)) (map to_ascii_lowercase (codes t))

-- char::is_whitespace: the Unicode property White_Space.
abbrev pub is_whitespace : ℕ → Bool
is_whitespace c =
    in_range 9 13 c
    || c == 32
    || c == 0x85
    || c == 0xa0
    || c == 0x1680
    || in_range 0x2000 0x200a c
    || in_range 0x2028 0x2029 c
    || c == 0x202f
    || c == 0x205f
    || c == 0x3000

pub trim_start : List ℕ → List ℕ
trim_start [] = []
trim_start (c ∷ s) = if is_whitespace c then trim_start s else c ∷ s

-- str::trim
unfoldable pub trim : List ℕ → List ℕ
unfolding trim_start
trim s = reverse (trim_start (reverse (trim_start s)))

abbrev pub push_word : List ℕ → List (List ℕ) → List (List ℕ)
push_word [] words = words
push_word (c ∷ cur) words = reverse (c ∷ cur) ∷ words

-- The pieces of a text between characters that are separators, the empty ones left out. `cur` is
-- the piece being read, backwards.
unfoldable pub pieces : (ℕ → Bool) → List ℕ → List ℕ → List (List ℕ)
pieces is_sep cur [] = push_word cur []
pieces is_sep cur (c ∷ s) =
    let closed = push_word cur (pieces is_sep [] s) in
    let longer = pieces is_sep (c ∷ cur) s in if is_sep c then closed else longer

-- str::split_whitespace
unfoldable pub split_whitespace : List ℕ → List (List ℕ)
unfolding pieces
split_whitespace s = pieces is_whitespace [] s

-- A line without its line feed, and without a carriage return before that; given backwards.
abbrev close_line : List ℕ → List ℕ
close_line [] = []
close_line (c ∷ cur) = if c == 13 then reverse cur else reverse (c ∷ cur)

abbrev last_line : List ℕ → List (List ℕ)
last_line [] = []
last_line (c ∷ cur) = reverse (c ∷ cur) ∷ []

lines_from : List ℕ → List ℕ → List (List ℕ)
lines_from cur [] = last_line cur
lines_from cur (c ∷ s) =
    let closed = close_line cur ∷ lines_from [] s in
    let longer = lines_from (c ∷ cur) s in if c == 10 then closed else longer

-- str::lines
unfoldable pub lines : List ℕ → List (List ℕ)
unfolding lines_from
lines s = lines_from [] s

-- The order of `str`: that of the bytes, which is that of the code points.
abbrev pub codes_lt : List ℕ → List ℕ → Bool
codes_lt [] [] = false
codes_lt [] (d ∷ t) = true
codes_lt (c ∷ s) [] = false
codes_lt (c ∷ s) (d ∷ t) = ltb c d || (c == d && codes_lt s t)

pub codes_eq-eq : (s t : List ℕ) → codes_eq s t ≡ true → s ≡ t
codes_eq-eq [] [] h = refl
codes_eq-eq (c ∷ s) (d ∷ t) h = ground (arith, codes_eq-eq s t)
codes_eq-eq [] (d ∷ t) h = cc
codes_eq-eq (c ∷ s) [] h = cc

pub byte_len-append : (s t : List ℕ) → byte_len (s ++ t) ≡ byte_len s + byte_len t
byte_len-append [] t = omega arith
byte_len-append (c ∷ s) t = omega (arith, byte_len-append s t)
