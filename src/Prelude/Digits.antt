-- ===== src/Prelude/Digits.antt =====
-- Unsigned numbers as text: `{}` and `{:016x}`.
use Prim.Native.Nat.{ℕ, zero, suc, ◌+◌, ◌-◌, ◌*◌, ◌/◌, ◌%◌, ◌^◌, ◌<◌}
use mathlib.Core.Path.{◌≡◌, refl, ap, sym, ◌∙◌}
use mathlib.Core.Logic.{inl, inr}
use mathlib.Core.Bool.{Bool, true, false, ◌&&◌}
use mathlib.Core.Option.{Option, none, some}
use mathlib.Core.List.{[], ◌∷◌, reverse, reverse-reverse}
use native.Mathlib.Omega.{arith}
use lokan_os.Prelude.Tests.{ltb, ◌==◌, if◌then◌else◌, Bool-cases}
use lokan_os.Prelude.Text.{Text, is_ascii_digit}

-- At most `k` digits before those of `acc`.
decimal_from : ℕ → ℕ → Text → Text
decimal_from zero n acc = acc
decimal_from (suc k) n acc =
    let more = decimal_from k (n / 10) ((b'0' + n % 10) ∷ acc) in
    if ltb n 10 then (b'0' + n) ∷ acc else more

-- `{}` of a u64, which has at most 20 digits
unfoldable pub decimal : ℕ → Text
unfolding decimal_from
decimal n = decimal_from 20 n []

abbrev pub hex_char : ℕ → ℕ
hex_char d = if ltb d 10 then b'0' + d else 87 + d

-- The last `k` hexadecimal digits, the lowest first.
unfoldable pub low_digits : ℕ → ℕ → Text
low_digits zero n = []
low_digits (suc k) n = hex_char (n % 16) ∷ low_digits k (n / 16)

-- `{:016x}` of a u64
unfoldable pub hex_16 : ℕ → Text
unfolding low_digits
hex_16 n = reverse (low_digits 16 n)

-- `{:04x}` of a code point below 2^16
unfoldable pub hex_4 : ℕ → Text
unfolding low_digits
hex_4 n = reverse (low_digits 4 n)

abbrev pub hex_value : ℕ → ℕ
hex_value c = if ltb c b'a' then c - b'0' else c - 87

-- The number of digits that are given with the lowest first.
low_value : Text → ℕ
low_value [] = 0
low_value (c ∷ s) = hex_value c + 16 * low_value s

pub hex_value-hex_char : (d : ℕ) → d < 16 → hex_value (hex_char d) ≡ d
hex_value-hex_char d h = ground arith

low_value-low_digits : (k n : ℕ) → n < 16 ^ k → low_value (low_digits k n) ≡ n
unfolding low_value low_digits
low_value-low_digits zero n h = omega arith
low_value-low_digits (suc k) n h = omega (
  arith,
  hex_value-hex_char (n % 16) (omega arith),
  low_value-low_digits k (n / 16) (omega arith),
)

pub hex_16_inj : (n m : ℕ) → n < 2 ^ 64 → m < 2 ^ 64 → hex_16 n ≡ hex_16 m → n ≡ m
unfolding hex_16
hex_16_inj n m hn hm h =
    sym (low_value-low_digits 16 n hn)
    ∙ ap low_value
        (sym (reverse-reverse (low_digits 16 n)) ∙ ap reverse h ∙ reverse-reverse (low_digits 16 m))
    ∙ low_value-low_digits 16 m hm

-- What a text of digits says after the digits that say `n`.
value_from : ℕ → Text → ℕ
value_from n [] = n
value_from n (c ∷ s) = value_from (10 * n + (c - b'0')) s

value_from-decimal_from :
    (k n : ℕ) (acc : Text) → n < 10 ^ k → value_from 0 (decimal_from k n acc) ≡ value_from n acc
unfolding value_from decimal_from
value_from-decimal_from zero n acc h = ap (λ m. value_from m acc) (omega arith)
value_from-decimal_from (suc k) n acc h = elim (Bool-cases (ltb n 10)) [
  | inl small ↦ rw small (ap (λ m. value_from m acc) (omega arith))
  | inr large ↦ rw large (
      value_from-decimal_from k (n / 10) ((b'0' + n % 10) ∷ acc) (omega arith)
      ∙ ap (λ m. value_from m acc) (omega arith))
]

pub decimal_inj : (n m : ℕ) → n < 2 ^ 64 → m < 2 ^ 64 → decimal n ≡ decimal m → n ≡ m
unfolding decimal value_from
decimal_inj n m hn hm h =
    sym (value_from-decimal_from 20 n [] (omega arith))
    ∙ ap (value_from 0) h
    ∙ value_from-decimal_from 20 m [] (omega arith)

-- The digits that are left of a number below `limit`, after those that say `n`.
parse_digits : ℕ → ℕ → Text → Option ℕ
parse_digits limit n [] = some n
parse_digits limit n (c ∷ s) =
    let m = 10 * n + (c - b'0') in
    let rest = parse_digits limit m s in if is_ascii_digit c && ltb m limit then rest else none

after_sign : ℕ → ℕ → Text → Option ℕ
unfolding parse_digits
after_sign limit c [] = parse_digits limit 0 (c ∷ [])
after_sign limit c (d ∷ s) =
    if c == b'+' then parse_digits limit 0 (d ∷ s) else parse_digits limit 0 (c ∷ d ∷ s)

-- `parse` of an unsigned number below `limit`, which is `none` where Rust has an error
unfoldable pub parse_unsigned : ℕ → Text → Option ℕ
unfolding after_sign
parse_unsigned limit [] = none
parse_unsigned limit (c ∷ s) = after_sign limit c s

parse_digits-digit :
    (limit m d n : ℕ) (acc : Text)
    → d < 10
    → 10 * m + d ≡ n
    → parse_digits limit m ((b'0' + d) ∷ acc)
      ≡ (if ltb n limit then parse_digits limit n acc else none)
unfolding parse_digits
parse_digits-digit limit m d n acc small e =
    let same : 10 * m + (b'0' + d - b'0') ≡ n = omega arith in
    ap
      (λ (k : ℕ).
        if is_ascii_digit (b'0' + d) && ltb k limit then parse_digits limit k acc else none)
      same
    ∙ ground arith

parse_digits-decimal_from :
    (limit k n : ℕ) (acc : Text)
    → n < 10 ^ k
    → 0 < limit
    → parse_digits limit 0 (decimal_from k n acc)
      ≡ (if ltb n limit then parse_digits limit n acc else none)
unfolding parse_digits decimal_from
parse_digits-decimal_from limit zero n acc h pos =
    let none_left : n ≡ 0 = omega arith in rw none_left (ground (arith, pos))
parse_digits-decimal_from limit (suc k) n acc h pos = elim (Bool-cases (ltb n 10)) [
  | inl small ↦ rw small (parse_digits-digit limit 0 n n acc (ground arith) (omega arith))
  | inr large ↦ rw large (
      parse_digits-decimal_from limit k (n / 10) ((b'0' + n % 10) ∷ acc) (omega arith) pos
      ∙ ground
          (arith, parse_digits-digit limit (n / 10) (n % 10) n acc (omega arith) (omega arith)))
]

mod_ten : (n : ℕ) → n % 10 < 10
mod_ten n = omega arith

starts_with_digit : Text → Bool
starts_with_digit [] = false
starts_with_digit (c ∷ s) = is_ascii_digit c

starts_with_digit-decimal_from :
    (k n c : ℕ) (acc : Text)
    → is_ascii_digit c ≡ true
    → starts_with_digit (decimal_from k n (c ∷ acc)) ≡ true
unfolding starts_with_digit decimal_from
starts_with_digit-decimal_from zero n c acc h = h
starts_with_digit-decimal_from (suc k) n c acc h = elim (Bool-cases (ltb n 10)) [
  | inl small ↦ rw small (ground arith)
  | inr large ↦ rw large (
      starts_with_digit-decimal_from k (n / 10) (b'0' + n % 10) (c ∷ acc)
        (ground (arith, mod_ten n)))
]

starts_with_digit-decimal_from_nil :
    (k n : ℕ) → starts_with_digit (decimal_from (suc k) n []) ≡ true
unfolding starts_with_digit decimal_from
starts_with_digit-decimal_from_nil k n = elim (Bool-cases (ltb n 10)) [
  | inl small ↦ rw small (ground arith)
  | inr large ↦
      rw large
        (starts_with_digit-decimal_from k (n / 10) (b'0' + n % 10) [] (ground (arith, mod_ten n)))
]

starts_with_digit-decimal : (n : ℕ) → starts_with_digit (decimal n) ≡ true
unfolding decimal
starts_with_digit-decimal n = starts_with_digit-decimal_from_nil 19 n

parse_unsigned_lem :
    (limit : ℕ) (s : Text)
    → starts_with_digit s ≡ true
    → parse_unsigned limit s ≡ parse_digits limit 0 s
unfolding parse_unsigned starts_with_digit
parse_unsigned_lem limit [] h = cc
parse_unsigned_lem limit (c ∷ []) h = refl
parse_unsigned_lem limit (c ∷ d ∷ s) h = ground (arith, h)

parse_digits-decimal :
    (limit n : ℕ)
    → n < 2 ^ 64
    → 0 < limit
    → parse_digits limit 0 (decimal n) ≡ (if ltb n limit then some n else none)
unfolding decimal parse_digits
parse_digits-decimal limit n h pos = parse_digits-decimal_from limit 20 n [] (omega arith) pos

-- A number that is printed is read again, if it is below the limit.
pub parse_unsigned-decimal :
    (limit n : ℕ)
    → n < 2 ^ 64
    → 0 < limit
    → parse_unsigned limit (decimal n) ≡ (if ltb n limit then some n else none)
parse_unsigned-decimal limit n h pos =
    parse_unsigned_lem limit (decimal n) (starts_with_digit-decimal n)
    ∙ parse_digits-decimal limit n h pos
