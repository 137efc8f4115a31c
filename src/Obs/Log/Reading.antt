-- ===== src/Obs/Log/Reading.antt =====
-- crates/common-obs/src/lib.rs: the texts of a log line, read back as JSON says.
use lokan_os.Prelude.{
  ltb, leb, ◌&&◌, ◌||◌, Bool, ℕ, zero, suc, ◌+◌, ◌*◌, ◌/◌, ◌%◌, ◌<◌, ◌≡◌, refl, ap, sym, ◌∙◌, true,
  false, Option, none, some, [], ◌∷◌, ◌++◌, ◌==◌, if◌then◌else◌, if-cases, ==_iff, append_assoc,
  arith,
}
use lokan_os.Prelude.Text.{Text}
use lokan_os.Prelude.Digits.{hex_4, low_digits, hex_value, hex_char, hex_value-hex_char}
use lokan_os.Obs.Log.{is_control, escape_char, escape}

-- Where a reader is: in the text, after a backslash, or before some hexadecimal digits more, with
-- the number that those before them make.
data Mode : Type 0 where
  plain escaped : Mode
  hex : ℕ → ℕ → Mode

-- What a character is to the reader.
data Sign : Type 0 where
  stop reject : Sign
  emit : ℕ → Sign
  goto : Mode → Sign

-- A hexadecimal digit: 0 to 9, a to f, or A to F.
is_hex : ℕ → Bool
is_hex c = (leb b'0' c && leb c b'9') || (leb b'a' c && leb c b'f') || (leb b'A' c && leb c b'F')

-- The characters of a JSON text (RFC 8259): no control character stands there as it is, and a
-- backslash has one of nine characters after it.
sign : Mode → ℕ → Sign
unfolding is_hex
sign plain c =
    if c == b'"'
    then stop
    else if c == b'\\'
    then goto escaped
    else if ltb c 32
    then reject
    else emit c
sign escaped c =
    if c == b'n'
    then emit 10
    else if c == b'r'
    then emit 13
    else if c == b't'
    then emit 9
    else if c == b'b'
    then emit 8
    else if c == b'f'
    then emit 12
    else if c == b'u'
    then goto (hex 3 0)
    else if c == b'"'
    then emit b'"'
    else if c == b'\\'
    then emit b'\\'
    else if c == b'/'
    then emit b'/'
    else reject
sign (hex zero n) c = if is_hex c then emit (n * 16 + hex_value c) else reject
sign (hex (suc k) n) c = if is_hex c then goto (hex k (n * 16 + hex_value c)) else reject

abbrev push : ℕ → Option (Text × Text) → Option (Text × Text)
push c none = none
push c (some (value, rest)) = some (c ∷ value, rest)

read_from : Mode → Text → Option (Text × Text)
unfolding sign
read_from mode [] = none
read_from mode (c ∷ s) = elim (sign mode c) [
  | stop ↦ some ([], s)
  | reject ↦ none
  | emit d ↦ push d (read_from plain s)
  | goto next ↦ read_from next s
]

-- A JSON text up to its closing quote, and what follows.
pub read_string : Text → Option (Text × Text)
unfolding read_from
read_string s = read_from plain s

-- What is read on from a character.
abbrev act : Text → Sign → Option (Text × Text)
act s x = elim x [
  | stop ↦ some ([], s)
  | reject ↦ none
  | emit d ↦ push d (read_from plain s)
  | goto next ↦ read_from next s
]

is_hex-hex_char : (d : ℕ) → d < 16 → is_hex (hex_char d) ≡ true
unfolding is_hex
is_hex-hex_char d h = ground arith

read_from-act :
    (mode : Mode) (c : ℕ) (s : Text) (x : Sign) → sign mode c ≡ x → read_from mode (c ∷ s) ≡ act s x
unfolding read_from
read_from-act mode c s x e = ap (act s) e

sign-digit :
    (k n c d : ℕ)
    → is_hex c ≡ true
    → hex_value c ≡ d
    → sign (hex (suc k) n) c ≡ goto (hex k (n * 16 + d))
unfolding sign
sign-digit k n c d h e = rw (h, e) refl

sign-last :
    (n c d : ℕ) → is_hex c ≡ true → hex_value c ≡ d → sign (hex zero n) c ≡ emit (n * 16 + d)
unfolding sign
sign-last n c d h e = rw (h, e) refl

read_from-digit :
    (k n d : ℕ) (s : Text)
    → d < 16
    → read_from (hex (suc k) n) (hex_char d ∷ s) ≡ read_from (hex k (n * 16 + d)) s
read_from-digit k n d s h =
    read_from-act (hex (suc k) n) (hex_char d) s (goto (hex k (n * 16 + d)))
      (sign-digit k n (hex_char d) d (is_hex-hex_char d h) (hex_value-hex_char d h))

read_from-last :
    (n d : ℕ) (s : Text)
    → d < 16
    → read_from (hex zero n) (hex_char d ∷ s) ≡ push (n * 16 + d) (read_from plain s)
read_from-last n d s h =
    read_from-act (hex zero n) (hex_char d) s (emit (n * 16 + d))
      (sign-last n (hex_char d) d (is_hex-hex_char d h) (hex_value-hex_char d h))

read_from-hex_4 :
    (c : ℕ) (s : Text) → c < 160 → read_from (hex 3 0) (hex_4 c ++ s) ≡ push c (read_from plain s)
unfolding hex_4 low_digits
read_from-hex_4 c s h =
    read_from-digit 2 0 (c / 16 / 16 / 16 % 16) _ (omega arith)
    ∙ read_from-digit 1 _ (c / 16 / 16 % 16) _ (omega arith)
    ∙ read_from-digit 0 _ (c / 16 % 16) _ (omega arith)
    ∙ read_from-last _ (c % 16) s (omega arith)
    ∙ ap (λ n. push n (read_from plain s)) (omega (arith, h))

sign-plain :
    (c : ℕ) → (c == b'"') ≡ false → (c == b'\\') ≡ false → ltb c 32 ≡ false → sign plain c ≡ emit c
unfolding sign
sign-plain c h k l = rw (h, k, l) refl

read_from-escape_char :
    (c : ℕ) (s : Text) → read_from plain (escape_char c ++ s) ≡ push c (read_from plain s)
unfolding read_from sign escape_char
read_from-escape_char c s =
    let Read : Text → Type 0 = λ t. read_from plain (t ++ s) ≡ push c (read_from plain s) in
    let same : (n : ℕ) → (c == n) ≡ true → push n (read_from plain s) ≡ push c (read_from plain s) =
      λ n e. ap (λ m. push m (read_from plain s)) (sym ((==_iff c n).0 e)) in
    if-cases Read (c == b'\\') _ _ (same b'\\') (λ not_slash.
      if-cases Read (c == b'"') _ _ (same b'"') (λ not_quote.
        if-cases Read (c == 10) _ _ (same 10) (λ _. if-cases Read (c == 13) _ _ (same 13) (λ _.
          if-cases Read (c == 9) _ _ (same 9) (λ _.
            if-cases Read (is_control c) _ _
              (λ control. read_from-hex_4 c s (ground (arith, control)))
              (λ shown.
                read_from-act plain c s (emit c)
                  (sign-plain c not_quote not_slash (ground (arith, shown)))))))))

-- A text that a log line quotes is a JSON text, in which no control character stands as it is and
-- each escape is one of JSON; it is read back as it was, whatever characters it has, and nothing of
-- what follows the closing quote is taken.
pub read_string-escape :
    (value rest : Text) → read_string (escape value ++ b'"' ∷ rest) ≡ some (value, rest)
unfolding read_string read_from sign escape
read_string-escape [] rest = refl
read_string-escape (c ∷ value) rest =
    rw (append_assoc, read_from-escape_char, read_string-escape value rest) refl
