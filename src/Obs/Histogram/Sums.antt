-- ===== src/Obs/Histogram/Sums.antt =====
-- crates/common-obs/src/metrics.rs: sums of the first counts of a histogram.
use lokan_os.Prelude.{
  ℕ, zero, suc, ◌+◌, ◌≤◌, ◌<◌, ◌^◌, ◌≡◌, refl, ap, List, [], ◌∷◌, length, u64, arith, if◌then◌else◌,
  ltb,
}
use lokan_os.Obs.Histogram.{replicate, bump, get_or_zero}

-- The first counts, added up without wrapping.
unfoldable pub prefix : ℕ → List ℕ → ℕ
prefix zero counts = 0
prefix (suc k) [] = 0
prefix (suc k) (c ∷ counts) = c + prefix k counts

unfoldable pub total : List ℕ → ℕ
unfolding prefix
total counts = prefix (length counts) counts

pub prefix-bump :
    (counts : List ℕ) (i k : ℕ)
    → i < length counts
    → total counts + 1 < 2 ^ 64
    → prefix k (bump counts i) ≡ prefix k counts + (if ltb i k then 1 else 0)
unfolding prefix bump total
prefix-bump [] i k h small = absurd (omega arith)
prefix-bump (c ∷ counts) i zero h small = ground arith
prefix-bump (c ∷ counts) zero (suc k) h small = ground arith
prefix-bump (c ∷ counts) (suc i) (suc k) h small =
    ground (arith, prefix-bump counts i k (omega arith) (omega arith))

pub length-bump : (counts : List ℕ) (i : ℕ) → length (bump counts i) ≡ length counts
unfolding bump
length-bump [] i = refl
length-bump (c ∷ counts) zero = refl
length-bump (c ∷ counts) (suc i) = ap suc (length-bump counts i)

pub prefix-replicate : (k n : ℕ) → prefix k (replicate n 0) ≡ 0
unfolding prefix replicate
prefix-replicate zero n = refl
prefix-replicate (suc k) zero = refl
prefix-replicate (suc k) (suc n) = omega (arith, prefix-replicate k n)

pub length-replicate : (n x : ℕ) → length (replicate n x) ≡ n
unfolding replicate
length-replicate zero x = refl
length-replicate (suc n) x = ap suc (length-replicate n x)

prefix-suc :
    (k : ℕ) (counts : List ℕ) → prefix (suc k) counts ≡ prefix k counts + get_or_zero counts k
unfolding prefix
prefix-suc zero [] = refl
prefix-suc (suc k) [] = refl
prefix-suc zero (c ∷ counts) = omega arith
prefix-suc (suc k) (c ∷ counts) = omega (arith, prefix-suc k counts)

prefix_le_total : (k : ℕ) (counts : List ℕ) → prefix k counts ≤ total counts
unfolding prefix total
prefix_le_total zero counts = omega arith
prefix_le_total (suc k) [] = omega arith
prefix_le_total (suc k) (c ∷ counts) = omega (arith, prefix_le_total k counts)

-- No sum of the first counts wraps where their total does not.
pub next-prefix :
    (k : ℕ) (counts : List ℕ)
    → total counts < 2 ^ 64
    → u64 (prefix k counts + get_or_zero counts k) ≡ prefix (suc k) counts
next-prefix k counts small = omega (arith, prefix-suc k counts, prefix_le_total (suc k) counts)
