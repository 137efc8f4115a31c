-- ===== src/OasBundle/Loops.antt =====
-- tools/oas-bundle.rs: its loops, which end at the first error.
use lokan_os.Prelude.{List, [], ◌∷◌, ◌++◌, ◌≡◌, sym, subst, All, append_assoc, append-nil}
use lokan_os.Prelude.Text.{Text}
use lokan_os.Prelude.Result.{Result, ok, >>=-eq-ok}
use lokan_os.OasBundle.Values.{for_each}

unfoldable pub flat : {A B : Type 0} → (A → List B) → List A → List B
flat f [] = []
flat f (x ∷ xs) = f x ++ flat f xs

-- What each round of a loop adds to what was added before.
pub for_each_lem :
    {S A O : Type 0} (P : S → List O → Type 0) (body : S → A → Result Text S) (added : A → List O)
    → ((s : S) (x : A) (s' : S) (before : List O)
        → P s before
        → body s x ≡ ok s'
        → P s' (before ++ added x))
    → (s : S) (xs : List A) (s' : S) (before : List O) → P s before
    → for_each body s xs ≡ ok s'
    → P s' (before ++ flat added xs)
unfolding for_each flat
for_each_lem P body added keep s [] s' before h e =
    let same : s ≡ s' = cc e in
    subst (λ t. P t (before ++ [])) same (subst (P s) (sym (append-nil before)) h)
for_each_lem P body added keep s (x ∷ xs) s' before h e =
    let (t, first, rest) = >>=-eq-ok (body s x) _ e in
    subst (P s') (append_assoc before (added x) (flat added xs))
      (for_each_lem P body added keep t xs s' (before ++ added x) (keep s x t before h first) rest)

pub All-append :
    {A : Type 0} (P : A → Type 0) (xs ys : List A) → All P xs → All P ys → All P (xs ++ ys)
All-append P [] ys h g = g
All-append P (x ∷ xs) ys (h, hs) g = (h, All-append P xs ys hs g)

pub All-map :
    {A : Type 0} (P Q : A → Type 0) (xs : List A) → ((x : A) → P x → Q x) → All P xs → All Q xs
All-map P Q [] f h = tt
All-map P Q (x ∷ xs) f (h, hs) = (f x h, All-map P Q xs f hs)
