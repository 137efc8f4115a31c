-- ===== src/Gateway/Rbac/Inheritance.antt =====
-- services/api-gateway/src/rbac.rs: the roles that a role stands for.
use lokan_os.Prelude.{
  ℕ, zero, suc, ◌+◌, ◌≤◌, ◌≡◌, refl, inl, inr, true, false, some, List, [], ◌∷◌, ◌++◌, length,
  length-append, ◌||◌, arith, if◌then◌else◌, Bool-cases,
}
use lokan_os.Gateway.Rbac.{
  Role, owner, admin, member, guest, role_key, role_eq, role_eq_iff, Inherit, parents_of, expand,
  contains,
}

-- `Inherits inherit a b`: role a is b, or inherits from it, over any number of roles.
pub data Inherits (inherit : Inherit) : Role → Role → Type 0 where
  itself : {a : Role} → Inherits inherit a a
  through :
      {a b c : Role}
      → contains (parents_of inherit a) b ≡ true
      → Inherits inherit b c
      → Inherits inherit a c

contains-append :
    (xs ys : List Role) (x : Role) → contains (xs ++ ys) x ≡ (contains xs x || contains ys x)
contains-append [] ys x = refl
contains-append (y ∷ xs) ys x = ground (arith, contains-append xs ys x)

-- The parents that are still to be pushed.
unfoldable pub weight : Inherit → List Role → Role → ℕ
weight inherit visited r = if contains visited r then 0 else length (parents_of inherit r)

unfoldable pub measure : Inherit → List Role → List Role → ℕ
unfolding weight
measure inherit visited stack =
    suc (length stack)
    + (weight inherit visited owner
        + weight inherit visited admin
        + weight inherit visited member
        + weight inherit visited guest)

measure-visit :
    (inherit : Inherit) (visited : List Role) (r : Role) (stack : List Role)
    → contains visited r ≡ false
    → suc (measure inherit (r ∷ visited) (parents_of inherit r ++ stack))
      ≤ measure inherit visited (r ∷ stack)
unfolding measure weight
measure-visit inherit visited owner stack h =
    ground (arith, length-append (parents_of inherit owner) stack)
measure-visit inherit visited admin stack h =
    ground (arith, length-append (parents_of inherit admin) stack)
measure-visit inherit visited member stack h =
    ground (arith, length-append (parents_of inherit member) stack)
measure-visit inherit visited guest stack h =
    ground (arith, length-append (parents_of inherit guest) stack)

-- What the loop returns has all that was seen or waits, if what was seen has its parents there.
unfoldable pub Closed : Inherit → List Role → List Role → Type 0
Closed inherit visited stack =
    (a b : Role)
    → contains visited a ≡ true
    → contains (parents_of inherit a) b ≡ true
    → (contains visited b || contains stack b) ≡ true

unfoldable pub From : Inherit → Role → List Role → Type 0
From inherit start xs = (a : Role) → contains xs a ≡ true → Inherits inherit start a

Inherits-step :
    {inherit : Inherit} {a b c : Role}
    → Inherits inherit a b
    → contains (parents_of inherit b) c ≡ true
    → Inherits inherit a c
Inherits-step itself h = through h itself
Inherits-step (through g p) h = through g (Inherits-step p h)

From-visit :
    (inherit : Inherit) (start : Role) (visited stack : List Role) (r : Role)
    → From inherit start visited
    → From inherit start (r ∷ stack)
    → From inherit start (r ∷ visited)
unfolding From
From-visit inherit start visited stack r seen waits a h = elim (Bool-cases (role_eq r a)) [
  | inl same ↦ waits a (ground (arith, same))
  | inr other ↦ seen a (ground (arith, h, other))
]

From-push :
    (inherit : Inherit) (start : Role) (stack : List Role) (r : Role)
    → From inherit start (r ∷ stack)
    → From inherit start (parents_of inherit r ++ stack)
unfolding From
From-push inherit start stack r waits a h = elim (Bool-cases (contains (parents_of inherit r) a)) [
  | inl up ↦ Inherits-step (waits r (ground (arith, role_eq_iff r r))) up
  | inr other ↦ waits a (ground (arith, h, contains-append (parents_of inherit r) stack a, other))
]

-- The loop ends with the fuel of the measure, with a list that is closed and of inherited roles.
pub expand_lem :
    (fuel : ℕ) (inherit : Inherit) (start : Role) (visited stack : List Role)
    → measure inherit visited stack ≤ fuel
    → From inherit start visited
    → From inherit start stack
    → Closed inherit visited stack
    → (contains visited start || contains stack start) ≡ true
    → (roles : List Role) × (expand fuel inherit visited stack ≡ some roles)
      × From inherit start roles
      × Closed inherit roles []
      × (contains roles start ≡ true)
unfolding expand measure From Closed
expand_lem zero inherit start visited stack enough seen waits closed has =
    absurd (ground (arith, enough))
expand_lem (suc fuel) inherit start visited [] enough seen waits closed has =
    (visited, refl, seen, closed, ground (arith, has))
expand_lem (suc fuel) inherit start visited (r ∷ stack) enough seen waits closed has =
    elim (Bool-cases (contains visited r)) [
      | inl old ↦ simp old (
          expand_lem fuel inherit start visited stack (ground (arith, enough)) seen
            (λ a h. waits a (ground (arith, h)))
            (λ a b h g. ground (arith, closed a b h g, role_eq_iff r b, old))
            (ground (arith, has, role_eq_iff r start, old)))
      | inr fresh ↦ simp fresh (
          expand_lem fuel inherit start (r ∷ visited) (parents_of inherit r ++ stack)
            (ground (arith, enough, measure-visit inherit visited r stack fresh))
            (From-visit inherit start visited stack r seen waits)
            (From-push inherit start stack r waits)
            (λ a b h g. ground (
              arith,
              closed a b,
              contains-append (parents_of inherit r) stack b,
              role_eq_iff r a,
              role_eq_iff r b,
              h,
              g,
            ))
            (ground (
              arith,
              has,
              contains-append (parents_of inherit r) stack start,
              role_eq_iff r start,
            )))
    ]
