-- ===== src/Obs/Registry/Hidden.antt =====
-- crates/common-obs/src/metrics.rs: what the export shows of a counter that is registered.
use lokan_os.Prelude.{
  ℕ, zero, suc, ◌<◌, ◌≡◌, ◌≢◌, refl, ap, sym, subst, ◌∙◌, Bool, Option, none, some, List, [], ◌∷◌,
  ◌++◌, length, any, All, if◌then◌else◌, arith, Option-cases, inl, inr, Bool-cases, append-nil,
  append_assoc,
}
use mathlib.Core.Option.{some-injective}
use lokan_os.Prelude.Text.{Text}
use lokan_os.Obs.Floats.{Floats}
use lokan_os.Obs.Vectors.{VecInner, new, inc}
use lokan_os.Obs.Vectors.Totals.{inc_all}
use lokan_os.Obs.Registry.{
  Metrics, MetricFamily, counter, at, put, clashes, register, make, register_counter,
  encode_counter, encode_family, encode_all, encode, counted, inc_family, inc_at,
}

none≢some : {A : Type 0} (x : A) → Path (Option A) none (some x) → ⊥
none≢some x e = cc

module _ (fl : Floats) where
  -- Calls of `CounterVec::inc` through one handle.
  pub inc_calls : Metrics fl → ℕ → List (List Text × ℕ) → Metrics fl
  inc_calls metrics address [] = metrics
  inc_calls metrics address ((labels, amount) ∷ calls) =
      inc_calls (inc_at fl metrics address labels amount) address calls

  at-put_self :
      (made : List (MetricFamily fl)) (a : ℕ) (f g : MetricFamily fl)
      → at fl made a ≡ some f
      → at fl (put fl made a g) a ≡ some g
  unfolding put
  at-put_self [] a f g h = cc
  at-put_self (x ∷ made) zero f g h = refl
  at-put_self (x ∷ made) (suc a) f g h = at-put_self made a f g h

  at-put_other :
      (made : List (MetricFamily fl)) (a b : ℕ) (g : MetricFamily fl)
      → b ≢ a
      → at fl (put fl made a g) b ≡ at fl made b
  unfolding put
  at-put_other [] a b g h = refl
  at-put_other (x ∷ made) zero zero g h = absurd (h refl)
  at-put_other (x ∷ made) zero (suc b) g h = refl
  at-put_other (x ∷ made) (suc a) zero g h = refl
  at-put_other (x ∷ made) (suc a) (suc b) g h = at-put_other made a b g (λ e. h (ap suc e))

  at-append :
      (made : List (MetricFamily fl)) (f : MetricFamily fl) (a : ℕ)
      → a < length made
      → at fl (made ++ f ∷ []) a ≡ at fl made a
  at-append [] f a h = absurd (omega arith)
  at-append (x ∷ made) f zero h = refl
  at-append (x ∷ made) f (suc a) h = at-append made f a (omega arith)

  at_end :
      (made : List (MetricFamily fl)) (f : MetricFamily fl)
      → at fl (made ++ f ∷ []) (length made) ≡ some f
  at_end [] f = refl
  at_end (x ∷ made) f = at_end made f

  -- What calls through a handle leave as it was, and what they change.
  record Counted (before : Metrics fl) (address : ℕ) (vec : VecInner ℕ) (after : Metrics fl)
      : Type 0 where
    families : after.families ≡ before.families
    here : at fl after.made address ≡ some (counter vec)
    others : (b : ℕ) → b ≢ address → at fl after.made b ≡ at fl before.made b

  inc_at_lem :
      (metrics : Metrics fl) (address : ℕ) (vec next : VecInner ℕ) (labels : List Text) (amount : ℕ)
      → at fl metrics.made address ≡ some (counter vec)
      → inc vec labels amount ≡ some next
      → inc_at fl metrics address labels amount ≡ counted fl metrics address (some next)
  unfolding inc_at inc_family
  inc_at_lem metrics address vec next labels amount here e =
      ap (λ o. inc_family fl metrics address o labels amount) here
      ∙ ap (counted fl metrics address) e

  inc_calls-Counted :
      (metrics : Metrics fl) (address : ℕ) (vec after : VecInner ℕ) (calls : List (List Text × ℕ))
      → at fl metrics.made address ≡ some (counter vec)
      → inc_all vec calls ≡ some after
      → Counted metrics address after (inc_calls metrics address calls)
  unfolding inc_calls inc_all
  inc_calls-Counted metrics address vec after [] here run = record {
    families = refl;
    here = here ∙ ap (λ v. some (counter v)) (some-injective vec after run);
    others = λ b h. refl;
  }
  inc_calls-Counted metrics address vec after ((labels, amount) ∷ calls) here run =
      let next_calls : Option (VecInner ℕ) → Option (VecInner ℕ) =
        λ o. elim o [ none ↦ none | some v ↦ inc_all v calls ] in
      elim (Option-cases (inc vec labels amount)) [
        | inl e ↦ absurd (none≢some after (sym (ap next_calls e) ∙ run))
        | inr (next, e) ↦
            let step = inc_at_lem metrics address vec next labels amount here e in
            let rest =
              inc_calls-Counted (counted fl metrics address (some next)) address next after calls
                (at-put_self metrics.made address (counter vec) (counter next) here)
                (sym (ap next_calls e) ∙ run) in
            subst (λ m. Counted metrics address after (inc_calls m address calls)) (sym step)
              (record {
                families = rest.families;
                here = rest.here;
                others =
                    λ b h. rest.others b h ∙ at-put_other metrics.made address b (counter next) h;
              })
      ]

  -- Every address in the registry is that of a metric.
  abbrev pub IsRegistry : Metrics fl → Type 0
  IsRegistry metrics = All (λ a. a < length metrics.made) metrics.families

  encode_all_same :
      (made later : List (MetricFamily fl)) (families : List ℕ)
      → All (λ a. at fl later a ≡ at fl made a) families
      → encode_all fl later families ≡ encode_all fl made families
  unfolding encode_all
  encode_all_same made later [] h = refl
  encode_all_same made later (a ∷ families) h =
      rw (h.0, encode_all_same made later families h.1) refl

  encode_all-append :
      (made : List (MetricFamily fl)) (families : List ℕ) (a : ℕ)
      → encode_all fl made (families ++ a ∷ [])
        ≡ encode_all fl made families ++ encode_family fl (at fl made a)
  unfolding encode_all
  encode_all-append made [] a = append-nil (encode_family fl (at fl made a))
  encode_all-append made (b ∷ families) a = rw (encode_all-append made families a) (
      sym (
        append_assoc (encode_family fl (at fl made b)) (encode_all fl made families)
          (encode_family fl (at fl made a))))

  -- A counter of this name is registered.
  abbrev pub is_taken : Metrics fl → VecInner ℕ → Bool
  is_taken metrics vec =
      any (λ existing. clashes fl (counter vec) (at fl metrics.made existing)) metrics.families

  any_same :
      (made : List (MetricFamily fl)) (f : MetricFamily fl) (families : List ℕ)
      → All (λ a. a < length made) families
      → any (λ a. clashes fl f (at fl (made ++ f ∷ []) a)) families
        ≡ any (λ a. clashes fl f (at fl made a)) families
  any_same made f [] h = refl
  any_same made f (a ∷ families) h = rw (at-append made f a h.0, any_same made f families h.1) refl

  -- The older metrics are as they were.
  older_same :
      (made : List (MetricFamily fl)) (f : MetricFamily fl) (families later : List ℕ)
      (after : VecInner ℕ) (final : Metrics fl)
      → All (λ a. a < length made) families
      → Counted (record { made = made ++ f ∷ []; families = later }) (length made) after final
      → All (λ a. at fl final.made a ≡ at fl made a) families
  older_same made f [] later after final h c = tt
  older_same made f (a ∷ families) later after final h c = (
    c.others a (λ e. absurd (omega (arith, e, h.0))) ∙ at-append made f a h.0,
    older_same made f families later after final h.1 c,
  )

  taken_case :
      (metrics : Metrics fl) (vec after : VecInner ℕ) (final : Metrics fl)
      → IsRegistry metrics
      → Counted
          (record { made = metrics.made ++ counter vec ∷ []; families = metrics.families })
          (length metrics.made)
          after
          final
      → encode fl final ≡ encode fl metrics
  unfolding encode
  taken_case metrics vec after final valid c =
      ap (encode_all fl final.made) c.families
      ∙ encode_all_same metrics.made final.made metrics.families (
          older_same metrics.made (counter vec) metrics.families metrics.families after final valid
            c)

  fresh_case :
      (metrics : Metrics fl) (vec after : VecInner ℕ) (final : Metrics fl)
      → IsRegistry metrics
      → Counted
          (record {
            made = metrics.made ++ counter vec ∷ [];
            families = metrics.families ++ length metrics.made ∷ [];
          })
          (length metrics.made)
          after
          final
      → encode fl final ≡ encode fl metrics ++ encode_counter after
  unfolding encode encode_family
  fresh_case metrics vec after final valid c =
      let later = metrics.families ++ length metrics.made ∷ [] in
      let older =
        encode_all_same metrics.made final.made metrics.families
          (older_same metrics.made (counter vec) metrics.families later after final valid c) in
      ap (encode_all fl final.made) c.families
      ∙ encode_all-append final.made metrics.families (length metrics.made)
      ∙ ap (λ t. t ++ encode_family fl (at fl final.made (length metrics.made))) older
      ∙ ap (λ o. encode_all fl metrics.made metrics.families ++ encode_family fl o) c.here

  -- Let every address in the registry be that of a metric, and let a counter be registered and then
  -- counted up, without a panic. If no counter of this name was registered before, then the export
  -- gets the text of the counter as it is after the calls, behind what it was; if one was, then the
  -- export is what it was before, and the calls are lost.
  pub encode-register_counter :
      (metrics : Metrics fl) (name help : Text) (label_names : List Text)
      (calls : List (List Text × ℕ)) (after : VecInner ℕ)
      → IsRegistry metrics
      → inc_all (new name help label_names) calls ≡ some after
      → (let made = register_counter fl metrics name help label_names in
          encode fl (inc_calls made.0 made.1 calls))
        ≡ (if is_taken metrics (new name help label_names)
            then encode fl metrics
            else encode fl metrics ++ encode_counter after)
  unfolding register_counter make register encode
  encode-register_counter metrics name help label_names calls after valid run =
      let vec = new name help label_names in
      let made = metrics.made ++ counter vec ∷ [] in
      let address = length metrics.made in
      let here : at fl made address ≡ some (counter vec) = at_end metrics.made (counter vec) in
      let with_families : List ℕ → Metrics fl = λ fs. record { made = made; families = fs } in
      let choose : Bool → Text = λ b. encode fl (
        inc_calls
          (if b
            then with_families metrics.families
            else with_families (metrics.families ++ address ∷ []))
          address calls) in
      ap choose (any_same metrics.made (counter vec) metrics.families valid)
      ∙ elim (Bool-cases (is_taken metrics vec)) [
        | inl b ↦
            ap choose b
            ∙ taken_case metrics vec after _ valid (
                inc_calls-Counted (with_families metrics.families) address vec after calls here run)
            ∙ ap (λ b. if b then encode fl metrics else encode fl metrics ++ encode_counter after)
                (sym b)
        | inr b ↦
            ap choose b
            ∙ fresh_case metrics vec after _ valid (
                inc_calls-Counted (with_families (metrics.families ++ address ∷ [])) address vec
                  after calls here run)
            ∙ ap (λ b. if b then encode fl metrics else encode fl metrics ++ encode_counter after)
                (sym b)
      ]
