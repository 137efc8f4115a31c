-- ===== src/Audit/Log/Reading.antt =====
-- services/audit-log/src/main.rs: what is read from the file of the log.
use mathlib.Core.List.{append_assoc, append-nil, reverse-reverse, reverse-append}
use lokan_os.Prelude.{
  ℕ, String, ◌≡◌, refl, sym, subst, ap, ◌∙◌, ◌⊎◌, inl, inr, true, false, not, some, List, [], ◌∷◌,
  ◌++◌, reverse, all, All, arith, Bool-cases,
}
use lokan_os.Prelude.Result.{ok, err, ◌>>=◌, >>=-eq-ok, Result-cases}
use lokan_os.Prelude.Text.{pieces, push_word}
use lokan_os.Audit.Log.{
  AuditRecord, io, Host, is_line_feed, no_hash, or_io, or_malformed, AuditWriter, hydrate_lines,
  hydrate_prev_hash, new, read_lines, read_all,
}
use lokan_os.Audit.Log.Contents.{is_line, Faithful, Holds, Chained, Logged}

pieces-append :
    (cur s t : List ℕ)
    → pieces is_line_feed cur (s ++ 10 ∷ t)
      ≡ (pieces is_line_feed cur (s ++ 10 ∷ []) ++ pieces is_line_feed [] t)
unfolding pieces
pieces-append [] [] t = refl
pieces-append (b ∷ cur) [] t = refl
pieces-append cur (c ∷ s) t = elim (Bool-cases (is_line_feed c)) [
  | inl feed ↦ simp (feed, pieces-append [] s t) (push_word-append cur _ _)
  | inr other ↦ simp other (pieces-append (c ∷ cur) s t)
]
  where
    push_word-append :
        (cur : List ℕ) (ws vs : List (List ℕ)) → push_word cur (ws ++ vs) ≡ (push_word cur ws ++ vs)
    push_word-append [] ws vs = refl
    push_word-append (b ∷ cur) ws vs = refl

pieces-line :
    (cur line : List ℕ)
    → all (λ b. not (is_line_feed b)) line ≡ true
    → pieces is_line_feed cur (line ++ 10 ∷ []) ≡ push_word (reverse line ++ cur) []
unfolding pieces
pieces-line [] [] h = refl
pieces-line (b ∷ cur) [] h = refl
pieces-line cur (c ∷ line) h =
    let other : is_line_feed c ≡ false = ground (arith, h) in
    let rest = pieces-line (c ∷ cur) line (ground (arith, h)) in
    simp other rest
    ∙ ap (λ (t : List ℕ). push_word t [])
        (sym (
          ap (λ (t : List ℕ). t ++ cur) (reverse-append (c ∷ []) line)
          ∙ append_assoc (reverse line) (c ∷ []) cur))

push_word-reverse :
    (word line : List ℕ) (c : ℕ) → reverse word ≡ c ∷ line → push_word word [] ≡ (c ∷ line) ∷ []
push_word-reverse [] line c h = cc
push_word-reverse (b ∷ word) line c h = ap (λ (t : List ℕ). t ∷ []) h

pieces-is_line :
    (line : List ℕ) → is_line line ≡ true → pieces is_line_feed [] (line ++ 10 ∷ []) ≡ line ∷ []
pieces-is_line [] h = cc
pieces-is_line (c ∷ line) h =
    pieces-line [] (c ∷ line) h
    ∙ ap (λ (t : List ℕ). push_word t []) (append-nil (reverse (c ∷ line)))
    ∙ push_word-reverse (reverse (c ∷ line)) line c (reverse-reverse (c ∷ line))

module _ (host : Host) (law : Faithful host) where
  open host use {World, Json, Timestamp}
  open law use {handed}

  -- The JSON library reads the record back from the line it makes of it. It does so but for details
  -- with numbers that it rounds, a detail of null, and one that is nested too deeply.
  abbrev pub IsReadable : AuditRecord Json Timestamp → Type 0
  IsReadable r =
      (line : List ℕ) → host.record_to_vec r ≡ some line → host.record_from_slice line ≡ some r

  -- What follows the lines of records is read apart from them.
  pieces-Holds :
      (s : List ℕ) (rs : List (AuditRecord Json Timestamp)) (t : List ℕ)
      → Holds host law s rs
      → pieces is_line_feed [] (s ++ t) ≡ (pieces is_line_feed [] s ++ pieces is_line_feed [] t)
  unfolding Holds pieces
  pieces-Holds s [] t h = rw h refl
  pieces-Holds s (r ∷ rs) t (before, line, holds, made, is) =
      rw (is ∙ sym (append_assoc before line (10 ∷ [])))
        (rw (append_assoc (before ++ line) (10 ∷ []) t) (pieces-append [] (before ++ line) t))

  read_lines-append :
      (xs : List (List ℕ)) (line : List ℕ) (r : AuditRecord Json Timestamp)
      → host.record_from_slice line ≡ some r
      → read_lines host (xs ++ line ∷ []) ≡ (read_lines host xs >>= λ rs. ok (rs ++ r ∷ []))
  unfolding read_lines
  read_lines-append [] line r g = simp g refl
  read_lines-append (x ∷ xs) line r g = ground (arith, read_lines-append xs line r g)

  hydrate_lines-append :
      (xs : List (List ℕ)) (line prev hash start : List ℕ) (r : AuditRecord Json Timestamp)
      → hydrate_lines host start xs ≡ ok prev
      → host.record_from_slice line ≡ some r
      → host.decode r.hash ≡ some hash
      → hydrate_lines host start (xs ++ line ∷ []) ≡ ok hash
  unfolding hydrate_lines
  hydrate_lines-append [] line prev hash start r h g k = simp (g, k) refl
  hydrate_lines-append (x ∷ xs) line prev hash start r h g k =
      let (entry, of_entry, tail) = >>=-eq-ok (or_malformed (host.record_from_slice x)) _ h in
      let (next, of_hash, rest) = >>=-eq-ok (or_malformed (host.decode entry.hash)) _ tail in
      simp (of_entry, of_hash) (hydrate_lines-append xs line prev hash next r rest g k)

  pieces-record :
      (s before line : List ℕ) (r : AuditRecord Json Timestamp)
      (rs : List (AuditRecord Json Timestamp))
      → Holds host law before rs
      → host.record_to_vec r ≡ some line
      → s ≡ (before ++ (line ++ 10 ∷ []))
      → pieces is_line_feed [] s ≡ (pieces is_line_feed [] before ++ line ∷ [])
  pieces-record s before line r rs holds made is =
      ap (λ (t : List ℕ). pieces is_line_feed [] t) is
      ∙ pieces-Holds before rs (line ++ 10 ∷ []) holds
      ∙ ap (λ (t : List (List ℕ)). pieces is_line_feed [] before ++ t)
          (pieces-is_line line (law.line_of r line made))

  read_lines-Holds :
      (s : List ℕ) (rs : List (AuditRecord Json Timestamp))
      → All IsReadable rs
      → Holds host law s rs
      → read_lines host (pieces is_line_feed [] s) ≡ ok (reverse rs)
  unfolding Holds read_lines pieces
  read_lines-Holds s [] readable h = rw h refl
  read_lines-Holds s (r ∷ rs) readable (before, line, holds, made, is) =
      rw (pieces-record s before line r rs holds made is) (
        read_lines-append (pieces is_line_feed [] before) line r (readable.0 line made)
        ∙ simp (read_lines-Holds before rs readable.1 holds, reverse-append (r ∷ []) rs) refl)

  hydrate_lines-Holds :
      (s hash : List ℕ) (rs : List (AuditRecord Json Timestamp))
      → All IsReadable rs
      → Holds host law s rs
      → Chained host law hash rs
      → hydrate_lines host no_hash (pieces is_line_feed [] s) ≡ ok hash
  unfolding Holds Chained hydrate_lines pieces
  hydrate_lines-Holds s hash [] readable h g = rw (h, g) refl
  hydrate_lines-Holds s hash (r ∷ rs) readable (before, line, holds, made, is)
        (prev, body, chained, of_event, of_prev, of_hash, of_body) =
      rw (pieces-record s before line r rs holds made is) (
        hydrate_lines-append (pieces is_line_feed [] before) line prev hash no_hash r
          (hydrate_lines-Holds before prev rs readable.1 holds chained) (readable.0 line made)
          (ap (λ (t : String). host.decode t) of_hash ∙ law.decode-encode hash))

  -- When the libraries and the file behave as `Faithful` says, all that was handed to the file is in
  -- it, and the JSON library reads each record back from its line: the export of a `Logged` log gives
  -- its records from the first to the last, or the error of the read.
  pub read_all-Logged :
      (writer : AuditWriter host) (w : World) (rs : List (AuditRecord Json Timestamp))
      → law.IsSettled w
      → All IsReadable rs
      → Logged host law writer w rs
      → (read_all host w ≡ ok (reverse rs))
        ⊎ ((e : String) × (host.read w ≡ err e) × (read_all host w ≡ err (io e)))
  unfolding read_all Logged read_lines pieces
  read_all-Logged writer w rs settled readable (holds, chained) =
      elim (Bool-cases (host.exists w)) [
        | inl there ↦ elim (Result-cases (host.read w)) [
          | inl (s, done) ↦ inl (
              simp (there, done)
                (read_lines-Holds s rs readable
                  (subst (λ t. Holds host law t rs) (law.reads w s settled done) holds)))
          | inr (e, failed) ↦ inr (e, failed, simp (there, failed) refl)
        ]
        | inr absent ↦ inl (
            simp absent (
              read_lines-Holds [] rs readable
                (subst (λ t. Holds host law t rs) (law.missing w settled absent) holds)))
      ]

  hydrate_prev_hash-Logged :
      (w : World) (hash : List ℕ) (rs : List (AuditRecord Json Timestamp))
      → law.IsSettled w
      → All IsReadable rs
      → Holds host law (handed w) rs
      → Chained host law hash rs
      → (hydrate_prev_hash host w ≡ ok hash)
        ⊎ ((e : String) × (hydrate_prev_hash host w ≡ err (io e)))
  unfolding hydrate_prev_hash hydrate_lines pieces
  hydrate_prev_hash-Logged w hash rs settled readable holds chained =
      elim (Bool-cases (host.exists w)) [
        | inl there ↦ elim (Result-cases (host.read w)) [
          | inl (s, done) ↦ inl (
              simp (there, done)
                (hydrate_lines-Holds s hash rs readable
                  (subst (λ t. Holds host law t rs) (law.reads w s settled done) holds) chained))
          | inr (e, failed) ↦ inr (e, simp (there, failed) refl)
        ]
        | inr absent ↦ inl (
            simp absent (
              hydrate_lines-Holds [] hash rs readable
                (subst (λ t. Holds host law t rs) (law.missing w settled absent) holds) chained))
      ]

  -- When the libraries and the file behave as `Faithful` says, all that was handed to the file is in
  -- it, the JSON library reads each record back from its line, and the log is `Logged`: a writer that
  -- is made anew on the file, if it is made, goes on with the hash that the last one had.
  pub new-Logged :
      (writer : AuditWriter host) (w : World) (rs : List (AuditRecord Json Timestamp))
      (again : AuditWriter host)
      → law.IsSettled w
      → All IsReadable rs
      → Logged host law writer w rs
      → (new host w).1 ≡ ok again
      → Logged host law again (new host w).0 rs × (again.prev_hash ≡ writer.prev_hash)
  unfolding new Logged
  new-Logged writer w rs again settled readable (holds, chained) h =
      let (prev, run, is) = >>=-eq-ok (or_io (host.create_parent w).1 >>= _) _ h in
      let (u, made, hydrated) = >>=-eq-ok (or_io (host.create_parent w).1) _ run in
      let kept = subst (λ t. Holds host law t rs) (sym (law.creates w)) holds in
      let same : again.prev_hash ≡ writer.prev_hash = ground (
        arith,
        hydrate_prev_hash-Logged (host.create_parent w).0 writer.prev_hash rs
            (law.stays_settled w settled) readable kept chained,
        hydrated,
        is,
      ) in
      ((kept, subst (λ t. Chained host law t rs) (sym same) chained), same)
