-- ===== src/Audit/Log/Contents.antt =====
-- services/audit-log/src/main.rs: what is handed to the file of the log with each event.
use mathlib.Core.List.{append_assoc}
use lokan_os.Prelude.{
  ℕ, String, ◌≡◌, refl, sym, subst, ap, ◌∙◌, Bool, true, false, not, Option, none, some, List, [],
  ◌∷◌, ◌++◌, all,
}
use lokan_os.Prelude.Result.{Result, ok, err}
use lokan_os.Audit.Log.{
  IncomingEvent, AuditRecord, Host, is_line_feed, no_hash, AuditWriter, ended, wrote, write_line,
  opened, hashed, append,
}

-- A line with something in it and no line feed.
abbrev pub is_line : List ℕ → Bool
is_line [] = false
is_line (c ∷ s) = all (λ b. not (is_line_feed b)) (c ∷ s)

-- The file, as the libraries are documented. `handed` is what the writes that succeeded have handed
-- over to it, in order: a write that succeeds has handed over all its bytes. tokio keeps them in a
-- buffer and writes on after the call; a world is `IsSettled` when the file has just what was handed
-- over. A hash encoded and decoded is itself, and the line of a record is not empty and has no line
-- feed.
pub record Faithful (host : Host) : Type 1 where
  pub handed : host.World → List ℕ
  pub IsSettled : host.World → Type 0
  pub missing : (w : host.World) → IsSettled w → host.exists w ≡ false → handed w ≡ []
  pub reads : (w : host.World) (s : List ℕ) → IsSettled w → host.read w ≡ ok s → handed w ≡ s
  pub opens :
      (w : host.World) → (host.open_append w).1 ≡ ok tt → handed (host.open_append w).0 ≡ handed w
  pub writes :
      (w : host.World) (s : List ℕ)
      → (host.write_all w s).1 ≡ ok tt
      → handed (host.write_all w s).0 ≡ (handed w ++ s)
  pub creates : (w : host.World) → handed (host.create_parent w).0 ≡ handed w
  pub stays_settled : (w : host.World) → IsSettled w → IsSettled (host.create_parent w).0
  pub decode-encode : (s : List ℕ) → host.decode (host.encode s) ≡ some s
  pub line_of :
      (r : AuditRecord host.Json host.Timestamp) (line : List ℕ)
      → host.record_to_vec r ≡ some line
      → is_line line ≡ true

module _ (host : Host) (law : Faithful host) where
  open host use {World, Json, Timestamp}
  open law use {handed}

  -- These bytes are the lines of these records, the last one given first.
  unfoldable pub Holds : List ℕ → List (AuditRecord Json Timestamp) → Type 0
  Holds s [] = s ≡ []
  Holds s (r ∷ rs) =
      (before : List ℕ) × (line : List ℕ) × Holds before rs
      × (host.record_to_vec r ≡ some line)
      × (s ≡ (before ++ (line ++ 10 ∷ [])))

  -- The hash after these records, the last one given first, each made from the hash before it.
  unfoldable pub Chained : List ℕ → List (AuditRecord Json Timestamp) → Type 0
  Chained hash [] = hash ≡ no_hash
  Chained hash (r ∷ rs) =
      (prev : List ℕ) × (body : List ℕ) × Chained prev rs
      × (host.event_to_vec r.event ≡ some body)
      × (r.prev_hash ≡ host.encode prev)
      × (r.hash ≡ host.encode hash)
      × (hash ≡ host.sha256 (prev ++ body))

  -- The file was handed the lines of these records, which are a chain, and the writer has the chain's last hash.
  unfoldable pub Logged : AuditWriter host → World → List (AuditRecord Json Timestamp) → Type 0
  Logged writer w rs = Holds (handed w) rs × Chained writer.prev_hash rs

  ended-Logged :
      (writer : AuditWriter host) (hash : List ℕ) (rs : List (AuditRecord Json Timestamp))
      (x : World × Result String (Unit {0}))
      → (x.1 ≡ ok tt → Holds (handed x.0) rs)
      → Chained hash rs
      → let y = ended host writer hash x in y.2 ≡ ok tt → Logged y.1 y.0 rs
  unfolding ended Logged
  ended-Logged writer hash rs (w, err e) holds chained h = cc
  ended-Logged writer hash rs (w, ok u) holds chained h = (holds refl, chained)

  wrote-Logged :
      (writer : AuditWriter host) (hash before line : List ℕ) (entry : AuditRecord Json Timestamp)
      (rs : List (AuditRecord Json Timestamp)) (x : World × Result String (Unit {0}))
      → (x.1 ≡ ok tt → handed x.0 ≡ (before ++ line))
      → host.record_to_vec entry ≡ some line
      → Holds before rs
      → Chained hash (entry ∷ rs)
      → let y = wrote host writer hash x in y.2 ≡ ok tt → Logged y.1 y.0 (entry ∷ rs)
  unfolding wrote Holds
  wrote-Logged writer hash before line entry rs (w, err e) was made holds chained h = cc
  wrote-Logged writer hash before line entry rs (w, ok u) was made holds chained h =
      ended-Logged writer hash (entry ∷ rs) (host.write_all w (10 ∷ []))
        (λ done. (
          before,
          line,
          holds,
          made,
          law.writes w (10 ∷ []) done
              ∙ ap (λ (s : List ℕ). s ++ 10 ∷ []) (was refl)
              ∙ append_assoc before line (10 ∷ []),
        ))
        chained h

  write_line-Logged :
      (writer : AuditWriter host) (hash : List ℕ) (entry : AuditRecord Json Timestamp)
      (rs : List (AuditRecord Json Timestamp)) (w : World) (o : Option (List ℕ))
      → host.record_to_vec entry ≡ o
      → Holds (handed w) rs
      → Chained hash (entry ∷ rs)
      → let y = write_line host writer hash w o in y.2 ≡ ok tt → Logged y.1 y.0 (entry ∷ rs)
  unfolding write_line
  write_line-Logged writer hash entry rs w none made holds chained h = cc
  write_line-Logged writer hash entry rs w (some line) made holds chained h =
      wrote-Logged writer hash (handed w) line entry rs (host.write_all w line) (law.writes w line)
        made holds chained h

  opened-Logged :
      (writer : AuditWriter host) (hash : List ℕ) (entry : AuditRecord Json Timestamp)
      (rs : List (AuditRecord Json Timestamp)) (before : List ℕ)
      (x : World × Result String (Unit {0}))
      → (x.1 ≡ ok tt → handed x.0 ≡ before)
      → Holds before rs
      → Chained hash (entry ∷ rs)
      → let y = opened host writer hash entry x in y.2 ≡ ok tt → Logged y.1 y.0 (entry ∷ rs)
  unfolding opened
  opened-Logged writer hash entry rs before (w, err e) same holds chained h = cc
  opened-Logged writer hash entry rs before (w, ok u) same holds chained h =
      write_line-Logged writer hash entry rs w (host.record_to_vec entry) refl
        (subst (λ s. Holds s rs) (sym (same refl)) holds) chained h

  hashed-Logged :
      (writer : AuditWriter host) (timestamp : Timestamp) (event : IncomingEvent Json) (w : World)
      (rs : List (AuditRecord Json Timestamp)) (o : Option (List ℕ))
      → host.event_to_vec event ≡ o
      → Logged writer w rs
      → let y = hashed host writer timestamp event w o in
        y.2 ≡ ok tt
        → (r : AuditRecord Json Timestamp) × (r.event ≡ event)
          × (r.timestamp ≡ timestamp)
          × Logged y.1 y.0 (r ∷ rs)
  unfolding hashed Logged Chained
  hashed-Logged writer timestamp event w rs none body_of logged h = cc
  hashed-Logged writer timestamp event w rs (some body) body_of (holds, chained) h =
      let hash = host.sha256 (writer.prev_hash ++ body) in
      let r : AuditRecord Json Timestamp = record {
        timestamp = timestamp;
        prev_hash = host.encode writer.prev_hash;
        hash = host.encode hash;
        event = event;
      } in
      (
        r,
        refl,
        refl,
        opened-Logged writer hash r rs (handed w) (host.open_append w) (law.opens w) holds
            (writer.prev_hash, body, chained, body_of, refl, refl, refl) h,
      )

  -- When the libraries and the file behave as `Faithful` says, and the log is `Logged` before the
  -- call: a call that succeeds has handed to the file, after what it was handed before, the line of
  -- one record with the event and the time; and all records stay a chain of which the writer knows
  -- the last hash. That the bytes have reached the file is not said.
  pub append-Logged :
      (writer : AuditWriter host) (timestamp : Timestamp) (event : IncomingEvent Json) (w : World)
      (rs : List (AuditRecord Json Timestamp))
      → Logged writer w rs
      → let y = append host writer timestamp event w in
        y.2 ≡ ok tt
        → (r : AuditRecord Json Timestamp) × (r.event ≡ event)
          × (r.timestamp ≡ timestamp)
          × Logged y.1 y.0 (r ∷ rs)
  unfolding append
  append-Logged writer timestamp event w rs logged h =
      hashed-Logged writer timestamp event w rs (host.event_to_vec event) refl logged h
