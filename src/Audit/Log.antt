-- ===== src/Audit/Log.antt =====
-- services/audit-log/src/main.rs: `AuditWriter` and what it uses. The file is written without a
-- flush, as in the source: a write that succeeds has handed over its bytes, which need not have
-- reached the file.
pub mod Contents
pub mod Reading
mod Tests
use lokan_os.Prelude.{
  ℕ, zero, suc, String, ◌≡◌, Bool, true, false, Option, none, some, List, [], ◌∷◌, ◌++◌, ◌==◌,
  if◌then◌else◌,
}
use lokan_os.Prelude.Result.{Result, ok, err, ◌>>=◌}
use lokan_os.Prelude.Text.{pieces}

pub record IncomingEvent (Json : Type 0) : Type 0 where
  pub actor : String
  pub role : String
  pub action : String
  pub resource : String
  pub outcome : String
  pub detail : Option Json

pub record AuditRecord (Json Timestamp : Type 0) : Type 0 where
  pub timestamp : Timestamp
  pub prev_hash : String
  pub hash : String
  pub event : IncomingEvent Json

pub data AuditError : Type 0 where
  io : String → AuditError
  malformed : AuditError

-- The libraries, and the file at the path of the log.
pub record Host : Type 1 where
  pub Json : Type 0
  pub Timestamp : Type 0
  pub World : Type 0
  pub sha256 : List ℕ → List ℕ
  pub encode : List ℕ → String
  pub decode : String → Option (List ℕ)
  pub event_to_vec : IncomingEvent Json → Option (List ℕ)
  pub record_to_vec : AuditRecord Json Timestamp → Option (List ℕ)
  pub record_from_slice : List ℕ → Option (AuditRecord Json Timestamp)
  pub create_parent : World → World × Result String (Unit {0})
  pub exists : World → Bool
  pub read : World → Result String (List ℕ)
  pub open_append : World → World × Result String (Unit {0})
  pub write_all : World → List ℕ → World × Result String (Unit {0})

abbrev pub is_line_feed : ℕ → Bool
is_line_feed b = b == 10

zeros : ℕ → List ℕ
zeros zero = []
zeros (suc n) = 0 ∷ zeros n

-- The hash before the first record.
unfoldable pub no_hash : List ℕ
unfolding zeros
no_hash = zeros 32

abbrev pub or_io {ℓ} : {A : Type ℓ} → Result String A → Result AuditError A
or_io (ok x) = ok x
or_io (err e) = err (io e)

abbrev pub or_malformed {ℓ} : {A : Type ℓ} → Option A → Result AuditError A
or_malformed (some x) = ok x
or_malformed none = err malformed

module _ (host : Host) where
  open host use {World, Json, Timestamp}

  pub record AuditWriter : Type 0 where
    pub prev_hash : List ℕ

  -- A call returns, with the world and the writer as it leaves them.
  abbrev Outcome : Type 0
  Outcome = World × AuditWriter × Result AuditError (Unit {0})

  ended : AuditWriter → List ℕ → World × Result String (Unit {0}) → Outcome
  ended writer hash (w, err e) = (w, writer, err (io e))
  ended writer hash (w, ok u) = (w, record { prev_hash = hash }, ok tt)

  wrote : AuditWriter → List ℕ → World × Result String (Unit {0}) → Outcome
  unfolding ended
  wrote writer hash (w, err e) = (w, writer, err (io e))
  wrote writer hash (w, ok u) = ended writer hash (host.write_all w (10 ∷ []))

  write_line : AuditWriter → List ℕ → World → Option (List ℕ) → Outcome
  unfolding wrote
  write_line writer hash w none = (w, writer, err malformed)
  write_line writer hash w (some line) = wrote writer hash (host.write_all w line)

  opened :
      AuditWriter → List ℕ → AuditRecord Json Timestamp → World × Result String (Unit {0}) → Outcome
  unfolding write_line
  opened writer hash entry (w, err e) = (w, writer, err (io e))
  opened writer hash entry (w, ok u) = write_line writer hash w (host.record_to_vec entry)

  hashed : AuditWriter → Timestamp → IncomingEvent Json → World → Option (List ℕ) → Outcome
  unfolding opened
  hashed writer timestamp event w none = (w, writer, err malformed)
  hashed writer timestamp event w (some body) =
      let hash = host.sha256 (writer.prev_hash ++ body) in
      opened writer hash
        record {
          timestamp = timestamp;
          prev_hash = host.encode writer.prev_hash;
          hash = host.encode hash;
          event = event;
        }
        (host.open_append w)

  -- AuditWriter::append, at a time.
  unfoldable pub append : AuditWriter → Timestamp → IncomingEvent Json → World → Outcome
  unfolding hashed
  append writer timestamp event w = hashed writer timestamp event w (host.event_to_vec event)

  unfoldable pub hydrate_lines : List ℕ → List (List ℕ) → Result AuditError (List ℕ)
  hydrate_lines prev [] = ok prev
  hydrate_lines prev (line ∷ lines) = or_malformed (host.record_from_slice line) >>= λ entry.
      or_malformed (host.decode entry.hash) >>= λ hash. hydrate_lines hash lines

  -- AuditWriter::hydrate_prev_hash
  unfoldable pub hydrate_prev_hash : World → Result AuditError (List ℕ)
  unfolding hydrate_lines no_hash pieces
  hydrate_prev_hash w =
      if host.exists w
      then or_io (host.read w)
        >>= (λ contents. hydrate_lines no_hash (pieces is_line_feed [] contents))
      else ok no_hash

  -- AuditWriter::new
  unfoldable pub new : World → World × Result AuditError AuditWriter
  unfolding hydrate_prev_hash
  new w =
      let (w', made) = host.create_parent w in
      (
        w',
        or_io made
            >>= (λ u. hydrate_prev_hash w')
            >>= (λ prev_hash. ok record { prev_hash = prev_hash }),
      )

  unfoldable pub read_lines : List (List ℕ) → Result AuditError (List (AuditRecord Json Timestamp))
  read_lines [] = ok []
  read_lines (line ∷ lines) = or_malformed (host.record_from_slice line) >>= λ entry.
      read_lines lines >>= λ records. ok (entry ∷ records)

  -- AuditWriter::read_all
  unfoldable pub read_all : World → Result AuditError (List (AuditRecord Json Timestamp))
  unfolding read_lines pieces
  read_all w =
      if host.exists w
      then or_io (host.read w) >>= (λ contents. read_lines (pieces is_line_feed [] contents))
      else ok []

  -- The status of `AuditError::into_response`.
  pub error_status : AuditError → ℕ
  error_status (io e) = 500
  error_status malformed = 400

  -- The handler record_event: the writer stays locked for the whole call.
  pub record_event :
      AuditWriter
      → Timestamp
      → IncomingEvent Json
      → World
      → World × AuditWriter × Result AuditError ℕ
  unfolding append
  record_event writer timestamp event w =
      let (w', writer', result) = append writer timestamp event w in
      (w', writer', result >>= λ u. ok 202)

  -- The handler export_events
  pub export_events : World → Result AuditError (List (AuditRecord Json Timestamp))
  unfolding read_all
  export_events w = read_all w
