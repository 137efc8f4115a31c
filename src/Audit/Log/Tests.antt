-- ===== src/Audit/Log/Tests.antt =====
-- services/audit-log/src/main.rs: a log of one event.
use lokan_os.Prelude.{
  ℕ, zero, suc, ◌+◌, String, ◌≡◌, ◌⊎◌, refl, ap, ◌∙◌, Bool, true, false, ◌&&◌, Option, none, some,
  List, [], ◌∷◌, ◌++◌, reverse, All, str_eq, ◌==◌, if◌then◌else◌, arith,
}
use Prim.Native.Char.{code}
use lokan_os.Prelude.Result.{Result, ok, err}
use lokan_os.Prelude.Text.{pieces}
use lokan_os.Audit.Log.{
  IncomingEvent, AuditRecord, io, Host, no_hash, AuditWriter, append, ended, wrote, write_line,
  opened, hashed, new, hydrate_prev_hash, hydrate_lines, read_all,
}
use lokan_os.Audit.Log.Contents.{is_line, Faithful, Holds, Chained, Logged, append-Logged}
use lokan_os.Audit.Log.Reading.{read_all-Logged, new-Logged, IsReadable}

-- A number is so many letters a and then the letter b.
abbrev unary : ℕ → String → String
unary zero s = String.◌∷◌ "b" s
unary (suc n) s = String.◌∷◌ "a" (unary n s)

abbrev encode : List ℕ → String
encode [] = ""
encode (n ∷ s) = unary n (encode s)

abbrev prepend : ℕ → Option (List ℕ) → Option (List ℕ)
prepend n none = none
prepend n (some s) = some (n ∷ s)

abbrev decode_from : ℕ → String → Option (List ℕ)
decode_from n String.[] = some []
decode_from n (String.◌∷◌ c s) =
    let ended_number = prepend n (decode_from 0 s) in
    let longer = decode_from (suc n) s in if code c == b'a' then longer else ended_number

decode_from-unary :
    (k n : ℕ) (s : String) → decode_from k (unary n s) ≡ prepend (k + n) (decode_from 0 s)
decode_from-unary k zero s = ap (λ (t : ℕ). prepend t (decode_from 0 s)) (omega arith)
decode_from-unary k (suc n) s =
    decode_from-unary (suc k) n s ∙ ap (λ (t : ℕ). prepend t (decode_from 0 s)) (omega arith)

decode-encode : (s : List ℕ) → decode_from 0 (encode s) ≡ some s
decode-encode [] = refl
decode-encode (n ∷ s) =
    let plain : 0 + n ≡ n = omega arith in
    decode_from-unary 0 n (encode s)
    ∙ ap (λ (t : ℕ). prepend t (decode_from 0 (encode s))) plain
    ∙ ap (prepend n) (decode-encode s)

abbrev sum : List ℕ → ℕ
sum [] = 0
sum (n ∷ s) = n + sum s

-- A hash that is as long as SHA-256's.
abbrev sum_hash : List ℕ → List ℕ
sum_hash s =
    sum s
    ∷ 0
    ∷ 0
    ∷ 0
    ∷ 0
    ∷ 0
    ∷ 0
    ∷ 0
    ∷ 0
    ∷ 0
    ∷ 0
    ∷ 0
    ∷ 0
    ∷ 0
    ∷ 0
    ∷ 0
    ∷ 0
    ∷ 0
    ∷ 0
    ∷ 0
    ∷ 0
    ∷ 0
    ∷ 0
    ∷ 0
    ∷ 0
    ∷ 0
    ∷ 0
    ∷ 0
    ∷ 0
    ∷ 0
    ∷ 0
    ∷ 0
    ∷ []

abbrev unlock : IncomingEvent (Unit {0})
unlock = record {
  actor = "ada";
  role = "Owner";
  action = "unlock";
  resource = "front-door";
  outcome = "ok";
  detail = none;
}

abbrev body : List ℕ
body = 5 ∷ []

abbrev after_unlock : List ℕ
after_unlock = sum_hash body

abbrev entry : AuditRecord (Unit {0}) ℕ
entry = record {
  timestamp = 3;
  prev_hash = encode (sum_hash []);
  hash = encode after_unlock;
  event = unlock;
}

abbrev is_none : Option (Unit {0}) → Bool
is_none none = true
is_none (some u) = false

-- The one record that this host can write.
abbrev is_entry : AuditRecord (Unit {0}) ℕ → Bool
is_entry r =
    r.timestamp == 3
    && str_eq r.prev_hash entry.prev_hash
    && str_eq r.hash entry.hash
    && str_eq r.event.actor "ada"
    && str_eq r.event.role "Owner"
    && str_eq r.event.action "unlock"
    && str_eq r.event.resource "front-door"
    && str_eq r.event.outcome "ok"
    && is_none r.event.detail

abbrev contents_of : Option (List ℕ) → List ℕ
contents_of none = []
contents_of (some s) = s

abbrev exists_file : Option (List ℕ) → Bool
exists_file none = false
exists_file (some s) = true

abbrev tape : Host
tape = record {
  Json = Unit {0};
  Timestamp = ℕ;
  World = Option (List ℕ);
  sha256 = sum_hash;
  encode = encode;
  decode = decode_from 0;
  event_to_vec = λ e. some body;
  record_to_vec = λ r. if is_entry r then some (7 ∷ []) else none;
  record_from_slice = λ s. some entry;
  create_parent = λ w. (w, ok tt);
  exists = exists_file;
  read = λ w. ok (contents_of w);
  open_append = λ w. (some (contents_of w), ok tt);
  write_all = λ w s. (some (contents_of w ++ s), ok tt);
}

ok-injective : (s t : List ℕ) → ◌≡◌ {A = Result String (List ℕ)} (ok s) (ok t) → s ≡ t
ok-injective s t h = ground (arith, h)

missing-empty : (w : Option (List ℕ)) → exists_file w ≡ false → contents_of w ≡ []
missing-empty none h = refl
missing-empty (some s) h = cc

line_of_entry :
    (r : AuditRecord (Unit {0}) ℕ) (line : List ℕ)
    → (if is_entry r then some (7 ∷ []) else none) ≡ some line
    → is_line line ≡ true
line_of_entry r line h = ground (arith, h)

abbrev tape-Faithful : Faithful tape
tape-Faithful = record {
  handed = contents_of;
  IsSettled = λ w. Unit;
  missing = λ w settled h. missing-empty w h;
  reads = λ w s settled h. ok-injective (contents_of w) s h;
  opens = λ w h. refl;
  writes = λ w s h. refl;
  creates = λ w. refl;
  stays_settled = λ w settled. settled;
  decode-encode = decode-encode;
  line_of = line_of_entry;
}

entry-IsReadable : All (IsReadable tape tape-Faithful) (entry ∷ [])
entry-IsReadable = ((λ line h. refl), tt)

abbrev first_writer : AuditWriter tape
first_writer = record { prev_hash = no_hash }

abbrev second_writer : AuditWriter tape
second_writer = record { prev_hash = after_unlock }

abbrev one_line : Option (List ℕ)
one_line = some (7 ∷ 10 ∷ [])

first-Logged : Logged tape tape-Faithful first_writer none []
unfolding Logged Holds Chained
first-Logged = (refl, refl)

second-Chained : Chained tape tape-Faithful after_unlock (entry ∷ [])
unfolding Chained no_hash
second-Chained = (no_hash, body, refl, refl, refl, refl, refl)

second-Logged : Logged tape tape-Faithful second_writer one_line (entry ∷ [])
unfolding Logged Holds
second-Logged = (([], 7 ∷ [], refl, refl, refl), second-Chained)

append-unlock : (append tape first_writer 3 unlock none).2 ≡ ok tt
unfolding append hashed opened write_line wrote ended no_hash
append-unlock = refl

append-Logged_example :
    let y = append tape first_writer 3 unlock none in
    (r : AuditRecord (Unit {0}) ℕ) × (r.event ≡ unlock)
    × (r.timestamp ≡ 3)
    × Logged tape tape-Faithful y.1 y.0 (r ∷ [])
append-Logged_example =
    append-Logged tape tape-Faithful first_writer 3 unlock none [] first-Logged append-unlock

read_all-Logged_example :
    (read_all tape one_line ≡ ok (reverse (entry ∷ [])))
    ⊎ ((e : String) × (tape.read one_line ≡ err e) × (read_all tape one_line ≡ err (io e)))
read_all-Logged_example =
    read_all-Logged tape tape-Faithful second_writer one_line (entry ∷ []) tt entry-IsReadable
      second-Logged

new_second : (new tape one_line).1 ≡ ok second_writer
unfolding new hydrate_prev_hash hydrate_lines pieces
new_second = refl

new-Logged_example :
    Logged tape tape-Faithful second_writer (new tape one_line).0 (entry ∷ [])
    × (second_writer.prev_hash ≡ second_writer.prev_hash)
new-Logged_example =
    new-Logged tape tape-Faithful second_writer one_line (entry ∷ []) second_writer tt
      entry-IsReadable second-Logged new_second
