-- ===== src/Bus/Mock/Steady.antt =====
-- crates/common-msgbus/src/lib.rs: each waiter of MockBus has a channel that is made.
use lokan_os.Prelude.{
  ℕ, suc, ◌+◌, ◌<◌, ◌^◌, ◌≡◌, ◌≢◌, refl, ap, ◌∙◌, Option, none, some, List, [], ◌∷◌, ◌⊎◌, inl, inr,
  arith,
}
use lokan_os.Prelude.Text.{Text}
use lokan_os.Bus.Tokio.{Libraries}
use lokan_os.Bus.Maps.{get-insert_cases, get-remove_cases}
use lokan_os.Bus.Mock.{new}
use lokan_os.Bus.Mock.Calls.{Call}
use lokan_os.Bus.Mock.Effects.{Requests, reply_text, drop_old, asked, closed, answered, Effect}

module _ (lib : Libraries) where
  open lib use {oneshot, waiters}

  -- The number of requests among the calls.
  abbrev pub requests : List (Call lib) → ℕ
  requests [] = 0
  requests (Call.request subject payload ∷ calls) = suc (requests calls)
  requests (Call.publish subject payload ∷ calls) = requests calls
  requests (Call.subscribe subject ∷ calls) = requests calls
  requests (Call.cancel waiting ∷ calls) = requests calls
  requests (Call.respond key payload ∷ calls) = requests calls
  requests (Call.poll_next sub ∷ calls) = requests calls

  -- After `n` requests, each waiter has a channel that is made.
  pub record Steady (n : ℕ) (r : Requests lib) : Type 0 where
    pub counted : r.counter ≡ n
    pub numbered :
        (k : Text) (tx : oneshot.Sender)
        → waiters.get r.pending k ≡ some tx
        → oneshot.sender_of tx < oneshot.count r.slots

  count-drop_old :
      (slots : oneshot.Slots) (old : Option oneshot.Sender)
      → oneshot.count (drop_old lib slots old) ≡ oneshot.count slots
  count-drop_old slots none = refl
  count-drop_old slots (some old) = oneshot.count-drop slots old

  module _ (r : Requests lib) where
    pub count-asked : oneshot.count (asked lib r).slots ≡ suc (oneshot.count r.slots)
    count-asked =
        count-drop_old _ (waiters.get r.pending (reply_text r.counter))
        ∙ oneshot.count-channel r.slots

    -- What waits after a new request is that request, or waited before.
    pub get-asked :
        (k : Text) (tx : oneshot.Sender)
        → waiters.get (asked lib r).pending k ≡ some tx
        → ((reply_text r.counter ≡ k) × (oneshot.sender_of tx ≡ oneshot.count r.slots))
          ⊎ ((reply_text r.counter ≢ k) × (waiters.get r.pending k ≡ some tx))
    get-asked k tx h = elim (get-insert_cases waiters r.pending (reply_text r.counter) _ k tx h) [
      | inl (same, e) ↦ inl (same, ap oneshot.sender_of e ∙ oneshot.sender_of-channel r.slots)
      | inr old ↦ inr old
    ]

  pub asked-Steady :
      {n : ℕ} {r : Requests lib} → n + 1 < 2 ^ 64 → Steady n r → Steady (n + 1) (asked lib r)
  asked-Steady {n} {r} small s = record {
    counted = rw s.counted (omega arith);
    numbered = λ k tx h. elim (get-asked r k tx h) [
      | inl (same, new) ↦ omega (arith, count-asked r)
      | inr (other, old) ↦ omega (arith, count-asked r, s.numbered k tx old)
    ];
  }

  closed-Steady :
      {n : ℕ} {r : Requests lib} (rx : oneshot.Receiver) → Steady n r → Steady n (closed lib rx r)
  closed-Steady {r = r} rx s = record {
    counted = s.counted;
    numbered = λ k tx h. omega (arith, oneshot.count-close r.slots rx, s.numbered k tx h);
  }

  pub answered-Steady :
      {n : ℕ} {r : Requests lib} (key : Text) (payload : List ℕ) (tx : oneshot.Sender)
      → Steady n r
      → Steady n (answered lib key payload tx r)
  answered-Steady {r = r} key payload tx s = record {
    counted = s.counted;
    numbered = λ k t h. omega (
      arith,
      oneshot.count-send r.slots tx payload,
      s.numbered k t (get-remove_cases waiters r.pending key k t h).1,
    );
  }

  pub Steady-idle : {n : ℕ} {r : Requests lib} → Steady n r → Steady (n + 0) r
  Steady-idle s = record { counted = omega (arith, s.counted); numbered = s.numbered }

  pub Effect-Steady :
      {n : ℕ} {r after : Requests lib} (call : Call lib)
      → n + requests (call ∷ []) < 2 ^ 64
      → Effect lib call r after
      → Steady n r
      → Steady (n + requests (call ∷ [])) after
  Effect-Steady {n} (Call.publish subject payload) small e s = rw e (Steady-idle s)
  Effect-Steady (Call.subscribe subject) small e s = rw e (Steady-idle s)
  Effect-Steady (Call.poll_next sub) small e s = rw e (Steady-idle s)
  Effect-Steady (Call.request subject payload) small (inl e) s = rw e (asked-Steady small s)
  Effect-Steady (Call.request subject payload) small (inr e) s =
      rw e (closed-Steady _ (asked-Steady small s))
  Effect-Steady (Call.cancel waiting) small e s = rw e (Steady-idle (closed-Steady waiting.rx s))
  Effect-Steady (Call.respond key payload) small (inl (missing, e)) s = rw e (Steady-idle s)
  Effect-Steady (Call.respond key payload) small (inr (tx, there, e)) s =
      rw e (Steady-idle (answered-Steady key payload tx s))
