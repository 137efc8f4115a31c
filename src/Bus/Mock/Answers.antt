-- ===== src/Bus/Mock/Answers.antt =====
-- crates/common-msgbus/src/lib.rs: a request of MockBus and its response.
use lokan_os.Prelude.{
  ℕ, ◌+◌, ◌<◌, ◌^◌, ◌≡◌, ◌≢◌, refl, sym, ap, subst, ◌∙◌, Option, none, some, List, [], ◌∷◌, inl,
  inr, arith, All,
}
use lokan_os.Prelude.Text.{Text}
use lokan_os.Prelude.Digits.{decimal_inj}
use lokan_os.Bus.Tokio.{Libraries, Slot}
use lokan_os.Bus.Maps.{get-remove_cases, get-insert_other, get-remove_other}
use lokan_os.Bus.Mock.{MockBus, Waiting, new}
use lokan_os.Bus.Mock.Calls.{Call, step, run}
use lokan_os.Bus.Mock.Senders.{IsValid}
use lokan_os.Bus.Mock.Valid.{step-IsValid}
use lokan_os.Bus.Mock.Effects.{
  Requests, requests_of, reply_text, drop_old, asked, closed, answered, Effect, step-Effect,
}
use lokan_os.Bus.Mock.Steady.{requests, Steady, count-asked, get-asked, Steady-idle, Effect-Steady}

module _ (lib : Libraries) where
  open lib use {oneshot, waiters}

  -- The waiter that stands for a request, what its slot holds, and that no other waiter has its slot.
  pub record Holds (w : Waiting lib) (entry : Option oneshot.Sender) (slot : Slot)
      (r : Requests lib) : Type 0 where
    pub known : oneshot.receiver_of w.rx < oneshot.count r.slots
    pub held : oneshot.slot r.slots (oneshot.receiver_of w.rx) ≡ slot
    pub stands : waiters.get r.pending w.reply_subject ≡ entry
    pub others :
        (k : Text) (tx : oneshot.Sender)
        → waiters.get r.pending k ≡ some tx
        → k ≢ w.reply_subject
        → oneshot.sender_of tx ≢ oneshot.receiver_of w.rx

  -- A call that neither answers nor drops the request.
  abbrev pub Spares : Waiting lib → Call lib → Type 0
  Spares w (Call.respond key payload) = key ≢ w.reply_subject
  Spares w (Call.cancel waiting) = oneshot.receiver_of waiting.rx ≢ oneshot.receiver_of w.rx
  Spares w (Call.publish subject payload) = Unit
  Spares w (Call.subscribe subject) = Unit
  Spares w (Call.request subject payload) = Unit
  Spares w (Call.poll_next sub) = Unit

  pub slot-drop_old :
      (slots : oneshot.Slots) (old : Option oneshot.Sender) (n : ℕ)
      → ((tx : oneshot.Sender) → old ≡ some tx → oneshot.sender_of tx ≢ n)
      → oneshot.slot (drop_old lib slots old) n ≡ oneshot.slot slots n
  slot-drop_old slots none n h = refl
  slot-drop_old slots (some tx) n h = oneshot.slot-drop slots tx n (h tx refl)

  module _ {w : Waiting lib} {entry : Option oneshot.Sender} {slot : Slot} {r : Requests lib}
      (h : Holds w entry slot r) where
    asked-Holds : reply_text r.counter ≢ w.reply_subject → Holds w entry slot (asked lib r)
    asked-Holds fresh = record {
      known = omega (arith, count-asked lib r, h.known);
      held =
          slot-drop_old (oneshot.channel r.slots).0 (waiters.get r.pending (reply_text r.counter))
            (oneshot.receiver_of w.rx) (λ tx there. h.others (reply_text r.counter) tx there fresh)
          ∙ ground
              (arith, oneshot.slot-channel r.slots (oneshot.receiver_of w.rx), h.known, h.held);
      stands =
          get-insert_other waiters r.pending (reply_text r.counter) _ w.reply_subject fresh
          ∙ h.stands;
      others = λ k tx there other. elim (get-asked lib r k tx there) [
        | inl (same, new) ↦ λ e. absurd (omega (arith, h.known))
        | inr (differs, old) ↦ h.others k tx old other
      ];
    }

    closed-Holds :
        (rx : oneshot.Receiver)
        → oneshot.receiver_of rx ≢ oneshot.receiver_of w.rx
        → Holds w entry slot (closed lib rx r)
    closed-Holds rx other = record {
      known = omega (arith, oneshot.count-close r.slots rx, h.known);
      held = oneshot.slot-close r.slots rx (oneshot.receiver_of w.rx) other ∙ h.held;
      stands = h.stands;
      others = h.others;
    }

    answered-Holds :
        (key : Text) (payload : List ℕ) (tx : oneshot.Sender)
        → waiters.get r.pending key ≡ some tx
        → key ≢ w.reply_subject
        → Holds w entry slot (answered lib key payload tx r)
    answered-Holds key payload tx there other = record {
      known = omega (arith, oneshot.count-send r.slots tx payload, h.known);
      held =
          oneshot.slot-send r.slots tx payload (oneshot.receiver_of w.rx)
          ∙ ground (arith, h.others key tx there other, h.held);
      stands = get-remove_other waiters r.pending key w.reply_subject other ∙ h.stands;
      others =
          λ k t e differs. h.others k t (get-remove_cases waiters r.pending key k t e).1 differs;
    }

  -- The next reply subject is none of those before.
  reply_text_fresh : (i n : ℕ) → i < n → n < 2 ^ 64 → reply_text n ≢ reply_text i
  reply_text_fresh i n past small e =
      absurd (omega (arith, decimal_inj n i small (omega arith) (cc e)))

  Effect-Holds :
      {w : Waiting lib} {entry : Option oneshot.Sender} {slot : Slot} {r after : Requests lib}
      {n : ℕ} (call : Call lib) (i : ℕ)
      → w.reply_subject ≡ reply_text i
      → i < n
      → n < 2 ^ 64
      → Steady lib n r
      → Spares w call
      → Effect lib call r after
      → Holds w entry slot r
      → Holds w entry slot after
  Effect-Holds (Call.publish subject payload) i key past small s c e h = rw e h
  Effect-Holds (Call.subscribe subject) i key past small s c e h = rw e h
  Effect-Holds (Call.poll_next sub) i key past small s c e h = rw e h
  Effect-Holds {r = r} {n = n} (Call.request subject payload) i key past small s c e h =
      let kept =
        asked-Holds h
          (λ same. reply_text_fresh i n past small (ap reply_text (sym s.counted) ∙ same ∙ key)) in
      elim e [
        | inl sent ↦ rw sent kept
        | inr failed ↦ rw failed (
            closed-Holds kept (oneshot.channel r.slots).2
              (λ same. absurd (omega (arith, h.known, oneshot.receiver_of-channel r.slots))))
      ]
  Effect-Holds (Call.cancel waiting) i key past small s c e h = rw e (closed-Holds h waiting.rx c)
  Effect-Holds (Call.respond key payload) i _ past small s c (inl (missing, e)) h = rw e h
  Effect-Holds (Call.respond key payload) i _ past small s c (inr (tx, there, e)) h =
      rw e (answered-Holds h key payload tx there c)

  -- A bus after `n` requests, of which this is one.
  pub record Watched (w : Waiting lib) (entry : Option oneshot.Sender) (slot : Slot) (n : ℕ)
      (bus : MockBus lib) : Type 0 where
    pub valid : IsValid lib bus
    pub steady : Steady lib n (requests_of lib bus)
    pub holds : Holds w entry slot (requests_of lib bus)
    pub index : ℕ
    pub key : w.reply_subject ≡ reply_text index
    pub past : index < n

  requests-cons :
      (call : Call lib) (calls : List (Call lib))
      → requests lib (call ∷ calls) ≡ requests lib (call ∷ []) + requests lib calls
  requests-cons (Call.request subject payload) calls = omega arith
  requests-cons (Call.publish subject payload) calls = omega arith
  requests-cons (Call.subscribe subject) calls = omega arith
  requests-cons (Call.cancel waiting) calls = omega arith
  requests-cons (Call.respond key payload) calls = omega arith
  requests-cons (Call.poll_next sub) calls = omega arith

  pub run-Watched :
      {w : Waiting lib} {entry : Option oneshot.Sender} {slot : Slot} (n : ℕ) (bus : MockBus lib)
      (calls : List (Call lib))
      → n + requests lib calls < 2 ^ 64
      → All (Spares w) calls
      → Watched w entry slot n bus
      → Watched w entry slot (n + requests lib calls) (run lib bus calls)
  unfolding run
  run-Watched n bus [] small c h = record {
    valid = h.valid;
    steady = Steady-idle lib h.steady;
    holds = h.holds;
    index = h.index;
    key = h.key;
    past = omega (arith, h.past);
  }
  run-Watched {w} {entry} {slot} n bus (call ∷ calls) small (c, cs) h =
      let effect = step-Effect lib bus call h.valid in
      let split = requests-cons call calls in
      subst (λ m. Watched w entry slot m (run lib (step lib bus call) calls)) (omega (arith, split))
        (run-Watched (n + requests lib (call ∷ [])) (step lib bus call) calls (omega (arith, split))
          cs
          (record {
            valid = step-IsValid lib bus call h.valid;
            steady = Effect-Steady lib call (omega (arith, split)) effect h.steady;
            holds = Effect-Holds call h.index h.key h.past (omega arith) h.steady c effect h.holds;
            index = h.index;
            key = h.key;
            past = omega (arith, h.past);
          }))

  pub run-Steady :
      (n : ℕ) (bus : MockBus lib) (calls : List (Call lib))
      → n + requests lib calls < 2 ^ 64
      → IsValid lib bus
      → Steady lib n (requests_of lib bus)
      → Steady lib (n + requests lib calls) (requests_of lib (run lib bus calls))
  unfolding run
  run-Steady n bus [] small v s = Steady-idle lib s
  run-Steady n bus (call ∷ calls) small v s =
      let split = requests-cons call calls in
      subst (λ m. Steady lib m (requests_of lib (run lib (step lib bus call) calls)))
        (omega (arith, split))
        (run-Steady (n + requests lib (call ∷ [])) (step lib bus call) calls (omega (arith, split))
          (step-IsValid lib bus call v)
          (Effect-Steady lib call (omega (arith, split)) (step-Effect lib bus call v) s))
