-- ===== src/Bus/Mock/Senders.antt =====
-- crates/common-msgbus/src/lib.rs: each subject of MockBus keeps a channel of its own.
use lokan_os.Prelude.{
  suc, ◌<◌, ◌≡◌, refl, sym, ap, ◌∙◌, ◌^◌, none, some, arith, if◌then◌else◌, ◌⊎◌, inl, inr,
  Option-cases, Bool-cases,
}
use lokan_os.Prelude.Text.{Text, codes_eq}
use lokan_os.Prelude.Keys.{codes_eq_iff, codes_eq_refl}
use lokan_os.Bus.Tokio.{Libraries}
use lokan_os.Bus.Mock.{MockBus, enter, find_or_make, ensure_subject, new}

module _ (lib : Libraries) where
  open lib use {broadcast, senders}

  -- The channels of the subjects are made, have 64 places, and differ.
  pub record IsValid (bus : MockBus lib) : Type 0 where
    pub made :
        (s : Text) (c : broadcast.Sender)
        → senders.get bus.subjects s ≡ some c
        → (broadcast.number c < broadcast.count bus.channels) × (broadcast.room c ≡ 64)
    pub apart :
        (s t : Text) (c d : broadcast.Sender)
        → senders.get bus.subjects s ≡ some c
        → senders.get bus.subjects t ≡ some d
        → broadcast.number c ≡ broadcast.number d
        → s ≡ t

  pub new-IsValid : IsValid (new lib)
  unfolding new
  new-IsValid = record {
    made = λ s c h. ground (arith, senders.get-empty s);
    apart = λ s t c d h g e. ground (arith, senders.get-empty s);
  }

  -- What `ensure_subject` gives: the sender of the subject, with all else as it was.
  pub record Ensured (bus : MockBus lib) (s : Text) (e : MockBus lib × broadcast.Sender)
      : Type 0 where
    pub entered : senders.get e.0.subjects s ≡ some e.1
    pub kept :
        (t : Text) (c : broadcast.Sender)
        → senders.get bus.subjects t ≡ some c
        → senders.get e.0.subjects t ≡ some c
    pub valid : IsValid e.0
    pub views :
        (r : broadcast.Receiver) → broadcast.view e.0.channels r ≡ broadcast.view bus.channels r
    pub receivers : broadcast.receivers e.0.channels ≡ broadcast.receivers bus.channels
    pub pending : e.0.pending ≡ bus.pending
    pub slots : e.0.slots ≡ bus.slots
    pub counter : e.0.request_counter ≡ bus.request_counter

  module _ (bus : MockBus lib) (s : Text) (v : IsValid bus)
      (missing : senders.get bus.subjects s ≡ none) where
    made_pair : MockBus lib × broadcast.Sender
    made_pair = (
      record bus {
        channels = (broadcast.channel bus.channels (2 ^ 6)).0;
        subjects = senders.insert bus.subjects s (broadcast.channel bus.channels (2 ^ 6)).1;
      },
      (broadcast.channel bus.channels (2 ^ 6)).1,
    )

    get-made :
        (t : Text)
        → senders.get made_pair.0.subjects t
          ≡ (if codes_eq s t then some made_pair.1 else senders.get bus.subjects t)
    unfolding made_pair
    get-made t = senders.get-insert bus.subjects s _ t

    -- What stands under a subject is the new sender, or was there.
    old_or_new :
        (t : Text) (c : broadcast.Sender)
        → senders.get made_pair.0.subjects t ≡ some c
        → ((s ≡ t) × (c ≡ made_pair.1)) ⊎ (senders.get bus.subjects t ≡ some c)
    old_or_new t c h = elim (Bool-cases (codes_eq s t)) [
      | inl same ↦ inl ((codes_eq_iff s t).0 same, ground (arith, get-made t))
      | inr other ↦ inr (ground (arith, get-made t))
    ]

    number-made : broadcast.number made_pair.1 ≡ broadcast.count bus.channels
    unfolding made_pair
    number-made = broadcast.number-channel bus.channels (2 ^ 6)

    count-made : broadcast.count made_pair.0.channels ≡ suc (broadcast.count bus.channels)
    unfolding made_pair
    count-made = broadcast.count-channel bus.channels (2 ^ 6)

    room-made : broadcast.room made_pair.1 ≡ 64
    unfolding made_pair
    room-made = broadcast.room-channel bus.channels 6

    made_pair-made :
        (t : Text) (c : broadcast.Sender)
        → senders.get made_pair.0.subjects t ≡ some c
        → (broadcast.number c < broadcast.count made_pair.0.channels) × (broadcast.room c ≡ 64)
    made_pair-made t c h = elim (old_or_new t c h) [
      | inl (same, e) ↦ rw (e, number-made, count-made, room-made) (omega arith, refl)
      | inr old ↦ rw count-made (ground (arith, v.made t c old))
    ]

    made_pair-apart :
        (t u : Text) (c d : broadcast.Sender)
        → senders.get made_pair.0.subjects t ≡ some c
        → senders.get made_pair.0.subjects u ≡ some d
        → broadcast.number c ≡ broadcast.number d
        → t ≡ u
    made_pair-apart t u c d h g e = elim (old_or_new t c h) [
      | inl (st, cm) ↦ elim (old_or_new u d g) [
        | inl (su, dm) ↦ sym st ∙ su
        | inr old ↦ absurd (omega (arith, v.made u d old, number-made, ap broadcast.number cm))
      ]
      | inr old ↦ elim (old_or_new u d g) [
        | inl (su, dm) ↦ absurd (omega (arith, v.made t c old, number-made, ap broadcast.number dm))
        | inr old' ↦ v.apart t u c d old old' e
      ]
    ]

    made_pair-Ensured : Ensured bus s made_pair
    unfolding made_pair
    made_pair-Ensured = record {
      entered = rw (get-made s, codes_eq_refl s) refl;
      kept = λ t c h. get-made t ∙ ground (arith, codes_eq_iff s t);
      valid = record { made = made_pair-made; apart = made_pair-apart };
      views = broadcast.view-channel bus.channels (2 ^ 6);
      receivers = broadcast.receivers-channel bus.channels (2 ^ 6);
      pending = refl;
      slots = refl;
      counter = refl;
    }

  pub ensure_subject-Ensured :
      (bus : MockBus lib) (s : Text) → IsValid bus → Ensured bus s (ensure_subject lib bus s)
  unfolding ensure_subject made_pair
  ensure_subject-Ensured bus s v = elim (Option-cases (senders.get bus.subjects s)) [
    | inl missing ↦
        rw (missing, find_or_make) (rw (missing, enter) (made_pair-Ensured bus s v missing))
    | inr (c, there) ↦
        rw (there, find_or_make)
          (record {
            entered = there;
            kept = λ t d h. h;
            valid = v;
            views = λ r. refl;
            receivers = refl;
            pending = refl;
            slots = refl;
            counter = refl;
          })
  ]
