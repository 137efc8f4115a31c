-- ===== src/Bus/Mock/Delivery.antt =====
-- crates/common-msgbus/src/lib.rs: what a subscription of MockBus is handed.
use lokan_os.Prelude.{
  ℕ, ◌<◌, ◌≡◌, refl, sym, ap, ◌∙◌, ◌==◌, some, arith, List, [], ◌∷◌, ◌++◌, if◌then◌else◌, inl, inr,
  Bool-cases, ==_iff,
}
use lokan_os.Prelude.Text.{Text, codes_eq}
use lokan_os.Prelude.Keys.{codes_eq_iff}
use lokan_os.Bus.Messages.{BusMessage, MsgBusError}
use lokan_os.Bus.Tokio.{Libraries, View, hand, latest}
use lokan_os.Bus.Mock.{MockBus, Subscription, ensure_subject, send_message}
use lokan_os.Bus.Mock.Senders.{IsValid, ensure_subject-Ensured}
use lokan_os.Bus.Mock.Latest.{pushed, on}

module _ (lib : Libraries) where
  open lib use {broadcast, senders}

  -- What the subscription was handed since it was made, if it has read none of it: all that is still
  -- there to be read.
  pub record Hears (bus : MockBus lib) (sub : Subscription lib) (xs : List BusMessage)
      : Type 0 where
    pub valid : IsValid lib bus
    pub sender : broadcast.Sender
    pub entered : senders.get bus.subjects sub.subject ≡ some sender
    pub placed : broadcast.place sub.inner < broadcast.receivers bus.channels
    pub channel : (broadcast.view bus.channels sub.inner).channel ≡ broadcast.number sender
    pub room : (broadcast.view bus.channels sub.inner).room ≡ 64
    pub unread : (broadcast.view bus.channels sub.inner).unread ≡ latest 64 xs

  -- What the sending of a message does.
  pub record Sent (bus : MockBus lib) (m : BusMessage) (after : MockBus lib) : Type 0 where
    pub valid : IsValid lib after
    pub kept :
        (t : Text) (c : broadcast.Sender)
        → senders.get bus.subjects t ≡ some c
        → senders.get after.subjects t ≡ some c
    pub sender : broadcast.Sender
    pub entered : senders.get after.subjects m.subject ≡ some sender
    pub views :
        (r : broadcast.Receiver)
        → broadcast.view after.channels r
          ≡ hand (broadcast.number sender) m (broadcast.view bus.channels r)
    pub receivers : broadcast.receivers after.channels ≡ broadcast.receivers bus.channels
    pub pending : after.pending ≡ bus.pending
    pub slots : after.slots ≡ bus.slots
    pub counter : after.request_counter ≡ bus.request_counter

  pub send_message-Sent :
      (bus : MockBus lib) (m : BusMessage) (error : Text → MsgBusError)
      → IsValid lib bus
      → Sent bus m (send_message lib bus m error).0
  unfolding send_message
  send_message-Sent bus m error v =
      let e = ensure_subject-Ensured lib bus m.subject v in
      let (entered, c) = ensure_subject lib bus m.subject in
      record {
        valid = record {
          made = λ t d h. rw (broadcast.count-send entered.channels c m) (e.valid.made t d h);
          apart = e.valid.apart;
        };
        kept = e.kept;
        sender = c;
        entered = e.entered;
        views = λ r.
            broadcast.view-send entered.channels c m r
            ∙ ap (hand (broadcast.number c) m) (e.views r);
        receivers = broadcast.receivers-send entered.channels c m ∙ e.receivers;
        pending = e.pending;
        slots = e.slots;
        counter = e.counter;
      }

  -- Two subjects have the same channel just if they are the same.
  same_channel :
      (bus : MockBus lib) (s t : Text) (c d : broadcast.Sender)
      → IsValid lib bus
      → senders.get bus.subjects s ≡ some c
      → senders.get bus.subjects t ≡ some d
      → (broadcast.number c == broadcast.number d) ≡ codes_eq t s
  same_channel bus s t c d v h g = elim (Bool-cases (codes_eq t s)) [
    | inl same ↦
        let e : c ≡ d =
          cc (sym h ∙ ap (senders.get bus.subjects) (sym ((codes_eq_iff t s).0 same)) ∙ g) in
        rw (same, e) ((==_iff (broadcast.number d) (broadcast.number d)).1 refl)
    | inr other ↦ rw other (grind (arith, codes_eq_iff t s, v.apart s t c d h g))
  ]

  channel-hand : (n : ℕ) (m : BusMessage) (v : View) → (hand n m v).channel ≡ v.channel
  channel-hand n m v = ground arith

  room-hand : (n : ℕ) (m : BusMessage) (v : View) → (hand n m v).room ≡ v.room
  room-hand n m v = ground arith

  unread-hand :
      (n : ℕ) (m : BusMessage) (v : View)
      → (hand n m v).unread
        ≡ (if v.channel == n then latest v.room (v.unread ++ m ∷ []) else v.unread)
  unread-hand n m v = ground arith

  pub Sent-Hears :
      {bus after : MockBus lib} {sub : Subscription lib} {xs : List BusMessage} {m : BusMessage}
      → Sent bus m after
      → Hears bus sub xs
      → Hears after sub (xs ++ on sub.subject (m ∷ []))
  Sent-Hears {bus} {after} {sub} {xs} {m} t h =
      let there = t.kept sub.subject h.sender h.entered in
      let v = broadcast.view bus.channels sub.inner in
      let seen = t.views sub.inner in
      let same =
        same_channel after sub.subject m.subject h.sender t.sender t.valid there t.entered in
      record {
        valid = t.valid;
        sender = h.sender;
        entered = there;
        placed = rw t.receivers h.placed;
        channel = ap View.channel seen ∙ channel-hand _ m v ∙ h.channel;
        room = ap View.room seen ∙ room-hand _ m v ∙ h.room;
        unread =
            ap View.unread seen
            ∙ unread-hand _ m v
            ∙ pushed m xs _ _ _ _ _ (ap (λ n. n == broadcast.number t.sender) h.channel ∙ same)
                h.room h.unread;
      }
