-- ===== src/Bus/Tokio.antt =====
-- What MockBus of crates/common-msgbus uses of `dashmap` and `tokio`: operations, what can be observed
-- of their state, and what their documentation says of both.
use lokan_os.Prelude.{
  ℕ, suc, ◌<◌, ◌≡◌, ◌≢◌, Bool, true, false, ◌==◌, Option, none, some, List, [], ◌∷◌, ◌++◌,
  if◌then◌else◌, length, ltb, ◌||◌, ◌&&◌, ◌^◌, ◌≤◌,
}
use mathlib.Core.Option as Option
use lokan_os.Prelude.Text.{Text, codes_eq}
use lokan_os.Prelude.Result.{Result, ok, err, is_ok}
use lokan_os.Bus.Messages.{BusMessage}

-- dashmap::DashMap<String, V>
pub record DashMap (V : Type 0) : Type 1 where
  pub Map : Type 0
  pub empty : Map
  pub get : Map → Text → Option V
  pub insert : Map → Text → V → Map
  pub remove : Map → Text → Map
  pub get-empty : (k : Text) → get empty k ≡ none
  pub get-insert :
      (m : Map) (k : Text) (v : V) (j : Text)
      → get (insert m k v) j ≡ (if codes_eq k j then some v else get m j)
  pub get-remove :
      (m : Map) (k j : Text) → get (remove m k) j ≡ (if codes_eq k j then none else get m j)

-- The last `n` of a list, or all of them.
abbrev pub latest {ℓ} : {A : Type ℓ} → ℕ → List A → List A
latest n [] = []
latest n (x ∷ xs) = let rest = latest n xs in if ltb n (suc (length xs)) then rest else x ∷ xs

-- What a receiver has before it: the number of its channel, the places of the channel, the messages
-- that it has not read, and whether it has missed some since it last read.
pub record View : Type 0 where
  pub channel : ℕ
  pub room : ℕ
  pub unread : List BusMessage
  pub behind : Bool

-- A message that is sent on a channel pushes out the oldest when there is no room.
abbrev pub hand : ℕ → BusMessage → View → View
hand channel message v =
    if v.channel == channel
    then record v {
      unread = latest v.room (v.unread ++ message ∷ []);
      behind = v.behind || ltb v.room (suc (length v.unread));
    }
    else v

abbrev pub tail {ℓ} : {A : Type ℓ} → List A → List A
tail [] = []
tail (x ∷ xs) = xs

abbrev pub first {ℓ} : {A : Type ℓ} → List A → Option A
first [] = none
first (x ∷ xs) = some x

-- A read tells first that messages were missed.
abbrev pub read : View → View
read v = if v.behind then record v { behind = false } else record v { unread = tail v.unread }

-- tokio::sync::broadcast with messages of the bus. Receivers are not dropped; each has its place in
-- the order in which they were made, and each channel its number.
pub record Broadcast : Type 1 where
  pub Channels : Type 0
  pub Sender : Type 0
  pub Receiver : Type 0
  pub no_channels : Channels
  pub channel : Channels → ℕ → Channels × Sender
  pub send : Channels → Sender → BusMessage → Channels × Result Text ℕ
  pub subscribe : Channels → Sender → Channels × Receiver
  -- BroadcastStream::poll_next: `none` is Pending, an error is Lagged.
  pub poll : Channels → Receiver → Channels × Option (Result ℕ BusMessage)
  pub count : Channels → ℕ
  pub number : Sender → ℕ
  pub room : Sender → ℕ
  pub receivers : Channels → ℕ
  pub place : Receiver → ℕ
  pub view : Channels → Receiver → View
  pub count-channel : (w : Channels) (n : ℕ) → count (channel w n).0 ≡ suc (count w)
  pub number-channel : (w : Channels) (n : ℕ) → number (channel w n).1 ≡ count w
  pub room-channel : (w : Channels) (k : ℕ) → room (channel w (2 ^ k)).1 ≡ 2 ^ k
  pub receivers-channel : (w : Channels) (n : ℕ) → receivers (channel w n).0 ≡ receivers w
  pub view-channel : (w : Channels) (n : ℕ) (r : Receiver) → view (channel w n).0 r ≡ view w r
  pub count-send : (w : Channels) (c : Sender) (m : BusMessage) → count (send w c m).0 ≡ count w
  pub receivers-send :
      (w : Channels) (c : Sender) (m : BusMessage) → receivers (send w c m).0 ≡ receivers w
  pub view-send :
      (w : Channels) (c : Sender) (m : BusMessage) (r : Receiver)
      → view (send w c m).0 r ≡ hand (number c) m (view w r)
  pub send-is_ok :
      (w : Channels) (c : Sender) (m : BusMessage) (r : Receiver)
      → place r < receivers w
      → (view w r).channel ≡ number c
      → is_ok (send w c m).1 ≡ true
  pub count-subscribe : (w : Channels) (c : Sender) → count (subscribe w c).0 ≡ count w
  pub receivers-subscribe :
      (w : Channels) (c : Sender) → receivers (subscribe w c).0 ≡ suc (receivers w)
  pub place-subscribe : (w : Channels) (c : Sender) → place (subscribe w c).1 ≡ receivers w
  pub view-subscribe :
      (w : Channels) (c : Sender)
      → view (subscribe w c).0 (subscribe w c).1
        ≡ record { channel = number c; room = room c; unread = []; behind = false }
  pub view-subscribe_other :
      (w : Channels) (c : Sender) (r : Receiver)
      → place r < receivers w
      → view (subscribe w c).0 r ≡ view w r
  pub count-poll : (w : Channels) (r : Receiver) → count (poll w r).0 ≡ count w
  pub receivers-poll : (w : Channels) (r : Receiver) → receivers (poll w r).0 ≡ receivers w
  pub view-poll : (w : Channels) (r : Receiver) → view (poll w r).0 r ≡ read (view w r)
  pub view-poll_other :
      (w : Channels) (q r : Receiver) → place q ≢ place r → view (poll w q).0 r ≡ view w r
  pub poll_behind :
      (w : Channels) (r : Receiver)
      → (view w r).behind ≡ true
      → (n : ℕ) × ((poll w r).1 ≡ some (err n))
  pub poll_lem :
      (w : Channels) (r : Receiver)
      → (view w r).behind ≡ false
      → (poll w r).1 ≡ Option.map ok (first (view w r).unread)

-- Whether the receiver of a oneshot channel is still there, and what it gets, once it gets anything.
pub record Slot : Type 0 where
  pub is_open : Bool
  pub got : Option (Result Text (List ℕ))

-- tokio::sync::oneshot with payloads; each channel has its number, on both ends.
pub record Oneshot : Type 1 where
  pub Slots : Type 0
  pub Sender : Type 0
  pub Receiver : Type 0
  pub no_slots : Slots
  pub channel : Slots → Slots × Sender × Receiver
  -- `false`: the receiver is gone.
  pub send : Slots → Sender → List ℕ → Slots × Bool
  pub drop : Slots → Sender → Slots
  pub close : Slots → Receiver → Slots
  -- The receiver as a future: `none` is Pending.
  pub poll : Slots → Receiver → Option (Result Text (List ℕ))
  pub count : Slots → ℕ
  pub sender_of : Sender → ℕ
  pub receiver_of : Receiver → ℕ
  pub slot : Slots → ℕ → Slot
  pub count-channel : (o : Slots) → count (channel o).0 ≡ suc (count o)
  pub sender_of-channel : (o : Slots) → sender_of (channel o).1 ≡ count o
  pub receiver_of-channel : (o : Slots) → receiver_of (channel o).2 ≡ count o
  pub slot-channel :
      (o : Slots) (n : ℕ)
      → n ≤ count o
      → slot (channel o).0 n
        ≡ (if n == count o then record { is_open = true; got = none } else slot o n)
  pub count-send : (o : Slots) (tx : Sender) (p : List ℕ) → count (send o tx p).0 ≡ count o
  pub send_lem :
      (o : Slots) (tx : Sender) (p : List ℕ) → (send o tx p).1 ≡ (slot o (sender_of tx)).is_open
  pub slot-send :
      (o : Slots) (tx : Sender) (p : List ℕ) (n : ℕ)
      → slot (send o tx p).0 n ≡ (
          if sender_of tx == n && (slot o n).is_open
          then record { is_open = true; got = some (ok p) }
          else slot o n)
  pub count-drop : (o : Slots) (tx : Sender) → count (drop o tx) ≡ count o
  pub slot-drop :
      (o : Slots) (tx : Sender) (n : ℕ) → sender_of tx ≢ n → slot (drop o tx) n ≡ slot o n
  pub count-close : (o : Slots) (rx : Receiver) → count (close o rx) ≡ count o
  pub slot-close :
      (o : Slots) (rx : Receiver) (n : ℕ) → receiver_of rx ≢ n → slot (close o rx) n ≡ slot o n
  pub poll_lem : (o : Slots) (rx : Receiver) → poll o rx ≡ (slot o (receiver_of rx)).got

-- What the bus in memory stands on.
pub record Libraries : Type 1 where
  pub broadcast : Broadcast
  pub oneshot : Oneshot
  pub senders : DashMap broadcast.Sender
  pub waiters : DashMap oneshot.Sender
