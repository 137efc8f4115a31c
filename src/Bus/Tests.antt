-- ===== src/Bus/Tests.antt =====
-- crates/common-msgbus: the libraries by example, and concrete runs.
use mathlib.Core.Option as Option
use lokan_os.Prelude.{
  String, ℕ, zero, suc, ◌<◌, ◌≡◌, ◌≢◌, refl, ap, Bool, true, false, Option, none, some, List, [],
  ◌∷◌, arith, if◌then◌else◌, ◌==◌, ◌&&◌, ◌||◌, ==_iff,
}
use lokan_os.Prelude.Text.{Text, codes, codes_eq}
use lokan_os.Prelude.Keys.{codes_key, codes_eq_iff}
use lokan_os.Prelude.Dict.{Dict, get, insert, remove, get-insert, get-remove}
use lokan_os.Prelude.Result.{Result, ok, err, is_ok}
use lokan_os.Bus.Messages.{BusMessage}
use lokan_os.Bus.Tokio.{DashMap, View, hand, read, first, Broadcast, Slot, Oneshot, Libraries}
use lokan_os.Bus.Mock
use lokan_os.Bus.Mock.{MockBus, Subscription, Waiting, new}
use lokan_os.Bus.Mock.Calls.{Call, run}
use lokan_os.Bus.Mock.Subscriptions.{read_all, all_spoken, read_all-subscribe}
use lokan_os.Bus.Mock.Responses.{request-respond}
use lokan_os.Prelude.Digits.{decimal}

get-none : {V : Type 0} (k : Text) → ◌≡◌ {A = Option V} (get [] k) none
unfolding get
get-none k = refl

abbrev dict_map : (V : Type 0) → DashMap V
dict_map V = record {
  Map = Dict Text V;
  empty = [];
  get = λ m k. get m k;
  insert = λ m k v. insert m k v;
  remove = λ m k. remove m k;
  get-empty = get-none;
  get-insert = λ m k v j. get-insert m k v j;
  get-remove = λ m k j. get-remove m k j;
}

-- Every channel and receiver by its number.
record Channels : Type 0 where
  made : ℕ
  joined : ℕ
  views : ℕ → View

-- The number of a sender, and its places.
abbrev Sender : Type 0
Sender = ℕ × ℕ

-- Whether one of the first `k` receivers has the channel.
heard : ℕ → (ℕ → View) → ℕ → Bool
heard zero views n = false
heard (suc k) views n = (views k).channel == n || heard k views n

abbrev update {ℓ} : {A : Type ℓ} → (ℕ → A) → ℕ → A → ℕ → A
update f i a j = if i == j then a else f j

update_self {ℓ} : {A : Type ℓ} (f : ℕ → A) (i : ℕ) (a : A) → update f i a i ≡ a
update_self f i a = ground (arith, ==_iff i i)

update_other {ℓ} : {A : Type ℓ} (f : ℕ → A) (i j : ℕ) (a : A) → i ≢ j → update f i a j ≡ f j
update_other f i j a h = ground (arith, ==_iff i j)

abbrev taken : Bool → Result Text ℕ
taken true = ok 1
taken false = err (codes "channel closed")

abbrev item : View → Option (Result ℕ BusMessage)
item v = if v.behind then some (err 1) else Option.map ok (first v.unread)

heard_lem :
    (k : ℕ) (views : ℕ → View) (n r : ℕ) → r < k → (views r).channel ≡ n → heard k views n ≡ true
unfolding heard
heard_lem zero views n r h e = absurd (omega arith)
heard_lem (suc k) views n r h e = ground (arith, heard_lem k views n r)

abbrev local : Broadcast
local = record {
  Channels = Channels;
  Sender = Sender;
  Receiver = ℕ;
  no_channels = record {
    made = 0;
    joined = 0;
    views = λ r. record { channel = 0; room = 0; unread = []; behind = false };
  };
  channel = λ w n. (record w { made = suc w.made }, (w.made, n));
  send = λ w c m.
      (record w { views = λ r. hand c.0 m (w.views r) }, taken (heard w.joined w.views c.0));
  subscribe = λ w c. (
    record w {
      joined = suc w.joined;
      views =
          update w.views w.joined
            (record { channel = c.0; room = c.1; unread = []; behind = false });
    },
    w.joined,
  );
  poll = λ w r. (record w { views = update w.views r (read (w.views r)) }, item (w.views r));
  count = λ w. w.made;
  number = λ c. c.0;
  room = λ c. c.1;
  receivers = λ w. w.joined;
  place = λ r. r;
  view = λ w r. w.views r;
  count-channel = λ w n. refl;
  number-channel = λ w n. refl;
  room-channel = λ w k. refl;
  receivers-channel = λ w n. refl;
  view-channel = λ w n r. refl;
  count-send = λ w c m. refl;
  receivers-send = λ w c m. refl;
  view-send = λ w c m r. refl;
  send-is_ok = λ w c m r h e. ap (λ b. is_ok (taken b)) (heard_lem w.joined w.views c.0 r h e);
  count-subscribe = λ w c. refl;
  receivers-subscribe = λ w c. refl;
  place-subscribe = λ w c. refl;
  view-subscribe = λ w c. update_self w.views w.joined _;
  view-subscribe_other = λ w c r h. update_other w.views w.joined r _ (λ e. absurd (omega arith));
  count-poll = λ w r. refl;
  receivers-poll = λ w r. refl;
  view-poll = λ w r. update_self w.views r _;
  view-poll_other = λ w q r h. update_other w.views q r _ h;
  poll_behind = λ w r h.
      (1, ap (λ b. if b then some (err 1) else Option.map ok (first (w.views r).unread)) h);
  poll_lem =
      λ w r h. ap (λ b. if b then some (err 1) else Option.map ok (first (w.views r).unread)) h;
}

record Slots : Type 0 where
  made : ℕ
  slots : ℕ → Slot

abbrev dropped : Slot → Slot
dropped s = record s { got = some (err (codes "channel closed")) }

abbrev in_memory : Oneshot
in_memory = record {
  Slots = Slots;
  Sender = ℕ;
  Receiver = ℕ;
  no_slots = record { made = 0; slots = λ n. record { is_open = false; got = none } };
  channel = λ o. (
    record {
      made = suc o.made;
      slots = λ n. if n == o.made then record { is_open = true; got = none } else o.slots n;
    },
    o.made,
    o.made,
  );
  send = λ o tx p. (
    record o {
      slots = λ n.
          if tx == n && (o.slots n).is_open
          then record { is_open = true; got = some (ok p) }
          else o.slots n;
    },
    (o.slots tx).is_open,
  );
  drop = λ o tx. record o { slots = update o.slots tx (dropped (o.slots tx)) };
  close = λ o rx. record o { slots = update o.slots rx (record (o.slots rx) { is_open = false }) };
  poll = λ o rx. (o.slots rx).got;
  count = λ o. o.made;
  sender_of = λ tx. tx;
  receiver_of = λ rx. rx;
  slot = λ o n. o.slots n;
  count-channel = λ o. refl;
  sender_of-channel = λ o. refl;
  receiver_of-channel = λ o. refl;
  slot-channel = λ o n h. refl;
  count-send = λ o tx p. refl;
  send_lem = λ o tx p. refl;
  slot-send = λ o tx p n. refl;
  count-drop = λ o tx. refl;
  slot-drop = λ o tx n h. update_other o.slots tx n _ h;
  count-close = λ o rx. refl;
  slot-close = λ o rx n h. update_other o.slots rx n _ h;
  poll_lem = λ o rx. refl;
}

abbrev simple : Libraries
simple = record {
  broadcast = local;
  oneshot = in_memory;
  senders = dict_map Sender;
  waiters = dict_map ℕ;
}

abbrev bare : String → ℕ → BusMessage
bare subject n = record { subject = codes subject; payload = n ∷ []; reply = none }

abbrev before : List (Call simple)
before = Call.subscribe (codes "lamp") ∷ Call.publish (codes "lamp") (1 ∷ []) ∷ []

abbrev sub : Subscription simple
sub = record { subject = codes "lamp"; inner = 1 }

-- One message on another subject, three on that of the subscription.
abbrev calls : List (Call simple)
calls =
    Call.publish (codes "door") (2 ∷ [])
    ∷ Call.publish (codes "lamp") (3 ∷ [])
    ∷ Call.request (codes "lamp") (4 ∷ [])
    ∷ Call.respond (codes "lamp") (5 ∷ [])
    ∷ []

read_all-subscribe_example :
    read_all simple 64
      (run simple (Mock.subscribe simple (run simple (new simple) before) (codes "lamp")).0 calls)
      sub
    ≡ bare "lamp" 3
      ∷ record { subject = codes "lamp"; payload = 4 ∷ []; reply = some (codes "inproc.reply.0") }
      ∷ bare "lamp" 5
      ∷ []
unfolding run new Mock.subscribe all_spoken get insert decimal heard
read_all-subscribe_example =
    read_all-subscribe simple before (codes "lamp") sub calls 64 refl (tt, (tt, (tt, (tt, tt))))
      (omega arith)

apart : {s t : Text} → codes_eq s t ≡ false → s ≢ t
apart {s} {t} h e = cc (h, (codes_eq_iff s t).1 e)

abbrev asked : Waiting simple
asked = record { reply_subject = codes "inproc.reply.0"; rx = 0 }

abbrev others : List (Call simple)
others = Call.request (codes "lamp") (7 ∷ []) ∷ Call.respond (codes "inproc.reply.1") (8 ∷ []) ∷ []

abbrev between : MockBus simple
between =
    run simple (Mock.request simple (run simple (new simple) before) (codes "lamp") (6 ∷ [])).0
      others

request-respond_example :
    (Mock.response simple between asked ≡ none)
    × ((Mock.respond simple between asked.reply_subject (9 ∷ [])).1 ≡ ok tt)
    × (Mock.response simple
          (run simple (Mock.respond simple between asked.reply_subject (9 ∷ [])).0 others)
          asked
        ≡ some (ok record { subject = asked.reply_subject; payload = 9 ∷ []; reply = none }))
unfolding run new Mock.request get insert decimal heard
request-respond_example =
    request-respond simple before others others (codes "lamp") (6 ∷ []) (9 ∷ []) asked refl
      (tt, (apart refl, tt)) (tt, (apart refl, tt)) (omega arith)
