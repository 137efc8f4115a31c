-- ===== src/Bus/Mock/Subscriptions.antt =====
-- crates/common-msgbus/src/lib.rs: a subscription of MockBus from its making to its reading.
use mathlib.Core.Option as Option
use lokan_os.Prelude.{
  ℕ, zero, suc, ◌≤◌, ◌≡◌, ◌≢◌, refl, sym, ap, subst, ◌∙◌, true, false, Option, none, some, arith,
  List, [], ◌∷◌, ◌++◌, append_assoc, append-nil, inl, inr, Bool-cases, length, All,
}
use lokan_os.Prelude.Text.{Text}
use lokan_os.Prelude.Result.{ok}
use lokan_os.Bus.Messages.{BusMessage, MsgBusError}
use lokan_os.Bus.Tokio.{Libraries, View, latest, first, tail, read}
use lokan_os.Bus.Mock
use lokan_os.Bus.Mock.{
  MockBus, Subscription, Waiting, ensure_subject, next_reply_subject, respond_through, next_after,
  new,
}
use lokan_os.Bus.Mock.Calls.{Call, step, run}
use lokan_os.Bus.Mock.Senders.{IsValid, ensure_subject-Ensured}
use lokan_os.Bus.Mock.Valid.{run-new-IsValid}
use lokan_os.Bus.Mock.Latest.{on, length-latest_le}
use lokan_os.Bus.Mock.Delivery.{Hears}
use lokan_os.Bus.Mock.Heard.{
  Hears-parts, insert_waiter-Hears, wait_for-Hears, send_message-Hears, subscribe-Hears,
  polled-Hears, next_after-Hears,
}

on-append : (s : Text) (ms ns : List BusMessage) → on s (ms ++ ns) ≡ on s ms ++ on s ns
on-append s [] ns = refl
on-append s (m ∷ ms) ns = ground (arith, on-append s ms ns)

abbrev collect : Option BusMessage → List BusMessage → List BusMessage
collect none rest = []
collect (some message) rest = message ∷ rest

behind_read : (v : View) → v.behind ≡ true → (read v).behind ≡ false
behind_read v h = ground arith

unread_behind : (v : View) → v.behind ≡ true → (read v).unread ≡ v.unread
unread_behind v h = ground arith

unread_read : (v : View) → v.behind ≡ false → (read v).unread ≡ tail v.unread
unread_read v h = ground arith

module _ (lib : Libraries) where
  open lib use {broadcast, waiters}

  -- A response that no request waits for is a message like others.
  abbrev unclaimed : Text → List ℕ → Option lib.oneshot.Sender → List BusMessage
  unclaimed reply_to payload none =
      record { subject = reply_to; payload = payload; reply = none } ∷ []
  unclaimed reply_to payload (some waiter) = []

  -- The messages of a call.
  abbrev pub spoken : MockBus lib → Call lib → List BusMessage
  unfolding next_reply_subject
  spoken bus (Call.publish subject payload) =
      record { subject = subject; payload = payload; reply = none } ∷ []
  spoken bus (Call.request subject payload) =
      record { subject = subject; payload = payload; reply = some (next_reply_subject lib bus).1 }
      ∷ []
  spoken bus (Call.respond reply_to payload) =
      unclaimed reply_to payload (waiters.get bus.pending reply_to)
  spoken bus (Call.subscribe subject) = []
  spoken bus (Call.cancel waiting) = []
  spoken bus (Call.poll_next sub) = []

  unfoldable pub all_spoken : MockBus lib → List (Call lib) → List BusMessage
  all_spoken bus [] = []
  all_spoken bus (call ∷ calls) = spoken bus call ++ all_spoken (step lib bus call) calls

  -- A call that does not read this subscription.
  abbrev pub Leaves : Subscription lib → Call lib → Type 0
  Leaves sub (Call.poll_next other) = broadcast.place other.inner ≢ broadcast.place sub.inner
  Leaves sub (Call.publish subject payload) = Unit
  Leaves sub (Call.subscribe subject) = Unit
  Leaves sub (Call.request subject payload) = Unit
  Leaves sub (Call.cancel waiting) = Unit
  Leaves sub (Call.respond reply_to payload) = Unit

  respond_through-Hears :
      {bus : MockBus lib} {sub : Subscription lib} {xs : List BusMessage} (reply_to : Text)
      (payload : List ℕ) (waiter : Option lib.oneshot.Sender)
      → Hears lib bus sub xs
      → Hears lib
          (respond_through lib bus reply_to payload waiter).0
          sub
          (xs ++ on sub.subject (unclaimed reply_to payload waiter))
  unfolding respond_through
  respond_through-Hears reply_to payload none h =
      send_message-Hears lib _ (λ _. MsgBusError.unknown_reply_subject reply_to) h
  respond_through-Hears {bus} {sub} {xs} reply_to payload (some waiter) h =
      subst (Hears lib _ sub) (sym (append-nil xs)) (Hears-parts lib _ _ _ h)

  step-Hears :
      {bus : MockBus lib} {sub : Subscription lib} {xs : List BusMessage} (call : Call lib)
      → Leaves sub call
      → Hears lib bus sub xs
      → Hears lib (step lib bus call) sub (xs ++ on sub.subject (spoken bus call))
  unfolding step Mock.publish Mock.request Mock.cancel Mock.respond Mock.poll_next
      next_reply_subject spoken
  step-Hears (Call.publish subject payload) l h = send_message-Hears lib _ MsgBusError.publish h
  step-Hears {bus} {sub} {xs} (Call.subscribe subject) l h =
      subst (Hears lib _ sub) (sym (append-nil xs)) (subscribe-Hears lib subject h)
  step-Hears (Call.request subject payload) l h = wait_for-Hears lib _ _ (
      send_message-Hears lib _ MsgBusError.request
        (insert_waiter-Hears lib _ _ _ (Hears-parts lib _ _ _ h)))
  step-Hears {bus} {sub} {xs} (Call.cancel waiting) l h =
      subst (Hears lib _ sub) (sym (append-nil xs)) (Hears-parts lib _ _ _ h)
  step-Hears (Call.respond reply_to payload) l h = respond_through-Hears reply_to payload _ h
  step-Hears {bus} {sub} {xs} (Call.poll_next other) l h =
      subst (Hears lib _ sub) (sym (append-nil xs))
        (next_after-Hears lib 1 _ other _ l (polled-Hears lib other.inner l h))

  run-Hears :
      {sub : Subscription lib} (bus : MockBus lib) (xs : List BusMessage) (calls : List (Call lib))
      → All (Leaves sub) calls
      → Hears lib bus sub xs
      → Hears lib (run lib bus calls) sub (xs ++ on sub.subject (all_spoken bus calls))
  unfolding run all_spoken
  run-Hears {sub} bus xs [] l h = subst (Hears lib bus sub) (sym (append-nil xs)) h
  run-Hears {sub} bus xs (call ∷ calls) (l, ls) h =
      subst (Hears lib _ sub)
        (append_assoc xs _ _
          ∙ ap (◌++◌ xs) (
              sym (on-append sub.subject (spoken bus call) (all_spoken (step lib bus call) calls))))
        (run-Hears (step lib bus call) (xs ++ on sub.subject (spoken bus call)) calls ls
          (step-Hears call l h))

  -- The stream of a subscription, read until it has no more or `limit` messages are read.
  pub read_all : ℕ → MockBus lib → Subscription lib → List BusMessage
  unfolding Mock.poll_next
  read_all zero bus sub = []
  read_all (suc limit) bus sub =
      let (bus', item) = Mock.poll_next lib bus sub in collect item (read_all limit bus' sub)

  next_after_lem :
      (fuel : ℕ) (bus : MockBus lib) (sub : Subscription lib) (us : List BusMessage)
      → next_after lib fuel bus sub (Option.map ok (first us)) ≡ (bus, first us)
  unfolding next_after
  next_after_lem fuel bus sub [] = refl
  next_after_lem fuel bus sub (u ∷ us) = refl

  -- A read gives the oldest message that is there, and the rest stays.
  record Polled (us : List BusMessage) (sub : Subscription lib)
      (after : MockBus lib × Option BusMessage) : Type 0 where
    item : after.1 ≡ first us
    unread : (broadcast.view after.0.channels sub.inner).unread ≡ tail us

  Polled-eq :
      {us ws : List BusMessage} {sub : Subscription lib} {after : MockBus lib × Option BusMessage}
      → us ≡ ws
      → Polled us sub after
      → Polled ws sub after
  Polled-eq e p = record { item = p.item ∙ ap first e; unread = p.unread ∙ ap tail e }

  next_after-Polled :
      (fuel : ℕ) (bus : MockBus lib) (sub : Subscription lib)
      → (broadcast.view bus.channels sub.inner).behind ≡ false
      → Polled (broadcast.view bus.channels sub.inner).unread sub (
          next_after lib fuel
            (record bus { channels = (broadcast.poll bus.channels sub.inner).0 })
            sub
            (broadcast.poll bus.channels sub.inner).1)
  next_after-Polled fuel bus sub late =
      rw (broadcast.poll_lem bus.channels sub.inner late, next_after_lem)
        (record {
          item = refl;
          unread =
              rw broadcast.view-poll (unread_read (broadcast.view bus.channels sub.inner) late);
        })

  poll_next-Polled :
      (bus : MockBus lib) (sub : Subscription lib)
      → Polled (broadcast.view bus.channels sub.inner).unread sub (Mock.poll_next lib bus sub)
  unfolding Mock.poll_next
  poll_next-Polled bus sub = elim (Bool-cases (broadcast.view bus.channels sub.inner).behind) [
    | inl late ↦
        let (n, missed) = broadcast.poll_behind bus.channels sub.inner late in
        let v = broadcast.view bus.channels sub.inner in
        let seen = broadcast.view-poll bus.channels sub.inner in
        rw missed (
          Polled-eq (ap View.unread seen ∙ unread_behind v late) (
            next_after-Polled 0
              (record bus { channels = (broadcast.poll bus.channels sub.inner).0 }) sub
              (ap View.behind seen ∙ behind_read v late)))
    | inr late ↦ next_after-Polled 1 bus sub late
  ]

  read_all_lem :
      (limit : ℕ) (bus : MockBus lib) (sub : Subscription lib) (us : List BusMessage)
      → (broadcast.view bus.channels sub.inner).unread ≡ us
      → length us ≤ limit
      → read_all limit bus sub ≡ us
  unfolding read_all
  read_all_lem zero bus sub [] h few = refl
  read_all_lem zero bus sub (u ∷ us) h few = absurd (omega arith)
  read_all_lem (suc limit) bus sub [] h few =
      let p = poll_next-Polled bus sub in
      ap (λ o. collect o (read_all limit (Mock.poll_next lib bus sub).0 sub)) (p.item ∙ ap first h)
  read_all_lem (suc limit) bus sub (u ∷ us) h few =
      let p = poll_next-Polled bus sub in
      ap (λ o. collect o (read_all limit (Mock.poll_next lib bus sub).0 sub)) (p.item ∙ ap first h)
      ∙ ap (◌∷◌ u) (
          read_all_lem limit (Mock.poll_next lib bus sub).0 sub us (p.unread ∙ ap tail h)
            (omega arith))

  subscribe_lem :
      (bus : MockBus lib) (subject : Text) (sub : Subscription lib)
      → IsValid lib bus
      → (Mock.subscribe lib bus subject).1 ≡ ok sub
      → Hears lib (Mock.subscribe lib bus subject).0 sub []
  unfolding Mock.subscribe
  subscribe_lem bus subject sub v h =
      let e = ensure_subject-Ensured lib bus subject v in
      let (entered, c) = ensure_subject lib bus subject in
      let w = entered.channels in
      let (channels, r) = broadcast.subscribe w c in
      let mine : Subscription lib = record { subject = subject; inner = r } in
      let same : mine ≡ sub = cc h in
      let seen = broadcast.view-subscribe w c in
      let channels_kept = broadcast.count-subscribe w c in
      let start : Hears lib (record entered { channels = channels }) mine [] = record {
        valid = record {
          made = λ s d there. rw channels_kept (e.valid.made s d there);
          apart = e.valid.apart;
        };
        sender = c;
        entered = e.entered;
        placed = omega (arith, broadcast.place-subscribe w c, broadcast.receivers-subscribe w c);
        channel = ap View.channel seen;
        room = ap View.room seen ∙ (e.valid.made subject c e.entered).1;
        unread = ap View.unread seen;
      } in
      subst (λ q. Hears lib (record entered { channels = channels }) q []) same start

  subject_lem :
      (bus : MockBus lib) (subject : Text) (sub : Subscription lib)
      → (Mock.subscribe lib bus subject).1 ≡ ok sub
      → sub.subject ≡ subject
  unfolding Mock.subscribe
  subject_lem bus subject sub h = ground (arith, h)

  -- Let any calls have been made on a new bus, and then a subscription, and then any other calls that
  -- do not read the subscription. Whoever reads it then gets the messages that the later calls have
  -- put on the subject, in their order: those published, the requests, and the responses that no
  -- request was waiting for. If there are more than 64 of them it gets the last 64. This holds for
  -- every reading of 64 messages or more.
  pub read_all-subscribe :
      (before : List (Call lib)) (subject : Text) (sub : Subscription lib) (calls : List (Call lib))
      (limit : ℕ)
      → (Mock.subscribe lib (run lib (new lib) before) subject).1 ≡ ok sub
      → All (Leaves sub) calls
      → 64 ≤ limit
      → read_all limit (run lib (Mock.subscribe lib (run lib (new lib) before) subject).0 calls) sub
        ≡ latest 64 (
            on subject (all_spoken (Mock.subscribe lib (run lib (new lib) before) subject).0 calls))
  read_all-subscribe before subject sub calls limit h l enough =
      let start =
        subscribe_lem (run lib (new lib) before) subject sub (run-new-IsValid lib before) h in
      let heard = run-Hears _ [] calls l start in
      let messages = all_spoken (Mock.subscribe lib (run lib (new lib) before) subject).0 calls in
      read_all_lem limit _ sub _
        (heard.unread ∙ ap (λ s. latest 64 (on s messages)) (subject_lem _ subject sub h))
        (omega (arith, length-latest_le 64 (on subject messages)))
