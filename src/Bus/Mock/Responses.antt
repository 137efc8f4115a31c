-- ===== src/Bus/Mock/Responses.antt =====
-- crates/common-msgbus/src/lib.rs: MockBus::request and MockBus::respond together.
use lokan_os.Prelude.{
  ℕ, ◌+◌, ◌<◌, ◌^◌, ◌≡◌, refl, sym, ap, subst, ◌∙◌, true, Option, none, some, List, inl, inr, arith,
  All,
}
use lokan_os.Prelude.Text.{Text}
use lokan_os.Prelude.Result.{ok}
use lokan_os.Bus.Tokio.{Libraries, Slot}
use lokan_os.Bus.Maps.{get-insert_self, get-remove_self, get-remove_cases}
use lokan_os.Bus.Mock
use lokan_os.Bus.Mock.{MockBus, Waiting, new, respond_through}
use lokan_os.Bus.Mock.Calls.{Call, step, run}
use lokan_os.Bus.Mock.Senders.{IsValid, new-IsValid}
use lokan_os.Bus.Mock.Valid.{run-new-IsValid, step-IsValid}
use lokan_os.Bus.Mock.Effects.{Requests, requests_of, reply_text, asked, answered, request-asked}
use lokan_os.Bus.Mock.Steady.{
  requests, Steady, asked-Steady, answered-Steady, get-asked, count-asked,
}
use lokan_os.Bus.Mock.Answers.{Spares, Holds, Watched, slot-drop_old, run-Watched, run-Steady}

abbrev waits : Slot
waits = record { is_open = true; got = none }

abbrev has : List ℕ → Slot
has payload = record { is_open = true; got = some (ok payload) }

module _ (lib : Libraries) where
  open lib use {oneshot, waiters}

  asked-Holds_new :
      {n : ℕ} (r : Requests lib) (w : Waiting lib)
      → Steady lib n r
      → w.reply_subject ≡ reply_text r.counter
      → w.rx ≡ (oneshot.channel r.slots).2
      → Holds lib w (some (oneshot.channel r.slots).1) waits (asked lib r)
  asked-Holds_new r w s key same =
      let number : oneshot.receiver_of w.rx ≡ oneshot.count r.slots =
        ap oneshot.receiver_of same ∙ oneshot.receiver_of-channel r.slots in
      record {
        known = omega (arith, count-asked lib r);
        held =
            slot-drop_old lib (oneshot.channel r.slots).0
              (waiters.get r.pending (reply_text r.counter)) (oneshot.receiver_of w.rx)
              (λ tx there e. absurd (omega (arith, s.numbered (reply_text r.counter) tx there)))
            ∙ ground (arith, oneshot.slot-channel r.slots (oneshot.receiver_of w.rx));
        stands = rw key (get-insert_self waiters r.pending (reply_text r.counter) _);
        others = λ k tx there other. elim (get-asked lib r k tx there) [
          | inl (e, new) ↦ absurd (other (sym e ∙ sym key))
          | inr (differs, old) ↦ λ e. absurd (omega (arith, s.numbered k tx old))
        ];
      }

  response_of :
      {w : Waiting lib} {entry : Option oneshot.Sender} {slot : Slot} (bus : MockBus lib)
      → Holds lib w entry slot (requests_of lib bus)
      → oneshot.poll bus.slots w.rx ≡ slot.got
  response_of {w} bus h = oneshot.poll_lem bus.slots w.rx ∙ ap (λ (q : Slot). q.got) h.held

  answered-Holds_own :
      {w : Waiting lib} {tx : oneshot.Sender} (r : Requests lib) (payload : List ℕ)
      → oneshot.sender_of tx ≡ oneshot.receiver_of w.rx
      → Holds lib w (some tx) waits r
      → Holds lib w none (has payload) (answered lib w.reply_subject payload tx r)
  answered-Holds_own {w} {tx} r payload own h = record {
    known = omega (arith, oneshot.count-send r.slots tx payload, h.known);
    held =
        oneshot.slot-send r.slots tx payload (oneshot.receiver_of w.rx)
        ∙ ground (arith, own, h.held);
    stands = get-remove_self waiters r.pending w.reply_subject;
    others = λ k t e differs.
        h.others k t (get-remove_cases waiters r.pending w.reply_subject k t e).1 differs;
  }

  new-Steady : Steady lib 0 (requests_of lib (new lib))
  unfolding new
  new-Steady = record { counted = refl; numbered = λ k tx h. ground (arith, waiters.get-empty k) }

  respond_own :
      (bus : MockBus lib) (key : Text) (payload : List ℕ) (tx : oneshot.Sender)
      → waiters.get bus.pending key ≡ some tx
      → (oneshot.slot bus.slots (oneshot.sender_of tx)).is_open ≡ true
      → ((Mock.respond lib bus key payload).1 ≡ ok tt)
        × (requests_of lib (Mock.respond lib bus key payload).0
            ≡ answered lib key payload tx (requests_of lib bus))
  unfolding Mock.respond
  respond_own bus key payload tx there open_slot =
      rw (there, respond_through) (ground (arith, oneshot.send_lem bus.slots tx payload), refl)

  response_waits :
      (bus : MockBus lib) (w : Waiting lib)
      → oneshot.poll bus.slots w.rx ≡ none
      → Mock.response lib bus w ≡ none
  unfolding Mock.response
  response_waits bus w h = rw (Mock.response, h) refl

  response_has :
      (bus : MockBus lib) (w : Waiting lib) (payload : List ℕ)
      → oneshot.poll bus.slots w.rx ≡ some (ok payload)
      → Mock.response lib bus w
        ≡ some (ok record { subject = w.reply_subject; payload = payload; reply = none })
  unfolding Mock.response
  response_has bus w payload h = rw (Mock.response, h) refl

  request-Watched :
      (n : ℕ) (bus : MockBus lib) (subject : Text) (payload : List ℕ) (w : Waiting lib)
      → IsValid lib bus
      → Steady lib n (requests_of lib bus)
      → n + 1 < 2 ^ 64
      → (Mock.request lib bus subject payload).1 ≡ ok w
      → Watched lib w
          (some (oneshot.channel bus.slots).1)
          waits
          (n + 1)
          (Mock.request lib bus subject payload).0
  unfolding step
  request-Watched n bus subject payload w v s few sent =
      let (same, key, rx) = request-asked lib bus subject payload w v sent in
      record {
        valid = step-IsValid lib bus (Call.request subject payload) v;
        steady = subst (Steady lib (n + 1)) (sym same) (asked-Steady lib few s);
        holds =
            subst (Holds lib w (some (oneshot.channel bus.slots).1) waits) (sym same)
              (asked-Holds_new (requests_of lib bus) w s key rx);
        index = bus.request_counter;
        key = key;
        past = omega (arith, s.counted);
      }

  -- The response to a request that waits.
  respond-Watched :
      {n : ℕ} {w : Waiting lib} {tx : oneshot.Sender} (bus : MockBus lib) (answer : List ℕ)
      → oneshot.sender_of tx ≡ oneshot.receiver_of w.rx
      → Watched lib w (some tx) waits n bus
      → ((Mock.respond lib bus w.reply_subject answer).1 ≡ ok tt)
        × Watched lib w none (has answer) n (Mock.respond lib bus w.reply_subject answer).0
  unfolding step
  respond-Watched {n} {w} {tx} bus answer own h =
      let (taken, same) = respond_own bus w.reply_subject answer tx h.holds.stands (
        ap (λ k. (oneshot.slot bus.slots k).is_open) own
        ∙ ap (λ (q : Slot). q.is_open) h.holds.held) in
      (
        taken,
        record {
          valid = step-IsValid lib bus (Call.respond w.reply_subject answer) h.valid;
          steady =
              subst (Steady lib n) (sym same)
                (answered-Steady lib w.reply_subject answer tx h.steady);
          holds =
              subst (Holds lib w none (has answer)) (sym same)
                (answered-Holds_own (requests_of lib bus) answer own h.holds);
          index = h.index;
          key = h.key;
          past = h.past;
        },
      )

  -- Let any calls be made on a new bus, then a request that a subscriber takes, then other calls that
  -- neither answer nor drop it, then a response on its reply subject, and then again such other
  -- calls; fewer than 2^64 requests in all. Up to the response the request waits; the response is
  -- accepted; and from then on the request ends with its payload, whatever else was asked and
  -- answered meanwhile.
  pub request-respond :
      (before between later : List (Call lib)) (subject : Text) (payload answer : List ℕ)
      (w : Waiting lib)
      → (Mock.request lib (run lib (new lib) before) subject payload).1 ≡ ok w
      → All (Spares lib w) between
      → All (Spares lib w) later
      → requests lib before + 1 + requests lib between + requests lib later < 2 ^ 64
      → let asked =
          run lib (Mock.request lib (run lib (new lib) before) subject payload).0 between in
        let (responded, result) = Mock.respond lib asked w.reply_subject answer in
        (Mock.response lib asked w ≡ none)
        × (result ≡ ok tt)
        × (Mock.response lib (run lib responded later) w
            ≡ some (ok record { subject = w.reply_subject; payload = answer; reply = none }))
  request-respond before between later subject payload answer w sent spare_between spare_later few =
      let start = run lib (new lib) before in
      let n = requests lib before in
      let v = run-new-IsValid lib before in
      let steady : Steady lib n (requests_of lib start) =
        subst (λ m. Steady lib m (requests_of lib start)) (omega arith)
          (run-Steady lib 0 (new lib) before (omega arith) (new-IsValid lib) new-Steady) in
      let own : oneshot.sender_of (oneshot.channel start.slots).1 ≡ oneshot.receiver_of w.rx =
        oneshot.sender_of-channel start.slots
        ∙ sym (oneshot.receiver_of-channel start.slots)
        ∙ ap oneshot.receiver_of (sym (request-asked lib start subject payload w v sent).2) in
      let waiting =
        run-Watched lib (n + 1) (Mock.request lib start subject payload).0 between (omega arith)
          spare_between (request-Watched n start subject payload w v steady (omega arith) sent) in
      let asked = run lib (Mock.request lib start subject payload).0 between in
      let (taken, after) = respond-Watched asked answer own waiting in
      let ended =
        run-Watched lib (n + 1 + requests lib between)
          (Mock.respond lib asked w.reply_subject answer).0 later (omega arith) spare_later after in
      (
        response_waits asked w (response_of asked waiting.holds),
        taken,
        response_has (run lib (Mock.respond lib asked w.reply_subject answer).0 later) w answer (
            response_of (run lib (Mock.respond lib asked w.reply_subject answer).0 later)
              ended.holds),
      )
