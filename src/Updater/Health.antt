-- ===== src/Updater/Health.antt =====
-- services/updater/src/health.rs: `HttpHealthClient::wait_for_quorum`. What the endpoints answer in
-- each round and what the clock shows after it are the environment's: functions of the round.
pub mod Polling
use lokan_os.Prelude.{
  ℕ, zero, suc, ◌+◌, ◌-◌, ◌≤◌, ◌<◌, ◌≡◌, refl, String, Bool, true, false, ◌&&◌, ◌||◌, Option, none,
  some, List, [], ◌∷◌, arith, map, min, ltb, leb, ◌==◌, length, str_eq, if◌then◌else◌, ap,
  Bool-cases, inl, inr,
}
use lokan_os.Prelude.Result.{Result, ok, err, ◌>>=◌}
use lokan_os.Prelude.Text.{eq_ignore_ascii_case}

-- One answer: an error of the transport or an error status, or a response with its status class and
-- the `status` of its body, if that is JSON.
pub data Answer : Type 0 where
  http_error : String → Answer
  response : (is_success : Bool) (status : Option String) → Answer

abbrev says_ok : Option String → Bool
says_ok none = false
says_ok (some status) = eq_ignore_ascii_case status "ok"

-- The `for` loop over the endpoints; an error leaves the whole call.
unfoldable pub count_healthy : List Answer → ℕ → Result String ℕ
count_healthy [] healthy = ok healthy
count_healthy (http_error e ∷ rest) healthy = err e
count_healthy (response is_success status ∷ rest) healthy =
    count_healthy rest (if is_success && says_ok status then healthy + 1 else healthy)

module _ (answers : ℕ → List Answer) (now : ℕ → ℕ) where
  -- The `loop`, from round `k` on; `none` means that the fuel ran out.
  pub poll : ℕ → ℕ → ℕ → ℕ → Option (Result String Bool)
  poll zero k quorum deadline_at = none
  poll (suc fuel) k quorum deadline_at = elim (count_healthy (answers k) 0) [
    | err e ↦ some (err e)
    | ok healthy ↦
        let rest = poll fuel (suc k) quorum deadline_at in
        if leb quorum healthy
        then some (ok true)
        else if leb deadline_at (now k)
        then some (ok false)
        else rest
  ]

  -- wait_for_quorum, begun at the time `start`.
  unfoldable pub wait_for_quorum : ℕ → ℕ → List String → ℕ → ℕ → Option (Result String Bool)
  unfolding poll
  wait_for_quorum fuel start endpoints deadline quorum =
      let rest = poll fuel 0 (min quorum (length endpoints)) (start + deadline) in
      if quorum == 0 || length endpoints == 0 then some (ok true) else rest

-- StubHealthClient
pub record StubHealthClient : Type 0 where
  pub result : Bool

pub stub_wait_for_quorum : StubHealthClient → List String → ℕ → ℕ → Result String Bool
stub_wait_for_quorum stub endpoints deadline quorum = ok stub.result
