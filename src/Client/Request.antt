-- ===== src/Client/Request.antt =====
-- `request` of packages/sdk/src/client.ts: the attempts, the waits between them and the budget.
pub mod Attempts
pub mod Replay
pub mod Progress
use ziza_lend.Common.{
  ℕ, zero, suc, ◌+◌, ◌-◌, ◌*◌, ◌/◌, ◌^◌, min, Bool, true, false, not, ◌&&◌, ◌||◌, Option, none,
  some, List, [], ◌∷◌, map, ◌≡◌, ◌⊎◌, inl, inr, refl, if◌then◌else◌, Text, ltb, leb, is_some,
}
use ziza_lend.Common.Js.{to_upper}
use ziza_lend.Common.Map.{Map}
use ziza_lend.Client.{
  Config, retry_after_jitter_ms, is_transient, has_retry_after, is_idempotent,
  idempotency_key_header, HeadersInit, plain, read_header, with_header, fetch_headers,
  parse_retry_after_ms,
}

-- What an attempt meets: how long `fetch` takes; no answer, or a status with the header `Retry-After`,
-- whether its body parses as JSON and how long that takes; what `Math.random() * n` gives, without the
-- fraction; and how much later than asked the timer of the wait fires.
pub data Answer : Type 0 where
  no_answer : Answer
  response : (status : ℕ) → Option Text → (parses : Bool) → (json_took : ℕ) → Answer

pub record Attempt : Type 0 where
  pub took : ℕ
  pub answer : Answer
  pub random_below : ℕ → ℕ
  pub late : ℕ

pub data Outcome : Type 0 where
  body : ℕ → Outcome
  api_error : ℕ → Outcome
  deadline_exceeded : Outcome
  transport_error : Outcome

-- A request that was sent, with its headers, the time and the timeout of the attempt.
pub record Sent : Type 0 where
  pub at : ℕ
  pub attempt_timeout_ms : ℕ
  pub sent_headers : Map Text

abbrev pub is_ok : ℕ → Bool
is_ok status = leb 200 status && ltb status 300

-- What follows an attempt: the end, or a wait before the next one.
pub data Verdict : Type 0 where
  stop : Outcome → Verdict
  wait : ℕ → Verdict

pub Verdict-cases : (v : Verdict) → ((o : Outcome) × (v ≡ stop o)) ⊎ ((ms : ℕ) × (v ≡ wait ms))
Verdict-cases (stop o) = inl (o, refl)
Verdict-cases (wait ms) = inr (ms, refl)

abbrev pub deadline_at : ℕ → Option ℕ → Option ℕ
deadline_at started_at none = none
deadline_at started_at (some ms) = some (started_at + ms)

-- `deadlineAt !== null && now >= deadlineAt`.
unfoldable pub is_past : Option ℕ → ℕ → Bool
is_past none now = false
is_past (some deadline) now = leb deadline now

unfoldable pub attempt_timeout : Config → Option ℕ → ℕ → ℕ
attempt_timeout c none now = c.timeout_ms
attempt_timeout c (some deadline) now = min c.timeout_ms (deadline - now)

module _ (date_parse : Text → Option ℕ) (c : Config) where
  abbrev pub header_ms : Option ℕ → Option Text → ℕ → Option ℕ
  header_ms none retry_after now = none
  header_ms (some status) retry_after now =
      if has_retry_after status then parse_retry_after_ms date_parse retry_after now else none

  unfoldable pub wait_for : Option ℕ → ℕ → (ℕ → ℕ) → ℕ
  wait_for (some ms) attempt random_below =
      min ms c.max_retry_delay_ms + random_below retry_after_jitter_ms
  wait_for none attempt random_below =
      let backoff = min (2 ^ attempt * 200) c.max_retry_delay_ms in
      backoff / 2 + random_below (backoff / 2)

  unfoldable pub compute_retry_delay : ℕ → Option ℕ → Option Text → (ℕ → ℕ) → ℕ → ℕ
  unfolding wait_for
  compute_retry_delay attempt status retry_after random_below now =
      wait_for (header_ms status retry_after now) attempt random_below

  -- The wait, unless it would use up the budget.
  unfoldable pub back_off : Option ℕ → ℕ → ℕ → Verdict
  unfolding is_past
  back_off deadline now wait_ms =
      if is_past deadline (now + wait_ms) then stop deadline_exceeded else wait wait_ms

  -- After an answer that parsed.
  unfoldable pub judge_response : Bool → Option ℕ → ℕ → ℕ → ℕ → Option Text → (ℕ → ℕ) → Verdict
  unfolding compute_retry_delay back_off
  judge_response may_retry deadline attempt now status retry_after random_below =
      if is_ok status
      then stop (body status)
      else (if not (is_transient status)
          then stop (api_error status)
          else (if leb c.max_retries attempt || not may_retry
              then stop (api_error status)
              else back_off deadline now
                  (compute_retry_delay attempt (some status) retry_after random_below now)))

  -- The catch block, for an attempt without an answer and for a body that does not parse.
  unfoldable pub judge_failure : Bool → Option ℕ → ℕ → ℕ → (ℕ → ℕ) → Verdict
  unfolding compute_retry_delay back_off is_past
  judge_failure may_retry deadline attempt now random_below =
      if is_past deadline now
      then stop deadline_exceeded
      else (if leb c.max_retries attempt || not may_retry
          then stop transport_error
          else back_off deadline now (compute_retry_delay attempt none none random_below now))

  -- One attempt: the time when it is over, and what follows. `fetch` is aborted at the timeout; the timer
  -- is cleared before the body is read.
  unfoldable pub run_attempt : Bool → Option ℕ → ℕ → ℕ → Attempt → ℕ × Verdict
  unfolding attempt_timeout judge_response judge_failure
  run_attempt may_retry deadline attempt now a =
      let limit = attempt_timeout c deadline now in
      if ltb limit a.took
      then (now + limit, judge_failure may_retry deadline attempt (now + limit) a.random_below)
      else elim a.answer [
        | no_answer ↦
            (now + a.took, judge_failure may_retry deadline attempt (now + a.took) a.random_below)
        | response status retry_after parses json_took ↦
            let over = now + a.took + json_took in
            (
              over,
              if parses
                  then judge_response may_retry deadline attempt over status retry_after
                      a.random_below
                  else judge_failure may_retry deadline attempt over a.random_below,
            )
      ]

  -- The loop, with the attempts that are left: it is called with `maxRetries + 1` of them.
  unfoldable pub attempts :
      Map Text → Bool → Option ℕ → (ℕ → Attempt) → ℕ → ℕ → ℕ → Outcome × List Sent
  unfolding is_past attempt_timeout run_attempt
  attempts sent_headers may_retry deadline net zero attempt now = (transport_error, [])
  attempts sent_headers may_retry deadline net (suc left) attempt now =
      let sent : Sent = record {
        at = now;
        attempt_timeout_ms = attempt_timeout c deadline now;
        sent_headers = sent_headers;
      } in
      let (over, verdict) = run_attempt may_retry deadline attempt now (net attempt) in
      if is_past deadline now then (deadline_exceeded, []) else elim verdict [
        | stop outcome ↦ (outcome, sent ∷ [])
        | wait wait_ms ↦
            let (outcome, later) =
              attempts sent_headers may_retry deadline net left (suc attempt)
                (over + wait_ms + (net attempt).late) in
            (outcome, sent ∷ later)
      ]

  -- The key of the request: the caller's, or the minted one where the method needs it.
  unfoldable pub replay_key : Text → Option HeadersInit → Text → Option Text
  unfolding is_idempotent read_header
  replay_key method init minted = elim (read_header init idempotency_key_header) [
    | some key ↦ some key
    | none ↦ if not (is_idempotent method) && c.auto_idempotency_key then some minted else none
  ]

  unfoldable pub attempt_init : Option HeadersInit → Option Text → Option HeadersInit
  unfolding with_header
  attempt_init init none = init
  attempt_init init (some key) = some (plain (with_header init idempotency_key_header key))

  unfoldable pub may_retry_of : Text → Option Text → Bool
  unfolding is_idempotent
  may_retry_of method key = is_idempotent method || is_some key

  unfoldable pub request :
      Text → Option HeadersInit → Text → (ℕ → Attempt) → ℕ → Outcome × List Sent
  unfolding replay_key attempt_init may_retry_of attempts fetch_headers
  request method init minted net started_at =
      let upper = map to_upper method in
      let key = replay_key upper init minted in
      attempts (fetch_headers c (attempt_init init key)) (may_retry_of upper key)
        (deadline_at started_at c.total_timeout_ms) net (suc c.max_retries) 0 started_at
