-- ===== src/Client/Request/Attempts.antt =====
-- How often a request is sent, when, and how long it waits in between.
use ziza_lend.Common.{
  ℕ, zero, suc, ◌+◌, ◌*◌, ◌/◌, ◌^◌, ◌≤◌, ◌<◌, ◌≡◌, sym, ap, map, min, Bool, true, false, Option,
  none, some, inl, inr, if◌then◌else◌, Text, leb, length, All, Bool-cases, arith,
}
use mathlib.Core.Path.{subst}
use ziza_lend.Common.Js.{to_upper}
use ziza_lend.Common.Map.{Map}
use ziza_lend.Client.{
  Config, fetch_headers, HeadersInit, is_transient, has_retry_after, parse_retry_after_ms,
  retry_after_jitter_ms,
}
use ziza_lend.Client.Request.{
  Attempt, Sent, wait, Verdict-cases, is_past, deadline_at, attempt_timeout, run_attempt, attempts,
  replay_key, attempt_init, may_retry_of, request, wait_for, header_ms, compute_retry_delay,
  back_off, judge_response,
}

abbrev pub or_zero : Option ℕ → ℕ
or_zero none = 0
or_zero (some n) = n

-- Within the budget: the request is sent before its end, and its timeout does not reach past it.
abbrev pub IsWithin : ℕ → Sent → Type 0
IsWithin deadline s = (s.at < deadline) × (s.at + s.attempt_timeout_ms ≤ deadline)

module _ (date_parse : Text → Option ℕ) (c : Config) where
  attempts-le :
      (sent_headers : Map Text) (may_retry : Bool) (deadline : Option ℕ) (net : ℕ → Attempt)
      (left attempt now : ℕ)
      → length (attempts date_parse c sent_headers may_retry deadline net left attempt now).1 ≤ left
  unfolding attempts
  attempts-le h m d net zero attempt now = omega arith
  attempts-le h m d net (suc left) attempt now = elim (Bool-cases (is_past d now)) [
    | inl past ↦ rw past (omega arith)
    | inr early ↦ elim (Verdict-cases (run_attempt date_parse c m d attempt now (net attempt)).1) [
      | inl (o, ends) ↦ rw (early, ends) (omega arith)
      | inr (ms, waits) ↦
          rw (early, waits)
            (omega (
              arith,
              attempts-le h m d net left (suc attempt) (
                  (run_attempt date_parse c m d attempt now (net attempt)).0
                  + ms
                  + (net attempt).late),
            ))
    ]
  ]

  attempts-IsWithin :
      (sent_headers : Map Text) (may_retry : Bool) (deadline : ℕ) (net : ℕ → Attempt)
      (left attempt now : ℕ)
      → All
          (IsWithin deadline)
          (attempts date_parse c sent_headers may_retry (some deadline) net left attempt now).1
  unfolding attempts attempt_timeout is_past
  attempts-IsWithin h m d net zero attempt now = tt
  attempts-IsWithin h m d net (suc left) attempt now = elim (Bool-cases (leb d now)) [
    | inl past ↦ rw past tt
    | inr early ↦
        elim (Verdict-cases (run_attempt date_parse c m (some d) attempt now (net attempt)).1) [
          | inl (o, ends) ↦ rw (early, ends) ((ground arith, ground arith), tt)
          | inr (ms, waits) ↦
              rw (early, waits)
                (
                  (ground arith, ground arith),
                  attempts-IsWithin h m d net left (suc attempt) (
                      (run_attempt date_parse c m (some d) attempt now (net attempt)).0
                      + ms
                      + (net attempt).late),
                )
        ]
  ]

  -- A request with a budget is sent at most `maxRetries + 1` times, always before the budget is used up, and
  -- the timeout that each attempt gives to `fetch` ends within the budget. The body of a response is read
  -- after that timer.
  pub request-IsWithin :
      (method minted : Text) (init : Option HeadersInit) (net : ℕ → Attempt) (started_at ms : ℕ)
      → c.total_timeout_ms ≡ some ms
      → (length (request date_parse c method init minted net started_at).1 ≤ suc c.max_retries)
        × All
            (IsWithin (started_at + ms))
            (request date_parse c method init minted net started_at).1
  unfolding request
  request-IsWithin method minted init net started_at ms budget =
      let key = replay_key date_parse c (map to_upper method) init minted in
      (
        attempts-le _ _ _ net (suc c.max_retries) 0 started_at,
        subst
            (λ o.
              All (IsWithin (started_at + ms))
                (attempts date_parse c (fetch_headers c (attempt_init date_parse c init key))
                  (may_retry_of date_parse c (map to_upper method) key) o net (suc c.max_retries) 0
                  started_at).1)
            (ap (deadline_at started_at) (sym budget))
            (attempts-IsWithin _ _ _ net (suc c.max_retries) 0 started_at),
      )

  -- The wait that a response asks for, in milliseconds; 0 where it asks for none.
  abbrev pub asked_wait : ℕ → Option Text → ℕ → ℕ
  asked_wait status retry_after now =
      or_zero
        (if has_retry_after status then parse_retry_after_ms date_parse retry_after now else none)

  wait_for-bounds :
      (header : Option ℕ) (attempt : ℕ) (random_below : ℕ → ℕ)
      → ((n : ℕ) → random_below n ≤ n)
      → (min (or_zero header) c.max_retry_delay_ms
          ≤ wait_for date_parse c header attempt random_below)
        × (wait_for date_parse c header attempt random_below
            ≤ c.max_retry_delay_ms + retry_after_jitter_ms)
  unfolding wait_for
  wait_for-bounds none attempt random_below small =
      omega (arith, small (min (2 ^ attempt * 200) c.max_retry_delay_ms / 2))
  wait_for-bounds (some ms) attempt random_below small = omega (arith, small retry_after_jitter_ms)

  -- A retry after a response is made only for a transient status and while retries are left. Its wait is
  -- not shorter than `Retry-After` asks, up to the cap, is at most the cap and the jitter, and ends within
  -- the budget.
  pub judge_response-wait :
      (may_retry : Bool) (deadline : Option ℕ) (attempt now status : ℕ) (retry_after : Option Text)
      (random_below : ℕ → ℕ) (w : ℕ)
      → ((n : ℕ) → random_below n ≤ n)
      → judge_response date_parse c may_retry deadline attempt now status retry_after random_below
        ≡ wait w
      → (is_transient status ≡ true)
        × (may_retry ≡ true)
        × (attempt < c.max_retries)
        × (min (asked_wait status retry_after now) c.max_retry_delay_ms ≤ w)
        × (w ≤ c.max_retry_delay_ms + retry_after_jitter_ms)
        × (is_past deadline (now + w) ≡ false)
  unfolding judge_response back_off compute_retry_delay
  judge_response-wait m d attempt now status retry_after random_below w small h = ground (
    arith,
    h,
    wait_for-bounds (header_ms date_parse c (some status) retry_after now) attempt random_below
        small,
  )
