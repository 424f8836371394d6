-- ===== src/Client/Request/Progress.antt =====
-- A request whose attempts fail for a while, and then succeed.
use ziza_lend.Common.{
  ◌≢◌, ℕ, zero, suc, ◌+◌, ◌≤◌, ◌<◌, ◌≡◌, refl, sym, ap, map, Bool, true, not, ◌||◌, Option, none,
  inl, inr, Text, ltb, length, arith,
}
use mathlib.Core.Path.{subst}
use ziza_lend.Common.Js.{to_upper}
use ziza_lend.Common.Map.{Map}
use ziza_lend.Client.{Config, HeadersInit, is_transient, fetch_headers}
use ziza_lend.Client.Request.{
  Answer, no_answer, response, Attempt, Outcome, body, stop, Verdict-cases, is_ok, is_past,
  deadline_at, attempt_timeout, run_attempt, attempts, replay_key, attempt_init, may_retry_of,
  request, judge_response, judge_failure, back_off,
}

-- An attempt that is worth another: it is aborted, lost, answered with a body that does not parse, or with
-- a transient status.
abbrev pub answer_fails : Answer → Bool
answer_fails no_answer = true
answer_fails (response status raw parses took) = not parses || is_transient status

unfoldable pub fails : Config → Attempt → Bool
fails c a = ltb c.timeout_ms a.took || answer_fails a.answer

-- An attempt with a status and a body.
abbrev AnswersWith : ℕ → Answer → Type 0
AnswersWith n no_answer = ⊥
AnswersWith n (response status raw parses took) =
    (status ≡ n) × (parses ≡ true) × (is_ok status ≡ true)

abbrev pub Succeeds : Config → ℕ → Attempt → Type 0
Succeeds c status a = (a.took ≤ c.timeout_ms) × AnswersWith status a.answer

module _ (date_parse : Text → Option ℕ) (c : Config) where
  goes_on :
      (may_retry : Bool) (attempt now : ℕ) (a : Attempt) (o : Outcome)
      → may_retry ≡ true
      → attempt < c.max_retries
      → fails c a ≡ true
      → (run_attempt date_parse c may_retry none attempt now a).1 ≢ stop o
  unfolding run_attempt judge_response judge_failure back_off is_past attempt_timeout fails
  goes_on m attempt now a o may left failing h = by_answer a.answer refl
    where
      by_answer : (r : Answer) → a.answer ≡ r → ⊥
      by_answer no_answer e = ground (arith, e, may, left, failing, h)
      by_answer (response status raw parses took) e = ground (arith, e, may, left, failing, h)

  succeeds :
      (may_retry : Bool) (attempt now status : ℕ) (a : Attempt)
      → Succeeds c status a
      → (run_attempt date_parse c may_retry none attempt now a).1 ≡ stop (body status)
  unfolding run_attempt judge_response attempt_timeout
  succeeds m attempt now status a h = by_answer a.answer refl
    where
      by_answer :
          (r : Answer)
          → a.answer ≡ r
          → (run_attempt date_parse c m none attempt now a).1 ≡ stop (body status)
      by_answer no_answer e = ground (arith, e, h)
      by_answer (response n raw parses took) e = ground (arith, e, h)

  attempts-succeed :
      (sent_headers : Map Text) (may_retry : Bool) (net : ℕ → Attempt)
      (status left k attempt now : ℕ)
      → may_retry ≡ true
      → attempt + left ≡ suc c.max_retries
      → k < left
      → ((i : ℕ) → i < k → fails c (net (attempt + i)) ≡ true)
      → Succeeds c status (net (attempt + k))
      → ((attempts date_parse c sent_headers may_retry none net left attempt now).0 ≡ body status)
        × (length (attempts date_parse c sent_headers may_retry none net left attempt now).1
            ≡ suc k)
  unfolding attempts is_past
  attempts-succeed h m net status zero k attempt now may total few failing good =
      absurd (omega arith)
  attempts-succeed h m net status (suc left) zero attempt now may total few failing good =
      rw
        (succeeds m attempt now status (net attempt) (
          subst (λ n. Succeeds c status (net n)) {x = attempt + 0} {y = attempt} (omega arith)
            good))
        (refl, refl)
  attempts-succeed h m net status (suc left) (suc k) attempt now may total few failing good =
      elim (Verdict-cases (run_attempt date_parse c m none attempt now (net attempt)).1) [
        | inl (o, ends) ↦ absurd (
            goes_on m attempt now (net attempt) o may (omega arith)
              (subst (λ n. fails c (net n) ≡ true) {x = attempt + 0} {y = attempt} (omega arith)
                (failing 0 (omega arith)))
              ends)
        | inr (ms, waits) ↦
            let (done, counted) =
              attempts-succeed h m net status left k (suc attempt)
                ((run_attempt date_parse c m none attempt now (net attempt)).0
                  + ms
                  + (net attempt).late)
                may (omega arith) (omega arith)
                (λ i below.
                  subst (λ n. fails c (net n) ≡ true) {x = attempt + suc i} {y = suc attempt + i}
                    (omega arith) (failing (suc i) (omega arith)))
                (subst (λ n. Succeeds c status (net n)) {x = attempt + suc k} {y = suc attempt + k}
                  (omega arith) good) in
            rw waits (done, omega (arith, counted))
      ]

  -- A request with no budget that may be repeated, whose first `k` attempts fail in a way that is worth
  -- another and whose next one succeeds, returns that answer after `k + 1` attempts, if `k` is at most
  -- `maxRetries`.
  pub request-Succeeds :
      (method minted : Text) (init : Option HeadersInit) (net : ℕ → Attempt)
      (started_at status k : ℕ)
      → c.total_timeout_ms ≡ none
      → may_retry_of date_parse c
          (map to_upper method)
          (replay_key date_parse c (map to_upper method) init minted)
        ≡ true
      → k ≤ c.max_retries
      → ((i : ℕ) → i < k → fails c (net i) ≡ true)
      → Succeeds c status (net k)
      → ((request date_parse c method init minted net started_at).0 ≡ body status)
        × (length (request date_parse c method init minted net started_at).1 ≡ suc k)
  unfolding request
  request-Succeeds method minted init net started_at status k unlimited may few failing good =
      let key = replay_key date_parse c (map to_upper method) init minted in
      let may_retry = may_retry_of date_parse c (map to_upper method) key in
      subst
        (λ o.
          ((attempts date_parse c (fetch_headers c (attempt_init date_parse c init key)) may_retry o
              net (suc c.max_retries) 0 started_at).0
            ≡ body status)
          × (length
                (attempts date_parse c (fetch_headers c (attempt_init date_parse c init key))
                  may_retry o net (suc c.max_retries) 0 started_at).1
              ≡ suc k))
        (ap (deadline_at started_at) (sym unlimited))
        (attempts-succeed _ may_retry net status (suc c.max_retries) k 0 started_at may
          (omega arith) (omega arith)
          (λ i below.
            subst (λ n. fails c (net n) ≡ true) {x = i} {y = 0 + i} (omega arith) (failing i below))
          (subst (λ n. Succeeds c status (net n)) {x = k} {y = 0 + k} (omega arith) good))
