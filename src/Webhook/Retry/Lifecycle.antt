-- ===== src/Webhook/Retry/Lifecycle.antt =====
-- The states of one delivery: waiting for a retry, delivered, or given up.
use ziza_lend.Common.{
  ℕ, suc, ◌+◌, ◌≤◌, ◌<◌, ◌≡◌, ◌⊎◌, ◌∙◌, ap, refl, true, false, inl, inr, Option, none, some,
  is_some, List, [], ◌∷◌, if◌then◌else◌, length, All, Bool-cases, arith,
}
use ziza_lend.Webhook.Delivery.{
  Response, Outcome, delivered, unsafe_url, network_error, too_many_redirects, bad_location,
}
use ziza_lend.Webhook.Retry.{
  Row, Failure, returned_status, refused_url, no_response, write_failed, Attempt, is_ok, failure_of,
  next_retry_time, record_response, record_error, write_error, write_outcome,
  retry_webhook_delivery,
}

-- A row that was delivered waits for no retry, and one that waits has attempts left.
abbrev pub IsSound : Row → Type 0
IsSound row =
    (row.attempt_count ≤ 4)
    × (is_some row.delivered_at ≡ true → row.next_retry_at ≡ none)
    × (is_some row.next_retry_at ≡ true → row.attempt_count < 4)

-- A row that may be attempted.
abbrev pub IsOpen : Row → Type 0
IsOpen row = (row.attempt_count < 4) × (row.delivered_at ≡ none)

-- A row gained an attempt, or waits for none any more.
abbrev Advances : Row → Row → Type 0
Advances old new = (new.next_retry_at ≡ none) ⊎ (new.attempt_count ≡ suc old.attempt_count)

record_response-IsSound :
    (now : ℕ) (response : Response) (row : Row)
    → IsOpen row
    → IsSound (record_response now response row)
unfolding record_response next_retry_time
record_response-IsSound now response row h = ground (arith, h)

record_error-IsSound :
    (now : ℕ) (failure : Failure) (row : Row) → IsOpen row → IsSound (record_error now failure row)
unfolding record_error next_retry_time
record_error-IsSound now (returned_status n) row h = ground (arith, h)
record_error-IsSound now (refused_url reason) row h = ground (arith, h)
record_error-IsSound now no_response row h = ground (arith, h)
record_error-IsSound now write_failed row h = ground (arith, h)

IsOpen-IsSound : (row : Row) → IsOpen row → IsSound row
IsOpen-IsSound row h = ground (arith, h)

write_error-IsSound : (a : Attempt) (row : Row) → IsOpen row → IsSound (write_error a row).1
write_error-IsSound a row h = elim (Bool-cases a.second_write) [
  | inl up ↦ rw up (record_error-IsSound a.now (failure_of a.outcome) row h)
  | inr down ↦ rw down (IsOpen-IsSound row h)
]

pub write_outcome-IsSound :
    (a : Attempt) (outcome : Outcome) (row : Row)
    → IsOpen row
    → IsSound (write_outcome a outcome row).1
write_outcome-IsSound a (delivered response) row h = elim (Bool-cases a.first_write) [
  | inl up ↦ rw up (record_response-IsSound a.now response row h)
  | inr down ↦ rw down (write_error-IsSound a row h)
]
write_outcome-IsSound a (unsafe_url reason) row h = write_error-IsSound a row h
write_outcome-IsSound a network_error row h = write_error-IsSound a row h
write_outcome-IsSound a too_many_redirects row h = write_error-IsSound a row h
write_outcome-IsSound a bad_location row h = write_error-IsSound a row h

pub retry_webhook_delivery-IsSound :
    (a : Attempt) (row : Row) → IsOpen row → IsSound (retry_webhook_delivery a row).1
unfolding retry_webhook_delivery
retry_webhook_delivery-IsSound a row h = elim (Bool-cases a.payload_fits) [
  | inl fits ↦ rw fits (write_outcome-IsSound a a.outcome row h)
  | inr large ↦ rw large (IsOpen-IsSound row h)
]

record_response-Advances :
    (now : ℕ) (response : Response) (row : Row) → Advances row (record_response now response row)
unfolding record_response
record_response-Advances now response row = elim (Bool-cases (is_ok response)) [
  | inl ok ↦ rw ok (inl refl)
  | inr failed ↦ rw failed (inr (omega arith))
]

record_error-Advances :
    (now : ℕ) (failure : Failure) (row : Row) → Advances row (record_error now failure row)
unfolding record_error
record_error-Advances now (returned_status n) row = inr (omega arith)
record_error-Advances now (refused_url reason) row = inl refl
record_error-Advances now no_response row = inr (omega arith)
record_error-Advances now write_failed row = inr (omega arith)

-- The write in the `catch` never fails, and the payload is small enough.
abbrev pub IsWritten : Attempt → Type 0
IsWritten a = (a.second_write ≡ true) × (a.payload_fits ≡ true)

write_outcome-Advances :
    (a : Attempt) (outcome : Outcome) (row : Row)
    → a.second_write ≡ true
    → Advances row (write_outcome a outcome row).1
write_outcome-Advances a (delivered response) row h = elim (Bool-cases a.first_write) [
  | inl up ↦ rw up (record_response-Advances a.now response row)
  | inr down ↦ rw (down, h) (record_error-Advances a.now (failure_of a.outcome) row)
]
write_outcome-Advances a (unsafe_url reason) row h =
    rw h (record_error-Advances a.now (failure_of a.outcome) row)
write_outcome-Advances a network_error row h =
    rw h (record_error-Advances a.now (failure_of a.outcome) row)
write_outcome-Advances a too_many_redirects row h =
    rw h (record_error-Advances a.now (failure_of a.outcome) row)
write_outcome-Advances a bad_location row h =
    rw h (record_error-Advances a.now (failure_of a.outcome) row)

retry_webhook_delivery-Advances :
    (a : Attempt) (row : Row) → IsWritten a → Advances row (retry_webhook_delivery a row).1
unfolding retry_webhook_delivery
retry_webhook_delivery-Advances a row h = rw h.1 (write_outcome-Advances a a.outcome row h.0)

-- The row after these attempts; one that waits for no retry is left alone. The number is how many of
-- the attempts were made.
unfoldable pub run_attempts : List Attempt → Row → ℕ × Row
run_attempts [] row = (0, row)
run_attempts (a ∷ rest) row =
    let (made, after) = run_attempts rest (retry_webhook_delivery a row).1 in
    if is_some row.next_retry_at then (suc made, after) else (0, row)

run_attempts-none :
    (tries : List Attempt) (row : Row)
    → row.next_retry_at ≡ none
    → run_attempts tries row ≡ (0, row)
unfolding run_attempts
run_attempts-none [] row h = refl
run_attempts-none (a ∷ rest) row h = rw (run_attempts, h) refl

IsSound-IsOpen : (row : Row) → IsSound row → is_some row.next_retry_at ≡ true → IsOpen row
IsSound-IsOpen row s waits = ground (arith, s, waits)

not_some-none : {A : Type 0} (o : Option A) → is_some o ≡ false → o ≡ none
not_some-none none h = refl
not_some-none (some a) h = absurd (ground arith)

-- Where the table can be written, a delivery is attempted at most four times, whatever the replies: one
-- with n attempts behind it is attempted at most 4 - n times more.
pub run_attempts-le :
    (tries : List Attempt) (row : Row)
    → All IsWritten tries
    → IsSound row
    → row.attempt_count + (run_attempts tries row).0 ≤ 4
unfolding run_attempts
run_attempts-le [] row h s = ground (arith, s)
run_attempts-le (a ∷ rest) row h s = elim (Bool-cases (is_some row.next_retry_at)) [
  | inr over ↦ rw (run_attempts, over) (ground (arith, s))
  | inl waits ↦
      let after = (retry_webhook_delivery a row).1 in
      let opened = IsSound-IsOpen row s waits in
      let later = run_attempts-le rest after h.1 (retry_webhook_delivery-IsSound a row opened) in
      rw (run_attempts, waits)
        (elim (retry_webhook_delivery-Advances a row h.0) [
          | inl over ↦ rw (run_attempts-none rest after over) (omega (arith, opened.0))
          | inr one ↦ omega (arith, one, later)
        ])
]

-- Where the table can be written, a delivery comes to an end: one with n attempts behind it waits for
-- no retry after 4 - n more of them, whatever the replies.
pub run_attempts-ends :
    (tries : List Attempt) (row : Row)
    → All IsWritten tries
    → IsSound row
    → 4 ≤ row.attempt_count + length tries
    → (run_attempts tries row).1.next_retry_at ≡ none
unfolding run_attempts
run_attempts-ends [] row h s k = elim (Bool-cases (is_some row.next_retry_at)) [
  | inr over ↦ not_some-none row.next_retry_at over
  | inl waits ↦ absurd (omega (arith, k, s.2 waits))
]
run_attempts-ends (a ∷ rest) row h s k = elim (Bool-cases (is_some row.next_retry_at)) [
  | inr over ↦ rw (run_attempts, over) (not_some-none row.next_retry_at over)
  | inl waits ↦
      let after = (retry_webhook_delivery a row).1 in
      let sound = retry_webhook_delivery-IsSound a row (IsSound-IsOpen row s waits) in
      rw (run_attempts, waits)
        (elim (retry_webhook_delivery-Advances a row h.0) [
          | inl over ↦ ap (λ r. r.1.next_retry_at) (run_attempts-none rest after over) ∙ over
          | inr one ↦ run_attempts-ends rest after h.1 sound (omega (arith, one, k))
        ])
]
