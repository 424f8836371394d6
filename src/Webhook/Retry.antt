-- ===== src/Webhook/Retry.antt =====
-- The deliveries of backend/src/services/webhookService.ts and their retries: `sendToWebhook` and
-- `retryWebhookDelivery`. Times are in milliseconds. What an attempt meets is a
-- parameter: the outcome of the request and whether the tables can be written.
pub mod Lifecycle
use ziza_lend.Common.{
  ℕ, zero, suc, ◌+◌, Bool, true, false, not, ◌&&◌, Option, none, some, is_some, List, [], ◌∷◌,
  if◌then◌else◌, Text, leb, ltb, ◌==◌, filter, take, any, text_eq, ◌++◌,
}
use ziza_lend.Common.Sort.{sort_by}
use ziza_lend.Webhook.Guard.{Reason}
use ziza_lend.Webhook.Delivery.{
  Response, Outcome, delivered, unsafe_url, network_error, too_many_redirects, bad_location,
  get_retry_delay_ms,
}

-- What `last_error` tells.
pub data Failure : Type 0 where
  returned_status : ℕ → Failure
  refused_url : Reason → Failure
  no_response write_failed : Failure

-- A row of `webhook_deliveries`.
pub record Row : Type 0 where
  pub id : ℕ
  pub subscription_id : ℕ
  pub event_id : Text
  pub event_type : Text
  pub attempt_count : ℕ
  pub last_status_code : Option ℕ
  pub last_error : Option Failure
  pub delivered_at : Option ℕ
  pub next_retry_at : Option ℕ

-- A row of `webhook_subscriptions`.
pub record Subscription : Type 0 where
  pub id : ℕ
  pub event_types : List Text
  pub is_active : Bool

abbrev pub max_retry_attempts : ℕ
max_retry_attempts = 4

-- `response.ok`.
abbrev pub is_ok : Response → Bool
is_ok response = leb 200 response.status && ltb response.status 300

-- What one attempt meets: whether `prepareWebhookPayload` finds the payload, or a summary of it, small
-- enough, and whether the write after the request succeeds, and the one in the `catch`.
pub record Attempt : Type 0 where
  pub now : ℕ
  pub payload_fits : Bool
  pub outcome : Outcome
  pub first_write : Bool
  pub second_write : Bool

-- The error of a request that got no reply, or of the write after it.
abbrev pub failure_of : Outcome → Failure
failure_of (delivered response) = write_failed
failure_of (unsafe_url reason) = refused_url reason
failure_of network_error = no_response
failure_of too_many_redirects = no_response
failure_of bad_location = no_response

-- The time of the next attempt after the given number of them.
unfoldable pub next_retry_time : ℕ → ℕ → Option ℕ
next_retry_time now attempts =
    if ltb attempts max_retry_attempts then some (now + get_retry_delay_ms attempts) else none

-- The row after a reply.
unfoldable pub record_response : ℕ → Response → Row → Row
unfolding next_retry_time
record_response now response row =
    if is_ok response
    then record row {
      attempt_count = row.attempt_count + 1;
      last_status_code = some response.status;
      delivered_at = some now;
      last_error = none;
      next_retry_at = none;
    }
    else record row {
      attempt_count = row.attempt_count + 1;
      last_status_code = some response.status;
      last_error = some (returned_status response.status);
      next_retry_at = next_retry_time now (row.attempt_count + 1);
    }

-- The row after an error. A refused destination consumes no attempt and is final.
unfoldable pub record_error : ℕ → Failure → Row → Row
unfolding next_retry_time
record_error now (refused_url reason) row = record row {
  last_error = some (refused_url reason);
  next_retry_at = none;
}
record_error now failure row = record row {
  attempt_count = row.attempt_count + 1;
  last_error = some failure;
  next_retry_at = next_retry_time now (row.attempt_count + 1);
}

-- A row, and whether the method returned.
abbrev pub write_error : Attempt → Row → Bool × Row
write_error a row =
    if a.second_write then (true, record_error a.now (failure_of a.outcome) row) else (false, row)

abbrev pub write_outcome : Attempt → Outcome → Row → Bool × Row
write_outcome a (delivered response) row =
    if a.first_write then (true, record_response a.now response row) else write_error a row
write_outcome a _ row = write_error a row

-- `retryWebhookDelivery`: false where it throws.
unfoldable pub retry_webhook_delivery : Attempt → Row → Bool × Row
unfolding record_response record_error
retry_webhook_delivery a row =
    if a.payload_fits then write_outcome a a.outcome row else (false, row)

-- The row that a first attempt inserts.
abbrev pub new_row : ℕ → Subscription → Text → Text → Row
new_row id subscription event_id event_type = record {
  id = id;
  subscription_id = subscription.id;
  event_id = event_id;
  event_type = event_type;
  attempt_count = 0;
  last_status_code = none;
  last_error = none;
  delivered_at = none;
  next_retry_at = none;
}

-- `sendToWebhook`, whose inserts hold what the updates of a retry make of a row with no attempt yet.
unfoldable pub send_to_webhook : Attempt → Row → Option Row
unfolding record_response record_error
send_to_webhook a row =
    let (returned, written) = write_outcome a a.outcome row in
    if returned then some written else none

-- The subscriptions that `dispatch` selects.
abbrev pub wants : Text → Subscription → Bool
wants event_type subscription =
    subscription.is_active && any (λ t. text_eq t event_type) subscription.event_types

abbrev pub add_written : Option Row → List Row → List Row
add_written none rows = rows
add_written (some row) rows = row ∷ rows

-- `dispatch`, with the rows from a first id on. Each attempt belongs to the subscription.
unfoldable pub send_to_all : (ℕ → Attempt) → ℕ → Text → Text → List Subscription → List Row
unfolding send_to_webhook
send_to_all attempts id event_id event_type [] = []
send_to_all attempts id event_id event_type (sub ∷ subs) =
    add_written (send_to_webhook (attempts sub.id) (new_row id sub event_id event_type))
      (send_to_all attempts (suc id) event_id event_type subs)

unfoldable pub dispatch :
    Bool → (ℕ → Attempt) → ℕ → Text → Text → List Subscription → List Row → List Row
unfolding send_to_all
dispatch payload_fits attempts id event_id event_type subs rows =
    if payload_fits
    then rows ++ send_to_all attempts id event_id event_type (filter (wants event_type) subs)
    else rows
