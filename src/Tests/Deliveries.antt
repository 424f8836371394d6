-- ===== src/Tests/Deliveries.antt =====
-- Webhook deliveries and their retries at concrete inputs.
use ziza_lend.Common.{◌≡◌, refl, true, none, some, [], ◌∷◌, codes}
use ziza_lend.Webhook.Delivery.{network_error, get_retry_delay_ms}
use ziza_lend.Webhook.Retry.{
  Row, no_response, Attempt, retry_webhook_delivery, record_error, next_retry_time,
}
use ziza_lend.Webhook.Retry.Lifecycle.{run_attempts}

abbrev unreachable : Attempt
unreachable = record {
  now = 1000;
  payload_fits = true;
  outcome = network_error;
  first_write = true;
  second_write = true;
}

abbrev waiting : Row
waiting = record {
  id = 1;
  subscription_id = 1;
  event_id = codes "e1";
  event_type = codes "LoanRepaid";
  attempt_count = 1;
  last_status_code = none;
  last_error = none;
  delivered_at = none;
  next_retry_at = some 500;
}

-- Three retries, 15 and 45 minutes apart, and then none.
three_times :
    run_attempts (unreachable ∷ unreachable ∷ unreachable ∷ unreachable ∷ []) waiting
    ≡ (3, record waiting { attempt_count = 4; last_error = some no_response; next_retry_at = none })
unfolding run_attempts retry_webhook_delivery record_error next_retry_time get_retry_delay_ms
three_times = refl
