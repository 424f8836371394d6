-- ===== src/Webhook/Delivery.antt =====
-- `postWebhook` and `getRetryDelayMs` of backend/src/services/webhookService.ts. The network is a
-- parameter: what a request gets depends on the address and on how many were made before.
pub mod Vetted
use ziza_lend.Common.{
  ℕ, zero, suc, ◌+◌, ◌-◌, ◌*◌, ◌≤◌, ◌<◌, ◌≡◌, refl, Bool, true, false, not, ◌&&◌, ◌||◌, Option,
  none, some, List, [], ◌∷◌, if◌then◌else◌, Text, text_eq, codes, any, ◌==◌, min,
}
use ziza_lend.Webhook.Guard.{Url, Reason, Vetting, refused, vetted, assert_safe_webhook_url}

pub record Response : Type 0 where
  pub status : ℕ
  pub location : Option Text

pub data Outcome : Type 0 where
  delivered : Response → Outcome
  unsafe_url : Reason → Outcome
  network_error too_many_redirects bad_location : Outcome

-- What a delivery comes to, and the addresses that it sent requests to.
pub record Delivery : Type 0 where
  pub fetched : List Text
  pub outcome : Outcome

abbrev pub is_redirect_status : ℕ → Bool
is_redirect_status status =
    status == 301 || status == 302 || status == 303 || status == 307 || status == 308

-- The address that a reply sends on to: none where it is no redirect or its location is empty.
unfoldable pub redirect_target : Response → Option Text
redirect_target response =
    if is_redirect_status response.status
    then elim response.location [ none ↦ none | some [] ↦ none | some (c ∷ s) ↦ some (c ∷ s) ]
    else none

abbrev pub max_webhook_redirects : ℕ
max_webhook_redirects = 5

abbrev pub stop : Text → Outcome → Delivery
stop url outcome = record { fetched = url ∷ []; outcome = outcome }

abbrev pub before : Text → Delivery → Delivery
before url d = record { fetched = url ∷ d.fetched; outcome = d.outcome }

module _ (parse_url : Text → Option Url) (resolve_host : ℕ → Text → Option (List Text))
    (join_url : Text → Text → Option Text) (fetch : ℕ → Text → Option Response) where
  -- The loop at its n-th turn, with `left` redirects still allowed.
  unfoldable pub follow : ℕ → ℕ → Text → Delivery
  unfolding redirect_target
  follow n zero url = elim (fetch n url) [
    | none ↦ stop url network_error
    | some response ↦ elim (redirect_target response) [
      | none ↦ stop url (delivered response)
      | some location ↦ stop url too_many_redirects
    ]
  ]
  follow n (suc left) url = elim (fetch n url) [
    | none ↦ stop url network_error
    | some response ↦ elim (redirect_target response) [
      | none ↦ stop url (delivered response)
      | some location ↦ elim (join_url location url) [
        | none ↦ stop url bad_location
        | some next ↦ elim (assert_safe_webhook_url parse_url resolve_host (suc n) next) [
          | refused reason ↦ stop url (unsafe_url reason)
          | vetted checked ↦ before url (follow (suc n) left checked.href)
        ]
      ]
    ]
  ]

  unfoldable pub post_webhook : Text → Delivery
  unfolding follow
  post_webhook callback_url = elim (assert_safe_webhook_url parse_url resolve_host 0 callback_url) [
    | refused reason ↦ record { fetched = []; outcome = unsafe_url reason }
    | vetted _ ↦ follow 0 max_webhook_redirects callback_url
  ]

-- An attempt 0 has the index -1, at which the table has nothing: its last entry stands in.
unfoldable pub get_retry_delay_ms : ℕ → ℕ
get_retry_delay_ms attempt_number =
    if attempt_number == 0
    then 2700000
    else let delay_index = min (attempt_number - 1) 2 in
      if delay_index == 0 then 300000 else if delay_index == 1 then 900000 else 2700000
