-- ===== src/Tests/Payloads.antt =====
-- A payload above the limit and its summary at concrete values.
use ziza_lend.Common.{◌≡◌, ◌⊎◌, refl, true, none, some, [], ◌∷◌, Text, codes, text_eq, length}
use ziza_lend.Common.Map.{Map, map_get, map_set}
use ziza_lend.Webhook.Payload.{
  Values, pass_text, pass_through, pass_topics, summarize_oversized_payload,
  summarize_oversized_payload_minimal, prepare_webhook_payload,
}
use ziza_lend.Webhook.Payload.Size.{IsPrepared, IsTooLarge, prepare_webhook_payload-IsPrepared}

-- Every value is a text, and an object is written as its values.
abbrev joined : Text → Text → Text
joined [] t = t
joined (c ∷ s) t = c ∷ joined s t

abbrev written : Map Text → Text
written [] = []
written ((k, v) ∷ m) = joined v (written m)

abbrev texts : Values
texts = record {
  Value = Text;
  of_text = λ t. t;
  of_number = λ n. codes "0";
  of_bool = λ b. codes "?";
  is_text = λ t. true;
  array_length = λ t. none;
  stringify = written;
  byte_length = length;
}

abbrev repaid : Map Text
repaid =
    (codes "eventId", codes "e1")
    ∷ (codes "data", codes "a text that is longer than the summary of it")
    ∷ []

prepare_webhook_payload-IsPrepared_example :
    ((sent : Map Text) × (prepare_webhook_payload texts 30 repaid ≡ some sent)
      × IsPrepared texts 30 repaid sent)
    ⊎ ((prepare_webhook_payload texts 30 repaid ≡ none) × IsTooLarge texts 30 repaid)
unfolding map_get
prepare_webhook_payload-IsPrepared_example =
    prepare_webhook_payload-IsPrepared texts 30 repaid refl refl

-- Within the limit of 30 the summary is sent, and within 10 nothing is.
large-is_summarized :
    prepare_webhook_payload texts 30 repaid
    ≡ some (
        (codes "truncated", codes "?")
        ∷ (codes "reason", codes "payload_too_large")
        ∷ (codes "originalPayloadBytes", codes "0")
        ∷ (codes "maxPayloadBytes", codes "0")
        ∷ (codes "eventId", codes "e1")
        ∷ [])
unfolding prepare_webhook_payload summarize_oversized_payload summarize_oversized_payload_minimal
    pass_through pass_text pass_topics text_eq map_get map_set
large-is_summarized = refl

small_limit-throws : prepare_webhook_payload texts 10 repaid ≡ none
unfolding prepare_webhook_payload summarize_oversized_payload summarize_oversized_payload_minimal
    pass_through pass_text pass_topics text_eq map_get map_set
small_limit-throws = refl
