-- ===== src/Webhook/Payload.antt =====
-- `prepareWebhookPayload` of backend/src/services/webhookService.ts with the two summaries. A payload is
-- an object as a list of its keys with their values; the values, what JSON makes of an object and the
-- number of bytes of a text are parameters.
pub mod Size
use ziza_lend.Common.{
  ℕ, Bool, true, false, Option, none, some, List, [], ◌∷◌, if◌then◌else◌, Text, codes, ltb,
}
use ziza_lend.Common.Map.{Map, map_get, map_set}

-- The values: those of a text, a number and a Boolean, whether a value is a text, and how many items it
-- has if it is an array. `undefined` is a key that is not there.
pub record Values : Type 1 where
  pub Value : Type 0
  pub of_text : Text → Value
  pub of_number : ℕ → Value
  pub of_bool : Bool → Value
  pub is_text : Value → Bool
  pub array_length : Value → Option ℕ
  pub stringify : Map Value → Text
  pub byte_length : Text → ℕ

module _ (values : Values) where
  open values use {
    Value, of_text, of_number, of_bool, is_text, array_length, stringify, byte_length,
  }

  abbrev pub summary_head : ℕ → ℕ → Map Value
  summary_head original_payload_bytes max_payload_bytes =
      (codes "truncated", of_bool true)
      ∷ (codes "reason", of_text (codes "payload_too_large"))
      ∷ (codes "originalPayloadBytes", of_number original_payload_bytes)
      ∷ (codes "maxPayloadBytes", of_number max_payload_bytes)
      ∷ []

  -- `if (value !== undefined) summary[key] = value`.
  unfoldable pub pass_through : Map Value → Text → Map Value → Map Value
  pass_through payload key summary = elim (map_get key payload) [
    | none ↦ summary
    | some value ↦ map_set key value summary
  ]

  -- The same for a value that is a string.
  unfoldable pub pass_text : Map Value → Text → Map Value → Map Value
  pass_text payload key summary = elim (map_get key payload) [
    | none ↦ summary
    | some value ↦ if is_text value then map_set key value summary else summary
  ]

  unfoldable pub pass_topics : Map Value → Map Value → Map Value
  pass_topics payload summary = elim (map_get (codes "topics") payload) [
    | none ↦ summary
    | some value ↦ elim (array_length value) [
      | none ↦ summary
      | some n ↦ map_set (codes "topicsCount") (of_number n) summary
    ]
  ]

  unfoldable pub summarize_oversized_payload : Map Value → ℕ → ℕ → Map Value
  unfolding pass_through pass_topics
  summarize_oversized_payload payload original max = pass_topics payload (
      pass_through payload (codes "ledger") (
        pass_through payload (codes "address") (
          pass_through payload (codes "loanId") (
            pass_through payload (codes "eventType")
              (pass_through payload (codes "eventId") (summary_head original max))))))

  unfoldable pub summarize_oversized_payload_minimal : Map Value → ℕ → ℕ → Map Value
  unfolding pass_text
  summarize_oversized_payload_minimal payload original max =
      pass_text payload (codes "eventType")
        (pass_text payload (codes "eventId") (summary_head original max))

  -- The payload that is sent, whose text is its JSON; none where the source throws.
  unfoldable pub prepare_webhook_payload : ℕ → Map Value → Option (Map Value)
  unfolding summarize_oversized_payload summarize_oversized_payload_minimal
  prepare_webhook_payload max payload =
      let size = byte_length (stringify payload) in
      let summary = summarize_oversized_payload payload size max in
      let minimal = summarize_oversized_payload_minimal payload size max in
      if ltb max size
      then (if ltb max (byte_length (stringify summary))
          then (if ltb max (byte_length (stringify minimal)) then none else some minimal)
          else some summary)
      else some payload
