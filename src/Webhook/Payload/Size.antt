-- ===== src/Webhook/Payload/Size.antt =====
-- What is sent in place of a payload that is too large.
use ziza_lend.Common.{
  ℕ, ◌≤◌, ◌<◌, ◌≡◌, ◌⊎◌, ◌∙◌, refl, sym, true, false, inl, inr, none, some, Text, text_eq,
  text_eq_iff, codes, ltb, Bool-cases, Option-cases, arith,
}
use ziza_lend.Common.Map.{Map, map_get}
use ziza_lend.Webhook.Payload.{
  Values, pass_through, pass_text, pass_topics, summarize_oversized_payload,
  summarize_oversized_payload_minimal, prepare_webhook_payload,
}
use ziza_lend.Common.MapLaws.{map_get-map_set}

module _ (values : Values) where
  open values use {Value, of_bool, is_text, array_length, stringify, byte_length}

  -- What is sent is small enough; it is the payload itself, where that is, and else a summary that says
  -- so and names the event.
  pub record IsPrepared (max : ℕ) (payload sent : Map Value) : Type 0 where
    fits : byte_length (stringify sent) ≤ max
    content :
        (sent ≡ payload)
        ⊎ ((map_get (codes "truncated") sent ≡ some (of_bool true))
            × (map_get (codes "eventId") sent ≡ map_get (codes "eventId") payload))

  -- The payload and its smaller summary are both above the limit.
  pub record IsTooLarge (max : ℕ) (payload : Map Value) : Type 0 where
    payload_above : max < byte_length (stringify payload)
    summary_above :
        max
        < byte_length (
            stringify (
              summarize_oversized_payload_minimal values payload
                (byte_length (stringify payload))
                max))

  -- A key that is not the one written is read as before.
  pass_through-get_other :
      (payload summary : Map Value) (key j : Text)
      → text_eq j key ≡ false
      → map_get j (pass_through values payload key summary) ≡ map_get j summary
  unfolding pass_through
  pass_through-get_other payload summary key j other = elim (Option-cases (map_get key payload)) [
    | inl missing ↦ ground (arith, missing)
    | inr (value, found) ↦ ground (arith, found, map_get-map_set key j value summary)
  ]

  pass_through-get_same :
      (payload summary : Map Value) (key : Text) {value : Value}
      → map_get key payload ≡ some value
      → map_get key (pass_through values payload key summary) ≡ some value
  unfolding pass_through
  pass_through-get_same payload summary key {value} found =
      ground (arith, found, map_get-map_set key key value summary, text_eq_iff key key)

  pass_text-get_other :
      (payload summary : Map Value) (key j : Text)
      → text_eq j key ≡ false
      → map_get j (pass_text values payload key summary) ≡ map_get j summary
  unfolding pass_text
  pass_text-get_other payload summary key j other = elim (Option-cases (map_get key payload)) [
    | inl missing ↦ ground (arith, missing)
    | inr (value, found) ↦ elim (Bool-cases (is_text value)) [
      | inl is ↦ ground (arith, found, is, map_get-map_set key j value summary)
      | inr not_text ↦ ground (arith, found, not_text)
    ]
  ]

  pass_text-get_same :
      (payload summary : Map Value) (key : Text) {value : Value}
      → map_get key payload ≡ some value
      → is_text value ≡ true
      → map_get key (pass_text values payload key summary) ≡ some value
  unfolding pass_text
  pass_text-get_same payload summary key {value} found text =
      ground (arith, found, text, map_get-map_set key key value summary, text_eq_iff key key)

  pass_topics-get_other :
      (payload summary : Map Value) (j : Text)
      → text_eq j (codes "topicsCount") ≡ false
      → map_get j (pass_topics values payload summary) ≡ map_get j summary
  unfolding pass_topics
  pass_topics-get_other payload summary j other =
      elim (Option-cases (map_get (codes "topics") payload)) [
        | inl missing ↦ ground (arith, missing)
        | inr (value, found) ↦ elim (Option-cases (array_length value)) [
          | inl not_text ↦ ground (arith, found, not_text)
          | inr (n, items) ↦ ground (
            arith,
            found,
            items,
            map_get-map_set (codes "topicsCount") j (Values.of_number values n) summary,
          )
        ]
      ]

  summarize_oversized_payload-event :
      (payload : Map Value) (original max : ℕ) {value : Value}
      → map_get (codes "eventId") payload ≡ some value
      → map_get (codes "eventId") (summarize_oversized_payload values payload original max)
        ≡ some value
  unfolding summarize_oversized_payload text_eq map_get
  summarize_oversized_payload-event payload original max found =
      pass_topics-get_other payload _ (codes "eventId") refl
      ∙ pass_through-get_other payload _ (codes "ledger") (codes "eventId") refl
      ∙ pass_through-get_other payload _ (codes "address") (codes "eventId") refl
      ∙ pass_through-get_other payload _ (codes "loanId") (codes "eventId") refl
      ∙ pass_through-get_other payload _ (codes "eventType") (codes "eventId") refl
      ∙ pass_through-get_same payload _ (codes "eventId") found

  summarize_oversized_payload-truncated :
      (payload : Map Value) (original max : ℕ)
      → map_get (codes "truncated") (summarize_oversized_payload values payload original max)
        ≡ some (of_bool true)
  unfolding summarize_oversized_payload text_eq map_get
  summarize_oversized_payload-truncated payload original max =
      pass_topics-get_other payload _ (codes "truncated") refl
      ∙ pass_through-get_other payload _ (codes "ledger") (codes "truncated") refl
      ∙ pass_through-get_other payload _ (codes "address") (codes "truncated") refl
      ∙ pass_through-get_other payload _ (codes "loanId") (codes "truncated") refl
      ∙ pass_through-get_other payload _ (codes "eventType") (codes "truncated") refl
      ∙ pass_through-get_other payload _ (codes "eventId") (codes "truncated") refl

  summarize_oversized_payload_minimal-event :
      (payload : Map Value) (original max : ℕ) {value : Value}
      → map_get (codes "eventId") payload ≡ some value
      → is_text value ≡ true
      → map_get (codes "eventId") (summarize_oversized_payload_minimal values payload original max)
        ≡ some value
  unfolding summarize_oversized_payload_minimal text_eq map_get
  summarize_oversized_payload_minimal-event payload original max found text =
      pass_text-get_other payload _ (codes "eventType") (codes "eventId") refl
      ∙ pass_text-get_same payload _ (codes "eventId") found text

  summarize_oversized_payload_minimal-truncated :
      (payload : Map Value) (original max : ℕ)
      → map_get
          (codes "truncated")
          (summarize_oversized_payload_minimal values payload original max)
        ≡ some (of_bool true)
  unfolding summarize_oversized_payload_minimal text_eq map_get
  summarize_oversized_payload_minimal-truncated payload original max =
      pass_text-get_other payload _ (codes "eventType") (codes "truncated") refl
      ∙ pass_text-get_other payload _ (codes "eventId") (codes "truncated") refl

  -- A payload whose `eventId` is a text is sent within the limit, as it is or as a summary that is marked
  -- as truncated and has the same `eventId`; or the source throws, which it does only where the payload
  -- and its smaller summary are both above the limit.
  pub prepare_webhook_payload-IsPrepared :
      (max : ℕ) (payload : Map Value) {event : Value}
      → map_get (codes "eventId") payload ≡ some event
      → is_text event ≡ true
      → ((sent : Map Value) × (prepare_webhook_payload values max payload ≡ some sent)
          × IsPrepared max payload sent)
        ⊎ ((prepare_webhook_payload values max payload ≡ none) × IsTooLarge max payload)
  unfolding prepare_webhook_payload
  prepare_webhook_payload-IsPrepared max payload found text =
      let size = byte_length (stringify payload) in
      let summary = summarize_oversized_payload values payload size max in
      let minimal = summarize_oversized_payload_minimal values payload size max in
      elim (Bool-cases (ltb max size)) [
        | inr small ↦ inl (
          payload,
          ground (arith, small),
          record { fits = ground (arith, small); content = inl refl },
        )
        | inl large ↦ elim (Bool-cases (ltb max (byte_length (stringify summary)))) [
          | inr small ↦ inl (
            summary,
            ground (arith, large, small),
            record {
              fits = ground (arith, small);
              content = inr (
                summarize_oversized_payload-truncated payload size max,
                summarize_oversized_payload-event payload size max found ∙ sym found,
              );
            },
          )
          | inl above ↦ elim (Bool-cases (ltb max (byte_length (stringify minimal)))) [
            | inr small ↦ inl (
              minimal,
              ground (arith, large, above, small),
              record {
                fits = ground (arith, small);
                content = inr (
                  summarize_oversized_payload_minimal-truncated payload size max,
                  summarize_oversized_payload_minimal-event payload size max found text ∙ sym found,
                );
              },
            )
            | inl too_large ↦ inr (
              ground (arith, large, above, too_large),
              record {
                payload_above = ground (arith, large);
                summary_above = ground (arith, too_large);
              },
            )
          ]
        ]
      ]
