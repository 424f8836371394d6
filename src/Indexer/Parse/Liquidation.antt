-- ===== src/Indexer/Parse/Liquidation.antt =====
-- Whose event it is.
use ziza_lend.Common.{◌≡◌, refl, none, List, arith, ◌⊎◌, inl, inr, Option-cases}
use ziza_lend.Indexer.Types.{collateral_liquidated}
use ziza_lend.Indexer.Values.{
  Sdk, RawEvent, ContractEvent, Facts, Throws, returns, throws, Skips, kept, skipped,
  decode_event_type, nth,
}
use ziza_lend.Indexer.Parse.{decode_facts, parse_event}

module _ {ScVal : Type 0} (sdk : Sdk ScVal) where
  facts_of_liquidation :
      (topics : List ScVal) (value : ScVal) (facts : Facts)
      → decode_facts sdk collateral_liquidated topics value ≡ returns (kept facts)
      → facts.address ≡ none
  unfolding decode_facts
  facts_of_liquidation topics value facts h = ground arith

  Result-cases :
      (r : Throws (Skips Facts))
      → ((facts : Facts) × (r ≡ returns (kept facts))) ⊎ ((r ≡ returns skipped) ⊎ (r ≡ throws))
  Result-cases (returns (kept facts)) = inl (facts, refl)
  Result-cases (returns skipped) = inr (inl refl)
  Result-cases throws = inr (inr refl)

  -- What is read of an event is its id and ledger, with the facts of its type.
  pub parse_event-facts :
      (event : RawEvent ScVal) (e : ContractEvent)
      → parse_event sdk event ≡ returns (kept e)
      → (decode_facts sdk e.event_type event.topic event.value ≡ returns (kept e.facts))
        × (e.event_id ≡ event.id)
        × (e.ledger ≡ event.ledger)
  unfolding parse_event
  parse_event-facts event e h = elim (Option-cases (decode_event_type sdk (nth 0 event.topic))) [
    | inl d ↦ ground (arith, d)
    | inr (type, d) ↦ elim (Result-cases (decode_facts sdk type event.topic event.value)) [
      | inl (facts, f) ↦ ground (arith, d, f)
      | inr (inl f) ↦ ground (arith, d, f)
      | inr (inr f) ↦ ground (arith, d, f)
    ]
  ]

  -- An event that is read as a liquidation of collateral names no borrower, whatever its topics and
  -- its value are.
  pub parse_event-liquidation :
      (event : RawEvent ScVal) (e : ContractEvent)
      → parse_event sdk event ≡ returns (kept e)
      → e.event_type ≡ collateral_liquidated
      → e.facts.address ≡ none
  parse_event-liquidation event e h t =
      let known = (parse_event-facts event e h).0 in
      facts_of_liquidation event.topic event.value e.facts (rw t at known)
