-- ===== src/Indexer/Parse.antt =====
-- `parseEvent` of backend/src/services/eventIndexer.ts: what it reads from the topics and the value of each
-- type of event.
pub mod Liquidation
use ziza_lend.Common.{
  ℕ, zero, suc, Bool, true, false, not, ◌&&◌, ◌||◌, Option, none, some, List, [], ◌∷◌,
  if◌then◌else◌, Text,
}
use ziza_lend.Common.Int.{ℤ}
use ziza_lend.Common.Js.{int_text}
use ziza_lend.Indexer.Types.{
  EventType, type_of_symbol, loan_requested, loan_approved, loan_repaid, loan_defaulted,
  collateral_liquidated, deposit, withdraw, emergency_withdraw, nft_minted, score_updated,
  nft_seized, nft_burned, proposal_created, proposal_approved, proposal_finalized,
  proposal_cancelled, transfer, loan_refinanced, loan_extended, loan_cancelled, loan_rejected,
  late_fee_charged, collateral_returned, yield_distributed, deposit_cap_updated,
  withdrawal_cooldown_updated, min_score_updated, interest_rate_updated, default_term_updated,
  term_limits_updated, late_fee_rate_updated, grace_period_updated, default_window_updated,
  max_loan_amount_updated, min_repayment_updated, max_loans_per_borrower, min_rate_bps_updated,
  max_rate_bps_updated, rate_oracle_updated, collateral_deposited, collateral_released, score_decr,
  loan_apprv, loan_liquidated,
}
use ziza_lend.Indexer.Values.{
  Scalar, string, nothing, number, other, Native, scalar, array, Sdk, RawEvent, Facts,
  ContractEvent, Throws, returns, throws, ◌>>=◌, Skips, kept, skipped, no_facts, scalar_text, nth,
  native, decode_address, decode_amount, decode_loan_id, decode_tuple_number,
  decode_tuple_second_address, second_text, decode_event_type,
}

module _ {ScVal : Type 0} (sdk : Sdk ScVal) where
  open sdk use {to_number}

  -- The first two topics after the type.
  abbrev topic_1 : List ScVal → Option ScVal
  topic_1 topics = nth 1 topics

  abbrev topic_2 : List ScVal → Option ScVal
  topic_2 topics = nth 2 topics

  abbrev Result : Type 0
  Result = Throws (Skips Facts)

  -- `if (!event.topic[1]) return null`.
  abbrev needs : Option ScVal → (ScVal → Result) → Result
  needs none rest = returns skipped
  needs (some v) rest = rest v

  -- `if (event.topic[1]) address = decodeAddress(event.topic[1])`.
  abbrev optional_address : Option ScVal → Throws (Option Text)
  optional_address none = returns none
  optional_address (some v) = decode_address sdk v >>= λ a. returns (some a)

  abbrev give : Facts → Result
  give f = returns (kept f)

  -- `(type, loan_id, borrower), amount`, with the loan number needed.
  loan_and_borrower : List ScVal → (Option (Option ℤ) → Text → Result) → Result
  unfolding decode_loan_id decode_address
  loan_and_borrower topics rest = needs (topic_1 topics) (λ t₁. needs (topic_2 topics) (λ t₂.
      elim (decode_loan_id sdk t₁) [
        | none ↦ returns skipped
        | some n ↦ decode_address sdk t₂ >>= λ a. rest (some n) a
      ]))

  -- The rate and the term of an approval, both finite numbers.
  approval_terms : ScVal → Throws (ℤ × ℤ)
  unfolding native
  approval_terms v = native sdk v >>= λ n. elim n [
    | array (a ∷ b ∷ _) ↦ elim (to_number (scalar a)) [
      | none ↦ throws
      | some rate ↦ elim (to_number (scalar b)) [ none ↦ throws | some term ↦ returns (rate, term) ]
    ]
    | _ ↦ throws
  ]

  -- An address that may be absent, with the second number of a pair.
  setting : List ScVal → ScVal → Result
  setting topics value = optional_address (topic_1 topics) >>= λ a.
      decode_tuple_number sdk 1 value >>= λ n. give (record no_facts { address = a; amount = n })

  -- The second number of a pair.
  unsigned_setting : ScVal → Result
  unsigned_setting value =
      decode_tuple_number sdk 1 value >>= λ n. give (record no_facts { amount = n })

  -- The address of the first topic alone.
  address_only : List ScVal → Result
  address_only topics =
      needs (topic_1 topics)
        (λ t. decode_address sdk t >>= λ a. give (record no_facts { address = some a }))

  address_and_amount : List ScVal → ScVal → Result
  address_and_amount topics value = needs (topic_1 topics) (λ t. decode_address sdk t >>= λ a.
      decode_amount sdk value >>= λ n. give (record no_facts { address = some a; amount = some n }))

  address_and_first : List ScVal → ScVal → Result
  address_and_first topics value = needs (topic_1 topics) (λ t. decode_address sdk t >>= λ a.
      decode_tuple_number sdk 0 value >>= λ n.
      give (record no_facts { address = some a; amount = n }))

  address_and_second : List ScVal → ScVal → Result
  address_and_second topics value = needs (topic_1 topics) (λ t. decode_address sdk t >>= λ a.
      second_text sdk value >>= λ n. give (record no_facts { address = some a; amount = n }))

  -- `(type, borrower, loan_id), amount`.
  borrower_loan_amount : List ScVal → ScVal → Result
  borrower_loan_amount topics value = needs (topic_1 topics) (λ t₁. needs (topic_2 topics) (λ t₂.
      decode_address sdk t₁ >>= λ a. decode_amount sdk value >>= λ n.
      give
        (record no_facts { address = some a; loan_id = decode_loan_id sdk t₂; amount = some n })))

  collateral_moved : Bool → List ScVal → ScVal → Result
  collateral_moved deposited topics value = optional_address (topic_1 topics) >>= λ a.
      (if deposited then (decode_amount sdk value >>= λ n. returns (some n)) else returns none)
      >>= λ n. give (record no_facts {
        address = a;
        loan_id = elim (topic_2 topics) [ none ↦ none | some t ↦ decode_loan_id sdk t ];
        amount = n;
      })

  approved_by_admin : ScVal → Result
  unfolding native
  approved_by_admin value = native sdk value >>= λ n. elim n [
    | array (a ∷ b ∷ _) ↦ scalar_text b >>= λ s.
        give (record no_facts { loan_id = some (to_number (scalar a)); address = some s })
    | _ ↦ give no_facts
  ]

  liquidated : List ScVal → ScVal → Result
  liquidated topics value = needs (topic_1 topics) (λ t₁. needs (topic_2 topics) (λ t₂.
      decode_address sdk t₂ >>= λ a. decode_tuple_number sdk 0 value >>= λ n.
      decode_tuple_number sdk 2 value >>= λ r. give (record no_facts {
        loan_id = decode_loan_id sdk t₁;
        address = some a;
        amount = n;
        borrower_refund = r;
      })))

  -- The chain of tests on the type.
  unfoldable pub decode_facts : EventType → List ScVal → ScVal → Result
  unfolding loan_and_borrower approval_terms setting unsigned_setting address_only
      address_and_amount address_and_first address_and_second borrower_loan_amount collateral_moved
      approved_by_admin liquidated decode_amount decode_address decode_loan_id
  decode_facts loan_requested topics value = loan_and_borrower topics (λ n a.
      decode_amount sdk value >>= λ k.
      give (record no_facts { loan_id = n; address = some a; amount = some k }))
  decode_facts loan_approved topics value = loan_and_borrower topics (λ n a.
      approval_terms value >>= λ t. give (record no_facts {
        loan_id = n;
        address = some a;
        interest_rate_bps = some t.0;
        term_ledgers = some t.1;
      }))
  decode_facts loan_repaid topics value = borrower_loan_amount topics value
  decode_facts loan_defaulted topics value = needs (topic_1 topics) (λ t.
      elim (decode_loan_id sdk t) [
        | none ↦ returns skipped
        | some n ↦ decode_address sdk value >>= λ a.
            give (record no_facts { loan_id = some n; address = some a })
      ])
  decode_facts collateral_liquidated topics value = needs (topic_1 topics) (λ t.
      elim (decode_loan_id sdk t) [
        | none ↦ returns skipped
        | some n ↦ decode_amount sdk value >>= λ k.
            give (record no_facts { loan_id = some n; amount = some k })
      ])
  decode_facts deposit topics value = address_and_first topics value
  decode_facts withdraw topics value = address_and_first topics value
  decode_facts emergency_withdraw topics value = address_and_first topics value
  decode_facts nft_minted topics value = address_and_amount topics value
  decode_facts score_updated topics value = address_and_amount topics value
  decode_facts nft_seized topics value = address_only topics
  decode_facts nft_burned topics value = address_only topics
  decode_facts proposal_created topics value = address_only topics
  decode_facts proposal_approved topics value = address_only topics
  decode_facts proposal_finalized topics value = address_only topics
  decode_facts proposal_cancelled topics value = address_only topics
  decode_facts transfer topics value =
      optional_address (topic_2 topics) >>= λ a. give (record no_facts { address = a })
  decode_facts loan_refinanced topics value = needs (topic_1 topics) (λ t₁.
      needs (topic_2 topics) (λ t₂. decode_address sdk t₂ >>= λ a.
      decode_tuple_number sdk 0 value >>= λ k.
      give (record no_facts { loan_id = decode_loan_id sdk t₁; address = some a; amount = k })))
  decode_facts loan_extended topics value = needs (topic_1 topics) (λ t₁.
      needs (topic_2 topics) (λ t₂. decode_address sdk t₂ >>= λ a. second_text sdk value >>= λ k.
      give (record no_facts { loan_id = decode_loan_id sdk t₁; address = some a; amount = k })))
  decode_facts loan_cancelled topics value = needs (topic_1 topics) (λ t.
      decode_address sdk t >>= λ a.
      give (record no_facts { address = some a; loan_id = decode_loan_id sdk value }))
  decode_facts loan_rejected topics value =
      needs (topic_1 topics) (λ t. give (record no_facts { loan_id = decode_loan_id sdk t }))
  decode_facts late_fee_charged topics value = needs (topic_1 topics) (λ t.
      decode_amount sdk value >>= λ k.
      give (record no_facts { loan_id = decode_loan_id sdk t; amount = some k }))
  decode_facts collateral_returned topics value = borrower_loan_amount topics value
  decode_facts yield_distributed topics value = address_and_amount topics value
  decode_facts deposit_cap_updated topics value = address_and_second topics value
  decode_facts withdrawal_cooldown_updated topics value =
      second_text sdk value >>= λ k. give (record no_facts { amount = k })
  decode_facts min_score_updated topics value = setting topics value
  decode_facts interest_rate_updated topics value = unsigned_setting value
  decode_facts default_term_updated topics value = unsigned_setting value
  decode_facts term_limits_updated topics value = unsigned_setting value
  decode_facts late_fee_rate_updated topics value = setting topics value
  decode_facts grace_period_updated topics value = setting topics value
  decode_facts default_window_updated topics value = setting topics value
  decode_facts max_loan_amount_updated topics value = setting topics value
  decode_facts min_repayment_updated topics value = setting topics value
  decode_facts max_loans_per_borrower topics value = setting topics value
  decode_facts min_rate_bps_updated topics value = setting topics value
  decode_facts max_rate_bps_updated topics value = setting topics value
  decode_facts rate_oracle_updated topics value =
      decode_tuple_second_address sdk value >>= λ a. give (record no_facts { address = a })
  decode_facts collateral_deposited topics value = collateral_moved true topics value
  decode_facts collateral_released topics value = collateral_moved false topics value
  decode_facts score_decr topics value = address_and_second topics value
  decode_facts loan_apprv topics value = approved_by_admin value
  decode_facts loan_liquidated topics value = liquidated topics value
  decode_facts _ topics value = give no_facts

  -- The admin of a `LoanApprv` event; a decoder that throws leaves it out.
  unfoldable pub decode_admin : EventType → List ScVal → Option Text
  decode_admin loan_apprv topics = elim (topic_1 topics) [
    | none ↦ none
    | some t ↦ elim (decode_address sdk t) [ throws ↦ none | returns a ↦ some a ]
  ]
  decode_admin _ topics = none

  unfoldable pub parse_event : RawEvent ScVal → Throws (Skips ContractEvent)
  unfolding decode_event_type decode_facts decode_admin
  parse_event event = elim (decode_event_type sdk (nth 0 event.topic)) [
    | none ↦ returns skipped
    | some type ↦ decode_facts type event.topic event.value >>= λ found. elim found [
      | skipped ↦ returns skipped
      | kept facts ↦ returns (
          kept (record {
            event_id = event.id;
            event_type = type;
            ledger = event.ledger;
            ledger_closed_at = event.ledger_closed_at;
            tx_hash = event.tx_hash;
            contract_id = event.contract_id;
            facts = facts;
            admin_address = decode_admin type event.topic;
          }))
    ]
  ]
