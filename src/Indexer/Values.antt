-- ===== src/Indexer/Values.antt =====
-- The values of the Soroban SDK and their decoders in backend/src/services/eventIndexer.ts. The SDK is a
-- parameter: the symbol and the native value of one, none where the SDK throws, and `Number` of a native
-- value, none where that is NaN.
use ziza_lend.Common.{ℕ, zero, suc, Option, none, some, List, [], ◌∷◌, Text}
use ziza_lend.Common.Int.{ℤ}
use ziza_lend.Common.Js.{int_text}
use ziza_lend.Indexer.Types.{EventType, type_of_symbol}

-- A native value inside an array: a string, a number or a bigint, null or undefined, or anything else
-- with its `toString()`.
pub data Scalar : Type 0 where
  string : Text → Scalar
  nothing : Scalar
  number : ℤ → Scalar
  other : Text → Scalar

pub data Native : Type 0 where
  scalar : Scalar → Native
  array : List Scalar → Native

pub record Sdk (ScVal : Type 0) : Type 0 where
  pub symbol : ScVal → Option Text
  pub to_native : ScVal → Option Native
  pub to_number : Native → Option ℤ

pub record RawEvent (ScVal : Type 0) : Type 0 where
  pub id : Text
  pub topic : List ScVal
  pub value : ScVal
  pub ledger : ℕ
  pub ledger_closed_at : Text
  pub tx_hash : Text
  pub contract_id : Text

-- What an event's type decides. A loan number may be NaN, which is none.
pub record Facts : Type 0 where
  pub loan_id : Option (Option ℤ)
  pub address : Option Text
  pub amount : Option Text
  pub interest_rate_bps : Option ℤ
  pub term_ledgers : Option ℤ
  pub borrower_refund : Option Text

pub record ContractEvent : Type 0 where
  pub event_id : Text
  pub event_type : EventType
  pub ledger : ℕ
  pub ledger_closed_at : Text
  pub tx_hash : Text
  pub contract_id : Text
  pub facts : Facts
  pub admin_address : Option Text

-- A decoder throws, or returns a value.
pub data Throws (A : Type 0) : Type 0 where
  returns : A → Throws A
  throws : Throws A

infixl 5 ◌>>=◌
abbrev pub ◌>>=◌ : {A B : Type 0} → Throws A → (A → Throws B) → Throws B
returns a >>= f = f a
throws >>= f = throws

-- What may be null: a decoder that is skipped.
pub data Skips (A : Type 0) : Type 0 where
  kept : A → Skips A
  skipped : Skips A

abbrev pub no_facts : Facts
no_facts = record {
  loan_id = none;
  address = none;
  amount = none;
  interest_rate_bps = none;
  term_ledgers = none;
  borrower_refund = none;
}

-- `x.toString()`.
abbrev pub scalar_text : Scalar → Throws Text
scalar_text (string s) = returns s
scalar_text (number n) = returns (int_text n)
scalar_text (other s) = returns s
scalar_text nothing = throws

abbrev pub nth : {A : Type 0} → ℕ → List A → Option A
nth n [] = none
nth zero (x ∷ xs) = some x
nth (suc n) (x ∷ xs) = nth n xs

module _ {ScVal : Type 0} (sdk : Sdk ScVal) where
  open sdk use {symbol, to_native, to_number}

  unfoldable pub native : ScVal → Throws Native
  native v = elim (to_native v) [ none ↦ throws | some n ↦ returns n ]

  unfoldable pub decode_address : ScVal → Throws Text
  unfolding native
  decode_address v = native v >>= λ n. elim n [ scalar (string s) ↦ returns s | _ ↦ throws ]

  unfoldable pub decode_amount : ScVal → Throws Text
  unfolding native
  decode_amount v =
      native v >>= λ n. elim n [ scalar (number k) ↦ returns (int_text k) | _ ↦ throws ]

  unfoldable pub decode_loan_id : ScVal → Option (Option ℤ)
  decode_loan_id v = elim (to_native v) [ none ↦ none | some n ↦ some (to_number n) ]

  -- `decodeTupleFirstNumericValue` and its kin: the element of an array, where it is a number.
  unfoldable pub decode_tuple_number : ℕ → ScVal → Throws (Option Text)
  unfolding native
  decode_tuple_number i v = native v >>= λ n. elim n [
    | scalar _ ↦ returns none
    | array xs ↦ elim (nth i xs) [
      | some (number k) ↦ returns (some (int_text k))
      | _ ↦ returns none
    ]
  ]

  unfoldable pub decode_tuple_second_address : ScVal → Throws (Option Text)
  unfolding native
  decode_tuple_second_address v = native v >>= λ n. elim n [
    | scalar _ ↦ returns none
    | array xs ↦ elim (nth 1 xs) [ some (string s) ↦ returns (some s) | _ ↦ returns none ]
  ]

  -- `data[1].toString()` of an array of at least two.
  unfoldable pub second_text : ScVal → Throws (Option Text)
  unfolding native
  second_text v = native v >>= λ n. elim n [
    | scalar _ ↦ returns none
    | array xs ↦ elim (nth 1 xs) [
      | none ↦ returns none
      | some x ↦ scalar_text x >>= λ s. returns (some s)
    ]
  ]

  unfoldable pub decode_event_type : Option ScVal → Option EventType
  decode_event_type none = none
  decode_event_type (some v) = elim (symbol v) [ none ↦ none | some raw ↦ type_of_symbol raw ]
