-- ===== src/Remittance/Accepted.antt =====
-- Which remittances pass the rules.
use ziza_lend.Common.{
  ◌≤◌, ◌≡◌, ◌≢◌, ◌↔◌, refl, true, false, Option, none, some, Text, text_eq_iff, length, arith,
}
use ziza_lend.Remittance.{
  Floats, RemittanceCandidate, accepted, is_valid_stellar_address, has_supported_amount_precision,
  check_memo, check_amount, assert_remittance_rules,
}

abbrev pub HasShortMemo : Option Text → Type 0
HasShortMemo none = Unit
HasShortMemo (some memo) = length memo ≤ 28

module _ (floats : Floats) where
  open floats use {is_finite, less, zero_amount, max_amount}

  -- What the documentation of the rules asks of a remittance.
  pub record IsAcceptable (c : RemittanceCandidate floats) : Type 0 where
    pub sender : is_valid_stellar_address c.sender_address ≡ true
    pub recipient : is_valid_stellar_address c.recipient_address ≡ true
    pub distinct : c.sender_address ≢ c.recipient_address
    pub finite : is_finite c.amount ≡ true
    pub positive : less zero_amount c.amount ≡ true
    pub at_most : less max_amount c.amount ≡ false
    pub precise : has_supported_amount_precision floats c.amount ≡ true
    pub short_memo : HasShortMemo c.memo

  check_memo_iff : (memo : Option Text) → (check_memo floats memo ≡ accepted) ↔ HasShortMemo memo
  unfolding check_memo
  check_memo_iff none = (λ _. tt, λ _. refl)
  check_memo_iff (some memo) = (λ h. ground arith, λ h. ground arith)

  -- A remittance is accepted exactly when it satisfies each of the rules.
  pub assert_remittance_rules_iff :
      (c : RemittanceCandidate floats)
      → (assert_remittance_rules floats c ≡ accepted) ↔ IsAcceptable c
  unfolding assert_remittance_rules check_amount
  assert_remittance_rules_iff c = (
    λ h. record {
      sender = ground (arith, h);
      recipient = ground (arith, h);
      distinct = λ e. ground (arith, h, (text_eq_iff c.sender_address c.recipient_address).1 e);
      finite = ground (arith, h);
      positive = ground (arith, h);
      at_most = ground (arith, h);
      precise = ground (arith, h);
      short_memo = (check_memo_iff c.memo).0 (ground (arith, h));
    },
    λ ok. ground (
      arith,
      ok.sender,
      ok.recipient,
      ok.finite,
      ok.positive,
      ok.at_most,
      ok.precise,
      (check_memo_iff c.memo).1 ok.short_memo,
      text_eq_iff c.sender_address c.recipient_address,
      ok.distinct,
    ),
  )
