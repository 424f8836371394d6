-- ===== src/Remittance.antt =====
-- backend/src/services/remittanceRules.ts. An amount is a floating point number: the operations on these
-- are a parameter. A memo that is no string cannot be written here, and has no rule.
pub mod Accepted
use ziza_lend.Common.{
  ℕ, Bool, true, false, not, ◌&&◌, ◌||◌, Option, none, some, List, [], ◌∷◌, if◌then◌else◌, leb, ltb,
  ◌==◌, Text, text_eq, all, length,
}

-- `/^G[A-Z2-7]{55}$/`.
abbrev pub is_base32 : ℕ → Bool
is_base32 c = leb b'A' c && leb c b'Z' || leb b'2' c && leb c b'7'

unfoldable pub is_valid_stellar_address : Text → Bool
is_valid_stellar_address [] = false
is_valid_stellar_address (c ∷ s) = c == b'G' && length s == 55 && all is_base32 s

-- The floating point numbers, with the constants of the rules.
pub record Floats : Type 1 where
  pub Number : Type 0
  pub is_finite : Number → Bool
  pub less : Number → Number → Bool
  pub zero_amount : Number
  pub max_amount : Number
  pub stroops_per_unit : Number
  pub tolerance : Number
  pub times : Number → Number → Number
  pub minus : Number → Number → Number
  pub round : Number → Number
  pub magnitude : Number → Number

pub data RuleError : Type 0 where
  invalid_sender invalid_recipient self_transfer not_finite not_positive above_maximum too_precise
        memo_too_long :
      RuleError

pub data Verdict : Type 0 where
  accepted : Verdict
  rejected : RuleError → Verdict

abbrev pub memo_max_length : ℕ
memo_max_length = 28

module _ (floats : Floats) where
  open floats use {
    Number, is_finite, less, zero_amount, max_amount, stroops_per_unit, tolerance, times, minus,
    round, magnitude,
  }

  pub record RemittanceCandidate : Type 0 where
    pub sender_address : Text
    pub recipient_address : Text
    pub amount : Number
    pub memo : Option Text

  unfoldable pub has_supported_amount_precision : Number → Bool
  has_supported_amount_precision amount =
      if not (is_finite amount)
      then false
      else let scaled = times amount stroops_per_unit in
        less (magnitude (minus scaled (round scaled))) tolerance

  unfoldable pub check_memo : Option Text → Verdict
  check_memo none = accepted
  check_memo (some memo) =
      if ltb memo_max_length (length memo) then rejected memo_too_long else accepted

  -- The amount's comparisons are false where it is NaN, as `>` and `<` are; it is finite there.
  unfoldable pub check_amount : Number → Verdict → Verdict
  unfolding has_supported_amount_precision
  check_amount amount rest =
      if not (is_finite amount)
      then rejected not_finite
      else if not (less zero_amount amount)
      then rejected not_positive
      else if less max_amount amount
      then rejected above_maximum
      else if not (has_supported_amount_precision amount)
      then rejected too_precise
      else rest

  unfoldable pub assert_remittance_rules : RemittanceCandidate → Verdict
  unfolding is_valid_stellar_address check_amount check_memo
  assert_remittance_rules c =
      if not (is_valid_stellar_address c.sender_address)
      then rejected invalid_sender
      else if not (is_valid_stellar_address c.recipient_address)
      then rejected invalid_recipient
      else if text_eq c.sender_address c.recipient_address
      then rejected self_transfer
      else check_amount c.amount (check_memo c.memo)
