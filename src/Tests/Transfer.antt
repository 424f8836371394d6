-- ===== src/Tests/Transfer.antt =====
-- The remittance rules at concrete transfers, with whole units for amounts.
use ziza_lend.Common.{ℕ, ◌*◌, ◌-◌, ◌≡◌, refl, true, some, ◌∷◌, ltb, Text, codes, replicate, text_eq}
use ziza_lend.Remittance.{
  Floats, RemittanceCandidate, accepted, rejected, self_transfer, is_valid_stellar_address,
  has_supported_amount_precision, check_memo, check_amount, assert_remittance_rules,
}

abbrev whole_units : Floats
whole_units = record {
  Number = ℕ;
  is_finite = λ n. true;
  less = ltb;
  zero_amount = 0;
  max_amount = 1000000;
  stroops_per_unit = 10000000;
  tolerance = 1;
  times = λ a b. a * b;
  minus = λ a b. a - b;
  round = λ a. a;
  magnitude = λ a. a;
}

abbrev alice : Text
alice = b'G' ∷ replicate 55 b'A'

abbrev transfer : Text → RemittanceCandidate whole_units
transfer recipient = record {
  sender_address = alice;
  recipient_address = recipient;
  amount = 250;
  memo = some (codes "rent");
}

plain_transfer :
    assert_remittance_rules whole_units (transfer (b'G' ∷ replicate 55 b'B')) ≡ accepted
unfolding assert_remittance_rules is_valid_stellar_address check_amount
    has_supported_amount_precision check_memo text_eq
plain_transfer = refl

own_transfer : assert_remittance_rules whole_units (transfer alice) ≡ rejected self_transfer
unfolding assert_remittance_rules is_valid_stellar_address text_eq
own_transfer = refl
