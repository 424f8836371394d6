-- ===== src/Tests/Amounts.antt =====
-- Amounts at concrete inputs.
use ziza_lend.Common.{◌≡◌, refl, none, some, [], ◌∷◌, codes, text_eq}
use ziza_lend.Common.Int.{pos, negsuc}
use ziza_lend.Amount.{
  sanitize_amount_input, normalize_decimal_input, stroops_to_decimal_string, to_stroops,
  sum_amounts,
}
use ziza_lend.Amount.Stroops.{shown, sum_ℤ, to_stroops-stroops_to_decimal_string, sum_amounts-shown}

to_stroops-stroops_to_decimal_string_example :
    to_stroops (stroops_to_decimal_string (negsuc 12345678901234567890) 7) 7
    ≡ some (negsuc 12345678901234567890)
to_stroops-stroops_to_decimal_string_example =
    to_stroops-stroops_to_decimal_string (negsuc 12345678901234567890) 7

sum_amounts-shown_example :
    sum_amounts (shown 2 (pos 1050 ∷ negsuc 9 ∷ [])) 2 ≡ sum_ℤ (pos 0) (pos 1050 ∷ negsuc 9 ∷ [])
sum_amounts-shown_example = sum_amounts-shown 2 (pos 1050 ∷ negsuc 9 ∷ [])

normalized : normalize_decimal_input (codes " -0,012.500 ") ≡ some (codes "-12.5")
unfolding normalize_decimal_input text_eq
normalized = refl

not_a_number : normalize_decimal_input (codes "1.2.3") ≡ none
unfolding normalize_decimal_input
not_a_number = refl

printed : stroops_to_decimal_string (negsuc 4) 7 ≡ codes "-0.0000005"
unfolding stroops_to_decimal_string
printed = refl

sanitized : sanitize_amount_input (codes "1a.2.3") ≡ codes "1.23"
unfolding sanitize_amount_input
sanitized = refl
