-- ===== src/Amount/Reads.antt =====
-- What `toStroops` and `unitsToStroops` read from a sign, digits, a dot and digits.
use mathlib.Core.List.{append-nil, append_assoc}
use ziza_lend.Common.{
  ℕ, ◌+◌, ◌-◌, ◌*◌, ◌^◌, ◌≤◌, ◌≡◌, ◌==◌, ◌∙◌, ap, refl, sym, Bool, true, false, not, ◌&&◌, inl, inr,
  some, [], ◌∷◌, ◌++◌, if◌then◌else◌, Text, text_eq, length, replicate-add, replicate, Bool-cases,
  arith,
}
use ziza_lend.Common.Js.{digits_value, IsDigits}
use ziza_lend.Amount.{
  string, sign, not_empty, pad_end, strip_leading_zeros, strip_trailing_zeros, decimal_text,
  to_stroops, to_decimal_string, units_to_stroops,
}
use ziza_lend.Amount.Digits.{
  strip_leading_zeros-value, strip_leading_zeros-IsDigits, strip_trailing_zeros-IsDigits,
  pad_end-strip_trailing_zeros,
}
use ziza_lend.Amount.Normal.{
  signed, and_true, and_false, zero-value, signed-zero, normalize_decimal_input-dot,
  normalize_decimal_input-whole, normalized_to_stroops-decimal_text,
}

strip_leading_zeros-not_empty : (c : ℕ) (s : Text) → not_empty (strip_leading_zeros (c ∷ s)) ≡ true
unfolding strip_leading_zeros
strip_leading_zeros-not_empty c [] = refl
strip_leading_zeros-not_empty c (d ∷ s) = elim (Bool-cases (c == b'0')) [
  | inl t ↦ rw t (strip_leading_zeros-not_empty d s)
  | inr f ↦ rw f refl
]

-- Zeros that were dropped at the end are padded again.
pad_end-shorter :
    (d : ℕ) (f : Text) → length f ≤ d → pad_end d (strip_trailing_zeros f) ≡ pad_end d f
pad_end-shorter d f l =
    let kept = strip_trailing_zeros f in
    let padded = pad_end-strip_trailing_zeros f in
    ap (λ n. kept ++ replicate n b'0') {x = d - length kept}
      {y = (length f - length kept) + (d - length f)} (omega (arith, padded.0, l))
    ∙ ap (◌++◌ kept) (replicate-add (length f - length kept) (d - length f) b'0')
    ∙ sym (
        append_assoc kept (replicate (length f - length kept) b'0') (replicate (d - length f) b'0'))
    ∙ ap (λ t. t ++ replicate (d - length f) b'0') padded.1

-- `toStroops` of a sign, digits, a dot and no more digits than there are decimals.
pub to_stroops-dot :
    (d : ℕ) (negative : Bool) (w f : Text)
    → not_empty w ≡ true
    → IsDigits w
    → IsDigits f
    → length f ≤ d
    → to_stroops (sign negative ++ (w ++ b'.' ∷ f)) d
      ≡ some (signed negative (digits_value 0 w * 10 ^ d + digits_value 0 (pad_end d f)))
unfolding to_stroops
to_stroops-dot d negative [] f n h k l = absurd (ground arith)
to_stroops-dot d negative (c ∷ s) f n h k l =
    let padded = pad_end-strip_trailing_zeros f in
    let kept = strip_trailing_zeros f in
    rw (to_stroops, normalize_decimal_input-dot negative c s f h k)
      (normalized_to_stroops-decimal_text d negative (strip_leading_zeros (c ∷ s)) kept
          (strip_leading_zeros-not_empty c s) (strip_leading_zeros-IsDigits (c ∷ s) h)
          (strip_trailing_zeros-IsDigits f k) (omega (arith, padded.0, l))
        ∙ rw (strip_leading_zeros-value (c ∷ s), pad_end-shorter d f l) refl)

pub to_stroops-whole :
    (d : ℕ) (negative : Bool) (w : Text)
    → not_empty w ≡ true
    → IsDigits w
    → to_stroops (sign negative ++ w) d
      ≡ some (signed negative (digits_value 0 w * 10 ^ d + digits_value 0 (pad_end d [])))
unfolding to_stroops
to_stroops-whole d negative [] n h = absurd (ground arith)
to_stroops-whole d negative (c ∷ s) n h =
    rw (to_stroops, normalize_decimal_input-whole negative c s h)
      (normalized_to_stroops-decimal_text d negative (strip_leading_zeros (c ∷ s)) []
          (strip_leading_zeros-not_empty c s) (strip_leading_zeros-IsDigits (c ∷ s) h) tt
          (omega arith)
        ∙ rw (strip_leading_zeros-value (c ∷ s)) refl)

-- A second normalization changes no stroops.
to_stroops-parts :
    (d : ℕ) (negative : Bool) (w f : Text)
    → not_empty w ≡ true
    → IsDigits w
    → IsDigits f
    → length f ≤ d
    → to_stroops (sign negative ++ (w ++ (if not_empty f then b'.' ∷ f else []))) d
      ≡ some (signed negative (digits_value 0 w * 10 ^ d + digits_value 0 (pad_end d f)))
to_stroops-parts d negative w [] n h k l =
    ap (λ t. to_stroops (sign negative ++ t) d) (append-nil w) ∙ to_stroops-whole d negative w n h
to_stroops-parts d negative w (e ∷ f) n h k l = to_stroops-dot d negative w (e ∷ f) n h k l

to_stroops-decimal_text :
    (d : ℕ) (negative : Bool) (w f : Text)
    → not_empty w ≡ true
    → IsDigits w
    → IsDigits f
    → length f ≤ d
    → to_stroops (decimal_text negative w f) d
      ≡ some (signed negative (digits_value 0 w * 10 ^ d + digits_value 0 (pad_end d f)))
unfolding decimal_text
to_stroops-decimal_text d negative w f n h k l =
    elim (Bool-cases (text_eq w (b'0' ∷ []) && not (not_empty f))) [
      | inr value ↦
          rw (decimal_text, value, and_true negative) (to_stroops-parts d negative w f n h k l)
      | inl nought ↦
          rw (decimal_text, nought, and_false negative)
            (to_stroops-parts d false w f n h k l
              ∙ ap some (
                  signed-zero negative (digits_value 0 w * 10 ^ d + digits_value 0 (pad_end d f))
                    (zero-value d w f nought)))
    ]

-- An amount of this form, read by way of its exact decimal text.
pub units_to_stroops-dot :
    (d : ℕ) (negative : Bool) (w f : Text)
    → not_empty w ≡ true
    → IsDigits w
    → IsDigits f
    → length f ≤ d
    → units_to_stroops (string (sign negative ++ (w ++ b'.' ∷ f))) d
      ≡ some (signed negative (digits_value 0 w * 10 ^ d + digits_value 0 (pad_end d f)))
unfolding units_to_stroops to_decimal_string
units_to_stroops-dot d negative [] f n h k l = absurd (ground arith)
units_to_stroops-dot d negative (c ∷ s) f n h k l =
    let padded = pad_end-strip_trailing_zeros f in
    let kept = strip_trailing_zeros f in
    rw (units_to_stroops, to_decimal_string, normalize_decimal_input-dot negative c s f h k)
      (to_stroops-decimal_text d negative (strip_leading_zeros (c ∷ s)) kept
          (strip_leading_zeros-not_empty c s) (strip_leading_zeros-IsDigits (c ∷ s) h)
          (strip_trailing_zeros-IsDigits f k) (omega (arith, padded.0, l))
        ∙ rw (strip_leading_zeros-value (c ∷ s), pad_end-shorter d f l) refl)

pub units_to_stroops-whole :
    (d : ℕ) (negative : Bool) (w : Text)
    → not_empty w ≡ true
    → IsDigits w
    → units_to_stroops (string (sign negative ++ w)) d
      ≡ some (signed negative (digits_value 0 w * 10 ^ d + digits_value 0 (pad_end d [])))
unfolding units_to_stroops to_decimal_string
units_to_stroops-whole d negative [] n h = absurd (ground arith)
units_to_stroops-whole d negative (c ∷ s) n h =
    rw (units_to_stroops, to_decimal_string, normalize_decimal_input-whole negative c s h)
      (to_stroops-decimal_text d negative (strip_leading_zeros (c ∷ s)) []
          (strip_leading_zeros-not_empty c s) (strip_leading_zeros-IsDigits (c ∷ s) h) tt
          (omega arith)
        ∙ rw (strip_leading_zeros-value (c ∷ s)) refl)
