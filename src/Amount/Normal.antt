-- ===== src/Amount/Normal.antt =====
-- `normalizeDecimalInput` and `toStroops` on a sign, digits, a dot and digits.
use mathlib.Core.List.{append-nil}
use ziza_lend.Common.{
  ℕ, ◌+◌, ◌-◌, ◌*◌, ◌^◌, ◌≤◌, ◌≡◌, ◌∙◌, ap, refl, sym, Bool, true, false, not, ◌&&◌, inl, inr, some,
  [], ◌∷◌, ◌++◌, if◌then◌else◌, Text, text_eq, text_eq_iff, replicate, ltb, ◌==◌, All, All-append,
  All-imp, length, Bool-cases, arith,
}
use ziza_lend.Common.Int.{ℤ, pos}
use ziza_lend.Common.Js.{is_digit, is_space, split, digits_value, negate, IsDigits}
use ziza_lend.Amount.{
  has_invalid_precision, count_fraction_digits, take_sign, sign, not_empty, strip_leading_zeros,
  strip_trailing_zeros, decimal_text, clean, normalize_parts, normalize_decimal_input,
  normalized_to_stroops, pad_end,
}
use ziza_lend.Amount.Digits.{
  IsDigits-IsDotless, split-dotless, split-dot, IsDigits-all, IsClean, clean-clean,
  digits_value-replicate,
}

-- The fraction with its dot, if there is one.
abbrev tail_of : Text → Text
tail_of fraction = if not_empty fraction then b'.' ∷ fraction else []

take_sign-sign :
    (negative : Bool) (c : ℕ) (s : Text)
    → is_digit c ≡ true
    → take_sign (sign negative ++ c ∷ s) ≡ (negative, c ∷ s)
take_sign-sign true c s h = refl
take_sign-sign false c s h = let other : (c == b'-') ≡ false = ground (arith, h) in rw other refl

sign-dotless :
    (negative : Bool) (w : Text) → IsDigits w → All (λ c. (c == b'.') ≡ false) (sign negative ++ w)
sign-dotless true w h = (refl, IsDigits-IsDotless w h)
sign-dotless false w h = IsDigits-IsDotless w h

-- The parts of a text of this form, and how many digits its fraction has.
parts_of : (w f : Text) → IsDigits w → IsDigits f → split b'.' (w ++ b'.' ∷ f) ≡ w ∷ f ∷ []
parts_of w f h k =
    split-dot w f (IsDigits-IsDotless w h) ∙ ap (◌∷◌ w) (split-dotless f (IsDigits-IsDotless f k))

digit-IsClean : (c : ℕ) → is_digit c ≡ true → IsClean c
unfolding is_space
digit-IsClean c d = ground (arith, d)

IsDigits-IsClean : (s : Text) → IsDigits s → All IsClean s
IsDigits-IsClean s h = All-imp s digit-IsClean h

sign-IsClean : (negative : Bool) → All IsClean (sign negative)
unfolding is_space
sign-IsClean true = (refl, tt)
sign-IsClean false = tt

dot-IsClean : IsClean b'.'
unfolding is_space
dot-IsClean = refl

-- A text with a dot.
pub normalize_decimal_input-dot :
    (negative : Bool) (c : ℕ) (s f : Text)
    → IsDigits (c ∷ s)
    → IsDigits f
    → normalize_decimal_input (sign negative ++ ((c ∷ s) ++ b'.' ∷ f))
      ≡ some (decimal_text negative (strip_leading_zeros (c ∷ s)) (strip_trailing_zeros f))
unfolding normalize_decimal_input normalize_parts
normalize_decimal_input-dot negative c s f h k =
    let clean_text : clean (sign negative ++ ((c ∷ s) ++ b'.' ∷ f))
        ≡ sign negative ++ ((c ∷ s) ++ b'.' ∷ f) =
      clean-clean (sign negative ++ ((c ∷ s) ++ b'.' ∷ f)) (
        All-append IsClean (sign negative) ((c ∷ s) ++ b'.' ∷ f) (sign-IsClean negative) (
          All-append IsClean (c ∷ s) (b'.' ∷ f) (IsDigits-IsClean (c ∷ s) h)
            (dot-IsClean, IsDigits-IsClean f k))) in
    rw
      (
        clean_text,
        take_sign-sign negative c (s ++ b'.' ∷ f) h.0,
        parts_of (c ∷ s) f h k,
        IsDigits-all (c ∷ s) h,
        IsDigits-all f k,
      )
      refl

-- A text without one.
pub normalize_decimal_input-whole :
    (negative : Bool) (c : ℕ) (s : Text)
    → IsDigits (c ∷ s)
    → normalize_decimal_input (sign negative ++ c ∷ s)
      ≡ some (decimal_text negative (strip_leading_zeros (c ∷ s)) [])
unfolding normalize_decimal_input normalize_parts strip_trailing_zeros
normalize_decimal_input-whole negative c s h =
    let clean_text : clean (sign negative ++ c ∷ s) ≡ sign negative ++ c ∷ s =
      clean-clean (sign negative ++ c ∷ s) (
        All-append IsClean (sign negative) (c ∷ s) (sign-IsClean negative)
          (IsDigits-IsClean (c ∷ s) h)) in
    rw
      (
        clean_text,
        take_sign-sign negative c s h.0,
        split-dotless (c ∷ s) (IsDigits-IsDotless (c ∷ s) h),
        IsDigits-all (c ∷ s) h,
      )
      refl

abbrev pub signed : Bool → ℕ → ℤ
signed negative n = if negative then negate n else pos n

-- How many digits the fraction has, and the parts that `toStroops` reads.
count-dot :
    (negative : Bool) (w f : Text)
    → IsDigits w
    → IsDigits f
    → count_fraction_digits (sign negative ++ (w ++ b'.' ∷ f)) ≡ length f
unfolding count_fraction_digits
count-dot true w f h k =
    rw (split-dot (b'-' ∷ w) f (sign-dotless true w h), split-dotless f (IsDigits-IsDotless f k))
      refl
count-dot false w f h k = rw (parts_of w f h k) refl

count-whole :
    (negative : Bool) (w : Text) → IsDigits w → count_fraction_digits (sign negative ++ w) ≡ 0
unfolding count_fraction_digits
count-whole negative w h = rw (split-dotless (sign negative ++ w) (sign-dotless negative w h)) refl

sign-not_empty : (negative : Bool) (c : ℕ) (s : Text) → not_empty (sign negative ++ c ∷ s) ≡ true
sign-not_empty true c s = refl
sign-not_empty false c s = refl

-- The stroops of a whole part, and of one with a fraction that has no more digits than there are
-- decimals.
normalized_to_stroops-whole :
    (d : ℕ) (negative : Bool) (c : ℕ) (s : Text)
    → IsDigits (c ∷ s)
    → normalized_to_stroops d (sign negative ++ c ∷ s)
      ≡ some (signed negative (digits_value 0 (c ∷ s) * 10 ^ d + digits_value 0 (pad_end d [])))
unfolding normalized_to_stroops has_invalid_precision
normalized_to_stroops-whole d negative c s h =
    let few : ltb d 0 ≡ false = ground arith in
    rw
      (
        sign-not_empty negative c s,
        count-whole negative (c ∷ s) h,
        few,
        take_sign-sign negative c s h.0,
        split-dotless (c ∷ s) (IsDigits-IsDotless (c ∷ s) h),
      )
      refl

normalized_to_stroops-dot :
    (d : ℕ) (negative : Bool) (c : ℕ) (s f : Text)
    → IsDigits (c ∷ s)
    → IsDigits f
    → length f ≤ d
    → normalized_to_stroops d (sign negative ++ ((c ∷ s) ++ b'.' ∷ f))
      ≡ some (signed negative (digits_value 0 (c ∷ s) * 10 ^ d + digits_value 0 (pad_end d f)))
unfolding normalized_to_stroops has_invalid_precision
normalized_to_stroops-dot d negative c s f h k l =
    let few : ltb d (length f) ≡ false = ground (arith, l) in
    rw
      (
        sign-not_empty negative c (s ++ b'.' ∷ f),
        count-dot negative (c ∷ s) f h k,
        few,
        take_sign-sign negative c (s ++ b'.' ∷ f) h.0,
        parts_of (c ∷ s) f h k,
      )
      refl

normalized_to_stroops-parts :
    (d : ℕ) (negative : Bool) (w f : Text)
    → not_empty w ≡ true
    → IsDigits w
    → IsDigits f
    → length f ≤ d
    → normalized_to_stroops d (sign negative ++ (w ++ tail_of f))
      ≡ some (signed negative (digits_value 0 w * 10 ^ d + digits_value 0 (pad_end d f)))
normalized_to_stroops-parts d negative [] f n h k l = absurd (ground arith)
normalized_to_stroops-parts d negative (c ∷ s) [] n h k l =
    ap (λ t. normalized_to_stroops d (sign negative ++ t)) (append-nil (c ∷ s))
    ∙ normalized_to_stroops-whole d negative c s h
normalized_to_stroops-parts d negative (c ∷ s) (e ∷ f) n h k l =
    normalized_to_stroops-dot d negative c s (e ∷ f) h k l

pub and_true : (b : Bool) → (b && true) ≡ b
and_true true = refl
and_true false = refl

pub and_false : (b : Bool) → (b && false) ≡ false
and_false true = refl
and_false false = refl

-- "0" without a fraction is 0, whatever its sign.
pub zero-value :
    (d : ℕ) (w f : Text)
    → (text_eq w (b'0' ∷ []) && not (not_empty f)) ≡ true
    → digits_value 0 w * 10 ^ d + digits_value 0 (pad_end d f) ≡ 0
unfolding digits_value
zero-value d w (c ∷ f) h = absurd (ground (arith, h))
zero-value d w [] h = rw ((text_eq_iff w (b'0' ∷ [])).0 (ground (arith, h))) (zeros (d - 0))
  where
    zeros : (k : ℕ) → digits_value 0 (b'0' ∷ []) * 10 ^ d + digits_value 0 (replicate k b'0') ≡ 0
    zeros k =
        let nothing : digits_value 0 (replicate k b'0') ≡ 0 =
          ap (digits_value 0) (sym (append-nil (replicate k b'0'))) ∙ digits_value-replicate k [] in
        omega (arith, nothing)

pub signed-zero : (negative : Bool) (n : ℕ) → n ≡ 0 → signed false n ≡ signed negative n
signed-zero true n h = rw h refl
signed-zero false n h = refl

-- A value that is all zeros loses its sign, which changes no stroops.
pub normalized_to_stroops-decimal_text :
    (d : ℕ) (negative : Bool) (w f : Text)
    → not_empty w ≡ true
    → IsDigits w
    → IsDigits f
    → length f ≤ d
    → normalized_to_stroops d (decimal_text negative w f)
      ≡ some (signed negative (digits_value 0 w * 10 ^ d + digits_value 0 (pad_end d f)))
unfolding decimal_text
normalized_to_stroops-decimal_text d negative w f n h k l =
    elim (Bool-cases (text_eq w (b'0' ∷ []) && not (not_empty f))) [
      | inr value ↦
          rw (decimal_text, value, and_true negative)
            (normalized_to_stroops-parts d negative w f n h k l)
      | inl nought ↦
          rw (decimal_text, nought, and_false negative)
            (normalized_to_stroops-parts d false w f n h k l
              ∙ ap some (
                  signed-zero negative (digits_value 0 w * 10 ^ d + digits_value 0 (pad_end d f))
                    (zero-value d w f nought)))
    ]
