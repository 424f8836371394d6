-- ===== src/Amount/Stroops.antt =====
-- Round trips between stroops and decimal texts, and exact sums and orders of amounts.
use mathlib.Core.List.{append-nil}
use native.Mathlib.Nat.{mod-lt, div-add-mod', one-le-pow}
use ziza_lend.Common.{
  ℕ, zero, suc, ◌+◌, ◌-◌, ◌*◌, ◌/◌, ◌%◌, ◌^◌, ◌≤◌, ◌<◌, ◌≡◌, ◌≢◌, ◌∙◌, ap, refl, Bool, true, Option,
  some, List, [], ◌∷◌, ◌++◌, map, Text, length, length-append, length-replicate, replicate, arith,
}
use ziza_lend.Common.Int.{ℤ, pos, negsuc, ◌+ℤ◌}
use ziza_lend.Common.Js.{
  digits_value, nat_text, IsDigits, All-append-IsDigits, nat_text-IsDigits, nat_text-ne-nil,
  digits_value-nat_text,
}
use ziza_lend.Amount.{
  Amount, string, sign, absolute, is_negative, not_empty, pad_start, pad_end, to_stroops,
  unsigned_decimal_string, stroops_to_decimal_string, units_to_stroops, sum_from, sum_amounts,
}
use ziza_lend.Amount.Digits.{digits_value-replicate, length-nat_text}
use ziza_lend.Amount.Normal.{signed}
use ziza_lend.Amount.Reads.{
  to_stroops-dot, to_stroops-whole, units_to_stroops-dot, units_to_stroops-whole,
}

not_empty-ne-nil : (s : Text) → s ≢ [] → not_empty s ≡ true
not_empty-ne-nil [] h = absurd (h refl)
not_empty-ne-nil (c ∷ s) h = refl

pad_start-IsDigits : (n : ℕ) (s : Text) → IsDigits s → IsDigits (pad_start n s)
pad_start-IsDigits n s h =
    All-append-IsDigits (replicate (n - length s) b'0') s (zeros (n - length s)) h
  where
    zeros : (n : ℕ) → IsDigits (replicate n b'0')
    zeros zero = tt
    zeros (suc n) = (refl, zeros n)

length-pad_start : (n : ℕ) (s : Text) → length s ≤ n → length (pad_start n s) ≡ n
length-pad_start n s h =
    length-append (replicate (n - length s) b'0') s
    ∙ omega (arith, h, length-replicate {A = ℕ} (n - length s) b'0')

pad_end_full : (d : ℕ) (s : Text) → length s ≡ d → pad_end d s ≡ s
pad_end_full d s h =
    ap (λ n. s ++ replicate n b'0') {x = d - length s} {y = 0} (omega (arith, h)) ∙ append-nil s

-- Reading a text of the form that `stroopsToDecimalString` prints.
abbrev ReadsDot : (Text → ℕ → Option ℤ) → Type 0
ReadsDot read =
    (d : ℕ) (negative : Bool) (w f : Text)
    → not_empty w ≡ true
    → IsDigits w
    → IsDigits f
    → length f ≤ d
    → read (sign negative ++ (w ++ b'.' ∷ f)) d
      ≡ some (signed negative (digits_value 0 w * 10 ^ d + digits_value 0 (pad_end d f)))

abbrev ReadsWhole : (Text → ℕ → Option ℤ) → Type 0
ReadsWhole read =
    (d : ℕ) (negative : Bool) (w : Text)
    → not_empty w ≡ true
    → IsDigits w
    → read (sign negative ++ w) d
      ≡ some (signed negative (digits_value 0 w * 10 ^ d + digits_value 0 (pad_end d [])))

signed-absolute : (z : ℤ) → signed (is_negative z) (absolute z) ≡ z
signed-absolute (pos n) = refl
signed-absolute (negsuc n) = refl

module _ (read : Text → ℕ → Option ℤ) (dot : ReadsDot read) (whole_part : ReadsWhole read) where
  read-unsigned :
      (d n : ℕ) (negative : Bool)
      → read (sign negative ++ unsigned_decimal_string n d) d ≡ some (signed negative n)
  unfolding unsigned_decimal_string digits_value
  read-unsigned zero n negative =
      whole_part 0 negative (nat_text n) (not_empty-ne-nil (nat_text n) (nat_text-ne-nil n))
        (nat_text-IsDigits n)
      ∙ ap (λ m. some (signed negative m)) (omega (arith, digits_value-nat_text n))
  read-unsigned (suc d) n negative =
      let whole = n / 10 ^ suc d in
      let rest = n % 10 ^ suc d in
      let small : rest < 10 ^ suc d = mod-lt n (one-le-pow (suc d) 10 (omega arith)) in
      let padded = pad_start (suc d) (nat_text rest) in
      let full : length padded ≡ suc d =
        length-pad_start (suc d) (nat_text rest) (length-nat_text rest d small) in
      dot (suc d) negative (nat_text whole) padded
        (not_empty-ne-nil (nat_text whole) (nat_text-ne-nil whole)) (nat_text-IsDigits whole)
        (pad_start-IsDigits (suc d) (nat_text rest) (nat_text-IsDigits rest)) (omega (arith, full))
      ∙ ap (λ m. some (signed negative m))
          (value whole rest (suc d) full ∙ div-add-mod' n (10 ^ suc d))
    where
      value :
          (w r d : ℕ)
          → length (pad_start d (nat_text r)) ≡ d
          → digits_value 0 (nat_text w) * 10 ^ d
              + digits_value 0 (pad_end d (pad_start d (nat_text r)))
            ≡ w * 10 ^ d + r
      value w r d full =
          rw
            (
              digits_value-nat_text w,
              pad_end_full d (pad_start d (nat_text r)) full,
              digits_value-replicate (d - length (nat_text r)) (nat_text r),
              digits_value-nat_text r,
            )
            refl

  read-shown :
      (stroops : ℤ) (decimals : ℕ)
      → read (stroops_to_decimal_string stroops decimals) decimals ≡ some stroops
  unfolding stroops_to_decimal_string
  read-shown stroops decimals =
      read-unsigned decimals (absolute stroops) (is_negative stroops)
      ∙ ap some (signed-absolute stroops)

-- Reading back a printed number of stroops gives that number, for every number of decimals and every
-- integer, the negative ones and those beyond 2^53 included.
pub to_stroops-stroops_to_decimal_string :
    (stroops : ℤ) (decimals : ℕ)
    → to_stroops (stroops_to_decimal_string stroops decimals) decimals ≡ some stroops
to_stroops-stroops_to_decimal_string = read-shown to_stroops to_stroops-dot to_stroops-whole

units_to_stroops-shown :
    (stroops : ℤ) (decimals : ℕ)
    → units_to_stroops (string (stroops_to_decimal_string stroops decimals)) decimals ≡ some stroops
units_to_stroops-shown =
    read-shown (λ t d. units_to_stroops (string t) d) units_to_stroops-dot units_to_stroops-whole

-- A table of amounts, as it is shown, and the sum of the integers behind it.
abbrev pub shown : ℕ → List ℤ → List Amount
shown decimals rows = map (λ stroops. string (stroops_to_decimal_string stroops decimals)) rows

abbrev pub sum_ℤ : ℤ → List ℤ → ℤ
sum_ℤ total [] = total
sum_ℤ total (stroops ∷ rows) = sum_ℤ (total +ℤ stroops) rows

sum_from-shown :
    (decimals : ℕ) (rows : List ℤ) (total : ℤ)
    → sum_from decimals total (shown decimals rows) ≡ sum_ℤ total rows
unfolding sum_from
sum_from-shown decimals [] total = refl
sum_from-shown decimals (stroops ∷ rows) total =
    rw (sum_from, units_to_stroops-shown stroops decimals)
      (sum_from-shown decimals rows (total +ℤ stroops))

-- The sum of amounts as they are shown is the exact sum of the stroops behind them, at any magnitude.
pub sum_amounts-shown :
    (decimals : ℕ) (rows : List ℤ) → sum_amounts (shown decimals rows) decimals ≡ sum_ℤ (pos 0) rows
unfolding sum_amounts
sum_amounts-shown decimals rows = sum_from-shown decimals rows (pos 0)
