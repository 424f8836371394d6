-- ===== src/Amount.antt =====
-- frontend/src/app/utils/amount.ts: amounts as exact decimal texts and as stroops.
pub mod Digits
pub mod Normal
pub mod Reads
pub mod Stroops
use ziza_lend.Common.{
  ℕ, zero, suc, ◌+◌, ◌-◌, ◌*◌, ◌/◌, ◌%◌, ◌^◌, Bool, true, false, not, ◌&&◌, ◌||◌, Option, none,
  some, List, [], ◌∷◌, ◌++◌, if◌then◌else◌, Text, text_eq, codes, ltb, leb, ◌==◌, all, filter, take,
  drop, replicate, length,
}
use ziza_lend.Common.Int.{ℤ, pos, negsuc, ◌+ℤ◌, ltb_ℤ}
use ziza_lend.Common.Js.{is_digit, is_space, trim, split, digits_value, nat_text, negate, int_text}

abbrev pub stroop_decimals : ℕ
stroop_decimals = 7

unfoldable pub get_asset_decimals : Text → ℕ
get_asset_decimals asset =
    if text_eq asset (codes "XLM")
    then 7
    else if text_eq asset (codes "USDC")
        || text_eq asset (codes "EURC")
        || text_eq asset (codes "PHP")
    then 2
    else stroop_decimals

-- `padStart` and `padEnd` with "0".
abbrev pub pad_start : ℕ → Text → Text
pad_start n s = replicate (n - length s) b'0' ++ s

abbrev pub pad_end : ℕ → Text → Text
pad_end n s = s ++ replicate (n - length s) b'0'

-- `value.slice(0, firstDotIndex + 1)` and the rest without dots, for a text of digits and dots.
abbrev pub keep_first_dot : Text → Text
keep_first_dot [] = []
keep_first_dot (c ∷ s) =
    if c == b'.' then c ∷ filter (λ d. not (d == b'.')) s else c ∷ keep_first_dot s

unfoldable pub sanitize_amount_input : Text → Text
sanitize_amount_input value = keep_first_dot (filter (λ c. is_digit c || c == b'.') value)

-- `const [first = "", second = ""] = value.split(".")`.
abbrev pub first_part : List Text → Text
first_part [] = []
first_part (part ∷ parts) = part

abbrev pub second_part : List Text → Text
second_part [] = []
second_part (part ∷ parts) = first_part parts

unfoldable pub count_fraction_digits : Text → ℕ
unfolding split
count_fraction_digits value = length (second_part (split b'.' value))

unfoldable pub has_invalid_precision : Text → ℕ → Bool
unfolding count_fraction_digits
has_invalid_precision value decimals = ltb decimals (count_fraction_digits value)

-- `value.startsWith("-")` and what follows.
abbrev pub take_sign : Text → Bool × Text
take_sign [] = (false, [])
take_sign (c ∷ s) = if c == b'-' then (true, s) else (false, c ∷ s)

abbrev pub sign : Bool → Text
sign negative = if negative then b'-' ∷ [] else []

abbrev pub absolute : ℤ → ℕ
absolute (pos n) = n
absolute (negsuc n) = suc n

abbrev pub is_negative : ℤ → Bool
is_negative (pos n) = false
is_negative (negsuc n) = true

-- `stroopsToDecimalString`, for a number of decimals that is not negative.
unfoldable pub unsigned_decimal_string : ℕ → ℕ → Text
unfolding nat_text
unsigned_decimal_string stroops zero = nat_text stroops
unsigned_decimal_string stroops (suc d) =
    nat_text (stroops / 10 ^ suc d) ++ b'.' ∷ pad_start (suc d) (nat_text (stroops % 10 ^ suc d))

unfoldable pub stroops_to_decimal_string : ℤ → ℕ → Text
unfolding unsigned_decimal_string
stroops_to_decimal_string stroops decimals =
    sign (is_negative stroops) ++ unsigned_decimal_string (absolute stroops) decimals

-- `/^(\d+(\.\d*)?|\.\d+)$/` on the parts between the dots.
abbrev pub all_digits : Text → Bool
all_digits s = all is_digit s

abbrev pub not_empty : Text → Bool
not_empty [] = false
not_empty (c ∷ s) = true

abbrev pub is_decimal : List Text → Bool
is_decimal [] = false
is_decimal (whole ∷ []) = all_digits whole && not_empty whole
is_decimal (whole ∷ fraction ∷ []) =
    all_digits whole && all_digits fraction && (not_empty whole || not_empty fraction)
is_decimal (whole ∷ fraction ∷ more ∷ parts) = false

-- `.replace(/^0+(?=\d)/, "")` and `.replace(/0+$/, "")`.
unfoldable pub strip_leading_zeros : Text → Text
strip_leading_zeros [] = []
strip_leading_zeros (c ∷ []) = c ∷ []
strip_leading_zeros (c ∷ d ∷ s) =
    let rest = strip_leading_zeros (d ∷ s) in if c == b'0' then rest else c ∷ d ∷ s

unfoldable pub strip_trailing_zeros : Text → Text
strip_trailing_zeros [] = []
strip_trailing_zeros (c ∷ s) =
    let rest = strip_trailing_zeros s in if c == b'0' && not (not_empty rest) then [] else c ∷ rest

-- The text of a sign, a whole part and a fraction. A value that is all zeros loses its sign.
unfoldable pub decimal_text : Bool → Text → Text → Text
decimal_text negative whole fraction =
    let is_zero = text_eq whole (b'0' ∷ []) && not (not_empty fraction) in
    sign (negative && not is_zero)
    ++ (whole ++ (if not_empty fraction then b'.' ∷ fraction else []))

-- `value.trim().replace(/[,\s_]/g, "")`.
unfoldable pub clean : Text → Text
unfolding trim is_space
clean value = filter (λ c. not (c == b',' || is_space c || c == b'_')) (trim value)

unfoldable pub normalize_parts : Bool → List Text → Option Text
unfolding strip_leading_zeros strip_trailing_zeros decimal_text
normalize_parts negative parts =
    if is_decimal parts
    then some (
        decimal_text negative
          (strip_leading_zeros
            (if not_empty (first_part parts) then first_part parts else b'0' ∷ []))
          (strip_trailing_zeros (second_part parts)))
    else none

unfoldable pub normalize_decimal_input : Text → Option Text
unfolding clean split normalize_parts
normalize_decimal_input value =
    let (negative, unsigned) = take_sign (clean value) in
    normalize_parts negative (split b'.' unsigned)

-- `toStroops` on a normalized text.
unfoldable pub normalized_to_stroops : ℕ → Text → Option ℤ
unfolding has_invalid_precision split digits_value
normalized_to_stroops decimals normalized =
    if not (not_empty normalized) || has_invalid_precision normalized decimals
    then none
    else let (negative, unsigned) = take_sign normalized in
      let parts = split b'.' unsigned in
      let stroops =
        digits_value 0 (first_part parts) * 10 ^ decimals
        + digits_value 0 (pad_end decimals (second_part parts)) in
      some (if negative then negate stroops else pos stroops)

unfoldable pub to_stroops : Text → ℕ → Option ℤ
unfolding normalize_decimal_input normalized_to_stroops
to_stroops value decimals = elim (normalize_decimal_input value) [
  | none ↦ none
  | some normalized ↦ normalized_to_stroops decimals normalized
]

-- An amount as the callers give it: a text, a number with its `toString()`, none where it is not finite,
-- or a bigint.
pub data Amount : Type 0 where
  string : Text → Amount
  number : Option Text → Amount
  bigint : ℤ → Amount

unfoldable pub to_decimal_string : Amount → Option Text
unfolding normalize_decimal_input int_text
to_decimal_string (bigint n) = some (int_text n)
to_decimal_string (number none) = none
to_decimal_string (number (some text)) = normalize_decimal_input text
to_decimal_string (string text) = normalize_decimal_input text

unfoldable pub units_to_stroops : Amount → ℕ → Option ℤ
unfolding to_decimal_string to_stroops
units_to_stroops value decimals = elim (to_decimal_string value) [
  | none ↦ none
  | some text ↦ to_stroops text decimals
]

-- `sumAmounts`, from a total on.
abbrev pub add_amount : Option ℤ → ℤ → ℤ
add_amount none total = total
add_amount (some stroops) total = total +ℤ stroops

unfoldable pub sum_from : ℕ → ℤ → List Amount → ℤ
unfolding units_to_stroops
sum_from decimals total [] = total
sum_from decimals total (value ∷ values) =
    sum_from decimals (add_amount (units_to_stroops value decimals) total) values

unfoldable pub sum_amounts : List Amount → ℕ → ℤ
unfolding sum_from
sum_amounts values decimals = sum_from decimals (pos 0) values

abbrev pub compare_stroops : Option ℤ → Option ℤ → ℤ
compare_stroops none none = pos 0
compare_stroops none (some r) = pos 1
compare_stroops (some l) none = negsuc 0
compare_stroops (some l) (some r) =
    if ltb_ℤ l r then negsuc 0 else if ltb_ℤ r l then pos 1 else pos 0

unfoldable pub compare_amounts : Amount → Amount → ℕ → ℤ
unfolding units_to_stroops
compare_amounts left right decimals =
    compare_stroops (units_to_stroops left decimals) (units_to_stroops right decimals)

unfoldable pub is_positive_amount : Amount → Bool
unfolding units_to_stroops
is_positive_amount value = elim (units_to_stroops value stroop_decimals) [
  | none ↦ false
  | some stroops ↦ ltb_ℤ (pos 0) stroops
]
