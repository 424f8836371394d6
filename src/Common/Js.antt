-- ===== src/Common/Js.antt =====
-- The string and number functions of the JavaScript runtime that the source calls: `trim`,
-- `Number.parseInt(s, 10)` and the decimal rendering of an integer. Numbers are exact here; the
-- source's doubles are exact up to 2^53.
use mathlib.Core.List.{reverse}
use ziza_lend.Common.{
  ℕ, zero, suc, ◌+◌, ◌-◌, ◌*◌, ◌/◌, ◌%◌, ◌<◌, ◌≡◌, ◌≢◌, refl, Bool, true, false, ◌&&◌, ◌||◌, inl,
  inr, Option, none, some, List, [], ◌∷◌, ◌++◌, arith, ltb, leb, ◌==◌, if◌then◌else◌, Bool-cases,
  All, Text,
}
use ziza_lend.Common.Int.{ℤ, pos, negsuc}

abbrev pub is_digit : ℕ → Bool
is_digit c = leb 48 c && leb c 57

-- The white space and line ends that `trim` removes.
unfoldable pub is_space : ℕ → Bool
is_space c =
    leb 9 c && leb c 13
    || c == 32
    || c == 160
    || c == 0x1680
    || leb 0x2000 c && leb c 0x200a
    || c == 0x2028
    || c == 0x2029
    || c == 0x202f
    || c == 0x205f
    || c == 0x3000
    || c == 0xfeff

unfoldable pub trim_start : Text → Text
unfolding is_space
trim_start [] = []
trim_start (c ∷ s) = if is_space c then trim_start s else c ∷ s

unfoldable pub trim : Text → Text
unfolding trim_start
trim s = reverse (trim_start (reverse (trim_start s)))

-- `toLowerCase` and `toUpperCase` on the ASCII letters.
unfoldable pub to_lower : ℕ → ℕ
to_lower c = if leb b'A' c && leb c b'Z' then c + 32 else c

unfoldable pub to_upper : ℕ → ℕ
to_upper c = if leb b'a' c && leb c b'z' then c - 32 else c

-- `s.split(sep)` for a separator of one code unit.
abbrev pub cons_first : ℕ → List Text → List Text
cons_first c [] = (c ∷ []) ∷ []
cons_first c (part ∷ parts) = (c ∷ part) ∷ parts

unfoldable pub split : ℕ → Text → List Text
split sep [] = [] ∷ []
split sep (c ∷ s) = let rest = split sep s in if c == sep then [] ∷ rest else cons_first c rest

-- `s.includes(c)` for one code unit.
unfoldable pub has_char : ℕ → Text → Bool
has_char c [] = false
has_char c (d ∷ s) = c == d || has_char c s

-- The longest prefix of digits.
unfoldable pub digit_prefix : Text → Text
digit_prefix [] = []
digit_prefix (c ∷ s) = if is_digit c then c ∷ digit_prefix s else []

unfoldable pub digits_value : ℕ → Text → ℕ
digits_value a [] = a
digits_value a (c ∷ s) = digits_value (a * 10 + (c - 48)) s

-- `none` is NaN.
unfoldable pub unsigned_int : Text → Option ℕ
unfolding digits_value
unsigned_int [] = none
unsigned_int (c ∷ s) = some (digits_value 0 (c ∷ s))

abbrev pub negate : ℕ → ℤ
negate zero = pos 0
negate (suc n) = negsuc n

unfoldable pub signed_int : Text → Option ℤ
unfolding unsigned_int digit_prefix
signed_int [] = none
signed_int (c ∷ s) =
    if c == b'-'
    then elim (unsigned_int (digit_prefix s)) [ none ↦ none | some n ↦ some (negate n) ]
    else elim (unsigned_int (digit_prefix (if c == b'+' then s else c ∷ s))) [
      | none ↦ none
      | some n ↦ some (pos n)
    ]

-- `Number.parseInt(s, 10)`.
unfoldable pub parse_int : Text → Option ℤ
unfolding signed_int trim_start
parse_int s = signed_int (trim_start s)

-- The decimal digits of a number; the fuel `n + 1` is enough, since each round divides by ten.
unfoldable pub digits_fuel : ℕ → ℕ → Text
digits_fuel zero n = []
digits_fuel (suc f) n =
    let longer = digits_fuel f (n / 10) ++ (48 + n % 10) ∷ [] in
    if ltb n 10 then (48 + n) ∷ [] else longer

unfoldable pub nat_text : ℕ → Text
unfolding digits_fuel
nat_text n = digits_fuel (suc n) n

-- `String(n)` of an integer.
unfoldable pub int_text : ℤ → Text
unfolding nat_text
int_text (pos n) = nat_text n
int_text (negsuc n) = b'-' ∷ nat_text (suc n)

-- Reading back what was printed.
abbrev pub IsDigits : Text → Type 0
IsDigits = All (λ c. is_digit c ≡ true)

pub All-append-IsDigits : (s t : Text) → IsDigits s → IsDigits t → IsDigits (s ++ t)
All-append-IsDigits [] t h k = k
All-append-IsDigits (c ∷ s) t h k = (h.0, All-append-IsDigits s t h.1 k)

pub digits_value-append :
    (a : ℕ) (s t : Text) → digits_value a (s ++ t) ≡ digits_value (digits_value a s) t
unfolding digits_value
digits_value-append a [] t = refl
digits_value-append a (c ∷ s) t = digits_value-append (a * 10 + (c - 48)) s t

digits_fuel-IsDigits : (f n : ℕ) → IsDigits (digits_fuel f n)
unfolding digits_fuel
digits_fuel-IsDigits zero n = tt
digits_fuel-IsDigits (suc f) n = ground (
  arith,
  All-append-IsDigits (digits_fuel f (n / 10)) ((48 + n % 10) ∷ [])
      (digits_fuel-IsDigits f (n / 10)) (ground arith, tt),
)

digits_value-digits_fuel : (f n : ℕ) → n < f → digits_value 0 (digits_fuel f n) ≡ n
unfolding digits_fuel digits_value
digits_value-digits_fuel zero n h = elim h [ ]
digits_value-digits_fuel (suc f) n h = elim (Bool-cases (ltb n 10)) [
  | inl small ↦ rw small (omega arith)
  | inr big ↦
      rw (big, digits_value-append, digits_value-digits_fuel f (n / 10) (ground arith))
        (omega arith)
]

pub nat_text-IsDigits : (n : ℕ) → IsDigits (nat_text n)
unfolding nat_text
nat_text-IsDigits n = digits_fuel-IsDigits (suc n) n

pub digits_value-nat_text : (n : ℕ) → digits_value 0 (nat_text n) ≡ n
unfolding nat_text
digits_value-nat_text n = digits_value-digits_fuel (suc n) n (omega arith)

digit_prefix-eq_self : (s : Text) → IsDigits s → digit_prefix s ≡ s
unfolding digit_prefix
digit_prefix-eq_self [] h = refl
digit_prefix-eq_self (c ∷ s) h = ground (arith, digit_prefix-eq_self s h.1)

pub nat_text-ne-nil : (n : ℕ) → nat_text n ≢ []
unfolding nat_text digits_fuel
nat_text-ne-nil n = ground (arith, append-ne-nil (digits_fuel n (n / 10)) (48 + n % 10))
  where
    append-ne-nil : (s : Text) (c : ℕ) → s ++ c ∷ [] ≢ []
    append-ne-nil [] c = cc
    append-ne-nil (d ∷ s) c = cc

unsigned_int-digits :
    (s : Text) → s ≢ [] → IsDigits s → unsigned_int (digit_prefix s) ≡ some (digits_value 0 s)
unfolding unsigned_int
unsigned_int-digits [] h k = absurd (h refl)
unsigned_int-digits (c ∷ s) h k = rw (digit_prefix-eq_self (c ∷ s) k) refl

-- A text of digits is read as the number that it spells.
pub parse_int-digits :
    (s : Text) → s ≢ [] → IsDigits s → parse_int s ≡ some (pos (digits_value 0 s))
unfolding parse_int
parse_int-digits [] h k = absurd (h refl)
parse_int-digits (c ∷ s) h k = ground (arith, unsigned_int-digits (c ∷ s) h k)

-- `parseInt(String(z), 10)` is `z`.
pub parse_int-int_text : (z : ℤ) → parse_int (int_text z) ≡ some z
unfolding int_text
parse_int-int_text (pos n) = rw (
  parse_int-digits (nat_text n) (nat_text-ne-nil n) (nat_text-IsDigits n),
  digits_value-nat_text n,
)
parse_int-int_text (negsuc n) =
    unfold parse_int in
    rw (
      unsigned_int-digits (nat_text (suc n)) (nat_text-ne-nil (suc n)) (nat_text-IsDigits (suc n)),
      digits_value-nat_text (suc n),
    )
