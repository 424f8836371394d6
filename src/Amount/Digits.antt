-- ===== src/Amount/Digits.antt =====
-- Texts of digits, signs and dots: what the string functions of the amounts do to them.
use mathlib.Core.List.{reverse, reverse-cons, reverse-reverse}
use mathlib.Core.Path.{subst}
use native.Mathlib.Nat.{pow-suc}
use ziza_lend.Common.{
  ℕ, zero, suc, ◌+◌, ◌-◌, ◌/◌, ◌%◌, ◌^◌, ◌≤◌, ◌<◌, ◌≡◌, ◌∙◌, ap, refl, true, false, not, ◌&&◌, ◌||◌,
  inl, inr, [], ◌∷◌, ◌++◌, Text, ltb, ◌==◌, All, All-append, All-imp, filter, replicate, length,
  length-append, Bool-cases, arith,
}
use ziza_lend.Common.Js.{
  is_space, trim_start, trim, split, digits_value, nat_text, IsDigits, digits_fuel,
}
use ziza_lend.Amount.{
  all_digits, not_empty, strip_leading_zeros, strip_trailing_zeros, clean, pad_end,
}

IsDotless : Text → Type 0
IsDotless s = All (λ c. (c == b'.') ≡ false) s

pub IsDigits-IsDotless : (s : Text) → IsDigits s → All (λ c. (c == b'.') ≡ false) s
IsDigits-IsDotless s h = All-imp s (λ c d. ground (arith, d)) h

pub split-dotless : (s : Text) → All (λ c. (c == b'.') ≡ false) s → split b'.' s ≡ s ∷ []
unfolding split
split-dotless [] h = refl
split-dotless (c ∷ s) h = rw (h.0, split-dotless s h.1) refl

pub split-dot :
    (s t : Text) → All (λ c. (c == b'.') ≡ false) s → split b'.' (s ++ b'.' ∷ t) ≡ s ∷ split b'.' t
unfolding split
split-dot [] t h = refl
split-dot (c ∷ s) t h = rw (h.0, split-dot s t h.1) refl

pub IsDigits-all : (s : Text) → IsDigits s → all_digits s ≡ true
IsDigits-all [] h = refl
IsDigits-all (c ∷ s) h = rw (h.0) (IsDigits-all s h.1)

pub strip_leading_zeros-value :
    (s : Text) → digits_value 0 (strip_leading_zeros s) ≡ digits_value 0 s
unfolding strip_leading_zeros digits_value
strip_leading_zeros-value [] = refl
strip_leading_zeros-value (c ∷ []) = refl
strip_leading_zeros-value (c ∷ d ∷ s) = elim (Bool-cases (c == b'0')) [
  | inr f ↦ rw f refl
  | inl t ↦
      rw t (
        strip_leading_zeros-value (d ∷ s) ∙ ap (λ n. digits_value n (d ∷ s)) {x = 0} (ground arith))
]

pub strip_leading_zeros-IsDigits : (s : Text) → IsDigits s → IsDigits (strip_leading_zeros s)
unfolding strip_leading_zeros
strip_leading_zeros-IsDigits [] h = h
strip_leading_zeros-IsDigits (c ∷ []) h = h
strip_leading_zeros-IsDigits (c ∷ d ∷ s) h = elim (Bool-cases (c == b'0')) [
  | inr f ↦ rw f h
  | inl t ↦ rw t (strip_leading_zeros-IsDigits (d ∷ s) h.1)
]

pub strip_trailing_zeros-IsDigits : (s : Text) → IsDigits s → IsDigits (strip_trailing_zeros s)
unfolding strip_trailing_zeros
strip_trailing_zeros-IsDigits [] h = tt
strip_trailing_zeros-IsDigits (c ∷ s) h =
    elim (Bool-cases (c == b'0' && not (not_empty (strip_trailing_zeros s)))) [
      | inr f ↦ rw f (h.0, strip_trailing_zeros-IsDigits s h.1)
      | inl t ↦ rw t tt
    ]

not_empty-nil : (s : Text) → not_empty s ≡ false → s ≡ []
not_empty-nil [] h = refl
not_empty-nil (c ∷ s) h = absurd (ground arith)

-- Padding restores the zeros at the end.
pub pad_end-strip_trailing_zeros :
    (s : Text)
    → (length (strip_trailing_zeros s) ≤ length s)
      × (pad_end (length s) (strip_trailing_zeros s) ≡ s)
unfolding strip_trailing_zeros
pad_end-strip_trailing_zeros [] = (omega arith, refl)
pad_end-strip_trailing_zeros (c ∷ s) =
    let rest = pad_end-strip_trailing_zeros s in
    let kept = strip_trailing_zeros s in
    elim (Bool-cases (c == b'0' && not (not_empty (strip_trailing_zeros s)))) [
      | inr f ↦ rw f (
        omega (arith, rest.0),
        ap (λ n. c ∷ kept ++ replicate n b'0') {x = suc (length s) - suc (length kept)}
              {y = length s - length kept} (omega arith)
            ∙ ap (◌∷◌ c) rest.1,
      )
      | inl t ↦ rw t (
        omega arith,
        ap (λ n. replicate n b'0') {x = suc (length s) - 0} {y = suc (length s - 0)} (omega arith)
            ∙ ap (◌∷◌ b'0') (
                subst (λ k. pad_end (length s) k ≡ s) (not_empty-nil kept (ground (arith, t)))
                  rest.1)
            ∙ ap (λ d. d ∷ s) {x = b'0'} {y = c} (ground (arith, t)),
      )
    ]

pub digits_value-replicate :
    (n : ℕ) (s : Text) → digits_value 0 (replicate n b'0' ++ s) ≡ digits_value 0 s
unfolding digits_value
digits_value-replicate zero s = refl
digits_value-replicate (suc n) s = digits_value-replicate n s

-- A number below a power of ten has at most as many digits.
length-digits_fuel : (f n d : ℕ) → n < 10 ^ suc d → length (digits_fuel f n) ≤ suc d
unfolding digits_fuel
length-digits_fuel zero n d h = omega arith
length-digits_fuel (suc f) n zero h = elim (Bool-cases (ltb n 10)) [
  | inl small ↦ rw small (omega arith)
  | inr big ↦ absurd (ground arith)
]
length-digits_fuel (suc f) n (suc d) h = elim (Bool-cases (ltb n 10)) [
  | inl small ↦ rw small (omega arith)
  | inr big ↦
      rw (big, length-append (digits_fuel f (n / 10)) ((48 + n % 10) ∷ []))
        (omega (arith, length-digits_fuel f (n / 10) d (omega (arith, h, pow-suc 10 (suc d)))))
]

pub length-nat_text : (n d : ℕ) → n < 10 ^ suc d → length (nat_text n) ≤ suc d
unfolding nat_text
length-nat_text n d h = length-digits_fuel (suc n) n d h

-- Texts without white space, commas and underscores are left as they are.
abbrev pub IsClean : ℕ → Type 0
IsClean c = (c == b',' || is_space c || c == b'_') ≡ false

trim_start-clean : (s : Text) → All IsClean s → trim_start s ≡ s
unfolding trim_start
trim_start-clean [] h = refl
trim_start-clean (c ∷ s) h =
    let no_space : is_space c ≡ false = ground (arith, h.0) in rw no_space refl

All-reverse : (P : ℕ → Type 0) (s : Text) → All P s → All P (reverse s)
All-reverse P [] h = tt
All-reverse P (c ∷ s) h =
    rw (reverse-cons c s) (All-append P (reverse s) (c ∷ []) (All-reverse P s h.1) (h.0, tt))

filter-clean :
    (s : Text) → All IsClean s → filter (λ c. not (c == b',' || is_space c || c == b'_')) s ≡ s
filter-clean [] h = refl
filter-clean (c ∷ s) h = rw h.0 (ap (◌∷◌ c) (filter-clean s h.1))

pub clean-clean : (s : Text) → All IsClean s → clean s ≡ s
unfolding clean trim
clean-clean s h =
    rw
      (
        trim_start-clean s h,
        trim_start-clean (reverse s) (All-reverse IsClean s h),
        reverse-reverse s,
      )
      (filter-clean s h)
