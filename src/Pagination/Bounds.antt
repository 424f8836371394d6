-- ===== src/Pagination/Bounds.antt =====
-- What any query is turned into.
use ziza_lend.Common.{
  ℕ, ◌≤◌, min, ◌≡◌, refl, ◌∙◌, ap, Bool, true, false, Option, none, some, List, [], ◌∷◌, map,
  if◌then◌else◌, Text, text_eq_refl, arith, Bool-cases, Option-cases, inl, inr,
}
use ziza_lend.Common.Int.{ℤ, pos, negsuc}
use ziza_lend.Common.Js.{trim, split, parse_int, nat_text, int_text, parse_int-int_text}
use ziza_lend.Pagination.{
  QueryValue, Query, Range, text, other, is_finite_integer, parse_positive_integer,
  parse_query_params, parse_cursor_query_params, Direction, get_sort_config, sort_key, includes,
  ordered, parse_range, two_parts,
}

parse_positive_integer-le :
    (value : QueryValue) (fallback most : ℕ)
    → fallback ≤ most
    → parse_positive_integer value fallback most ≤ most
unfolding parse_positive_integer
parse_positive_integer-le other fallback most h = h
parse_positive_integer-le (text value) fallback most h = capped (parse_int value)
  where
    capped :
        (o : Option ℤ)
        → (elim o [
          | none ↦ fallback
          | some (pos n) ↦ if is_finite_integer n then min n most else fallback
          | some (negsuc _) ↦ fallback
        ])
          ≤ most
    capped none = h
    capped (some (pos n)) = ground (arith, h)
    capped (some (negsuc n)) = h

is_finite_integer-small : (n : ℕ) → n ≤ 10000 → is_finite_integer n ≡ true
unfolding is_finite_integer
is_finite_integer-small n h = ground (arith, h)

parse_int-nat_text : (n : ℕ) → parse_int (nat_text n) ≡ some (pos n)
unfolding int_text
parse_int-nat_text n = parse_int-int_text (pos n)

parse_positive_integer-nat_text :
    (n fallback most : ℕ)
    → n ≤ most
    → most ≤ 10000
    → parse_positive_integer (text (nat_text n)) fallback most ≡ n
unfolding parse_positive_integer
parse_positive_integer-nat_text n fallback most h k =
    rw
      (
        parse_positive_integer,
        parse_int-nat_text n,
        is_finite_integer-small n (omega (arith, h, k)),
      )
      (omega (arith, h))

module _ {D N : Type 0} (parse_date : Text → Option D) (le_date : D → D → Bool)
    (parse_float : Text → Option N) (le_float : N → N → Bool) where
  -- Whatever a query holds, a page has at most 100 rows and skips at most 10000.
  pub parse_query_params-bounds :
      (query : Query)
      → ((parse_query_params parse_date le_date parse_float le_float query).limit ≤ 100)
        × ((parse_query_params parse_date le_date parse_float le_float query).offset ≤ 10000)
        × ((parse_cursor_query_params parse_date le_date parse_float le_float query).limit ≤ 100)
  unfolding parse_query_params parse_cursor_query_params
  parse_query_params-bounds query = (
    parse_positive_integer-le query.limit 50 100 (omega arith),
    parse_positive_integer-le query.offset 0 10000 (omega arith),
    parse_positive_integer-le query.limit 50 100 (omega arith),
  )

  -- A limit up to 100 and an offset up to 10000 that are printed into a query are read back.
  pub parse_query_params-nat_text :
      (n k : ℕ) (query : Query)
      → n ≤ 100
      → k ≤ 10000
      → query.limit ≡ text (nat_text n)
      → query.offset ≡ text (nat_text k)
      → ((parse_query_params parse_date le_date parse_float le_float query).limit ≡ n)
        × ((parse_query_params parse_date le_date parse_float le_float query).offset ≡ k)
  unfolding parse_query_params
  parse_query_params-nat_text n k query small short l o = (
    ap (λ v. parse_positive_integer v 50 100) l
        ∙ parse_positive_integer-nat_text n 50 100 small (omega arith),
    ap (λ v. parse_positive_integer v 0 10000) o
        ∙ parse_positive_integer-nat_text k 0 10000 short (omega arith),
  )

-- The field that a list is sorted by is the default or one of the allowed fields, whatever the query
-- asks for.
pub get_sort_config-allowed :
    (sort : Option Text) (allowed : List Text) (default_field : Text)
    (default_direction : Direction)
    → includes
        (default_field ∷ allowed)
        (get_sort_config sort allowed default_field default_direction).field
      ≡ true
unfolding get_sort_config
get_sort_config-allowed none allowed default_field default_direction =
    rw (text_eq_refl default_field) refl
get_sort_config-allowed (some []) allowed default_field default_direction =
    rw (text_eq_refl default_field) refl
get_sort_config-allowed (some (c ∷ s)) allowed default_field default_direction =
    elim (Bool-cases (includes allowed (sort_key (c ∷ s)).0)) [
      | inl e ↦ ground (arith, e, text_eq_refl default_field)
      | inr e ↦ ground (arith, e, text_eq_refl default_field)
    ]

ordered-le :
    {A : Type 0} (parse : Text → Option A) (le : A → A → Bool)
    → ((a b : A) → le a b ≡ false → le b a ≡ true)
    → (p q : Option A) (r : Range A) → ordered parse le p q ≡ some r
    → le r.low r.high ≡ true
unfolding ordered
ordered-le parse le total none q r h = cc
ordered-le parse le total (some a) none r h = cc
ordered-le parse le total (some a) (some b) r h = elim (Bool-cases (le a b)) [
  | inl e ↦ ground (arith, e)
  | inr e ↦ ground (arith, e, total a b)
]

-- A range of a query has its low end first, given an order of which one direction always holds.
pub parse_range-ordered :
    {A : Type 0} (parse : Text → Option A) (le : A → A → Bool)
    → ((a b : A) → le a b ≡ false → le b a ≡ true)
    → (value : QueryValue) (r : Range A) → parse_range parse le value ≡ some r
    → le r.low r.high ≡ true
unfolding parse_range
parse_range-ordered parse le total other r h = cc
parse_range-ordered parse le total (text value) r h =
    elim (Option-cases (two_parts (map trim (split b',' value)))) [
      | inl e ↦ ground (arith, e)
      | inr ((start, end), e) ↦
          ordered-le parse le total (parse start) (parse end) r (ground (arith, e))
    ]
