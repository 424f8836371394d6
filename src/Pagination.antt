-- ===== src/Pagination.antt =====
-- backend/src/utils/pagination.ts. The parsers of dates and of floating point numbers are parameters,
-- with the order of what they give.
pub mod Bounds
use ziza_lend.Common.{
  ℕ, ◌+◌, ◌-◌, ◌^◌, min, ◌≡◌, Bool, true, false, not, ◌||◌, Option, none, some, List, [], ◌∷◌, map,
  if◌then◌else◌, Text, text_eq, any, ltb, leb, ◌==◌,
}
use ziza_lend.Common.Int.{ℤ, pos, negsuc}
use ziza_lend.Common.Js.{trim, split, parse_int}

-- A query parameter: a string, or anything else (absent, repeated, nested).
pub data QueryValue : Type 0 where
  text : Text → QueryValue
  other : QueryValue

pub record Query : Type 0 where
  pub limit : QueryValue
  pub offset : QueryValue
  pub cursor : QueryValue
  pub sort : QueryValue
  pub status : QueryValue
  pub date_range : QueryValue
  pub amount_range : QueryValue

abbrev pub default_limit : ℕ
default_limit = 50

abbrev pub max_limit : ℕ
max_limit = 100

abbrev pub max_offset : ℕ
max_offset = 10000

-- `Number.isFinite` of a parsed number: from this one on, digits are read as Infinity.
unfoldable pub is_finite_integer : ℕ → Bool
is_finite_integer n = ltb n (2 ^ 1024 - 2 ^ 970)

unfoldable pub parse_positive_integer : QueryValue → ℕ → ℕ → ℕ
unfolding is_finite_integer
parse_positive_integer other fallback most = fallback
parse_positive_integer (text value) fallback most = elim (parse_int value) [
  | none ↦ fallback
  | some (pos n) ↦ if is_finite_integer n then min n most else fallback
  | some (negsuc _) ↦ fallback
]

abbrev pub non_empty : Text → Option Text
non_empty [] = none
non_empty (c ∷ s) = some (c ∷ s)

-- A string that is not blank, trimmed.
unfoldable pub trimmed : QueryValue → Option Text
unfolding trim
trimmed other = none
trimmed (text value) = non_empty (trim value)

-- The first two parts between commas, trimmed, where neither is empty.
unfoldable pub two_parts : List Text → Option (Text × Text)
two_parts (p ∷ q ∷ _) = elim (non_empty p) [
  | none ↦ none
  | some start ↦ elim (non_empty q) [ none ↦ none | some end ↦ some (start, end) ]
]
two_parts _ = none

pub record Range (A : Type 0) : Type 0 where
  pub low : A
  pub high : A

module _ {A : Type 0} (parse : Text → Option A) (le : A → A → Bool) where
  unfoldable pub ordered : Option A → Option A → Option (Range A)
  ordered (some a) (some b) =
      if le a b then some (record { low = a; high = b }) else some (record { low = b; high = a })
  ordered _ _ = none

  -- `parseDateRange` and `parseAmountRange`.
  unfoldable pub parse_range : QueryValue → Option (Range A)
  unfolding two_parts split trim ordered
  parse_range other = none
  parse_range (text value) = elim (two_parts (map trim (split b',' value))) [
    | none ↦ none
    | some (start, end) ↦ ordered (parse start) (parse end)
  ]

pub record PaginationParams (D : Type 0) (N : Type 0) : Type 0 where
  pub limit : ℕ
  pub offset : ℕ
  pub sort : Option Text
  pub status : Option Text
  pub date_range : Option (Range D)
  pub amount_range : Option (Range N)

pub record CursorPaginationParams (D : Type 0) (N : Type 0) : Type 0 where
  pub limit : ℕ
  pub cursor : Option Text
  pub sort : Option Text
  pub status : Option Text
  pub date_range : Option (Range D)
  pub amount_range : Option (Range N)

module _ {D N : Type 0} (parse_date : Text → Option D) (le_date : D → D → Bool)
    (parse_float : Text → Option N) (le_float : N → N → Bool) where
  unfoldable pub parse_query_params : Query → PaginationParams D N
  unfolding parse_positive_integer trimmed parse_range
  parse_query_params query = record {
    limit = parse_positive_integer query.limit default_limit max_limit;
    offset = parse_positive_integer query.offset 0 max_offset;
    sort = trimmed query.sort;
    status = trimmed query.status;
    date_range = parse_range parse_date le_date query.date_range;
    amount_range = parse_range parse_float le_float query.amount_range;
  }

  unfoldable pub parse_cursor_query_params : Query → CursorPaginationParams D N
  unfolding parse_positive_integer trimmed parse_range
  parse_cursor_query_params query = record {
    limit = parse_positive_integer query.limit default_limit max_limit;
    cursor = trimmed query.cursor;
    sort = trimmed query.sort;
    status = trimmed query.status;
    date_range = parse_range parse_date le_date query.date_range;
    amount_range = parse_range parse_float le_float query.amount_range;
  }

pub data Direction : Type 0 where
  asc desc : Direction

pub record SortConfig : Type 0 where
  pub field : Text
  pub direction : Direction

abbrev pub includes : List Text → Text → Bool
includes fields x = any (λ y. text_eq y x) fields

-- `sort.replace(/^-/, '')` and `sort.startsWith('-')`.
unfoldable pub sort_key : Text → Text × Direction
sort_key [] = ([], asc)
sort_key (c ∷ s) = if c == b'-' then (s, desc) else (c ∷ s, asc)

unfoldable pub get_sort_config : Option Text → List Text → Text → Direction → SortConfig
unfolding sort_key
get_sort_config none allowed default_field default_direction = record {
  field = default_field;
  direction = default_direction;
}
get_sort_config (some []) allowed default_field default_direction = record {
  field = default_field;
  direction = default_direction;
}
get_sort_config (some (c ∷ s)) allowed default_field default_direction =
    let (requested, direction) = sort_key (c ∷ s) in
    if not (includes allowed requested)
    then record { field = default_field; direction = default_direction }
    else record { field = requested; direction = direction }

pub record PageInfo : Type 0 where
  pub limit : ℕ
  pub offset : ℕ
  pub count : ℕ
  pub has_previous : Bool
  pub has_next : Bool

-- The `page_info` of `createPaginatedResponse`.
unfoldable pub page_info : ℕ → ℕ → ℕ → ℕ → PageInfo
page_info total_count limit offset current_count = record {
  limit = limit;
  offset = offset;
  count = current_count;
  has_previous = ltb 0 offset;
  has_next = ltb (offset + current_count) total_count;
}
