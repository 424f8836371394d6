-- ===== src/RateLimit.antt =====
-- backend/src/services/rateLimitService.ts: fixed-window rate limits over the key-value store. A call
-- that the store refuses is named by `Outage`; the catch block then answers, and what the calls
-- before it wrote stays.
pub mod Window
pub mod Bound
use ziza_lend.Common.{
  ℕ, ◌+◌, ◌-◌, ◌*◌, Bool, true, false, Option, none, some, List, [], ◌∷◌, ◌++◌, if◌then◌else◌, Text,
  codes, text_eq, ◌==◌,
}
use ziza_lend.Common.Int.{ℤ, pos, negsuc, pos_part, neg_part, leb_ℤ, ltb_ℤ, ◌-ℤ◌, max_ℤ}
use ziza_lend.Common.Js.{parse_int}
use ziza_lend.KvStore.{Entries, incr, expire, ttl, get, del}

pub record RateLimitConfig : Type 0 where
  pub max_requests : ℕ
  pub window_seconds : ℕ

pub record RateLimitResult : Type 0 where
  pub allowed : Bool
  pub remaining : ℤ
  pub reset_time : ℕ
  pub current_count : ℤ

-- The result of `getRateLimitStatus`, with no count.
pub record RateLimitStatus : Type 0 where
  pub allowed : Bool
  pub remaining : ℤ
  pub reset_time : ℕ

pub data Outage : Type 0 where
  no_outage first_call expire_call ttl_call : Outage

unfoldable pub rate_key : Text → Text
rate_key identifier = codes "rate_limit:" ++ identifier

-- `(ttlSeconds > 0 ? ttlSeconds : config.windowSeconds) * 1000`, from now.
abbrev pub reset_at : ℕ → RateLimitConfig → ℤ → ℕ
reset_at now config left =
    now + (if ltb_ℤ (pos 0) left then pos_part left else config.window_seconds) * 1000

-- The answer of the catch block: the request is allowed.
unfoldable pub fail_open : ℕ → RateLimitConfig → RateLimitResult
fail_open now config = record {
  allowed = true;
  remaining = pos config.max_requests -ℤ pos 1;
  reset_time = now + config.window_seconds * 1000;
  current_count = pos 1;
}

unfoldable pub counted : ℕ → RateLimitConfig → ℤ → ℤ → RateLimitResult
counted now config count left = record {
  allowed = leb_ℤ count (pos config.max_requests);
  remaining = max_ℤ (pos 0) (pos config.max_requests -ℤ count);
  reset_time = reset_at now config left;
  current_count = count;
}

-- `currentCount === 1`.
abbrev pub is_one : ℤ → Bool
is_one (pos n) = n == 1
is_one (negsuc n) = false

-- Only the first hit of a window sets its lifetime.
unfoldable pub start_window : ℕ → Text → ℕ → ℤ → Entries → Entries
start_window now key window count m = if is_one count then expire now key window m else m

unfoldable pub check_rate_limit :
    Outage → ℕ → Text → RateLimitConfig → Entries → RateLimitResult × Entries
check_rate_limit no_outage now identifier config m =
    let (count, m₁) = incr now (rate_key identifier) m in
    let m₂ = start_window now (rate_key identifier) config.window_seconds count m₁ in
    let (left, m₃) = ttl now (rate_key identifier) m₂ in (counted now config count left, m₃)
check_rate_limit first_call now identifier config m = (fail_open now config, m)
check_rate_limit expire_call now identifier config m =
    let (count, m₁) = incr now (rate_key identifier) m in
    let (left, m₃) = ttl now (rate_key identifier) m₁ in
    if is_one count then (fail_open now config, m₁) else (counted now config count left, m₃)
check_rate_limit ttl_call now identifier config m =
    let (count, m₁) = incr now (rate_key identifier) m in
    (fail_open now config, start_window now (rate_key identifier) config.window_seconds count m₁)

unfoldable pub reset_rate_limit : Bool → Text → Entries → Entries
reset_rate_limit up identifier m = if up then del (rate_key identifier ∷ []) m else m

abbrev pub untouched : ℕ → RateLimitConfig → RateLimitStatus
untouched now config = record {
  allowed = true;
  remaining = pos config.max_requests;
  reset_time = now + config.window_seconds * 1000;
}

abbrev pub status_of : ℕ → RateLimitConfig → ℤ → ℤ → RateLimitStatus
status_of now config count left = record {
  allowed = ltb_ℤ count (pos config.max_requests);
  remaining = max_ℤ (pos 0) (pos config.max_requests -ℤ count);
  reset_time = reset_at now config left;
}

-- The number that a stored value holds: none where it is empty or is no number.
abbrev pub stored_count : Option Text → Option ℤ
stored_count none = none
stored_count (some []) = none
stored_count (some (c ∷ s)) = parse_int (c ∷ s)

-- The two calls of the store that `getRateLimitStatus` makes.
pub data StatusOutage : Type 0 where
  none_down get_down ttl_down : StatusOutage

unfoldable pub get_rate_limit_status :
    StatusOutage → ℕ → Text → RateLimitConfig → Entries → RateLimitStatus × Entries
get_rate_limit_status none_down now identifier config m =
    let (value, m₁) = get now (rate_key identifier) m in
    let (left, m₂) = ttl now (rate_key identifier) m₁ in
    elim (stored_count value) [
      | none ↦ (untouched now config, m₁)
      | some count ↦ (status_of now config count left, m₂)
    ]
get_rate_limit_status get_down now identifier config m = (untouched now config, m)
get_rate_limit_status ttl_down now identifier config m =
    let (value, m₁) = get now (rate_key identifier) m in (untouched now config, m₁)
