-- ===== src/Client.antt =====
-- packages/sdk/src/client.ts: `Client.request` with its retries, and what it sends. Times are milliseconds;
-- a wait is a whole number of them, which decides `waitMs >= deadlineAt - now` as the fraction does. The
-- network, the clock of the timers, `Math.random` and `Date.parse` are parameters.
pub mod Request
pub mod Pages
use ziza_lend.Common.{
  ℕ, zero, suc, ◌+◌, ◌-◌, ◌*◌, ◌/◌, ◌^◌, min, Bool, true, false, not, ◌&&◌, ◌||◌, Option, none,
  some, List, [], ◌∷◌, ◌++◌, map, if◌then◌else◌, Text, text_eq, codes, ltb, leb, ◌==◌, any, all,
}
use ziza_lend.Common.Js.{is_digit, is_space, trim, to_lower, to_upper, digits_value, nat_text}
use ziza_lend.Common.Map.{Map, map_get, map_set}

pub record Config : Type 0 where
  pub token : Option Text
  pub api_key : Option Text
  pub timeout_ms : ℕ
  pub max_retries : ℕ
  pub total_timeout_ms : Option ℕ
  pub max_retry_delay_ms : ℕ
  pub auto_idempotency_key : Bool

abbrev pub default_max_retry_delay_ms : ℕ
default_max_retry_delay_ms = 30000

abbrev pub retry_after_jitter_ms : ℕ
retry_after_jitter_ms = 250

abbrev pub is_transient : ℕ → Bool
is_transient status = status == 429 || status == 502 || status == 503 || status == 504

-- `RETRY_AFTER_STATUS_CODES`.
abbrev pub has_retry_after : ℕ → Bool
has_retry_after status = status == 429 || status == 503

abbrev pub idempotent_methods : List Text
idempotent_methods =
    codes "GET" ∷ codes "HEAD" ∷ codes "OPTIONS" ∷ codes "PUT" ∷ codes "DELETE" ∷ []

unfoldable pub is_idempotent : Text → Bool
is_idempotent method = any (text_eq method) idempotent_methods

abbrev pub idempotency_key_header : Text
idempotency_key_header = codes "Idempotency-Key"

-- The three shapes of `HeadersInit`: an object, a list of entries, and a `Headers` instance, whose names
-- are lower case.
pub data HeadersInit : Type 0 where
  plain : Map Text → HeadersInit
  entries : List (Text × Text) → HeadersInit
  headers : Map Text → HeadersInit

-- `key.toLowerCase() === target`.
unfoldable pub same_name : Text → Text → Bool
same_name target key = text_eq (map to_lower key) (map to_lower target)

unfoldable pub find_header : Text → List (Text × Text) → Option Text
unfolding same_name
find_header target [] = none
find_header target ((key, value) ∷ m) =
    if same_name target key then some value else find_header target m

unfoldable pub read_header : Option HeadersInit → Text → Option Text
read_header none name = none
read_header (some (HeadersInit.plain m)) name = find_header name m
read_header (some (HeadersInit.entries m)) name = find_header name m
read_header (some (HeadersInit.headers m)) name = map_get (map to_lower name) m

-- `merged[key] = entryValue` for each entry.
unfoldable pub merge : List (Text × Text) → Map Text → Map Text
merge [] merged = merged
merge ((key, value) ∷ m) merged = merge m (map_set key value merged)

unfoldable pub header_entries : Option HeadersInit → List (Text × Text)
header_entries none = []
header_entries (some (HeadersInit.plain m)) = m
header_entries (some (HeadersInit.entries m)) = m
header_entries (some (HeadersInit.headers m)) = m

unfoldable pub with_header : Option HeadersInit → Text → Text → Map Text
unfolding merge header_entries
with_header init name value = map_set name value (merge (header_entries init) [])

-- What `Object.keys` and a read of each key give for `init.headers`: an entry of a list is written as
-- `key,value` under its index, and a `Headers` instance has no keys of its own.
unfoldable pub indexed : ℕ → List (Text × Text) → List (Text × Text)
indexed i [] = []
indexed i ((key, value) ∷ m) = (nat_text i, key ++ codes "," ++ value) ∷ indexed (suc i) m

unfoldable pub own_entries : Option HeadersInit → List (Text × Text)
unfolding indexed
own_entries none = []
own_entries (some (HeadersInit.plain m)) = m
own_entries (some (HeadersInit.entries m)) = indexed 0 m
own_entries (some (HeadersInit.headers m)) = []

-- `if (value) headers[name] = value`, for a value that is not empty.
unfoldable pub write_some : Text → Option Text → Map Text → Map Text
write_some name none m = m
write_some name (some value) m = map_set name value m

abbrev pub bearer : Option Text → Option Text
bearer none = none
bearer (some token) = some (codes "Bearer " ++ token)

-- The headers that `executeFetch` passes to `fetch`; an empty token or API key is none.
unfoldable pub fetch_headers : Config → Option HeadersInit → Map Text
unfolding merge own_entries write_some
fetch_headers c init = write_some (codes "x-api-key") c.api_key (
    write_some (codes "Authorization") (bearer c.token)
      (merge (own_entries init) ((codes "Content-Type", codes "application/json") ∷ [])))

-- `/[A-Za-z]/`.
abbrev pub is_letter : ℕ → Bool
is_letter c = (leb b'A' c && leb c b'Z') || (leb b'a' c && leb c b'z')

-- What a trimmed header means: seconds, or a date, none where `Date.parse` gives no number. A date before
-- 1970 is taken for 0, which lies in the past as well.
unfoldable pub retry_after_value : (Text → Option ℕ) → ℕ → Text → Option ℕ
retry_after_value date_parse now [] = none
retry_after_value date_parse now (c ∷ s) =
    if all is_digit (c ∷ s)
    then some (digits_value 0 (c ∷ s) * 1000)
    else (if any is_letter (c ∷ s)
        then elim (date_parse (c ∷ s)) [ none ↦ none | some at ↦ some (at - now) ]
        else none)

unfoldable pub parse_retry_after_ms : (Text → Option ℕ) → Option Text → ℕ → Option ℕ
unfolding retry_after_value
parse_retry_after_ms date_parse none now = none
parse_retry_after_ms date_parse (some raw) now = retry_after_value date_parse now (trim raw)
