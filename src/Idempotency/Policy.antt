-- ===== src/Idempotency/Policy.antt =====
-- backend/src/middleware/idempotencyPolicy.ts and backend/src/utils/apiPath.ts: which requests carry
-- an idempotency key, and the names under which their outcomes are kept. SHA-256 belongs to Node: its
-- hex digest is the argument `sha256_hex`.
use ziza_lend.Common.{
  ℕ, Bool, true, false, not, ◌&&◌, ◌||◌, Option, none, some, List, [], ◌∷◌, ◌++◌, map, leb, ◌==◌,
  if◌then◌else◌, Text, codes, text_eq, length, all, take, drop,
}
use ziza_lend.Common.Js.{to_upper, is_digit}

-- `path.split('?')[0]`.
unfoldable pub without_query : Text → Text
without_query [] = []
without_query (c ∷ s) = if c == b'?' then [] else c ∷ without_query s

unfoldable pub starts_with : Text → Text → Bool
starts_with [] s = true
starts_with (p ∷ ps) [] = false
starts_with (p ∷ ps) (c ∷ s) = p == c && starts_with ps s

-- One round of the loop over the prefixes: none where the prefix does not fit.
unfoldable pub strip_prefix : Text → Text → Option Text
unfolding starts_with
strip_prefix prefix path =
    if text_eq path prefix
    then some (codes "/")
    else if starts_with (prefix ++ codes "/") path
    then some (drop (length prefix) path)
    else none

unfoldable pub normalise_api_path : Text → Text
unfolding without_query strip_prefix
normalise_api_path path =
    let p = without_query path in
    elim (strip_prefix (codes "/api/v1") p) [
      | some rest ↦ rest
      | none ↦ elim (strip_prefix (codes "/api") p) [ some rest ↦ rest | none ↦ p ]
    ]

-- `replace(/\/$/, '')`.
unfoldable pub strip_slash : Text → Text
strip_slash [] = []
strip_slash (c ∷ []) = if c == b'/' then [] else c ∷ []
strip_slash (c ∷ d ∷ s) = c ∷ strip_slash (d ∷ s)

unfoldable pub route_of : Text → Text
unfolding normalise_api_path strip_slash
route_of path = strip_slash (normalise_api_path path)

unfoldable pub upper : Text → Text
unfolding to_upper
upper s = map to_upper s

pub record ReplaySafeRoute : Type 0 where
  pub method : Text
  pub path : Text

abbrev post : Text → ReplaySafeRoute
post path = record { method = codes "POST"; path = path }

-- `REPLAY_SAFE_ROUTES`, without the reasons.
unfoldable pub replay_safe_routes : List ReplaySafeRoute
replay_safe_routes =
    post (codes "/auth/challenge")
    ∷ post (codes "/auth/login")
    ∷ post (codes "/auth/logout")
    ∷ post (codes "/simulate")
    ∷ post (codes "/notifications/mark-read")
    ∷ post (codes "/notifications/mark-all-read")
    ∷ []

find_route : Text → Text → List ReplaySafeRoute → Option ReplaySafeRoute
find_route method path [] = none
find_route method path (r ∷ rs) =
    if text_eq r.method method && text_eq r.path path then some r else find_route method path rs

unfoldable pub find_replay_safe_route : Text → Text → Option ReplaySafeRoute
unfolding find_route upper route_of replay_safe_routes
find_replay_safe_route method path = find_route (upper method) (route_of path) replay_safe_routes

unfoldable pub is_key_required_method : Text → Bool
is_key_required_method method = text_eq method (codes "POST") || text_eq method (codes "PATCH")

unfoldable pub requires_idempotency_key : Text → Text → Bool
unfolding find_replay_safe_route is_key_required_method
requires_idempotency_key method path =
    if not (is_key_required_method (upper method))
    then false
    else elim (find_replay_safe_route method path) [ none ↦ true | some r ↦ false ]

-- `[A-Za-z0-9._:-]`.
unfoldable pub is_key_char : ℕ → Bool
is_key_char c =
    leb b'A' c && leb c b'Z'
    || leb b'a' c && leb c b'z'
    || is_digit c
    || c == b'.'
    || c == b'_'
    || c == b':'
    || c == b'-'

unfoldable pub is_valid_idempotency_key : Text → Bool
unfolding is_key_char
is_valid_idempotency_key key = leb 8 (length key) && leb (length key) 200 && all is_key_char key

-- A header as Node gives it: absent, one value, or several.
pub data Header : Type 0 where
  absent : Header
  one : Text → Header
  many : List Text → Header

-- `raw.join(', ')`.
unfoldable pub join_values : List Text → Text
join_values [] = []
join_values (v ∷ []) = v
join_values (v ∷ w ∷ vs) = v ++ codes ", " ++ join_values (w ∷ vs)

pub record Headers : Type 0 where
  pub authorization : Header
  pub x_api_key : Header

abbrev non_empty : Text → Option Text
non_empty [] = none
non_empty (c ∷ s) = some (c ∷ s)

abbrev pub header_value : Header → Option Text
header_value absent = none
header_value (one v) = non_empty v
header_value (many vs) = non_empty (join_values vs)

unfoldable pub presented_credential : Headers → Option Text
unfolding join_values
presented_credential headers = elim (header_value headers.authorization) [
  | some v ↦ some v
  | none ↦ header_value headers.x_api_key
]

module _ (sha256_hex : Text → Text) where
  unfoldable pub credential_scope : Option Text → Text
  credential_scope none = codes "anonymous"
  credential_scope (some []) = codes "anonymous"
  credential_scope (some (c ∷ s)) = codes "c:" ++ take 16 (sha256_hex (c ∷ s))

unfoldable pub idempotency_cache_key : Text → Text → Text → Text → Text
idempotency_cache_key method path scope key =
    codes "idemp:" ++ (upper method ++ b':' ∷ (route_of path ++ b':' ∷ (scope ++ b':' ∷ key)))

unfoldable pub in_flight_lock_key : Text → Text
in_flight_lock_key cache_key = cache_key ++ codes ":inflight"
