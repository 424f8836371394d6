-- ===== src/Cache.antt =====
-- backend/src/services/cacheService.ts: the cache facade over the key-value store, for values of one
-- type. Each call takes `up`, whether the store answers this call: where it does not, the error is
-- swallowed, the map is as it was, and the reply is the one of the catch block.
use ziza_lend.Common.{
  ℕ, ◌≡◌, Bool, true, false, Option, none, some, [], ◌∷◌, if◌then◌else◌, Text, text_eq,
}
use ziza_lend.KvStore.{Entries, get as kv_get, set as kv_set, set_nx, del, keys}

-- `JSON.stringify` and `JSON.parse` at the type of the cached values: `decode` is none where
-- `JSON.parse` throws.
pub record Codec (A : Type 0) : Type 0 where
  pub encode : A → Text
  pub decode : Text → Option A
  pub decode-encode : (a : A) → decode (encode a) ≡ some a

module _ {A : Type 0} (json : Codec A) where
  open json use {encode, decode}

  unfoldable pub set : Bool → ℕ → Text → A → ℕ → Entries → Entries
  set up now key value ttl m = if up then kv_set now key (encode value) ttl m else m

  -- A miss, a value that does not parse and a store that is down are all null.
  unfoldable pub get : Bool → ℕ → Text → Entries → Option A × Entries
  get up now key m =
      let (found, m') = kv_get now key m in
      if up then (elim found [ none ↦ none | some v ↦ decode v ], m') else (none, m)

  unfoldable pub set_not_exists : Bool → ℕ → Text → A → ℕ → Entries → Bool × Entries
  set_not_exists up now key value ttl m =
      if up then set_nx now key (encode value) ttl m else (false, m)

unfoldable pub delete : Bool → Text → Entries → Entries
delete up key m = if up then del (key ∷ []) m else m

-- `invalidatePattern`.
unfoldable pub invalidate_pattern : Bool → ℕ → Text → Entries → Entries
invalidate_pattern up now pattern m =
    let (ks, m') = keys now pattern m in if up then del ks m' else m

-- The stored value that `deleteIfMatch` compares: the parsed one, or the raw text where it does
-- not parse.
unfoldable pub stored_value : Codec Text → Text → Text
stored_value json stored = elim (json.decode stored) [ none ↦ stored | some v ↦ v ]

-- The read of `deleteIfMatch`, and whether the stored value is the expected one.
unfoldable pub read_match : Codec Text → Bool → ℕ → Text → Text → Entries → Bool × Entries
read_match json up now key expected m =
    let (found, m') = kv_get now key m in
    if up
    then (
      elim found [ none ↦ false | some stored ↦ text_eq (stored_value json stored) expected ],
      m',
    )
    else (false, m)

-- `deleteIfMatch`: two calls of the store, and other requests may run between them.
unfoldable pub delete_if_match : Codec Text → Bool → ℕ → Text → Text → Entries → Bool × Entries
delete_if_match json up now key expected m =
    let (same, m') = read_match json up now key expected m in
    if same then (true, del (key ∷ []) m') else (false, m')
