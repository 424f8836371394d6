-- ===== src/Auth/Revocation.antt =====
-- `revokeToken` and `isTokenRevoked` of backend/src/services/authService.ts, over the cache. The
-- expiry of a token is in seconds, the clock in milliseconds.
use ziza_lend.Common.{
  ℕ, ◌+◌, ◌-◌, ◌*◌, ◌/◌, ◌≤◌, ◌<◌, ◌≡◌, refl, Bool, true, false, ◌&&◌, Option, none, some, ◌++◌,
  if◌then◌else◌, Text, codes, leb, ltb, arith, ap, ◌∙◌,
}
use ziza_lend.KvStore.{Entries, set as kv_set}
use ziza_lend.KvStore.Facts.{get-set}
use ziza_lend.Cache.{Codec, get, set}

unfoldable pub revoked_key : Text → Text
revoked_key jti = codes "revoked-jti:" ++ jti

module _ (json : Codec Bool) where
  unfoldable pub revoke_token : Bool → ℕ → Text → ℕ → Entries → Entries
  revoke_token up now jti exp m =
      let ttl_seconds = exp - now / 1000 in
      if leb exp (now / 1000) then m else set json up now (revoked_key jti) true ttl_seconds m

  -- No answer within the timeout is the reply of a store that is down.
  unfoldable pub is_token_revoked : Bool → ℕ → Text → Entries → Bool × Entries
  is_token_revoked up now jti m =
      let (found, m') = get json up now (revoked_key jti) m in
      (elim found [ none ↦ false | some revoked ↦ revoked ], m')

  abbrev decoded : Option Text → Bool
  decoded found = elim (elim found as (λ _. Option Bool) [ none ↦ none | some v ↦ json.decode v ]) [
    | none ↦ false
    | some revoked ↦ revoked
  ]

  -- A token that was revoked while the store answered is refused at every later time up to its own
  -- expiry at which the store answers.
  pub revoke_token-holds :
      (now later exp : ℕ) (jti : Text) (m : Entries)
      → now / 1000 < exp
      → now ≤ later
      → later < exp * 1000
      → (is_token_revoked true later jti (revoke_token true now jti exp m)).0 ≡ true
  unfolding revoke_token is_token_revoked get set
  revoke_token-holds now later exp jti m fresh after valid =
      let stored =
        get-set now later (exp - now / 1000) (revoked_key jti) (json.encode true) m after in
      let kept : leb exp (now / 1000) ≡ false = ground (arith, fresh) in
      let alive : (ltb 0 (exp - now / 1000) && leb (now + (exp - now / 1000) * 1000) later)
          ≡ false =
        ground (arith, fresh, after, valid) in
      let written : revoke_token true now jti exp m
          ≡ kv_set now (revoked_key jti) (json.encode true) (exp - now / 1000) m =
        rw (revoke_token, kept) refl in
      rw written (ap decoded stored ∙ rw (alive, json.decode-encode true) refl)
