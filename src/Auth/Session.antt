-- ===== src/Auth/Session.antt =====
-- The middleware of backend/src/middleware/jwtAuth.ts that establishes a session. The verification of a
-- signature, the decoding of a cookie and the check of the revocation list are parameters.
use ziza_lend.Common.{
  ℕ, Bool, ◌&&◌, Option, none, some, List, [], ◌∷◌, ◌++◌, if◌then◌else◌, Text, text_eq, codes,
  filter,
}
use ziza_lend.Common.Js.{trim, split}
use ziza_lend.Auth.Roles.{
  UserRole, Wallets, has, is_non_empty, resolve_role_for_wallet, resolve_scopes_for_role,
}

pub record JwtPayload : Type 0 where
  pub public_key : Text
  pub role : UserRole
  pub scopes : List Text
  pub jti : Text
  pub iat : ℕ
  pub exp : ℕ

-- `next()`, or the error that is thrown.
pub data AuthError : Type 0 where
  missing_token invalid_token revoked_token authentication_required wallet_required forbidden :
      AuthError

pub data Checked (A : Type 0) : Type 0 where
  refused : AuthError → Checked A
  passed : A → Checked A

unfoldable pub extract_bearer_token : Option Text → Option Text
unfolding split
extract_bearer_token none = none
extract_bearer_token (some header) = elim (split b' ' header) [
  | scheme ∷ token ∷ [] ↦ if text_eq scheme (codes "Bearer") then some token else none
  | _ ↦ none
]

-- `parts.join('=')`.
unfoldable pub join_parts : List Text → Text
join_parts [] = []
join_parts (part ∷ []) = part
join_parts (part ∷ next ∷ parts) = part ++ (b'=' ∷ join_parts (next ∷ parts))

module _ (decode_uri_component : Text → Option Text) where
  unfoldable pub cookie_value : Text → Option Text
  cookie_value [] = none
  cookie_value (c ∷ s) = elim (decode_uri_component (c ∷ s)) [
    | none ↦ some (c ∷ s)
    | some v ↦ some v
  ]

  -- The first pair with the cookie's name decides.
  unfoldable pub find_cookie : Text → List Text → Option Text
  unfolding split trim join_parts
  find_cookie name [] = none
  find_cookie name (pair ∷ pairs) =
      let rest = find_cookie name pairs in
      elim (split b'=' pair) [
        | [] ↦ rest
        | raw_key ∷ raw_value ↦
            if text_eq (trim raw_key) name then cookie_value (trim (join_parts raw_value)) else rest
      ]

  unfoldable pub extract_cookie_token : Text → Option Text → Option Text
  extract_cookie_token name none = none
  extract_cookie_token name (some []) = none
  extract_cookie_token name (some (c ∷ s)) = find_cookie name (split b';' (c ∷ s))

unfoldable pub cap_payload_to_current_role : Wallets → JwtPayload → JwtPayload
cap_payload_to_current_role env payload =
    let current_role = resolve_role_for_wallet env payload.public_key in
    record {
      public_key = payload.public_key;
      role = current_role;
      scopes = filter (has (resolve_scopes_for_role current_role)) payload.scopes;
      jti = payload.jti;
      iat = payload.iat;
      exp = payload.exp;
    }

-- The headers and the session of a request.
pub record Request : Type 0 where
  pub authorization : Option Text
  pub cookie : Option Text
  pub user : Option JwtPayload

unfoldable pub with_user : Request → JwtPayload → Request
with_user req payload = record {
  authorization = req.authorization;
  cookie = req.cookie;
  user = some payload;
}

module _ (env : Wallets) (cookie_name : Text) (decode_uri_component : Text → Option Text)
    (verify_jwt_token : Text → Option JwtPayload) (is_token_revoked : Text → Bool) where
  -- `payload.jti && (await isTokenRevoked(payload.jti))`.
  unfoldable pub is_revoked : JwtPayload → Bool
  is_revoked payload = is_non_empty payload.jti && is_token_revoked payload.jti

  -- `extractBearerToken(authHeader) ?? cookieToken ?? null`, with the empty token as none.
  unfoldable pub presented_token : Request → Option Text
  unfolding extract_bearer_token extract_cookie_token
  presented_token req =
      let cookie_token = extract_cookie_token decode_uri_component cookie_name req.cookie in
      elim (extract_bearer_token req.authorization) [
        | some [] ↦ none
        | some (c ∷ s) ↦ some (c ∷ s)
        | none ↦ elim cookie_token [ some (c ∷ s) ↦ some (c ∷ s) | _ ↦ none ]
      ]

  unfoldable pub require_jwt_auth : Request → Checked Request
  unfolding presented_token is_revoked cap_payload_to_current_role
  require_jwt_auth req = elim (presented_token req) [
    | none ↦ refused missing_token
    | some token ↦ elim (verify_jwt_token token) [
      | none ↦ refused invalid_token
      | some payload ↦
          if is_revoked payload
          then refused revoked_token
          else passed (with_user req (cap_payload_to_current_role env payload))
    ]
  ]

  -- Only the bearer token counts here, and a bad one leaves the request without a session.
  unfoldable pub optional_jwt_auth : Request → Request
  unfolding extract_bearer_token is_revoked cap_payload_to_current_role
  optional_jwt_auth req = elim (extract_bearer_token req.authorization) [
    | none ↦ req
    | some [] ↦ req
    | some (c ∷ s) ↦ elim (verify_jwt_token (c ∷ s)) [
      | none ↦ req
      | some payload ↦
          if is_revoked payload
          then req
          else with_user req (cap_payload_to_current_role env payload)
    ]
  ]
