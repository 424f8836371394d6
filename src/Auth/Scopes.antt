-- ===== src/Auth/Scopes.antt =====
-- What a session may do, against the wallet's role at the time of the request.
use ziza_lend.Common.{
  ◌≡◌, refl, ◌∙◌, ap, Bool, true, false, ◌&&◌, ◌||◌, Option, none, some, List, [], ◌∷◌,
  if◌then◌else◌, Text, text_eq, text_eq_iff, codes, all, filter, arith, Bool-cases, inl, inr,
}
use ziza_lend.Auth.Roles.{
  Wallets, role_scopes, has, is_non_empty, parse_wallet_set, resolve_role_for_wallet,
  resolve_scopes_for_role,
}
use ziza_lend.Auth.Session.{
  JwtPayload, Checked, refused, passed, forbidden, cap_payload_to_current_role,
}
use ziza_lend.Auth.Guards.{authenticated, missing_scope, check_scopes, require_scopes}

has-filter : (set xs : List Text) (x : Text) → has (filter (has set) xs) x ≡ (has xs x && has set x)
has-filter set [] x = refl
has-filter set (y ∷ xs) x = ground (arith, text_eq_iff y x, has-filter set xs x)

-- A capped session carries exactly the scopes that its token carries and its wallet's present role
-- grants.
pub has-cap_payload_to_current_role :
    (env : Wallets) (payload : JwtPayload) (scope : Text)
    → has (cap_payload_to_current_role env payload).scopes scope ≡ (
        has payload.scopes scope
        && has (resolve_scopes_for_role (resolve_role_for_wallet env payload.public_key)) scope)
unfolding cap_payload_to_current_role
has-cap_payload_to_current_role env payload scope =
    has-filter (resolve_scopes_for_role (resolve_role_for_wallet env payload.public_key))
      payload.scopes scope

admin_scope :
    (env : Wallets) (wallet : Text)
    → has (resolve_scopes_for_role (resolve_role_for_wallet env wallet)) (codes "admin:all")
      ≡ has (parse_wallet_set env.admin_wallets) wallet
unfolding resolve_scopes_for_role resolve_role_for_wallet role_scopes text_eq
admin_scope env wallet = elim (Bool-cases (has (parse_wallet_set env.admin_wallets) wallet)) [
  | inl e ↦ rw e refl
  | inr e ↦ elim (Bool-cases (has (parse_wallet_set env.lender_wallets) wallet)) [
    | inl f ↦ rw (e, f) refl
    | inr f ↦ rw (e, f) refl
  ]
]

abbrev verdict : Option Text → Checked Unit
verdict none = passed tt
verdict (some []) = passed tt
verdict (some (c ∷ s)) = refused forbidden

verdict-missing_scope :
    (granted required : List Text)
    → all is_non_empty required ≡ true
    → verdict (missing_scope granted required)
      ≡ (if all (has granted) required then passed tt else refused forbidden)
unfolding missing_scope
verdict-missing_scope granted [] h = refl
verdict-missing_scope granted ([] ∷ ss) h = cc
verdict-missing_scope granted ((c ∷ s) ∷ ss) h = ground (arith, verdict-missing_scope granted ss h)

if-or {ℓ} :
    {A : Type ℓ} (a b : Bool) (x y : A)
    → (if a then x else (if b then x else y)) ≡ (if a || b then x else y)
if-or true b x y = refl
if-or false b x y = refl

all-has-cap :
    (env : Wallets) (payload : JwtPayload) (required : List Text)
    → all (has (cap_payload_to_current_role env payload).scopes) required
      ≡ all
          (λ s.
            has payload.scopes s
            && has (resolve_scopes_for_role (resolve_role_for_wallet env payload.public_key)) s)
          required
all-has-cap env payload [] = refl
all-has-cap env payload (s ∷ ss) =
    rw (has-cap_payload_to_current_role env payload s, all-has-cap env payload ss) refl

-- A session with a wallet passes `requireScopes` for named scopes exactly when its token carries the
-- admin scope and its wallet is an admin now, or when each required scope is both in its token and
-- among those of its wallet's present role.
pub require_scopes-capped :
    (env : Wallets) (payload : JwtPayload) (required : List Text)
    → is_non_empty payload.public_key ≡ true
    → all is_non_empty required ≡ true
    → require_scopes required (some (cap_payload_to_current_role env payload)) ≡ (
        if (has payload.scopes (codes "admin:all")
            && has (parse_wallet_set env.admin_wallets) payload.public_key)
          || all
              (λ s.
                has payload.scopes s
                && has (resolve_scopes_for_role (resolve_role_for_wallet env payload.public_key)) s)
              required
        then passed tt
        else refused forbidden)
unfolding require_scopes authenticated check_scopes cap_payload_to_current_role
require_scopes-capped env payload required named wanted =
    let granted = (cap_payload_to_current_role env payload).scopes in
    rw
      (
        named,
        has-cap_payload_to_current_role env payload (codes "admin:all"),
        admin_scope env payload.public_key,
      )
      (ap
          (λ z.
            if has payload.scopes (codes "admin:all")
              && has (parse_wallet_set env.admin_wallets) payload.public_key
            then passed tt
            else z)
          (verdict-missing_scope granted required wanted
            ∙ ap (λ b. if b then passed tt else refused forbidden)
                (all-has-cap env payload required))
        ∙ if-or
            (has payload.scopes (codes "admin:all")
              && has (parse_wallet_set env.admin_wallets) payload.public_key)
            _ _ _)
