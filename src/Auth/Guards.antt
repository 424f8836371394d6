-- ===== src/Auth/Guards.antt =====
-- The guards of backend/src/middleware/jwtAuth.ts that read a request's session.
use ziza_lend.Common.{
  Bool, true, false, not, ◌&&◌, Option, none, some, List, [], ◌∷◌, if◌then◌else◌, Text, text_eq,
  codes, any,
}
use ziza_lend.Auth.Roles.{UserRole, admin, borrower, lender, has, is_non_empty}
use ziza_lend.Auth.Session.{
  JwtPayload, Checked, refused, passed, authentication_required, wallet_required, forbidden,
}

unfoldable pub same_role : UserRole → UserRole → Bool
same_role admin admin = true
same_role borrower borrower = true
same_role lender lender = true
same_role _ _ = false

-- `if (!req.user?.publicKey) throw`, then the rest of the guard.
unfoldable pub authenticated :
    {A : Type 0} → Option JwtPayload → (JwtPayload → Checked A) → Checked A
authenticated none rest = refused authentication_required
authenticated (some user) rest =
    if is_non_empty user.public_key then rest user else refused authentication_required

unfoldable pub match_wallet : Option Text → JwtPayload → Checked Unit
match_wallet none user = refused wallet_required
match_wallet (some []) user = refused wallet_required
match_wallet (some (c ∷ s)) user =
    if text_eq (c ∷ s) user.public_key then passed tt else refused forbidden

-- `a ?? b`.
abbrev pub or_else : Option Text → Option Text → Option Text
or_else (some a) b = some a
or_else none b = b

unfoldable pub require_wallet_ownership :
    Option Text → Option Text → Option Text → Option JwtPayload → Checked Unit
unfolding authenticated match_wallet
require_wallet_ownership param_borrower param_wallet body_wallet user =
    authenticated user (match_wallet (or_else param_borrower (or_else param_wallet body_wallet)))

unfoldable pub require_wallet_param_matches_jwt : Option Text → Option JwtPayload → Checked Unit
unfolding authenticated match_wallet
require_wallet_param_matches_jwt requested user = authenticated user (match_wallet requested)

unfoldable pub require_roles : List UserRole → Option JwtPayload → Checked Unit
unfolding authenticated same_role
require_roles roles user =
    authenticated user
      (λ u. if any (λ r. same_role r u.role) roles then passed tt else refused forbidden)

unfoldable pub require_borrower : Option JwtPayload → Checked Unit
unfolding authenticated same_role
require_borrower user = authenticated user (λ u.
    if not (same_role u.role borrower) && not (same_role u.role admin)
    then refused forbidden
    else passed tt)

unfoldable pub require_lender : Option JwtPayload → Checked Unit
unfolding authenticated same_role
require_lender user = authenticated user (λ u.
    if not (same_role u.role lender) && not (same_role u.role admin)
    then refused forbidden
    else passed tt)

-- `requiredScopes.find((scope) => !grantedScopes.has(scope))`.
unfoldable pub missing_scope : List Text → List Text → Option Text
missing_scope granted [] = none
missing_scope granted (s ∷ ss) =
    let rest = missing_scope granted ss in if has granted s then rest else some s

-- A missing scope that is the empty string is not reported.
unfoldable pub check_scopes : List Text → JwtPayload → Checked Unit
unfolding missing_scope
check_scopes required user =
    if has user.scopes (codes "admin:all")
    then passed tt
    else elim (missing_scope user.scopes required) [
      | none ↦ passed tt
      | some [] ↦ passed tt
      | some (c ∷ s) ↦ refused forbidden
    ]

unfoldable pub require_scopes : List Text → Option JwtPayload → Checked Unit
unfolding authenticated check_scopes
require_scopes required user = authenticated user (check_scopes required)
