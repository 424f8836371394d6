-- ===== src/Auth/Roles.antt =====
-- backend/src/auth/rbac.ts. The environment's wallet lists are arguments.
use ziza_lend.Common.{
  Bool, true, false, Option, none, some, List, [], ◌∷◌, map, if◌then◌else◌, Text, text_eq, codes,
  any, filter,
}
use ziza_lend.Common.Js.{trim, split}

pub data UserRole : Type 0 where
  admin borrower lender : UserRole

unfoldable pub role_scopes : UserRole → List Text
role_scopes admin = codes "admin:all" ∷ []
role_scopes borrower =
    codes "read:loans"
    ∷ codes "write:loans"
    ∷ codes "read:score"
    ∷ codes "read:notifications"
    ∷ codes "write:notifications"
    ∷ codes "read:remittances"
    ∷ codes "write:remittances"
    ∷ []
role_scopes lender = codes "read:loans" ∷ codes "read:pool" ∷ codes "write:loans" ∷ []

-- `Set.has` and `Array.includes` on strings.
abbrev pub has : List Text → Text → Bool
has set x = any (λ y. text_eq y x) set

abbrev pub is_non_empty : Text → Bool
is_non_empty [] = false
is_non_empty (c ∷ s) = true

unfoldable pub parse_wallet_set : Option Text → List Text
unfolding trim split
parse_wallet_set none = []
parse_wallet_set (some []) = []
parse_wallet_set (some (c ∷ s)) = filter is_non_empty (map trim (split b',' (c ∷ s)))

-- `ADMIN_WALLETS` and `LENDER_WALLETS`.
pub record Wallets : Type 0 where
  pub admin_wallets : Option Text
  pub lender_wallets : Option Text

unfoldable pub resolve_role_for_wallet : Wallets → Text → UserRole
unfolding parse_wallet_set
resolve_role_for_wallet env public_key =
    if has (parse_wallet_set env.admin_wallets) public_key
    then admin
    else if has (parse_wallet_set env.lender_wallets) public_key
    then lender
    else borrower

-- Both branches of the source return the role's own scopes.
unfoldable pub resolve_scopes_for_role : UserRole → List Text
unfolding role_scopes
resolve_scopes_for_role role = role_scopes role
