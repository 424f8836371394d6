-- ===== src/Tests/Access.antt =====
-- Sessions and list parameters at concrete inputs.
use ziza_lend.Common.{
  ℕ, ◌≡◌, refl, none, some, Option, [], ◌∷◌, arith, Text, codes, text_eq, Bool, true, false, ◌&&◌,
  ◌||◌, all, if◌then◌else◌, leb,
}
use ziza_lend.Common.Js.{trim, split, nat_text}
use ziza_lend.Cache.{Codec}
use ziza_lend.Auth.Roles.{
  UserRole, Wallets, role_scopes, has, parse_wallet_set, resolve_role_for_wallet,
  resolve_scopes_for_role,
}
use ziza_lend.Auth.Session.{
  JwtPayload, refused, passed, forbidden, cap_payload_to_current_role, presented_token,
  extract_bearer_token, extract_cookie_token, find_cookie, cookie_value, join_parts,
}
use ziza_lend.Auth.Guards.{require_scopes, authenticated, check_scopes, missing_scope}
use ziza_lend.Auth.Scopes.{require_scopes-capped}
use ziza_lend.Pagination.{Query, text, other}

access : Unit {0}
unfolding trim split role_scopes parse_wallet_set resolve_role_for_wallet resolve_scopes_for_role
    cap_payload_to_current_role require_scopes authenticated check_scopes missing_scope text_eq
    extract_bearer_token extract_cookie_token find_cookie cookie_value join_parts presented_token
access = tt

-- A wallet that was an admin when its token was made, and is a lender now.
abbrev env : Wallets
env = record { admin_wallets = some (codes "GA, GB"); lender_wallets = some (codes "GC") }

abbrev old_admin : JwtPayload
old_admin = record {
  public_key = codes "GC";
  role = UserRole.admin;
  scopes = codes "admin:all" ∷ codes "read:pool" ∷ [];
  jti = codes "t1";
  iat = 0;
  exp = 86400;
}

demoted :
    require_scopes (codes "write:score" ∷ []) (some (cap_payload_to_current_role env old_admin))
    ≡ refused forbidden
unfolding access
demoted = refl

require_scopes-capped_example :
    require_scopes (codes "read:pool" ∷ []) (some (cap_payload_to_current_role env old_admin)) ≡ (
      if (has old_admin.scopes (codes "admin:all")
          && has (parse_wallet_set env.admin_wallets) old_admin.public_key)
        || all
            (λ s.
              has old_admin.scopes s
              && has (resolve_scopes_for_role (resolve_role_for_wallet env old_admin.public_key)) s)
            (codes "read:pool" ∷ [])
      then passed tt
      else refused forbidden)
require_scopes-capped_example =
    require_scopes-capped env old_admin (codes "read:pool" ∷ []) refl refl

decode_cookie : Text → Option Text
decode_cookie v = some v

cookie_session :
    presented_token env
      (codes "ZizaLend_jwt")
      decode_cookie
      (λ t. none)
      (λ t. false)
      (record { authorization = none; cookie = some (codes "a=b; ZizaLend_jwt=x=y"); user = none })
    ≡ some (codes "x=y")
unfolding access decode_cookie
cookie_session = refl

decode_flag : Text → Option Bool
decode_flag (c ∷ []) = some (leb 1 c)
decode_flag _ = none

decode-flag : (b : Bool) → decode_flag ((if b then 1 else 0) ∷ []) ≡ some b
unfolding decode_flag
decode-flag true = refl
decode-flag false = refl

abbrev flags : Codec Bool
flags = record {
  encode = λ b. (if b then 1 else 0) ∷ [];
  decode = decode_flag;
  decode-encode = decode-flag;
}

abbrev blank : Query
blank = record {
  limit = text (nat_text 25);
  offset = text (nat_text 75);
  cursor = other;
  sort = text (codes " -amount ");
  status = other;
  date_range = text (codes "5,3");
  amount_range = other;
}

length_of : Text → Option ℕ
length_of [] = none
length_of (c ∷ s) = some c

leb-total : (a b : ℕ) → leb a b ≡ false → leb b a ≡ true
leb-total a b h = ground arith
