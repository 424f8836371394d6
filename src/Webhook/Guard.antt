-- ===== src/Webhook/Guard.antt =====
-- `assertSafeWebhookUrl` of backend/src/utils/webhookUrlGuard.ts. The URL parser of the runtime and
-- the resolver are parameters; the resolver also takes the time of the call, since its answers change.
pub mod Public
use ziza_lend.Common.{
  ℕ, ◌≡◌, refl, ◌⊎◌, Bool, true, false, not, ◌&&◌, ◌||◌, Option, none, some, List, [], ◌∷◌,
  if◌then◌else◌, Text, text_eq, codes, any, drop, length, ltb, is_some, ◌-◌, ◌==◌,
}
use ziza_lend.Common.Js.{has_char, to_lower}
use ziza_lend.Webhook.Address.{is_blocked_address}
use ziza_lend.Webhook.Address.Literal.{parse_ipv4, parse_ipv6, Ipv4}
use mathlib.Core.List.{map}

pub data Reason : Type 0 where
  invalid_url insecure_scheme blocked_hostname blocked_address unresolvable_host : Reason

pub record Url : Type 0 where
  pub protocol : Text
  pub hostname : Text
  pub href : Text

pub data Vetting : Type 0 where
  refused : Reason → Vetting
  vetted : Url → Vetting

unfoldable pub ends_with : Text → Text → Bool
ends_with suffix text =
    if ltb (length text) (length suffix)
    then false
    else text_eq (drop (length text - length suffix) text) suffix

-- `replace(/\]$/, '')` and the like: the last character goes when it is `c`.
unfoldable pub drop_last : ℕ → Text → Text
drop_last c [] = []
drop_last c (d ∷ []) = if d == c then [] else d ∷ []
drop_last c (d ∷ e ∷ s) = d ∷ drop_last c (e ∷ s)

unfoldable pub drop_first : ℕ → Text → Text
drop_first c [] = []
drop_first c (d ∷ s) = if d == c then s else d ∷ s

unfoldable pub strip_brackets : Text → Text
unfolding drop_last drop_first
strip_brackets hostname = drop_last b']' (drop_first b'[' hostname)

abbrev pub private_suffixes : List Text
private_suffixes =
    codes ".local"
    ∷ codes ".internal"
    ∷ codes ".home.arpa"
    ∷ codes ".lan"
    ∷ codes ".intranet"
    ∷ codes ".corp"
    ∷ []

unfoldable pub is_private_name : Text → Bool
unfolding ends_with has_char
is_private_name host =
    text_eq host []
    || text_eq host (codes "localhost")
    || ends_with (codes ".localhost") host
    || any (λ suffix. ends_with suffix host) private_suffixes
    || text_eq host (codes "metadata.google.internal")
    || text_eq host (codes "metadata.goog")
    || not (has_char b'.' host)

unfoldable pub is_blocked_hostname : Text → Bool
unfolding strip_brackets is_private_name drop_last
is_blocked_hostname hostname =
    is_private_name (drop_last b'.' (map to_lower (strip_brackets hostname)))

unfoldable pub is_address_literal : Text → Bool
unfolding strip_brackets has_char
is_address_literal hostname =
    let host = strip_brackets hostname in
    is_some (parse_ipv4 host) || is_some (parse_ipv6 host) || has_char b':' host

module _ (parse_url : Text → Option Url) (resolve_host : ℕ → Text → Option (List Text)) where
  unfoldable pub vet_answers : Url → Option (List Text) → Vetting
  vet_answers url none = refused unresolvable_host
  vet_answers url (some []) = refused unresolvable_host
  vet_answers url (some (a ∷ more)) =
      if any is_blocked_address (a ∷ more) then refused blocked_address else vetted url

  unfoldable pub vet_host : ℕ → Url → Text → Vetting
  unfolding vet_answers
  vet_host now url hostname =
      if text_eq hostname []
      then refused blocked_hostname
      else if is_address_literal hostname
      then if is_blocked_address hostname then refused blocked_address else vetted url
      else if is_blocked_hostname hostname
      then refused blocked_hostname
      else vet_answers url (resolve_host now hostname)

  unfoldable pub assert_safe_webhook_url : ℕ → Text → Vetting
  unfolding vet_host strip_brackets
  assert_safe_webhook_url now raw_url = elim (parse_url raw_url) [
    | none ↦ refused invalid_url
    | some url ↦
        if not (text_eq url.protocol (codes "https:"))
        then refused insecure_scheme
        else vet_host now url (map to_lower (strip_brackets url.hostname))
  ]
