-- ===== src/Webhook/Guard/Public.antt =====
-- What the guard vouches for: the places of the public internet that an address may name.
use ziza_lend.Common.{
  ◌≡◌, ◌⊎◌, true, false, Option, none, some, List, [], ◌∷◌, Text, text_eq, any, All,
}
use ziza_lend.Webhook.Address.{is_blocked_address}
use ziza_lend.Webhook.Address.Literal.{Ipv4, parse_ipv4}
use ziza_lend.Webhook.Address.Ranges.{number_of, in_block, special_blocks}
use ziza_lend.Webhook.Guard.{is_blocked_hostname, is_address_literal}

-- The address is not blocked; and an IPv4 address lies in none of the special-purpose blocks, as the registry
-- lists them.
abbrev pub IsOutside : Option Ipv4 → Type 0
IsOutside none = Unit
IsOutside (some ip) = any (in_block (number_of ip)) special_blocks ≡ false

abbrev pub IsPublicAddress : Text → Type 0
IsPublicAddress address = (is_blocked_address address ≡ false) × IsOutside (parse_ipv4 address)

-- A host name that the resolver gives one or more addresses, none of them blocked.
pub record IsPublicName (answers : Option (List Text)) (hostname : Text) : Type 0 where
  pub allowed : is_blocked_hostname hostname ≡ false
  pub first : Text
  pub others : List Text
  pub answered : answers ≡ some (first ∷ others)
  pub all_public : All IsPublicAddress (first ∷ others)

abbrev pub IsPublicHost : Option (List Text) → Text → Type 0
IsPublicHost answers hostname =
    text_eq hostname [] ≡ false
    × ((is_address_literal hostname ≡ true × IsPublicAddress hostname)
        ⊎ (is_address_literal hostname ≡ false × IsPublicName answers hostname))
