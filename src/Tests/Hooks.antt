-- ===== src/Tests/Hooks.antt =====
-- The webhook guard and a delivery at concrete addresses.
use ziza_lend.Common.{
  ℕ, ◌≤◌, ◌≡◌, refl, none, some, Option, List, [], ◌∷◌, arith, Text, codes, text_eq, true, false,
  All, length, any,
}
use ziza_lend.Common.Js.{split, has_char, to_lower, digits_value}
use ziza_lend.Webhook.Address.{
  is_blocked_ipv4, is_blocked_groups, is_blocked_ipv6, is_blocked_address,
}
use ziza_lend.Webhook.Address.Literal.{
  Ipv4, ipv4_of_parts, parse_ipv4, parse_ipv6, before_scope, cut_last_colon, fold_ipv4, hex16,
  groups_of_parts, parse_groups, split_double, join_groups, groups_of_sections,
}
use ziza_lend.Webhook.Address.Ranges.{is_blocked_ipv4-eq-any, number_of, in_block, special_blocks}
use ziza_lend.Webhook.Guard.{
  Url, blocked_address, ends_with, drop_last, drop_first, strip_brackets, is_private_name,
  is_blocked_hostname, is_address_literal, vet_answers, vet_host, assert_safe_webhook_url,
}
use ziza_lend.Webhook.Delivery.{Response, unsafe_url, redirect_target, follow, post_webhook}
use ziza_lend.Webhook.Delivery.Vetted.{IsVetted, post_webhook-IsVetted}

guard : Unit {0}
unfolding is_blocked_ipv4 is_blocked_groups is_blocked_ipv6 is_blocked_address ipv4_of_parts
    parse_ipv4 parse_ipv6 before_scope cut_last_colon fold_ipv4 hex16 groups_of_parts parse_groups
    split_double join_groups groups_of_sections ends_with drop_last drop_first strip_brackets
    is_private_name is_blocked_hostname is_address_literal vet_answers vet_host
    assert_safe_webhook_url redirect_target follow post_webhook split has_char to_lower digits_value
    text_eq
guard = tt

metadata : is_blocked_address (codes "169.254.169.254") ≡ true
unfolding guard
metadata = refl

public_ipv6 : is_blocked_address (codes "2606:4700::6810:85e5") ≡ false
unfolding guard
public_ipv6 = refl

mapped_loopback : is_blocked_address (codes "::ffff:127.0.0.1") ≡ true
unfolding guard
mapped_loopback = refl

translated_loopback : is_blocked_address (codes "::ffff:0:127.0.0.1") ≡ false
unfolding guard
translated_loopback = refl

abbrev localhost : Ipv4
localhost = record { a = 127; b = 0; c = 0; d = 1 }

is_blocked_ipv4-eq-any_example :
    is_blocked_ipv4 localhost ≡ any (in_block (number_of localhost)) special_blocks
is_blocked_ipv4-eq-any_example =
    is_blocked_ipv4-eq-any localhost
      (record { in_a = omega arith; in_b = omega arith; in_c = omega arith; in_d = omega arith })

-- A parser of the addresses `https://<host>`.
parse_https : Text → Option Url
parse_https (h ∷ t₁ ∷ t₂ ∷ p ∷ s ∷ colon ∷ s₁ ∷ s₂ ∷ host) = some (record {
  protocol = h ∷ t₁ ∷ t₂ ∷ p ∷ s ∷ colon ∷ [];
  hostname = host;
  href = h ∷ t₁ ∷ t₂ ∷ p ∷ s ∷ colon ∷ s₁ ∷ s₂ ∷ host;
})
parse_https _ = none

resolve_public : ℕ → Text → Option (List Text)
resolve_public now host = some (codes "93.184.216.34" ∷ [])

abbrev hook : Text
hook = codes "https://hooks.example.com"

abbrev hook_url : Url
hook_url = record { protocol = codes "https:"; hostname = codes "hooks.example.com"; href = hook }

-- The first reply sends on to the metadata service.
fetch_once : ℕ → Text → Option Response
fetch_once n url = some (record { status = 302; location = some (codes "https://169.254.169.254") })

abbrev join : Text → Text → Option Text
join location base = some location

redirected :
    post_webhook parse_https resolve_public join fetch_once hook
    ≡ record { fetched = hook ∷ []; outcome = unsafe_url blocked_address }
unfolding guard parse_https resolve_public fetch_once
redirected = refl

post_webhook-IsVetted_example :
    All
      (IsVetted parse_https resolve_public join fetch_once)
      (post_webhook parse_https resolve_public join fetch_once hook).fetched
    × (length (post_webhook parse_https resolve_public join fetch_once hook).fetched ≤ 6)
post_webhook-IsVetted_example =
    post_webhook-IsVetted parse_https resolve_public join fetch_once hook
