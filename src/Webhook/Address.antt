-- ===== src/Webhook/Address.antt =====
-- The address rules of backend/src/utils/webhookUrlGuard.ts: which address literals are outside the
-- public internet. A bit mask is written as the division that it is on a 16-bit group.
pub mod Literal
pub mod Ranges
pub mod Embedded
use ziza_lend.Common.{
  ℕ, ◌+◌, ◌-◌, ◌*◌, ◌/◌, ◌%◌, Bool, true, false, not, ◌&&◌, ◌||◌, Option, none, some, List, [], ◌∷◌,
  ltb, leb, ◌==◌, if◌then◌else◌, Text,
}
use Literal.{Ipv4, parse_ipv4, parse_ipv6}

-- The tests of the IPv4 branch, in the source's order.
unfoldable pub is_blocked_ipv4 : Ipv4 → Bool
is_blocked_ipv4 ip =
    ip.a == 0
    || ip.a == 10
    || ip.a == 127
    || (ip.a == 169 && ip.b == 254)
    || (ip.a == 172 && leb 16 ip.b && leb ip.b 31)
    || (ip.a == 192 && ip.b == 168)
    || (ip.a == 100 && leb 64 ip.b && leb ip.b 127)
    || (ip.a == 192 && ip.b == 0 && ip.c == 0)
    || (ip.a == 192 && ip.b == 0 && ip.c == 2)
    || (ip.a == 192 && ip.b == 88 && ip.c == 99)
    || (ip.a == 198 && (ip.b == 18 || ip.b == 19))
    || (ip.a == 198 && ip.b == 51 && ip.c == 100)
    || (ip.a == 203 && ip.b == 0 && ip.c == 113)
    || leb 224 ip.a

-- The IPv4 address in the last two groups. The source prints it and reads it again.
abbrev pub embedded : ℕ → ℕ → Ipv4
embedded g₆ g₇ = record { a = g₆ / 256; b = g₆ % 256; c = g₇ / 256; d = g₇ % 256 }

-- The tests of the IPv6 branch on the eight groups.
unfoldable pub is_blocked_groups : ℕ → ℕ → ℕ → ℕ → ℕ → ℕ → ℕ → ℕ → Bool
is_blocked_groups g₀ g₁ g₂ g₃ g₄ g₅ g₆ g₇ =
    let zero_to_4 = g₀ == 0 && g₁ == 0 && g₂ == 0 && g₃ == 0 && g₄ == 0 in
    if zero_to_4 && g₅ == 0 && g₆ == 0 && g₇ == 0
    then true
    else if zero_to_4 && g₅ == 0 && g₆ == 0 && g₇ == 1
    then true
    else if g₀ / 512 * 512 == 0xfc00
    then true
    else if g₀ / 64 * 64 == 0xfe80
    then true
    else if g₀ / 256 * 256 == 0xff00
    then true
    else if zero_to_4 && (g₅ == 0xffff || (g₅ == 0 && not (g₆ == 0)))
    then is_blocked_ipv4 (embedded g₆ g₇)
    else g₅ == 0xffff && g₁ == 0

-- A list that is not eight groups is no IPv6 address.
unfoldable pub is_blocked_ipv6 : List ℕ → Bool
is_blocked_ipv6 (g₀ ∷ g₁ ∷ g₂ ∷ g₃ ∷ g₄ ∷ g₅ ∷ g₆ ∷ g₇ ∷ []) =
    is_blocked_groups g₀ g₁ g₂ g₃ g₄ g₅ g₆ g₇
is_blocked_ipv6 _ = true

-- What is no address literal is blocked too.
unfoldable pub is_blocked_address : Text → Bool
is_blocked_address address = elim (parse_ipv4 address) [
  | some ip ↦ is_blocked_ipv4 ip
  | none ↦ elim (parse_ipv6 address) [ some groups ↦ is_blocked_ipv6 groups | none ↦ true ]
]
