-- ===== src/Webhook/Address/Embedded.antt =====
-- IPv6 addresses that carry an IPv4 address in their last two groups.
use ziza_lend.Common.{ℕ, ◌+◌, ◌*◌, ◌<◌, ◌≡◌, refl, ◌∙◌, ap, false, arith, any}
use ziza_lend.Webhook.Address.{is_blocked_groups, embedded}
use ziza_lend.Webhook.Address.Ranges.{
  number_of, IsIpv4, is_blocked_ipv4-eq-any, in_block, special_blocks,
}

embedded-IsIpv4 : (g₆ g₇ : ℕ) → g₆ < 65536 → g₇ < 65536 → IsIpv4 (embedded g₆ g₇)
embedded-IsIpv4 g₆ g₇ h k = record {
  in_a = omega (arith, h);
  in_b = omega (arith);
  in_c = omega (arith, k);
  in_d = omega (arith);
}

number_of-embedded : (g₆ g₇ : ℕ) → number_of (embedded g₆ g₇) ≡ g₆ * 65536 + g₇
number_of-embedded g₆ g₇ = omega (arith)

-- An IPv4-mapped address (`::ffff:a.b.c.d`) is blocked exactly when the IPv4 address in its last two
-- groups lies in a special-purpose block.
pub is_blocked_groups-mapped :
    (g₆ g₇ : ℕ)
    → g₆ < 65536
    → g₇ < 65536
    → is_blocked_groups 0 0 0 0 0 0xffff g₆ g₇ ≡ any (in_block (g₆ * 65536 + g₇)) special_blocks
unfolding is_blocked_groups
is_blocked_groups-mapped g₆ g₇ h k =
    is_blocked_ipv4-eq-any (embedded g₆ g₇) (embedded-IsIpv4 g₆ g₇ h k)
    ∙ ap (λ n. any (in_block n) special_blocks) (number_of-embedded g₆ g₇)

-- An IPv4-translated address (`::ffff:0:a.b.c.d`) is accepted whatever IPv4 address it carries, also
-- a loopback or a private one.
pub translated-passes : (g₆ g₇ : ℕ) → is_blocked_groups 0 0 0 0 0xffff 0 g₆ g₇ ≡ false
unfolding is_blocked_groups
translated-passes g₆ g₇ = refl
