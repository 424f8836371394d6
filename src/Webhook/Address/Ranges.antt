-- ===== src/Webhook/Address/Ranges.antt =====
-- The IPv4 rules against the registry of special-purpose address blocks, each a first address and a
-- prefix length.
use ziza_lend.Common.{
  ℕ, ◌+◌, ◌-◌, ◌*◌, ◌/◌, ◌^◌, ◌<◌, ◌≡◌, refl, Bool, true, false, ◌&&◌, ◌||◌, List, [], ◌∷◌, arith,
  leb, ◌==◌, any,
}
use ziza_lend.Webhook.Address.{is_blocked_ipv4}
use ziza_lend.Webhook.Address.Literal.{Ipv4}

pub record IsIpv4 (ip : Ipv4) : Type 0 where
  pub in_a : ip.a < 256
  pub in_b : ip.b < 256
  pub in_c : ip.c < 256
  pub in_d : ip.d < 256

-- The address as a 32-bit number.
abbrev pub number_of : Ipv4 → ℕ
number_of ip = ip.a * 2 ^ 24 + ip.b * 2 ^ 16 + ip.c * 2 ^ 8 + ip.d

abbrev pub dotted : ℕ → ℕ → ℕ → ℕ → ℕ
dotted a b c d = a * 2 ^ 24 + b * 2 ^ 16 + c * 2 ^ 8 + d

-- A block: its first address, and how many leading bits its addresses share.
pub record Block : Type 0 where
  pub base : ℕ
  pub prefix : ℕ

abbrev block : ℕ → ℕ → ℕ → ℕ → ℕ → Block
block a b c d prefix = record { base = dotted a b c d; prefix = prefix }

abbrev pub in_block : ℕ → Block → Bool
in_block n b = n / 2 ^ (32 - b.prefix) == b.base / 2 ^ (32 - b.prefix)

abbrev pub special_blocks : List Block
special_blocks =
    block 0 0 0 0 8
    ∷ block 10 0 0 0 8
    ∷ block 127 0 0 0 8
    ∷ block 169 254 0 0 16
    ∷ block 172 16 0 0 12
    ∷ block 192 168 0 0 16
    ∷ block 100 64 0 0 10
    ∷ block 192 0 0 0 24
    ∷ block 192 0 2 0 24
    ∷ block 192 88 99 0 24
    ∷ block 198 18 0 0 15
    ∷ block 198 51 100 0 24
    ∷ block 203 0 113 0 24
    ∷ block 224 0 0 0 3
    ∷ []

or_false : (b : Bool) → (b || false) ≡ b
or_false true = refl
or_false false = refl

or_assoc : (a b c : Bool) → ((a || b) || c) ≡ (a || (b || c))
or_assoc true _ _ = refl
or_assoc false _ _ = refl

module _ (ip : Ipv4) (v : IsIpv4 ip) where
  in_8 : (x : ℕ) → (number_of ip / 2 ^ 24 == x) ≡ (ip.a == x)
  in_8 x = ground (arith, v.in_a, v.in_b, v.in_c, v.in_d)

  top_16 : number_of ip / 2 ^ 16 ≡ ip.a * 256 + ip.b
  top_16 = omega (arith, v.in_a, v.in_b, v.in_c, v.in_d)

  top_24 : number_of ip / 2 ^ 8 ≡ ip.a * 65536 + ip.b * 256 + ip.c
  top_24 = omega (arith, v.in_a, v.in_b, v.in_c, v.in_d)

  in_16 : (x y : ℕ) → y < 256 → (number_of ip / 2 ^ 16 == x * 256 + y) ≡ (ip.a == x && ip.b == y)
  in_16 x y h = rw top_16 (ground (arith, v.in_b))

  in_24 :
      (x y z : ℕ)
      → y < 256
      → z < 256
      → (number_of ip / 2 ^ 8 == x * 65536 + y * 256 + z) ≡ (ip.a == x && ip.b == y && ip.c == z)
  in_24 x y z h k = rw top_24 (ground (arith, v.in_b, v.in_c))

  in_12 : (number_of ip / 2 ^ 20 == 2753) ≡ (ip.a == 172 && leb 16 ip.b && leb ip.b 31)
  in_12 = ground (arith, v.in_b, v.in_c, v.in_d)

  in_10 : (number_of ip / 2 ^ 22 == 401) ≡ (ip.a == 100 && leb 64 ip.b && leb ip.b 127)
  in_10 = ground (arith, v.in_b, v.in_c, v.in_d)

  in_15 : (number_of ip / 2 ^ 17 == 25353) ≡ (ip.a == 198 && (ip.b == 18 || ip.b == 19))
  in_15 = ground (arith, v.in_b, v.in_c, v.in_d)

  in_3 : (number_of ip / 2 ^ 29 == 7) ≡ leb 224 ip.a
  in_3 = ground (arith, v.in_a, v.in_b, v.in_c, v.in_d)

-- An IPv4 address is blocked exactly when it lies in one of the special-purpose blocks.
pub is_blocked_ipv4-eq-any :
    (ip : Ipv4) → IsIpv4 ip → is_blocked_ipv4 ip ≡ any (in_block (number_of ip)) special_blocks
unfolding is_blocked_ipv4
is_blocked_ipv4-eq-any ip v =
    rw
      (
        in_8 ip v 0,
        in_8 ip v 10,
        in_8 ip v 127,
        in_16 ip v 169 254 (omega arith),
        in_12 ip v,
        in_16 ip v 192 168 (omega arith),
        in_10 ip v,
        in_24 ip v 192 0 0 (omega arith) (omega arith),
        in_24 ip v 192 0 2 (omega arith) (omega arith),
        in_24 ip v 192 88 99 (omega arith) (omega arith),
        in_15 ip v,
        in_24 ip v 198 51 100 (omega arith) (omega arith),
        in_24 ip v 203 0 113 (omega arith) (omega arith),
        in_3 ip v,
        or_false (leb 224 ip.a),
      )
      (simp (or_assoc))
