-- ===== src/Network/Address.antt =====
-- Which addresses are public: browser/public_network.go. An address of `net/netip` is a number of 32 or
-- 128 bits, the second with a zone; of the package the code uses `Unmap`, `IsGlobalUnicast` and
-- `Prefix.Contains`.
use deepwork_browser.Prelude.{
  ℕ, ◌+◌, ◌-◌, ◌*◌, ◌/◌, ◌%◌, ◌^◌, String, Bool, true, false, not, ◌&&◌, ◌||◌, List, [], ◌∷◌,
  if◌then◌else◌, any, nat_eq, ◌==◌,
}

pub data Address : Type 0 where
  invalid : Address
  v4 : ℕ → Address
  v6 : ℕ → String → Address

abbrev pub unmap : Address → Address
unmap (v6 n zone) = if nat_eq (n / 2 ^ 32) 65_535 then v4 (n % 2 ^ 32) else v6 n zone
unmap a = a

-- The width in bits, an address of it, and how many bits count.
pub record Prefix : Type 0 where
  pub width : ℕ
  pub base : ℕ
  pub bits : ℕ

abbrev pub prefix4 : ℕ → ℕ → ℕ → ℕ → ℕ → Prefix
prefix4 a b c d bits = record {
  width = 32;
  base = ((a * 256 + b) * 256 + c) * 256 + d;
  bits = bits;
}

-- The first three groups of sixteen bits, the others being 0.
abbrev pub prefix6 : ℕ → ℕ → ℕ → ℕ → Prefix
prefix6 a b c bits = record {
  width = 128;
  base = ((a * 2 ^ 16 + b) * 2 ^ 16 + c) * 2 ^ 80;
  bits = bits;
}

abbrev pub in_prefix : ℕ → ℕ → Prefix → Bool
in_prefix width n p =
    nat_eq width p.width && nat_eq (n / 2 ^ (width - p.bits)) (p.base / 2 ^ (width - p.bits))

-- A zone is in no prefix.
abbrev pub contains : Address → Prefix → Bool
contains invalid p = false
contains (v4 n) p = in_prefix 32 n p
contains (v6 n zone) p = zone == "" && in_prefix 128 n p

abbrev pub public_denied_prefixes : List Prefix
public_denied_prefixes =
    prefix4 0 0 0 0 8
    ∷ prefix4 10 0 0 0 8
    ∷ prefix4 100 64 0 0 10
    ∷ prefix4 127 0 0 0 8
    ∷ prefix4 169 254 0 0 16
    ∷ prefix4 172 16 0 0 12
    ∷ prefix4 192 0 0 0 24
    ∷ prefix4 192 0 2 0 24
    ∷ prefix4 192 88 99 0 24
    ∷ prefix4 192 168 0 0 16
    ∷ prefix4 198 18 0 0 15
    ∷ prefix4 198 51 100 0 24
    ∷ prefix4 203 0 113 0 24
    ∷ prefix4 224 0 0 0 4
    ∷ prefix4 240 0 0 0 4
    ∷ prefix6 0 0 0 96
    ∷ prefix6 0x64 0xff9b 0 96
    ∷ prefix6 0x64 0xff9b 1 48
    ∷ prefix6 0x100 0 0 64
    ∷ prefix6 0x2001 0 0 23
    ∷ prefix6 0x2001 0xdb8 0 32
    ∷ prefix6 0x2002 0 0 16
    ∷ prefix6 0x3ffe 0 0 16
    ∷ prefix6 0x3fff 0 0 20
    ∷ prefix6 0x5f00 0 0 16
    ∷ prefix6 0xfc00 0 0 7
    ∷ prefix6 0xfe80 0 0 10
    ∷ prefix6 0xff00 0 0 8
    ∷ []

abbrev pub public_ipv6_allocated_prefixes : List Prefix
public_ipv6_allocated_prefixes =
    prefix6 0x2001 0x200 0 23
    ∷ prefix6 0x2001 0x400 0 23
    ∷ prefix6 0x2001 0x600 0 23
    ∷ prefix6 0x2001 0x800 0 22
    ∷ prefix6 0x2001 0xc00 0 23
    ∷ prefix6 0x2001 0xe00 0 23
    ∷ prefix6 0x2001 0x1200 0 23
    ∷ prefix6 0x2001 0x1400 0 22
    ∷ prefix6 0x2001 0x1800 0 23
    ∷ prefix6 0x2001 0x1a00 0 23
    ∷ prefix6 0x2001 0x1c00 0 22
    ∷ prefix6 0x2001 0x2000 0 19
    ∷ prefix6 0x2001 0x4000 0 23
    ∷ prefix6 0x2001 0x4200 0 23
    ∷ prefix6 0x2001 0x4400 0 23
    ∷ prefix6 0x2001 0x4600 0 23
    ∷ prefix6 0x2001 0x4800 0 23
    ∷ prefix6 0x2001 0x4a00 0 23
    ∷ prefix6 0x2001 0x4c00 0 23
    ∷ prefix6 0x2001 0x5000 0 20
    ∷ prefix6 0x2001 0x8000 0 19
    ∷ prefix6 0x2001 0xa000 0 20
    ∷ prefix6 0x2001 0xb000 0 20
    ∷ prefix6 0x2003 0 0 18
    ∷ prefix6 0x2400 0 0 12
    ∷ prefix6 0x2410 0 0 12
    ∷ prefix6 0x2600 0 0 12
    ∷ prefix6 0x2610 0 0 23
    ∷ prefix6 0x2620 0 0 23
    ∷ prefix6 0x2630 0 0 12
    ∷ prefix6 0x2800 0 0 12
    ∷ prefix6 0x2a00 0 0 12
    ∷ prefix6 0x2a10 0 0 12
    ∷ prefix6 0x2c00 0 0 12
    ∷ []

abbrev is_loopback : Address → Bool
is_loopback invalid = false
is_loopback (v4 n) = nat_eq (n / 2 ^ 24) 127
is_loopback (v6 n zone) = nat_eq n 1

abbrev is_multicast : Address → Bool
is_multicast invalid = false
is_multicast (v4 n) = nat_eq (n / 2 ^ 28) 14
is_multicast (v6 n zone) = nat_eq (n / 2 ^ 120) 0xff

abbrev is_link_local_unicast : Address → Bool
is_link_local_unicast invalid = false
is_link_local_unicast (v4 n) = nat_eq (n / 2 ^ 16) (169 * 256 + 254)
is_link_local_unicast (v6 n zone) = nat_eq (n / 2 ^ 118) (0xfe80 / 2 ^ 6)

abbrev is_unspecified : Address → Bool
is_unspecified invalid = false
is_unspecified (v4 n) = nat_eq n 0 || nat_eq n (2 ^ 32 - 1)
is_unspecified (v6 n zone) = nat_eq n 0 && zone == ""

abbrev is_global_unicast : Address → Bool
is_global_unicast invalid = false
is_global_unicast a =
    not (is_unspecified a || is_loopback a || is_multicast a || is_link_local_unicast a)

abbrev has_no_zone : Address → Bool
has_no_zone invalid = false
has_no_zone (v4 n) = true
has_no_zone (v6 n zone) = zone == ""

abbrev is_allocated : Address → Bool
is_allocated (v6 n zone) = any (contains (v6 n zone)) public_ipv6_allocated_prefixes
is_allocated a = true

abbrev pub is_public_unmapped : Address → Bool
is_public_unmapped a =
    is_global_unicast a && is_allocated a && not (any (contains a) public_denied_prefixes)

unfoldable pub is_public_ip : Address → Bool
is_public_ip a = has_no_zone a && is_public_unmapped (unmap a)

unfoldable pub public_port_allowed : ℕ → List ℕ → Bool
public_port_allowed port [] = nat_eq port 80 || nat_eq port 443
public_port_allowed port allowed = any (λ p. nat_eq p port && not (nat_eq p 0)) allowed
