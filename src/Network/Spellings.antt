-- ===== src/Network/Spellings.antt =====
-- No spelling of an internal address is public: browser/public_network.go.
use deepwork_browser.Prelude.{
  ◌%◌, zero, suc, List, [], ◌∷◌, Option, none, some, any, ap, ◌∙◌, ℕ, ◌+◌, ◌*◌, ◌/◌, ◌^◌, ◌≤◌, ◌<◌,
  Bool, true, false, ◌≡◌, ◌⊎◌, inl, inr, refl, arith, nat_eq,
}
use deepwork_browser.Network.Address.{
  Address, v4, v6, is_public_ip, is_public_unmapped, Prefix, prefix4, prefix6, contains,
  public_denied_prefixes, unmap,
}

abbrev nth {ℓ} : {A : Type ℓ} → ℕ → List A → Option A
nth i [] = none
nth zero (x ∷ xs) = some x
nth (suc i) (x ∷ xs) = nth i xs

abbrev is_some_with {ℓ} : {A : Type ℓ} → (A → Bool) → Option A → Bool
is_some_with p none = false
is_some_with p (some x) = p x

some_is {ℓ} : {A : Type ℓ} (p : A → Bool) (x y : A) → some x ≡ some y → p y ≡ true → p x ≡ true
some_is p x y e h = ap (is_some_with p) e ∙ h

any-nth {ℓ} :
    {A : Type ℓ} (p : A → Bool) (i : ℕ) (xs : List A) (x : A)
    → nth i xs ≡ some x
    → p x ≡ true
    → any p xs ≡ true
any-nth p i [] x e h = ground (arith, e)
any-nth p zero (y ∷ xs) x e h = rw (some_is p y x e h) refl
any-nth p (suc i) (y ∷ xs) x e h = rw (any-nth p i xs x e h) (ground arith)

denied :
    (a : Address) → any (contains a) public_denied_prefixes ≡ true → is_public_unmapped a ≡ false
denied a h = rw h (ground arith)

-- The networks of a machine, a site or a carrier, by their first and last addresses.
abbrev pub Internal : ℕ → Type 0
Internal n =
    (n ≤ 0x00ffffff)
    ⊎ ((0x0a000000 ≤ n) × (n ≤ 0x0affffff))
    ⊎ ((0x64400000 ≤ n) × (n ≤ 0x647fffff))
    ⊎ ((0x7f000000 ≤ n) × (n ≤ 0x7fffffff))
    ⊎ ((0xa9fe0000 ≤ n) × (n ≤ 0xa9feffff))
    ⊎ ((0xac100000 ≤ n) × (n ≤ 0xac1fffff))
    ⊎ ((0xc0a80000 ≤ n) × (n ≤ 0xc0a8ffff))

-- Its number among the prefixes, and the prefix.
denied_at :
    (i : ℕ) (p : Prefix) (a : Address)
    → nth i public_denied_prefixes ≡ some p
    → contains a p ≡ true
    → is_public_unmapped a ≡ false
denied_at i p a e h = denied a (any-nth (contains a) i public_denied_prefixes p e h)

is_public_unmapped-v4 : (n : ℕ) → Internal n → is_public_unmapped (v4 n) ≡ false
is_public_unmapped-v4 n (inl h) = denied_at 0 (prefix4 0 0 0 0 8) (v4 n) refl (ground arith)
is_public_unmapped-v4 n (inr (inl h)) = denied_at 1 (prefix4 10 0 0 0 8) (v4 n) refl (ground arith)
is_public_unmapped-v4 n (inr (inr (inl h))) =
    denied_at 2 (prefix4 100 64 0 0 10) (v4 n) refl (ground arith)
is_public_unmapped-v4 n (inr (inr (inr (inl h)))) =
    denied_at 3 (prefix4 127 0 0 0 8) (v4 n) refl (ground arith)
is_public_unmapped-v4 n (inr (inr (inr (inr (inl h))))) =
    denied_at 4 (prefix4 169 254 0 0 16) (v4 n) refl (ground arith)
is_public_unmapped-v4 n (inr (inr (inr (inr (inr (inl h)))))) =
    denied_at 5 (prefix4 172 16 0 0 12) (v4 n) refl (ground arith)
is_public_unmapped-v4 n (inr (inr (inr (inr (inr (inr h)))))) =
    denied_at 9 (prefix4 192 168 0 0 16) (v4 n) refl (ground arith)

-- An address of 128 bits that is no mapped one.
is_public_ip-v6 :
    (m : ℕ)
    → nat_eq (m / 2 ^ 32) 65_535 ≡ false
    → is_public_unmapped (v6 m "") ≡ false
    → is_public_ip (v6 m "") ≡ false
unfolding is_public_ip
is_public_ip-v6 m plain h = rw plain (ground (arith, h))

quotient : (n : ℕ) → n < 2 ^ 32 → nat_eq ((65_535 * 2 ^ 32 + n) / 2 ^ 32) 65_535 ≡ true
quotient n h = ground arith

remainder : (n : ℕ) → n < 2 ^ 32 → (65_535 * 2 ^ 32 + n) % 2 ^ 32 ≡ n
remainder n h = omega arith

mapped : (n : ℕ) → n < 2 ^ 32 → unmap (v6 (65_535 * 2 ^ 32 + n) "") ≡ v4 n
mapped n h = rw (quotient n h, remainder n h) refl

-- No spelling of an internal IPv4 address is public: neither the plain one, nor the mapped, the
-- compatible, the NAT64 and the 6to4 one, the last whatever follows the address in it.
pub is_public_ip-Internal :
    (n m : ℕ)
    → n < 2 ^ 32
    → m < 2 ^ 80
    → Internal n
    → (is_public_ip (v4 n) ≡ false)
      × (is_public_ip (v6 (65_535 * 2 ^ 32 + n) "") ≡ false)
      × (is_public_ip (v6 n "") ≡ false)
      × (is_public_ip (v6 ((0x64 * 2 ^ 16 + 0xff9b) * 2 ^ 96 + n) "") ≡ false)
      × (is_public_ip (v6 ((0x2002 * 2 ^ 32 + n) * 2 ^ 80 + m) "") ≡ false)
unfolding is_public_ip
is_public_ip-Internal n m short rest h = (
  is_public_unmapped-v4 n h,
  ap is_public_unmapped (mapped n short) ∙ is_public_unmapped-v4 n h,
  is_public_ip-v6 n (ground arith) (denied_at 15 (prefix6 0 0 0 96) (v6 n "") refl (ground arith)),
  is_public_ip-v6 ((0x64 * 2 ^ 16 + 0xff9b) * 2 ^ 96 + n) (ground arith) (
      denied_at 16 (prefix6 0x64 0xff9b 0 96) (v6 ((0x64 * 2 ^ 16 + 0xff9b) * 2 ^ 96 + n) "") refl
        (ground arith)),
  is_public_ip-v6 ((0x2002 * 2 ^ 32 + n) * 2 ^ 80 + m) (ground arith) (
      denied_at 21 (prefix6 0x2002 0 0 16) (v6 ((0x2002 * 2 ^ 32 + n) * 2 ^ 80 + m) "") refl
        (ground arith)),
)
