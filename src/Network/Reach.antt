-- ===== src/Network/Reach.antt =====
-- What a dial of browser/public_network.go may reach.
use deepwork_browser.Prelude.{
  ◌^◌, ◌/◌, nat_eq, ℕ, suc, String, Bool, true, false, not, ◌&&◌, List, [], ◌∷◌, ◌++◌, map, nat_eq,
  ◌/◌, ◌%◌, ◌^◌, Option, none, some, any, All, ◌==◌, ◌≡◌, inl, inr, refl, sym, ap, ◌∙◌, arith,
  if_cases_dep, Bool-cases,
}
use deepwork_browser.Network.Address.{
  Address, unmap, invalid, v4, v6, is_public_ip, is_public_unmapped,
}
use deepwork_browser.Network.Dial.{
  DialResult, connected, Attempt, Route, World, attempt_of, try_all, dial_addresses, dial_scheme,
  port_is_allowed, proxy_of, addresses,
}

unmap-mapped :
    (n : ℕ) (zone : String)
    → nat_eq (n / 2 ^ 32) 65_535 ≡ true
    → unmap (v6 n zone) ≡ v4 (n % 2 ^ 32)
unmap-mapped n zone e = rw e refl

unmap-plain :
    (n : ℕ) (zone : String) → nat_eq (n / 2 ^ 32) 65_535 ≡ false → unmap (v6 n zone) ≡ v6 n zone
unmap-plain n zone e = rw e refl

and_right : (a b : Bool) → (a && b) ≡ true → b ≡ true
and_right true b h = h
and_right false b h = ground (arith, h)

unmap-public : (ip : Address) → is_public_ip ip ≡ true → is_public_ip (unmap ip) ≡ true
unfolding is_public_ip
unmap-public invalid h = h
unmap-public (v4 n) h = h
unmap-public (v6 n zone) h = elim (Bool-cases (nat_eq (n / 2 ^ 32) 65_535)) [
  | inl e ↦
      ap is_public_ip (unmap-mapped n zone e)
      ∙ sym (ap is_public_unmapped (unmap-mapped n zone e))
      ∙ and_right (zone == "") (is_public_unmapped (unmap (v6 n zone))) h
  | inr e ↦ ap is_public_ip (unmap-plain n zone e) ∙ h
]

abbrev pub target_of : Attempt → Address
target_of a = a.target

abbrev AllTried : (Attempt → Type 0) → DialResult × List Attempt → Type 0
AllTried Ok r = All Ok r.1

abbrev pub Follows : List Address → DialResult × List Attempt → Type 0
Follows ips r = (rest : List Address) × (map target_of r.1 ++ rest ≡ map unmap ips)

module _ (Ok : Attempt → Type 0) where
  -- What holds of the attempt on each address holds of each attempt that is made.
  try_all-All :
      (w : World) (port proxy : String) (i : ℕ) (ips : List Address)
      → All (λ ip. Ok (attempt_of port proxy ip)) ips
      → All Ok (try_all w port proxy i ips).1
  unfolding try_all
  try_all-All w port proxy i [] h = tt
  try_all-All w port proxy i (ip ∷ ips) (o, h) =
      if_cases_dep (AllTried Ok) (w.has_ended i) _ _ (λ _. tt)
        (λ _.
          if_cases_dep (AllTried Ok) (w.connects (attempt_of port proxy ip)) _ _ (λ _. (o, tt))
            (λ _. (o, try_all-All w port proxy (suc i) ips h)))

-- What a dial may do: a public address, on a port that is allowed.
abbrev pub IsSafe : (String → Option ℕ) → List ℕ → Attempt → Type 0
IsSafe parse_port allowed a =
    (is_public_ip a.target ≡ true) × (port_is_allowed (parse_port a.port) allowed ≡ true)

all-public :
    (parse_port : String → Option ℕ) (allowed : List ℕ) (port proxy : String) (ips : List Address)
    → port_is_allowed (parse_port port) allowed ≡ true
    → any (λ a. not (is_public_ip a)) ips ≡ false
    → All (λ ip. IsSafe parse_port allowed (attempt_of port proxy ip)) ips
all-public parse_port allowed port proxy [] p h = tt
all-public parse_port allowed port proxy (ip ∷ ips) p h = (
  (unmap-public ip (ground (arith, h)), p),
  all-public parse_port allowed port proxy ips p (ground (arith, h)),
)

dial_addresses-IsSafe :
    (parse_port : String → Option ℕ) (allowed : List ℕ) (w : World) (port proxy : String)
    (found : Option (List Address))
    → port_is_allowed (parse_port port) allowed ≡ true
    → All (IsSafe parse_port allowed) (dial_addresses w port proxy found).1
dial_addresses-IsSafe parse_port allowed w port proxy none p = tt
dial_addresses-IsSafe parse_port allowed w port proxy (some []) p = tt
dial_addresses-IsSafe parse_port allowed w port proxy (some (ip ∷ ips)) p =
    if_cases_dep (AllTried (IsSafe parse_port allowed)) (any (λ a. not (is_public_ip a)) (ip ∷ ips))
      _ _ (λ _. tt)
      (λ public.
        try_all-All (IsSafe parse_port allowed) w port proxy 0 (ip ∷ ips)
          (all-public parse_port allowed port proxy (ip ∷ ips) p public))

-- Whatever DNS answers and whichever addresses connect, every attempt of a dial is on a public address
-- and on an allowed port.
pub dial_scheme-IsSafe :
    (parse_addr : String → Option Address) (parse_port : String → Option ℕ) (w : World)
    (route : Route) (allowed : List ℕ) (authority : Option (String × String)) (scheme : String)
    → All
        (IsSafe parse_port allowed)
        (dial_scheme parse_addr parse_port w route allowed authority scheme).1
unfolding dial_scheme
dial_scheme-IsSafe parse_addr parse_port w route allowed none scheme = tt
dial_scheme-IsSafe parse_addr parse_port w route allowed (some (host, port)) scheme =
    if_cases_dep (AllTried (IsSafe parse_port allowed))
      (not (port_is_allowed (parse_port port) allowed)) _ _ (λ _. tt)
      (λ p.
        dial_addresses-IsSafe parse_port allowed w port (proxy_of route scheme)
          (addresses parse_addr parse_port w host) (ground (arith, p)))

-- The attempts are the addresses from the first one on.
pub try_all-prefix :
    (w : World) (port proxy : String) (i : ℕ) (ips : List Address)
    → Follows ips (try_all w port proxy i ips)
unfolding try_all
try_all-prefix w port proxy i [] = ([], refl)
try_all-prefix w port proxy i (ip ∷ ips) =
    if_cases_dep (Follows (ip ∷ ips)) (w.has_ended i) _ _ (λ _. (map unmap (ip ∷ ips), refl))
      (λ _.
        if_cases_dep (Follows (ip ∷ ips)) (w.connects (attempt_of port proxy ip)) _ _
          (λ _. (map unmap ips, refl))
          (λ _.
            let (rest, e) = try_all-prefix w port proxy (suc i) ips in
            (rest, ap (λ xs. unmap ip ∷ xs) e)))

-- While the job lasts, addresses that do not connect do not keep a later one from being tried.
pub try_all-connects :
    (w : World) (port proxy : String) (i : ℕ) (ips : List Address)
    → ((j : ℕ) → w.has_ended j ≡ false)
    → any (λ ip. w.connects (attempt_of port proxy ip)) ips ≡ true
    → (ip : Address) × ((try_all w port proxy i ips).0 ≡ connected (unmap ip))
      × (w.connects (attempt_of port proxy ip) ≡ true)
unfolding try_all
try_all-connects w port proxy i [] lasts h = ground (arith, h)
try_all-connects w port proxy i (ip ∷ ips) lasts h =
    elim (Bool-cases (w.connects (attempt_of port proxy ip))) [
      | inl e ↦ (ip, rw (lasts i, e) refl, e)
      | inr e ↦
          let (a, r, c) = try_all-connects w port proxy (suc i) ips lasts (ground (arith, h, e)) in
          (a, rw (lasts i, e) r, c)
    ]
