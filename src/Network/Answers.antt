-- ===== src/Network/Answers.antt =====
-- How a dial of browser/public_network.go uses the addresses of one answer.
use deepwork_browser.Prelude.{
  All, ℕ, String, true, false, not, List, [], ◌∷◌, map, Option, none, some, any, ◌≡◌, sym, ap, ◌∙◌,
  refl, arith, if_cases_dep,
}
use deepwork_browser.Network.Address.{Address, unmap, is_public_ip}
use deepwork_browser.Network.Dial.{
  Url, accepted, connected, failed, not_public, Route, World, attempt_of, try_all, dial_addresses,
  check_destination, literal_is_public, dial_scheme, validate_public_url, port_of, port_is_allowed,
  proxy_of, addresses,
}
use deepwork_browser.Network.Reach.{
  IsSafe, dial_scheme-IsSafe, Follows, try_all-prefix, try_all-connects,
}

dial_addresses-Follows :
    (w : World) (port proxy : String) (ips : List Address)
    → Follows ips (dial_addresses w port proxy (some ips))
dial_addresses-Follows w port proxy [] = ([], refl)
dial_addresses-Follows w port proxy (ip ∷ ips) =
    if_cases_dep (Follows (ip ∷ ips)) (any (λ a. not (is_public_ip a)) (ip ∷ ips)) _ _
      (λ _. (map unmap (ip ∷ ips), refl)) (λ _. try_all-prefix w port proxy 0 (ip ∷ ips))

check_destination-accepted :
    (allowed : List ℕ) (literal : Option Address) (u u' : Url) (port : Option ℕ)
    → check_destination allowed literal u port ≡ accepted u'
    → (port_is_allowed port allowed ≡ true) × (literal_is_public literal ≡ true)
check_destination-accepted allowed literal u u' none h = ground (arith, h)
check_destination-accepted allowed literal u u' (some port) h = ground (arith, h)

accepted_checks :
    (parse_addr : String → Option Address) (parse_port : String → Option ℕ) (allowed : List ℕ)
    (u u' : Url)
    → validate_public_url parse_addr parse_port (some u) allowed ≡ accepted u'
    → (port_is_allowed (port_of parse_addr parse_port u) allowed ≡ true)
      × (literal_is_public (parse_addr u.hostname) ≡ true)
unfolding validate_public_url
accepted_checks parse_addr parse_port allowed u u' h =
    check_destination-accepted allowed (parse_addr u.hostname) u u'
      (port_of parse_addr parse_port u) (ground (arith, h))

module _ (parse_addr : String → Option Address) (parse_port : String → Option ℕ) (w : World)
    (route : Route) (allowed : List ℕ) where
  dial_scheme-Follows :
      (host port scheme : String) (ips : List Address)
      → addresses parse_addr parse_port w host ≡ some ips
      → Follows ips (dial_scheme parse_addr parse_port w route allowed (some (host, port)) scheme)
  unfolding dial_scheme
  dial_scheme-Follows host port scheme ips e =
      if_cases_dep (Follows ips) (not (port_is_allowed (parse_port port) allowed)) _ _
        (λ _. (map unmap ips, refl))
        (λ _. rw e (dial_addresses-Follows w port (proxy_of route scheme) ips))

  -- Whatever DNS answers and whichever addresses connect, every attempt of a dial is on a public
  -- address and on an allowed port, and the attempts are the addresses of the one answer, from the
  -- first on, in their order.
  pub dial_scheme-confined :
      (host port scheme : String)
      → All
          (IsSafe parse_port allowed)
          (dial_scheme parse_addr parse_port w route allowed (some (host, port)) scheme).1
        × ((ips : List Address)
            → addresses parse_addr parse_port w host ≡ some ips
            → Follows ips
                (dial_scheme parse_addr parse_port w route allowed (some (host, port)) scheme))
  dial_scheme-confined host port scheme = (
    dial_scheme-IsSafe parse_addr parse_port w route allowed (some (host, port)) scheme,
    λ ips e. dial_scheme-Follows host port scheme ips e,
  )

  -- One address that is not public keeps a dial from trying any of the answer.
  dial_scheme-not_public :
      (host port scheme : String) (ips : List Address)
      → port_is_allowed (parse_port port) allowed ≡ true
      → addresses parse_addr parse_port w host ≡ some ips
      → any (λ a. not (is_public_ip a)) ips ≡ true
      → dial_scheme parse_addr parse_port w route allowed (some (host, port)) scheme
        ≡ (failed not_public, [])
  unfolding dial_scheme
  dial_scheme-not_public host port scheme [] p e h = ground (arith, h)
  dial_scheme-not_public host port scheme (ip ∷ ips) p e h = rw (p, e, h) refl

  -- If the port is allowed, every address of the answer is public and the job does not end, then a dial
  -- connects to one of the addresses, provided that any of them connects.
  pub dial_scheme-connects :
      (host port scheme : String) (ips : List Address)
      → port_is_allowed (parse_port port) allowed ≡ true
      → addresses parse_addr parse_port w host ≡ some ips
      → any (λ a. not (is_public_ip a)) ips ≡ false
      → ((j : ℕ) → w.has_ended j ≡ false)
      → any (λ ip. w.connects (attempt_of port (proxy_of route scheme) ip)) ips ≡ true
      → (ip : Address) × ((dial_scheme parse_addr parse_port w route allowed
            (some (host, port))
            scheme).0
          ≡ connected (unmap ip))
        × (w.connects (attempt_of port (proxy_of route scheme) ip) ≡ true)
  unfolding dial_scheme
  dial_scheme-connects host port scheme [] p e public lasts h = ground (arith, h)
  dial_scheme-connects host port scheme (ip ∷ ips) p e public lasts h =
      let (a, r, c) = try_all-connects w port (proxy_of route scheme) 0 (ip ∷ ips) lasts h in
      (a, rw (dial_scheme, p, e, public) r, c)

  -- A URL with a literal address that the first check accepts is not refused by the dial: the address
  -- is tried, unless the job has ended.
  pub dial_scheme-validate_public_url :
      (u u' : Url) (port scheme : String) (ip : Address)
      → validate_public_url parse_addr parse_port (some u) allowed ≡ accepted u'
      → parse_addr u.hostname ≡ some ip
      → parse_port port ≡ port_of parse_addr parse_port u
      → w.has_ended 0 ≡ false
      → (dial_scheme parse_addr parse_port w route allowed (some (u.hostname, port)) scheme).1
        ≡ attempt_of port (proxy_of route scheme) ip ∷ []
  unfolding dial_scheme try_all
  dial_scheme-validate_public_url u u' port scheme ip h e p lasts =
      let (q, l) = accepted_checks parse_addr parse_port allowed u u' h in
      rw (p, q, addresses, e, sym (ap literal_is_public e) ∙ l, lasts) (ground arith)
