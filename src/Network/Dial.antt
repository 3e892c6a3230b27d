-- ===== src/Network/Dial.antt =====
-- The check of a URL and the dialling of an address: browser/public_network.go. What `net/url`,
-- `net/netip` and `strconv` read in a text, and what the network answers, are arguments; the deadline
-- of an attempt and the record of DNS failures are left out.
use deepwork_browser.Prelude.{
  ℕ, suc, String, Bool, true, false, not, ◌||◌, List, [], ◌∷◌, Option, none, some, if◌then◌else◌,
  any, ◌==◌,
}
use deepwork_browser.Network.Address.{Address, unmap, is_public_ip, public_port_allowed}

-- `url.URL` with what `Hostname` and `Port` give of it.
pub record Url : Type 0 where
  pub scheme : String
  pub opaque : String
  pub has_user : Bool
  pub hostname : String
  pub has_zone : Bool
  pub port : String

pub data UrlError : Type 0 where
  unparsable not_web bad_port url_port_denied url_not_public : UrlError

pub data UrlResult : Type 0 where
  accepted : Url → UrlResult
  refused : UrlError → UrlResult

pub data DialError : Type 0 where
  bad_authority port_denied not_public no_answer no_addresses ended unreachable : DialError

pub data DialResult : Type 0 where
  connected : Address → DialResult
  failed : DialError → DialResult

-- One address that is tried, through a proxy if it is not empty.
pub record Attempt : Type 0 where
  pub target : Address
  pub port : String
  pub proxy : String

pub record Route : Type 0 where
  pub http_proxy : String
  pub https_proxy : String

-- What the network does: the answers of DNS, whether an attempt connects, and whether the job has ended
-- before the attempt of a number.
pub record World : Type 0 where
  pub resolve : String → Option (List Address)
  pub connects : Attempt → Bool
  pub has_ended : ℕ → Bool

abbrev default_port : Url → ℕ
default_port u = if u.scheme == "https" then 443 else 80

abbrev pub literal_is_public : Option Address → Bool
literal_is_public none = true
literal_is_public (some ip) = is_public_ip ip

abbrev pub attempt_of : String → String → Address → Attempt
attempt_of port proxy ip = record { target = unmap ip; port = port; proxy = proxy }

-- The addresses in their order, until one connects; `i` is the number of the next attempt.
unfoldable pub try_all : World → String → String → ℕ → List Address → DialResult × List Attempt
try_all w port proxy i [] = (failed unreachable, [])
try_all w port proxy i (ip ∷ ips) =
    let rest = try_all w port proxy (suc i) ips in
    let attempt : Attempt = attempt_of port proxy ip in
    if w.has_ended i
    then (failed ended, [])
    else if w.connects attempt
    then (connected attempt.target, attempt ∷ [])
    else (rest.0, attempt ∷ rest.1)

abbrev pub proxy_of : Route → String → String
proxy_of route scheme = if scheme == "https" then route.https_proxy else route.http_proxy

-- `dialScheme` from the addresses on.
abbrev pub dial_addresses :
    World → String → String → Option (List Address) → DialResult × List Attempt
dial_addresses w port proxy none = (failed no_answer, [])
dial_addresses w port proxy (some []) = (failed no_addresses, [])
dial_addresses w port proxy (some (ip ∷ ips)) =
    if any (λ a. not (is_public_ip a)) (ip ∷ ips)
    then (failed not_public, [])
    else try_all w port proxy 0 (ip ∷ ips)

abbrev pub port_is_allowed : Option ℕ → List ℕ → Bool
port_is_allowed none allowed = false
port_is_allowed (some port) allowed = public_port_allowed port allowed

-- The port and the literal address of a URL.
abbrev pub check_destination : List ℕ → Option Address → Url → Option ℕ → UrlResult
check_destination allowed literal u none = refused bad_port
check_destination allowed literal u (some port) =
    if not (public_port_allowed port allowed)
    then refused url_port_denied
    else if not (literal_is_public literal)
    then refused url_not_public
    else accepted u

module _ (parse_addr : String → Option Address) (parse_port : String → Option ℕ) where
  abbrev pub port_of : Url → Option ℕ
  port_of u = if u.port == "" then some (default_port u) else parse_port u.port

  unfoldable pub validate_public_url : Option Url → List ℕ → UrlResult
  validate_public_url none allowed = refused unparsable
  validate_public_url (some u) allowed =
      if not (u.scheme == "http" || u.scheme == "https")
        || not (u.opaque == "")
        || u.has_user
        || u.hostname == ""
        || u.has_zone
      then refused not_web
      else check_destination allowed (parse_addr u.hostname) u (port_of u)

  abbrev pub addresses : World → String → Option (List Address)
  addresses w host = elim (parse_addr host) [ some ip ↦ some (ip ∷ []) | none ↦ w.resolve host ]

  -- The address is given as `net.SplitHostPort` splits it.
  unfoldable pub dial_scheme :
      World → Route → List ℕ → Option (String × String) → String → DialResult × List Attempt
  unfolding try_all
  dial_scheme w route allowed none scheme = (failed bad_authority, [])
  dial_scheme w route allowed (some (host, port)) scheme =
      if not (port_is_allowed (parse_port port) allowed)
      then (failed port_denied, [])
      else dial_addresses w port (proxy_of route scheme) (addresses w host)
