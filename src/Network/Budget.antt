-- ===== src/Network/Budget.antt =====
-- The budgets of browser/public_network.go and the answers of its proxy. The counters are 64-bit words,
-- compared as signed numbers.
use deepwork_browser.Prelude.{
  ℕ, ◌+◌, ◌%◌, ◌^◌, Bool, true, false, not, ◌&&◌, ◌||◌, Option, none, some, if◌then◌else◌, ltb,
  ◌==◌,
}
use deepwork_browser.Network.Dial.{
  UrlResult, accepted, refused, DialError, bad_authority, port_denied, not_public, no_answer,
  no_addresses,
}

pub data PolicyError : Type 0 where
  byte_budget request_budget server_failed : PolicyError

-- `PublicNetworkGuard` without what it only passes on; `cancelled` is the end of its context.
pub record Guard : Type 0 where
  pub max_bytes : ℕ
  pub max_requests : ℕ
  pub requests : ℕ
  pub denied_requests : ℕ
  pub bytes : ℕ
  pub err : Option PolicyError
  pub closing : Bool
  pub cancelled : Bool

-- `StartPublicNetworkGuard`, whose budgets must be positive.
unfoldable pub start_public_network_guard : ℕ → ℕ → Option Guard
start_public_network_guard max_bytes max_requests =
    if ltb 0 max_bytes && ltb 0 max_requests
    then some (record {
      max_bytes = max_bytes;
      max_requests = max_requests;
      requests = 0;
      denied_requests = 0;
      bytes = 0;
      err = none;
      closing = false;
      cancelled = false;
    })
    else none

abbrev pub add64 : ℕ → ℕ → ℕ
add64 a b = (a + b) % 2 ^ 64

-- `a > max` of signed words, for a bound that is not negative.
abbrev pub exceeds : ℕ → ℕ → Bool
exceeds a max = ltb a (2 ^ 63) && ltb max a

abbrev pub first_error : Option PolicyError → PolicyError → Option PolicyError
first_error none e = some e
first_error (some e') e = some e'

-- The flag tells an error of the clean-up: a cancelled context or a closed connection.
unfoldable pub fail : Bool → PolicyError → Guard → Guard
fail is_cleanup e g =
    if g.closing && is_cleanup then g else record g { err = first_error g.err e; cancelled = true }

unfoldable pub deny : Guard → Guard
deny g = record g { denied_requests = add64 g.denied_requests 1 }

-- `CloseContext`, as far as it changes the state of the guard.
unfoldable pub close : Guard → Guard
close g = record g { closing = true; cancelled = true }

abbrev pub charged : Guard → Guard × Bool
charged g = if exceeds g.bytes g.max_bytes then (fail false byte_budget g, false) else (g, true)

-- Whether the chunk may go on.
unfoldable pub charge_payload : ℕ → Guard → Guard × Bool
unfolding fail
charge_payload n g = charged (record g { bytes = add64 g.bytes n })

pub data FailureKind : Type 0 where
  policy transport dns : FailureKind

-- What the client gets: an error of the proxy with its status and kind, or the answer of the origin.
pub data Reply : Type 0 where
  proxy_error : ℕ → FailureKind → Reply
  passed : Reply

abbrev is_destination_error : DialError → Bool
is_destination_error bad_authority = true
is_destination_error port_denied = true
is_destination_error not_public = true
is_destination_error _ = false

abbrev is_dns_error : DialError → Bool
is_dns_error no_addresses = true
is_dns_error no_answer = true
is_dns_error _ = false

abbrev pub is_set : Option PolicyError → Bool
is_set none = false
is_set (some e) = true

unfoldable pub proxy_failure_kind : DialError → Guard → FailureKind
proxy_failure_kind e g =
    if is_destination_error e || is_set g.err
    then policy
    else if is_dns_error e
    then dns
    else transport

unfoldable pub count_destination_denial : DialError → Guard → Guard
unfolding deny
count_destination_denial e g = if is_destination_error e then deny g else g

-- A request: a CONNECT with whether its authority is sound and how the dial ends, or a plain one with
-- what the check of its URL says and how the round trip ends.
pub data Request : Type 0 where
  connects : Bool → Option DialError → Request
  plain : UrlResult → Option DialError → Request

abbrev pub upstream : ℕ → Option DialError → Guard → Guard × Reply
upstream status none g = (g, passed)
upstream status (some e) g = (
  count_destination_denial e g,
  proxy_error status (proxy_failure_kind e (count_destination_denial e g)),
)

abbrev pub is_http : UrlResult → Bool
is_http (accepted u) = u.scheme == "http"
is_http (refused e) = false

abbrev pub route_request : Request → Guard → Guard × Reply
route_request (connects sound outcome) g =
    if not sound then (deny g, proxy_error 403 policy) else upstream 403 outcome g
route_request (plain url outcome) g =
    if not (is_http url) then (deny g, proxy_error 403 policy) else upstream 502 outcome g

unfoldable pub serve_http : Request → Guard → Guard × Reply
unfolding fail deny count_destination_denial proxy_failure_kind
serve_http r g =
    let g' : Guard = record g { requests = add64 g.requests 1 } in
    if g.closing
    then (g, proxy_error 503 transport)
    else if exceeds g'.requests g'.max_requests
    then (fail false request_budget g', proxy_error 502 policy)
    else route_request r g'
