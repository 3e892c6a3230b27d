-- ===== src/Network/Tests.antt =====
-- The theorems of Network at concrete inputs, and addresses that are public or not.
use deepwork_browser.Prelude.{
  ◌<◌, inl, inr, ◌^◌, ◌*◌, nat_eq, ℕ, ◌+◌, ◌-◌, ◌≤◌, String, true, false, List, [], ◌∷◌, Option,
  none, some, All, ◌≡◌, refl, arith, if◌then◌else◌, ◌==◌,
}
use deepwork_browser.Network.Address.{Address, v4, v6, is_public_ip, public_port_allowed, unmap}
use deepwork_browser.Network.Spellings.{is_public_ip-Internal}
use deepwork_browser.Network.Dial.{
  addresses, Url, accepted, connected, failed, not_public, Route, World, attempt_of, dial_scheme,
}
use deepwork_browser.Network.Budget.{Guard, plain, is_set}
use deepwork_browser.Network.Reach.{IsSafe, Follows}
use deepwork_browser.Network.Answers.{dial_scheme-confined, dial_scheme-connects}
use deepwork_browser.Network.Limits.{GuardOp, serves, charges, closes, run, offered}
use deepwork_browser.Network.Failures.{run-budget}

-- 127.0.0.1, 8.8.8.8 and 2606:4700::1.
loopback_is_not_public : is_public_ip (v4 0x7f000001) ≡ false
unfolding is_public_ip
loopback_is_not_public = refl

dns_is_public : is_public_ip (v4 0x08080808) ≡ true
unfolding is_public_ip
dns_is_public = refl

allocated_is_public : is_public_ip (v6 (0x26064700 * 2 ^ 96 + 1) "") ≡ true
unfolding is_public_ip
allocated_is_public = refl

is_public_ip-Internal_example :
    (is_public_ip (v4 0x7f000001) ≡ false)
    × (is_public_ip (v6 (65_535 * 2 ^ 32 + 0x7f000001) "") ≡ false)
    × (is_public_ip (v6 0x7f000001 "") ≡ false)
    × (is_public_ip (v6 ((0x64 * 2 ^ 16 + 0xff9b) * 2 ^ 96 + 0x7f000001) "") ≡ false)
    × (is_public_ip (v6 ((0x2002 * 2 ^ 32 + 0x7f000001) * 2 ^ 80 + 5) "") ≡ false)
is_public_ip-Internal_example =
    is_public_ip-Internal 0x7f000001 5 (omega arith) (omega arith)
      (inr (inr (inr (inl (omega arith, omega arith)))))

-- Two names and a literal.
abbrev read_addr : String → Option Address
read_addr host = if host == "8.8.8.8" then some (v4 0x08080808) else none

abbrev read_port : String → Option ℕ
read_port port = if port == "443" then some 443 else if port == "80" then some 80 else none

abbrev answer : List Address
answer = v4 0x08080808 ∷ v4 0x08080404 ∷ []

abbrev mixed : List Address
mixed = v4 0x08080808 ∷ v4 0x7f000001 ∷ []

-- The first address does not connect.
abbrev world : World
world = record {
  resolve = λ host. some (if host == "mixed" then mixed else answer);
  connects = λ a. elim a.target [ v4 n ↦ nat_eq n 0x08080404 | _ ↦ false ];
  has_ended = λ _. false;
}

abbrev direct : Route
direct = record { http_proxy = ""; https_proxy = "" }

dial_scheme-connects_example :
    (ip : Address) × ((dial_scheme read_addr read_port world direct []
        (some ("site", "443"))
        "https").0
      ≡ connected (unmap ip))
    × (world.connects (attempt_of "443" "" ip) ≡ true)
unfolding is_public_ip public_port_allowed
dial_scheme-connects_example =
    dial_scheme-connects read_addr read_port world direct [] "site" "443" "https" answer refl refl
      refl (λ _. refl) refl

abbrev url : Url
url = record {
  scheme = "https";
  opaque = "";
  has_user = false;
  hostname = "8.8.8.8";
  has_zone = false;
  port = "";
}

abbrev guard : Guard
guard = record {
  max_bytes = 100;
  max_requests = 3;
  requests = 0;
  denied_requests = 0;
  bytes = 0;
  err = none;
  closing = false;
  cancelled = false;
}

-- The second chunk is too much; the third would fit, but the second was counted.
abbrev traffic : List GuardOp
traffic = serves (plain (accepted url) none) ∷ charges 60 ∷ charges 50 ∷ closes ∷ charges 30 ∷ []

run-traffic : (run traffic guard).1 ≡ 60
unfolding run
run-traffic = refl

dial_scheme-confined_example :
    All
      (IsSafe read_port [])
      (dial_scheme read_addr read_port world direct [] (some ("site", "443")) "https").1
    × ((ips : List Address)
        → addresses read_addr read_port world "site" ≡ some ips
        → Follows ips
            (dial_scheme read_addr read_port world direct [] (some ("site", "443")) "https"))
dial_scheme-confined_example =
    dial_scheme-confined read_addr read_port world direct [] "site" "443" "https"

mixed_answer :
    dial_scheme read_addr read_port world direct [] (some ("mixed", "443")) "https"
    ≡ (failed not_public, [])
unfolding dial_scheme is_public_ip public_port_allowed
mixed_answer = refl

run-budget_example :
    ((run traffic guard).1 ≤ guard.max_bytes - guard.bytes)
    × (guard.bytes + offered traffic ≤ guard.max_bytes → (run traffic guard).1 ≡ offered traffic)
    × (guard.max_bytes < guard.bytes + offered traffic → is_set (run traffic guard).0.err ≡ true)
run-budget_example = run-budget traffic guard (omega arith) (omega arith)
