-- ===== src/Policy/Tests.antt =====
-- The theorems of Policy.Laws at concrete origins, and runs of the two functions.
use deepwork_browser.Policy.Laws.{scenario_policy-refuses, evaluate_act_iff}
use deepwork_browser.Policy.Scenario.{
  Fidelity, app_test_baseline, web_visit, scenario_policy, InteractionPolicy,
}
use deepwork_browser.Policy.Defs.{
  lookup_action_definition, allow, confirm, is_trusted_origin, SessionPolicy, evaluate_act,
  is_mutating_op, origin_host,
}
use deepwork_browser.Prelude.{
  trim_space, to_lower, some, Text, codes, Bool, true, false, ◌≡◌, refl, ◌↔◌, ◌⊎◌, [], text_eq,
}

-- The hosts that these tests take for local addresses.
abbrev local_ip : Text → Bool
local_ip h = text_eq h (codes "127.0.0.1")

abbrev asks : SessionPolicy
asks = record { remote_writes = confirm; allow_hosts = []; deterministic = false }

port_stripped : origin_host (codes "https://[::1]:8443/x") ≡ codes "::1"
unfolding origin_host
port_stripped = refl

suffix_not_trusted : is_trusted_origin local_ip (codes "http://localhost.evil.com/") [] ≡ false
unfolding is_trusted_origin origin_host to_lower
suffix_not_trusted = refl

evaluate_act_iff_example :
    ((evaluate_act local_ip asks (codes "click") (codes "http://a.org")).allowed ≡ true ↔ (
      (is_mutating_op (codes "click") ≡ false)
      ⊎ ((is_trusted_origin local_ip (codes "http://a.org") [] ≡ true) ⊎ (confirm ≡ allow))))
    × ((evaluate_act local_ip asks (codes "click") (codes "http://a.org")).needs_confirm ≡ true ↔ (
        (is_mutating_op (codes "click") ≡ true)
        × (is_trusted_origin local_ip (codes "http://a.org") [] ≡ false)
        × (confirm ≡ confirm)))
evaluate_act_iff_example = evaluate_act_iff local_ip asks (codes "click") (codes "http://a.org")

scenario_policy-refuses_example :
    let p = (scenario_policy (some web_visit)).0 in
    let known = lookup_action_definition (to_lower (trim_space (codes "buy"))) in
    ((evaluate_act local_ip p (codes "buy") (codes "http://a.org")).allowed ≡ true
      ↔ (known ≡ some false))
    × ((evaluate_act local_ip p (codes "buy") (codes "http://a.org")).needs_confirm ≡ false)
    × ((p.deterministic ≡ true) ↔ (some web_visit ≡ some app_test_baseline))
unfolding is_trusted_origin origin_host to_lower
scenario_policy-refuses_example =
    scenario_policy-refuses local_ip (some web_visit) (codes "buy") (codes "http://a.org") refl

abbrev half_set : InteractionPolicy
half_set = record { see_to_click = true; fidelity = Fidelity.unset }
