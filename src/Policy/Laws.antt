-- ===== src/Policy/Laws.antt =====
-- What the policy of browser/policy.go lets through, also under the scenarios of browser/scenario.go.
use deepwork_browser.Prelude.{
  text_eq_sound, text_eq, ap, trim_space, to_lower, any-append, ◌≡◌, ◌≢◌, ◌↔◌, refl, ◌⊎◌, inl, inr,
  Bool, true, false, List, [], ◌++◌, Option, none, some, arith, if◌then◌else◌, Text, codes,
  Bool-cases,
}
use deepwork_browser.Policy.Defs.{
  lookup_action_definition, SessionPolicy, confirm, allow, is_mutating_op, is_trusted_origin,
  evaluate_act, effective_remote_writes, equal_fold, origin_host,
}
use deepwork_browser.Policy.Scenario.{
  fidelity_eq, Fidelity, policy_eq, InteractionPolicy, app_test_explore, app_test_baseline,
  web_visit, Scenario, scenario_policy, scenario_text, normalize_scenario,
  scenario_interaction_policy, validate,
}

harmless_iff :
    (known : Option Bool)
    → (elim known [ none ↦ true | some mutates ↦ mutates ] ≡ false) ↔ (known ≡ some false)
harmless_iff none = ground arith
harmless_iff (some mutates) = ground arith

is_mutating_op_iff :
    (op : Text)
    → (is_mutating_op op ≡ false)
      ↔ (lookup_action_definition (to_lower (trim_space op)) ≡ some false)
unfolding is_mutating_op
is_mutating_op_iff op = harmless_iff (lookup_action_definition (to_lower (trim_space op)))

module _ (is_local_ip : Text → Bool) where
  -- An act is allowed exactly if it changes nothing, its target is trusted, or the session allows
  -- remote writes; it asks for a confirmation exactly if none of these holds and the session's policy
  -- is to confirm. So a session with no policy, or an unknown one, refuses.
  pub evaluate_act_iff :
      (p : SessionPolicy) (op origin : Text)
      → let decision = evaluate_act is_local_ip p op origin in
        let trusted = is_trusted_origin is_local_ip origin p.allow_hosts in
        ((decision.allowed ≡ true)
          ↔ ((is_mutating_op op ≡ false) ⊎ ((trusted ≡ true) ⊎ (p.remote_writes ≡ allow))))
        × ((decision.needs_confirm ≡ true)
            ↔ ((is_mutating_op op ≡ true) × (trusted ≡ false) × (p.remote_writes ≡ confirm)))
  unfolding evaluate_act effective_remote_writes
  evaluate_act_iff p op origin = ground arith

  -- In a session of any scenario, an act on a page whose origin is not trusted is allowed exactly if its
  -- verb, trimmed and in small letters, is one of the table of acts and changes no page there; so an
  -- unknown verb is refused. Nothing is put to the user. The baseline scenario is the deterministic one.
  pub scenario_policy-refuses :
      (s : Option Scenario) (op origin : Text)
      → is_trusted_origin is_local_ip origin [] ≡ false
      → let p = (scenario_policy s).0 in
        let known = lookup_action_definition (to_lower (trim_space op)) in
        ((evaluate_act is_local_ip p op origin).allowed ≡ true ↔ (known ≡ some false))
        × ((evaluate_act is_local_ip p op origin).needs_confirm ≡ false)
        × ((p.deterministic ≡ true) ↔ (s ≡ some app_test_baseline))
  unfolding scenario_policy evaluate_act effective_remote_writes
  scenario_policy-refuses none op origin k = ground (arith, k, is_mutating_op_iff op)
  scenario_policy-refuses (some app_test_explore) op origin k =
      ground (arith, k, is_mutating_op_iff op)
  scenario_policy-refuses (some app_test_baseline) op origin k =
      ground (arith, k, is_mutating_op_iff op)
  scenario_policy-refuses (some web_visit) op origin k = ground (arith, k, is_mutating_op_iff op)

  -- An origin with no host is never trusted, and more allowed hosts never take trust away.
  pub is_trusted_origin-append :
      (origin : Text) (hosts more : List Text)
      → is_trusted_origin is_local_ip origin hosts ≡ true
      → (is_trusted_origin is_local_ip origin (hosts ++ more) ≡ true) × (origin_host origin ≢ [])
  unfolding is_trusted_origin
  is_trusted_origin-append origin hosts more h = (
    ground (arith, any-append (λ h. equal_fold (trim_space h) (origin_host origin)) hosts more),
    λ e. ground (arith, ap (λ t. text_eq t []) e),
  )

picked :
    (a b c : Bool) (w : Text)
    → (a ≡ true → w ≡ scenario_text app_test_explore)
    → (b ≡ true → w ≡ scenario_text app_test_baseline)
    → (c ≡ true → w ≡ scenario_text web_visit)
    → (s : Scenario)
    → (if a
        then some app_test_explore
        else if b
        then some app_test_baseline
        else if c
        then some web_visit
        else none)
      ≡ some s
    → w ≡ scenario_text s
picked true b c w f g k app_test_explore h = f refl
picked false true c w f g k app_test_baseline h = g refl
picked false false true w f g k web_visit h = k refl
picked true b c w f g k app_test_baseline h = cc
picked true b c w f g k web_visit h = cc
picked false true c w f g k app_test_explore h = cc
picked false true c w f g k web_visit h = cc
picked false false true w f g k app_test_explore h = cc
picked false false true w f g k app_test_baseline h = cc
picked false false false w f g k s h = cc

-- A raw text names a scenario exactly if, trimmed and in lower case, it is the scenario's text.
pub normalize_scenario_iff :
    (raw : Text) (s : Scenario)
    → (normalize_scenario raw ≡ some s) ↔ (to_lower (trim_space raw) ≡ scenario_text s)
unfolding normalize_scenario
normalize_scenario_iff raw s =
    let word = to_lower (trim_space raw) in
    (
      picked (text_eq word (codes "app-test-explore")) (text_eq word (codes "app-test-baseline"))
          (text_eq word (codes "webvisit")) word (text_eq_sound word _) (text_eq_sound word _)
          (text_eq_sound word _) s,
      λ e.
          elim s as (λ s. word ≡ scenario_text s → normalize_scenario raw ≡ some s) [
            | app_test_explore ↦ λ e. rw e
            | app_test_baseline ↦ λ e. rw e
            | web_visit ↦ λ e. rw e
          ]
            e,
    )

fidelity_eq_sound : (f g : Fidelity) → fidelity_eq f g ≡ true → f ≡ g
fidelity_eq_sound f g h = ground arith

policy_eq_sound : (p q : InteractionPolicy) → policy_eq p q ≡ true → p ≡ q
policy_eq_sound p q h = ground (arith, fidelity_eq_sound p.fidelity q.fidelity)

-- An interaction posture is accepted exactly if some scenario has it.
pub validate_iff :
    (p : InteractionPolicy)
    → (validate p ≡ true) ↔ ((s : Scenario) × (p ≡ scenario_interaction_policy (some s)))
unfolding validate scenario_interaction_policy
validate_iff p = (
  λ h. elim (Bool-cases (policy_eq p (scenario_interaction_policy (some app_test_explore)))) [
    | inl e ↦ (app_test_explore, policy_eq_sound p _ e)
    | inr e ↦
        elim (Bool-cases (policy_eq p (scenario_interaction_policy (some app_test_baseline)))) [
          | inl e' ↦ (app_test_baseline, policy_eq_sound p _ e')
          | inr e' ↦ (web_visit, policy_eq_sound p _ ground arith)
        ]
  ],
  λ (s, e).
      elim s as (λ s. p ≡ scenario_interaction_policy (some s) → validate p ≡ true) [
        | app_test_explore ↦ λ e. rw e
        | app_test_baseline ↦ λ e. rw e
        | web_visit ↦ λ e. rw e
      ]
        e,
)
