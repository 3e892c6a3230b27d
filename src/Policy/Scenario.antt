-- ===== src/Policy/Scenario.antt =====
-- The scenarios of a session: browser/scenario.go. Error texts are left out.
use deepwork_browser.Prelude.{
  ◌||◌, ◌&&◌, any, Bool, true, false, List, [], ◌∷◌, Option, none, some, if◌then◌else◌, Text, codes,
  text_eq, trim_space, to_lower,
}
use deepwork_browser.Policy.Defs.{SessionPolicy, default_session_policy}

pub data Scenario : Type 0 where
  app_test_explore app_test_baseline web_visit : Scenario

pub data Fidelity : Type 0 where
  unset strict_human dual utility : Fidelity

pub record InteractionPolicy : Type 0 where
  pub see_to_click : Bool
  pub fidelity : Fidelity

pub data BrowserMode : Type 0 where
  headless headed : BrowserMode

pub data SessionKind : Type 0 where
  task : SessionKind

abbrev pub scenario_text : Scenario → Text
scenario_text app_test_explore = codes "app-test-explore"
scenario_text app_test_baseline = codes "app-test-baseline"
scenario_text web_visit = codes "webvisit"

abbrev pub scenario_values : List Scenario
scenario_values = app_test_explore ∷ app_test_baseline ∷ web_visit ∷ []

-- A recognised scenario, or none for a text that is not one.
unfoldable pub scenario_interaction_policy : Option Scenario → InteractionPolicy
scenario_interaction_policy (some app_test_explore) = record {
  see_to_click = true;
  fidelity = strict_human;
}
scenario_interaction_policy (some app_test_baseline) = record {
  see_to_click = true;
  fidelity = dual;
}
scenario_interaction_policy (some web_visit) = record { see_to_click = true; fidelity = utility }
scenario_interaction_policy none = record { see_to_click = false; fidelity = unset }

abbrev pub fidelity_eq : Fidelity → Fidelity → Bool
fidelity_eq unset unset = true
fidelity_eq strict_human strict_human = true
fidelity_eq dual dual = true
fidelity_eq utility utility = true
fidelity_eq _ _ = false

abbrev pub bool_eq : Bool → Bool → Bool
bool_eq true b = b
bool_eq false true = false
bool_eq false false = true

-- `p == q` on the two fields.
abbrev pub policy_eq : InteractionPolicy → InteractionPolicy → Bool
policy_eq p q = bool_eq p.see_to_click q.see_to_click && fidelity_eq p.fidelity q.fidelity

-- `Validate`: true where it returns no error.
unfoldable pub validate : InteractionPolicy → Bool
unfolding scenario_interaction_policy
validate p = any (λ s. policy_eq p (scenario_interaction_policy (some s))) scenario_values

unfoldable pub normalize_scenario : Text → Option Scenario
normalize_scenario raw =
    let word = to_lower (trim_space raw) in
    if text_eq word (codes "app-test-explore")
    then some app_test_explore
    else if text_eq word (codes "app-test-baseline")
    then some app_test_baseline
    else if text_eq word (codes "webvisit")
    then some web_visit
    else none

pub data InteractionMode : Type 0 where
  visual element : InteractionMode

unfoldable pub normalize_interaction_mode : Text → Option InteractionMode
normalize_interaction_mode raw =
    let word = to_lower (trim_space raw) in
    if text_eq word [] || text_eq word (codes "visual")
    then some visual
    else if text_eq word (codes "element")
    then some element
    else none

unfoldable pub scenario_policy : Option Scenario → SessionPolicy × BrowserMode × SessionKind
scenario_policy (some app_test_explore) = (default_session_policy, headless, task)
scenario_policy (some app_test_baseline) =
    (record default_session_policy { deterministic = true }, headless, task)
scenario_policy (some web_visit) = (default_session_policy, headed, task)
scenario_policy none = (default_session_policy, headless, task)
