-- ===== src/Front/Tests.antt =====
-- The theorems of Front at concrete ledgers, and a run that warns.
use deepwork_browser.Prelude.{ℕ, String, List, [], ◌∷◌, some, ◌≡◌, refl}
use deepwork_browser.Front.Ledger.{FrontEvent, front_flip_warning}
use deepwork_browser.Front.Warning.{Switch}

abbrev flip : String → ℕ → FrontEvent
flip target at = record { target = target; pid = 7; at = at }

abbrev contended : List FrontEvent
contended = flip "a" 1 ∷ flip "b" 2 ∷ flip "a" 3 ∷ flip "b" 4 ∷ []

two_targets : front_flip_warning contended ≡ some (record { span = 3; targets = 2; processes = 1 })
unfolding front_flip_warning
two_targets = refl

abbrev switch : ℕ → Switch
switch at = record { target = "a"; pid = 7; at = at }
