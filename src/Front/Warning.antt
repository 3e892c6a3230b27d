-- ===== src/Front/Warning.antt =====
-- When browser/browser_input_lock.go warns, and how long its ledger gets.
use deepwork_browser.Prelude.{
  nat_eq_iff, eq_iff, map, ℕ, suc, ◌≤◌, ◌-◌, String, false, List, [], ◌∷◌, none, arith, length,
  drop, keep, All, All-keep, All-drop, All-append, length-append, length-drop, ltb, if_cases_dep,
  ◌≡◌, refl,
}
use deepwork_browser.Front.Ledger.{
  distinct_numbers, distinct_strings, FrontEvent, front_flip_threshold, max_kept, is_recent,
  prune_front_events, record_bring_to_front, front_flip_warning,
}

-- A switch of the front.
pub record Switch : Type 0 where
  pub target : String
  pub pid : ℕ
  pub at : ℕ

-- The ledger after switches, from the first one, each with the warning left aside.
unfoldable pub ledger_after : List Switch → List FrontEvent → List FrontEvent
unfolding record_bring_to_front
ledger_after [] ledger = ledger
ledger_after (s ∷ ss) ledger =
    ledger_after ss (record_bring_to_front false s.target s.pid s.at ledger).0

abbrev Short : List FrontEvent → Type 0
Short l = length l ≤ max_kept

length-prune : (events : List FrontEvent) (now : ℕ) → Short (prune_front_events events now)
unfolding prune_front_events
length-prune events now =
    let kept = keep (is_recent now) events in
    if_cases_dep Short (ltb max_kept (length kept)) (drop (length kept - max_kept) kept) kept
      (λ long. ground (arith, length-drop (length kept - max_kept) kept)) (λ short. ground arith)

-- The events that one switch leaves in the ledger.
abbrev next_ledger : Switch → List FrontEvent → List FrontEvent
next_ledger s ledger = (record_bring_to_front false s.target s.pid s.at ledger).0

length-next_ledger :
    (s : Switch) (ledger : List FrontEvent) → length (next_ledger s ledger) ≤ suc max_kept
unfolding record_bring_to_front
length-next_ledger s ledger = omega (
  arith,
  length-prune ledger s.at,
  length-append (prune_front_events ledger s.at)
      (record { target = s.target; pid = s.pid; at = s.at } ∷ []),
)

-- The ledger has at most 33 entries once a switch is recorded, however long it was before.
pub length-ledger_after :
    (s : Switch) (ss : List Switch) (ledger : List FrontEvent)
    → length (ledger_after (s ∷ ss) ledger) ≤ suc max_kept
unfolding ledger_after
length-ledger_after s [] ledger = length-next_ledger s ledger
length-ledger_after s (r ∷ rs) ledger = length-ledger_after r rs (next_ledger s ledger)

-- The event is a switch by this process to this target.
abbrev pub By : String → ℕ → FrontEvent → Type 0
By t p e = (e.target ≡ t) × (e.pid ≡ p)

one_string :
    (t : String) (p : ℕ) (es : List FrontEvent)
    → All (By t p) es
    → length (distinct_strings (map (λ e. e.target) es)) ≤ 1
one_string t p [] h = omega arith
one_string t p (e ∷ []) h = omega arith
one_string t p (e ∷ d ∷ es) ((a, _), (k, h)) =
    ground (arith, one_string t p (d ∷ es) (k, h), k, eq_iff d.target e.target)

one_number :
    (t : String) (p : ℕ) (es : List FrontEvent)
    → All (By t p) es
    → length (distinct_numbers (map (λ e. e.pid) es)) ≤ 1
one_number t p [] h = omega arith
one_number t p (e ∷ []) h = omega arith
one_number t p (e ∷ d ∷ es) ((_, a), (k, h)) =
    ground (arith, one_number t p (d ∷ es) (k, h), k, nat_eq_iff d.pid e.pid)

no_warning :
    (t : String) (p : ℕ) (events : List FrontEvent)
    → All (By t p) events
    → front_flip_warning events ≡ none
unfolding front_flip_warning
no_warning t p events h =
    let recent = drop (length events - front_flip_threshold) events in
    let k = All-drop (By t p) (length events - front_flip_threshold) events h in
    ground (arith, one_string t p recent k, one_number t p recent k)

All-prune :
    (t : String) (p now : ℕ) (events : List FrontEvent)
    → All (By t p) events
    → All (By t p) (prune_front_events events now)
unfolding prune_front_events
All-prune t p now events h =
    let kept = keep (is_recent now) events in
    let k = All-keep (By t p) (is_recent now) events h in
    if_cases_dep (All (By t p)) (ltb max_kept (length kept)) (drop (length kept - max_kept) kept)
      kept (λ _. All-drop (By t p) (length kept - max_kept) kept k) (λ _. k)

-- While one process switches to one target only, the ledger has no other switch and there is no
-- warning, however fast the switches come.
pub record_bring_to_front-alone :
    (t : String) (p now : ℕ) (ledger : List FrontEvent)
    → All (By t p) ledger
    → let (ledger', warning) = record_bring_to_front false t p now ledger in
      All (By t p) ledger' × (warning ≡ none)
unfolding record_bring_to_front
record_bring_to_front-alone t p now ledger h =
    let k =
      All-append (By t p) (prune_front_events ledger now)
        (record { target = t; pid = p; at = now } ∷ []) (All-prune t p now ledger h)
        ((refl, refl), tt) in
    (k, no_warning t p _ k)
