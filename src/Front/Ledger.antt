-- ===== src/Front/Ledger.antt =====
-- `RecordBringToFront` of browser/browser_input_lock.go. Times are nanoseconds; the ledger is what the
-- file holds, and the empty list where it cannot be read. The text of the warning is left out but for
-- what it tells: the span, the targets and the processes.
use deepwork_browser.Prelude.{
  ℕ, ◌+◌, ◌-◌, String, Bool, ◌&&◌, List, [], ◌∷◌, ◌++◌, Option, none, some, if◌then◌else◌, ltb,
  nat_eq, ◌==◌, length, drop, keep, any, last?, map,
}

pub record FrontEvent : Type 0 where
  pub target : String
  pub pid : ℕ
  pub at : ℕ

abbrev pub front_flip_window : ℕ
front_flip_window = 5_000_000_000

abbrev pub front_flip_threshold : ℕ
front_flip_threshold = 4

abbrev pub max_kept : ℕ
max_kept = 32

-- `e.At.After(now.Add(-frontFlipWindow))`, with the window on the other side.
abbrev pub is_recent : ℕ → FrontEvent → Bool
is_recent now e = ltb now (e.at + front_flip_window)

unfoldable pub prune_front_events : List FrontEvent → ℕ → List FrontEvent
prune_front_events events now =
    let kept = keep (is_recent now) events in
    if ltb max_kept (length kept) then drop (length kept - max_kept) kept else kept

-- The keys of a Go map that was filled from a list: each once.
abbrev pub distinct_strings : List String → List String
distinct_strings [] = []
distinct_strings (x ∷ xs) =
    let rest = distinct_strings xs in if any (λ y. y == x) xs then rest else x ∷ rest

abbrev pub distinct_numbers : List ℕ → List ℕ
distinct_numbers [] = []
distinct_numbers (x ∷ xs) =
    let rest = distinct_numbers xs in if any (λ y. nat_eq y x) xs then rest else x ∷ rest

pub record Warning : Type 0 where
  pub span : ℕ
  pub targets : ℕ
  pub processes : ℕ

-- The time from the first event to the last; the clock of a ledger may run backwards, then it is 0
-- here and negative in the code, and within the window in both.
abbrev pub span_of : List FrontEvent → ℕ
span_of [] = 0
span_of (e ∷ es) = elim (last? (e ∷ es)) [ none ↦ 0 | some l ↦ l.at - e.at ]

unfoldable pub front_flip_warning : List FrontEvent → Option Warning
front_flip_warning events =
    if ltb (length events) front_flip_threshold
    then none
    else (let recent = drop (length events - front_flip_threshold) events in
        let targets = length (distinct_strings (map (λ e. e.target) recent)) in
        let processes = length (distinct_numbers (map (λ e. e.pid) recent)) in
        if ltb targets 2 && ltb processes 2
        then none
        else if ltb front_flip_window (span_of recent)
        then none
        else some (record { span = span_of recent; targets = targets; processes = processes }))

-- `blank_key`: the key of the browser has nothing but white space.
unfoldable pub record_bring_to_front :
    Bool → String → ℕ → ℕ → List FrontEvent → List FrontEvent × Option Warning
unfolding prune_front_events front_flip_warning
record_bring_to_front blank_key target pid now ledger =
    if blank_key
    then (ledger, none)
    else (let events =
          prune_front_events ledger now ++ record { target = target; pid = pid; at = now } ∷ [] in
        (events, front_flip_warning events))
