-- ===== src/Track/Queues.antt =====
-- The queues of hints and claims of browser/target_tracker.go.
use deepwork_browser.Prelude.{ℕ, zero, suc, ◌≤◌, ◌-◌, List, [], ◌∷◌, arith, length, length-drop}
use deepwork_browser.Track.Attribution.{target_max_attribution_hints, trim_hint_queue, remove_at}

module _ {ℓ} {A : Type ℓ} where
  pub length-remove_at : (i : ℕ) (xs : List A) → length (remove_at i xs) ≤ length xs
  unfolding remove_at
  length-remove_at i [] = omega arith
  length-remove_at zero (x ∷ xs) = omega arith
  length-remove_at (suc i) (x ∷ xs) = omega (arith, length-remove_at i xs)

  pub trim_hint_queue-capped :
      (xs : List A) → length (trim_hint_queue xs) ≤ target_max_attribution_hints
  unfolding trim_hint_queue
  trim_hint_queue-capped xs =
      ground (arith, length-drop (length xs - target_max_attribution_hints) xs)
