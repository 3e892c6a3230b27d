-- ===== src/Track/Close.antt =====
-- What a close of browser/target_tracker.go leaves.
use deepwork_browser.Prelude.{
  ℕ, String, false, map, none, arith, refl, is_some, ◌==◌, eq_iff, eq_refl, ◌≡◌, inl, inr, ap, ◌∙◌,
  lookup, lookup-delete, Option-cases,
}
use deepwork_browser.Track.State.{Tracker, target_id_in_order}
use deepwork_browser.Track.Events.{forget_target, handle_target_destroyed}
use deepwork_browser.Track.Commands.{Answers, close_target, close_switched, list_targets}
use deepwork_browser.Track.Invariant.{IsTracked}
use deepwork_browser.Track.Listing.{id_of, list_targets-order}
use deepwork_browser.Track.Obeyed.{close_target-IsTracked}

handle_target_destroyed-gone :
    (id : String) (tk : Tracker) → lookup id (handle_target_destroyed id tk).0.targets ≡ none
unfolding handle_target_destroyed forget_target
handle_target_destroyed-gone id tk = elim (Option-cases (lookup id tk.targets)) [
  | inl e ↦ rw (handle_target_destroyed, e) e
  | inr (t, e) ↦
      rw (handle_target_destroyed, e) (lookup-delete id id tk.targets ∙ rw (eq_refl id) refl)
]

close_target-lookup :
    (now : ℕ) (answers : Answers) (meanwhile : Tracker → Tracker) (id : String) (tk : Tracker)
    → (close_target now answers meanwhile id tk).2 ≡ none
    → lookup id (close_target now answers meanwhile id tk).0.targets ≡ none
unfolding close_target
close_target-lookup now answers meanwhile id tk h =
    ground
      (arith, h, handle_target_destroyed-gone id (meanwhile (close_switched now answers id tk).0))

close_target-named :
    (now : ℕ) (answers : Answers) (meanwhile : Tracker → Tracker) (id : String) (tk : Tracker)
    → (close_target now answers meanwhile id tk).2 ≡ none
    → (id == "") ≡ false
unfolding close_target
close_target-named now answers meanwhile id tk h = ground (arith, h)

-- A close that reports success leaves the target neither in the listing nor in front, whatever the
-- browser and other callers do in the meantime, as long as they keep the tracker consistent.
pub close_target-gone :
    (now : ℕ) (answers : Answers) (meanwhile : Tracker → Tracker) (id : String) (tk : Tracker)
    → ((t : Tracker) → IsTracked t → IsTracked (meanwhile t))
    → IsTracked tk
    → (close_target now answers meanwhile id tk).2 ≡ none
    → (target_id_in_order id (map id_of (list_targets (close_target now answers meanwhile id tk).0))
        ≡ false)
      × (((close_target now answers meanwhile id tk).0.active_id == id) ≡ false)
close_target-gone now answers meanwhile id tk m c h =
    let c' = close_target-IsTracked now answers meanwhile id tk m c in
    let gone = close_target-lookup now answers meanwhile id tk h in
    (
      rw (list_targets-order (close_target now answers meanwhile id tk).0 c')
          (c'.ordered id ∙ ap is_some gone),
      ground (
        arith,
        c'.active_is_target,
        gone,
        close_target-named now answers meanwhile id tk h,
        eq_iff (close_target now answers meanwhile id tk).0.active_id id,
      ),
    )
