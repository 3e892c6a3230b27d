-- ===== src/Track/Tests.antt =====
-- The theorems of Track at a concrete tracker, and a run that shows the waiting target.
use deepwork_browser.Prelude.{
  ℕ, List, [], ◌∷◌, String, true, false, map, none, some, ◌==◌, ◌≡◌, refl, lookup,
}
use deepwork_browser.Track.State.{
  current_source_target_locked, TargetInfo, Tracker, new_target_tracker, target_id_in_order,
}
use deepwork_browser.Track.Events.{
  created, info_changed, destroyed, handle_target_created, handle_target_info_changed,
}
use deepwork_browser.Track.Commands.{Answers, close_target, list_targets}
use deepwork_browser.Targets.Select.{is_blank_target_url}
use deepwork_browser.Track.Invariant.{IsTracked}
use deepwork_browser.Track.Run.{
  receives, switches, opens_window, TrackerOps, done, then_op, run, run-IsTracked,
  primary-IsTracked,
}
use deepwork_browser.Track.Listing.{id_of}
use deepwork_browser.Track.Attention.{StaysOrFollows, handle_target_created-IsAttributed}
use deepwork_browser.Track.Close.{close_target-gone}
use deepwork_browser.Track.Waiting.{after_changes, after_changes-follows}
use deepwork_browser.Track.Stale.{left, run-stale_pending}

abbrev page : String → String → String → TargetInfo
page id url title = record {
  target_id = id;
  type = "page";
  url = url;
  title = title;
  opener_id = "";
}

abbrev quiet : Answers
quiet = record { can_activate = λ _. true; page_info = λ _. none }

abbrev start : Tracker
start = new_target_tracker 0 (some "p")

start-IsTracked : IsTracked start
start-IsTracked = primary-IsTracked 0 "p" refl

-- A click opens a blank window, which then waits for its URL.
abbrev opening : TrackerOps
opening =
    then_op (opens_window 5 "" "" "" true)
      (then_op (receives 6 (created (page "n" "about:blank" ""))) done)

abbrev opened : Tracker
opened = run opening start

opened-IsTracked : IsTracked opened
opened-IsTracked = run-IsTracked opening start start-IsTracked

-- The user goes to it before it has one.
abbrev visiting : TrackerOps
visiting = then_op (switches 7 quiet none "n") done

abbrev visited : Tracker
visited = run visiting opened

run-IsTracked_example : IsTracked visited
run-IsTracked_example = run-IsTracked visiting opened opened-IsTracked

handle_target_created-IsAttributed_example :
    StaysOrFollows 6
      (page "n" "https://a/" "")
      start
      (handle_target_created 6 (page "n" "https://a/" "") start)
handle_target_created-IsAttributed_example =
    handle_target_created-IsAttributed 6 (page "n" "https://a/" "") start refl

-- The browser reports the end of the target while it closes it.
abbrev meanwhile : TrackerOps
meanwhile = then_op (receives 9 (destroyed "n")) done

close_target-gone_example :
    (target_id_in_order "n"
        (map id_of (list_targets (close_target 8 quiet (run meanwhile) "n" opened).0))
      ≡ false)
    × (((close_target 8 quiet (run meanwhile) "n" opened).0.active_id == "n") ≡ false)
unfolding is_blank_target_url lookup run
close_target-gone_example =
    close_target-gone 8 quiet (run meanwhile) "n" opened (run-IsTracked meanwhile) opened-IsTracked
      refl

-- The page opens a popup, whose title comes before its URL.
abbrev popup : String → String → TargetInfo
popup url title = record (page "n" url title) { opener_id = "p" }

abbrev titled : List (ℕ × TargetInfo)
titled = (7, popup "about:blank" "") ∷ (8, popup "" "Popup") ∷ []

after_changes-follows_example :
    let waiting = after_changes titled (handle_target_created 6 (popup "about:blank" "") start).0 in
    (waiting.active_id ≡ "p")
    × ((handle_target_info_changed 9 (popup "https://a/" "Popup") waiting).0.active_id ≡ "n")
    × (target_id_in_order "n"
          (handle_target_info_changed 9 (popup "https://a/" "Popup") waiting).0.pending_switch
        ≡ false)
unfolding is_blank_target_url lookup current_source_target_locked
after_changes-follows_example =
    after_changes-follows 6 9 (popup "about:blank" "") (popup "https://a/" "Popup") titled start
      refl refl refl refl refl refl refl (refl, refl, refl, (refl, refl, refl, tt)) refl refl refl

run-stale_pending_example :
    ((run (left 8 quiet (page "n" "https://a/" "") "p" done) visited).active_id ≡ "p")
    × ((run
          (left 8 quiet
            (page "n" "https://a/" "")
            "p"
            (then_op (receives 8 (info_changed (page "n" "https://a/" ""))) done))
          visited).active_id
        ≡ "n")
unfolding is_blank_target_url lookup run
run-stale_pending_example =
    run-stale_pending 8 quiet (page "n" "https://a/" "") "p" visited run-IsTracked_example refl refl
      refl refl refl refl refl refl
