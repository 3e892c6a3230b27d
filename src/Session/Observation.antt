-- ===== src/Session/Observation.antt =====
-- How long an observation of browser/session_observation.go is valid.
use deepwork_browser.Prelude.{
  ℕ, true, false, [], ◌∷◌, none, Text, text_eq, text_eq_sound, text_eq_refl, trim_space, is_empty,
  arith, ◌≡◌, ◌↔◌, refl, sym, ap, ◌∙◌, Option-cases, inl, inr,
}
use deepwork_browser.Session.Info.{
  SessionInfo, Snapshot, bind_session_observation, bind_error, bound_to,
  validate_session_observation,
}

text_eq_iff : (s t : Text) → (text_eq s t ≡ true) ↔ (s ≡ t)
text_eq_iff s t = (text_eq_sound s t, λ e. ap (text_eq s) (sym e) ∙ text_eq_refl s)

-- Where a session stands: its page, its target, its run and its viewport.
pub record Place : Type 0 where
  pub url : Text
  pub target : Text
  pub run : Text
  pub width : ℕ
  pub height : ℕ

abbrev pub moved_to : Place → SessionInfo → SessionInfo
moved_to p info = record info {
  page_url = p.url;
  target_id = p.target;
  browser_run_id = p.run;
  viewport_w = p.width;
  viewport_h = p.height;
}

bind_id :
    (info : SessionInfo) (snap : Snapshot) (id : Text)
    → bind_error info snap id ≡ none
    → is_empty id ≡ false
unfolding bind_error trim_space
bind_id info snap [] h = ground (arith, h)
bind_id info snap (c ∷ id) h = refl

validate_moved :
    (info : SessionInfo) (snap : Snapshot) (id path : Text) (p : Place)
    → is_empty id ≡ false
    → (validate_session_observation (moved_to p (bound_to info snap id path)) ≡ none) ↔ (
        (snap.url ≡ p.url)
        × (info.target_id ≡ p.target)
        × (info.browser_run_id ≡ p.run)
        × (info.viewport_w ≡ p.width)
        × (info.viewport_h ≡ p.height))
unfolding validate_session_observation bound_to
validate_moved info snap id path p h = ground (
  arith,
  h,
  text_eq_iff snap.url p.url,
  text_eq_iff info.target_id p.target,
  text_eq_iff info.browser_run_id p.run,
)

-- An observation that was bound to a session is valid exactly while the session is on the page that
-- was captured, and on the target, the run and the viewport of the binding.
pub validate-bind_session_observation :
    (info : SessionInfo) (snap : Snapshot) (id path : Text) (p : Place)
    → (bind_session_observation info snap id path).1 ≡ none
    → (validate_session_observation (moved_to p (bind_session_observation info snap id path).0)
        ≡ none)
      ↔ ((snap.url ≡ p.url)
          × (info.target_id ≡ p.target)
          × (info.browser_run_id ≡ p.run)
          × (info.viewport_w ≡ p.width)
          × (info.viewport_h ≡ p.height))
unfolding bind_session_observation
validate-bind_session_observation info snap id path p h =
    elim (Option-cases (bind_error info snap id)) [
      | inl e ↦
          rw (bind_session_observation, e)
            (validate_moved info snap id path p (bind_id info snap id e))
      | inr (err, e) ↦ absurd (ground (arith, e, h))
    ]
