-- ===== src/Session/Authority.antt =====
-- Who may act on a session: browser/session_observation.go.
use deepwork_browser.Prelude.{
  codes, ◌&&◌, any, inr, ◌⊎◌, inl, nat_eq, Bool, true, false, ◌||◌, List, [], ◌∷◌, none, some, Text,
  text_eq, is_empty, arith, ◌≡◌, refl, ap, ◌∙◌, if_cases_dep,
}
use deepwork_browser.Session.Info.{
  bind_error, agentic, shared, unavailable, takeover_active, SessionInfo, Snapshot, human,
  is_authority, set_session_authority, handed_over, invalidate_session_observation,
  validate_session_observation, session_allows_ai_input, apply_session_intervention,
  revoke_session_observation_geometry, bind_session_observation, bound_to,
  revalidate_session_human_focus, is_focus_kept,
}

-- The session while a person has it, and after they gave it back.
abbrev pub held : SessionInfo → SessionInfo
held info = (set_session_authority human info).0

abbrev pub given_back : Text → SessionInfo → SessionInfo
given_back a info = (set_session_authority a (held info)).0

held_previous :
    (info : SessionInfo)
    → text_eq info.authority_state human ≡ false
    → (held info).authority_previous_owner ≡ info.owner
unfolding set_session_authority handed_over is_authority invalidate_session_observation
held_previous info n = ground (arith, n)

handed_back :
    (a : Text) (info : SessionInfo)
    → text_eq a human ≡ false
    → text_eq info.authority_state human ≡ true
    → is_empty info.authority_previous_owner ≡ false
    → (handed_over a info).owner ≡ info.authority_previous_owner
unfolding handed_over
handed_back a info m t o = ground (arith, m, t, o)

set_owner :
    (a : Text) (info : SessionInfo)
    → is_authority a ≡ true
    → (set_session_authority a info).0.owner ≡ (handed_over a info).owner
unfolding set_session_authority invalidate_session_observation
set_owner a info v = ground (arith, v)

held_state : (info : SessionInfo) → text_eq (held info).authority_state human ≡ true
unfolding set_session_authority is_authority invalidate_session_observation
held_state info = refl

back_owner :
    (info : SessionInfo) (a : Text)
    → text_eq info.authority_state human ≡ false
    → is_authority a ≡ true
    → text_eq a human ≡ false
    → is_empty info.owner ≡ false
    → (given_back a info).owner ≡ info.owner
back_owner info a n v m o =
    set_owner a (held info) v
    ∙ handed_back a (held info) m (held_state info) (ap is_empty (held_previous info n) ∙ o)
    ∙ held_previous info n

-- When a person takes a session that has an owner and gives it back, no input of the agent is allowed
-- in between and all of it after that, the owner is the one from before, and no observation from
-- before is valid.
pub set_session_authority-set_session_authority :
    (info : SessionInfo) (a : Text)
    → text_eq info.authority_state human ≡ false
    → is_authority a ≡ true
    → text_eq a human ≡ false
    → is_empty info.owner ≡ false
    → (session_allows_ai_input (held info) ≡ some takeover_active)
      × (session_allows_ai_input (given_back a info) ≡ none)
      × ((given_back a info).owner ≡ info.owner)
      × (validate_session_observation (held info) ≡ some unavailable)
      × (validate_session_observation (given_back a info) ≡ some unavailable)
unfolding set_session_authority handed_over is_authority invalidate_session_observation
    validate_session_observation session_allows_ai_input
set_session_authority-set_session_authority info a n v m o =
    (ground arith, ground (arith, v, m), back_owner info a n v m o, ground arith, ground (arith, v))

pub data SessionOp : Type 0 where
  sets : Text → SessionOp
  binds : Snapshot → Text → Text → SessionOp
  revokes invalidates : SessionOp
  intervenes : Text → Text → Text → SessionOp

unfoldable pub apply : SessionOp → SessionInfo → SessionInfo
unfolding set_session_authority bind_session_observation revoke_session_observation_geometry
    invalidate_session_observation apply_session_intervention
apply (sets a) info = (set_session_authority a info).0
apply (binds snap id path) info = (bind_session_observation info snap id path).0
apply revokes info = revoke_session_observation_geometry info
apply invalidates info = invalidate_session_observation info
apply (intervenes operation kind now) info = (apply_session_intervention operation kind now info).0

unfoldable pub run : List SessionOp → SessionInfo → SessionInfo
unfolding apply
run [] info = info
run (op ∷ ops) info = run ops (apply op info)

abbrev pub HasNoFocus : SessionInfo → Type 0
HasNoFocus info = info.human_focus_backend_node_id ≡ 0

revalidate-HasNoFocus :
    (info : SessionInfo) (snap : Snapshot)
    → HasNoFocus info
    → HasNoFocus (revalidate_session_human_focus info snap)
unfolding revalidate_session_human_focus
revalidate-HasNoFocus info snap h =
    if_cases_dep HasNoFocus (is_focus_kept info snap) _ _ (λ _. h) (λ _. refl)

bound_to-HasNoFocus :
    (info : SessionInfo) (snap : Snapshot) (id path : Text)
    → HasNoFocus info
    → HasNoFocus (bound_to info snap id path)
unfolding bound_to
bound_to-HasNoFocus info snap id path h = revalidate-HasNoFocus info snap h

bind-HasNoFocus :
    (info : SessionInfo) (snap : Snapshot) (id path : Text)
    → HasNoFocus info
    → HasNoFocus (bind_session_observation info snap id path).0
unfolding bind_session_observation
bind-HasNoFocus info snap id path h = ground (arith, h, bound_to-HasNoFocus info snap id path)

apply-HasNoFocus :
    (op : SessionOp) (info : SessionInfo) → HasNoFocus info → HasNoFocus (apply op info)
unfolding apply
apply-HasNoFocus (sets a) info h =
    if_cases_dep (λ (r : SessionInfo × Bool). HasNoFocus (r.0)) (is_authority a) _ _ (λ _. refl)
      (λ _. h)
apply-HasNoFocus (binds snap id path) info h = bind-HasNoFocus info snap id path h
apply-HasNoFocus SessionOp.revokes info h = h
apply-HasNoFocus SessionOp.invalidates info h = refl
apply-HasNoFocus (intervenes operation kind now) info h =
    if_cases_dep (λ (r : SessionInfo × Bool). HasNoFocus (r.0))
      (is_empty operation || is_empty kind) _ _ (λ _. h) (λ _. refl)

run_from-HasNoFocus :
    (ops : List SessionOp) (info : SessionInfo) → HasNoFocus info → HasNoFocus (run ops info)
unfolding run
run_from-HasNoFocus [] info h = h
run_from-HasNoFocus (op ∷ ops) info h =
    run_from-HasNoFocus ops (apply op info) (apply-HasNoFocus op info h)

-- The capture does not prove again that the element has the focus: its document, its run or its target
-- is not that of the last observation, none of its refs is the element with the focus seen on it, the
-- authority is neither agentic nor shared, or the last action is unknown or in progress.
abbrev pub Unproven : SessionInfo → Snapshot → Type 0
Unproven info snap =
    (nat_eq info.observation_document_id snap.document_id ≡ false)
    ⊎ ((text_eq info.observation_run_id snap.runtime_run_id ≡ false)
        ⊎ ((text_eq info.observation_target_id snap.target_id ≡ false)
            ⊎ ((any
                    (λ r.
                      nat_eq r.backend_node_id info.human_focus_backend_node_id
                      && r.human_focus_verified)
                    snap.refs
                  ≡ false)
                ⊎ (((text_eq info.authority_state agentic || text_eq info.authority_state shared)
                      ≡ false)
                    ⊎ ((text_eq info.last_action_outcome (codes "unknown")
                          || text_eq info.last_action_outcome (codes "in_progress"))
                        ≡ true)))))

-- The operations that must take the proof of a focus away.
unfoldable pub TakesFocus : SessionOp → SessionInfo → Type 0
TakesFocus (sets a) info = is_authority a ≡ true
TakesFocus (binds snap id path) info = (bind_error info snap id ≡ none) × Unproven info snap
TakesFocus SessionOp.revokes info = ⊥
TakesFocus SessionOp.invalidates info = Unit
TakesFocus (intervenes operation kind now) info =
    (is_empty operation ≡ false) × (is_empty kind ≡ false)

Unproven-is_focus_kept :
    (info : SessionInfo) (snap : Snapshot) → Unproven info snap → is_focus_kept info snap ≡ false
unfolding is_focus_kept
Unproven-is_focus_kept info snap (inl h) = ground (arith, h)
Unproven-is_focus_kept info snap (inr (inl h)) = ground (arith, h)
Unproven-is_focus_kept info snap (inr (inr (inl h))) = ground (arith, h)
Unproven-is_focus_kept info snap (inr (inr (inr (inl h)))) = ground (arith, h)
Unproven-is_focus_kept info snap (inr (inr (inr (inr (inl h))))) = ground (arith, h)
Unproven-is_focus_kept info snap (inr (inr (inr (inr (inr h))))) = ground (arith, h)

revalidate-unproven :
    (info : SessionInfo) (snap : Snapshot)
    → is_focus_kept info snap ≡ false
    → HasNoFocus (revalidate_session_human_focus info snap)
unfolding revalidate_session_human_focus
revalidate-unproven info snap h = rw (revalidate_session_human_focus, h) refl

bind-unproven :
    (info : SessionInfo) (snap : Snapshot) (id path : Text)
    → bind_error info snap id ≡ none
    → is_focus_kept info snap ≡ false
    → HasNoFocus (bind_session_observation info snap id path).0
unfolding bind_session_observation bound_to
bind-unproven info snap id path e h =
    rw (bind_session_observation, e) (revalidate-unproven info snap h)

set-HasNoFocus :
    (a : Text) (info : SessionInfo)
    → is_authority a ≡ true
    → HasNoFocus (set_session_authority a info).0
unfolding set_session_authority invalidate_session_observation
set-HasNoFocus a info v = rw (set_session_authority, v) refl

takes-HasNoFocus :
    (op : SessionOp) (info : SessionInfo) → TakesFocus op info → HasNoFocus (apply op info)
unfolding apply TakesFocus
takes-HasNoFocus (sets a) info h = set-HasNoFocus a info h
takes-HasNoFocus (binds snap id path) info (e, h) =
    bind-unproven info snap id path e (Unproven-is_focus_kept info snap h)
takes-HasNoFocus SessionOp.revokes info h = elim h [ ]
takes-HasNoFocus SessionOp.invalidates info h = refl
takes-HasNoFocus (intervenes operation kind now) info (o, k) =
    if_cases_dep (λ (r : SessionInfo × Bool). HasNoFocus (r.0))
      (is_empty operation || is_empty kind) _ _ (λ c. ground (arith, c, o, k)) (λ _. refl)

-- A change to a valid authority, an intervention with an operation and a kind, an invalidation, and the
-- accepted binding of a capture that does not prove the focus again, in the sense of Unproven, take the
-- proof of a focus away, and no later change of authority, binding, revocation, invalidation or
-- intervention brings it back. The inputs that record a new proof are none of these operations.
pub run-HasNoFocus :
    (op : SessionOp) (ops : List SessionOp) (info : SessionInfo)
    → TakesFocus op info
    → HasNoFocus (run (op ∷ ops) info)
unfolding run
run-HasNoFocus op ops info h = run_from-HasNoFocus ops (apply op info) (takes-HasNoFocus op info h)
