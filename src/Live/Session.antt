-- ===== src/Live/Session.antt =====
-- `NewBrowserSession` of browser/browser_session.go: the callback that carries a change of the gateway
-- to the authority. It reads the gateway four times, each under its own lock.
use deepwork_browser.Prelude.{
  not, ◌&&◌, ◌++◌, ◌∙◌, sym, ap, ℕ, ◌/◌, String, Bool, true, false, List, [], ◌∷◌, none, some,
  arith, any, any-append, if◌then◌else◌, nat_eq, ◌≡◌, refl, Option-cases, inl, inr,
}
use deepwork_browser.Input.Gateway.{
  holds, track_input_state_locked, reset_idle_timer_locked, on_reconnect, on_disconnect,
  release_all_locked, Gateway, Mode, observe, takeover, Effect, notified, request_takeover,
  release_takeover, timer_callback, end_takeover,
}
use deepwork_browser.Input.Handle.{renew}
use deepwork_browser.Input.Step.{
  run, call_back, Event, requests, releases, renews, disconnects, reconnects, runs_out, calls_back,
  step, find_firing, without_firing,
}
use deepwork_browser.Live.Authority.{Authority, SessionState, update_mode}

abbrev pub mode_text : Mode → String
mode_text observe = "observe"
mode_text takeover = "takeover"

-- `exp.UnixMilli()` of a time that is not zero.
abbrev pub unix_milli : ℕ → ℕ
unix_milli t = if nat_eq t 0 then 0 else t / 1_000_000

-- What the four reads find; between them the gateway may change.
unfoldable pub on_state_change : Gateway → Gateway → Gateway → Gateway → Authority → Authority
unfolding update_mode
on_state_change first second third fourth a =
    update_mode (mode_text first.mode) second.owner third.lease_token
      (unix_milli fourth.lease_expiry) a

abbrev pub is_notified : Effect → Bool
is_notified notified = true
is_notified _ = false

-- What the steps of `Input.Step` set going.
unfoldable pub effects : Event → Gateway → List Effect
effects (requests conn now token) g = (request_takeover conn now token g).1
effects (releases conn) g = (release_takeover conn g).1
effects (renews conn now msg) g = (renew conn now msg g).1
effects (disconnects conn) g = []
effects (reconnects conn) g = []
effects (runs_out k) g = []
effects (calls_back k) g = elim (find_firing k g.timers.firing) [
  | none ↦ []
  | some t ↦ (timer_callback t.owner (without_firing k g)).1
]

-- A step, and the callback if the step notifies, with nothing in between.
unfoldable pub watch : Event → Gateway → Authority → Authority
unfolding on_state_change effects
watch e g a =
    let g' = step e g in if any is_notified (effects e g) then on_state_change g' g' g' g' a else a

-- The authority shows the gateway's mode, its owner and its token.
abbrev pub Shows : Gateway → SessionState → Type 0
Shows g s = (s.mode ≡ mode_text g.mode) × (s.owner ≡ g.owner) × (s.lease_token ≡ g.lease_token)

abbrev SameHolder : Gateway → Gateway → Type 0
SameHolder g h = (h.mode ≡ g.mode) × (h.owner ≡ g.owner) × (h.lease_token ≡ g.lease_token)

end_takeover-notified : (g : Gateway) → any is_notified (end_takeover g).1 ≡ true
unfolding end_takeover
end_takeover-notified g =
    ground (arith, any-append is_notified (release_all_locked g).1 (notified ∷ []))

silent_step :
    (e : Event) (g : Gateway) → any is_notified (effects e g) ≡ false → SameHolder g (step e g)
unfolding effects step request_takeover release_takeover renew timer_callback on_disconnect
    on_reconnect call_back reset_idle_timer_locked track_input_state_locked without_firing holds
silent_step (requests conn now token) g h = ground arith
silent_step (releases conn) g h = ground (arith, end_takeover-notified g)
silent_step (renews conn now msg) g h = ground arith
silent_step (disconnects conn) g h = ground arith
silent_step (reconnects conn) g h = ground arith
silent_step (runs_out k) g h = (refl, refl, refl)
silent_step (calls_back k) g h = elim (Option-cases (find_firing k g.timers.firing)) [
  | inl e ↦ ground (arith, e)
  | inr (t, e) ↦ ground (arith, e, end_takeover-notified (without_firing k g))
]

-- If the authority shows the gateway's mode, owner and token, it does so after any step, once the
-- callback that the step asks for has run with nothing in between.
pub watch-Shows :
    (e : Event) (g : Gateway) (a : Authority)
    → Shows g a.state
    → Shows (step e g) (watch e g a).state
unfolding watch
watch-Shows e g a s = ground (arith, silent_step e g)

-- No step of the run notifies.
unfoldable pub is_quiet : List Event → Gateway → Bool
unfolding effects step
is_quiet [] g = true
is_quiet (e ∷ es) g = not (any is_notified (effects e g)) && is_quiet es (step e g)

quiet_run : (es : List Event) (g : Gateway) → is_quiet es g ≡ true → SameHolder g (run es g)
unfolding is_quiet run
quiet_run [] g q = (refl, refl, refl)
quiet_run (e ∷ es) g q =
    let (m, o, t) = silent_step e g (ground (arith, q)) in
    let (m', o', t') = quiet_run es (step e g) (ground (arith, q)) in (m' ∙ m, o' ∙ o, t' ∙ t)

quiet-append :
    (es fs : List Event) (g : Gateway)
    → is_quiet (es ++ fs) g ≡ (is_quiet es g && is_quiet fs (run es g))
unfolding is_quiet run
quiet-append [] fs g = refl
quiet-append (e ∷ es) fs g = ground (arith, quiet-append es fs (step e g))

-- The four reads of a callback may come at any moments of a run. If no step notifies from its first read
-- on, then the authority that it writes shows the mode, the owner and the token that the gateway has at
-- the end, whatever other steps come between the reads and after them.
pub on_state_change-Shows :
    (es fs hs ks : List Event) (first : Gateway) (a : Authority)
    → is_quiet (es ++ (fs ++ (hs ++ ks))) first ≡ true
    → let second = run es first in
      let third = run fs second in
      let fourth = run hs third in
      Shows (run ks fourth) (on_state_change first second third fourth a).state
unfolding on_state_change
on_state_change-Shows es fs hs ks first a q =
    let second = run es first in
    let third = run fs second in
    let fourth = run hs third in
    let q1 = quiet-append es (fs ++ (hs ++ ks)) first in
    let q2 = quiet-append fs (hs ++ ks) second in
    let q3 = quiet-append hs ks third in
    let (m1, o1, t1) = quiet_run es first (ground (arith, q, q1)) in
    let (m2, o2, t2) = quiet_run fs second (ground (arith, q, q1, q2)) in
    let (m3, o3, t3) = quiet_run hs third (ground (arith, q, q1, q2, q3)) in
    let (m4, o4, t4) = quiet_run ks fourth (ground (arith, q, q1, q2, q3)) in
    (ap mode_text (sym (m4 ∙ m3 ∙ m2 ∙ m1)), sym (o4 ∙ o3 ∙ o2), sym (t4 ∙ t3))
