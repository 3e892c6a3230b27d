-- ===== src/Live/Drift.antt =====
-- The throttle of the notifications in `HandleInput` of browser/input_gateway.go: a renewal compares
-- the lease with the one it replaces, not with the one that was last shown.
use mathlib.Core.Path.{subst}
use deepwork_browser.Prelude.{
  ◌∙◌, ap, sym, ℕ, ◌+◌, ◌≤◌, String, true, false, List, [], ◌∷◌, arith, any, ◌≡◌, refl, ◌==◌,
}
use deepwork_browser.Input.Event.{InputMessage}
use deepwork_browser.Input.Gateway.{
  track_input_state_locked, reset_idle_timer_locked, Gateway, holds,
}
use deepwork_browser.Input.Handle.{renew, second}
use deepwork_browser.Input.Step.{step, renews}
use deepwork_browser.Live.Authority.{Authority}
use deepwork_browser.Live.Session.{effects, watch, is_notified}

-- Inputs of a connection at several times, each with the callback that it asks for.
unfoldable pub watch_all :
    String → List (ℕ × InputMessage) → Gateway → Authority → Gateway × Authority
unfolding step watch
watch_all conn [] g a = (g, a)
watch_all conn ((t, msg) ∷ inputs) g a =
    watch_all conn inputs (step (renews conn t msg) g) (watch (renews conn t msg) g a)

-- Each input has the token, and comes at most a second after the one before.
abbrev pub Close : String → ℕ → List (ℕ × InputMessage) → Type 0
Close token before [] = Unit
Close token before ((t, msg) ∷ inputs) =
    ((msg.lease == token) ≡ true) × (t ≤ before + second) × Close token t inputs

abbrev pub final : ℕ → List (ℕ × InputMessage) → ℕ
final before [] = before
final before ((t, msg) ∷ inputs) = final t inputs

renew-silent :
    (conn : String) (msg : InputMessage) (before t : ℕ) (g : Gateway)
    → holds g conn ≡ true
    → (msg.lease == g.lease_token) ≡ true
    → g.lease_expiry ≡ before + g.idle_timeout
    → t ≤ before + second
    → let h = (renew conn t msg g).0 in
      (any is_notified (renew conn t msg g).1 ≡ false)
      × (holds h conn ≡ true)
      × (h.lease_token ≡ g.lease_token)
      × (h.lease_expiry ≡ t + g.idle_timeout)
      × (h.idle_timeout ≡ g.idle_timeout)
unfolding renew holds reset_idle_timer_locked track_input_state_locked
renew-silent conn msg before t g h l e c = ground arith

silent-watch :
    (conn : String) (msg : InputMessage) (t : ℕ) (g : Gateway) (a : Authority)
    → any is_notified (renew conn t msg g).1 ≡ false
    → watch (renews conn t msg) g a ≡ a
unfolding watch effects
silent-watch conn msg t g a h = rw (watch, h) refl

renews-step :
    (conn : String) (msg : InputMessage) (t : ℕ) (g : Gateway)
    → step (renews conn t msg) g ≡ (renew conn t msg g).0
unfolding step
renews-step conn msg t g = refl

-- If every input of the holder, whatever the input is, has the token and comes at most a second after
-- the one before, the first after the input that the expiry goes back to, then each extends the lease
-- and none changes the session authority: the expiry that the session shows stays what it was before the
-- first of them, however long they go on.
pub watch_all-silent :
    (conn : String) (before : ℕ) (inputs : List (ℕ × InputMessage)) (g : Gateway) (a : Authority)
    → holds g conn ≡ true
    → g.lease_expiry ≡ before + g.idle_timeout
    → Close g.lease_token before inputs
    → ((watch_all conn inputs g a).1 ≡ a)
      × ((watch_all conn inputs g a).0.lease_expiry ≡ final before inputs + g.idle_timeout)
unfolding watch_all
watch_all-silent conn before [] g a h e c = (refl, e)
watch_all-silent conn before ((t, msg) ∷ inputs) g a h e (l, p, c) =
    let (s, h', l', e', i) = renew-silent conn msg before t g h l e p in
    let g1 = (renew conn t msg g).0 in
    let (same, expiry) =
      watch_all-silent conn t inputs g1 a h' (e' ∙ ap (λ n. t + n) (sym i))
        (subst (λ k. Close k t inputs) (sym l') c) in
    let first = silent-watch conn msg t g a s in
    (
      ap (λ b. (watch_all conn inputs (step (renews conn t msg) g) b).1) first
          ∙ ap (λ x. (watch_all conn inputs x a).1) (renews-step conn msg t g)
          ∙ same,
      ap (λ b. (watch_all conn inputs (step (renews conn t msg) g) b).0.lease_expiry) first
          ∙ ap (λ x. (watch_all conn inputs x a).0.lease_expiry) (renews-step conn msg t g)
          ∙ expiry
          ∙ ap (λ n. final t inputs + n) i,
    )
