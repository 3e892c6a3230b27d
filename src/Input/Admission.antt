-- ===== src/Input/Admission.antt =====
-- What `HandleInput` of browser/input_gateway.go lets through.
use deepwork_browser.Prelude.{
  ℕ, ◌+◌, ◌≤◌, ◌≡◌, ◌↔◌, ◌≢◌, ◌⊎◌, Bool, true, false, ◌&&◌, ◌||◌, String, none, List, [], ◌∷◌,
  arith, ◌==◌, eq_iff,
}
use deepwork_browser.Input.Event.{InputMessage, accepted, rejected}
use deepwork_browser.Input.Gateway.{
  Gateway, takeover, holds, Effect, dispatched, tracked_keys, tracked_btns,
}
use deepwork_browser.Input.Handle.{
  refusal, still_authorized, Surroundings, attempt, renew, handle_input, is_dispatchable,
}

-- The lease under which a message may be dispatched.
pub record IsAuthorized (conn : String) (now : ℕ) (msg : InputMessage) (g : Gateway) : Type 0 where
  pub in_takeover : g.mode ≡ takeover
  pub is_owner : g.owner ≡ conn
  pub has_lease : msg.lease ≡ g.lease_token
  pub in_time : now ≤ g.lease_expiry

pub refusal-eq-none_iff :
    (conn : String) (now : ℕ) (msg : InputMessage) (g : Gateway)
    → (refusal conn now msg g ≡ none) ↔ IsAuthorized conn now msg g
unfolding refusal
refusal-eq-none_iff conn now msg g =
    ground (arith, eq_iff g.owner conn, eq_iff msg.lease g.lease_token)

pub still_authorized_iff :
    (conn : String) (now : ℕ) (msg : InputMessage) (g : Gateway)
    → (still_authorized conn now msg g ≡ true) ↔ IsAuthorized conn now msg g
unfolding still_authorized
still_authorized_iff conn now msg g =
    ground (arith, eq_iff g.owner conn, eq_iff msg.lease g.lease_token)

abbrev is_dispatched : Effect → Bool
is_dispatched (dispatched e) = true
is_dispatched _ = false

abbrev pub dispatches : List Effect → Bool
dispatches [] = false
dispatches (x ∷ xs) = is_dispatched x || dispatches xs

-- The event is handed to the browser only if the sender held the takeover, under the message's lease
-- and before it ran out, both when the message came in and again under the browser's input lock.
pub handle_input-IsAuthorized :
    (w : Surroundings) (conn : String) (msg : InputMessage) (g : Gateway)
    → dispatches (handle_input w conn msg g).1 ≡ true
    → IsAuthorized conn w.first_now msg g × IsAuthorized conn w.second_now msg (w.before_lock g)
unfolding handle_input
handle_input-IsAuthorized w conn msg g h = ground (
  arith,
  refusal-eq-none_iff conn w.first_now msg g,
  still_authorized_iff conn w.second_now msg (w.before_lock g),
)

-- A rejected message is not dispatched, calls nothing back and renews no lease.
pub handle_input-rejected :
    (w : Surroundings) (conn : String) (msg : InputMessage) (g : Gateway)
    → (handle_input w conn msg g).2.status ≡ rejected
    → ((handle_input w conn msg g).1 ≡ [])
      × (((handle_input w conn msg g).0 ≡ g) ⊎ ((handle_input w conn msg g).0 ≡ w.before_lock g))
      × ((refusal conn w.first_now msg g ≢ none)
          ⊎ (still_authorized conn w.second_now msg (w.before_lock g) ≡ false))
unfolding handle_input
handle_input-rejected w conn msg g h = ground arith

-- An accepted message was dispatched if its type is known. If its sender still holds the same lease
-- afterwards, the lease is extended by the idle timeout and the event is tracked; if not, the gateway
-- is as the others left it. In both cases nothing else of the lease changes.
pub handle_input-accepted :
    (w : Surroundings) (conn : String) (msg : InputMessage) (g : Gateway)
    → (handle_input w conn msg g).2.status ≡ accepted
    → let after = w.during_dispatch (w.before_lock g) in
      let g' = (handle_input w conn msg g).0 in
      (is_dispatchable msg.event ≡ dispatches (handle_input w conn msg g).1)
      × (((holds after conn ≡ true)
            × (msg.lease ≡ after.lease_token)
            × (g'.lease_expiry ≡ w.third_now + after.idle_timeout)
            × (g'.pressed_keys ≡ tracked_keys msg.event after.pressed_keys)
            × (g'.pressed_btns ≡ tracked_btns msg.event after.pressed_btns)
            × (g'.lease_token ≡ after.lease_token))
          ⊎ ((((holds after conn && msg.lease == after.lease_token) ≡ false)) × (g' ≡ after)))
unfolding handle_input attempt renew
handle_input-accepted w conn msg g h =
    ground (arith, eq_iff msg.lease (w.during_dispatch (w.before_lock g)).lease_token)
