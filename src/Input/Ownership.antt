-- ===== src/Input/Ownership.antt =====
-- Who holds the takeover: `RequestTakeover`, `ReleaseTakeover` and the timers of
-- browser/input_gateway.go, over every interleaving.
use deepwork_browser.Prelude.{
  ℕ, ◌+◌, ◌-◌, ◌≡◌, ◌∙◌, ◌↔◌, refl, eq_refl, ◌⊎◌, inl, inr, true, String, Option, some, [], arith,
  Option-cases, eq_iff,
}
use deepwork_browser.Input.Event.{InputMessage}
use deepwork_browser.Input.Timers.{Timer}
use deepwork_browser.Input.Gateway.{
  Gateway, observe, granted, held_by, holds, request_takeover, release_takeover, on_disconnect,
  on_reconnect, timer_callback,
}
use deepwork_browser.Input.Handle.{renew}
use deepwork_browser.Input.Step.{
  Event, requests, releases, renews, disconnects, reconnects, runs_out, calls_back, find_firing,
  call_back, without_firing, step,
}

-- The steps that may end the takeover of a connection: its own release, and the callback of a timer
-- that was set for it.
abbrev pub Ends : String → Event → Gateway → Type 0
Ends conn (releases c) g = c ≡ conn
Ends conn (calls_back k) g =
    (t : Timer) × (find_firing k g.timers.firing ≡ some t) × (t.owner ≡ conn)
Ends conn _ g = ⊥

-- The steps after which it may hold another lease: its own request.
abbrev pub ReplacesLease : String → Event → Type 0
ReplacesLease conn (requests c now token) = c ≡ conn
ReplacesLease conn _ = ⊥

request_takeover-holds :
    (g : Gateway) (conn c : String) (now : ℕ) (token : Option String)
    → holds g conn ≡ true
    → (holds (request_takeover c now token g).0 conn ≡ true)
      × (((request_takeover c now token g).0.lease_token ≡ g.lease_token) ⊎ (c ≡ conn))
unfolding request_takeover holds
request_takeover-holds g conn c now token h =
    ground (arith, eq_iff g.owner conn, eq_iff g.owner c, eq_iff c conn)

release_takeover-holds :
    (g : Gateway) (conn c : String)
    → holds g conn ≡ true
    → (release_takeover c g).0 ≡ g ⊎ (c ≡ conn)
unfolding release_takeover holds
release_takeover-holds g conn c h = ground (arith, eq_iff g.owner conn, eq_iff g.owner c)

renew-holds :
    (g : Gateway) (conn c : String) (now : ℕ) (msg : InputMessage)
    → (holds (renew c now msg g).0 conn ≡ holds g conn)
      × ((renew c now msg g).0.lease_token ≡ g.lease_token)
unfolding renew holds
renew-holds g conn c now msg = ground arith

timer_callback-holds :
    (g : Gateway) (conn owner : String)
    → holds g conn ≡ true
    → (timer_callback owner g).0 ≡ g ⊎ (owner ≡ conn)
unfolding timer_callback holds
timer_callback-holds g conn owner h = ground (arith, eq_iff g.owner conn, eq_iff g.owner owner)

on_disconnect-holds :
    (g : Gateway) (conn c : String)
    → (holds (on_disconnect c g) conn ≡ holds g conn)
      × ((on_disconnect c g).lease_token ≡ g.lease_token)
unfolding on_disconnect holds
on_disconnect-holds g conn c = ground arith

on_reconnect-holds :
    (g : Gateway) (conn c : String)
    → (holds (on_reconnect c g) conn ≡ holds g conn)
      × ((on_reconnect c g).lease_token ≡ g.lease_token)
unfolding on_reconnect holds
on_reconnect-holds g conn c = ground arith

-- A connection keeps its takeover.
abbrev pub Keeps : String → Event → Gateway → Gateway → Type 0
Keeps conn e g h = (holds h conn ≡ true) × ((h.lease_token ≡ g.lease_token) ⊎ ReplacesLease conn e)

call_back-Keeps :
    (g : Gateway) (conn : String) (k : ℕ)
    → holds g conn ≡ true
    → Keeps conn (calls_back k) g (call_back k g) ⊎ Ends conn (calls_back k) g
unfolding call_back holds
call_back-Keeps g conn k h = elim (Option-cases (find_firing k g.timers.firing)) [
  | inl e ↦ inl (rw (e, call_back) (h, inl refl))
  | inr (t, e) ↦ elim (timer_callback-holds (without_firing k g) conn t.owner h) [
    | inl same ↦ inl (rw (e, call_back) (rw same (h, inl refl)))
    | inr own ↦ inr (t, e, own)
  ]
]

-- Whatever another connection, the runtime or a timer does, the connection that holds the takeover
-- keeps it, and its lease with it; only its own release or the callback of a timer that was set for
-- it may end the takeover, and only its own request may replace the lease.
pub step-Keeps :
    (e : Event) (g : Gateway) (conn : String)
    → holds g conn ≡ true
    → Keeps conn e g (step e g) ⊎ Ends conn e g
unfolding step holds
step-Keeps (requests c now token) g conn h =
    let (held, lease) = request_takeover-holds g conn c now token h in inl (held, lease)
step-Keeps (releases c) g conn h = elim (release_takeover-holds g conn c h) [
  | inl same ↦ inl (rw same (h, inl refl))
  | inr own ↦ inr own
]
step-Keeps (renews c now msg) g conn h =
    let (held, lease) = renew-holds g conn c now msg in inl (held ∙ h, inl lease)
step-Keeps (disconnects c) g conn h =
    let (held, lease) = on_disconnect-holds g conn c in inl (held ∙ h, inl lease)
step-Keeps (reconnects c) g conn h =
    let (held, lease) = on_reconnect-holds g conn c in inl (held ∙ h, inl lease)
step-Keeps (runs_out k) g conn h = inl (h, inl refl)
step-Keeps (calls_back k) g conn h = call_back-Keeps g conn k h

-- With a fresh token a request is granted exactly if nobody holds the takeover or the caller does;
-- otherwise it names the holder and the gateway is left as it was.
pub request_takeover_iff :
    (g : Gateway) (conn : String) (now : ℕ) (t : String)
    → let (g', sent, answer) = request_takeover conn now (some t) g in
      ((answer ≡ granted t (now + g.idle_timeout)) ↔ ((g.mode ≡ observe) ⊎ (g.owner ≡ conn)))
      × (((answer ≡ granted t (now + g.idle_timeout))
            × (holds g' conn ≡ true)
            × (g'.lease_token ≡ t)
            × (g'.lease_expiry ≡ now + g.idle_timeout))
          ⊎ ((answer ≡ held_by g.owner (g.lease_expiry - now)) × (g' ≡ g) × (sent ≡ [])))
unfolding request_takeover holds
request_takeover_iff g conn now t = ground (arith, eq_iff g.owner conn, eq_refl conn)
