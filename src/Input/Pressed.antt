-- ===== src/Input/Pressed.antt =====
-- The pressed keys and buttons of browser/input_gateway.go: `trackInputStateLocked` against the
-- history of events, and `releaseAllLocked`.
use mathlib.Core.List.{Memᴰ, append-nil}
use deepwork_browser.Prelude.{
  inr, ◌⊎◌, inl, ◌≡◌, ◌≢◌, ◌∙◌, ap, refl, Mem-values, Mem-map, Mem-append_left, Mem-append_right,
  not, ◌&&◌, String, Option, none, some, List, [], ◌∷◌, ◌++◌, map, arith, ◌==◌, if◌then◌else◌,
  eq_iff, Map, lookup, values, lookup-insert, lookup-delete,
}
use deepwork_browser.Input.Event.{InputEvent}
use deepwork_browser.Input.Gateway.{
  Gateway, PressedKey, PressedBtn, Effect, starts_release, notified, tracked_keys, tracked_btns,
  key_up, mouse_released, release_events, release_effects, end_takeover,
}

-- The gateway's maps after a history of tracked events, the first event first.
pub track_all : List InputEvent → Map PressedKey → Map PressedKey
track_all [] keys = keys
track_all (e ∷ es) keys = track_all es (tracked_keys e keys)

pub track_all_btns : List InputEvent → Map PressedBtn → Map PressedBtn
track_all_btns [] btns = btns
track_all_btns (e ∷ es) btns = track_all_btns es (tracked_btns e btns)

-- What one event says of the key with this code: nothing, that it is up, or that it is down.
abbrev pub says_of_key : String → InputEvent → Option (Option PressedKey)
says_of_key code e =
    if e.type == "keyboard" && e.code == code && not (code == "")
    then (if e.event == "keyDown"
        then some (some (record { key = e.key; code = e.code }))
        else if e.event == "keyUp"
        then some none
        else none)
    else none

abbrev pub says_of_btn : String → InputEvent → Option (Option PressedBtn)
says_of_btn button e =
    if e.type == "mouse" && e.button == button && not (button == "") && not (button == "none")
    then (if e.event == "mousePressed"
        then some (some (record { button = e.button; last_x = e.x; last_y = e.y }))
        else if e.event == "mouseReleased"
        then some none
        else none)
    else none

-- The last word of a history, or the given one if the history says nothing.
pub last_word {ℓ} : {A : Type ℓ} → (InputEvent → Option A) → A → List InputEvent → A
last_word says a [] = a
last_word says a (e ∷ es) = last_word says (elim (says e) [ none ↦ a | some b ↦ b ]) es

lookup-tracked_keys :
    (code : String) (e : InputEvent) (keys : Map PressedKey)
    → code ≢ ""
    → lookup code (tracked_keys e keys)
      ≡ (elim (says_of_key code e) [ none ↦ lookup code keys | some k ↦ k ])
unfolding tracked_keys
lookup-tracked_keys code e keys h = ground (
  arith,
  eq_iff e.code code,
  eq_iff code "",
  eq_iff e.code "",
  lookup-insert e.code code (record { key = e.key; code = e.code }) keys,
  lookup-delete e.code code keys,
)

-- After any history a key counts as pressed exactly if the last keyDown or keyUp with its code was a
-- keyDown, and it is kept with the name that this keyDown gave it.
pub lookup-track_all :
    (code : String) (es : List InputEvent) (keys : Map PressedKey)
    → code ≢ ""
    → lookup code (track_all es keys) ≡ last_word (says_of_key code) (lookup code keys) es
unfolding track_all last_word
lookup-track_all code [] keys h = refl
lookup-track_all code (e ∷ es) keys h =
    lookup-track_all code es (tracked_keys e keys) h
    ∙ ap (λ k. last_word (says_of_key code) k es) (lookup-tracked_keys code e keys h)

lookup-tracked_btns :
    (button : String) (e : InputEvent) (btns : Map PressedBtn)
    → button ≢ ""
    → button ≢ "none"
    → lookup button (tracked_btns e btns)
      ≡ (elim (says_of_btn button e) [ none ↦ lookup button btns | some b ↦ b ])
unfolding tracked_btns
lookup-tracked_btns button e btns h k = ground (
  arith,
  eq_iff e.button button,
  eq_iff button "",
  eq_iff e.button "",
  eq_iff button "none",
  eq_iff e.button "none",
  lookup-insert e.button button (record { button = e.button; last_x = e.x; last_y = e.y }) btns,
  lookup-delete e.button button btns,
)

-- The same for the mouse buttons, each with the place of its last press.
pub lookup-track_all_btns :
    (button : String) (es : List InputEvent) (btns : Map PressedBtn)
    → button ≢ ""
    → button ≢ "none"
    → lookup button (track_all_btns es btns)
      ≡ last_word (says_of_btn button) (lookup button btns) es
unfolding track_all_btns last_word
lookup-track_all_btns button [] btns h k = refl
lookup-track_all_btns button (e ∷ es) btns h k =
    lookup-track_all_btns button es (tracked_btns e btns) h k
    ∙ ap (λ b. last_word (says_of_btn button) b es) (lookup-tracked_btns button e btns h k)

-- The list that an end of a takeover hands to the goroutine that releases the input.
pub released_by : List Effect → List InputEvent
released_by [] = []
released_by (starts_release es ∷ rest) = es ++ released_by rest
released_by (_ ∷ rest) = released_by rest

released_by_end : (es : List InputEvent) → released_by (release_effects es ++ notified ∷ []) ≡ es
unfolding released_by
released_by_end [] = refl
released_by_end (e ∷ es) = append-nil (e ∷ es)

-- The event that lets go of something the gateway has down.
abbrev pub LetsGo : Gateway → InputEvent → Type 0
LetsGo g e =
    ((c : String) × (k : PressedKey) × (lookup c g.pressed_keys ≡ some k) × (e ≡ key_up k))
    ⊎ ((c : String) × (b : PressedBtn) × (lookup c g.pressed_btns ≡ some b)
        × (e ≡ mouse_released b))

-- The end of a takeover leaves nothing pressed, and hands to the goroutine a keyUp for each key that was
-- pressed and a mouseReleased, at the place of the last press, for each button that was.
pub end_takeover-releases :
    (g : Gateway) (e : InputEvent)
    → LetsGo g e
    → Memᴰ e (released_by (end_takeover g).1)
      × ((end_takeover g).0.pressed_keys ≡ [])
      × ((end_takeover g).0.pressed_btns ≡ [])
unfolding end_takeover release_events
end_takeover-releases g e (inl (c, k, h, same)) = (
  rw (released_by_end (release_events g), same)
      (Mem-append_left _ _ _ (Mem-map key_up _ k (Mem-values c g.pressed_keys k h))),
  refl,
  refl,
)
end_takeover-releases g e (inr (c, b, h, same)) = (
  rw (released_by_end (release_events g), same)
      (Mem-append_right (map key_up (values g.pressed_keys)) _ _
        (Mem-map mouse_released _ b (Mem-values c g.pressed_btns b h))),
  refl,
  refl,
)
