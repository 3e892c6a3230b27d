-- ===== src/Input/Dispatch/Release.antt =====
-- The commands for the events with which browser/input_gateway.go releases what is pressed.
use deepwork_browser.Prelude.{ℕ, ◌<◌, ◌≡◌, refl, Option, none, some, arith, ltb, if◌then◌else◌}
use deepwork_browser.Input.Event.{InputEvent}
use deepwork_browser.Input.Gateway.{mouse_released}
use deepwork_browser.Input.Gateway.{key_up as key_up_event}
use deepwork_browser.Input.Dispatch.{
  mouse_event, key_event, pressed, released, key_down, key_up, mouse_button, buttons_of,
  click_count_of, get_virtual_key_code, dispatch_mouse_event, dispatch_key_event,
}

-- A key that is held down is let go by a keyUp with the key, code and virtual code of its keyDown.
pub dispatch_key_event-release :
    (e : InputEvent)
    → e.event ≡ "keyDown"
    → (vk : Option ℕ) × (dispatch_key_event e
        ≡ some (key_event key_down e.key e.code e.text e.modifiers vk))
      × (dispatch_key_event (key_up_event (record { key = e.key; code = e.code }))
          ≡ some (key_event key_up e.key e.code "" 0 vk))
unfolding dispatch_key_event
dispatch_key_event-release e h = (
  (if ltb 0 (get_virtual_key_code e.key) then some (get_virtual_key_code e.key) else none),
  rw h refl,
  refl,
)

-- A button that is held down is let go at the place of its press, by the same button and with none
-- held; its press counts as at least one click.
pub dispatch_mouse_event-release :
    (e : InputEvent)
    → e.event ≡ "mousePressed"
    → let b = mouse_button e.button in
      (dispatch_mouse_event e
        ≡ mouse_event pressed e.x e.y b
            (buttons_of pressed b)
            (click_count_of pressed e.click_count))
      × (0 < click_count_of pressed e.click_count)
      × (dispatch_mouse_event
            (mouse_released (record { button = e.button; last_x = e.x; last_y = e.y }))
          ≡ mouse_event released e.x e.y b 0 0)
unfolding dispatch_mouse_event
dispatch_mouse_event-release e h = (rw h refl, ground arith, refl)
