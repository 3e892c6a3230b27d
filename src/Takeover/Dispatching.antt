-- ===== src/Takeover/Dispatching.antt =====
-- `DispatchInput` of browser/takeover_controller.go beside the dispatch of browser/input_gateway.go.
use deepwork_browser.Prelude.{
  ap, false, String, true, not, Option, ◌==◌, ◌≡◌, ◌≢◌, none, some, arith, if◌then◌else◌, eq_iff,
}
use deepwork_browser.Input.Event.{InputEvent}
use deepwork_browser.Input.Gateway.{is_takeover}
use deepwork_browser.Input.Dispatch.{
  touch_type, Command, wheel, mouse_event, key_event, insert_text, touch_event, mouse_type,
  mouse_button, buttons_of, key_type, get_virtual_key_code,
}
use deepwork_browser.Input.Dispatch
use deepwork_browser.Takeover.{
  ignored, Controller, Outcome, dispatch_input, err_takeover_active, sent,
}

-- The command without its bit mask of buttons and its virtual key code.
abbrev pub plain : Command → Command
plain (wheel x y dx dy) = wheel x y dx dy
plain (mouse_event kind x y b mask n) = mouse_event kind x y b 0 n
plain (insert_text t) = insert_text t
plain (key_event kind k c t m vk) = key_event kind k c t m none
plain (touch_event kind ps) = touch_event kind ps

-- What the controller does for a command of the gateway: a touch is ignored, the rest is sent in plain
-- form.
abbrev pub outcome_of : Option Command → Outcome
outcome_of none = ignored
outcome_of (some (touch_event kind ps)) = ignored
outcome_of (some k) = sent (plain k)

touch_is_not_mouse : (t : String) → (t == "touch") ≡ true → (t == "mouse") ≡ false
touch_is_not_mouse t h = ap (λ t. t == "mouse") ((eq_iff t "touch").0 h)

touch_is_not_keyboard : (t : String) → (t == "touch") ≡ true → (t == "keyboard") ≡ false
touch_is_not_keyboard t h = ap (λ t. t == "keyboard") ((eq_iff t "touch").0 h)

-- In takeover mode the controller does with an event that is no insertText what the gateway does, but
-- for the bit mask of the buttons and the virtual key code, and but for touch events: the gateway sends
-- a touch command for each and the controller ignores them. Outside that mode every event is refused.
pub dispatch_input_lem :
    (e : InputEvent) (c : Controller)
    → e.event ≢ "insertText"
    → dispatch_input e c ≡ (
        if not (is_takeover c.mode)
        then err_takeover_active
        else outcome_of (Dispatch.dispatch_event e))
unfolding dispatch_input Dispatch.dispatch_event Dispatch.dispatch_mouse_event
    Dispatch.dispatch_key_event Dispatch.dispatch_touch_event
dispatch_input_lem e c h =
    ground
      (arith, eq_iff e.event "insertText", touch_is_not_mouse e.type, touch_is_not_keyboard e.type)
