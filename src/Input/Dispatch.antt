-- ===== src/Input/Dispatch.antt =====
-- How browser/input_gateway.go turns an event into a DevTools command. The command is a value; its
-- sending, the random pauses before it and the wait for its acknowledgement are left out.
pub mod Release
use Prim.Native.Char.{Char, code}
use deepwork_browser.Prelude.{
  ℕ, ◌-◌, ◌+◌, String, Bool, true, false, ◌&&◌, List, [], ◌∷◌, Option, none, some, leb, ltb, nat_eq,
  if◌then◌else◌, ◌==◌, Map, lookup,
}
use deepwork_browser.Input.Event.{Word, TouchPoint, InputEvent}

pub data MouseType : Type 0 where
  pressed released moved : MouseType

pub data MouseButton : Type 0 where
  left right middle no_button : MouseButton

pub data KeyType : Type 0 where
  key_down key_up char : KeyType

pub data TouchType : Type 0 where
  touch_start touch_move touch_end touch_cancel : TouchType

-- The parameters of `Input.dispatchMouseEvent`, `Input.dispatchKeyEvent`, `Input.insertText` and
-- `Input.dispatchTouchEvent`. A virtual key code is left unset by `none`.
pub data Command : Type 0 where
  wheel : (x y delta_x delta_y : Word) → Command
  mouse_event :
      MouseType → (x y : Word) → MouseButton → (buttons : ℕ) → (click_count : Word) → Command
  insert_text : String → Command
  key_event : KeyType → (key code text : String) → (modifiers : Word) → Option ℕ → Command
  touch_event : TouchType → List TouchPoint → Command

unfoldable pub mouse_type : String → MouseType
mouse_type event =
    if event == "mousePressed"
    then pressed
    else if event == "mouseReleased"
    then released
    else moved

unfoldable pub mouse_button : String → MouseButton
mouse_button button =
    if button == "left"
    then left
    else if button == "right"
    then right
    else if button == "middle"
    then middle
    else no_button

-- `if clickCount == 0 && mouseType == input.MousePressed { clickCount = 1 }`
abbrev pub click_count_of : MouseType → Word → Word
click_count_of pressed n = if nat_eq n 0 then 1 else n
click_count_of _ n = n

-- The bit mask of `buttons`.
abbrev pub buttons_of : MouseType → MouseButton → ℕ
buttons_of pressed left = 1
buttons_of pressed right = 2
buttons_of pressed middle = 4
buttons_of pressed no_button = 0
buttons_of released b = 0
buttons_of moved b = 0

unfoldable pub dispatch_mouse_event : InputEvent → Command
unfolding mouse_type mouse_button
dispatch_mouse_event e =
    if e.event == "mouseWheel"
    then wheel e.x e.y e.delta_x e.delta_y
    else (let kind = mouse_type e.event in
        let button = mouse_button e.button in
        mouse_event kind e.x e.y button (buttons_of kind button)
          (click_count_of kind e.click_count))

abbrev pub key_virtual_code_map : Map ℕ
key_virtual_code_map =
    ("Backspace", 8)
    ∷ ("Tab", 9)
    ∷ ("Enter", 13)
    ∷ ("Shift", 16)
    ∷ ("Control", 17)
    ∷ ("Alt", 18)
    ∷ ("Pause", 19)
    ∷ ("CapsLock", 20)
    ∷ ("Escape", 27)
    ∷ (" ", 32)
    ∷ ("PageUp", 33)
    ∷ ("PageDown", 34)
    ∷ ("End", 35)
    ∷ ("Home", 36)
    ∷ ("ArrowLeft", 37)
    ∷ ("ArrowUp", 38)
    ∷ ("ArrowRight", 39)
    ∷ ("ArrowDown", 40)
    ∷ ("Insert", 45)
    ∷ ("Delete", 46)
    ∷ ("Meta", 91)
    ∷ ("ContextMenu", 93)
    ∷ ("F1", 112)
    ∷ ("F2", 113)
    ∷ ("F3", 114)
    ∷ ("F4", 115)
    ∷ ("F5", 116)
    ∷ ("F6", 117)
    ∷ ("F7", 118)
    ∷ ("F8", 119)
    ∷ ("F9", 120)
    ∷ ("F10", 121)
    ∷ ("F11", 122)
    ∷ ("F12", 123)
    ∷ []

-- The code of a key that is one byte long; no other character falls into these ranges.
unfoldable pub char_code : ℕ → ℕ
char_code c =
    if leb b'a' c && leb c b'z'
    then c - b'a' + b'A'
    else if leb b'A' c && leb c b'Z'
    then c
    else if leb b'0' c && leb c b'9'
    then c
    else 0

unfoldable pub one_char_code : String → ℕ
unfolding char_code
one_char_code (String.◌∷◌ c String.[]) = char_code (code c)
one_char_code _ = 0

unfoldable pub get_virtual_key_code : String → ℕ
unfolding lookup one_char_code
get_virtual_key_code key = elim (lookup key key_virtual_code_map) [
  | some vk ↦ vk
  | none ↦ one_char_code key
]

unfoldable pub key_type : String → KeyType
key_type event =
    if event == "keyDown"
    then key_down
    else if event == "keyUp"
    then key_up
    else if event == "char"
    then char
    else key_down

-- None where no command is sent: an `insertText` with no text.
unfoldable pub dispatch_key_event : InputEvent → Option Command
unfolding key_type get_virtual_key_code
dispatch_key_event e =
    if e.event == "insertText"
    then (if e.text == "" then none else some (insert_text e.text))
    else (let vk = get_virtual_key_code e.key in
        some (
          key_event (key_type e.event) e.key e.code e.text e.modifiers
            (if ltb 0 vk then some vk else none)))

unfoldable pub touch_type : String → TouchType
touch_type event =
    if event == "touchStart"
    then touch_start
    else if event == "touchMove"
    then touch_move
    else if event == "touchEnd"
    then touch_end
    else if event == "touchCancel"
    then touch_cancel
    else touch_start

unfoldable pub dispatch_touch_event : InputEvent → Command
unfolding touch_type
dispatch_touch_event e = touch_event (touch_type e.event) e.touch_points

-- The switch of `HandleInput` on the type of an event.
unfoldable pub dispatch_event : InputEvent → Option Command
unfolding dispatch_mouse_event dispatch_key_event dispatch_touch_event
dispatch_event e =
    if e.type == "mouse"
    then some (dispatch_mouse_event e)
    else if e.type == "keyboard"
    then dispatch_key_event e
    else if e.type == "touch"
    then some (dispatch_touch_event e)
    else none
