-- ===== src/Input/Release.antt =====
-- The goroutine of `releaseAllLocked` in browser/input_gateway.go. It takes the lock on the runtime's
-- input, and dispatches on a context made from `context.Background()`, not on that of the page; what
-- chromedp answers on a context is an argument. The hooks that replace the dispatch in tests are unset.
use deepwork_browser.Prelude.{Bool, List, [], ◌∷◌, Option, none, some, if◌then◌else◌, ◌==◌, ◌≡◌}
use deepwork_browser.Input.Event.{InputEvent}
use deepwork_browser.Input.Gateway.{Gateway, end_takeover}
use deepwork_browser.Input.Dispatch.{Command, dispatch_mouse_event, dispatch_key_event}
use deepwork_browser.Input.Pressed.{released_by, LetsGo}

-- The context of a page, which `chromedp.NewContext` makes, or a bare one of the standard library.
pub data DispatchContext : Type 0 where
  of_page background : DispatchContext

-- Whether `chromedp.Run` sends a command on a context.
abbrev pub Chromedp : Type 0
Chromedp = DispatchContext → Command → Bool

unfoldable pub release_command : InputEvent → Option Command
unfolding dispatch_key_event dispatch_mouse_event
release_command e =
    if e.type == "keyboard" then dispatch_key_event e else some (dispatch_mouse_event e)

-- What is tried, in order, and whether it was sent: an error does not end the loop.
unfoldable pub tried : Chromedp → List InputEvent → List (Command × Bool)
unfolding release_command
tried runs [] = []
tried runs (e ∷ es) = elim (release_command e) [
  | none ↦ tried runs es
  | some c ↦ (c, runs background c) ∷ tried runs es
]

unfoldable pub release_pressed : Bool → Chromedp → List InputEvent → List (Command × Bool)
unfolding tried
release_pressed lock_granted runs es = if lock_granted then tried runs es else []

-- What the goroutine that the end of a takeover starts tries to send.
abbrev pub release_after : Bool → Chromedp → Gateway → List (Command × Bool)
release_after lock_granted runs g =
    release_pressed lock_granted runs (released_by (end_takeover g).1)

-- The command that lets go of something the gateway has down.
abbrev pub FreeingCommand : Gateway → Command → Type 0
FreeingCommand g c = (e : InputEvent) × LetsGo g e × (release_command e ≡ some c)
