-- ===== src/Record/Typing.antt =====
-- The typed text in browser/record_buffer.go: keys are merged into steps, and none is lost.
use Prim.Native.String.{◌++◌ as append}
use text.Mathlib.TextLemmas.{append_assoc, append-nil, nil-append}
use deepwork_browser.Prelude.{
  ℕ, ◌≡◌, sym, ap, ◌∙◌, String, List, ◌∷◌, ◌++◌, some, arith, Option-cases, ◌&&◌, ◌==◌, inl, inr,
  if◌then◌else◌,
}
use deepwork_browser.Prelude.{[] as nil}
use deepwork_browser.Input.Event.{InputEvent}
use deepwork_browser.Record.{
  RecordStep, RecordBuffer, typed, push_step, typed_step, keypress_step, append_printable,
  append_key_event, merge, is_printable_key,
}

abbrev pub text_of : RecordStep → String
text_of s = elim s.action [ typed ↦ s.text | _ ↦ "" ]

-- All that was typed, in order.
abbrev pub typed_text : List RecordStep → String
typed_text nil = ""
typed_text (s ∷ steps) = append (text_of s) (typed_text steps)

typed_text-append :
    (xs ys : List RecordStep) → typed_text (xs ++ ys) ≡ append (typed_text xs) (typed_text ys)
typed_text-append nil ys = sym (nil-append (typed_text ys))
typed_text-append (x ∷ xs) ys =
    ap (append (text_of x)) (typed_text-append xs ys)
    ∙ sym (append_assoc (text_of x) (typed_text xs) (typed_text ys))

merge_last :
    (key : String) (now : ℕ) (s : RecordStep) (steps' : List RecordStep)
    → merge key now (s ∷ nil) ≡ some steps'
    → (s.action ≡ typed) × (steps' ≡ record s { text = append s.text key } ∷ nil)
unfolding merge
merge_last key now s steps' h = ground arith

merge_later :
    (key : String) (now : ℕ) (s t : RecordStep) (more steps' : List RecordStep)
    → merge key now (s ∷ t ∷ more) ≡ some steps'
    → (rest : List RecordStep) × (merge key now (t ∷ more) ≡ some rest) × (steps' ≡ s ∷ rest)
unfolding merge
merge_later key now s t more steps' h = ground arith

text_of-typed : (s : RecordStep) → s.action ≡ typed → text_of s ≡ s.text
text_of-typed s h = ground arith

typed_text-merge :
    (key : String) (now : ℕ) (steps steps' : List RecordStep)
    → merge key now steps ≡ some steps'
    → typed_text steps' ≡ append (typed_text steps) key
typed_text-merge key now nil steps' h = unfold merge in cc
typed_text-merge key now (s ∷ nil) steps' h =
    let (kind, e) = merge_last key now s steps' h in
    ap typed_text e
    ∙ append-nil _
    ∙ text_of-typed (record s { text = append s.text key }) kind
    ∙ ap (λ t. append t key) (sym (append-nil (text_of s) ∙ text_of-typed s kind))
typed_text-merge key now (s ∷ t ∷ more) steps' h =
    let (rest, merged, e) = merge_later key now s t more steps' h in
    ap typed_text e
    ∙ ap (append (text_of s)) (typed_text-merge key now (t ∷ more) rest merged)
    ∙ sym (append_assoc (text_of s) (typed_text (t ∷ more)) key)

typed_text-push_step :
    (s : RecordStep) (rb : RecordBuffer)
    → typed_text (push_step s rb).trace.steps ≡ append (typed_text rb.trace.steps) (text_of s)
unfolding push_step
typed_text-push_step s rb =
    typed_text-append rb.trace.steps _
    ∙ ap (append (typed_text rb.trace.steps)) (append-nil (text_of s))

typed_text-append_printable :
    (key : String) (now : ℕ) (rb : RecordBuffer)
    → typed_text (append_printable key now rb).trace.steps ≡ append (typed_text rb.trace.steps) key
unfolding append_printable
typed_text-append_printable key now rb = elim (Option-cases (merge key now rb.trace.steps)) [
  | inl e ↦ rw (e, append_printable) (typed_text-push_step (typed_step key now) rb)
  | inr (steps, e) ↦ rw (e, append_printable) (typed_text-merge key now rb.trace.steps steps e)
]

-- A keyboard event adds its key to the typed text if the recorder runs, it is a keyDown and the key
-- is printable; any other leaves the typed text as it is. So merging neither loses nor reorders keys.
pub typed_text-append_key_event :
    (e : InputEvent) (now : ℕ) (rb : RecordBuffer)
    → typed_text (append_key_event e now rb).trace.steps
      ≡ append
          (typed_text rb.trace.steps)
          (if rb.recording && e.event == "keyDown" && is_printable_key e.key then e.key else "")
unfolding append_key_event
typed_text-append_key_event e now rb = ground (
  arith,
  append-nil (typed_text rb.trace.steps),
  typed_text-append_printable e.key now rb,
  typed_text-push_step (keypress_step e.key now) rb,
)
