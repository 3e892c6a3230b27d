-- ===== src/Record/Order.antt =====
-- The numbering of the steps in browser/record_buffer.go.
use deepwork_browser.Prelude.{
  ℕ, zero, suc, ◌+◌, ◌≡◌, refl, sym, ap, ◌∙◌, String, List, [], ◌∷◌, ◌++◌, map, some, arith, length,
  length-append, if_cases, Option-cases, not, ◌==◌, inl, inr,
}
use mathlib.Core.List.{map-append}
use deepwork_browser.Input.Event.{InputEvent}
use deepwork_browser.Record.{
  RecordStep, RecordTrace, RecordBuffer, new_record_buffer, start, stop, push_step, click_step,
  typed_step, keypress_step, append_printable, append_mouse_event, append_key_event, merge,
  is_printable_key,
}

-- k, k + 1, …: n numbers.
pub up_from : ℕ → ℕ → List ℕ
up_from k zero = []
up_from k (suc n) = k ∷ up_from (suc k) n

abbrev pub seqs : List RecordStep → List ℕ
seqs = map (λ s. s.seq)

-- The steps are numbered 1, 2, … without a gap, and `seq` is the last number given.
pub record IsNumbered (rb : RecordBuffer) : Type 0 where
  pub consecutive : seqs rb.trace.steps ≡ up_from 1 (length rb.trace.steps)
  pub latest : rb.seq ≡ length rb.trace.steps

up_from-suc : (k n : ℕ) → up_from k (suc n) ≡ up_from k n ++ (k + n) ∷ []
unfolding up_from
up_from-suc k zero = ap (λ m. m ∷ []) (omega arith)
up_from-suc k (suc n) =
    ap (λ l. k ∷ l) (up_from-suc (suc k) n ∙ ap (λ m. up_from (suc k) n ++ m ∷ []) (omega arith))

push_step-IsNumbered :
    (s : RecordStep) (rb : RecordBuffer) → IsNumbered rb → IsNumbered (push_step s rb)
unfolding push_step
push_step-IsNumbered s rb v =
    let grown : length (rb.trace.steps ++ record s { seq = suc rb.seq } ∷ [])
        ≡ suc (length rb.trace.steps) =
      omega (arith, length-append rb.trace.steps (record s { seq = suc rb.seq } ∷ [])) in
    record {
      consecutive =
          map-append (λ (s : RecordStep). s.seq) rb.trace.steps _
          ∙ ap (λ l. l ++ suc rb.seq ∷ []) v.consecutive
          ∙ ap (λ n. up_from 1 (length rb.trace.steps) ++ n ∷ []) (omega (arith, v.latest))
          ∙ sym (up_from-suc 1 (length rb.trace.steps))
          ∙ ap (up_from 1) (sym grown);
      latest = omega (arith, v.latest, grown);
    }

seqs-merge :
    (key : String) (now : ℕ) (steps steps' : List RecordStep)
    → merge key now steps ≡ some steps'
    → (seqs steps' ≡ seqs steps) × (length steps' ≡ length steps)
unfolding merge
seqs-merge key now [] steps' h = cc
seqs-merge key now (s ∷ []) steps' h = ground arith
seqs-merge key now (s ∷ t ∷ more) steps' h = elim (Option-cases (merge key now (t ∷ more))) [
  | inl e ↦ ground arith
  | inr (rest, e) ↦ let (same, len) = seqs-merge key now (t ∷ more) rest e in ground arith
]

append_printable-IsNumbered :
    (key : String) (now : ℕ) (rb : RecordBuffer)
    → IsNumbered rb
    → IsNumbered (append_printable key now rb)
unfolding append_printable
append_printable-IsNumbered key now rb v = elim (Option-cases (merge key now rb.trace.steps)) [
  | inl e ↦ rw (e, append_printable) (push_step-IsNumbered (typed_step key now) rb v)
  | inr (steps, e) ↦
      let (same, len) = seqs-merge key now rb.trace.steps steps e in
      rw (e, append_printable)
        (record {
          consecutive = same ∙ v.consecutive ∙ ap (up_from 1) (sym len);
          latest = v.latest ∙ sym len;
        })
]

pub append_key_event-IsNumbered :
    (e : InputEvent) (now : ℕ) (rb : RecordBuffer)
    → IsNumbered rb
    → IsNumbered (append_key_event e now rb)
unfolding append_key_event
append_key_event-IsNumbered e now rb v = if_cases IsNumbered (not rb.recording) _ _ v (
    if_cases IsNumbered (not (e.event == "keyDown")) _ _ v (
      if_cases IsNumbered (is_printable_key e.key) _ _ (append_printable-IsNumbered e.key now rb v)
        (push_step-IsNumbered (keypress_step e.key now) rb v)))

pub append_mouse_event-IsNumbered :
    (e : InputEvent) (now : ℕ) (rb : RecordBuffer)
    → IsNumbered rb
    → IsNumbered (append_mouse_event e now rb)
unfolding append_mouse_event
append_mouse_event-IsNumbered e now rb v = if_cases IsNumbered (not rb.recording) _ _ v (
    if_cases IsNumbered (not (e.event == "mousePressed")) _ _ v
      (push_step-IsNumbered (click_step e now rb) rb v))

-- What can happen to a recorder, each at its time.
pub data Call : Type 0 where
  starts : String → String → Call
  stops : Call
  mouse_events key_events : InputEvent → Call

unfoldable pub apply : Call → ℕ → RecordBuffer → RecordBuffer
apply (starts domain url) now rb = start domain url now rb
apply stops now rb = (stop now rb).0
apply (mouse_events e) now rb = append_mouse_event e now rb
apply (key_events e) now rb = append_key_event e now rb

unfoldable pub apply_all : List (ℕ × Call) → RecordBuffer → RecordBuffer
apply_all [] rb = rb
apply_all ((now, c) ∷ cs) rb = apply_all cs (apply c now rb)

apply-IsNumbered :
    (c : Call) (now : ℕ) (rb : RecordBuffer) → IsNumbered rb → IsNumbered (apply c now rb)
unfolding apply start stop up_from
apply-IsNumbered (starts domain url) now rb v = record { consecutive = refl; latest = refl }
apply-IsNumbered stops now rb v =
    if_cases (λ (r : RecordBuffer × RecordTrace). IsNumbered r.0) (not rb.recording) _ _ v
      (record { consecutive = v.consecutive; latest = v.latest })
apply-IsNumbered (mouse_events e) now rb v = append_mouse_event-IsNumbered e now rb v
apply-IsNumbered (key_events e) now rb v = append_key_event-IsNumbered e now rb v

-- Whatever is recorded, stopped and started again, the steps of the trace are numbered 1, 2, …
-- without a gap, and a merged key takes no number.
pub apply_all-IsNumbered :
    (cs : List (ℕ × Call)) (rb : RecordBuffer) → IsNumbered rb → IsNumbered (apply_all cs rb)
unfolding apply_all
apply_all-IsNumbered [] rb v = v
apply_all-IsNumbered ((now, c) ∷ cs) rb v =
    apply_all-IsNumbered cs (apply c now rb) (apply-IsNumbered c now rb v)

pub new_record_buffer-IsNumbered : IsNumbered new_record_buffer
unfolding up_from
new_record_buffer-IsNumbered = record { consecutive = refl; latest = refl }
