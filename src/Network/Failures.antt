-- ===== src/Network/Failures.antt =====
-- The error that a guard of browser/public_network.go ends with.
use deepwork_browser.Prelude.{
  ◌-◌, ◌∙◌, ap, ◌+◌, ◌^◌, ◌≤◌, ◌<◌, Bool, true, false, ◌&&◌, List, [], ◌∷◌, Option, none, some,
  arith, refl, ltb, ◌≡◌, inl, inr, if_cases_dep, Bool-cases,
}
use deepwork_browser.Network.Budget.{
  first_error, is_set, Guard, PolicyError, byte_budget, add64, exceeds, fail,
}
use deepwork_browser.Network.Limits.{
  run-bounded, GuardOp, serves, charges, fails, closes, step, run, worth, offered, counted,
  serve_http-Alike, fail-Alike, charge_payload-over, step-within,
}

abbrev SameError : Guard → Guard × Bool → Type 0
SameError g r = r.0.err ≡ g.err

step-set : (op : GuardOp) (g : Guard) → is_set g.err ≡ true → (step op g).0.err ≡ g.err
unfolding step
step-set (serves r) g h = (serve_http-Alike r g).2 h
step-set (charges n) g h =
    if_cases_dep (SameError g) (exceeds (add64 g.bytes n) g.max_bytes) _ _
      (λ _. (fail-Alike false byte_budget (record g { bytes = add64 g.bytes n })).2 h) (λ _. refl)
step-set (fails is_cleanup x) g h = (fail-Alike is_cleanup x g).2 h
step-set closes g h = refl

-- The first error stays, whatever follows it.
pub run-set : (ops : List GuardOp) (g : Guard) → is_set g.err ≡ true → (run ops g).0.err ≡ g.err
unfolding run
run-set [] g h = refl
run-set (op ∷ ops) g h =
    run-set ops (step op g).0 (ap is_set (step-set op g h) ∙ h) ∙ step-set op g h

is_set-first_error : (o : Option PolicyError) (e : PolicyError) → is_set (first_error o e) ≡ true
is_set-first_error none e = refl
is_set-first_error (some x) e = refl

abbrev HasError : Guard → Type 0
HasError g = is_set g.err ≡ true

fail-set : (e : PolicyError) (g : Guard) → is_set (fail false e g).err ≡ true
unfolding fail
fail-set e g =
    if_cases_dep HasError (g.closing && false) _ _ (λ no. ground (arith, no))
      (λ _. is_set-first_error g.err e)

step-over_set :
    (op : GuardOp) (g : Guard)
    → g.bytes ≤ g.max_bytes
    → g.max_bytes < g.bytes + worth op
    → g.bytes + worth op < 2 ^ 63
    → is_set (step op g).0.err ≡ true
unfolding step
step-over_set (charges n) g h over s =
    ap (λ r. is_set r.0.err) (charge_payload-over n g over s) ∙ fail-set byte_budget (counted n g)
step-over_set (serves r) g h over s = ground (arith, h, over)
step-over_set (fails is_cleanup x) g h over s = ground (arith, h, over)
step-over_set closes g h over s = ground (arith, h, over)

-- When more is offered than the bound leaves, the guard has failed.
pub run-over :
    (ops : List GuardOp) (g : Guard)
    → g.bytes ≤ g.max_bytes
    → g.max_bytes < g.bytes + offered ops
    → g.bytes + offered ops < 2 ^ 63
    → is_set (run ops g).0.err ≡ true
unfolding run
run-over [] g h over s = ground (arith, h, over)
run-over (op ∷ ops) g h over s = elim (Bool-cases (ltb g.max_bytes (g.bytes + worth op))) [
  | inl now ↦
      let e = step-over_set op g h (ground (arith, now)) (omega arith) in
      ap is_set (run-set ops (step op g).0 e) ∙ e
  | inr within ↦
      let le : g.bytes + worth op ≤ g.max_bytes = ground (arith, within) in
      let (t, b, m) = step-within op g le (omega arith) in
      run-over ops (step op g).0 (omega (arith, b, m, le)) (omega (arith, b, m)) (omega (arith, b))
]

-- Under any interleaving of requests, payload, failures and the close, the bytes that pass are at most
-- what the bound leaves; all that is offered passes if it is within, and if it is not the guard has
-- failed. What is offered is counted in a signed word of 64 bits.
pub run-budget :
    (ops : List GuardOp) (g : Guard)
    → g.bytes ≤ g.max_bytes
    → g.bytes + offered ops < 2 ^ 63
    → ((run ops g).1 ≤ g.max_bytes - g.bytes)
      × (g.bytes + offered ops ≤ g.max_bytes → (run ops g).1 ≡ offered ops)
      × (g.max_bytes < g.bytes + offered ops → is_set (run ops g).0.err ≡ true)
run-budget ops g h s =
    let (most, all) = run-bounded ops g s in (most, all, λ over. run-over ops g h over s)
