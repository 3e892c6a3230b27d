-- ===== src/Network/Limits.antt =====
-- What the budgets of browser/public_network.go hold back, under any interleaving of requests, payload
-- and failures.
use deepwork_browser.Prelude.{
  ◌∙◌, ap, ℕ, ◌+◌, ◌-◌, ◌^◌, ◌≤◌, ◌<◌, Bool, true, false, not, ◌&&◌, List, [], ◌∷◌, Option, none,
  some, arith, refl, if◌then◌else◌, ltb, ◌≡◌, inl, inr, if_cases_dep, Bool-cases,
}
use deepwork_browser.Network.Dial.{DialError}
use deepwork_browser.Network.Budget.{
  first_error, is_set, is_http, plain, connects, Guard, PolicyError, charged, byte_budget,
  request_budget, add64, exceeds, fail, deny, close, charge_payload, Request, Reply, serve_http,
  route_request, upstream, count_destination_denial,
}

pub data GuardOp : Type 0 where
  serves : Request → GuardOp
  charges : ℕ → GuardOp
  fails : Bool → PolicyError → GuardOp
  closes : GuardOp

-- The bytes that an operation lets through.
unfoldable pub step : GuardOp → Guard → Guard × ℕ
unfolding serve_http charge_payload fail close
step (serves r) g = ((serve_http r g).0, 0)
step (charges n) g = ((charge_payload n g).0, if (charge_payload n g).1 then n else 0)
step (fails is_cleanup e) g = (fail is_cleanup e g, 0)
step closes g = (close g, 0)

unfoldable pub run : List GuardOp → Guard → Guard × ℕ
unfolding step
run [] g = (g, 0)
run (op ∷ ops) g = let (g1, n) = step op g in let (g2, m) = run ops g1 in (g2, n + m)

-- The bytes that are offered.
abbrev pub worth : GuardOp → ℕ
worth (charges n) = n
worth op = 0

abbrev pub offered : List GuardOp → ℕ
offered [] = 0
offered (op ∷ ops) = worth op + offered ops

-- The bytes, their bound and an error stay.
abbrev pub Alike : Guard → Guard → Type 0
Alike g g' =
    (g'.bytes ≡ g.bytes) × (g'.max_bytes ≡ g.max_bytes) × (is_set g.err ≡ true → g'.err ≡ g.err)

abbrev AlikeReply : Guard → Guard × Reply → Type 0
AlikeReply g r = Alike g r.0

upstream-Alike : (status : ℕ) (o : Option DialError) (g : Guard) → Alike g (upstream status o g).0
unfolding count_destination_denial deny
upstream-Alike status none g = (refl, refl, λ _. refl)
upstream-Alike status (some e) g = (ground arith, ground arith, λ _. ground arith)

route_request-Alike : (r : Request) (g : Guard) → Alike g (route_request r g).0
unfolding deny
route_request-Alike (connects sound o) g =
    if_cases_dep (AlikeReply g) (not sound) _ _ (λ _. (refl, refl, λ _. refl))
      (λ _. upstream-Alike 403 o g)
route_request-Alike (plain url o) g =
    if_cases_dep (AlikeReply g) (not (is_http url)) _ _ (λ _. (refl, refl, λ _. refl))
      (λ _. upstream-Alike 502 o g)

first_error-set : (o : Option PolicyError) (e : PolicyError) → is_set o ≡ true → first_error o e ≡ o
first_error-set none e h = ground (arith, h)
first_error-set (some x) e h = refl

pub fail-Alike : (is_cleanup : Bool) (e : PolicyError) (g : Guard) → Alike g (fail is_cleanup e g)
unfolding fail
fail-Alike is_cleanup e g =
    if_cases_dep (Alike g) (g.closing && is_cleanup) _ _ (λ _. (refl, refl, λ _. refl))
      (λ _. (refl, refl, first_error-set g.err e))

close-Alike : (g : Guard) → Alike g (close g)
unfolding close
close-Alike g = (refl, refl, λ _. refl)

pub serve_http-Alike : (r : Request) (g : Guard) → Alike g (serve_http r g).0
unfolding serve_http
serve_http-Alike r g =
    let g' : Guard = record g { requests = add64 g.requests 1 } in
    if_cases_dep (AlikeReply g) g.closing _ _ (λ _. (refl, refl, λ _. refl))
      (λ _.
        if_cases_dep (AlikeReply g) (exceeds (add64 g.requests 1) g.max_requests) _ _
          (λ _. fail-Alike false request_budget g') (λ _. route_request-Alike r g'))

pub sum64 : (a b : ℕ) → a + b < 2 ^ 63 → add64 a b ≡ a + b
sum64 a b h = omega arith

charged-within : (g : Guard) → exceeds g.bytes g.max_bytes ≡ false → charged g ≡ (g, true)
charged-within g e = rw (charged, e) refl

charged-over :
    (g : Guard) → exceeds g.bytes g.max_bytes ≡ true → charged g ≡ (fail false byte_budget g, false)
charged-over g e = rw (charged, e) refl

abbrev pub counted : ℕ → Guard → Guard
counted n g = record g { bytes = g.bytes + n }

-- A chunk is counted, and goes on if the count is within the bound.
pub charge_payload-within :
    (n : ℕ) (g : Guard)
    → g.bytes + n ≤ g.max_bytes
    → g.bytes + n < 2 ^ 63
    → charge_payload n g ≡ (counted n g, true)
unfolding charge_payload
charge_payload-within n g h s =
    ap (λ b. charged (record g { bytes = b })) (sum64 g.bytes n s)
    ∙ charged-within (counted n g) (ground arith)

pub charge_payload-over :
    (n : ℕ) (g : Guard)
    → g.max_bytes < g.bytes + n
    → g.bytes + n < 2 ^ 63
    → charge_payload n g ≡ (fail false byte_budget (counted n g), false)
unfolding charge_payload
charge_payload-over n g h s =
    ap (λ b. charged (record g { bytes = b })) (sum64 g.bytes n s)
    ∙ charged-over (counted n g) (ground arith)

-- What an operation counts, and what it lets through when the count is within the bound and when not.
abbrev pub Counts : ℕ → GuardOp → Guard → Guard × ℕ → Type 0
Counts through op g r =
    (r.1 ≡ through) × (r.0.bytes ≡ g.bytes + worth op) × (r.0.max_bytes ≡ g.max_bytes)

Alike-Counts : (op : GuardOp) (g g' : Guard) → worth op ≡ 0 → Alike g g' → Counts 0 op g (g', 0)
Alike-Counts op g g' z (b, m, _) = (refl, omega (arith, z, b), m)

pub step-within :
    (op : GuardOp) (g : Guard)
    → g.bytes + worth op ≤ g.max_bytes
    → g.bytes + worth op < 2 ^ 63
    → Counts (worth op) op g (step op g)
unfolding step
step-within (serves r) g h s =
    Alike-Counts (serves r) g (serve_http r g).0 refl (serve_http-Alike r g)
step-within (charges n) g h s =
    let e = charge_payload-within n g h s in
    (ap (λ r. if r.1 then n else 0) e, ap (λ r. r.0.bytes) e, ap (λ r. r.0.max_bytes) e)
step-within (fails is_cleanup x) g h s =
    Alike-Counts (fails is_cleanup x) g (fail is_cleanup x g) refl (fail-Alike is_cleanup x g)
step-within closes g h s = Alike-Counts closes g (close g) refl (close-Alike g)

step-over :
    (op : GuardOp) (g : Guard)
    → g.max_bytes < g.bytes + worth op
    → g.bytes + worth op < 2 ^ 63
    → Counts 0 op g (step op g)
unfolding step
step-over (serves r) g h s =
    Alike-Counts (serves r) g (serve_http r g).0 refl (serve_http-Alike r g)
step-over (charges n) g h s =
    let e = charge_payload-over n g h s in
    let (b, m, _) = fail-Alike false byte_budget (counted n g) in
    (ap (λ r. if r.1 then n else 0) e, ap (λ r. r.0.bytes) e ∙ b, ap (λ r. r.0.max_bytes) e ∙ m)
step-over (fails is_cleanup x) g h s =
    Alike-Counts (fails is_cleanup x) g (fail is_cleanup x g) refl (fail-Alike is_cleanup x g)
step-over closes g h s = Alike-Counts closes g (close g) refl (close-Alike g)

-- Under any interleaving, the bytes that pass are at most what the bound leaves, and all that is offered
-- passes if it is within. The bytes that are offered fit a signed word of 64 bits.
pub run-bounded :
    (ops : List GuardOp) (g : Guard)
    → g.bytes + offered ops < 2 ^ 63
    → ((run ops g).1 ≤ g.max_bytes - g.bytes)
      × (g.bytes + offered ops ≤ g.max_bytes → (run ops g).1 ≡ offered ops)
unfolding run
run-bounded [] g s = (omega arith, λ _. refl)
run-bounded (op ∷ ops) g s = elim (Bool-cases (ltb g.max_bytes (g.bytes + worth op))) [
  | inl over ↦
      let (t, b, m) = step-over op g (ground (arith, over)) (omega arith) in
      let (most, all) = run-bounded ops (step op g).0 (omega (arith, b)) in
      (omega (arith, t, b, m, most), λ fits. ground (arith, over, fits))
  | inr within ↦
      let le : g.bytes + worth op ≤ g.max_bytes = ground (arith, within) in
      let (t, b, m) = step-within op g le (omega arith) in
      let (most, all) = run-bounded ops (step op g).0 (omega (arith, b)) in
      (omega (arith, t, b, m, le, most), λ fits. omega (arith, t, all (omega (arith, b, m, fits))))
]
