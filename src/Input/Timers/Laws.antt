-- ===== src/Input/Timers/Laws.antt =====
-- What stopping, starting and running out leave among the armed timers.
use deepwork_browser.Prelude.{
  ℕ, suc, ◌≡◌, ◌≢◌, refl, ◌⊎◌, inl, inr, String, Option, none, some, List, [], ◌∷◌, arith, nat_eq,
  keep, All, Bool-cases, Option-cases, ◌<◌,
}
use deepwork_browser.Input.Timers.{Timer, Timers, differs, after_func, stop, find_armed, run_out}

pub All-map {ℓ} :
    {A : Type ℓ} {P Q : A → Type 0} (xs : List A) → ((x : A) → P x → Q x) → All P xs → All Q xs
All-map [] f _ = tt
All-map (x ∷ xs) f (p, h) = (f x p, All-map xs f h)

pub eq_nil_of_All {ℓ} :
    {A : Type ℓ} {P : A → Type 0} (xs : List A) → ((x : A) → ¬ P x) → All P xs → xs ≡ []
eq_nil_of_All [] no_x _ = refl
eq_nil_of_All (x ∷ xs) no_x (p, _) = absurd (no_x x p)

module _ {P Q : Timer → Type 0} where
  All-keep-differs :
      (k : ℕ) (ts : List Timer)
      → ((t : Timer) → t.id ≢ k → P t → Q t)
      → All P ts
      → All Q (keep (differs k) ts)
  All-keep-differs k [] f _ = tt
  All-keep-differs k (t ∷ ts) f (p, h) = elim (Bool-cases (nat_eq t.id k)) [
    | inl same ↦ rw same (All-keep-differs k ts f h)
    | inr other ↦ rw other (f t (ground arith) p, All-keep-differs k ts f h)
  ]

  -- After `Stop` the timers left are the armed ones that it does not name.
  pub All-stop :
      (o : Option ℕ) (ts : Timers)
      → ((t : Timer) → o ≢ some t.id → P t → Q t)
      → All P ts.armed
      → All Q (stop o ts).armed
  unfolding stop
  All-stop none ts f h = All-map ts.armed (λ t p. f t (λ e. cc) p) h
  All-stop (some k) ts f h =
      All-keep-differs k ts.armed (λ t ne p. f t (λ e. ne (ground arith)) p) h

pub next_id-stop : (o : Option ℕ) (ts : Timers) → (stop o ts).next_id ≡ ts.next_id
unfolding stop
next_id-stop none ts = refl
next_id-stop (some k) ts = refl

pub firing-stop : (o : Option ℕ) (ts : Timers) → (stop o ts).firing ≡ ts.firing
unfolding stop
firing-stop none ts = refl
firing-stop (some k) ts = refl

pub All-run_out :
    (P : Timer → Type 0) (k : ℕ) (ts : Timers) → All P ts.armed → All P (run_out k ts).armed
unfolding run_out
All-run_out P k ts h = elim (Option-cases (find_armed k ts.armed)) [
  | inl e ↦ rw (e, run_out) h
  | inr (t, e) ↦ rw (e, run_out) (All-keep-differs k ts.armed (λ t _ p. p) h)
]

pub next_id-run_out : (k : ℕ) (ts : Timers) → (run_out k ts).next_id ≡ ts.next_id
unfolding run_out
next_id-run_out k ts = ground arith

-- How a gateway's timer pointers and owner fit the runtime's timers: each armed timer is the idle
-- timer or the grace timer, was set for this owner, and no id is used twice.
abbrev pub IsOwned : String → Option ℕ → Option ℕ → ℕ → Timer → Type 0
IsOwned owner idle grace next t =
    (t.owner ≡ owner) × ((idle ≡ some t.id) ⊎ (grace ≡ some t.id)) × (t.id < next)

abbrev pub IsBelow : ℕ → Option ℕ → Type 0
IsBelow next none = Unit {0}
IsBelow next (some k) = k < next

pub record IsWired (owner : String) (idle grace : Option ℕ) (ts : Timers) : Type 0 where
  pub owned : All (IsOwned owner idle grace ts.next_id) ts.armed
  pub idle_below : IsBelow ts.next_id idle
  pub grace_below : IsBelow ts.next_id grace

IsBelow-suc : (n : ℕ) (o : Option ℕ) → IsBelow n o → IsBelow (suc n) o
IsBelow-suc n none h = tt
IsBelow-suc n (some k) h = omega arith

module _ {owner : String} {idle grace : Option ℕ} {ts : Timers}
    (w : IsWired owner idle grace ts) where
  -- A new idle timer takes the place of the old one.
  pub IsWired-reset : IsWired owner (some ts.next_id) grace (after_func owner (stop idle ts))
  unfolding after_func
  IsWired-reset = rw (next_id-stop idle ts) (record {
    owned = (
      (refl, inl refl, omega arith),
      All-stop idle ts (λ t ne p. (p.0, inr (grind arith), omega arith)) w.owned,
    );
    idle_below = omega arith;
    grace_below = IsBelow-suc ts.next_id grace w.grace_below;
  })

  pub IsWired-stop_grace : IsWired owner idle none (stop grace ts)
  IsWired-stop_grace = rw (next_id-stop grace ts) (record {
    owned = All-stop grace ts (λ t ne p. (p.0, inl (grind arith), p.2)) w.owned;
    idle_below = w.idle_below;
    grace_below = tt;
  })

  pub IsWired-run_out : (k : ℕ) → IsWired owner idle grace (run_out k ts)
  IsWired-run_out k = rw (next_id-run_out k ts) (record {
    owned = All-run_out _ k ts w.owned;
    idle_below = w.idle_below;
    grace_below = w.grace_below;
  })

  pub armed-stop_both : (stop grace (stop idle ts)).armed ≡ []
  armed-stop_both =
      eq_nil_of_All {P = λ t. ⊥} _ (λ t h. h)
        (All-stop grace (stop idle ts) (λ t ne p. grind arith)
          (All-stop {Q = λ t. grace ≡ some t.id} idle ts (λ t ne p. grind arith) w.owned))

pub IsWired-start_grace :
    (owner : String) (idle : Option ℕ) (ts : Timers)
    → IsWired owner idle none ts
    → IsWired owner idle (some ts.next_id) (after_func owner ts)
unfolding after_func
IsWired-start_grace owner idle ts w = record {
  owned = (
    (refl, inr refl, omega arith),
    All-map ts.armed (λ t p. (p.0, inl (grind arith), omega arith)) w.owned,
  );
  idle_below = IsBelow-suc ts.next_id idle w.idle_below;
  grace_below = omega arith;
}
