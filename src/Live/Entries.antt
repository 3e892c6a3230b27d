-- ===== src/Live/Entries.antt =====
-- What holds of every entry of a map of subscribers, as browser/frame_broadcast_hub.go changes it.
use deepwork_browser.Prelude.{
  All-lookup, All-delete, ℕ, String, false, [], ◌∷◌, some, arith, nat_eq, Map, lookup, delete, All,
  ◌==◌, ◌≡◌, if_cases_dep,
}

pub All-map :
    {P Q : String × ℕ → Type 0} (f : (e : String × ℕ) → P e → Q e) (m : Map ℕ) → All P m → All Q m
All-map f [] h = tt
All-map f (e ∷ m) (p, h) = (f e p, All-map f m h)

module _ (P : String × ℕ → Type 0) where
  pub All-both : (Q : String × ℕ → Type 0) (m : Map ℕ) → All P m → All Q m → All (λ e. P e × Q e) m
  All-both Q [] h k = tt
  All-both Q (e ∷ m) (p, h) (q, k) = ((p, q), All-both Q m h k)

-- No entry of the connection is left.
pub delete-gone : (k : String) (m : Map ℕ) → All (λ e. (e.0 == k) ≡ false) (delete k m)
unfolding delete
delete-gone k [] = tt
delete-gone k ((j, v) ∷ m) =
    if_cases_dep (All (λ e. (e.0 == k) ≡ false)) (j == k) _ _ (λ _. delete-gone k m)
      (λ other. (other, delete-gone k m))

-- Another entry has another connection and another channel.
abbrev pub Apart : String × ℕ → String × ℕ → Type 0
Apart e d = ((d.0 == e.0) ≡ false) × (nat_eq d.1 e.1 ≡ false)

abbrev pub Unique : Map ℕ → Type 0
Unique [] = Unit
Unique (e ∷ m) = All (Apart e) m × Unique m

pub Unique-delete : (k : String) (m : Map ℕ) → Unique m → Unique (delete k m)
unfolding delete
Unique-delete k [] h = tt
Unique-delete k ((j, v) ∷ m) (a, u) =
    if_cases_dep Unique (j == k) _ _ (λ _. Unique-delete k m u)
      (λ _. (All-delete (Apart (j, v)) k m a, Unique-delete k m u))

-- After the deletion of a connection no entry has its channel.
pub delete-apart :
    (k : String) (i : ℕ) (m : Map ℕ)
    → Unique m
    → lookup k m ≡ some i
    → All (λ e. nat_eq e.1 i ≡ false) (delete k m)
unfolding delete lookup
delete-apart k i [] u e = tt
delete-apart k i ((j, v) ∷ m) (a, u) e =
    if_cases_dep (All (λ e. nat_eq e.1 i ≡ false)) (j == k) _ _
      (λ same. All-delete (λ e. nat_eq e.1 i ≡ false) k m (All-map (λ d h. ground (arith, h)) m a))
      (λ other. (
        ground (arith, All-lookup (Apart (j, v)) k i m a (ground arith)),
        delete-apart k i m u (ground arith),
      ))
