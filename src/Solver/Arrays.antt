-- ===== src/Solver/Arrays.antt =====
-- The arrays of variables: their sizes, and that declaring them asserts nothing.
use count_buffy.Prelude.{
  ℕ, zero, suc, ◌-◌, ◌≡◌, refl, ap, ◌∙◌, List, [], ◌∷◌, arith, length, All, range, range_from, Text,
  Bool, ℤ,
}
use count_buffy.Z3.{Z3}
use count_buffy.Vec.{Ev2}
use count_buffy.Solver.{
  SmtSolver, rounds, iv, ivv, ivvv, bv, bvv, iv_used, ivv_used, bv_const, iv_const, ivv_const,
}

module _ {ℓ κ} {A : Type ℓ} {S : Type κ} where
  pub length-rounds :
      (f : ℕ → S → A × S) (is : List ℕ) (s : S) → length (rounds f is s).0 ≡ length is
  unfolding rounds
  length-rounds f [] s = refl
  length-rounds f (i ∷ is) s = ap suc (length-rounds f is (f i s).1)

  -- What holds of every entry, whatever the state.
  pub rounds-All {μ} :
      (P : A → Type μ) (f : ℕ → S → A × S)
      → ((i : ℕ) (s : S) → P (f i s).0)
      → (is : List ℕ) (s : S) → All P (rounds f is s).0
  unfolding rounds
  rounds-All P f h [] s = tt
  rounds-All P f h (i ∷ is) s = (h i s, rounds-All P f h is (f i s).1)

  -- What every round keeps of the state.
  pub rounds-keep {μ} :
      {B : Type μ} (g : S → B) (f : ℕ → S → A × S)
      → ((i : ℕ) (s : S) → g (f i s).1 ≡ g s)
      → (is : List ℕ) (s : S) → g (rounds f is s).1 ≡ g s
  unfolding rounds
  rounds-keep g f h [] s = refl
  rounds-keep g f h (i ∷ is) s = rounds-keep g f h is (f i s).1 ∙ h i s

pub length-range : (a n : ℕ) → length (range_from a n) ≡ n
length-range a zero = refl
length-range a (suc n) = ap suc (length-range (suc a) n)

module _ ⦃z : Z3⦄ where
  -- `n` matrices of `m` rows of `k` variables.
  pub iv-length : (k : ℕ) (name : Text) (slv : SmtSolver) → length (iv k name slv).0 ≡ k
  unfolding iv
  iv-length k name slv = length-rounds _ (range 0 k) slv ∙ length-range 0 (k - 0) ∙ omega arith

  pub ivv-shape :
      (m k : ℕ) (name : Text) (slv : SmtSolver)
      → (length (ivv m k name slv).0 ≡ m) × All (λ v. length v ≡ k) (ivv m k name slv).0
  unfolding ivv
  ivv-shape m k name slv = (
    length-rounds _ (range 0 m) slv ∙ length-range 0 (m - 0) ∙ omega arith,
    rounds-All (λ v. length v ≡ k) _ (λ i s. iv-length k _ s) (range 0 m) slv,
  )

  abbrev pub IsMatrix : ℕ → ℕ → Ev2 → Type 0
  IsMatrix m k vv = (length vv ≡ m) × All (λ v. length v ≡ k) vv

  pub ivvv-shape :
      (n m k : ℕ) (name : Text) (slv : SmtSolver)
      → (length (ivvv n m k name slv).0 ≡ n) × All (IsMatrix m k) (ivvv n m k name slv).0
  unfolding ivvv
  ivvv-shape n m k name slv = (
    length-rounds _ (range 0 n) slv ∙ length-range 0 (n - 0) ∙ omega arith,
    rounds-All (IsMatrix m k) _ (λ i s. ivv-shape m k _ s) (range 0 n) slv,
  )

  -- The assertions stay.
  pub iv-keeps : (k : ℕ) (name : Text) (slv : SmtSolver) → (iv k name slv).1.s ≡ slv.s
  unfolding iv
  iv-keeps k name slv = rounds-keep (λ slv. slv.s) _ (λ i s. refl) (range 0 k) slv

  pub ivv-keeps : (m k : ℕ) (name : Text) (slv : SmtSolver) → (ivv m k name slv).1.s ≡ slv.s
  unfolding ivv
  ivv-keeps m k name slv = rounds-keep (λ slv. slv.s) _ (λ i s. iv-keeps k _ s) (range 0 m) slv

  pub ivvv-keeps : (n m k : ℕ) (name : Text) (slv : SmtSolver) → (ivvv n m k name slv).1.s ≡ slv.s
  unfolding ivvv
  ivvv-keeps n m k name slv =
      rounds-keep (λ slv. slv.s) _ (λ i s. ivv-keeps m k _ s) (range 0 n) slv

  pub bv-keeps : (k : ℕ) (name : Text) (slv : SmtSolver) → (bv k name slv).1.s ≡ slv.s
  unfolding bv
  bv-keeps k name slv = rounds-keep (λ slv. slv.s) _ (λ i s. refl) (range 0 k) slv

  pub bvv-keeps : (m k : ℕ) (name : Text) (slv : SmtSolver) → (bvv m k name slv).1.s ≡ slv.s
  unfolding bvv
  bvv-keeps m k name slv = rounds-keep (λ slv. slv.s) _ (λ i s. bv-keeps k _ s) (range 0 m) slv

  -- The arrays over the packet types in use, and the constant ones.
  pub ivv_used-shape :
      (m k : ℕ) (name : Text) (used : List ℕ) (slv : SmtSolver)
      → IsMatrix m (length used) (ivv_used m k name used slv).0
  unfolding ivv_used iv_used
  ivv_used-shape m k name used slv = (
    length-rounds _ (range 0 m) slv ∙ length-range 0 (m - 0) ∙ omega arith,
    rounds-All (λ v. length v ≡ length used) _
        (λ i s.
          length-rounds _ (range 0 (length used)) s
          ∙ length-range 0 (length used - 0)
          ∙ omega arith)
        (range 0 m) slv,
  )

  pub iv_used-keeps :
      (k : ℕ) (name : Text) (used : List ℕ) (slv : SmtSolver)
      → (iv_used k name used slv).1.s ≡ slv.s
  unfolding iv_used
  iv_used-keeps k name used slv =
      rounds-keep (λ slv. slv.s) _ (λ i s. refl) (range 0 (length used)) slv

  pub ivv_used-keeps :
      (m k : ℕ) (name : Text) (used : List ℕ) (slv : SmtSolver)
      → (ivv_used m k name used slv).1.s ≡ slv.s
  unfolding ivv_used
  ivv_used-keeps m k name used slv =
      rounds-keep (λ slv. slv.s) _ (λ i s. iv_used-keeps k _ used s) (range 0 m) slv

  pub bv_const-keeps : (k : ℕ) (v : Bool) (slv : SmtSolver) → (bv_const k v slv).1.s ≡ slv.s
  unfolding bv_const
  bv_const-keeps k v slv = rounds-keep (λ slv. slv.s) _ (λ i s. refl) (range 0 k) slv

  pub iv_const-keeps : (k : ℕ) (n : ℤ) (slv : SmtSolver) → (iv_const k n slv).1.s ≡ slv.s
  unfolding iv_const
  iv_const-keeps k n slv = rounds-keep (λ slv. slv.s) _ (λ i s. refl) (range 0 k) slv

  pub ivv_const-keeps : (m k : ℕ) (n : ℤ) (slv : SmtSolver) → (ivv_const m k n slv).1.s ≡ slv.s
  unfolding ivv_const
  ivv_const-keeps m k n slv =
      rounds-keep (λ slv. slv.s) _ (λ i s. iv_const-keeps k n s) (range 0 m) slv
