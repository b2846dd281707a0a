-- ===== src/Prelude/Loops.antt =====
-- `for (i = a; i < b; ++i)`: the indices as a list, a body that appends, and what holds of all rounds.
use Prim.Native.Nat.{ℕ, zero, suc, ◌+◌, ◌-◌, ◌≤◌, ◌<◌}
use mathlib.Core.Path.{◌≡◌, subst}
use mathlib.Core.Logic.{◌↔◌, ◌⊎◌, inl, inr}
use mathlib.Core.List.{map, List, [], ◌∷◌, ◌++◌}
use native.Mathlib.Omega.{arith}
use count_buffy.Prelude.Lists.{All, All-append}

pub at_or_after : (a i : ℕ) → a ≤ i → (a ≡ i) ⊎ (suc a ≤ i)
at_or_after a i h = ground arith

abbrev pub range_from : ℕ → ℕ → List ℕ
range_from a zero = []
range_from a (suc n) = a ∷ range_from (suc a) n

-- The values of `i` in `for (int i = a; i < b; ++i)`.
abbrev pub range : ℕ → ℕ → List ℕ
range a b = range_from a (b - a)

-- The `n` indices `i = a; …; --i` from `a` down.
abbrev pub down_from : ℕ → ℕ → List ℕ
down_from a zero = []
down_from a (suc n) = a ∷ down_from (a - 1) n

module _ {ℓ κ} {A : Type ℓ} {B : Type κ} where
  -- A loop that updates a variable.
  abbrev pub loop : (B → A → B) → B → List A → B
  loop f b [] = b
  loop f b (x ∷ xs) = loop f (f b x) xs

  -- A loop whose body appends to a vector.
  abbrev pub gather : (A → List B) → List A → List B
  gather f [] = []
  gather f (x ∷ xs) = f x ++ gather f xs

module _ {κ} (P : ℕ → Type κ) where
  pub All-range_from : (a n : ℕ) → All P (range_from a n) → (i : ℕ) → a ≤ i → i < a + n → P i
  All-range_from a zero h i lo hi = absurd (omega arith)
  All-range_from a (suc n) h i lo hi = elim (at_or_after a i lo) [
    | inl e ↦ subst P e h.0
    | inr more ↦ All-range_from (suc a) n h.1 i more (omega arith)
  ]

  pub All-range_from_of : (a n : ℕ) → ((i : ℕ) → a ≤ i → i < a + n → P i) → All P (range_from a n)
  All-range_from_of a zero h = tt
  All-range_from_of a (suc n) h = (
    h a (omega arith) (omega arith),
    All-range_from_of (suc a) n (λ i lo hi. h i (omega arith) (omega arith)),
  )

  pub All-range_iff : (a b : ℕ) → All P (range a b) ↔ ((i : ℕ) → a ≤ i → i < b → P i)
  All-range_iff a b = (
    λ h i lo hi. All-range_from a (b - a) h i lo (omega arith),
    λ h. All-range_from_of a (b - a) (λ i lo hi. h i lo (omega arith)),
  )

module _ {ℓ κ} {A : Type ℓ} {B : Type κ} where
  pub All-gather_iff {μ} :
      (P : B → Type μ) (f : A → List B) (xs : List A)
      → All P (gather f xs) ↔ All (λ x. All P (f x)) xs
  All-gather_iff P f [] = (λ h. h, λ h. h)
  All-gather_iff P f (x ∷ xs) =
      let parts = All-append P (f x) (gather f xs) in
      let rest = All-gather_iff P f xs in
      (λ h. ((parts.0 h).0, rest.0 (parts.0 h).1), λ h. parts.1 (h.0, rest.1 h.1))

pub All-map_iff {ℓ κ μ} :
    {A : Type ℓ} {B : Type κ} (P : B → Type μ) (f : A → B) (xs : List A)
    → All P (map f xs) ↔ All (λ x. P (f x)) xs
All-map_iff P f [] = (λ h. h, λ h. h)
All-map_iff P f (x ∷ xs) =
    let rest = All-map_iff P f xs in (λ h. (h.0, rest.0 h.1), λ h. (h.0, rest.1 h.1))

-- What the rounds of a loop append satisfies `P` exactly when what each round appends does.
pub All-loop_iff {κ μ} :
    {B : Type κ} (P : B → Type μ) (f : ℕ → List B) (a b : ℕ)
    → All P (gather f (range a b)) ↔ ((i : ℕ) → a ≤ i → i < b → All P (f i))
All-loop_iff P f a b =
    let rounds = All-gather_iff P f (range a b) in
    let each = All-range_iff (λ i. All P (f i)) a b in
    (λ h. each.0 (rounds.0 h), λ h. rounds.1 (each.1 h))
