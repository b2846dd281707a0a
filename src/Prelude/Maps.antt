-- ===== src/Prelude/Maps.antt =====
-- `std::map`: an association list in the order of its keys, so that a loop over it meets them in
-- that order.
use Prim.Native.Nat.{ℕ}
use mathlib.Core.Path.{◌≡◌, refl}
use mathlib.Core.Logic.{◌⊎◌, ◌↔◌}
use mathlib.Core.List.{List, [], ◌∷◌, map}
use mathlib.Core.Option.{Option, none, some}
use mathlib.Core.Bool.{Bool, true, false, ◌&&◌, ◌||◌}
use native.Mathlib.Omega.{arith}
use count_buffy.Prelude.Tests.{ltb, ◌==◌, if◌then◌else◌, ==_iff}

-- The order of the keys.
pub record Key {ℓ} (K : Type ℓ) : Type ℓ where
  pub same : K → K → Bool
  pub before : K → K → Bool
  pub same_iff : (a b : K) → (same a b ≡ true) ↔ (a ≡ b)

instance abbrev pub nat_key : Key ℕ
nat_key = record { same = ◌==◌; before = ltb; same_iff = ==_iff }

abbrev pub same_pair : ℕ × ℕ → ℕ × ℕ → Bool
same_pair a b = a.0 == b.0 && a.1 == b.1

pub same_pairs : (a b : ℕ × ℕ) → (same_pair a b ≡ true) ↔ (a ≡ b)
same_pairs (a, b) (c, d) = ground arith

-- Tuples in lexicographic order.
instance abbrev pub pair_key : Key (ℕ × ℕ)
pair_key = record {
  same = same_pair;
  before = λ a b. ltb a.0 b.0 || (a.0 == b.0 && ltb a.1 b.1);
  same_iff = same_pairs;
}

abbrev pub Map {ℓ κ} : Type ℓ → Type κ → Type (ℓ ⊔ κ)
Map K V = List (K × V)

abbrev pub keys {ℓ κ} : {K : Type ℓ} {V : Type κ} → Map K V → List K
keys = map (λ (k, _). k)

abbrev pub values {ℓ κ} : {K : Type ℓ} {V : Type κ} → Map K V → List V
values = map (λ (_, v). v)

module _ {ℓ κ} {K : Type ℓ} {V : Type κ} ⦃o : Key K⦄ where
  unfoldable pub find : Map K V → K → Option V
  find [] k = none
  find ((j, v) ∷ m) k = if o.same k j then some v else find m k

  -- `m[k] = v` and `insert_or_assign(k, v)`.
  unfoldable pub assign : K → V → Map K V → Map K V
  assign k v [] = (k, v) ∷ []
  assign k v ((j, w) ∷ m) =
      let rest = assign k v m in
      if o.same k j then (k, v) ∷ m else if o.before k j then (k, v) ∷ (j, w) ∷ m else (j, w) ∷ rest

  unfoldable pub contains_key : Map K V → K → Bool
  unfolding find
  contains_key m k = elim (find m k) [ none ↦ false | some _ ↦ true ]

  -- `m[k]` where a missing key has the value `d`.
  unfoldable pub find_or : Map K V → K → V → V
  unfolding find
  find_or m k d = elim (find m k) [ none ↦ d | some v ↦ v ]

  -- What stands at a key after another write.
  pub find-assign :
      (m : Map K V) (k j : K) (v : V)
      → find (assign k v m) j ≡ (if o.same j k then some v else find m j)
  unfolding find assign
  find-assign [] k j v = refl
  find-assign ((i, w) ∷ m) k j v =
      ground (arith, find-assign m k j v, o.same_iff k i, o.same_iff j i, o.same_iff j k)

  pub find_or-assign :
      (m : Map K V) (k j : K) (v d : V)
      → find_or (assign k v m) j d ≡ (if o.same j k then v else find_or m j d)
  unfolding find_or
  find_or-assign m k j v d = ground (arith, find-assign m k j v)

-- Every key stands once.
abbrev pub KeysDiffer {ℓ} : {V : Type ℓ} → Map (ℕ × ℕ) V → Type ℓ
KeysDiffer [] = Unit
KeysDiffer ((key, v) ∷ m) = (find m key ≡ none) × KeysDiffer m

module _ {ℓ} {V : Type ℓ} where
  pub found_head :
      (key : ℕ × ℕ) (v w : V) (m : Map (ℕ × ℕ) V) (k : ℕ × ℕ)
      → find ((key, v) ∷ m) k ≡ some w
      → ((k ≡ key) × (v ≡ w)) ⊎ ((pair_key.same k key ≡ false) × (find m k ≡ some w))
  unfolding find
  found_head key v w m k h = ground (arith, pair_key.same_iff k key)

  pub missing_head :
      (key : ℕ × ℕ) (v : V) (m : Map (ℕ × ℕ) V) (k : ℕ × ℕ)
      → find ((key, v) ∷ m) k ≡ none
      → (pair_key.same k key ≡ false) × (find m k ≡ none)
  unfolding find
  missing_head key v m k h = ground arith
