-- ===== src/Prelude/Totals.antt =====
-- Sums f 0 + … + f (n - 1) of integers.
use Prim.Native.Nat.{ℕ, zero, suc, ◌<◌}
use mathlib.Core.Path.{◌≡◌, refl, ap, sym, ◌∙◌, subst}
use mathlib.Core.Logic.{◌⊎◌, ◌≢◌, inl, inr}
use native.Mathlib.Omega.{arith}
use count_buffy.Prelude.Int.{ℤ, pos, ◌+ℤ◌, ◌-ℤ◌, ◌≤ℤ◌, int_laws, parts, zero-+ℤ, +ℤ-zero, +ℤ_assoc}

unfoldable pub total : ℕ → (ℕ → ℤ) → ℤ
total zero f = pos 0
total (suc n) f = total n f +ℤ f n

pub total_congr : (n : ℕ) (f g : ℕ → ℤ) → ((p : ℕ) → p < n → f p ≡ g p) → total n f ≡ total n g
unfolding total
total_congr zero f g h = refl
total_congr (suc n) f g h = rw (total_congr n f g (λ p b. h p (omega arith)), h n (omega arith))

pub total-add : (n : ℕ) (f g : ℕ → ℤ) → total n (λ p. f p +ℤ g p) ≡ total n f +ℤ total n g
unfolding total
total-add zero f g = omega int_laws
total-add (suc n) f g = rw (total-add n f g) (omega int_laws)

pub total-sub : (n : ℕ) (f g : ℕ → ℤ) → total n (λ p. f p -ℤ g p) ≡ total n f -ℤ total n g
unfolding total
total-sub zero f g = omega int_laws
total-sub (suc n) f g = rw (total-sub n f g) (omega int_laws)

pub total_nonneg : (n : ℕ) (f : ℕ → ℤ) → ((p : ℕ) → p < n → pos 0 ≤ℤ f p) → pos 0 ≤ℤ total n f
unfolding total
total_nonneg zero f h = omega arith
total_nonneg (suc n) f h =
    let rest = total_nonneg n f (λ p b. h p (omega arith)) in
    let here = h n (omega arith) in omega int_laws

pub total-zero : (n : ℕ) → total n (λ _. pos 0) ≡ pos 0
unfolding total
total-zero zero = refl
total-zero (suc n) = rw (total-zero n) (omega int_laws)

pub total_zeros : (n : ℕ) (f : ℕ → ℤ) → ((p : ℕ) → p < n → f p ≡ pos 0) → total n f ≡ pos 0
total_zeros n f h = total_congr n f (λ _. pos 0) h ∙ total-zero n

at_or_before : (i n : ℕ) → i < suc n → (i ≡ n) ⊎ (i < n)
at_or_before i n b = ground arith

-- A sum of 0 without negative terms has no other term.
pub total_zero_entries :
    (n : ℕ) (f : ℕ → ℤ)
    → ((p : ℕ) → p < n → pos 0 ≤ℤ f p)
    → total n f ≡ pos 0
    → (p : ℕ) → p < n
    → f p ≡ pos 0
unfolding total
total_zero_entries zero f h e p b = absurd (omega arith)
total_zero_entries (suc n) f h e p b =
    let rest = total_nonneg n f (λ p b. h p (omega arith)) in
    let here = h n (omega arith) in
    let sum = parts e in
    elim (at_or_before p n b) [
      | inl last ↦ subst (λ p. f p ≡ pos 0) (sym last) (omega int_laws)
      | inr less ↦ total_zero_entries n f (λ p b. h p (omega arith)) (omega int_laws) p less
    ]

-- A sum with one term.
pub total_single :
    (n i : ℕ) (f : ℕ → ℤ) (a : ℤ)
    → i < n
    → f i ≡ a
    → ((p : ℕ) → p < n → p ≢ i → f p ≡ pos 0)
    → total n f ≡ a
unfolding total
total_single zero i f a b e h = absurd (omega arith)
total_single (suc n) i f a b e h = elim (at_or_before i n b) [
  | inl same ↦
      let rest = total_zeros n f (λ p lt. h p (omega arith) (λ q. absurd (omega arith))) in
      rw (rest, ap f (sym same), e) (zero-+ℤ a)
  | inr less ↦
      let rest = total_single n i f a less e (λ p lt. h p (omega arith)) in
      rw (rest, h n (omega arith) (λ q. absurd (omega arith))) (+ℤ-zero a)
]

-- The first term split off, where the definition splits off the last.
pub total_first : (n : ℕ) (f : ℕ → ℤ) → total (suc n) f ≡ f 0 +ℤ total n (λ p. f (suc p))
unfolding total
total_first zero f = omega int_laws
total_first (suc n) f = rw (total_first n f) (+ℤ_assoc (f 0) (total n (λ p. f (suc p))) (f (suc n)))

-- A summand in the place of a 0.
pub total_put :
    (n k : ℕ) (f g : ℕ → ℤ) (x : ℤ)
    → k < n
    → f k ≡ x
    → g k ≡ pos 0
    → ((i : ℕ) → i < n → i ≢ k → f i ≡ g i)
    → total n f ≡ total n g +ℤ x
unfolding total
total_put zero k f g x b e e' h = absurd (omega arith)
total_put (suc n) k f g x b e e' h = elim (at_or_before k n b) [
  | inl same ↦
      let rest = total_congr n f g (λ i lt. h i (omega arith) (λ q. absurd (omega arith))) in
      let here = subst (λ k. f k ≡ x) same e in
      let none_ = subst (λ k. g k ≡ pos 0) same e' in rw (rest, here, none_) (omega int_laws)
  | inr less ↦
      let rest = total_put n k f g x less e e' (λ i lt. h i (omega arith)) in
      let here = h n (omega arith) (λ q. absurd (omega arith)) in rw (rest, here) (omega int_laws)
]
