-- ===== src/Solver/Cut.antt =====
-- `SmtSolver::get_capped…`: a vector cut to a total.
use count_buffy.Solver.{fitting, capped_from, capped}
use count_buffy.Z3.{le_iff}
use count_buffy.Vec.Meaning.{val}
use count_buffy.Vec.Choice.{true_not_false}
use count_buffy.Prelude.{total_first, ≤ℤ_decide, total_nonneg}
use count_buffy.Prelude.{
  ℕ, zero, suc, ◌<◌, ◌≡◌, refl, ap, ◌∙◌, ◌↔◌, ◌⊎◌, inl, inr, [], ◌∷◌, arith, int_laws, parts, ℤ,
  pos, ◌+ℤ◌, ◌≤ℤ◌, Bool-cases, length, total, zero-+ℤ, +ℤ-zero,
}
use count_buffy.Z3.{Z3, num, Holds, eq_iff}
use count_buffy.Vec.{Ev}

-- `r` is the smaller of `a` and `b`.
abbrev pub IsMin : ℤ → ℤ → ℤ → Type 0
IsMin r a b = ((a ≤ℤ b) × (r ≡ a)) ⊎ ((¬ (a ≤ℤ b)) × (r ≡ b))

module _ ⦃z : Z3⦄ (m : z.Model) where
  ite_int_cases :
      (P : Type 0) (c : z.BoolExpr) (a b : z.IntExpr)
      → Holds m c ↔ P
      → (P → z.value m (z.ite_int c a b) ≡ z.value m a)
        × (¬ P → z.value m (z.ite_int c a b) ≡ z.value m b)
  ite_int_cases P c a b e = elim (Bool-cases (z.holds m c)) [
    | inl t ↦ (λ p. rw t at (z.value-ite_int m c a b), λ no_p. absurd (no_p (e.0 t)))
    | inr f ↦ (λ p. absurd (true_not_false m (e.1 p) f), λ no_p. rw f at (z.value-ite_int m c a b))
  ]

  -- What is left up to `C`; the test for 0 changes nothing.
  rest-value :
      (s C : z.IntExpr)
      → z.value m s +ℤ z.value m (z.ite_int (z.eq s C) (num 0) (z.sub C s)) ≡ z.value m C
  rest-value s C =
      let cases =
        ite_int_cases (z.value m s ≡ z.value m C) (z.eq s C) (num 0) (z.sub C s) (eq_iff m s C) in
      elim (Bool-cases (z.holds m (z.eq s C))) [
        | inl t ↦
            let same = (eq_iff m s C).0 t in
            rw (cases.0 same, z.value-int_val m (pos 0), same) (+ℤ-zero (z.value m C))
        | inr f ↦
            let other = cases.1 (λ same. true_not_false m ((eq_iff m s C).1 same) f) in
            rw (other, z.value-sub m C s) (omega int_laws)
      ]

  -- As much of `x` as fits between `s` and `C`.
  fitting-value :
      (s C x : z.IntExpr)
      → IsMin (z.value m s +ℤ z.value m (fitting s C x)) (z.value m s +ℤ z.value m x) (z.value m C)
  unfolding fitting
  fitting-value s C x =
      let rest = z.ite_int (z.eq s C) (num 0) (z.sub C s) in
      let fits = rw (z.value-add m s x) at (le_iff m (z.add s x) C) in
      let cases =
        ite_int_cases (z.value m s +ℤ z.value m x ≤ℤ z.value m C) (z.le (z.add s x) C) x rest
          fits in
      elim (≤ℤ_decide (z.value m s +ℤ z.value m x) (z.value m C)) [
        | inl p ↦ inl (p, ap (λ a. z.value m s +ℤ a) (cases.0 p))
        | inr no_p ↦ inr (no_p, ap (λ a. z.value m s +ℤ a) (cases.1 no_p) ∙ rest-value s C)
      ]

  -- One entry in front of a vector that is cut.
  IsMin-step :
      (s f t x t' C : ℤ)
      → pos 0 ≤ℤ t'
      → IsMin (s +ℤ f) (s +ℤ x) C
      → IsMin (s +ℤ f +ℤ t) (s +ℤ f +ℤ t') C
      → IsMin (s +ℤ (f +ℤ t)) (s +ℤ (x +ℤ t')) C
  IsMin-step s f t x t' C nonneg (inl (p, e)) (inl (q, d)) =
      let e' = parts e in let d' = parts d in inl (omega int_laws, omega int_laws)
  IsMin-step s f t x t' C nonneg (inl (p, e)) (inr (q, d)) =
      let e' = parts e in let d' = parts d in inr ((λ r. q (omega int_laws)), omega int_laws)
  IsMin-step s f t x t' C nonneg (inr (p, e)) (inl (q, d)) =
      let e' = parts e in let d' = parts d in inr ((λ r. p (omega int_laws)), omega int_laws)
  IsMin-step s f t x t' C nonneg (inr (p, e)) (inr (q, d)) =
      let e' = parts e in let d' = parts d in inr ((λ r. p (omega int_laws)), omega int_laws)

  IsMin-le : (r a b : ℤ) → IsMin r a b → r ≤ℤ b
  IsMin-le r a b (inl (p, e)) = rw e p
  IsMin-le r a b (inr (p, e)) = rw e (omega arith)

  capped_from-total :
      (v : Ev) (s C : z.IntExpr)
      → z.value m s ≤ℤ z.value m C
      → ((i : ℕ) → i < length v → pos 0 ≤ℤ val m v i)
      → IsMin
          (z.value m s +ℤ total (length v) (val m (capped_from s C v).0))
          (z.value m s +ℤ total (length v) (val m v))
          (z.value m C)
  unfolding capped_from total
  capped_from-total [] s C le nat = inl (rw (+ℤ-zero (z.value m s)) le, refl)
  capped_from-total (x ∷ v) s C le nat =
      let f = fitting s C x in
      let first = fitting-value s C x in
      let s' = z.add s f in
      let nat' = λ (i : ℕ) (b : i < length v). nat (suc i) (omega arith) in
      let le' : z.value m s' ≤ℤ z.value m C = rw (z.value-add m s f) (IsMin-le _ _ _ first) in
      let later = rw (z.value-add m s f) at (capped_from-total v s' C le' nat') in
      rw
        (
          total_first (length v) (val m (f ∷ (capped_from s' C v).0)),
          total_first (length v) (val m (x ∷ v)),
        )
        (IsMin-step (z.value m s) (z.value m f) (total (length v) (val m (capped_from s' C v).0))
          (z.value m x) (total (length v) (val m v)) (z.value m C)
          (total_nonneg (length v) (val m v) nat') first later)

  capped_from-slack :
      (v : Ev) (s C : z.IntExpr) (i : ℕ)
      → i < length v
      → val m (capped_from s C v).0 i +ℤ val m (capped_from s C v).1 i ≡ val m v i
  unfolding capped_from
  capped_from-slack [] s C i b = absurd (omega arith)
  capped_from-slack (x ∷ v) s C zero b = rw (z.value-sub m x (fitting s C x)) (omega int_laws)
  capped_from-slack (x ∷ v) s C (suc i) b =
      capped_from-slack v (z.add s (fitting s C x)) C i (omega arith)

  -- For a vector with no negative entry, `capped` gives a vector whose total is the smaller of
  -- the given total and the capacity, and entry by entry the cut vector and the slack add up to
  -- the given one.
  pub capped-IsMin :
      (v : Ev) (c : ℕ)
      → ((i : ℕ) → i < length v → pos 0 ≤ℤ val m v i)
      → IsMin (total (length v) (val m (capped v (pos c)).0)) (total (length v) (val m v)) (pos c)
        × ((i : ℕ)
            → i < length v
            → val m (capped v (pos c)).0 i +ℤ val m (capped v (pos c)).1 i ≡ val m v i)
  unfolding capped
  capped-IsMin v c nat =
      let least =
        capped_from-total v (num 0) (z.int_val (pos c))
          (rw (z.value-int_val m (pos 0), z.value-int_val m (pos c)) (omega arith)) nat in
      (
        rw
            (
              z.value-int_val m (pos 0),
              z.value-int_val m (pos c),
              zero-+ℤ (total (length v) (val m (capped_from (num 0) (z.int_val (pos c)) v).0)),
              zero-+ℤ (total (length v) (val m v)),
            )
            at least,
        λ i b. capped_from-slack v (num 0) (z.int_val (pos c)) i b,
      )
