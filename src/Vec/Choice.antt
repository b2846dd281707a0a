-- ===== src/Vec/Choice.antt =====
-- `ite(c, v == 1, v == 0)` on a vector, as the schedulers' outputs use it.
use count_buffy.Prelude.{ℕ, ◌≡◌, ◌↔◌, inl, inr, Bool, true, false, pos, Bool-cases}
use count_buffy.Z3.{Z3, Holds, eq_iff, ite_true, ite_false}
use count_buffy.Vec.{Ev, sum, sum_eq}

module _ ⦃z : Z3⦄ (m : z.Model) where
  pub true_not_false : {b : Bool} → b ≡ true → b ≡ false → ⊥
  true_not_false t f = cc

  pub value_is : (v : Ev) (n : ℕ) → Holds m (sum_eq v (pos n)) ↔ (z.value m (sum v) ≡ pos n)
  unfolding sum_eq
  value_is v n = rw (z.value-int_val m (pos n)) at (eq_iff m (sum v) (z.int_val (pos n)))

  -- `ite(c, v == 1, v == 0)`, for a condition that means `P`.
  pub one_or_none_iff :
      (P : Type 0) (c : z.BoolExpr) (v : Ev)
      → Holds m c ↔ P
      → Holds m (z.ite c (sum_eq v (pos 1)) (sum_eq v (pos 0)))
        ↔ ((P → z.value m (sum v) ≡ pos 1) × (¬ P → z.value m (sum v) ≡ pos 0))
  one_or_none_iff P c v e = elim (Bool-cases (z.holds m c)) [
    | inl t ↦
        let same = ite_true m c (sum_eq v (pos 1)) (sum_eq v (pos 0)) t in
        let one = value_is v 1 in
        (
          λ h. (λ _. one.0 (same.0 h), λ no_p. absurd (no_p (e.0 t))),
          λ h. same.1 (one.1 (h.0 (e.0 t))),
        )
    | inr f ↦
        let same = ite_false m c (sum_eq v (pos 1)) (sum_eq v (pos 0)) f in
        let none_ = value_is v 0 in
        let not_p = λ (p : P). let t = e.1 p in true_not_false t f in
        (λ h. (λ p. absurd (not_p p), λ _. none_.0 (same.0 h)), λ h. same.1 (none_.1 (h.1 not_p)))
  ]
