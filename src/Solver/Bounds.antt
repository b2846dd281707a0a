-- ===== src/Solver/Bounds.antt =====
-- The bounds on a matrix of variables, and the cut of a vector to a total.
use count_buffy.Prelude.{◌↔◌, true, [], ◌∷◌, ℤ, ◌≤ℤ◌, All}
use count_buffy.Z3.{Z3, ◌&&◌, Holds, true_holds, conj_iff}
use count_buffy.Vec.{Ev, Ev2, Ev3}
use count_buffy.Solver.{SmtSolver, bound_vec, bound_rows, add_bound_rows, add_bounds, add_bound}
use count_buffy.Solver.Models.{Models, assert-Models}
use count_buffy.Z3.{le_iff}

module _ ⦃z : Z3⦄ (m : z.Model) (lower upper : ℤ) where
  abbrev pub Within : z.IntExpr → Type 0
  Within e = (lower ≤ℤ z.value m e) × (z.value m e ≤ℤ upper)

  Within-iff :
      (res : z.BoolExpr) (x : z.IntExpr)
      → Holds m (res && z.le (z.int_val lower) x && z.le x (z.int_val upper))
        ↔ (Holds m res × Within x)
  Within-iff res x =
      let low = rw (z.value-int_val m lower) at (le_iff m (z.int_val lower) x) in
      let high = rw (z.value-int_val m upper) at (le_iff m x (z.int_val upper)) in
      let inner = conj_iff m res (z.le (z.int_val lower) x) in
      let whole = conj_iff m (res && z.le (z.int_val lower) x) (z.le x (z.int_val upper)) in
      (
        λ h. ((inner.0 (whole.0 h).0).0, (low.0 (inner.0 (whole.0 h).0).1, high.0 (whole.0 h).1)),
        λ h. whole.1 (inner.1 (h.0, low.1 h.1.0), high.1 h.1.1),
      )

  bound_vec_iff :
      (v : Ev) (res : z.BoolExpr)
      → Holds m (bound_vec lower upper res v) ↔ (Holds m res × All Within v)
  unfolding bound_vec
  bound_vec_iff [] res = (λ h. (h, tt), λ h. h.0)
  bound_vec_iff (e ∷ v) res =
      let here = Within-iff res e in
      let rest = bound_vec_iff v (res && z.le (z.int_val lower) e && z.le e (z.int_val upper)) in
      (
        λ h. ((here.0 (rest.0 h).0).0, ((here.0 (rest.0 h).0).1, (rest.0 h).1)),
        λ h. rest.1 (here.1 (h.0, h.1.0), h.1.1),
      )

  bound_rows_iff :
      (vv : Ev2) (res : z.BoolExpr)
      → Holds m (bound_rows lower upper res vv) ↔ (Holds m res × All (All Within) vv)
  unfolding bound_rows
  bound_rows_iff [] res = (λ h. (h, tt), λ h. h.0)
  bound_rows_iff (v ∷ vv) res =
      let here = bound_vec_iff v res in
      let rest = bound_rows_iff vv (bound_vec lower upper res v) in
      (
        λ h. ((here.0 (rest.0 h).0).0, ((here.0 (rest.0 h).0).1, (rest.0 h).1)),
        λ h. rest.1 (here.1 (h.0, h.1.0), h.1.1),
      )

  pub add_bound_rows-Models :
      (vv : Ev2) (slv : SmtSolver)
      → Models m (add_bound_rows slv vv lower upper) ↔ (Models m slv × All (All Within) vv)
  unfolding add_bound_rows
  add_bound_rows-Models vv slv =
      let here = assert-Models m slv (bound_rows lower upper (z.bool_val true) vv) in
      let rows = bound_rows_iff vv (z.bool_val true) in
      (λ h. ((here.0 h).0, (rows.0 (here.0 h).1).1), λ h. here.1 (h.0, rows.1 (true_holds m, h.1)))

  add_bounds-Models :
      (vvv : Ev3) (slv : SmtSolver)
      → Models m (add_bounds slv vvv lower upper) ↔ (Models m slv × All (All (All Within)) vvv)
  unfolding add_bounds
  add_bounds-Models [] slv = (λ h. (h, tt), λ h. h.0)
  add_bounds-Models (vv ∷ vvv) slv =
      let here = add_bound_rows-Models vv slv in
      let rest = add_bounds-Models vvv (add_bound_rows slv vv lower upper) in
      (
        λ h. ((here.0 (rest.0 h).0).0, ((here.0 (rest.0 h).0).1, (rest.0 h).1)),
        λ h. rest.1 (here.1 (h.0, h.1.0), h.1.1),
      )

  -- After `add_bound` a model satisfies the solver's assertions exactly when it satisfied them
  -- before and every entry of the three-dimensional array lies between the bounds.
  pub add_bound-Models :
      (vvv : Ev3) (slv : SmtSolver)
      → Models m (add_bound slv vvv lower upper) ↔ (Models m slv × All (All (All Within)) vvv)
  unfolding add_bound
  add_bound-Models vvv slv =
      let all = add_bounds-Models vvv slv in
      let last = assert-Models m (add_bounds slv vvv lower upper) (z.bool_val true) in
      (λ h. all.0 (last.0 h).0, λ h. last.1 (all.1 h, true_holds m))
