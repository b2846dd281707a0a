-- ===== src/Programs/Composed/Throughput.antt =====
-- What leaves the composition of loom.cpp in a step.

use count_buffy.Solver.Arrays.{IsMatrix, ivvv-shape}
use count_buffy.Prelude.{
  Text, ap, ◌∙◌, suc, [], All-get, ℕ, ◌<◌, ◌≡◌, refl, sym, subst, inl, inr, codes, pos, ◌+ℤ◌, ◌≤ℤ◌,
  total, arith, int_laws, parts, length,
}
use count_buffy.Z3.{Z3}
use count_buffy.Vec.{
  Ev2, row, sum, add_rows, add_vec, get_bits_at_i, get_bufs_at_i, get_buf_vec_at_i,
}
use count_buffy.Vec.First.{NoneBefore, IsFirst-before}
use count_buffy.Vec.Meaning.{value-sum, total-add_vec, length-add_vec, get_or-map_all}
use count_buffy.NamedExp.{Sat}
use count_buffy.NamedExp.Meaning.{merge_iff}
use count_buffy.Solver.{ivvv, SmtSolver}
use count_buffy.Solver.Models.{Models, add-Models}
use count_buffy.Sts.{Sts, new_sts}
use count_buffy.Sts.Constructed.{ivvv-row}
use count_buffy.Sts.Scheduler.{base_constrs, inputs}
use count_buffy.Sts.Scheduler.Steps.{base-output, row-get_buf_vec}
use count_buffy.Sts.Inputs.{bl_size}
use count_buffy.Prio.{prio}
use count_buffy.Prio.Service.{out-total}
use count_buffy.Programs.Composed.{composed, time_steps}

module _ ⦃z : Z3⦄ (m : z.Model) where
  sum-add_rows :
      (l r : Ev2) (t k : ℕ)
      → t < length l
      → length (row l t) ≡ suc k
      → length (row r t) ≡ suc k
      → z.value m (sum (row (add_rows l r) t))
        ≡ z.value m (sum (row l t)) +ℤ z.value m (sum (row r t))
  unfolding add_rows
  sum-add_rows l r t k b e e' =
      let u = row l t in
      let v = row r t in
      ap (λ w. z.value m (sum w))
        (get_or-map_all (λ i. add_vec (row l i) (row r i)) [] (length l) t b)
      ∙ value-sum m (add_vec u v) k (length-add_vec u v ∙ e)
      ∙ total-add_vec m u v (suc k) e
      ∙ rw (value-sum m u k e, value-sum m v k e')

  ivvv-rows :
      (n steps k : ℕ) (name : Text) (slv : SmtSolver) (i : ℕ)
      → i < n
      → length (row (ivvv n steps k name slv).0 i) ≡ steps
  ivvv-rows n steps k name slv i b =
      let (all, each) = ivvv-shape n steps k name slv in
      (All-get (IsMatrix steps k) (ivvv n steps k name slv).0 i [] each (omega arith)).0

  -- Of two buffers of a priority scheduler at most one packet leaves in a step.
  two-out :
      (sts : Sts)
      → sts.num_bufs ≡ 2
      → Sat m (base_constrs prio sts tt).0
      → (t : ℕ) → t < sts.timesteps
      → z.value m (sum (row (row sts.O 0) t)) +ℤ z.value m (sum (row (row sts.O 1) t)) ≤ℤ pos 1
  unfolding total
  two-out sts two base t b =
      let (st, here) = base-output m prio sts tt base t b in
      let bv = get_bits_at_i sts.B t in
      let ov = get_buf_vec_at_i sts.O t in
      let served = out-total m sts bv (get_bufs_at_i sts.S_int t) ov t here in
      let first_row = row-get_buf_vec sts.O t 0 in
      let second_row = row-get_buf_vec sts.O t 1 in
      elim (IsFirst-before m bv 2) [
        | inl (i, ib, first) ↦
            let e =
              rw (two, first_row, second_row) at (served.0 i (omega (arith, two)) first.busy) in
            omega (int_laws, parts e)
        | inr idle ↦
            let e =
              rw (two, first_row, second_row) at
                (served.1 (subst (λ n. NoneBefore m bv n) (sym two) idle)) in
            omega (int_laws, parts e)
      ]

  -- In a model of what loom.cpp asserts for its composition of schedulers, at most one packet
  -- leaves it in a step.
  pub composed-throughput :
      (buffer_size : ℕ) (slv : SmtSolver) (t : ℕ)
      → t < time_steps
      → Models m (composed buffer_size slv).1
      → z.value m (sum (row (composed buffer_size slv).0.O t)) ≤ℤ pos 1
  unfolding composed add_rows new_sts base_constrs inputs bl_size
  composed-throughput buffer_size slv t b h =
      let p = (composed buffer_size slv).0.prio_sts in
      let base = (merge_iff m _ _ (codes "prio_base")).0 ((add-Models m _ _).0 h).1 in
      let o0 = row (row p.O 0) t in
      let o1 = row (row p.O 1) t in
      let size0 : length o0 ≡ 3 = ivvv-row 2 10 3 _ _ 0 t (omega arith) b in
      let size1 : length o1 ≡ 3 = ivvv-row 2 10 3 _ _ 1 t (omega arith) b in
      let long : t < length (row p.O 0) = omega (arith, ivvv-rows 2 10 3 _ _ 0 (omega arith)) in
      subst (λ x. x ≤ℤ pos 1) (sym (sum-add_rows (row p.O 0) (row p.O 1) t 2 long size0 size1))
        (two-out p refl base t b)
