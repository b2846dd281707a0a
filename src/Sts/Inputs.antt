-- ===== src/Sts/Inputs.antt =====
-- The buffers of a checker: how the backlog moves, what is enqueued and what is dropped
-- (`bl_size`, `enqs`, `drops` and `enq_deq_sum` of src/sts_checker.cpp).
pub mod Steps
pub mod Exact
pub mod Packets
pub mod Run
pub mod Constraints
use count_buffy.Prelude.{ℕ, ◌-◌, List, [], ◌∷◌, pos, gather, range}
use count_buffy.Z3.{Z3, ◌&&◌}
use count_buffy.Vec.{row, bit, eq_vec, sub_vec, add_vec, sum_gt, sum_le, sum_eq}
use count_buffy.NamedExp.{NamedExp, of_expr}
use count_buffy.Sts.{Sts}

module _ ⦃z : Z3⦄ where
  -- The constraints of one round of each loop, at step `j`.
  unfoldable pub bl_size_at : Sts → ℕ → ℕ → List NamedExp
  bl_size_at sts i j =
      let Ei = row sts.E i in
      let Bi = row sts.B i in
      let Ci = row sts.C i in
      let Oi = row sts.O i in
      of_expr (z.iff (bit Bi j) (sum_gt (add_vec (row Ci (j - 1)) (row Ei j)) (pos 0)))
      ∷ of_expr (eq_vec (row Ci j) (sub_vec (add_vec (row Ci (j - 1)) (row Ei j)) (row Oi j)))
      ∷ []

  unfoldable pub bl_size_first : Sts → ℕ → NamedExp
  bl_size_first sts i =
      of_expr (eq_vec (row (row sts.C i) 0) (sub_vec (row (row sts.E i) 0) (row (row sts.O i) 0)))

  -- `FLUSH` is false in the sources, so the last constraint is not compiled.
  unfoldable pub bl_size : Sts → ℕ → List NamedExp
  bl_size sts i = bl_size_first sts i ∷ gather (bl_size_at sts i) (range 1 sts.timesteps)

  unfoldable pub enqs_at : Sts → ℕ → ℕ → List NamedExp
  enqs_at sts i j =
      of_expr (sum_le (add_vec (row (row sts.E i) j) (row (row sts.C i) (j - 1))) (pos sts.c)) ∷ []

  unfoldable pub enqs_first : Sts → ℕ → NamedExp
  enqs_first sts i =
      let Ei = row sts.E i in
      of_expr
        (sum_le (row Ei 0) (pos sts.c) && z.iff (bit (row sts.B i) 0) (sum_gt (row Ei 0) (pos 0)))

  unfoldable pub enqs : Sts → ℕ → List NamedExp
  enqs sts i = enqs_first sts i ∷ gather (enqs_at sts i) (range 1 sts.timesteps)

  unfoldable pub drops_at : Sts → ℕ → ℕ → List NamedExp
  drops_at sts i j =
      let Di = row sts.D i in
      let Ci = row sts.C i in
      of_expr (
        z.ite (bit (row sts.B i) j)
          (z.implies (sum_gt (row Di j) (pos 0))
            (sum_eq (add_vec (row Ci (j - 1)) (row (row sts.E i) j)) (pos sts.c)))
          (sum_eq (row Di j) (pos 0)))
      ∷ []

  unfoldable pub drops_first : Sts → ℕ → NamedExp
  drops_first sts i =
      let Di = row sts.D i in
      of_expr (
        z.ite (bit (row sts.B i) 0)
          (z.implies (sum_gt (row Di 0) (pos 0)) (sum_eq (row (row sts.E i) 0) (pos sts.c)))
          (sum_eq (row Di 0) (pos 0)))

  unfoldable pub drops : Sts → ℕ → List NamedExp
  drops sts i = drops_first sts i ∷ gather (drops_at sts i) (range 1 sts.timesteps)

  unfoldable pub enq_deq_sum_at : Sts → ℕ → ℕ → List NamedExp
  enq_deq_sum_at sts i j =
      of_expr (eq_vec (row (row sts.I i) j) (add_vec (row (row sts.E i) j) (row (row sts.D i) j)))
      ∷ []

  unfoldable pub enq_deq_sum_first : Sts → ℕ → NamedExp
  enq_deq_sum_first sts i =
      of_expr (eq_vec (row (row sts.I i) 0) (add_vec (row (row sts.E i) 0) (row (row sts.D i) 0)))

  unfoldable pub enq_deq_sum : Sts → ℕ → List NamedExp
  enq_deq_sum sts i =
      enq_deq_sum_first sts i ∷ gather (enq_deq_sum_at sts i) (range 1 sts.timesteps)
