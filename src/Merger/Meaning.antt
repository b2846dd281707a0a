-- ===== src/Merger/Meaning.antt =====
-- What the merger asks of the packets served in a step.
use count_buffy.Vec.Choice.{value_is}
use count_buffy.Prelude.{All-map_iff, All-range_iff, ℕ, ◌<◌, ◌≡◌, ◌↔◌, arith, pos, range}
use count_buffy.Z3.{Z3, Holds, implies_iff}
use count_buffy.Vec.{Ev, Ev2, Bv, bit, row, sum, sum_eq}
use count_buffy.NamedExp.{of_expr, Sat}
use count_buffy.Sts.{Sts}
use count_buffy.Merger.{out}

module _ ⦃z : Z3⦄ (m : z.Model) where
  -- A model satisfies the merger's constraints on the outputs of a step exactly when every
  -- backlogged buffer serves one packet.
  pub all_served_iff :
      (sts : Sts) (bv : Bv) (sv : Ev) (ov : Ev2) (t : ℕ)
      → Sat m (out sts bv sv ov t)
        ↔ ((i : ℕ) → i < sts.num_bufs → Holds m (bit bv i) → z.value m (sum (row ov i)) ≡ pos 1)
  unfolding out of_expr
  all_served_iff sts bv sv ov t =
      let part = λ (i : ℕ). of_expr (z.implies (bit bv i) (sum_eq (row ov i) (pos 1))) in
      let all = All-map_iff (λ ne. Holds m ne.e) part (range 0 sts.num_bufs) in
      let each = All-range_iff (λ i. Holds m (part i).e) 0 sts.num_bufs in
      let here = λ (i : ℕ). implies_iff m (bit bv i) (sum_eq (row ov i) (pos 1)) in
      (
        λ h i b busy.
            (value_is m (row ov i) 1).0 ((here i).0 (each.0 (all.0 h) i (omega arith) b) busy),
        λ h.
            all.1
              (each.1 (λ i lo b. (here i).1 (λ busy. (value_is m (row ov i) 1).1 (h i b busy)))),
      )
