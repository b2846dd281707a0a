-- ===== src/Leaf/Inputs.antt =====
-- The constraints on a buffer of a switch (`bl_size`, `enqs`, `drops` and `enq_deq_sum` of
-- src/leaf_spine/leaf_base.cpp). What a buffer holds is counted before the packets of a step come in,
-- and a buffer is backlogged when it holds packets then. Each list is merged to one constraint.
pub mod Steps
pub mod Exact
pub mod Packets
use count_buffy.Prelude.{
  ℕ, ◌-◌, List, [], ◌∷◌, ◌++◌, pos, range, gather, if◌then◌else◌, codes, to_string,
}
use count_buffy.Z3.{Z3, ◌&&◌}
use count_buffy.Vec.{bit, row, sum_eq}
use count_buffy.NamedExp.{NamedExp, of_expr}
use count_buffy.Vec.{sum_gt, sum_le, eq_vec, add_vec, sub_vec}
use count_buffy.NamedExp.{merge_in}
use count_buffy.Leaf.Buffs.{LeafBuff}
use count_buffy.Leaf.Switch.{Switch}
use count_buffy.Leaf.Windows.{winds}

module _ ⦃z : Z3⦄ where
  unfoldable pub bl_size_at : LeafBuff → ℕ → List NamedExp
  bl_size_at buff j =
      let Ci = buff.C in
      of_expr (z.iff (bit buff.B j) (sum_gt (row Ci j) (pos 0)))
      ∷ of_expr (
          eq_vec (row Ci j)
            (sub_vec (add_vec (row Ci (j - 1)) (row buff.E (j - 1))) (row buff.O (j - 1))))
      ∷ []

  unfoldable pub bl_size_list : Switch → LeafBuff → List NamedExp
  unfolding bl_size_at
  bl_size_list sw buff =
      of_expr (sum_eq (row buff.C 0) (pos 0))
      ∷ of_expr (z.neg (bit buff.B 0))
      ∷ gather (bl_size_at buff) (range 1 sw.timesteps)

  unfoldable pub bl_size : Switch → LeafBuff → ℕ → List NamedExp
  unfolding bl_size_list
  bl_size sw buff i =
      merge_in (bl_size_list sw buff) (codes "BL Size[" ++ to_string i ++ codes "]") ∷ []

  unfoldable pub enqs_at : Switch → LeafBuff → ℕ → List NamedExp
  enqs_at sw buff j =
      of_expr (sum_le (add_vec (row buff.E j) (row buff.C j)) (pos sw.buff_cap)) ∷ []

  unfoldable pub enqs_list : Switch → LeafBuff → List NamedExp
  unfolding enqs_at
  enqs_list sw buff =
      of_expr (sum_le (row buff.E 0) (pos sw.buff_cap) && z.neg (bit buff.B 0))
      ∷ gather (enqs_at sw buff) (range 1 sw.timesteps)

  unfoldable pub enqs : Switch → LeafBuff → ℕ → List NamedExp
  unfolding enqs_list
  enqs sw buff i = merge_in (enqs_list sw buff) (codes "Enqs[" ++ to_string i ++ codes "]") ∷ []

  unfoldable pub drops_at : Switch → LeafBuff → ℕ → List NamedExp
  drops_at sw buff j =
      of_expr (
        z.ite (bit buff.B j)
          (z.implies (sum_gt (row buff.D j) (pos 0))
            (sum_eq (add_vec (row buff.C j) (row buff.E j)) (pos sw.buff_cap)))
          (sum_eq (row buff.D j) (pos 0)))
      ∷ []

  unfoldable pub drops_list : Switch → LeafBuff → List NamedExp
  unfolding drops_at
  drops_list sw buff =
      of_expr (sum_eq (row buff.D 0) (pos 0)) ∷ gather (drops_at sw buff) (range 1 sw.timesteps)

  unfoldable pub drops : Switch → LeafBuff → ℕ → List NamedExp
  unfolding drops_list
  drops sw buff i = merge_in (drops_list sw buff) (codes "Drops[" ++ to_string i ++ codes "]") ∷ []

  unfoldable pub enq_deq_sum_at : LeafBuff → ℕ → List NamedExp
  enq_deq_sum_at buff j =
      of_expr (eq_vec (row buff.I j) (add_vec (row buff.E j) (row buff.D j))) ∷ []

  unfoldable pub enq_deq_sum_list : Switch → LeafBuff → List NamedExp
  unfolding enq_deq_sum_at
  enq_deq_sum_list sw buff =
      of_expr (eq_vec (row buff.I 0) (add_vec (row buff.E 0) (row buff.D 0)))
      ∷ gather (enq_deq_sum_at buff) (range 1 sw.timesteps)

  unfoldable pub enq_deq_sum : Switch → LeafBuff → ℕ → List NamedExp
  unfolding enq_deq_sum_list
  enq_deq_sum sw buff i =
      merge_in (enq_deq_sum_list sw buff) (codes "EnqDropSum[" ++ to_string i ++ codes "]") ∷ []

  unfoldable pub inputs : Switch → LeafBuff → ℕ → List NamedExp
  unfolding bl_size enqs drops enq_deq_sum
  inputs sw buff i =
      bl_size sw buff i
      ++ (enqs sw buff i
          ++ (drops sw buff i
              ++ (enq_deq_sum sw buff i ++ (if sw.use_win then winds sw buff i else []))))
