-- ===== src/Tests/Switching.antt =====
-- A switch with one buffer that the constructor makes, in the model in which nothing happens.

use count_buffy.Prelude.{
  ℕ, refl, [], ◌∷◌, arith, codes, nat_key, pair_key, Map, assign, find, find_or, eqb_ℤ, leb_ℤ, ◌+ℤ◌,
  ◌-ℤ◌, List,
}
use count_buffy.NamedExp.{Sat, merge_in, of_expr, extend_suffixed}
use count_buffy.Vec.{sum, sum_to, sum_eq, sum_le, sum_gt, eq_vec, add_vec, sub_vec}
use count_buffy.Solver.{
  SmtSolver, new_solver, rounds, bv, iv_used, ivv_used, add_bound_rows, bound_rows, bound_vec,
}
use count_buffy.Solver.Models.{Models}
use count_buffy.Leaf.Buffs.{LeafBuff, new_used, buff_vars, buff_bounds}
use count_buffy.Leaf.Switch.{
  Switch, new_switch_used, used_buffs, buff_of, src_map_per_dst, dst_map_per_src,
}
use count_buffy.Leaf.Inputs.{
  inputs, bl_size, bl_size_list, bl_size_at, enqs, enqs_list, enqs_at, drops, drops_list, drops_at,
  enq_deq_sum, enq_deq_sum_list, enq_deq_sum_at,
}
use count_buffy.Leaf.Base.{base_constrs, buff_inputs, trs, trs_steps, out}
use count_buffy.Leaf.Turns.{leaf_sts, no_turns}
use count_buffy.Leaf.Turns
use count_buffy.Leaf.Constructed.Runs.{new_switch_used-IsStored}
use count_buffy.Prelude.{some, ◌<◌, ◌≡◌, KeysDiffer}
use count_buffy.Buffer.Store.{IsStored}
use count_buffy.Leaf.Inputs.Steps.{buff_history}
use count_buffy.Tests.{tried, the_model, all_true-Sat}

abbrev one_port : Map (ℕ × ℕ) (List ℕ)
one_port = ((0, 1), 0 ∷ []) ∷ []

abbrev small_switch : Switch × SmtSolver
small_switch = new_switch_used new_solver (codes "s") one_port 1 1 2 4 1

small_switch-Models : Models the_model small_switch.1
unfolding new_switch_used used_buffs buff_of new_used buff_vars buff_bounds add_bound_rows
    bound_rows bound_vec new_solver rounds bv iv_used ivv_used leb_ℤ assign
small_switch-Models =
    (refl, (refl, (refl, (refl, (refl, (refl, (refl, (refl, (refl, (refl, (refl, tt)))))))))))

small_switch-base : Sat the_model (base_constrs leaf_sts small_switch.0 no_turns).0
unfolding base_constrs buff_inputs trs trs_steps out inputs bl_size bl_size_list bl_size_at enqs
    enqs_list enqs_at drops drops_list drops_at enq_deq_sum enq_deq_sum_list enq_deq_sum_at merge_in
    sum sum_to sum_le sum_gt sum_eq eq_vec add_vec sub_vec of_expr eqb_ℤ leb_ℤ ◌+ℤ◌ ◌-ℤ◌
    extend_suffixed new_switch_used used_buffs buff_of new_used buff_vars new_solver rounds bv
    iv_used ivv_used assign find find_or Turns.out Turns.init Turns.trs Turns.first_turn
    Turns.push_matches Turns.match_at src_map_per_dst dst_map_per_src
small_switch-base = all_true-Sat (base_constrs leaf_sts small_switch.0 no_turns).0 refl

one_port-KeysDiffer : KeysDiffer one_port
unfolding find
one_port-KeysDiffer = (refl, tt)

new_switch_used-IsStored_example :
    (buff : LeafBuff) × (find small_switch.0.buffs (0, 1) ≡ some buff)
    × (buff.used_pkt_types ≡ 0 ∷ [])
    × ((t : ℕ) → t < 1 → IsStored 2 1 (buff_history the_model buff) t)
unfolding find
new_switch_used-IsStored_example =
    new_switch_used-IsStored the_model leaf_sts no_turns new_solver (codes "s") one_port 1 1 2 4 1
      one_port-KeysDiffer (omega arith) small_switch-Models small_switch-base (0, 1) 0 [] refl
