-- ===== src/Tests/Composition.antt =====
-- The composition of loom.cpp, in the model in which nothing happens.

use count_buffy.Prelude.{refl, arith, pos, ◌≤ℤ◌, eqb_ℤ, leb_ℤ, ◌+ℤ◌, ◌-ℤ◌}
use count_buffy.Z3.{flatten}
use count_buffy.Z3.Concrete.{all_hold-All}
use count_buffy.Vec.{
  row, sum, sum_to, sum_eq, sum_le, sum_gt, sum_ge, sum_lt, eq_vec, le_vec, add_vec, sub_vec,
  add_rows, get_bits_at_i, get_bufs_at_i, get_buf_vec_at_i,
}
use count_buffy.NamedExp.{merge, of_expr, extend_suffixed}
use count_buffy.Solver.{
  const_vec, SmtSolver, new_solver, rounds, bv, bvv, iv, ivv, ivvv, add, add_bound, add_bounds,
  add_bound_rows, bound_rows, bound_vec,
}
use count_buffy.Solver.Models.{Models}
use count_buffy.Sts
use count_buffy.Sts.{new_sts}
use count_buffy.Sts.Scheduler
use count_buffy.Sts.Inputs.{
  bl_size, bl_size_at, bl_size_first, enqs, enqs_at, enqs_first, drops, drops_at, drops_first,
  enq_deq_sum, enq_deq_sum_first, enq_deq_sum_at,
}
use count_buffy.RoundRobin
use count_buffy.Sts.Windows.{winds}
use count_buffy.Merger
use count_buffy.Prio
use count_buffy.Merger.Classifier.{new_classifier, set_out, classify}
use count_buffy.Programs.Composed.{Composed, composed, new_rrs, connect_rrs, feed_rr, feed_merger}
use count_buffy.Programs.Composed.Throughput.{composed-throughput}
use count_buffy.Tests.{tried, the_model, nothing}

abbrev small_loom : Composed × SmtSolver
small_loom = composed 2 new_solver

small_loom-Models : Models the_model small_loom.1
unfolding composed new_rrs connect_rrs feed_rr feed_merger new_sts Sts.add_bounds add_bound
    add_bounds add_bound_rows bound_rows bound_vec new_solver rounds bv bvv iv ivv ivvv add merge
    Scheduler.base_constrs Scheduler.inputs Scheduler.trs Scheduler.out Scheduler.trs_steps
    Scheduler.out_steps bl_size bl_size_at bl_size_first enqs enqs_at enqs_first drops drops_at
    drops_first enq_deq_sum enq_deq_sum_first enq_deq_sum_at sum sum_to sum_le sum_gt sum_eq eq_vec
    le_vec add_vec sub_vec add_rows get_buf_vec_at_i get_bits_at_i get_bufs_at_i extend_suffixed
    of_expr eqb_ℤ leb_ℤ ◌+ℤ◌ ◌-ℤ◌ Merger.out Merger.trs Merger.init RoundRobin.out RoundRobin.init
    RoundRobin.init_rounds RoundRobin.trs RoundRobin.next_turn Prio.out Prio.out_rounds Prio.trs
    Prio.trs_rounds Prio.pairs Prio.init new_classifier set_out classify winds const_vec sum_ge
    sum_lt
small_loom-Models = (all_hold-All (flatten (tried.frames small_loom.1.s)) nothing).0 refl

composed-throughput_example : tried.value the_model (sum (row small_loom.0.O 3)) ≤ℤ pos 1
composed-throughput_example =
    composed-throughput the_model 2 new_solver 3 (omega arith) small_loom-Models
