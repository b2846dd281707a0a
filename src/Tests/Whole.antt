-- ===== src/Tests/Whole.antt =====
-- The theorems on a whole checker: one that the constructor makes, of one buffer over one step, with
-- the constraints of the merger.
use count_buffy.Solver.{
  SmtSolver, new_solver, check_sat, model_of, add_all, add, ivvv, ivv, iv, bvv, bv, add_bound,
  add_bounds, add_bound_rows, bound_rows, bound_vec, rounds,
}
use count_buffy.Sts.{new_sts}
use count_buffy.Sts as Checker
use count_buffy.Sts.Scheduler
use count_buffy.Sts.Inputs.{
  bl_size, bl_size_at, bl_size_first, enqs, enqs_at, enqs_first, drops, drops_at, drops_first,
  enq_deq_sum, enq_deq_sum_first, enq_deq_sum_at,
}
use count_buffy.Sts.Windows.{winds}
use count_buffy.Sts.Inputs.Steps.{history}
use count_buffy.Sts.Checks.{check_wl_and_query_sat, push, pop, pop_after}
use count_buffy.Sts.Constructed.{check_wl_and_query_sat-IsRun}
use count_buffy.Merger
use count_buffy.Buffer.{IsRun}
use count_buffy.Tests.{tried, the_model}
use count_buffy.Vec.{
  sum_to, sum_le, sum_gt, eq_vec, le_vec, add_vec, sub_vec, get_buf_vec_at_i, get_bits_at_i,
  get_bufs_at_i,
}
use count_buffy.NamedExp.{extend_suffixed}
use count_buffy.Prelude.{eqb_ℤ, leb_ℤ, ℕ, ◌<◌, refl, arith, ◌+ℤ◌, ◌-ℤ◌, codes}
use count_buffy.Vec.{sum, sum_eq}
use count_buffy.NamedExp.{of_expr}
use count_buffy.Sts.{Sts}

abbrev small : Sts × SmtSolver
small = new_sts new_solver (codes "q") 1 1 1 3 4 1

check_wl_and_query_sat-IsRun_example :
    ((i : ℕ) → i < 1 → IsRun 3 1 1 (history the_model small.0 i)) × Unit {0} × Unit {0}
unfolding check_wl_and_query_sat push pop pop_after check_sat model_of add_all add new_solver
    Scheduler.base_constrs Scheduler.inputs Scheduler.trs Scheduler.out Scheduler.trs_steps
    Scheduler.out_steps bl_size bl_size_at bl_size_first enqs enqs_at enqs_first drops drops_at
    drops_first enq_deq_sum enq_deq_sum_first enq_deq_sum_at winds sum sum_to sum_le sum_gt sum_eq
    eq_vec le_vec add_vec sub_vec get_buf_vec_at_i get_bits_at_i get_bufs_at_i extend_suffixed
    of_expr eqb_ℤ leb_ℤ ◌+ℤ◌ ◌-ℤ◌ new_sts rounds ivvv ivv iv bvv bv Checker.add_bounds add_bound
    add_bounds add_bound_rows bound_rows bound_vec Merger.out Merger.trs Merger.init Merger.query
    Merger.workload
check_wl_and_query_sat-IsRun_example =
    check_wl_and_query_sat-IsRun the_model new_solver (codes "q") 1 1 0 3 4 1 Merger.merger tt
      (omega arith) refl
