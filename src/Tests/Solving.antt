-- ===== src/Tests/Solving.antt =====
-- The theorems on the solver's stack, on merging and on the cut of a vector, applied to literals.
use count_buffy.Merger.Trivial.{trivial, anything}
use count_buffy.Sts.Scheduler
use count_buffy.Sts.Inputs.{
  bl_size, bl_size_at, bl_size_first, enqs, enqs_at, enqs_first, drops, drops_at, drops_first,
  enq_deq_sum, enq_deq_sum_first, enq_deq_sum_at,
}
use count_buffy.Sts.Checks.Verdicts.{query_after, check_wl_and_not_query_unsat-query}
use count_buffy.Sts.Checks.{check_wl_and_not_query_unsat}
use count_buffy.Tests.{two_buffers, all_true-Sat}
use count_buffy.NamedExp.{extend_suffixed, negate}
use count_buffy.Prelude.{eqb_ℤ, leb_ℤ}
use count_buffy.Vec.{
  sum_to, sum_le, sum_gt, eq_vec, add_vec, sub_vec, get_buf_vec_at_i, get_bits_at_i, get_bufs_at_i,
}
use count_buffy.Prelude.{
  ℕ, ◌<◌, ◌≡◌, refl, Bool, true, false, [], ◌∷◌, arith, pos, ◌+ℤ◌, ◌-ℤ◌, total, codes,
}
use count_buffy.Vec.{sum, sum_eq}
use count_buffy.NamedExp.{NamedExp, of_expr, named, Sat}
use count_buffy.NamedExp.{merge}
use count_buffy.Solver.{new_solver, capped, check_sat, check_unsat, model_of, refuted, add_all, add}
use count_buffy.Solver.Models.{Models}
use count_buffy.Solver.Cut.{IsMin, capped-IsMin}
use count_buffy.Sts.Checks.{sts_check_sat, push, pop, pop_after}
use count_buffy.Sts.Checks.Verdicts.{sts_check_sat-Models, sts_check_sat-throws}
use count_buffy.Tests.{lit, tried, the_model, below_two}
use count_buffy.Vec.Meaning.{val}
use count_buffy.Z3.{outer}

-- A constraint with a truth value.
abbrev constraint : Bool → NamedExp
constraint b = named (λ v. b) (codes "c")

capped-IsMin_example :
    IsMin
      (total 2 (val the_model (capped (lit (2 ∷ 4 ∷ [])) (pos 3)).0))
      (total 2 (val the_model (lit (2 ∷ 4 ∷ []))))
      (pos 3)
    × ((i : ℕ)
        → i < 2
        → val the_model (capped (lit (2 ∷ 4 ∷ [])) (pos 3)).0 i
            +ℤ val the_model (capped (lit (2 ∷ 4 ∷ [])) (pos 3)).1 i
          ≡ val the_model (lit (2 ∷ 4 ∷ [])) i)
capped-IsMin_example =
    capped-IsMin the_model (lit (2 ∷ 4 ∷ [])) 3 (below_two _ (omega arith) (omega arith))

sts_check_sat-Models_example :
    Models the_model new_solver
    × Sat the_model (constraint true ∷ [])
    × (tried.frames (sts_check_sat new_solver (constraint true ∷ [])).1.s
        ≡ tried.frames new_solver.s)
unfolding sts_check_sat push pop pop_after add_all add check_sat model_of new_solver
sts_check_sat-Models_example = sts_check_sat-Models the_model new_solver (constraint true ∷ []) refl

sts_check_sat-throws_example :
    outer (tried.frames (sts_check_sat new_solver (constraint false ∷ [])).1.s)
    ≡ tried.frames new_solver.s
unfolding sts_check_sat push pop pop_after add_all add check_sat model_of new_solver
sts_check_sat-throws_example =
    sts_check_sat-throws new_solver (constraint false ∷ []) (codes "Model is not SAT!") refl

-- The base constraints of the trivial contention point, whose query is `true`.
two_buffers-trivial : Sat the_model (Scheduler.base_constrs trivial two_buffers tt).0
unfolding anything Scheduler.base_constrs Scheduler.inputs Scheduler.trs Scheduler.out
    Scheduler.trs_steps Scheduler.out_steps bl_size bl_size_at bl_size_first enqs enqs_at enqs_first
    drops drops_at drops_first enq_deq_sum enq_deq_sum_first enq_deq_sum_at sum sum_to sum_le sum_gt
    sum_eq eq_vec add_vec sub_vec get_buf_vec_at_i get_bits_at_i get_bufs_at_i extend_suffixed
    of_expr eqb_ℤ leb_ℤ ◌+ℤ◌ ◌-ℤ◌
two_buffers-trivial = all_true-Sat (Scheduler.base_constrs trivial two_buffers tt).0 refl

check_wl_and_not_query_unsat-query_example : Sat the_model (query_after trivial two_buffers tt)
unfolding anything check_wl_and_not_query_unsat push add_all add check_unsat refuted new_solver
    merge negate Scheduler.base_constrs Scheduler.inputs Scheduler.trs Scheduler.out
    Scheduler.trs_steps Scheduler.out_steps bl_size bl_size_at bl_size_first enqs enqs_at enqs_first
    drops drops_at drops_first enq_deq_sum enq_deq_sum_first enq_deq_sum_at sum sum_to sum_le sum_gt
    sum_eq eq_vec add_vec sub_vec get_buf_vec_at_i get_bits_at_i get_bufs_at_i extend_suffixed
    of_expr eqb_ℤ leb_ℤ ◌+ℤ◌ ◌-ℤ◌
check_wl_and_not_query_unsat-query_example =
    check_wl_and_not_query_unsat-query trivial two_buffers tt new_solver
      (named (λ v. true) (codes "query")) [] refl refl the_model tt (refl, tt) two_buffers-trivial
