-- ===== src/Runner.antt =====
-- src/sts_runner.hpp and src/sts_runner.cpp: a checker is run against a file of workloads, each with
-- the verdict that is expected. What is printed and how long it takes is left out; the clock, the
-- directories and the log do not change what is asked of the solver.
pub mod Files
pub mod Loom
pub mod Frames
use count_buffy.Prelude.{
  ℕ, zero, suc, ◌+◌, ◌-◌, ◌*◌, ◌/◌, ◌%◌, ◌≤◌, ◌<◌, min, ◌≡◌, refl, sym, ap, ◌∙◌, subst, ◌≢◌, ◌↔◌,
  ◌⊎◌, inl, inr, Bool, true, false, Option, none, some, List, [], ◌∷◌, ◌++◌, map, arith, int_laws,
  parts, ℤ, pos, negsuc, ◌+ℤ◌, ◌-ℤ◌, ◌≤ℤ◌, neg_part_nonneg, Bool-cases, Bool_ext, length, rest_of,
  get_or, set, replicate, All, at_or_after, range, range_from, loop, gather, total, total_congr,
  total_nonneg, zero-+ℤ, +ℤ-zero, ltb, leb, ◌==◌, if◌then◌else◌, Text, codes, to_string, zero_diff,
  pos_part, neg_part,
}
use count_buffy.Z3.{
  Z3, ◌&&◌, ◌||◌, num, Holds, true_holds, conj_iff, disj_iff, neg_iff, implies_iff, eq_iff,
  ite_true, ite_false,
}
use count_buffy.Vec.{Ev, Ev2, Ev3, Bv, Bv2, at, bit, row, sum, sum_eq}
use count_buffy.NamedExp.{NamedExp, of_expr, named, Sat}
use count_buffy.Sts.{Sts}
use count_buffy.Solver.{SmtSolver, Outcome, returns, throws, add_all, add, check_sat, check_unsat}
use count_buffy.NamedExp.{merge, negate}
use count_buffy.Sts.Scheduler.{Scheduler, base_constrs}
use count_buffy.Sts.Checks.{push, pop}
use count_buffy.Workload
use count_buffy.Workload.Lines.{parse}
use count_buffy.Prelude.{text_eq}

-- How a workload ends: with the solver that the next one uses, with an exception, or with `exit(1)`.
pub data Ended ⦃z : Z3⦄ : Type 0 where
  goes_on : SmtSolver → Ended
  stopped : Text → Ended
  exits : Ended

module _ ⦃z : Z3⦄ where
  -- `slv.check_sat(); … slv.s.pop();`
  unfoldable pub after_sat : SmtSolver → Outcome z.Model → Ended
  after_sat slv (returns m) = goes_on (pop slv)
  after_sat slv (throws e) = stopped e

  -- A model in place of a refutation is printed, and the program exits.
  unfoldable pub shown : Outcome z.Model → Ended
  shown (returns m) = exits
  shown (throws e) = stopped e

  unfoldable pub after_unsat : SmtSolver → Outcome (Unit {0}) → Ended
  unfolding shown
  after_unsat slv (returns u) = goes_on (pop slv)
  after_unsat slv (throws e) = shown (check_sat slv)

  unfoldable pub verdict : Text → SmtSolver → Ended
  unfolding after_sat after_unsat
  verdict res_stat slv =
      if text_eq res_stat (codes "SAT")
      then after_sat slv (check_sat slv)
      else if text_eq res_stat (codes "UNSAT")
      then after_unsat slv (check_unsat slv)
      else goes_on (pop slv)

  unfoldable pub judged : Text → Outcome SmtSolver → Ended
  unfolding verdict
  judged res_stat (returns slv) = verdict res_stat slv
  judged res_stat (throws e) = stopped e

  module _ (parser : Text → List Workload.Node) (i : Ev3) (num_buffers timesteps : ℕ) where
    -- The first line of a section is the expected verdict.
    unfoldable pub run_one : SmtSolver → List Text → Ended
    unfolding judged
    run_one slv wl =
        judged (get_or wl 0 []) (parse parser i num_buffers timesteps (push slv) (rest_of wl))

    unfoldable pub continue : Ended → (SmtSolver → Ended) → Ended
    continue (goes_on slv) f = f slv
    continue (stopped e) f = stopped e
    continue exits f = exits

    unfoldable pub run_all : SmtSolver → List (List Text) → Ended
    unfolding run_one continue
    run_all slv [] = goes_on slv
    run_all slv (wl ∷ wls) = continue (run_one slv wl) (λ slv. run_all slv wls)

  -- The base constraints, the base workload and the negated query are asserted once.
  module _ {St : Type 0} (sch : Scheduler St) (sts : Sts) (st : St) where
    unfoldable pub asserted : SmtSolver → SmtSolver
    asserted slv =
        let (base, st₁) = base_constrs sch sts st in
        let slv = add_all slv base in
        let slv = add_all slv (sch.base_wl sts st₁) in
        add slv (negate (merge (sch.query sts st₁) (codes "Query")))

    unfoldable pub run : (Text → List Workload.Node) → ℕ → ℕ → SmtSolver → List (List Text) → Ended
    unfolding asserted run_all
    run parser num_buffers timesteps slv wls =
        run_all parser sts.I num_buffers timesteps (asserted slv) wls
