-- ===== src/Sts/Checks.antt =====
-- The checks of src/sts_checker.cpp: the constraints go into a frame of the solver's stack, the solver
-- is asked, and the frame is taken off again, unless the call throws before that. The last check never
-- takes its frame off.
pub mod Verdicts
use count_buffy.Prelude.{List, codes}
use count_buffy.Z3.{Z3}
use count_buffy.NamedExp.{NamedExp, merge, negate}
use count_buffy.Solver.{SmtSolver, Outcome, returns, throws, add, add_all, check_sat, check_unsat}
use count_buffy.Sts.{Sts}
use count_buffy.Sts.Scheduler.{Scheduler, base_constrs}

module _ ⦃z : Z3⦄ where
  unfoldable pub push : SmtSolver → SmtSolver
  push slv = record slv { s = z.push slv.s }

  unfoldable pub pop : SmtSolver → SmtSolver
  pop slv = record slv { s = z.pop slv.s }

  -- `slv.s.pop()` after a call that may throw.
  unfoldable pub pop_after {ℓ} : {A : Type ℓ} → Outcome A → SmtSolver → Outcome A × SmtSolver
  unfolding pop
  pop_after (returns a) slv = (returns a, pop slv)
  pop_after (throws e) slv = (throws e, slv)

  unfoldable pub sts_check_sat : SmtSolver → List NamedExp → Outcome z.Model × SmtSolver
  unfolding push pop_after
  sts_check_sat slv v = let slv = add_all (push slv) v in pop_after (check_sat slv) slv

  unfoldable pub sts_check_unsat : SmtSolver → List NamedExp → Outcome (Unit {0}) × SmtSolver
  unfolding push pop_after
  sts_check_unsat slv v = let slv = add_all (push slv) v in pop_after (check_unsat slv) slv

  module _ {St : Type 0} (sch : Scheduler St) (sts : Sts) (st : St) where
    unfoldable pub check_wl_and_query_sat : SmtSolver → Outcome z.Model × SmtSolver
    unfolding push pop_after
    check_wl_and_query_sat slv =
        let slv = add_all (push slv) (sch.workload sts st) in
        let (base, st₁) = base_constrs sch sts st in
        let slv = add_all slv base in
        let slv = add_all slv (sch.query sts st₁) in pop_after (check_sat slv) slv

    unfoldable pub check_wl_and_not_query_unsat : SmtSolver → Outcome (Unit {0}) × SmtSolver
    unfolding push
    check_wl_and_not_query_unsat slv =
        let slv = add_all (push slv) (sch.workload sts st) in
        let (base, st₁) = base_constrs sch sts st in
        let slv = add_all slv base in
        let query = merge (sch.query sts st₁) (codes "query") in
        let slv = add slv (negate query) in (check_unsat slv, slv)
