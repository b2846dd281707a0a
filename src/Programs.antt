-- ===== src/Programs.antt =====
-- rr.cpp, fq.cpp and prio.cpp: one contention point with fixed sizes, run against its file of workloads.
-- The command line gives the capacity and whether windows are used; reading the file is left out.
pub mod Composed
use count_buffy.Prelude.{ℕ, Bool, List, Text, codes}
use count_buffy.Z3.{Z3}
use count_buffy.Solver.{SmtSolver, new_solver}
use count_buffy.Sts.{Sts, new_sts}
use count_buffy.Sts.Scheduler.{Scheduler}
use count_buffy.Prio.{prio}
use count_buffy.RoundRobin.{round_robin}
use count_buffy.FairQueue.{fair_queue, new_fair_queue}
use count_buffy.Workload.{Node}
use count_buffy.Runner.{Ended, run}

-- src/params.hpp.
abbrev pub max_enq : ℕ
max_enq = 4

abbrev pub max_deq : ℕ
max_deq = 1

module _ ⦃z : Z3⦄ (parser : Text → List Node) (buf_cap : ℕ) (use_win : Bool)
    (wls : List (List Text)) where
  -- `sts->use_win = use_win;` and the run.
  unfoldable pub experiment : {St : Type 0} → Scheduler St → Sts → St → ℕ → ℕ → SmtSolver → Ended
  unfolding run
  experiment sch sts st num_bufs timesteps slv =
      run sch (record sts { use_win = use_win }) st parser num_bufs timesteps slv wls

  -- Five buffers over ten steps.
  unfoldable pub rr_main : Ended
  unfolding experiment
  rr_main =
      let (sts, slv) = new_sts new_solver (codes "rr") 5 10 1 buf_cap max_enq max_deq in
      experiment round_robin sts tt 5 10 slv

  -- Five buffers over fourteen steps.
  unfoldable pub fq_main : Ended
  unfolding experiment
  fq_main =
      let ((sts, fq), slv) =
        new_fair_queue new_solver (codes "fq") 5 14 1 buf_cap max_enq max_deq in
      experiment fair_queue sts fq 5 14 slv

  -- Four buffers over seven steps.
  unfoldable pub prio_main : Ended
  unfolding experiment
  prio_main =
      let (sts, slv) = new_sts new_solver (codes "prio") 4 7 1 buf_cap max_enq max_deq in
      experiment prio sts tt 4 7 slv
