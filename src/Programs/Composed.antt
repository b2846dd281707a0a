-- ===== src/Programs/Composed.antt =====
-- loom.cpp: four round-robin schedulers feed a merger, whose packets are split by type between the two
-- buffers of a priority scheduler.

pub mod Throughput
use count_buffy.Prelude.{
  ℕ, suc, ◌+◌, ◌*◌, List, [], ◌∷◌, ◌++◌, set, range, Text, codes, to_string, pos,
}
use count_buffy.Z3.{Z3}
use count_buffy.Vec.{Ev2, Ev3, row, add_rows}
use count_buffy.NamedExp.{merge}
use count_buffy.Solver.{SmtSolver, Outcome, add, add_bound, ivvv, new_solver}
use count_buffy.Sts.{Sts, new_sts}
use count_buffy.Sts.Scheduler.{base_constrs}
use count_buffy.RoundRobin.{round_robin}
use count_buffy.Merger.{merger}
use count_buffy.Merger.Classifier.{Classifier, new_classifier, set_out}
use count_buffy.Prio.{prio}
use count_buffy.Workload.{Node}
use count_buffy.Runner.Loom.{run}

abbrev pub time_steps : ℕ
time_steps = 10

abbrev pub rr_in_bufs : ℕ
rr_in_bufs = 2

abbrev pub pkt_types : ℕ
pkt_types = 3

-- src/params.hpp.
abbrev pub max_enq : ℕ
max_enq = 4

abbrev pub max_deq : ℕ
max_deq = 1

module _ ⦃z : Z3⦄ where
  -- The inputs and outputs of the composition, and its contention points.
  pub record Composed : Type 0 where
    pub I : Ev3
    pub O : Ev2
    pub rrs : List Sts
    pub merger_sts : Sts
    pub classifier : Classifier
    pub prio_sts : Sts

  -- The constructors of the four schedulers; all variables come before the constraints.
  unfoldable pub new_rrs : ℕ → List ℕ → SmtSolver → List Sts × SmtSolver
  new_rrs buffer_size [] slv = ([], slv)
  new_rrs buffer_size (i ∷ is) slv =
      let (rr, slv) =
        new_sts slv (codes "rr" ++ to_string i) rr_in_bufs time_steps pkt_types buffer_size max_enq
          max_deq in
      let (rrs, slv) = new_rrs buffer_size is slv in (rr ∷ rrs, slv)

  -- Three inputs go to each scheduler, the last two of them to one buffer.
  unfoldable pub feed_rr : Ev3 → ℕ → Sts → Sts
  feed_rr ins i rr = record rr {
    I = set (set rr.I 0 (row ins (i * 3))) 1 (add_rows (row ins (i * 3 + 1)) (row ins (i * 3 + 2)));
  }

  unfoldable pub connect_rrs : Ev3 → ℕ → List Sts → SmtSolver → List Sts × SmtSolver
  unfolding feed_rr
  connect_rrs ins i [] slv = ([], slv)
  connect_rrs ins i (rr ∷ rrs) slv =
      let rr₁ = feed_rr ins i rr in
      let base = (base_constrs round_robin rr₁ tt).0 in
      let slv = add slv (merge base (codes "rr" ++ to_string i ++ codes "_base")) in
      let (rest, slv) = connect_rrs ins (suc i) rrs slv in (rr₁ ∷ rest, slv)

  -- What leaves scheduler `i` comes in at buffer `i` of the merger.
  unfoldable pub feed_merger : List Sts → ℕ → Ev3 → Ev3
  feed_merger [] i ins = ins
  feed_merger (rr ∷ rrs) i ins =
      feed_merger rrs (suc i) (set ins i (add_rows (row rr.O 0) (row rr.O 1)))

  unfoldable pub composed : ℕ → SmtSolver → Composed × SmtSolver
  unfolding new_rrs connect_rrs feed_merger
  composed buffer_size slv =
      let (ins, slv) = ivvv (4 * pkt_types) time_steps pkt_types (codes "INS") slv in
      let slv = add_bound slv ins (pos 0) (pos max_enq) in
      let (made, slv) = new_rrs buffer_size (range 1 5) slv in
      let (rrs, slv) = connect_rrs ins 0 made slv in
      let (mg, slv) = new_sts slv (codes "mg") 4 time_steps pkt_types buffer_size max_enq max_deq in
      let mg : Sts = record mg { I = feed_merger rrs 0 mg.I } in
      let slv = add slv (merge (base_constrs merger mg tt).0 (codes "merger_base")) in
      let (cl, slv) = new_classifier slv (codes "cls") time_steps pkt_types 2 in
      let merged =
        add_rows (add_rows (add_rows (row mg.O 0) (row mg.O 1)) (row mg.O 2)) (row mg.O 3) in
      let cl = (set_out (record cl { I = set cl.I 0 merged })).1 in
      let (p, slv) =
        new_sts slv (codes "prio") 2 time_steps pkt_types buffer_size max_enq max_deq in
      let p : Sts = record p { I = set (set p.I 0 (row cl.O 0)) 1 (row cl.O 1) } in
      let slv = add slv (merge (base_constrs prio p tt).0 (codes "prio_base")) in
      (
        record {
          I = ins;
          O = add_rows (row p.O 0) (row p.O 1);
          rrs = rrs;
          merger_sts = mg;
          classifier = cl;
          prio_sts = p;
        },
        slv,
      )

  -- `main`, after the command line and the file.
  unfoldable pub loom_main : (Text → List Node) → ℕ → List (List Text) → Outcome SmtSolver
  unfolding composed run
  loom_main parser buff_cap wls =
      let (c, slv) = composed buff_cap new_solver in run parser c.I c.O slv wls
