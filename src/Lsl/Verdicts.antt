-- ===== src/Lsl/Verdicts.antt =====
-- What it means when a check of lsl.cpp comes to its end.

use count_buffy.Prelude.{ℕ, ◌≡◌, inl, inr, Bool, true, false, List, Text, Bool-cases, codes}
use count_buffy.Z3.{Z3, Holds, neg_iff}
use count_buffy.Vec.{Ev3}
use count_buffy.NamedExp.{named, negate}
use count_buffy.Solver.{SmtSolver, returns}
use count_buffy.Solver.Models.{Models}
use count_buffy.Sts.Checks.{push}
use count_buffy.Workload.{Node}
use count_buffy.Leaf.Ports.{Values}
use count_buffy.Prelude.{Map}
use count_buffy.Lst.Verdicts.{and_go-returns, satisfiable_with-Models, unsatisfiable_with-Models}
use count_buffy.Lsl.Program.{query, judge, check_network, constrain}

module _ ⦃z : Z3⦄ where
  abbrev pub Outlook : Bool → z.BoolExpr → SmtSolver → Type 0
  Outlook true q slv = (m : z.Model) × Models m slv × (z.holds m q ≡ false)
  Outlook false q slv = (m : z.Model) → Models m slv → Holds m q

  judge-Outlook :
      (sat : Bool) (q : z.BoolExpr) (slv slv' : SmtSolver)
      → judge sat q slv ≡ returns slv'
      → Outlook sat q slv
  unfolding judge negate
  judge-Outlook true q slv slv' h =
      let ((m, old, now), same) =
        satisfiable_with-Models slv slv' (negate (named q (codes "query"))) h in
      (m, old, (neg_iff m q).0 now)
  judge-Outlook false q slv slv' h = λ m old. elim (Bool-cases (z.holds m q)) [
    | inl met ↦ met
    | inr failed ↦ absurd (
        unsatisfiable_with-Models slv slv' (negate (named q (codes "query"))) h m old
          ((neg_iff m q).1 failed))
  ]

  module _ (parser : Text → List Node) (evaluates : Text → ℕ → Bool) where
    -- When the check of lsl.cpp comes to its end: the workload was accepted, and of the
    -- assertions with the workload, a workload that is expected to be satisfiable has a model in
    -- which the query fails, and any other has no model in which it fails.
    pub check_network-Outlook :
        (wl : List Text) (sat : Bool) (i path_c : Ev3) (slv slv' : SmtSolver)
        → check_network parser evaluates wl sat ((i, path_c), slv) ≡ returns slv'
        → (vals : Map ℕ Values) × (slv₁ : SmtSolver) × (constrain parser evaluates (push slv) i wl
            ≡ returns (vals, slv₁))
          × Outlook sat (query path_c) slv₁
    unfolding check_network
    check_network-Outlook wl sat i path_c slv slv' h =
        let ((vals, slv₁), first, second) =
          and_go-returns (constrain parser evaluates (push slv) i wl) _ slv' h in
        (vals, slv₁, first, judge-Outlook sat (query path_c) slv₁ slv' second)
