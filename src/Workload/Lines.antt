-- ===== src/Workload/Lines.antt =====
-- The visitor of a line in src/gen/constr_extractor.cpp and the parser of a workload in
-- src/gen/wl_parser.cpp: the parts of a line fill the visitor's state, and the line's metric says
-- which constraints come out.
use count_buffy.Prelude.{
  ℕ, ◌+◌, true, false, none, some, List, [], ◌∷◌, ◌++◌, map, range, loop, ◌==◌, if◌then◌else◌, Text,
  codes, to_string,
}
use count_buffy.Z3.{Z3, ◌&&◌}
use count_buffy.Vec.{Ev2, Ev3, at, row, sum}
use count_buffy.NamedExp.{NamedExp, named}
use count_buffy.Solver.{and_go, SmtSolver, Outcome, returns, throws, add_all}
use count_buffy.NamedExp.{prefix}
use count_buffy.Prelude.{text_eq}
use count_buffy.Workload.{
  Node, metric, queue, queue_set, interval, comp_op, right_side, Extractor, new_extractor,
  parse_cenq, parse_aipg, parse_meta,
}

module _ ⦃z : Z3⦄ where
  -- The visitor's methods for the parts of a line.
  unfoldable pub visit : Extractor → Node → Extractor
  visit ex (metric text) = record ex { metric = text }
  visit ex (queue q) = record ex { tmp_ids = ex.tmp_ids ++ (q ∷ []) }
  visit ex (queue_set qs) = record ex { tmp_ids = ex.tmp_ids ++ qs }
  visit ex (interval b e) = record ex { begin = b; end = e }
  visit ex (comp_op text) = record ex { op = text }
  visit ex (right_side none children text) =
      if text_eq text (codes "t")
      then record ex { rhs = 1; rhs_linear = true }
      else record ex { rhs_linear = false }
  visit ex (right_side (some n) children text) =
      if children == 1
      then record ex { rhs = n; rhs_linear = false }
      else if text_eq text (codes "t")
      then record ex { rhs = 1; rhs_linear = true }
      else if children == 2
      then record ex { rhs = n; rhs_linear = true }
      else record ex { rhs_linear = false }

  with_constrs : Extractor → Outcome (List NamedExp) → Outcome Extractor
  with_constrs ex (returns nes) = returns (record ex { constrs = nes })
  with_constrs ex (throws e) = throws e

  -- `visitCon`: the parts first, then the metric's constraints.
  unfoldable pub visit_con : Extractor → List Node → Outcome Extractor
  unfolding visit parse_cenq parse_aipg parse_meta with_constrs
  visit_con ex nodes =
      let ex' = loop visit ex nodes in
      if text_eq ex'.metric (codes "cenq")
      then with_constrs ex' (parse_cenq ex')
      else if text_eq ex'.metric (codes "aipg")
      then with_constrs ex' (parse_aipg ex')
      else if text_eq ex'.metric (codes "dst")
      then with_constrs ex' (parse_meta (codes "DST") ex'.dsts ex')
      else if text_eq ex'.metric (codes "ecmp")
      then with_constrs ex' (parse_meta (codes "ECMP") ex'.ecmps ex')
      else returns (record ex' { constrs = [] })

  -- `sum(I[i][j]) == IT[i][j]` for all buffers and steps.
  unfoldable pub inputs_sum : Ev3 → Ev2 → ℕ → ℕ → z.BoolExpr
  inputs_sum i it num_buffs timesteps =
      loop
        (λ e b.
          loop (λ e t. e && z.eq (sum (row (row i b) t)) (at (row it b) t)) e (range 0 timesteps))
        (z.bool_val true) (range 0 num_buffs)

  module _ (parser : Text → List Node) (i : Ev3) (num_buffs timesteps : ℕ) where
    unfoldable pub line_constrs : Text → Outcome Extractor → Outcome (List NamedExp)
    unfolding inputs_sum
    line_constrs p (returns ex) = returns (
        map (λ ne. prefix ne p) ex.constrs
        ++ named (inputs_sum i ex.it num_buffs timesteps) (p ++ codes "_SUM(I) = IT") ∷ [])
    line_constrs p (throws e) = throws e

    -- One line; every line declares the variables `Workload_…` again.
    unfoldable pub parse_line : SmtSolver → Text → Text → Outcome (List NamedExp) × SmtSolver
    unfolding new_extractor visit_con line_constrs
    parse_line slv p wl_line =
        let (ex, slv) = new_extractor slv i num_buffs timesteps in
        (line_constrs p (visit_con ex (parser wl_line)), slv)

    unfoldable pub add_line : SmtSolver → Outcome (List NamedExp) → Outcome SmtSolver
    add_line slv (returns nes) = returns (add_all slv nes)
    add_line slv (throws e) = throws e

    -- The lines of a workload from the `n`th on, each asserted when it is parsed.
    unfoldable pub parse_from : SmtSolver → ℕ → List Text → Outcome SmtSolver
    unfolding parse_line add_line and_go
    parse_from slv n [] = returns slv
    parse_from slv n (line ∷ lines) =
        let (nes, slv₁) = parse_line slv (codes "WL_" ++ to_string n) line in
        and_go (add_line slv₁ nes) (λ slv₂. parse_from slv₂ (n + 1) lines)

    unfoldable pub parse : SmtSolver → List Text → Outcome SmtSolver
    unfolding parse_from
    parse slv wl = parse_from slv 0 wl
