-- ===== src/Tests/Networks.antt =====
-- The verdicts on the networks of lst.cpp and lsl.cpp, applied to one without inputs whose outputs bring no packets: the
-- query is met, and must be.

use count_buffy.Prelude.{
  ℕ, ◌≡◌, refl, false, [], ◌∷◌, List, Text, Bool, nat_key, pair_key, Map, eqb_ℤ, leb_ℤ, ◌+ℤ◌,
}
use count_buffy.Vec.{Ev3, sum, sum_to}
use count_buffy.NamedExp.{negate, of_expr}
use count_buffy.Solver.{
  SmtSolver, new_solver, returns, and_go, add, add_all, check_sat, check_unsat, model_of, refuted,
}
use count_buffy.Sts.Checks.{push, pop}
use count_buffy.Workload.{Node}
use count_buffy.Leaf.Ports.{Values}
use count_buffy.Leaf.Metadata.{uniq, valid, same}
use count_buffy.Leaf.Workload.Lines.{types_by_value, leaf_parse, leaf_parse_from, new_leaf_parser}
use count_buffy.Leaf.Workload.Used.{add_workload, values_of}
use count_buffy.Lst.Program.{
  query, satisfiable_with, unsatisfiable_with, judge, check_network, constrain, to_dst, time_steps,
}
use count_buffy.Lsl.Program as Lsl
use count_buffy.Lsl.Verdicts.{Outlook, check_network-Outlook}
use count_buffy.Lst.Verdicts.{Verdict, check_network-Verdict}
use count_buffy.Tests.{lit, tried}

abbrev no_lines : Text → List Node
no_lines line = []

abbrev no_value : Text → ℕ → Bool
no_value e x = false

abbrev no_packets : Ev3
no_packets = [] ∷ [] ∷ [] ∷ [] ∷ [] ∷ [] ∷ []

check_network-Verdict_example :
    (vals : Map ℕ Values) × (slv : SmtSolver) × (constrain no_lines no_value (push new_solver) [] []
      ≡ returns (vals, slv))
    × Verdict false
        (query no_packets)
        (add_all slv (uniq [] (types_by_value (to_dst no_lines no_value)) 0 time_steps))
unfolding check_network judge satisfiable_with unsatisfiable_with constrain add_workload leaf_parse
    leaf_parse_from new_leaf_parser values_of valid same uniq query and_go add add_all check_sat
    check_unsat model_of refuted push pop new_solver negate of_expr sum sum_to eqb_ℤ leb_ℤ ◌+ℤ◌
check_network-Verdict_example =
    check_network-Verdict no_lines no_value [] false [] no_packets new_solver _ refl

-- Ten packets wait on the path in the last step.
abbrev full_path : Ev3
full_path = ([] ∷ [] ∷ [] ∷ [] ∷ [] ∷ [] ∷ [] ∷ [] ∷ [] ∷ lit (10 ∷ []) ∷ []) ∷ []

check_network-Outlook_example :
    (vals : Map ℕ Values) × (slv : SmtSolver) × (Lsl.constrain no_lines no_value
        (push new_solver)
        []
        []
      ≡ returns (vals, slv))
    × Outlook false (Lsl.query full_path) slv
unfolding Lsl.check_network Lsl.judge satisfiable_with unsatisfiable_with Lsl.constrain add_workload
    leaf_parse leaf_parse_from new_leaf_parser values_of valid same Lsl.query Lsl.query_val and_go
    add add_all check_sat check_unsat model_of refuted push pop new_solver negate of_expr sum sum_to
    eqb_ℤ leb_ℤ ◌+ℤ◌
check_network-Outlook_example =
    check_network-Outlook no_lines no_value [] false [] full_path new_solver _ refl
