-- ===== src/Lsl/Program.antt =====
-- `check_wl` and `main` of lsl.cpp. The network is that of lst.cpp, built from the tables, with a larger
-- bound on what enters a queue. Files, the log and the clock are left out; the generated parser and exprtk
-- are parameters.

use count_buffy.Prelude.{
  some, ℕ, suc, ◌+◌, ◌*◌, ◌-◌, Bool, List, [], ◌∷◌, ◌++◌, get_or, loop, none, if◌then◌else◌, Text,
  codes, to_string,
}
use count_buffy.Prelude.{nat_key, pair_key, Map, find, find_or, text_eq}
use count_buffy.Z3.{Z3, num}
use count_buffy.Vec.{Ev2, Ev3, row, sum}
use count_buffy.NamedExp.{named, negate, merge_in}
use count_buffy.Workload.{Node}
use count_buffy.Solver.{SmtSolver, Outcome, returns, and_go, add, add_all, ivvv, new_solver}
use count_buffy.Sts.Checks.{push, pop}
use count_buffy.Leaf.Buffs.{get_expanded_c}
use count_buffy.Leaf.Base.{base_constrs}
use count_buffy.Leaf.Fperf.{fperf}
use count_buffy.Leaf.Demux.{Demux, get_in_port, new_demux_used}
use count_buffy.Leaf.Ports.{PortTypes, Values, Routes, fix, update_ports}
use count_buffy.Leaf.Workload.Used.{add_workload, get_used_vals, get_zero_inputs}
use count_buffy.Lst.Program.{link, satisfiable_with, unsatisfiable_with}
use count_buffy.Lsl.Tables.{
  pkt_type_to_dst, pkt_type_to_ecmp, leaf_ports, port_to_ecmp, hops_of, inputs_of, spine_ports_of,
  spine_pkt_type_to_nxt_hop,
}

abbrev pub max_enq : ℕ
max_enq = 5

abbrev pub max_deq : ℕ
max_deq = 1

abbrev pub time_steps : ℕ
time_steps = 10

abbrev pub pkt_types : ℕ
pkt_types = 12

module _ ⦃z : Z3⦄ where
  -- What the queues of the path hold in the last step.
  unfoldable pub query_val : Ev3 → z.IntExpr
  query_val path_c = loop (λ s c. z.add s (sum (row c (time_steps - 1)))) (num 0) path_c

  unfoldable pub query : Ev3 → z.BoolExpr
  unfolding query_val
  query path_c = z.le (num 10) (query_val path_c)

  unfoldable pub leaf_types : Map ℕ Values → ℕ → PortTypes
  leaf_types vals leaf =
      let r : Routes = record {
        pkt_type_to_nxt_hop = hops_of leaf;
        used_dsts = get_used_vals (λ v. v.dst) vals;
        used_ecmps = get_used_vals (λ v. v.ecmp) vals;
        pkt_type_to_dst = pkt_type_to_dst;
        pkt_type_to_ecmp = pkt_type_to_ecmp;
        port_to_ecmp = port_to_ecmp;
        src_port_to_input = inputs_of leaf;
        zero_inputs = get_zero_inputs vals;
      } in
      let first = find_or vals (2 * leaf) (record { dst = []; ecmp = [] }) in
      let second = find_or vals (2 * leaf + 1) (record { dst = []; ecmp = [] }) in
      update_ports (first ∷ second ∷ []) (fix r leaf_ports) (inputs_of leaf) (hops_of leaf)
        port_to_ecmp

  -- The switches are numbered from 1 in their names.
  unfoldable pub new_leaf : Map ℕ Values → ℕ → ℕ → SmtSolver → Demux × SmtSolver
  unfolding leaf_types new_demux_used
  new_leaf vals buff_cap leaf slv =
      new_demux_used slv (codes "l" ++ to_string (suc leaf)) (leaf_types vals leaf) time_steps
        pkt_types buff_cap max_enq max_deq (hops_of leaf)

  unfoldable pub new_spine : ℕ → ℕ → SmtSolver → Demux × SmtSolver
  unfolding new_demux_used
  new_spine buff_cap spine slv =
      new_demux_used slv (codes "s" ++ to_string (suc spine)) (spine_ports_of spine) time_steps
        pkt_types buff_cap max_enq max_deq spine_pkt_type_to_nxt_hop

  -- The first leaf's constraints are added one by one, the others are merged.
  unfoldable pub add_base : SmtSolver → Demux → SmtSolver
  add_base slv sw =
      add slv (merge_in (base_constrs fperf sw.base sw.st).0 (codes "base_" ++ sw.base.var_prefix))

  -- `format("Link: {} -> {}", …)`: the name of a spine's port is always that of port 0.
  abbrev pub link_name : Text → ℕ → Text → ℕ → Text
  link_name a p b q =
      codes "Link: "
      ++ a
      ++ codes "_"
      ++ to_string p
      ++ codes " -> "
      ++ b
      ++ codes "_"
      ++ to_string q

  -- The four links of leaf `i`.
  unfoldable pub link_leaf : ℕ → Demux → Demux → Demux → SmtSolver → SmtSolver
  unfolding link
  link_leaf i leaf s1 s2 slv =
      let l = leaf.base.var_prefix in
      let slv = link leaf 2 s1 i (link_name l 2 s1.base.var_prefix 0) slv in
      let slv = link leaf 3 s2 i (link_name l 3 s2.base.var_prefix 0) slv in
      let slv = link s1 i leaf 2 (link_name s1.base.var_prefix 0 l 2) slv in
      link s2 i leaf 3 (link_name s2.base.var_prefix 0 l 3) slv

  -- `buffs[{src, dst}]->getExpandedC()`, for a key that is there.
  unfoldable pub held_between : Demux → ℕ → ℕ → Ev2
  unfolding find get_expanded_c
  held_between sw src dst = elim (find sw.base.buffs (src, dst)) [
    | none ↦ []
    | some buff ↦ get_expanded_c buff
  ]

  -- The inputs of the hosts, and the queues from host 0 or 1 to host 5 over the first spine.
  unfoldable pub network : Map ℕ Values → ℕ → SmtSolver → (Ev3 × Ev3) × SmtSolver
  unfolding new_leaf new_spine add_base link_leaf held_between get_in_port
  network vals buff_cap slv =
      let (l1, slv) = new_leaf vals buff_cap 0 slv in
      let (l2, slv) = new_leaf vals buff_cap 1 slv in
      let (l3, slv) = new_leaf vals buff_cap 2 slv in
      let (s1, slv) = new_spine buff_cap 0 slv in
      let (s2, slv) = new_spine buff_cap 1 slv in
      let slv = add_all slv (base_constrs fperf l1.base l1.st).0 in
      let slv = loop add_base slv (l2 ∷ l3 ∷ s1 ∷ s2 ∷ []) in
      let slv = link_leaf 0 l1 s1 s2 slv in
      let slv = link_leaf 1 l2 s1 s2 slv in
      let slv = link_leaf 2 l3 s1 s2 slv in
      (
        (
          get_in_port l1 0
              ∷ get_in_port l1 1
              ∷ get_in_port l2 0
              ∷ get_in_port l2 1
              ∷ get_in_port l3 0
              ∷ get_in_port l3 1
              ∷ [],
          held_between l1 0 2 ∷ held_between s1 0 2 ∷ held_between l3 2 1 ∷ [],
        ),
        slv,
      )

  -- The verdict on a query. The check that it can be met needs `debug`, which is false.
  unfoldable pub judge : Bool → z.BoolExpr → SmtSolver → Outcome SmtSolver
  unfolding satisfiable_with unsatisfiable_with
  judge sat q slv =
      let no = negate (named q (codes "query")) in
      if sat then satisfiable_with no slv else unsatisfiable_with no slv

  module _ (parser : Text → List Node) (evaluates : Text → ℕ → Bool) where
    -- The workload over some inputs.
    unfoldable pub constrain : SmtSolver → Ev3 → List Text → Outcome (Map ℕ Values × SmtSolver)
    unfolding add_workload
    constrain slv i wl =
        add_workload evaluates parser slv i time_steps pkt_type_to_dst pkt_type_to_ecmp wl

    unfoldable pub check_network : List Text → Bool → (Ev3 × Ev3) × SmtSolver → Outcome SmtSolver
    unfolding constrain judge and_go push
    check_network wl sat ((i, path_c), slv) =
        and_go (constrain (push slv) i wl) (λ (vals, slv). judge sat (query path_c) slv)

    -- The first pass is over inputs of its own, in a frame that is taken off again.
    unfoldable pub check_wl : List Text → Bool → ℕ → Outcome SmtSolver
    unfolding constrain network check_network and_go push pop
    check_wl wl sat buff_cap =
        let (tmp, slv) = ivvv 6 time_steps pkt_types (codes "TMP_I") new_solver in
        and_go (constrain (push slv) tmp wl)
          (λ (vals, slv). check_network wl sat (network vals buff_cap (pop slv)))

    -- `main`: a section that says `SKIP` is left out, and three lines are added to the others.
    unfoldable pub run_all : ℕ → List (List Text) → Outcome (Unit {0})
    unfolding check_wl and_go
    run_all buff_cap [] = returns tt
    run_all buff_cap (wl ∷ wls) =
        let rest = run_all buff_cap wls in
        let res_stat = get_or wl 0 [] in
        if text_eq res_stat (codes "SKIP")
        then rest
        else and_go
            (check_wl
              (wl
                ++ (codes "[1, 10]: cenq(0, t) <= t"
                    ∷ codes "[1, 10]: dst(0, t)  == 5"
                    ∷ codes "[1, 10]: ecmp(0, t) == 0"
                    ∷ []))
              (text_eq res_stat (codes "SAT")) buff_cap)
            (λ slv. rest)
