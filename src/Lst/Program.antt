-- ===== src/Lst/Program.antt =====
-- `check_wl` and `main` of lst.cpp: two spines and three leafs with two hosts each, linked with one
-- another. The workload says first which packet types there are, and then what the hosts send. Files,
-- the log and the clock are left out; the generated parser and exprtk are parameters.

use count_buffy.Prelude.{
  ℕ, suc, ◌+◌, ◌*◌, ◌/◌, Bool, List, [], ◌∷◌, ◌++◌, map, length, get_or, range, loop, gather,
  if◌then◌else◌, Text, codes, to_string,
}
use count_buffy.Z3.{Z3, num}
use count_buffy.Vec.{Ev3, row, sum}
use count_buffy.NamedExp.{NamedExp, named}
use count_buffy.Workload.{Node}
use count_buffy.NamedExp.{negate, merge_in}
use count_buffy.Solver.{
  SmtSolver, Outcome, returns, and_go, add, add_all, rounds, ivvv, new_solver, check_sat,
  check_unsat,
}
use count_buffy.Sts.Checks.{push, pop}
use count_buffy.Leaf.Base.{base_constrs}
use count_buffy.Leaf.Fperf.{fperf}
use count_buffy.Leaf.Switch.{get_out_port}
use count_buffy.Leaf.Demux.{Demux, get_in_port, new_demux_used}
use count_buffy.Leaf.Metadata.{uniq, link_ports}
use count_buffy.Leaf.Ports.{PortTypes, Values, Routes, fix, update_ports}
use count_buffy.Leaf.Workload.Lines.{types_by_value}
use count_buffy.Leaf.Workload.Used.{add_workload, get_used_vals, get_zero_inputs}
use count_buffy.Lst.Topology.{
  get_leaf_ports, get_port_to_ecmp, get_pkt_type_to_next_hop_port, get_pkt_type_to_dst_index,
  get_pkt_type_to_spine_index, get_port_index_to_input_index, get_spine_port_map,
  get_pkt_type_to_next_hop_port_spine,
}
use count_buffy.Prelude.{nat_key, Map, find_or, text_eq}

abbrev pub max_enq : ℕ
max_enq = 4

abbrev pub max_deq : ℕ
max_deq = 1

abbrev pub time_steps : ℕ
time_steps = 10

abbrev pub pkt_types : ℕ
pkt_types = 12

abbrev pub num_spines : ℕ
num_spines = 2

abbrev pub leafs_per_spine : ℕ
leafs_per_spine = 3

abbrev pub hosts_per_leaf : ℕ
hosts_per_leaf = 2

module _ ⦃z : Z3⦄ where
  -- What arrives at host 5 stays below half the time.
  unfoldable pub query : Ev3 → z.BoolExpr
  query o =
      z.lt (loop (λ s t. z.add s (sum (row (row o 5) t))) (num 0) (range 0 time_steps))
        (num (time_steps / 2))

  -- What the first pass over the workload says of the packet types.
  unfoldable pub routes_of : Map ℕ Values → ℕ → Routes
  routes_of vals leaf = record {
    pkt_type_to_nxt_hop =
        get_pkt_type_to_next_hop_port num_spines leafs_per_spine hosts_per_leaf leaf;
    used_dsts = get_used_vals (λ v. v.dst) vals;
    used_ecmps = get_used_vals (λ v. v.ecmp) vals;
    pkt_type_to_dst = get_pkt_type_to_dst_index num_spines leafs_per_spine hosts_per_leaf;
    pkt_type_to_ecmp = get_pkt_type_to_spine_index num_spines leafs_per_spine hosts_per_leaf;
    port_to_ecmp = get_port_to_ecmp hosts_per_leaf num_spines;
    src_port_to_input =
        get_port_index_to_input_index num_spines leafs_per_spine hosts_per_leaf leaf;
    zero_inputs = get_zero_inputs vals;
  }

  unfoldable pub leaf_types : Map ℕ Values → ℕ → PortTypes
  unfolding routes_of
  leaf_types vals leaf =
      let r = routes_of vals leaf in
      let per_input =
        map (λ j. find_or vals (leaf * hosts_per_leaf + j) (record { dst = []; ecmp = [] }))
          (range 0 hosts_per_leaf) in
      update_ports per_input (fix r (get_leaf_ports hosts_per_leaf num_spines)) r.src_port_to_input
        r.pkt_type_to_nxt_hop r.port_to_ecmp

  unfoldable pub new_leaf : Map ℕ Values → ℕ → ℕ → SmtSolver → Demux × SmtSolver
  unfolding leaf_types new_demux_used
  new_leaf vals buff_cap i slv =
      new_demux_used slv (codes "l" ++ to_string i) (leaf_types vals i) time_steps pkt_types
        buff_cap max_enq max_deq
        (get_pkt_type_to_next_hop_port num_spines leafs_per_spine hosts_per_leaf i)

  unfoldable pub new_spine : ℕ → ℕ → SmtSolver → Demux × SmtSolver
  unfolding new_demux_used
  new_spine buff_cap i slv =
      new_demux_used slv (codes "s" ++ to_string i)
        (get_spine_port_map leafs_per_spine hosts_per_leaf i) time_steps pkt_types buff_cap max_enq
        max_deq (get_pkt_type_to_next_hop_port_spine num_spines leafs_per_spine hosts_per_leaf)

  -- The constraints of a switch, merged under its name.
  unfoldable pub add_switch : SmtSolver → Demux → SmtSolver
  add_switch slv sw = add slv (merge_in (base_constrs fperf sw.base sw.st).0 sw.base.var_prefix)

  -- `format("Link: {}_{} -> {}_{}", …)`
  abbrev pub link_name : ℕ → ℕ → ℕ → ℕ → Text
  link_name a p b q =
      codes "Link: "
      ++ to_string a
      ++ codes "_"
      ++ to_string p
      ++ codes " -> "
      ++ to_string b
      ++ codes "_"
      ++ to_string q

  -- What leaves switch `a` at port `p` comes in at port `q` of switch `b`.
  unfoldable pub link : Demux → ℕ → Demux → ℕ → Text → SmtSolver → SmtSolver
  unfolding get_out_port get_in_port link_ports
  link a p b q name slv =
      let (out, slv) = get_out_port a.base p slv in
      add slv (named (link_ports out (get_in_port b q)) name)

  -- The links of leaf `i` and spine `j`, in both directions.
  unfoldable pub link_pair : ℕ → Demux → ℕ → Demux → SmtSolver → SmtSolver
  unfolding link
  link_pair i leaf j spine slv =
      let up = hosts_per_leaf + j in
      link spine i leaf up (link_name j i i up) (link leaf up spine i (link_name i up j i) slv)

  unfoldable pub link_spines : ℕ → Demux → ℕ → List Demux → SmtSolver → SmtSolver
  unfolding link_pair
  link_spines i leaf j [] slv = slv
  link_spines i leaf j (spine ∷ spines) slv =
      link_spines i leaf (suc j) spines (link_pair i leaf j spine slv)

  unfoldable pub link_all : ℕ → List Demux → List Demux → SmtSolver → SmtSolver
  unfolding link_spines
  link_all i [] spines slv = slv
  link_all i (leaf ∷ leafs) spines slv =
      link_all (suc i) leafs spines (link_spines i leaf 0 spines slv)

  unfoldable pub host_outputs : List (Demux × ℕ) → SmtSolver → Ev3 × SmtSolver
  unfolding get_out_port
  host_outputs [] slv = ([], slv)
  host_outputs ((leaf, p) ∷ ports) slv =
      let (out, slv) = get_out_port leaf.base p slv in
      let (outs, slv) = host_outputs ports slv in (out ∷ outs, slv)

  -- The switches with their constraints and links; the inputs and outputs of the hosts.
  unfoldable pub network : Map ℕ Values → ℕ → SmtSolver → (Ev3 × Ev3) × SmtSolver
  unfolding new_leaf new_spine add_switch link_all host_outputs rounds get_in_port
  network vals buff_cap slv =
      let (leafs, slv) = rounds (new_leaf vals buff_cap) (range 0 leafs_per_spine) slv in
      let (spines, slv) = rounds (new_spine buff_cap) (range 0 num_spines) slv in
      let slv = loop add_switch slv leafs in
      let slv = loop add_switch slv spines in
      let slv = link_all 0 leafs spines slv in
      let ports = gather (λ leaf. map (λ p. (leaf, p)) (range 0 hosts_per_leaf)) leafs in
      let (outs, slv) = host_outputs ports slv in
      ((map (λ (leaf, p). get_in_port leaf p) ports, outs), slv)

  -- A check in a frame of its own.
  unfoldable pub satisfiable_with : NamedExp → SmtSolver → Outcome SmtSolver
  unfolding and_go push pop
  satisfiable_with ne slv =
      let slv = add (push slv) ne in and_go (check_sat slv) (λ m. returns (pop slv))

  unfoldable pub unsatisfiable_with : NamedExp → SmtSolver → Outcome SmtSolver
  unfolding and_go push pop
  unsatisfiable_with ne slv =
      let slv = add (push slv) ne in and_go (check_unsat slv) (λ u. returns (pop slv))

  -- The verdict on a query: it can fail, or it can be met and must be.
  unfoldable pub judge : Bool → z.BoolExpr → SmtSolver → Outcome SmtSolver
  unfolding satisfiable_with unsatisfiable_with and_go
  judge sat q slv =
      let ne = named q (codes "query") in
      if sat
      then satisfiable_with (negate ne) slv
      else and_go (satisfiable_with ne slv) (λ slv. unsatisfiable_with (negate ne) slv)

  module _ (parser : Text → List Node) (evaluates : Text → ℕ → Bool) where
    abbrev pub to_dst : Map ℕ ℕ
    to_dst = get_pkt_type_to_dst_index num_spines leafs_per_spine hosts_per_leaf

    abbrev pub to_ecmp : Map ℕ ℕ
    to_ecmp = get_pkt_type_to_spine_index num_spines leafs_per_spine hosts_per_leaf

    -- The workload over some inputs.
    unfoldable pub constrain : SmtSolver → Ev3 → List Text → Outcome (Map ℕ Values × SmtSolver)
    unfolding add_workload
    constrain slv i wl = add_workload evaluates parser slv i time_steps to_dst to_ecmp wl

    unfoldable pub check_network : List Text → Bool → (Ev3 × Ev3) × SmtSolver → Outcome SmtSolver
    unfolding constrain judge and_go push
    check_network wl sat ((i, o), slv) = and_go (constrain (push slv) i wl) (λ (vals, slv).
        let dsts = types_by_value to_dst in
        judge sat (query o) (add_all slv (uniq i dsts (length i) time_steps)))

    -- The first pass is over inputs of its own, in a frame that is taken off again.
    unfoldable pub check_wl : List Text → Bool → ℕ → Outcome SmtSolver
    unfolding constrain network check_network and_go push pop
    check_wl wl sat buff_cap =
        let (tmp, slv) = ivvv 6 time_steps pkt_types (codes "TMP_I") new_solver in
        and_go (constrain (push slv) tmp wl)
          (λ (vals, slv). check_network wl sat (network vals buff_cap (pop slv)))

    -- `main`: a section that says `SKIP` is left out, and two lines are added to the others. Each
    -- workload has a solver of its own.
    unfoldable pub run_all : ℕ → List (List Text) → Outcome (Unit {0})
    unfolding check_wl and_go
    run_all buff_cap [] = returns tt
    run_all buff_cap (wl ∷ wls) =
        let rest = run_all buff_cap wls in
        let res_stat = get_or wl 0 [] in
        if text_eq res_stat (codes "SKIP")
        then rest
        else and_go
            (check_wl
              (wl ++ (codes "[1, 10]: cenq(0, t) >= t" ∷ codes "[1, 10]: dst(0, t) == 5" ∷ []))
              (text_eq res_stat (codes "SAT")) buff_cap)
            (λ slv. rest)
