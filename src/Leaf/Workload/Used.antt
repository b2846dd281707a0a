-- ===== src/Leaf/Workload/Used.antt =====
-- Which destinations and paths the inputs of a network use (src/leaf_spine/leaf_utils.cpp). A
-- comparison is evaluated by the library exprtk: whether an expression holds at a number is a
-- parameter.

-- `join(v, delim)`
use count_buffy.Prelude.{
  ℕ, Bool, List, [], ◌∷◌, ◌++◌, map, length, range, loop, gather, if◌then◌else◌, Text, codes,
  to_string,
}
use count_buffy.Z3.{Z3}
use count_buffy.Vec.{Ev3}
use count_buffy.Workload.{Node}
use count_buffy.Solver.{SmtSolver, Outcome, returns, and_go}
use count_buffy.Leaf.Ports.{Values}
use count_buffy.Leaf.Workload.{MetaConstr}
use count_buffy.Leaf.Workload.Lines.{LeafParser, new_leaf_parser, leaf_parse, idle_inputs}
use count_buffy.Prelude.{
  nat_key, Map, assign, find_or, insert_number, contains_number, is_empty, rest_of,
}

unfoldable pub join : List Text → Text → Text
join [] delim = []
join (x ∷ xs) delim = x ++ gather (λ y. delim ++ y) xs

abbrev pub two_sides : MetaConstr → Text
two_sides c = codes "x " ++ c.op ++ codes " " ++ to_string c.rhs

module _ (evaluates : Text → ℕ → Bool) where
  unfoldable pub get_possible_values : List Text → List ℕ → List ℕ
  unfolding join
  get_possible_values exprs all_vals =
      let conjunction = join exprs (codes " and ") in
      loop (λ r i. if evaluates conjunction i then insert_number i r else r) [] all_vals

  unfoldable pub parse_meta_constrs : List MetaConstr → List ℕ → Map ℕ (List ℕ)
  unfolding get_possible_values
  parse_meta_constrs constrs all_vals =
      let per_buf =
        loop (λ m (c : MetaConstr). assign c.buf (find_or m c.buf [] ++ (two_sides c ∷ [])) m) []
          constrs in
      loop (λ r (b, exprs). assign b (get_possible_values exprs all_vals) r) [] per_buf

  -- The values of any time count.
  unfoldable pub parse_meta_constrs_per_time : List MetaConstr → List ℕ → Map ℕ (List ℕ)
  unfolding get_possible_values
  parse_meta_constrs_per_time constrs all_vals =
      let per_buf : Map ℕ (Map ℕ (List Text)) =
        loop
          (λ (m : Map ℕ (Map ℕ (List Text))) (c : MetaConstr).
            let times = find_or m c.buf [] in
            assign c.buf (assign c.time (find_or times c.time [] ++ (two_sides c ∷ [])) times) m)
          [] constrs in
      loop
        (λ (r : Map ℕ (List ℕ)) ((b, times) : ℕ × Map ℕ (List Text)).
          loop
            (λ (r : Map ℕ (List ℕ)) ((t, exprs) : ℕ × List Text).
              loop (λ (r : Map ℕ (List ℕ)) v. assign b (insert_number v (find_or r b [])) r) r
                (get_possible_values exprs all_vals))
            r times)
        [] per_buf

  -- `{0, 1, 2, 3, 4, 5}` and `{0, 1}`
  abbrev pub all_dsts : List ℕ
  all_dsts = range 0 6

  abbrev pub all_ecmps : List ℕ
  all_ecmps = range 0 2

  module _ ⦃z : Z3⦄ where
    -- The values of each input: none for an idle one.
    unfoldable pub values_of : LeafParser → Map ℕ Values
    unfolding idle_inputs parse_meta_constrs parse_meta_constrs_per_time
    values_of p =
        let inputs = range 0 (length p.I) in
        let any_value =
          map
            (λ (i : ℕ).
              let c : MetaConstr = record { time = 0; buf = i; op = codes ">="; rhs = 0 } in c)
            inputs in
        let dst_values = parse_meta_constrs (p.dst_constrs ++ any_value) all_dsts in
        let ecmp_values = parse_meta_constrs_per_time (p.ecmp_constrs ++ any_value) all_ecmps in
        map
          (λ (i : ℕ). (
            i,
            (let v : Values =
                  (if contains_number (idle_inputs p) i
                    then record { dst = []; ecmp = [] }
                    else record {
                      dst = find_or dst_values i [];
                      ecmp = find_or ecmp_values i [];
                    }) in
                v),
          ))
          inputs

    -- The first line of a workload is the expected verdict.
    unfoldable pub add_workload :
        (Text → List Node)
        → SmtSolver
        → Ev3
        → ℕ
        → Map ℕ ℕ
        → Map ℕ ℕ
        → List Text
        → Outcome (Map ℕ Values × SmtSolver)
    unfolding new_leaf_parser leaf_parse values_of and_go
    add_workload parser slv i timesteps pkt_type_to_dst pkt_type_to_ecmp wl =
        and_go
          (leaf_parse parser slv (new_leaf_parser i timesteps pkt_type_to_dst pkt_type_to_ecmp)
            (rest_of wl))
          (λ (p, slv₁). returns (values_of p, slv₁))

-- `get_used_vals`: the field takes the place of its name.
unfoldable pub get_used_vals : (Values → List ℕ) → Map ℕ Values → List ℕ
get_used_vals meta m =
    loop (λ r ((b, v) : ℕ × Values). loop (λ r i. insert_number i r) r (meta v)) [] m

unfoldable pub get_zero_inputs : Map ℕ Values → List ℕ
get_zero_inputs m =
    loop (λ r ((b, v) : ℕ × Values). if is_empty v.dst then insert_number b r else r) [] m
