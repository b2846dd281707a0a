-- ===== src/Leaf/Workload/Lines.antt =====
-- `LeafWorkloadParser` of src/leaf_spine/leaf_workload_parser.cpp: the lines of a workload one after
-- the other, and what they say of the inputs together. The generated parser is a parameter.

use count_buffy.Prelude.{
  ℕ, ◌+◌, ◌-◌, Bool, Option, none, some, List, [], ◌∷◌, ◌++◌, map, length, get_or, set, range, loop,
  leb, ◌==◌, if◌then◌else◌, Text, codes, to_string,
}
use count_buffy.Z3.{Z3}
use count_buffy.Vec.{Ev3}
use count_buffy.NamedExp.{NamedExp, of_expr, named}
use count_buffy.Workload.{Node}
use count_buffy.Workload.Lines.{inputs_sum}
use count_buffy.NamedExp.{prefix}
use count_buffy.Solver.{SmtSolver, Outcome, returns, throws, and_go, add_all, add}
use count_buffy.Leaf.Metadata.{valid, same}
use count_buffy.Leaf.Workload.{
  MetaConstr, LeafExtractor, max_time, new_leaf_extractor, leaf_visit_con,
}
use count_buffy.Prelude.{nat_key, Map, assign, find_or, insert_number}

pub record LeafParser ⦃z : Z3⦄ : Type 0 where
  pub timesteps : ℕ
  pub max_t_with_zero_cenq : List (Option ℕ)
  pub dst_to_pkt_type : Map ℕ (List ℕ)
  pub ecmp_to_pkt_type : Map ℕ (List ℕ)
  pub dst_constrs : List MetaConstr
  pub ecmp_constrs : List MetaConstr
  pub I : Ev3

-- `for (auto &[pkt_type, dst]: m) result[dst].push_back(pkt_type);`
unfoldable pub types_by_value : Map ℕ ℕ → Map ℕ (List ℕ)
types_by_value m = loop (λ r (k, v). assign v (find_or r v [] ++ (k ∷ [])) r) [] m

-- The later of two times.
abbrev pub later : Option ℕ → Option ℕ → Option ℕ
later a none = a
later a (some n) = max_time a n

-- `max_t_with_zero_cenq[i] >= timesteps - 1`
abbrev pub reaches : Option ℕ → ℕ → Bool
reaches none timesteps = timesteps == 0
reaches (some t) timesteps = leb (timesteps - 1) t

module _ ⦃z : Z3⦄ where
  unfoldable pub new_leaf_parser : Ev3 → ℕ → Map ℕ ℕ → Map ℕ ℕ → LeafParser
  unfolding types_by_value
  new_leaf_parser i timesteps pkt_type_to_dst pkt_type_to_ecmp = record {
    timesteps = timesteps;
    max_t_with_zero_cenq = map (λ b. none) (range 0 (length i));
    dst_to_pkt_type = types_by_value pkt_type_to_dst;
    ecmp_to_pkt_type = types_by_value pkt_type_to_ecmp;
    dst_constrs = [];
    ecmp_constrs = [];
    I = i;
  }

  -- `LeafWorkloadParser::merge`
  unfoldable pub merge_times : LeafParser → List (Option ℕ) → List (Option ℕ)
  merge_times p max_t_update =
      loop (λ ts i. set ts i (later (get_or ts i none) (get_or max_t_update i none)))
        p.max_t_with_zero_cenq (range 0 (length max_t_update))

  unfoldable pub idle_inputs : LeafParser → List ℕ
  idle_inputs p =
      loop
        (λ r i.
          if reaches (get_or p.max_t_with_zero_cenq i none) p.timesteps
          then insert_number i r
          else r)
        [] (range 0 (length p.max_t_with_zero_cenq))

  -- What a visited line adds to the parser, and its constraints.
  unfoldable pub take_line :
      LeafParser → Text → Outcome LeafExtractor → Outcome (List NamedExp × LeafParser)
  unfolding merge_times inputs_sum
  take_line p name (returns lx) = returns (
    map (λ ne. prefix ne name) lx.base.constrs
        ++ named (inputs_sum p.I lx.base.it (length p.I) p.timesteps)
            (name ++ codes ": IT = sum(I)")
          ∷ [],
    record p {
      max_t_with_zero_cenq = merge_times p lx.max_t_with_zero_cenq;
      dst_constrs = p.dst_constrs ++ lx.dst_constrs;
      ecmp_constrs = p.ecmp_constrs ++ lx.ecmp_constrs;
    },
  )
  take_line p name (throws e) = throws e

  module _ (parser : Text → List Node) where
    unfoldable pub leaf_parse_line :
        SmtSolver → LeafParser → Text → Text → Outcome (List NamedExp × LeafParser) × SmtSolver
    unfolding new_leaf_extractor leaf_visit_con take_line
    leaf_parse_line slv p name wl_line =
        let (lx, slv) =
          new_leaf_extractor slv p.I p.timesteps p.dst_to_pkt_type p.ecmp_to_pkt_type in
        (take_line p name (leaf_visit_con lx (parser wl_line)), slv)

    unfoldable pub leaf_parse_from :
        SmtSolver → LeafParser → ℕ → List Text → Outcome (LeafParser × SmtSolver)
    unfolding leaf_parse_line and_go
    leaf_parse_from slv p n [] = returns (p, slv)
    leaf_parse_from slv p n (line ∷ lines) =
        let (taken, slv₁) = leaf_parse_line slv p (codes "WL_" ++ to_string n) line in
        and_go taken (λ (nes, p₁). leaf_parse_from (add_all slv₁ nes) p₁ (n + 1) lines)

    -- After the lines every input has one packet type in a step and one destination over the time.
    unfoldable pub leaf_parse :
        SmtSolver → LeafParser → List Text → Outcome (LeafParser × SmtSolver)
    unfolding leaf_parse_from and_go
    leaf_parse slv p wl = and_go (leaf_parse_from slv p 0 wl) (λ (p₁, slv₁).
        let n = length p₁.I in
        let slv₂ = add slv₁ (of_expr (valid p₁.I n p₁.timesteps)) in
        returns (p₁, add slv₂ (of_expr (same p₁.I p₁.dst_to_pkt_type n p₁.timesteps))))
