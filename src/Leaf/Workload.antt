-- ===== src/Leaf/Workload.antt =====
-- The workloads of a network (src/leaf_spine/leaf_constr_extractor.cpp,
-- src/leaf_spine/leaf_workload_parser.cpp and `add_workload` of src/leaf_spine/leaf_utils.cpp). A line
-- is read as in src/gen/constr_extractor.cpp; besides, the lines say which destinations and paths an
-- input uses and which inputs are idle.
pub mod Lines
pub mod Used
use count_buffy.Prelude.{
  ℕ, zero, suc, ◌+◌, ◌-◌, ◌*◌, ◌/◌, ◌%◌, ◌≤◌, ◌<◌, min, ◌≡◌, refl, sym, ap, ◌∙◌, subst, ◌≢◌, ◌↔◌,
  ◌⊎◌, inl, inr, Bool, true, false, Option, none, some, List, [], ◌∷◌, ◌++◌, map, arith, int_laws,
  parts, ℤ, pos, negsuc, ◌+ℤ◌, ◌-ℤ◌, ◌≤ℤ◌, neg_part_nonneg, Bool-cases, Bool_ext, length, get_or,
  set, replicate, All, at_or_after, range, range_from, loop, gather, total, total_congr,
  total_nonneg, zero-+ℤ, +ℤ-zero, ltb, leb, ◌==◌, if◌then◌else◌, Text, codes, to_string, zero_diff,
  pos_part, neg_part,
}
use count_buffy.Z3.{
  Z3, ◌&&◌, ◌||◌, num, Holds, true_holds, conj_iff, disj_iff, neg_iff, implies_iff, eq_iff,
  ite_true, ite_false,
}
use count_buffy.Vec.{Ev, Ev2, Ev3, Bv, Bv2, at, bit, row, sum, sum_eq}
use count_buffy.NamedExp.{NamedExp, of_expr, named, Sat}
use count_buffy.Sts.{Sts}
use count_buffy.Workload.{
  Node, Extractor, binop, get_cenqs_for_buff, get_aipgs_for_buf, parse_cenq, parse_aipg,
}
use count_buffy.Workload.Lines.{visit}
use count_buffy.NamedExp.{prefix}
use count_buffy.Solver.{SmtSolver, Outcome, returns, throws, ivv}
use count_buffy.Leaf.Metadata.{dst_val, ecmp_val}
use count_buffy.Prelude.{nat_key, Map, text_eq}
use mathlib.Core.Bool.{◌&&◌ as and_bool, ◌||◌ as or_bool}

-- `tuple<int, int, string, int>`: time, buffer, operator and right-hand side.
pub record MetaConstr : Type 0 where
  pub time : ℕ
  pub buf : ℕ
  pub op : Text
  pub rhs : ℕ

-- The visitor: the fields that it has in common with the other one, and its own. An entry of
-- `max_t_with_zero_cenq` that is -1 is `none`.
pub record LeafExtractor ⦃z : Z3⦄ : Type 0 where
  pub base : Extractor
  pub max_t_with_zero_cenq : List (Option ℕ)
  pub dst_to_pkt_type : Map ℕ (List ℕ)
  pub ecmp_to_pkt_type : Map ℕ (List ℕ)
  pub dst_constrs : List MetaConstr
  pub ecmp_constrs : List MetaConstr

abbrev pub max_time : Option ℕ → ℕ → Option ℕ
max_time none n = some n
max_time (some m) n = some (if ltb m n then n else m)

module _ ⦃z : Z3⦄ where
  unfoldable pub new_leaf_extractor :
      SmtSolver → Ev3 → ℕ → Map ℕ (List ℕ) → Map ℕ (List ℕ) → LeafExtractor × SmtSolver
  unfolding get_cenqs_for_buff get_aipgs_for_buf dst_val ecmp_val
  new_leaf_extractor slv i timesteps dst_to_pkt_type ecmp_to_pkt_type =
      let (it, slv) = ivv (length i) timesteps (codes "Workload") slv in
      let by_time = λ (f : ℕ → ℕ → z.IntExpr).
        map (λ b. map (λ t. f b t) (range 0 timesteps)) (range 0 (length i)) in
      (
        record {
          base = record {
            tmp_ids = [];
            begin = 0;
            end = 0;
            metric = [];
            op = [];
            rhs = 0;
            rhs_linear = false;
            cenqs = map get_cenqs_for_buff it;
            aipgs = map get_aipgs_for_buf it;
            constrs = [];
            it = it;
            I = i;
            dsts = by_time (dst_val i dst_to_pkt_type);
            ecmps = by_time (ecmp_val i ecmp_to_pkt_type);
          };
          max_t_with_zero_cenq = map (λ b. none) (range 0 (length i));
          dst_to_pkt_type = dst_to_pkt_type;
          ecmp_to_pkt_type = ecmp_to_pkt_type;
          dst_constrs = [];
          ecmp_constrs = [];
        },
        slv,
      )

  with_base : LeafExtractor → Outcome (List NamedExp) → Outcome LeafExtractor
  with_base lx (returns nes) = returns (record lx { base = record lx.base { constrs = nes } })
  with_base lx (throws e) = throws e

  -- `op == "<" || op == "<=" || op == "=="`, and `rhs <= 0`.
  unfoldable pub bounds_to_zero : Extractor → Bool
  bounds_to_zero ex =
      and_bool
        (or_bool (text_eq ex.op (codes "<"))
          (or_bool (text_eq ex.op (codes "<=")) (text_eq ex.op (codes "=="))))
        (ex.rhs == 0)

  -- A `cenq` of at most 0 makes its inputs idle up to its end.
  unfoldable pub note_idle : LeafExtractor → List (Option ℕ)
  unfolding bounds_to_zero
  note_idle lx =
      if bounds_to_zero lx.base
      then loop (λ ts i. set ts i (max_time (get_or ts i none) lx.base.end)) lx.max_t_with_zero_cenq
          lx.base.tmp_ids
      else lx.max_t_with_zero_cenq

  unfoldable pub leaf_parse_cenq : LeafExtractor → Outcome LeafExtractor
  unfolding parse_cenq with_base note_idle
  leaf_parse_cenq lx =
      with_base (record lx { max_t_with_zero_cenq = note_idle lx }) (parse_cenq lx.base)

  -- Of the two constraints the first says that packets arrive.
  meta_pair : z.BoolExpr → Text → Text → Outcome z.BoolExpr → Outcome (List NamedExp)
  meta_pair not_empty first second (returns e) =
      returns (prefix (of_expr not_empty) first ∷ prefix (of_expr e) second ∷ [])
  meta_pair not_empty first second (throws e) = throws e

  -- `assert(tmp_ids.size() == 1)` and `assert(!rhs_linear)`.
  one_input : Extractor → (ℕ → Outcome (List NamedExp)) → Outcome (List NamedExp)
  one_input ex f =
      if length ex.tmp_ids == 1
      then if ex.rhs_linear then throws (codes "!rhs_linear") else f (get_or ex.tmp_ids 0 0)
      else throws (codes "tmp_ids.size() == 1")

  -- `format("{kind}[{}][{}] Not Empty", b, t)`, and the name of the comparison, in which `at` is the
  -- text between the indices.
  abbrev first_name : Text → ℕ → ℕ → Text
  first_name kind b t =
      kind ++ codes "[" ++ to_string b ++ codes "][" ++ to_string t ++ codes "] Not Empty"

  abbrev second_name : Text → Text → ℕ → ℕ → Extractor → Text
  second_name kind at_text b t ex =
      kind
      ++ codes "["
      ++ to_string b
      ++ at_text
      ++ to_string t
      ++ codes "] "
      ++ ex.op
      ++ codes " "
      ++ to_string ex.rhs

  -- The first step only, whatever the interval is.
  unfoldable pub leaf_parse_dst : LeafExtractor → Outcome LeafExtractor
  unfolding binop dst_val meta_pair one_input with_base
  leaf_parse_dst lx =
      let ex = lx.base in
      let b = get_or ex.tmp_ids 0 0 in
      let noted : MetaConstr = record { time = 1; buf = b; op = ex.op; rhs = ex.rhs } in
      if ex.begin == 0
      then throws (codes "begin > 0")
      else with_base (record lx { dst_constrs = lx.dst_constrs ++ (noted ∷ []) })
          (one_input ex (λ b.
            meta_pair (z.lt (num 0) (sum (row (row ex.I b) 0))) (first_name (codes "DST") b 0)
              (second_name (codes "DST") (codes "][") b 0 ex)
              (binop (dst_val ex.I lx.dst_to_pkt_type b 0) ex.op (num ex.rhs))))

  append_all : Outcome (List NamedExp) → Outcome (List NamedExp) → Outcome (List NamedExp)
  append_all (returns nes) (returns more) = returns (nes ++ more)
  append_all (returns nes) (throws e) = throws e
  append_all (throws e) rest = throws e

  each_step : (ℕ → Outcome (List NamedExp)) → List ℕ → Outcome (List NamedExp)
  unfolding append_all
  each_step f [] = returns []
  each_step f (t ∷ ts) = append_all (f t) (each_step f ts)

  unfoldable pub leaf_parse_ecmp : LeafExtractor → Outcome LeafExtractor
  unfolding binop ecmp_val meta_pair one_input with_base each_step
  leaf_parse_ecmp lx =
      let ex = lx.base in
      let ts = range ex.begin (ex.end + 1) in
      let b = get_or ex.tmp_ids 0 0 in
      let noted : List MetaConstr =
        map (λ t. record { time = t; buf = b; op = ex.op; rhs = ex.rhs }) ts in
      if ex.begin == 0
      then throws (codes "begin > 0")
      else with_base (record lx { ecmp_constrs = lx.ecmp_constrs ++ noted })
          (each_step
            (λ t. one_input ex (λ b.
              meta_pair (z.lt (num 0) (sum (row (row ex.I b) (t - 1))))
                (first_name (codes "ECMP") b (t - 1))
                (second_name (codes "ECMP") (codes "]@[") b (t - 1) ex)
                (binop (ecmp_val ex.I lx.ecmp_to_pkt_type b (t - 1)) ex.op (num ex.rhs))))
            ts)

  -- The methods for the parts of a line are those of the other visitor.
  unfoldable pub leaf_visit : LeafExtractor → Node → LeafExtractor
  unfolding visit
  leaf_visit lx node = record lx { base = visit lx.base node }

  unfoldable pub leaf_visit_con : LeafExtractor → List Node → Outcome LeafExtractor
  unfolding leaf_visit leaf_parse_cenq leaf_parse_dst leaf_parse_ecmp parse_aipg with_base
  leaf_visit_con lx nodes =
      let lx' = loop leaf_visit lx nodes in
      let metric = lx'.base.metric in
      if text_eq metric (codes "cenq")
      then leaf_parse_cenq lx'
      else if text_eq metric (codes "aipg")
      then with_base lx' (parse_aipg lx'.base)
      else if text_eq metric (codes "dst")
      then leaf_parse_dst lx'
      else if text_eq metric (codes "ecmp")
      then leaf_parse_ecmp lx'
      else returns (record lx' { base = record lx'.base { constrs = [] } })
