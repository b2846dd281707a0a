-- ===== src/Workload.antt =====
-- src/gen/constr_extractor.hpp, src/gen/constr_extractor.cpp, src/gen/wl_parser.cpp and the part of
-- src/utils.cpp that joins names: a line of a workload as constraints on the inputs. The
-- grammar's parser is generated: it is a parameter that gives the nodes of a line in the order in
-- which the visitor meets them.
pub mod Metrics
pub mod Gaps
pub mod Lines
use count_buffy.Prelude.{
  ℕ, zero, suc, ◌+◌, ◌-◌, ◌*◌, ◌/◌, ◌%◌, ◌≤◌, ◌<◌, min, ◌≡◌, refl, sym, ap, ◌∙◌, subst, ◌≢◌, ◌↔◌,
  ◌⊎◌, inl, inr, Bool, true, false, Option, none, some, List, [], ◌∷◌, ◌++◌, map, arith, int_laws,
  parts, ℤ, pos, negsuc, ◌+ℤ◌, ◌-ℤ◌, ◌≤ℤ◌, neg_part_nonneg, Bool-cases, Bool_ext, length, get_or,
  set, replicate, All, at_or_after, range, range_from, loop, gather, total, total_congr,
  total_nonneg, zero-+ℤ, +ℤ-zero, ltb, leb, ◌==◌, if◌then◌else◌, Text, codes, to_string, zero_diff,
  pos_part, neg_part,
}
use count_buffy.Z3.{
  Z3, ◌&&◌, ◌||◌, num, Holds, true_holds, conj_iff, disj_iff, neg_iff, implies_iff, eq_iff,
  ite_true, ite_false,
}
use count_buffy.Vec.{Ev, Ev2, Ev3, Bv, Bv2, at, bit, row, sum, sum_eq}
use count_buffy.NamedExp.{NamedExp, of_expr, named, Sat}
use count_buffy.Solver.{SmtSolver, Outcome, returns, throws, ivv, add_all}
use count_buffy.NamedExp.{prefix}
use count_buffy.Prelude.{text_eq, down_from}

-- `CENQ` and `AIPG` compare a metric with a number or a multiple of the time.
pub data Node : Type 0 where
  metric : Text → Node
  queue : ℕ → Node
  queue_set : List ℕ → Node
  right_side : Option ℕ → ℕ → Text → Node
  interval : ℕ → ℕ → Node
  comp_op : Text → Node

pub record Extractor ⦃z : Z3⦄ : Type 0 where
  pub tmp_ids : List ℕ
  pub begin : ℕ
  pub end : ℕ
  pub metric : Text
  pub op : Text
  pub rhs : ℕ
  pub rhs_linear : Bool
  pub cenqs : Ev2
  pub aipgs : Ev2
  pub constrs : List NamedExp
  pub it : Ev2
  pub I : Ev3
  pub dsts : Ev2
  pub ecmps : Ev2

module _ ⦃z : Z3⦄ where
  -- An unknown operator throws `invalid_argument`. `!=` is the negation of `==`.
  unfoldable pub binop : z.IntExpr → Text → z.IntExpr → Outcome z.BoolExpr
  binop left op right =
      if text_eq op (codes "<")
      then returns (z.lt left right)
      else if text_eq op (codes "<=")
      then returns (z.le left right)
      else if text_eq op (codes ">")
      then returns (z.lt right left)
      else if text_eq op (codes ">=")
      then returns (z.le right left)
      else if text_eq op (codes "==")
      then returns (z.eq left right)
      else if text_eq op (codes "!=")
      then returns (z.neg (z.eq left right))
      else throws (codes "Unknown comparison operator: " ++ op)

  -- The packets that have arrived up to each step.
  unfoldable pub cenq_rounds : z.IntExpr → Ev → Ev
  cenq_rounds cenq [] = []
  cenq_rounds cenq (x ∷ it) = let next = z.add cenq x in next ∷ cenq_rounds next it

  unfoldable pub get_cenqs_for_buff : Ev → Ev
  unfolding cenq_rounds
  get_cenqs_for_buff [] = z.undefined_int ∷ []
  get_cenqs_for_buff (x ∷ it) = x ∷ cenq_rounds x it

  -- The distance to the nearest step with packets, the earlier ones first.
  unfoldable pub nearest : Ev → ℕ → z.IntExpr
  nearest it t1 =
      let total_time = length it in
      let later =
        loop (λ val t2. z.ite_int (z.lt (num 0) (at it t2)) (num (t2 - t1)) val) (num total_time)
          (down_from (total_time - 1) (total_time - 1 - t1)) in
      loop (λ val t2. z.ite_int (z.lt (num 0) (at it t2)) (num (t1 - t2)) val) later (range 0 t1)

  aipg_rounds : Ev → z.IntExpr → List ℕ → Ev
  unfolding nearest
  aipg_rounds it prev [] = []
  aipg_rounds it prev (t1 ∷ ts) =
      let e =
        z.ite_int (z.lt (num 1) (at it t1)) (num 0)
          (z.ite_int (z.le (at it t1) (num 0)) prev (nearest it t1)) in
      e ∷ aipg_rounds it e ts

  unfoldable pub get_aipgs_for_buf : Ev → Ev
  unfolding aipg_rounds
  get_aipgs_for_buf it = num 0 ∷ aipg_rounds it (num 0) (range 1 (length it))

  unfoldable pub new_extractor : SmtSolver → Ev3 → ℕ → ℕ → Extractor × SmtSolver
  unfolding get_cenqs_for_buff get_aipgs_for_buf
  new_extractor slv i num_bufs timesteps =
      let (it, slv) = ivv num_bufs timesteps (codes "Workload") slv in
      (
        record {
          tmp_ids = [];
          begin = 0;
          end = 0;
          metric = [];
          op = [];
          rhs = 0;
          rhs_linear = false;
          cenqs = map get_cenqs_for_buff it;
          aipgs = map get_aipgs_for_buf it;
          constrs = [];
          it = it;
          I = i;
          dsts = [];
          ecmps = [];
        },
        slv,
      )

  -- The right-hand side at time `t`.
  unfoldable pub bound_at : Extractor → ℕ → z.IntExpr
  bound_at ex t = if ex.rhs_linear then num (ex.rhs * t) else num ex.rhs

  unfoldable pub cenq_sum : Extractor → ℕ → z.IntExpr
  cenq_sum ex t_index = loop (λ s i. z.add s (at (row ex.cenqs i) t_index)) (num 0) ex.tmp_ids

  -- A loop whose rounds may throw.
  unfoldable pub and_then : Outcome NamedExp → Outcome (List NamedExp) → Outcome (List NamedExp)
  and_then (returns ne) (returns nes) = returns (ne ∷ nes)
  and_then (returns ne) (throws e) = throws e
  and_then (throws e) rest = throws e

  unfoldable pub each_time : (ℕ → Outcome NamedExp) → List ℕ → Outcome (List NamedExp)
  unfolding and_then
  each_time f [] = returns []
  each_time f (t ∷ ts) = and_then (f t) (each_time f ts)

  unfoldable pub name_it : Text → Outcome z.BoolExpr → Outcome NamedExp
  name_it name (returns e) = returns (named e name)
  name_it name (throws e) = throws e

  -- `for (int t = begin; t <= end; ++t)`; `assert(begin > 0)` stops the program.
  unfoldable pub over_interval : Extractor → (ℕ → Outcome NamedExp) → Outcome (List NamedExp)
  unfolding each_time
  over_interval ex f =
      if ex.begin == 0
      then throws (codes "begin > 0")
      else each_time f (range ex.begin (ex.end + 1))

  unfoldable pub join_vec : List ℕ → Text
  join_vec [] = []
  join_vec (v ∷ vs) = to_string v ++ gather (λ w. codes "," ++ to_string w) vs

  abbrev pub cenq_name : Extractor → ℕ → Text
  cenq_name ex t =
      codes "CENQ["
      ++ join_vec ex.tmp_ids
      ++ codes ","
      ++ to_string (t - 1)
      ++ codes "] "
      ++ ex.op
      ++ codes " "
      ++ to_string ex.rhs

  unfoldable pub parse_cenq : Extractor → Outcome (List NamedExp)
  unfolding over_interval binop cenq_sum bound_at name_it
  parse_cenq ex =
      over_interval ex
        (λ t. name_it (cenq_name ex t) (binop (cenq_sum ex (t - 1)) ex.op (bound_at ex t)))

  name_self : Outcome z.BoolExpr → Outcome NamedExp
  name_self (returns e) = returns (of_expr e)
  name_self (throws e) = throws e

  -- `assert(tmp_ids.size() == 1)`
  unfoldable pub one_id : Extractor → (ℕ → Outcome NamedExp) → Outcome NamedExp
  one_id ex f =
      if length ex.tmp_ids == 1
      then f (get_or ex.tmp_ids 0 0)
      else throws (codes "tmp_ids.size() == 1")

  unfoldable pub parse_aipg : Extractor → Outcome (List NamedExp)
  unfolding over_interval binop bound_at name_self one_id
  parse_aipg ex =
      over_interval ex (λ t.
        one_id ex (λ i. name_self (binop (at (row ex.aipgs i) (t - 1)) ex.op (bound_at ex t))))

  -- src/leaf_spine/leaf_utils.cpp: at most one packet type has packets.
  unfoldable pub valid_meta : Ev3 → ℕ → ℕ → z.BoolExpr
  valid_meta i buf_idx time_idx =
      let buf = row (row i buf_idx) time_idx in
      let types = range 0 (length buf) in
      let others_empty = λ (p : ℕ).
        loop (λ e j. if p == j then e else (e && z.eq (at buf j) (num 0))) (z.bool_val true)
          types in
      loop (λ e p. z.ite (z.lt (num 0) (at buf p)) (others_empty p) e)
        (loop (λ e j. e && z.eq (at buf j) (num 0)) (z.bool_val true) types) types

  when_valid : z.BoolExpr → Text → Outcome z.BoolExpr → Outcome NamedExp
  when_valid v name (returns e) = returns (named (z.implies v e) name)
  when_valid v name (throws e) = throws e

  -- `parse_dst` and `parse_ecmp` differ in the matrix that they read and in the name.
  unfoldable pub parse_meta : Text → Ev2 → Extractor → Outcome (List NamedExp)
  unfolding over_interval binop one_id when_valid valid_meta
  parse_meta kind values ex = over_interval ex (λ t. one_id ex (λ b.
      if ex.rhs_linear
      then throws (codes "!rhs_linear")
      else when_valid (valid_meta ex.I b (t - 1))
          (kind
            ++ codes "["
            ++ to_string (t - 1)
            ++ codes "]["
            ++ to_string b
            ++ codes "] "
            ++ ex.op
            ++ codes " "
            ++ to_string ex.rhs)
          (binop (at (row values b) (t - 1)) ex.op (num ex.rhs))))
