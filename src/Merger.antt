-- ===== src/Merger.antt =====
-- src/merger.hpp and src/merger.cpp, src/trivial_sts.hpp and src/trivial_sts.cpp, and
-- src/classifier.hpp and src/classifier.cpp: contention points without a state. The merger serves
-- every backlogged buffer, the trivial one asks for nothing, and the classifier is no checker: it
-- copies the packets of some types to one output and those of the others to another.
pub mod Trivial
pub mod Classifier
pub mod Meaning
use count_buffy.Prelude.{
  ℕ, zero, suc, ◌+◌, ◌-◌, ◌*◌, ◌/◌, ◌%◌, ◌≤◌, ◌<◌, min, ◌≡◌, refl, sym, ap, ◌∙◌, subst, ◌≢◌, ◌↔◌,
  ◌⊎◌, inl, inr, Bool, true, false, Option, none, some, List, [], ◌∷◌, ◌++◌, map, arith, int_laws,
  parts, ℤ, pos, negsuc, ◌+ℤ◌, ◌-ℤ◌, ◌≤ℤ◌, neg_part_nonneg, Bool-cases, Bool_ext, length, get_or,
  set, replicate, All, at_or_after, range, range_from, loop, gather, total, total_congr,
  total_nonneg, zero-+ℤ, +ℤ-zero, ltb, leb, ◌==◌, if◌then◌else◌, Text, codes, to_string, zero_diff,
  pos_part, neg_part,
}
use count_buffy.Z3.{
  Z3, ◌&&◌, ◌||◌, num, Holds, true_holds, conj_iff, disj_iff, neg_iff, implies_iff, eq_iff,
  ite_true, ite_false,
}
use count_buffy.Vec.{Ev, Ev2, Ev3, Bv, Bv2, at, bit, row, sum, sum_eq}
use count_buffy.NamedExp.{NamedExp, of_expr, named, Sat}
use count_buffy.Sts.{Sts}
use count_buffy.Sts.Scheduler.{Scheduler}

module _ ⦃z : Z3⦄ where
  unfoldable pub out : Sts → Bv → Ev → Ev2 → ℕ → List NamedExp
  out sts bv sv ov t =
      map (λ i. of_expr (z.implies (bit bv i) (sum_eq (row ov i) (pos 1)))) (range 0 sts.num_bufs)

  unfoldable pub trs : Bv → Ev → Bv → Ev → ℕ → List NamedExp
  trs b s bp sp tp = []

  unfoldable pub init : Bv → Ev → List NamedExp
  init b0 s0 = []

  unfoldable pub query : Sts → List NamedExp
  query sts = []

  unfoldable pub workload : Sts → List NamedExp
  workload sts = []

  abbrev pub merger : Scheduler (Unit {0})
  merger = record {
    init = λ sts st b0 s0. (init b0 s0, st);
    trs = λ sts st b s bp sp tp. (trs b s bp sp tp, st);
    out = λ sts st bv sv ov t. (out sts bv sv ov t, st);
    workload = λ sts st. workload sts;
    base_wl = λ sts st. [];
    query = λ sts st. query sts;
    get_state = λ sts st. sts.S_int;
  }
