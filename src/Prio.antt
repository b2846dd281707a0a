-- ===== src/Prio.antt =====
-- src/prio_sts.hpp and src/prio_sts.cpp: the strict-priority scheduler. Lower indices go first.
pub mod Service
pub mod Transition
pub mod Starvation
use count_buffy.Prelude.{
  ℕ, suc, ◌+◌, ◌-◌, true, false, List, [], ◌∷◌, ◌++◌, map, pos, gather, loop, range,
}
use count_buffy.Z3.{Z3, ◌&&◌, ◌||◌}
use count_buffy.Vec.{Ev, Ev2, Bv, row, bit, add_vec, sum_gt, sum_eq}
use count_buffy.NamedExp.{NamedExp, of_expr}
use count_buffy.Sts.{Sts}
use count_buffy.Sts.Scheduler.{Scheduler}

-- `QUERY_TRESH`
abbrev pub query_tresh : ℕ
query_tresh = 6

-- The rounds of two nested loops, `for (i …) for (l = i + 1; …)`.
unfoldable pub pairs : ℕ → List (ℕ × ℕ)
pairs n = gather (λ i. map (λ l. (i, l)) (range (i + 1) n)) (range 0 n)

module _ ⦃z : Z3⦄ where
  -- The second constraint reads step 0 in every round.
  unfoldable pub workload : Sts → List NamedExp
  workload sts =
      let E_at = λ (b t : ℕ). row (row sts.E b) t in
      gather (λ i. of_expr (sum_gt (add_vec (E_at 0 i) (E_at 1 i)) (pos 0)) ∷ [])
        (range 0 (sts.timesteps - 1))
      ++ of_expr (
          loop (λ b2_constr i. b2_constr || sum_gt (E_at 2 0) (pos 0)) (sum_gt (E_at 2 0) (pos 0))
            (range 0 (sts.timesteps - 5)))
        ∷ []

  unfoldable pub out_rounds : Bv → Ev2 → List ℕ → z.BoolExpr → z.BoolExpr → List NamedExp
  out_rounds bv ov [] res not_until = []
  out_rounds bv ov (i ∷ is) res not_until =
      let res' =
        res
        && z.ite (not_until && bit bv i) (sum_eq (row ov i) (pos 1)) (sum_eq (row ov i) (pos 0)) in
      of_expr res' ∷ out_rounds bv ov is res' (not_until && z.neg (bit bv i))

  unfoldable pub out : Sts → Bv → Ev → Ev2 → ℕ → List NamedExp
  unfolding out_rounds
  out sts bv sv ov t = out_rounds bv ov (range 0 sts.num_bufs) (z.bool_val true) (z.bool_val true)

  unfoldable pub trs_rounds : Bv → Bv → List (ℕ × ℕ) → z.BoolExpr → List NamedExp
  trs_rounds b bp [] res = []
  trs_rounds b bp ((i, l) ∷ is) res =
      let res' = res && z.implies (bit b i) (z.implies (bit b l) (bit bp l)) in
      of_expr res' ∷ trs_rounds b bp is res'

  unfoldable pub trs : Sts → Bv → Ev → Bv → Ev → ℕ → List NamedExp
  unfolding trs_rounds pairs
  trs sts b s bp sp tp = trs_rounds b bp (pairs sts.num_bufs) (z.bool_val true)

  -- Some buffer 2 is backlogged and not served for `query_tresh` steps in a row.
  unfoldable pub query : Sts → List NamedExp
  query sts =
      let part = λ (i : ℕ).
        loop
          (λ part j.
            part && bit (row sts.B 2) (i + j) && sum_eq (row (row sts.O 2) (i + j)) (pos 0))
          (z.bool_val true) (range 0 query_tresh) in
      of_expr (
        loop (λ res i. res || part i) (z.bool_val false)
          (range 0 (sts.timesteps + 1 - query_tresh)))
      ∷ []

  unfoldable pub init : Sts → Bv → Ev → List NamedExp
  init sts b0 s0 = of_expr (z.bool_val true) ∷ []

  -- The class as a scheduler; it keeps no state of its own.
  abbrev pub prio : Scheduler (Unit {0})
  prio = record {
    init = λ sts st b0 s0. (init sts b0 s0, st);
    trs = λ sts st b s bp sp tp. (trs sts b s bp sp tp, st);
    out = λ sts st bv sv ov t. (out sts bv sv ov t, st);
    workload = λ sts st. workload sts;
    base_wl = λ sts st. [];
    query = λ sts st. query sts;
    get_state = λ sts st. sts.S_int;
  }
