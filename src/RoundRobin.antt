-- ===== src/RoundRobin.antt =====
-- src/rr_checker.hpp and src/rr_checker.cpp: the round-robin scheduler. The first state variable is
-- the index of the buffer whose turn it is.
pub mod Turn
pub mod Service
pub mod Fairness
pub mod Transition
use count_buffy.Prelude.{
  ℕ, suc, ◌+◌, ◌-◌, ◌*◌, ◌/◌, ◌%◌, true, List, [], ◌∷◌, ◌++◌, Text, codes, pos, gather, loop, range,
  replicate, ◌==◌, if◌then◌else◌,
}
use count_buffy.Z3.{Z3, ◌&&◌, num}
use count_buffy.Vec.{Ev, Ev2, Bv, at, row, bit, sum_gt, sum_eq, sum_rows, sum_rows_to}
use count_buffy.NamedExp.{NamedExp, of_expr, named}
use count_buffy.Sts.{Sts}
use count_buffy.Sts.Scheduler.{Scheduler}

abbrev pub period : ℕ
period = 5

-- `NUM_BUFS` of `turn_transition`.
abbrev pub turn_bufs : ℕ
turn_bufs = 5

module _ ⦃z : Z3⦄ where
  -- `res && (sum(I[i], limit(j)) >= rate)` for all buffers and all periods.
  unfoldable pub enough_in_periods : Sts → (ℕ → ℕ) → z.BoolExpr
  enough_in_periods sts limit =
      loop
        (λ wl i.
          loop (λ wl j. wl && z.le (num (period - 1)) (sum_rows_to (row sts.I i) (limit j))) wl
            (range 1 (sts.timesteps / period + 1)))
        (z.bool_val true) (range 0 sts.num_bufs)

  -- The sums run to `j * period`, one step further than in `base_wl`.
  unfoldable pub workload : Sts → List NamedExp
  unfolding enough_in_periods
  workload sts =
      let base_wl =
        enough_in_periods sts (λ j. j * period)
        && z.le (sum_rows (row sts.I 2)) (sum_rows (row sts.I 1)) in
      let wl =
        loop
          (λ wl i.
            if i == 2
            then loop (λ wl j. wl && sum_gt (row (row sts.I i) j) (pos 0)) wl (range 0 period)
            else (wl && z.eq (sum_rows_to (row sts.I i) (period - 1)) (num 0)))
          (z.bool_val true) (range 0 sts.num_bufs) in
      named (base_wl && wl) (codes "workload") ∷ []

  unfoldable pub base_wl : Sts → List NamedExp
  unfolding enough_in_periods
  base_wl sts = named (enough_in_periods sts (λ j. j * period - 1)) (codes "base_wl") ∷ []

  unfoldable pub out : Sts → Bv → Ev → Ev2 → ℕ → List NamedExp
  out sts bv sv ov t =
      of_expr (
        loop
          (λ res i.
            res
            && z.ite (bit bv i && z.eq (at sv 0) (num i)) (sum_eq (row ov i) (pos 1))
                (sum_eq (row ov i) (pos 0)))
          (z.bool_val true) (range 0 sts.num_bufs))
      ∷ []

  -- The first backlogged buffer has the first turn, or buffer 0.
  unfoldable pub init_rounds : Bv → z.IntExpr → List ℕ → z.BoolExpr → z.BoolExpr → z.BoolExpr
  init_rounds b0 s [] res not_prevs = res && z.implies not_prevs (z.eq s (num 0))
  init_rounds b0 s (i ∷ is) res not_prevs =
      init_rounds b0 s is (res && z.implies (not_prevs && bit b0 i) (z.eq s (num i)))
        (not_prevs && z.neg (bit b0 i))

  unfoldable pub init : Sts → Bv → Ev → List NamedExp
  unfolding init_rounds
  init sts b0 s0 =
      of_expr (init_rounds b0 (at s0 0) (range 0 sts.num_bufs) (z.bool_val true) (z.bool_val true))
      ∷ []

  -- The inner loop of `turn_transition`, for the current turn `i`.
  unfoldable pub turn_rounds : Bv → z.IntExpr → ℕ → List ℕ → z.BoolExpr → z.BoolExpr → z.BoolExpr
  turn_rounds nxt_b nxt_s i [] x y = y && z.implies x (z.eq nxt_s (num i))
  turn_rounds nxt_b nxt_s i (j ∷ js) x y =
      let l = (i + j) % turn_bufs in
      turn_rounds nxt_b nxt_s i js (x && z.neg (bit nxt_b l))
        (y && z.implies (x && bit nxt_b l) (z.eq nxt_s (num l)))

  unfoldable pub turn_transition : Bv → z.IntExpr → Bv → z.IntExpr → z.BoolExpr
  unfolding turn_rounds
  turn_transition cur_b cur_s nxt_b nxt_s =
      loop
        (λ e i.
          e
          && z.implies (z.eq cur_s (num i))
              (turn_rounds nxt_b nxt_s i (range 1 turn_bufs) (z.bool_val true) (z.bool_val true)))
        (z.bool_val true) (range 0 turn_bufs)

  -- The turn after buffer `i`, of `n`: the candidates are tried from the farthest to the nearest, and
  -- the last backlogged one stands.
  unfoldable pub next_turn : ℕ → Bv → ℕ → z.IntExpr
  next_turn n bp i =
      loop (λ x j. let l = (i + n - j) % n in z.ite_int (bit bp l) (num l) x) (num i) (range 1 n)

  -- The two asserts on the sizes of `b` and `s` are left out: the base class passes an entry for each
  -- buffer.
  unfoldable pub trs : Sts → Bv → Ev → Bv → Ev → ℕ → List NamedExp
  unfolding next_turn
  trs sts b s bp sp tp =
      of_expr (
        loop
          (λ e i.
            e && z.implies (z.eq (at s 0) (num i)) (z.eq (at sp 0) (next_turn sts.num_bufs bp i)))
          (z.bool_val true) (range 0 sts.num_bufs))
      ∷ []

  -- The loop starts at `timesteps - PERIOD`; `sum` up to a negative index is the first entry's.
  unfoldable pub query : Sts → List NamedExp
  query sts =
      let T = sts.timesteps in
      of_expr (
        loop
          (λ res i.
            res && z.le (num 3) (z.sub (sum_rows_to (row sts.O 2) i) (sum_rows_to (row sts.O 1) i)))
          (z.bool_val true) (replicate (period - T) 0 ++ range (T - period) T))
      ∷ []

  abbrev pub round_robin : Scheduler (Unit {0})
  round_robin = record {
    init = λ sts st b0 s0. (init sts b0 s0, st);
    trs = λ sts st b s bp sp tp. (trs sts b s bp sp tp, st);
    out = λ sts st bv sv ov t. (out sts bv sv ov t, st);
    workload = λ sts st. workload sts;
    base_wl = λ sts st. base_wl sts;
    query = λ sts st. query sts;
    get_state = λ sts st. sts.S_int;
  }
