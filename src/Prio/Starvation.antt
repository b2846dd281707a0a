-- ===== src/Prio/Starvation.antt =====
-- What the query of the strict-priority scheduler asks for: buffer 2 starves.
use count_buffy.Prelude.{
  ℕ, ◌+◌, ◌-◌, ◌≤◌, ◌<◌, ◌≡◌, ◌↔◌, inl, inr, true, false, arith, pos, range, loop,
}
use count_buffy.Z3.{Z3, ◌&&◌, Holds, true_holds, conj_iff}
use count_buffy.Vec.{bit, row, sum, sum_eq}
use count_buffy.NamedExp.{of_expr, Sat}
use count_buffy.Sts.{Sts}
use count_buffy.Prio.{query, query_tresh}
use count_buffy.Z3.{disj_loop_holds, holds_disj_loop, false_fails}
use count_buffy.Vec.Choice.{value_is}
use count_buffy.Z3.{rounds_iff}

module _ ⦃z : Z3⦄ (m : z.Model) where
  module _ (sts : Sts) where
    -- Buffer 2 is backlogged at step `t` and serves no packet.
    abbrev pub Waits : ℕ → Type 0
    Waits t = Holds m (bit (row sts.B 2) t) × (z.value m (sum (row (row sts.O 2) t)) ≡ pos 0)

    abbrev pub Starves : ℕ → Type 0
    Starves i = (j : ℕ) → j < query_tresh → Waits (i + j)

    abbrev part_body : ℕ → z.BoolExpr → ℕ → z.BoolExpr
    part_body i part j =
        part && bit (row sts.B 2) (i + j) && sum_eq (row (row sts.O 2) (i + j)) (pos 0)

    abbrev part : ℕ → z.BoolExpr
    part i = loop (part_body i) (z.bool_val true) (range 0 query_tresh)

    round_iff :
        (i : ℕ) (r : z.BoolExpr) (j : ℕ) → Holds m (part_body i r j) ↔ (Holds m r × Waits (i + j))
    round_iff i r j =
        let inner = conj_iff m r (bit (row sts.B 2) (i + j)) in
        let whole =
          conj_iff m (r && bit (row sts.B 2) (i + j))
            (sum_eq (row (row sts.O 2) (i + j)) (pos 0)) in
        let none_ = value_is m (row (row sts.O 2) (i + j)) 0 in
        (
          λ h. ((inner.0 (whole.0 h).0).0, ((inner.0 (whole.0 h).0).1, none_.0 (whole.0 h).1)),
          λ h. whole.1 (inner.1 (h.0, h.1.0), none_.1 h.1.1),
        )

    part_iff : (i : ℕ) → Holds m (part i) ↔ Starves i
    part_iff i =
        let rounds =
          rounds_iff m (part_body i) (λ j. Waits (i + j)) (round_iff i) query_tresh 0
            (z.bool_val true) in
        (
          λ h j b. (rounds.0 h).1 j (omega arith) (omega arith),
          λ h. rounds.1 (true_holds m, λ j lo b. h j (omega arith)),
        )

    -- A model satisfies the query of the priority scheduler exactly when there is a step from
    -- which on buffer 2 is backlogged and serves no packet for `query_tresh` steps in a row, all
    -- within the time.
    pub query-Starves :
        Sat m (query sts) ↔ ((i : ℕ) × (i + query_tresh ≤ sts.timesteps) × Starves i)
    unfolding query of_expr
    query-Starves = (
      λ h.
          elim (disj_loop_holds m part (z.bool_val false) 0 (sts.timesteps + 1 - query_tresh - 0)
            h.0) [
              | inl f ↦ absurd (false_fails m f)
              | inr (i, lo, hi, e) ↦ (i, omega arith, (part_iff i).0 e)
            ],
      λ (i, b, s). (
        holds_disj_loop m part (z.bool_val false) 0 (sts.timesteps + 1 - query_tresh - 0)
            (inr (i, omega arith, omega arith, (part_iff i).1 s)),
        tt,
      ),
    )
