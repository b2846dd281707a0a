-- ===== src/RoundRobin/Service.antt =====
-- What `RRChecker::out` and `RRChecker::init` ask for, in a model.
use count_buffy.Prelude.{
  ◌-◌, ℕ, zero, suc, ◌+◌, ◌≤◌, ◌<◌, ◌≡◌, sym, ◌∙◌, subst, ◌↔◌, inl, inr, true, arith, ℤ, pos,
  at_or_after, range_from,
}
use count_buffy.Z3.{Z3, ◌&&◌, num, Holds, true_holds, conj_iff, implies_iff, eq_iff}
use count_buffy.Vec.{Ev, Ev2, Bv, at, bit, row, sum, sum_eq}
use count_buffy.NamedExp.{of_expr, Sat}
use count_buffy.Sts.{Sts}
use count_buffy.Vec.Choice.{one_or_none_iff}
use count_buffy.Vec.First.{IsFirst, NoneBefore, IsFirst-iff, NoneBefore-next}
use count_buffy.RoundRobin.{out, init, init_rounds}
use count_buffy.Z3.{conj_loop_iff}

module _ ⦃z : Z3⦄ (m : z.Model) where
  -- Buffer `i` has the turn `turn` and is backlogged.
  abbrev pub HasTurn : Bv → ℤ → ℕ → Type 0
  HasTurn bv turn i = Holds m (bit bv i) × (turn ≡ pos i)

  abbrev pub Serves : Bv → Ev2 → ℤ → ℕ → Type 0
  Serves bv ov turn i =
      (HasTurn bv turn i → z.value m (sum (row ov i)) ≡ pos 1)
      × (¬ HasTurn bv turn i → z.value m (sum (row ov i)) ≡ pos 0)

  HasTurn-iff :
      (bv : Bv) (s : z.IntExpr) (i : ℕ)
      → Holds m (bit bv i && z.eq s (num i)) ↔ HasTurn bv (z.value m s) i
  HasTurn-iff bv s i =
      let both = conj_iff m (bit bv i) (z.eq s (num i)) in
      let same = eq_iff m s (num i) in
      (
        λ h. ((both.0 h).0, same.0 (both.0 h).1 ∙ z.value-int_val m (pos i)),
        λ h. both.1 (h.0, same.1 (h.1 ∙ sym (z.value-int_val m (pos i)))),
      )

  -- A model satisfies the round-robin scheduler's constraints on the outputs of a step exactly
  -- when the buffer that is backlogged and has the turn serves one packet and every other buffer
  -- serves none.
  pub turn_served_iff :
      (sts : Sts) (bv : Bv) (sv : Ev) (ov : Ev2) (t : ℕ)
      → Sat m (out sts bv sv ov t)
        ↔ ((i : ℕ) → i < sts.num_bufs → Serves bv ov (z.value m (at sv 0)) i)
  unfolding out of_expr
  turn_served_iff sts bv sv ov t =
      let part = λ (i : ℕ).
        z.ite (bit bv i && z.eq (at sv 0) (num i)) (sum_eq (row ov i) (pos 1))
          (sum_eq (row ov i) (pos 0)) in
      let rounds = conj_loop_iff m part (z.bool_val true) 0 sts.num_bufs in
      let each = λ (i : ℕ).
        one_or_none_iff m (HasTurn bv (z.value m (at sv 0)) i) (bit bv i && z.eq (at sv 0) (num i))
          (row ov i) (HasTurn-iff bv (at sv 0) i) in
      (
        λ h i b. (each i).0 ((rounds.0 h.0).1 i (omega arith) b),
        λ h. (rounds.1 (true_holds m, λ i lo b. (each i).1 (h i b)), tt),
      )

  -- The first turn is the first backlogged buffer's, or 0.
  abbrev pub Starts : Bv → ℕ → ℤ → Type 0
  Starts bv n turn =
      ((i : ℕ) → i < n → IsFirst m bv i → turn ≡ pos i) × (NoneBefore m bv n → turn ≡ pos 0)

  module _ (bv : Bv) (s : z.IntExpr) where
    pub eq_num :
        (P : Type 0) (c : z.BoolExpr) (i : ℕ)
        → Holds m c ↔ P
        → Holds m (z.implies c (z.eq s (num i))) ↔ (P → z.value m s ≡ pos i)
    eq_num P c i e =
        let imp = implies_iff m c (z.eq s (num i)) in
        let same = eq_iff m s (num i) in
        (
          λ h p. same.0 (imp.0 h (e.1 p)) ∙ z.value-int_val m (pos i),
          λ h. imp.1 (λ c. same.1 (h (e.0 c) ∙ sym (z.value-int_val m (pos i)))),
        )

    init_rounds_iff :
        (n a : ℕ) (res not_prevs : z.BoolExpr)
        → Holds m not_prevs ↔ NoneBefore m bv a
        → Holds m (init_rounds bv s (range_from a n) res not_prevs) ↔ (
            Holds m res
            × ((i : ℕ) → a ≤ i → i < a + n → IsFirst m bv i → z.value m s ≡ pos i)
            × (NoneBefore m bv (a + n) → z.value m s ≡ pos 0))
    unfolding init_rounds
    init_rounds_iff zero a res np e =
        let last = eq_num (NoneBefore m bv a) np 0 e in
        let both = conj_iff m res (z.implies np (z.eq s (num 0))) in
        let same : a + 0 ≡ a = omega arith in
        (
          λ h. (
            (both.0 h).0,
            (λ i lo hi. absurd (omega arith)),
            (λ none_. last.0 (both.0 h).1 (rw same at none_)),
          ),
          λ h. both.1 (h.0, last.1 (λ none_. h.2 (rw same none_))),
        )
    init_rounds_iff (suc n) a res np e =
        let part = z.implies (np && bit bv a) (z.eq s (num a)) in
        let here = eq_num (IsFirst m bv a) (np && bit bv a) a (IsFirst-iff m bv a np e) in
        let both = conj_iff m res part in
        let rest =
          init_rounds_iff n (suc a) (res && part) (np && z.neg (bit bv a))
            (NoneBefore-next m bv a np e) in
        let same : suc a + n ≡ a + suc n = omega arith in
        (
          λ h.
              let (all, later, none_) = rest.0 h in
              (
                (both.0 all).0,
                (λ i lo hi. elim (at_or_after a i lo) [
                  | inl same ↦
                      subst (λ j. IsFirst m bv j → z.value m s ≡ pos j) same (here.0 (both.0 all).1)
                  | inr more ↦ later i more (omega arith)
                ]),
                (λ idle. none_ (rw same idle)),
              ),
          λ (all, each, none_). rest.1 (
            both.1 (all, here.1 (each a (omega arith) (omega arith))),
            (λ i lo hi. each i (omega arith) (omega arith)),
            (λ idle. none_ (rw same at idle)),
          ),
        )

  -- A model satisfies the round-robin scheduler's initial constraints exactly when the first turn
  -- is the first backlogged buffer's, or 0 when none is backlogged.
  pub init_iff :
      (sts : Sts) (b0 : Bv) (s0 : Ev)
      → Sat m (init sts b0 s0) ↔ Starts b0 sts.num_bufs (z.value m (at s0 0))
  unfolding init of_expr
  init_iff sts b0 s0 =
      let rounds =
        init_rounds_iff b0 (at s0 0) (sts.num_bufs - 0) 0 (z.bool_val true) (z.bool_val true)
          ((λ _ j b. absurd (omega arith)), (λ _. true_holds m)) in
      (
        λ h.
            let (all, each, none_) = rounds.0 h.0 in
            (
              λ i b f. each i (omega arith) (omega arith) f,
              λ idle. none_ (λ j b. idle j (omega arith)),
            ),
        λ h. (
          rounds.1 (
            true_holds m,
            (λ i lo hi f. h.0 i (omega arith) f),
            (λ idle. h.1 (λ j b. idle j (omega arith))),
          ),
          tt,
        ),
      )
