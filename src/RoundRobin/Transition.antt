-- ===== src/RoundRobin/Transition.antt =====
-- `turn_transition` of src/rr_checker.cpp, which nothing calls: it asks for the same next turn as the
-- transition constraints, with the candidates from the nearest to the farthest.
use count_buffy.Vec.Choice.{true_not_false}
use count_buffy.Prelude.{
  ℕ, zero, suc, ◌+◌, ◌%◌, ◌≤◌, ◌<◌, ◌≡◌, sym, ap, ◌∙◌, subst, ◌↔◌, ◌⊎◌, inl, inr, true, arith, ℤ,
  pos, Bool-cases, at_or_after, range, range_from,
}
use count_buffy.Z3.{Z3, ◌&&◌, num, Holds, true_holds, conj_iff, neg_iff, implies_iff, eq_iff}
use count_buffy.Vec.{Bv, bit}
use count_buffy.RoundRobin.{turn_transition, turn_rounds, turn_bufs}
use count_buffy.RoundRobin.Turn.{IsNext, Idle}
use count_buffy.RoundRobin.Service.{eq_num}
use count_buffy.Z3.{conj_loop_iff}

module _ ⦃z : Z3⦄ (m : z.Model) (bp : Bv) (i : ℕ) where
  -- All candidates nearer than `d` are idle.
  abbrev IdleBefore : ℕ → Type 0
  IdleBefore d = (e : ℕ) → 0 < e → e < d → Idle m bp turn_bufs i e

  -- The candidate at distance `d` is the first backlogged one.
  abbrev FirstAt : ℕ → Type 0
  FirstAt d = Holds m (bit bp ((i + d) % turn_bufs)) × IdleBefore d

  -- The turn as each of the implications asks for it.
  abbrev Asked : ℤ → Type 0
  Asked x =
      ((d : ℕ) → 0 < d → d < turn_bufs → FirstAt d → x ≡ pos ((i + d) % turn_bufs))
      × (IdleBefore turn_bufs → x ≡ pos i)

  module _ (s : z.IntExpr) where
    here_iff :
        (a : ℕ) (x : z.BoolExpr)
        → Holds m x ↔ IdleBefore a
        → Holds m (x && bit bp ((i + a) % turn_bufs)) ↔ FirstAt a
    here_iff a x e =
        let both = conj_iff m x (bit bp ((i + a) % turn_bufs)) in
        (λ h. ((both.0 h).1, e.0 (both.0 h).0), λ h. both.1 (e.1 h.1, h.0))

    next_iff :
        (a : ℕ) (x : z.BoolExpr)
        → 0 < a
        → Holds m x ↔ IdleBefore a
        → Holds m (x && z.neg (bit bp ((i + a) % turn_bufs))) ↔ IdleBefore (suc a)
    next_iff a x pos_a e =
        let both = conj_iff m x (z.neg (bit bp ((i + a) % turn_bufs))) in
        let off = neg_iff m (bit bp ((i + a) % turn_bufs)) in
        (
          λ h d lo hi. elim (at_or_after d a (omega arith)) [
            | inl same ↦ subst (Idle m bp turn_bufs i) (sym same) (off.0 (both.0 h).1)
            | inr less ↦ e.0 (both.0 h).0 d lo less
          ],
          λ h. both.1 (e.1 (λ d lo hi. h d lo (omega arith)), off.1 (h a pos_a (omega arith))),
        )

    turn_rounds_iff :
        (n a : ℕ) (x y : z.BoolExpr)
        → 0 < a
        → Holds m x ↔ IdleBefore a
        → Holds m (turn_rounds bp s i (range_from a n) x y) ↔ (
            Holds m y
            × ((d : ℕ) → a ≤ d → d < a + n → FirstAt d → z.value m s ≡ pos ((i + d) % turn_bufs))
            × (IdleBefore (a + n) → z.value m s ≡ pos i))
    unfolding turn_rounds
    turn_rounds_iff zero a x y pos_a e =
        let last = eq_num m bp s (IdleBefore a) x i e in
        let both = conj_iff m y (z.implies x (z.eq s (num i))) in
        let same : a + 0 ≡ a = omega arith in
        (
          λ h. (
            (both.0 h).0,
            (λ d lo hi. absurd (omega arith)),
            λ idle. last.0 (both.0 h).1 (rw same at idle),
          ),
          λ h. both.1 (h.0, last.1 (λ idle. h.2 (rw same idle))),
        )
    turn_rounds_iff (suc n) a x y pos_a e =
        let l = (i + a) % turn_bufs in
        let here = eq_num m bp s (FirstAt a) (x && bit bp l) l (here_iff a x e) in
        let both = conj_iff m y (z.implies (x && bit bp l) (z.eq s (num l))) in
        let rest =
          turn_rounds_iff n (suc a) (x && z.neg (bit bp l))
            (y && z.implies (x && bit bp l) (z.eq s (num l))) (omega arith)
            (next_iff a x pos_a e) in
        let same : suc a + n ≡ a + suc n = omega arith in
        (
          λ h.
              let (all, later, idle) = rest.0 h in
              (
                (both.0 all).0,
                (λ d lo hi. elim (at_or_after a d lo) [
                  | inl same ↦
                      subst (λ d. FirstAt d → z.value m s ≡ pos ((i + d) % turn_bufs)) same
                        (here.0 (both.0 all).1)
                  | inr more ↦ later d more (omega arith)
                ]),
                λ none_. idle (rw same none_),
              ),
          λ h. rest.1 (
            both.1 (h.0, here.1 (h.1 a (omega arith) (omega arith))),
            (λ d lo hi. h.1 d (omega arith) (omega arith)),
            (λ none_. h.2 (rw same at none_)),
          ),
        )

  first_or_idle : (n : ℕ) → ((d : ℕ) × (0 < d) × (d < suc n) × FirstAt d) ⊎ IdleBefore (suc n)
  first_or_idle zero = inr (λ e lo hi. absurd (omega arith))
  first_or_idle (suc n) = elim (first_or_idle n) [
    | inl (d, lo, hi, f) ↦ inl (d, lo, omega arith, f)
    | inr idle ↦ elim (Bool-cases (z.holds m (bit bp ((i + suc n) % turn_bufs)))) [
      | inl h ↦ inl (suc n, omega arith, omega arith, (h, idle))
      | inr h ↦ inr (λ e lo hi. elim (at_or_after e (suc n) (omega arith)) [
        | inl same ↦ subst (Idle m bp turn_bufs i) (sym same) h
        | inr less ↦ idle e lo less
      ])
    ]
  ]

  compared : (a b : ℕ) → (a ≡ b) ⊎ ((a < b) ⊎ (b < a))
  compared a b = ground arith

  same_turn_iff : (x : ℤ) → Asked x ↔ IsNext m bp turn_bufs i 0 x
  same_turn_iff x = (
    λ asked. elim (first_or_idle 4) [
      | inl (d, lo, hi, f) ↦ inl record {
        dist = d;
        beyond = lo;
        within = hi;
        found = asked.0 d lo hi f;
        busy = f.0;
        first = f.1;
      }
      | inr idle ↦ inr record { stays = asked.1 idle; others_idle = idle }
    ],
    λ next. elim next [
      | inl h ↦ (
        λ d lo hi f. elim (compared h.dist d) [
          | inl same ↦ h.found ∙ ap (λ d. pos ((i + d) % turn_bufs)) same
          | inr (inl less) ↦ absurd (true_not_false m h.busy (f.1 h.dist h.beyond less))
          | inr (inr more) ↦ absurd (true_not_false m f.0 (h.first d lo more))
        ],
        λ idle. absurd (true_not_false m h.busy (idle h.dist h.beyond h.within)),
      )
      | inr h ↦
          (λ d lo hi f. absurd (true_not_false m f.0 (h.others_idle d lo hi)), λ idle. h.stays)
    ],
  )

-- The constraints of `turn_transition` hold in a model exactly when, for each of the buffers that
-- may have the turn, a turn of this buffer is followed by the turn that the transition
-- constraints ask for as well: that of the nearest later backlogged buffer in the cyclic order,
-- or the same turn when no other buffer is backlogged.
pub turn_transition_iff :
    ⦃z : Z3⦄ (m : z.Model) (cur_b nxt_b : Bv) (cur_s nxt_s : z.IntExpr)
    → Holds m (turn_transition cur_b cur_s nxt_b nxt_s) ↔ (
        (i : ℕ)
        → i < turn_bufs
        → z.value m cur_s ≡ pos i
        → IsNext m nxt_b turn_bufs i 0 (z.value m nxt_s))
unfolding turn_transition
turn_transition_iff ⦃z⦄ m cur_b nxt_b cur_s nxt_s =
    let part = λ (i : ℕ).
      turn_rounds nxt_b nxt_s i (range 1 turn_bufs) (z.bool_val true) (z.bool_val true) in
    let all =
      conj_loop_iff m (λ i. z.implies (z.eq cur_s (num i)) (part i)) (z.bool_val true) 0
        turn_bufs in
    let each = λ (i : ℕ).
      turn_rounds_iff m nxt_b i nxt_s 4 1 (z.bool_val true) (z.bool_val true) (omega arith)
        ((λ _ e lo hi. absurd (omega arith)), (λ _. true_holds m)) in
    let cond = λ (i : ℕ). implies_iff m (z.eq cur_s (num i)) (part i) in
    let now = λ (i : ℕ). eq_iff m cur_s (num i) in
    let next = λ (i : ℕ). same_turn_iff m nxt_b i (z.value m nxt_s) in
    (
      λ h i b e.
          let got = (each i).0 (
            (cond i).0 ((all.0 h).1 i (omega arith) b)
              ((now i).1 (e ∙ sym (z.value-int_val m (pos i))))) in
          (next i).0 (got.1, got.2),
      λ h. all.1 (
        true_holds m,
        λ i lo b. (cond i).1 (λ c.
            let asked = (next i).1 (h i b ((now i).0 c ∙ z.value-int_val m (pos i))) in
            (each i).1 (true_holds m, asked.0, asked.1)),
      ),
    )
