-- ===== src/Prio/Service.antt =====
-- What `PrioSTS::out` asks of the packets served in a step.
use count_buffy.Vec.Choice.{true_not_false, one_or_none_iff}
use count_buffy.Vec.First.{
  only-IsFirst, IsFirst-iff, IsFirst-before, NoneBefore-next, NoneBefore, IsFirst,
}
use count_buffy.Prelude.{
  total_single, total_zeros, total, ℕ, zero, suc, ◌+◌, ◌-◌, ◌≤◌, ◌<◌, ◌≡◌, subst, ◌↔◌, inl, inr,
  true, arith, pos, at_or_after, range_from,
}
use count_buffy.Z3.{Z3, ◌&&◌, Holds, true_holds, conj_iff}
use count_buffy.Vec.{Ev, Ev2, Bv, bit, row, sum, sum_eq}
use count_buffy.NamedExp.{of_expr, Sat}
use count_buffy.Sts.{Sts}
use count_buffy.Prio.{out, out_rounds}

module _ ⦃z : Z3⦄ (m : z.Model) where
  -- Buffer `i` serves one packet when it is the first backlogged one, and none otherwise.
  abbrev pub Serves : Bv → Ev2 → ℕ → Type 0
  Serves bv ov i =
      (IsFirst m bv i → z.value m (sum (row ov i)) ≡ pos 1)
      × (¬ IsFirst m bv i → z.value m (sum (row ov i)) ≡ pos 0)

  module _ (bv : Bv) (ov : Ev2) where
    round_iff :
        (a : ℕ) (not_until : z.BoolExpr)
        → Holds m not_until ↔ NoneBefore m bv a
        → Holds m
            (z.ite (not_until && bit bv a) (sum_eq (row ov a) (pos 1)) (sum_eq (row ov a) (pos 0)))
          ↔ Serves bv ov a
    round_iff a nu e =
        one_or_none_iff m (IsFirst m bv a) (nu && bit bv a) (row ov a) (IsFirst-iff m bv a nu e)

    out_rounds_iff :
        (n a : ℕ) (res not_until : z.BoolExpr)
        → Holds m not_until ↔ NoneBefore m bv a
        → Sat m (out_rounds bv ov (range_from a n) res not_until)
          ↔ ((0 < n → Holds m res) × ((i : ℕ) → a ≤ i → i < a + n → Serves bv ov i))
    unfolding out_rounds of_expr
    out_rounds_iff zero a res nu e =
        (λ _. (λ b. absurd (omega arith), λ i lo hi. absurd (omega arith)), λ _. tt)
    out_rounds_iff (suc n) a res nu e =
        let serve =
          z.ite (nu && bit bv a) (sum_eq (row ov a) (pos 1)) (sum_eq (row ov a) (pos 0)) in
        let both = conj_iff m res serve in
        let here = round_iff a nu e in
        let rest =
          out_rounds_iff n (suc a) (res && serve) (nu && z.neg (bit bv a))
            (NoneBefore-next m bv a nu e) in
        (
          λ h. (
            λ _. (both.0 h.0).0,
            λ i lo hi. elim (at_or_after a i lo) [
              | inl same ↦ subst (Serves bv ov) same (here.0 (both.0 h.0).1)
              | inr more ↦ (rest.0 h.1).1 i more (omega arith)
            ],
          ),
          λ h.
              let now = both.1 (h.0 (omega arith), here.1 (h.1 a (omega arith) (omega arith))) in
              (now, rest.1 ((λ _. now), (λ i lo hi. h.1 i (omega arith) (omega arith)))),
        )

  -- A model satisfies the priority scheduler's constraints on the outputs of a step exactly when
  -- the first backlogged buffer serves one packet and every other buffer serves none.
  pub first_served_iff :
      (sts : Sts) (bv : Bv) (sv : Ev) (ov : Ev2) (t : ℕ)
      → Sat m (out sts bv sv ov t) ↔ ((i : ℕ) → i < sts.num_bufs → Serves bv ov i)
  unfolding out
  first_served_iff sts bv sv ov t =
      let rounds =
        out_rounds_iff bv ov (sts.num_bufs - 0) 0 (z.bool_val true) (z.bool_val true)
          ((λ _ j b. absurd (omega arith)), (λ _. true_holds m)) in
      (
        λ h i b. (rounds.0 h).1 i (omega arith) (omega arith),
        λ h. rounds.1 ((λ _. true_holds m), (λ i lo hi. h i (omega arith))),
      )

  -- In a model of the priority scheduler's constraints on the outputs of a step, one packet is
  -- served in all when some buffer is backlogged, and none when no buffer is.
  pub out-total :
      (sts : Sts) (bv : Bv) (sv : Ev) (ov : Ev2) (t : ℕ)
      → Sat m (out sts bv sv ov t)
      → ((i : ℕ)
          → i < sts.num_bufs
          → Holds m (bit bv i)
          → total sts.num_bufs (λ j. z.value m (sum (row ov j))) ≡ pos 1)
        × (NoneBefore m bv sts.num_bufs
            → total sts.num_bufs (λ j. z.value m (sum (row ov j))) ≡ pos 0)
  out-total sts bv sv ov t h =
      let serves = (first_served_iff sts bv sv ov t).0 h in
      (
        λ i b busy. elim (IsFirst-before m bv sts.num_bufs) [
          | inl (first, fb, f) ↦
              total_single sts.num_bufs first _ (pos 1) fb ((serves first fb).0 f)
                (λ p pb other. (serves p pb).1 (only-IsFirst m bv first p f other))
          | inr idle ↦ let off = idle i b in absurd (true_not_false m busy off)
        ],
        λ idle.
            total_zeros sts.num_bufs _
              (λ p pb. (serves p pb).1 (λ f. let off = idle p pb in true_not_false m f.busy off)),
      )
