-- ===== src/RateLimiter/Rate.antt =====
-- What every model of the rate limiter has: it serves at most one packet in two steps.
use count_buffy.Vec.Meaning.{value-sum}
use count_buffy.Buffer.Laws.{idle-left}
use count_buffy.Sts.Inputs.Exact.{inputs-IsRun}
use count_buffy.Buffer.{amount, IsRun, IsCounted}
use count_buffy.Sts.Inputs.Steps.{history, IsShaped}
use native.Mathlib.Numerals.{add-one}
use count_buffy.Prelude.{
  zero_diff, ◌≤ℤ◌, ◌+ℤ◌, zero, int_laws, parts, arith, sym, inr, inl, Bool-cases, ap, ◌-ℤ◌, ◌⊎◌,
  ◌+◌, Bool, ◌<◌, suc, ℕ, ◌≡◌, ◌∙◌, true, false, ℤ, pos,
}
use count_buffy.Z3.{Z3, Holds, ite_true, ite_false, eq_iff}
use count_buffy.Vec.{at, bit, row, sum}
use count_buffy.NamedExp.{of_expr, Sat}
use count_buffy.Sts.{Sts}
use count_buffy.Sts.Scheduler.{base_constrs}
use count_buffy.Sts.Scheduler.Steps.{
  base-inputs, base-output, row-get_buf_vec, base-step, at-get_bufs, bit-get_bits, base-init,
}
use count_buffy.RateLimiter.{num, trs, out, rate_limiter, init}

-- `ite(c, x == a, x == b)`, read off its branches.
module _ ⦃z : Z3⦄ (m : z.Model) (c : z.BoolExpr) (x a b : z.IntExpr) where
  choice_true : Holds m (z.ite c (z.eq x a) (z.eq x b)) → Holds m c → z.value m x ≡ z.value m a
  choice_true h t = (eq_iff m x a).0 ((ite_true m c (z.eq x a) (z.eq x b) t).0 h)

  choice_false :
      Holds m (z.ite c (z.eq x a) (z.eq x b)) → z.holds m c ≡ false → z.value m x ≡ z.value m b
  choice_false h t = (eq_iff m x b).0 ((ite_false m c (z.eq x a) (z.eq x b) t).0 h)

module _ ⦃z : Z3⦄ (m : z.Model) (sts : Sts)
    (base : Sat m (base_constrs rate_limiter sts tt).0) where
  -- The state and the backlog of step `t`.
  abbrev pub state : ℕ → ℤ
  state t = z.value m (at (row sts.S_int 0) t)

  abbrev pub served : ℕ → ℤ
  served t = z.value m (sum (row (row sts.O 0) t))

  state_first :
      (z.holds m (bit (row sts.B 0) 0) ≡ true → state 0 ≡ pos 1)
      × (z.holds m (bit (row sts.B 0) 0) ≡ false → state 0 ≡ pos 0)
  unfolding init of_expr
  state_first =
      let h =
        rw (bit-get_bits sts.B 0 0, at-get_bufs sts.S_int 0 0) at
          (base-init m rate_limiter sts tt base).0 in
      (
        λ t. choice_true m _ _ _ _ h t ∙ z.value-int_val m (pos 1),
        λ t. choice_false m _ _ _ _ h t ∙ z.value-int_val m (pos 0),
      )

  module _ (t : ℕ) (b : suc t < sts.timesteps) where
    abbrev next_busy : Bool
    next_busy = z.holds m (bit (row sts.B 0) (suc t))

    step_constraint : Holds m (
        z.ite
          (bit (row sts.B 0) (suc t))
          (z.eq (at (row sts.S_int 0) (suc t)) (z.sub (num 1) (at (row sts.S_int 0) t)))
          (z.eq (at (row sts.S_int 0) (suc t)) (at (row sts.S_int 0) t)))
    unfolding trs of_expr
    step_constraint =
        rw
          (
            bit-get_bits sts.B (t + 1) 0,
            at-get_bufs sts.S_int (t + 1) 0,
            at-get_bufs sts.S_int t 0,
            add-one t,
          )
          at ((base-step m rate_limiter sts tt base t b).1.0)

    state_flips : next_busy ≡ true → state (suc t) ≡ pos 1 -ℤ state t
    state_flips h =
        choice_true m _ _ _ _ step_constraint h
        ∙ z.value-sub m _ _
        ∙ ap (λ n. n -ℤ state t) (z.value-int_val m (pos 1))

    state_stays : next_busy ≡ false → state (suc t) ≡ state t
    state_stays h = choice_false m _ _ _ _ step_constraint h

  output_constraint :
      (t : ℕ)
      → t < sts.timesteps
      → Holds m (
          z.ite
            (z.eq (at (row sts.S_int 0) t) (num 1))
            (z.eq (sum (row (row sts.O 0) t)) (num 1))
            (z.eq (sum (row (row sts.O 0) t)) (num 0)))
  unfolding out of_expr
  output_constraint t b =
      rw (at-get_bufs sts.S_int t 0, row-get_buf_vec sts.O t 0) at
        ((base-output m rate_limiter sts tt base t b).1.0)

  two_values : (t : ℕ) → t < sts.timesteps → (state t ≡ pos 0) ⊎ (state t ≡ pos 1)
  two_values zero b = elim (Bool-cases (z.holds m (bit (row sts.B 0) 0))) [
    | inl h ↦ inr (state_first.0 h)
    | inr h ↦ inl (state_first.1 h)
  ]
  two_values (suc t) b = elim (Bool-cases (z.holds m (bit (row sts.B 0) (suc t)))) [
    | inl h ↦ elim (two_values t (omega arith)) [
      | inl e ↦ inr (state_flips t b h ∙ rw e (omega int_laws))
      | inr e ↦ inl (state_flips t b h ∙ rw e (omega int_laws))
    ]
    | inr h ↦ elim (two_values t (omega arith)) [
      | inl e ↦ inl (state_stays t b h ∙ e)
      | inr e ↦ inr (state_stays t b h ∙ e)
    ]
  ]

  not_one : (t : ℕ) → state t ≡ pos 0 → z.holds m (z.eq (at (row sts.S_int 0) t) (num 1)) ≡ false
  not_one t e = elim (Bool-cases (z.holds m (z.eq (at (row sts.S_int 0) t) (num 1)))) [
    | inl h ↦
        let one = sym e ∙ (eq_iff m _ _).0 h ∙ z.value-int_val m (pos 1) in
        absurd (let p = parts one in omega arith)
    | inr h ↦ h
  ]

  -- The state is 0 or 1, and as many packets are served.
  pub state-served :
      (t : ℕ)
      → t < sts.timesteps
      → ((state t ≡ pos 0) × (served t ≡ pos 0)) ⊎ ((state t ≡ pos 1) × (served t ≡ pos 1))
  state-served t b = elim (two_values t b) [
    | inl off ↦ inl (
      off,
      choice_false m _ _ _ _ (output_constraint t b) (not_one t off) ∙ z.value-int_val m (pos 0),
    )
    | inr on ↦ inr (
      on,
      choice_true m _ _ _ _ (output_constraint t b)
            ((eq_iff m _ _).1 (on ∙ sym (z.value-int_val m (pos 1))))
          ∙ z.value-int_val m (pos 1),
    )
  ]

  on_of_served : (t : ℕ) → t < sts.timesteps → served t ≡ pos 1 → state t ≡ pos 1
  on_of_served t b one = elim (state-served t b) [
    | inl (off, none_) ↦ let p = parts (sym none_ ∙ one) in absurd (omega arith)
    | inr (on, one') ↦ on
  ]

  served_of_on : (t : ℕ) → t < sts.timesteps → state t ≡ pos 1 → served t ≡ pos 1
  served_of_on t b on = elim (state-served t b) [
    | inl (off, none_) ↦ let p = parts (sym off ∙ on) in absurd (omega arith)
    | inr (on', one) ↦ one
  ]

  served_of_off : (t : ℕ) → t < sts.timesteps → state t ≡ pos 0 → served t ≡ pos 0
  served_of_off t b off = elim (state-served t b) [
    | inl (off', none_) ↦ none_
    | inr (on, one) ↦ let p = parts (sym off ∙ on) in absurd (omega arith)
  ]

  module _ (k : ℕ) (shaped : IsShaped sts 0 k) (buffers : 0 < sts.num_bufs)
      (counted : IsCounted (suc k) sts.timesteps (history m sts 0)) where
    run : (b : 0 < sts.timesteps) → IsRun sts.c (suc k) sts.timesteps (history m sts 0)
    run b =
        inputs-IsRun m sts 0 k shaped b counted (base-inputs m rate_limiter sts tt base 0 buffers)

    -- A packet is served only from a backlogged buffer.
    served-busy :
        (t : ℕ) → t < sts.timesteps → served t ≡ pos 1 → z.holds m (bit (row sts.B 0) t) ≡ true
    unfolding amount
    served-busy t b one = elim (Bool-cases (z.holds m (bit (row sts.B 0) t))) [
      | inl h ↦ h
      | inr idle ↦
          let none_left =
            idle-left sts.c (suc k) sts.timesteps (history m sts 0) (run (omega arith)) counted t b
              idle in
          let same = parts (sym (value-sum m (row (row sts.O 0) t) k (shaped.shape_O t b)) ∙ one) in
          absurd (omega arith)
    ]

    -- In a model of the rate limiter's base constraints, whose buffer's vectors have full size
    -- and no negative quantity, a step that serves a packet is followed by a step in which the
    -- buffer is backlogged.
    pub service-busy :
        (t : ℕ)
        → suc t < sts.timesteps
        → served t ≡ pos 1
        → z.holds m (bit (row sts.B 0) (suc t)) ≡ true
    service-busy t b one = elim (Bool-cases (z.holds m (bit (row sts.B 0) (suc t)))) [
      | inl h ↦ h
      | inr idle ↦
          let on = on_of_served t (omega arith) one in
          served-busy (suc t) b (served_of_on (suc t) b (state_stays t b idle ∙ on))
    ]

    -- In a model of the rate limiter's base constraints, whose buffer's vectors have full size
    -- and no negative quantity, two steps in a row serve at most one packet together.
    pub served_twice : (t : ℕ) → suc t < sts.timesteps → served t +ℤ served (suc t) ≤ℤ pos 1
    served_twice t b = elim (state-served t (omega arith)) [
      | inl (off, none_) ↦ elim (state-served (suc t) b) [
        | inl (off', none') ↦ rw (none_, none') (omega int_laws)
        | inr (on', one') ↦ rw (none_, one') (omega int_laws)
      ]
      | inr (on, one) ↦
          let off' = state_flips t b (service-busy t b one) ∙ rw on (zero_diff (pos 1)) in
          rw (one, served_of_off (suc t) b off') (omega int_laws)
    ]
