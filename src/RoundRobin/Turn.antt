-- ===== src/RoundRobin/Turn.antt =====
-- Whose turn is next: what `RRChecker::trs` asks of the turn, in a model.
use count_buffy.Prelude.{
  ℕ, zero, suc, ◌+◌, ◌-◌, ◌%◌, ◌<◌, ◌≡◌, sym, ap, ◌∙◌, subst, ◌⊎◌, inl, inr, true, false, arith, ℤ,
  pos, Bool-cases, at_or_after, range_from, loop,
}
use count_buffy.Z3.{Z3, num, Holds, implies_iff, eq_iff}
use count_buffy.Vec.{Ev, Bv, at, bit}
use count_buffy.NamedExp.{of_expr, Sat}
use count_buffy.Sts.{Sts}
use count_buffy.Prelude.{
  ℕ, zero, suc, ◌+◌, ◌-◌, ◌%◌, ◌<◌, ◌≡◌, sym, ap, ◌∙◌, subst, ◌⊎◌, inl, inr, true, false, arith, ℤ,
  pos, Bool-cases, at_or_after, range_from, loop,
}
use count_buffy.Z3.{Z3, num, Holds, implies_iff, eq_iff}
use count_buffy.Vec.{Ev, Bv, at, bit}
use count_buffy.NamedExp.{of_expr, Sat}
use count_buffy.Sts.{Sts}
use count_buffy.RoundRobin.{trs, next_turn}
use count_buffy.Z3.{conj_loop_iff}
use count_buffy.RoundRobin.{trs, next_turn}
use count_buffy.Z3.{conj_loop_iff}

module _ ⦃z : Z3⦄ (m : z.Model) where
  -- The buffer `d` places after buffer `i`, of `n`.
  abbrev pub Idle : Bv → ℕ → ℕ → ℕ → Type 0
  Idle bp n i d = z.holds m (bit bp ((i + d) % n)) ≡ false

  -- `x` is the nearest backlogged buffer after `i`, at a distance beyond `near`.
  pub record IsNearest (bp : Bv) (n i near : ℕ) (x : ℤ) : Type 0 where
    pub dist : ℕ
    pub beyond : near < dist
    pub within : dist < n
    pub found : x ≡ pos ((i + dist) % n)
    pub busy : Holds m (bit bp ((i + dist) % n))
    pub first : (d : ℕ) → near < d → d < dist → Idle bp n i d

  -- No other buffer is backlogged, and the turn stays.
  pub record IsAlone (bp : Bv) (n i near : ℕ) (x : ℤ) : Type 0 where
    pub stays : x ≡ pos i
    pub others_idle : (d : ℕ) → near < d → d < n → Idle bp n i d

  abbrev pub IsNext : Bv → ℕ → ℕ → ℕ → ℤ → Type 0
  IsNext bp n i near x = IsNearest bp n i near x ⊎ IsAlone bp n i near x

  -- One place nearer, when that place's buffer is idle.
  nearer :
      (bp : Bv) (n i near : ℕ) (x : ℤ)
      → Idle bp n i (suc near)
      → IsNext bp n i (suc near) x
      → IsNext bp n i near x
  nearer bp n i near x idle next = elim next [
    | inl h ↦ inl record {
      dist = h.dist;
      beyond = let b = h.beyond in omega arith;
      within = h.within;
      found = h.found;
      busy = h.busy;
      first = λ d lo hi. elim (at_or_after (suc near) d (omega arith)) [
        | inl same ↦ subst (Idle bp n i) same idle
        | inr more ↦ h.first d (omega arith) hi
      ];
    }
    | inr h ↦ inr record {
      stays = h.stays;
      others_idle = λ d lo hi. elim (at_or_after (suc near) d (omega arith)) [
        | inl same ↦ subst (Idle bp n i) same idle
        | inr more ↦ h.others_idle d (omega arith) hi
      ];
    }
  ]

  module _ (bp : Bv) (n i : ℕ) where
    abbrev body : z.IntExpr → ℕ → z.IntExpr
    body x j = z.ite_int (bit bp ((i + n - j) % n)) (num ((i + n - j) % n)) x

    -- The round of the candidate `suc near` places after `i`.
    body-IsNext :
        (a near : ℕ) (x : z.IntExpr)
        → a + suc near ≡ n
        → 0 < a
        → IsNext bp n i (suc near) (z.value m x)
        → IsNext bp n i near (z.value m (body x a))
    body-IsNext a near x e pos_a h =
        let place : i + n - a ≡ i + suc near = omega arith in
        let val = z.value-ite_int m (bit bp ((i + n - a) % n)) (num ((i + n - a) % n)) x in
        elim (Bool-cases (z.holds m (bit bp ((i + n - a) % n)))) [
          | inl on ↦ inl record {
            dist = suc near;
            beyond = omega arith;
            within = omega arith;
            found = (rw on at val) ∙ z.value-int_val m _ ∙ ap (λ j. pos (j % n)) place;
            busy = rw place at on;
            first = λ d lo hi. absurd (omega arith);
          }
          | inr off ↦
              let same : z.value m (body x a) ≡ z.value m x = rw off at val in
              rw same (nearer bp n i near (z.value m x) (rw place at off) h)
        ]

    loop-IsNext :
        (count a : ℕ) (x : z.IntExpr)
        → a + count ≡ n
        → 0 < a
        → IsNext bp n i count (z.value m x)
        → IsNext bp n i 0 (z.value m (loop body x (range_from a count)))
    loop-IsNext zero a x e pos_a h = h
    loop-IsNext (suc count) a x e pos_a h =
        loop-IsNext count (suc a) (body x a) (omega arith) (omega arith)
          (body-IsNext a count x e pos_a h)

    pub next_turn-IsNext : 0 < n → IsNext bp n i 0 (z.value m (next_turn n bp i))
    unfolding next_turn
    next_turn-IsNext some_n = loop-IsNext (n - 1) 1 (num i) (omega arith) (omega arith) (
        inr record {
          stays = z.value-int_val m (pos i);
          others_idle = λ d lo hi. absurd (omega arith);
        })

  -- In a model of the transition constraints, when the turn is buffer `i`'s, the next turn is the
  -- nearest buffer after `i`, going round, that is backlogged in the next step; it stays with `i`
  -- when no other buffer is.
  pub trs-IsNext :
      (sts : Sts) (b : Bv) (s : Ev) (bp : Bv) (sp : Ev) (tp i : ℕ)
      → i < sts.num_bufs
      → Sat m (trs sts b s bp sp tp)
      → z.value m (at s 0) ≡ pos i
      → IsNext bp sts.num_bufs i 0 (z.value m (at sp 0))
  unfolding trs of_expr
  trs-IsNext sts b s bp sp tp i ib h now =
      let step = λ (i : ℕ).
        z.implies (z.eq (at s 0) (num i)) (z.eq (at sp 0) (next_turn sts.num_bufs bp i)) in
      let each = (conj_loop_iff m step (z.bool_val true) 0 sts.num_bufs).0 h.0 in
      let cond =
        implies_iff m (z.eq (at s 0) (num i)) (z.eq (at sp 0) (next_turn sts.num_bufs bp i)) in
      let value = (eq_iff m _ _).0 (
        cond.0 (each.1 i (omega arith) ib)
          ((eq_iff m _ _).1 (now ∙ sym (z.value-int_val m (pos i))))) in
      rw value (next_turn-IsNext bp sts.num_bufs i (omega arith))
