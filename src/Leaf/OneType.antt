-- ===== src/Leaf/OneType.antt =====
-- `valid_meta` of src/leaf_spine/leaf_utils.cpp: a step brings packets of one type at most, so that
-- their destination is that type's.
use count_buffy.Prelude.{
  ℕ, zero, suc, ◌+◌, ◌-◌, ◌≤◌, ◌<◌, ◌≡◌, sym, subst, ◌≢◌, ◌↔◌, ◌⊎◌, inl, inr, true, arith, pos,
  ◌≤ℤ◌, Bool-cases, length, at_or_after, range, range_from, loop, ◌==◌, if◌then◌else◌,
}
use count_buffy.Z3.{Z3, ◌&&◌, num, Holds, true_holds, conj_iff, eq_iff, ite_true, ite_false}
use count_buffy.Vec.{Ev, Ev3, at, row}
use count_buffy.Workload.{valid_meta}
use count_buffy.Vec.Meaning.{val}
use count_buffy.Vec.Choice.{true_not_false}
use count_buffy.Z3.{rounds_iff, conj_loop_iff, lt_iff}

module _ ⦃z : Z3⦄ (m : z.Model) (v : Ev) where
  -- Packets of type `p` arrive.
  abbrev pub Arrives : ℕ → Type 0
  Arrives p = ¬ (val m v p ≤ℤ pos 0)

  abbrev pub OthersEmpty : ℕ → Type 0
  OthersEmpty p = (j : ℕ) → j < length v → j ≢ p → val m v j ≡ pos 0

  empty-no_packets : (p : ℕ) → val m v p ≡ pos 0 → ¬ Arrives p
  empty-no_packets p e some_p = some_p (subst (λ x. x ≤ℤ pos 0) (sym e) (omega arith))

  abbrev skip : ℕ → z.BoolExpr → ℕ → z.BoolExpr
  skip p e j = if p == j then e else (e && z.eq (at v j) (num 0))

  skip-same : (p j : ℕ) (e : z.BoolExpr) → p ≡ j → skip p e j ≡ e
  skip-same p j e h = ground arith

  skip-other : (p j : ℕ) (e : z.BoolExpr) → p ≢ j → skip p e j ≡ (e && z.eq (at v j) (num 0))
  skip-other p j e h = ground arith

  same_or_other : (p j : ℕ) → (p ≡ j) ⊎ (p ≢ j)
  same_or_other p j = ground arith

  zero_iff : (j : ℕ) → Holds m (z.eq (at v j) (num 0)) ↔ (val m v j ≡ pos 0)
  zero_iff j = rw (z.value-int_val m (pos 0)) at (eq_iff m (at v j) (num 0))

  packets_iff : (p : ℕ) → Holds m (z.lt (num 0) (at v p)) ↔ Arrives p
  packets_iff p = rw (z.value-int_val m (pos 0)) at (lt_iff m (num 0) (at v p))

  skip_iff :
      (p : ℕ) (e : z.BoolExpr) (j : ℕ)
      → Holds m (skip p e j) ↔ (Holds m e × (j ≢ p → val m v j ≡ pos 0))
  skip_iff p e j = elim (same_or_other p j) [
    | inl same ↦
        let q = skip-same p j e same in
        (
          λ h. (subst (Holds m) q h, λ other. absurd (other (sym same))),
          λ h. subst (Holds m) (sym q) h.0,
        )
    | inr other ↦
        let q = skip-other p j e other in
        let both = conj_iff m e (z.eq (at v j) (num 0)) in
        (
          λ h. let (k, eq) = both.0 (subst (Holds m) q h) in (k, λ _. (zero_iff j).0 eq),
          λ h. subst (Holds m) (sym q) (both.1 (h.0, (zero_iff j).1 (h.1 (λ e. other (sym e))))),
        )
  ]

  abbrev others_empty : ℕ → z.BoolExpr
  others_empty p = loop (skip p) (z.bool_val true) (range 0 (length v))

  others_empty_iff : (p : ℕ) → Holds m (others_empty p) ↔ OthersEmpty p
  others_empty_iff p =
      let e =
        rounds_iff m (skip p) (λ j. j ≢ p → val m v j ≡ pos 0) (skip_iff p) (length v - 0) 0
          (z.bool_val true) in
      (
        λ h j b other. (e.0 h).1 j (omega arith) (omega arith) other,
        λ h. e.1 (true_holds m, λ j lo hi other. h j (omega arith) other),
      )

  abbrev choose : z.BoolExpr → ℕ → z.BoolExpr
  choose e p = z.ite (z.lt (num 0) (at v p)) (others_empty p) e

  -- One of the types from `a` to `b - 1` is the only one with packets.
  abbrev OneIn : ℕ → ℕ → Type 0
  OneIn a b = (p : ℕ) × (a ≤ p) × (p < b) × Arrives p × OthersEmpty p

  abbrev NoneIn : ℕ → ℕ → Type 0
  NoneIn a b = (p : ℕ) → a ≤ p → p < b → ¬ Arrives p

  choose_iff :
      (n a : ℕ) (e : z.BoolExpr)
      → a + n ≤ length v
      → Holds m (loop choose e (range_from a n))
        ↔ (OneIn a (a + n) ⊎ (NoneIn a (a + n) × Holds m e))
  choose_iff zero a e size = (
    λ h. inr ((λ p lo hi. absurd (omega arith)), h),
    λ h. elim h [ inl (p, lo, hi, some_p, others) ↦ absurd (omega arith) | inr (none_, h) ↦ h ],
  )
  choose_iff (suc n) a e size =
      let rest = choose_iff n (suc a) (choose e a) (omega arith) in
      let c = z.lt (num 0) (at v a) in
      elim (Bool-cases (z.holds m c)) [
        | inl on ↦
            let here = ite_true m c (others_empty a) e on in
            (
              λ h. elim (rest.0 h) [
                | inl (p, lo, hi, some_p, others) ↦
                    inl (p, omega arith, omega arith, some_p, others)
                | inr (none_, k) ↦ inl (
                  a,
                  omega arith,
                  omega arith,
                  (packets_iff a).0 on,
                  (others_empty_iff a).0 (here.0 k),
                )
              ],
              λ h. elim h [
                | inl (p, lo, hi, some_p, others) ↦ elim (at_or_after a p lo) [
                  | inl same ↦ rest.1 (
                      inr (
                        (λ q lo' hi'.
                            empty-no_packets q
                              (others q (omega arith) (λ e. absurd (omega arith)))),
                        here.1 ((others_empty_iff a).1 (subst OthersEmpty (sym same) others)),
                      ))
                  | inr more ↦ rest.1 (inl (p, more, omega arith, some_p, others))
                ]
                | inr (none_, k) ↦
                    absurd (none_ a (omega arith) (omega arith) ((packets_iff a).0 on))
              ],
            )
        | inr off ↦
            let here = ite_false m c (others_empty a) e off in
            let none_a = λ (some_a : Arrives a).
              let on = (packets_iff a).1 some_a in true_not_false m on off in
            (
              λ h. elim (rest.0 h) [
                | inl (p, lo, hi, some_p, others) ↦
                    inl (p, omega arith, omega arith, some_p, others)
                | inr (none_, k) ↦ inr (
                  (λ p lo hi. elim (at_or_after a p lo) [
                    | inl same ↦ subst (λ p. ¬ Arrives p) same none_a
                    | inr more ↦ none_ p more (omega arith)
                  ]),
                  here.0 k,
                )
              ],
              λ h. elim h [
                | inl (p, lo, hi, some_p, others) ↦ elim (at_or_after a p lo) [
                  | inl same ↦ absurd (none_a (subst Arrives (sym same) some_p))
                  | inr more ↦ rest.1 (inl (p, more, omega arith, some_p, others))
                ]
                | inr (none_, k) ↦
                    rest.1 (inr ((λ p lo hi. none_ p (omega arith) (omega arith)), here.1 k))
              ],
            )
      ]

-- The constraint `valid_meta` on a buffer's input in a step holds in a model exactly when packets
-- of one type arrive and the count of every other type is 0, or the count of every type is 0.
pub valid_meta_iff :
    ⦃z : Z3⦄ (m : z.Model) (i : Ev3) (buf_idx time_idx : ℕ)
    → Holds m (valid_meta i buf_idx time_idx) ↔ (
        ((p : ℕ) × (p < length (row (row i buf_idx) time_idx))
          × Arrives m (row (row i buf_idx) time_idx) p
          × OthersEmpty m (row (row i buf_idx) time_idx) p)
        ⊎ ((j : ℕ)
            → j < length (row (row i buf_idx) time_idx)
            → val m (row (row i buf_idx) time_idx) j ≡ pos 0))
unfolding valid_meta
valid_meta_iff ⦃z⦄ m i buf_idx time_idx =
    let v = row (row i buf_idx) time_idx in
    let n = length v in
    let all = conj_loop_iff m (λ j. z.eq (at v j) (num 0)) (z.bool_val true) 0 n in
    let chosen =
      choose_iff m v (n - 0) 0
        (loop (λ e j. e && z.eq (at v j) (num 0)) (z.bool_val true) (range 0 n)) (omega arith) in
    (
      λ h. elim (chosen.0 h) [
        | inl (p, lo, hi, some_p, others) ↦ inl (p, omega arith, some_p, others)
        | inr (none_, k) ↦ inr (λ j b. (zero_iff m v j).0 ((all.0 k).1 j (omega arith) b))
      ],
      λ h. elim h [
        | inl (p, b, some_p, others) ↦ chosen.1 (inl (p, omega arith, omega arith, some_p, others))
        | inr none_ ↦ chosen.1 (
            inr (
              (λ p lo hi some_p. let e = none_ p (omega arith) in empty-no_packets m v p e some_p),
              all.1 (true_holds m, λ j lo b. (zero_iff m v j).1 (none_ j b)),
            ))
      ],
    )
