-- ===== src/Workload/Gaps.antt =====
-- What the `aipg` metric measures at a step: in a burst, in a step without packets, and else the
-- distance to the nearest step with packets (`get_aipgs_for_buf` of src/gen/constr_extractor.cpp).
use count_buffy.Vec.Choice.{true_not_false}
use count_buffy.Prelude.{
  int_laws, ℤ, ◌∷◌, sym, ◌-◌, ℕ, zero, suc, ◌+◌, ◌≤◌, ◌<◌, ◌≡◌, refl, ◌∙◌, subst, ◌↔◌, ◌⊎◌, inl,
  inr, arith, pos, ◌≤ℤ◌, Bool-cases, length, at_or_after, range_from, loop,
}
use count_buffy.Z3.{Z3, num, Holds}
use count_buffy.Vec.{Ev, at}
use count_buffy.Workload.{nearest, aipg_rounds, get_aipgs_for_buf}
use count_buffy.Z3.{lt_iff, le_iff}
use count_buffy.Vec.Meaning.{val}
use count_buffy.Prelude.{down_from}

at_most_one : (v : ℤ) → v ≤ℤ pos 0 → v ≤ℤ pos 1
at_most_one v h = omega (int_laws, h)

one_not_none : ¬ (pos 1 ≤ℤ pos 0)
one_not_none h = absurd (omega arith)

module _ ⦃z : Z3⦄ (m : z.Model) (it : Ev) where
  -- Packets arrive at step `t`.
  abbrev pub Arrives : ℕ → Type 0
  Arrives t = ¬ (val m it t ≤ℤ pos 0)

  packets_iff : (t : ℕ) → Holds m (z.lt (num 0) (at it t)) ↔ Arrives t
  packets_iff t = rw (z.value-int_val m (pos 0)) at (lt_iff m (num 0) (at it t))

  -- One round: the distance `d` replaces what was found, when packets arrive at `t`.
  abbrev body : (ℕ → ℕ) → z.IntExpr → ℕ → z.IntExpr
  body d v t = z.ite_int (z.lt (num 0) (at it t)) (num (d t)) v

  body-value :
      (d : ℕ → ℕ) (v : z.IntExpr) (t : ℕ)
      → (Arrives t × (z.value m (body d v t) ≡ pos (d t)))
        ⊎ ((¬ Arrives t) × (z.value m (body d v t) ≡ z.value m v))
  body-value d v t = elim (Bool-cases (z.holds m (z.lt (num 0) (at it t)))) [
    | inl on ↦ inl (
      (packets_iff t).0 on,
      (rw on at (z.value-ite_int m (z.lt (num 0) (at it t)) (num (d t)) v))
          ∙ z.value-int_val m (pos (d t)),
    )
    | inr off ↦ inr (
      (λ h. let on = (packets_iff t).1 h in true_not_false m on off),
      rw off at (z.value-ite_int m (z.lt (num 0) (at it t)) (num (d t)) v),
    )
  ]

  -- The last step with packets among `a`, …, `a + n - 1` stands.
  abbrev pub LastIn : ℕ → ℕ → ℕ → Type 0
  LastIn a b t = (a ≤ t) × (t < b) × Arrives t × ((s : ℕ) → t < s → s < b → ¬ Arrives s)

  abbrev pub NoneIn : ℕ → ℕ → Type 0
  NoneIn a b = (s : ℕ) → a ≤ s → s < b → ¬ Arrives s

  up-value :
      (d : ℕ → ℕ) (n a : ℕ) (v : z.IntExpr)
      → ((t : ℕ) × LastIn a (a + n) t × (z.value m (loop (body d) v (range_from a n)) ≡ pos (d t)))
        ⊎ (NoneIn a (a + n) × (z.value m (loop (body d) v (range_from a n)) ≡ z.value m v))
  up-value d zero a v = inr ((λ s lo hi. absurd (omega arith)), refl)
  up-value d (suc n) a v = elim (up-value d n (suc a) (body d v a)) [
    | inl (t, last, e) ↦
        inl (t, (omega arith, omega arith, last.2, (λ s lo hi. last.3 s lo (omega arith))), e)
    | inr (none_, e) ↦ elim (body-value d v a) [
      | inl (on, e') ↦
          inl (a, (omega arith, omega arith, on, (λ s lo hi. none_ s lo (omega arith))), e ∙ e')
      | inr (off, e') ↦ inr (
        (λ s lo hi. elim (at_or_after a s lo) [
          | inl same ↦ subst (λ t. ¬ Arrives t) same off
          | inr more ↦ none_ s more (omega arith)
        ]),
        e ∙ e',
      )
    ]
  ]

  -- Going down from `b - 1` to `a`, the first step with packets stands.
  abbrev pub FirstIn : ℕ → ℕ → ℕ → Type 0
  FirstIn a b t = (a ≤ t) × (t < b) × Arrives t × ((s : ℕ) → a ≤ s → s < t → ¬ Arrives s)

  down-value :
      (d : ℕ → ℕ) (n a top : ℕ) (v : z.IntExpr)
      → a + n ≡ suc top
      → 0 < a
      → ((t : ℕ) × FirstIn a (suc top) t
          × (z.value m (loop (body d) v (down_from top n)) ≡ pos (d t)))
        ⊎ (NoneIn a (suc top) × (z.value m (loop (body d) v (down_from top n)) ≡ z.value m v))
  down-value d zero a top v e b = inr ((λ s lo hi. absurd (omega arith)), refl)
  down-value d (suc n) a top v e b =
      elim (down-value d n a (top - 1) (body d v top) (omega arith) b) [
        | inl (t, first, e') ↦
            let hi = first.1 in inl (t, (first.0, omega arith, first.2, first.3), e')
        | inr (none_, e') ↦ elim (body-value d v top) [
          | inl (on, e'') ↦
              inl (
                top,
                (omega arith, omega arith, on, (λ s lo hi. none_ s lo (omega arith))),
                e' ∙ e'',
              )
          | inr (off, e'') ↦ inr (
            (λ s lo hi. elim (at_or_after s top (omega arith)) [
              | inl same ↦ subst (λ t. ¬ Arrives t) (sym same) off
              | inr less ↦ none_ s lo (omega arith)
            ]),
            e' ∙ e'',
          )
        ]
      ]

  -- The distance `n` from step `t1`: to the last earlier step with packets, or when there is none to
  -- the first later one, or when there is none either the length of the time.
  abbrev pub IsGap : ℕ → ℤ → Type 0
  IsGap t1 n =
      ((t2 : ℕ) × LastIn 0 t1 t2 × (n ≡ pos (t1 - t2)))
      ⊎ (NoneIn 0 t1
          × (((t2 : ℕ) × FirstIn (suc t1) (length it) t2 × (n ≡ pos (t2 - t1)))
              ⊎ (NoneIn (suc t1) (length it) × (n ≡ pos (length it)))))

  pub nearest-IsGap : (t1 : ℕ) → 0 < t1 → t1 < length it → IsGap t1 (z.value m (nearest it t1))
  unfolding nearest
  nearest-IsGap t1 lo hi =
      let total_time = length it in
      let v = num total_time in
      let later =
        loop (body (λ t2. t2 - t1)) v (down_from (total_time - 1) (total_time - 1 - t1)) in
      elim (up-value (λ t2. t1 - t2) (t1 - 0) 0 later) [
        | inl (t2, last, e) ↦
            let hi' = last.1 in
            inl (t2, (last.0, omega arith, last.2, (λ s lo hi. last.3 s lo (omega arith))), e)
        | inr (none_, e) ↦ inr (
          (λ s lo hi. none_ s lo (omega arith)),
          elim (down-value (λ t2. t2 - t1) (total_time - 1 - t1) (suc t1) (total_time - 1) v
              (omega arith) (omega arith)) [
                | inl (t2, first, e') ↦
                    let hi' = first.1 in inl (t2, (first.0, omega arith, first.2, first.3), e ∙ e')
                | inr (none', e') ↦ inr (
                  (λ s lo hi. none' s lo (omega arith)),
                  e ∙ e' ∙ z.value-int_val m (pos total_time),
                )
              ],
        )
      ]

  -- The value of the round for step `t1` after the value `prev`.
  abbrev IsMeasured : ℕ → ℤ → ℤ → Type 0
  IsMeasured t1 prev n =
      (¬ (val m it t1 ≤ℤ pos 1) → n ≡ pos 0)
      × (val m it t1 ≤ℤ pos 0 → n ≡ prev)
      × (val m it t1 ≡ pos 1 → IsGap t1 n)

  abbrev round : z.IntExpr → ℕ → z.IntExpr
  round prev t1 =
      z.ite_int (z.lt (num 1) (at it t1)) (num 0)
        (z.ite_int (z.le (at it t1) (num 0)) prev (nearest it t1))

  round-IsMeasured :
      (prev : z.IntExpr) (t1 : ℕ)
      → 0 < t1
      → t1 < length it
      → IsMeasured t1 (z.value m prev) (z.value m (round prev t1))
  round-IsMeasured prev t1 lo hi =
      let v = val m it t1 in
      let burst = z.lt (num 1) (at it t1) in
      let idle = z.le (at it t1) (num 0) in
      let rest = z.ite_int idle prev (nearest it t1) in
      let bursts : Holds m burst ↔ (¬ (v ≤ℤ pos 1)) =
        rw (z.value-int_val m (pos 1)) at (lt_iff m (num 1) (at it t1)) in
      let idles : Holds m idle ↔ (v ≤ℤ pos 0) =
        rw (z.value-int_val m (pos 0)) at (le_iff m (at it t1) (num 0)) in
      let outer = z.value-ite_int m burst (num 0) rest in
      let inner = z.value-ite_int m idle prev (nearest it t1) in
      elim (Bool-cases (z.holds m burst)) [
        | inl on ↦
            let many = bursts.0 on in
            (
              λ _. (rw on at outer) ∙ z.value-int_val m (pos 0),
              λ none_. absurd (many (at_most_one v none_)),
              λ one. absurd (many (subst (λ n. n ≤ℤ pos 1) (sym one) (omega arith))),
            )
        | inr off ↦ (
          λ many. absurd (true_not_false m (bursts.1 many) off),
          λ none_. (rw off at outer) ∙ (rw (idles.1 none_) at inner),
          λ one. elim (Bool-cases (z.holds m idle)) [
            | inl on ↦ absurd (one_not_none (subst (λ n. n ≤ℤ pos 0) one (idles.0 on)))
            | inr off' ↦
                subst (IsGap t1) (sym ((rw off at outer) ∙ (rw off' at inner)))
                  (nearest-IsGap t1 lo hi)
          ],
        )
      ]

  aipg_rounds-IsMeasured :
      (n a j : ℕ) (prev : z.IntExpr)
      → 0 < a
      → a + n ≤ length it
      → j < n
      → IsMeasured
          (a + j)
          (val m (prev ∷ aipg_rounds it prev (range_from a n)) j)
          (val m (aipg_rounds it prev (range_from a n)) j)
  unfolding aipg_rounds
  aipg_rounds-IsMeasured zero a j prev lo hi b = absurd (omega arith)
  aipg_rounds-IsMeasured (suc n) a zero prev lo hi b =
      subst (λ t. IsMeasured t (z.value m prev) (z.value m (round prev a))) (omega arith)
        (round-IsMeasured prev a lo (omega arith))
  aipg_rounds-IsMeasured (suc n) a (suc j) prev lo hi b =
      subst
        (λ t.
          IsMeasured t
            (val m (round prev a ∷ aipg_rounds it (round prev a) (range_from (suc a) n)) j)
            (val m (aipg_rounds it (round prev a) (range_from (suc a) n)) j))
        (omega arith)
        (aipg_rounds-IsMeasured n (suc a) j (round prev a) (omega arith) (omega arith)
          (omega arith))

  -- The metric `aipg` is 0 at the first step. At a later step within the time it is 0 when more
  -- than one packet arrives, and its value at the step before when none does. When one packet
  -- arrives, it is the distance to the last earlier step with packets; when there is none, the
  -- distance to the first later step with packets; and when there is none either, the length of
  -- the time.
  pub get_aipgs_for_buf-value :
      (t1 : ℕ)
      → 0 < t1
      → t1 < length it
      → (val m (get_aipgs_for_buf it) 0 ≡ pos 0)
        × (¬ (val m it t1 ≤ℤ pos 1) → val m (get_aipgs_for_buf it) t1 ≡ pos 0)
        × (val m it t1 ≤ℤ pos 0
            → val m (get_aipgs_for_buf it) t1 ≡ val m (get_aipgs_for_buf it) (t1 - 1))
        × (val m it t1 ≡ pos 1 → IsGap t1 (val m (get_aipgs_for_buf it) t1))
  unfolding get_aipgs_for_buf
  get_aipgs_for_buf-value zero lo hi = absurd (omega arith)
  get_aipgs_for_buf-value (suc j) lo hi =
      let g = get_aipgs_for_buf it in
      let here : IsMeasured (suc j) (val m g j) (val m g (suc j)) =
        subst (λ t. IsMeasured t (val m g j) (val m g (suc j))) (omega arith)
          (aipg_rounds-IsMeasured (length it - 1) 1 j (num 0) (omega arith) (omega arith)
            (omega arith)) in
      let same : j ≡ suc j - 1 = omega arith in
      let (burst, idle, one) =
        subst (λ i. IsMeasured (suc j) (val m g i) (val m g (suc j))) same here in
      (z.value-int_val m (pos 0), burst, idle, one)
