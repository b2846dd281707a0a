-- ===== src/Z3/Laws.antt =====
-- The sections of the other modules take the interface as an instance. Connectives are spelled as in
-- the sources, and each has a lemma for what it means that it holds in a model.
use count_buffy.Prelude.{
  at_or_after, ℕ, zero, suc, ◌+◌, ◌≤◌, ◌<◌, ◌≡◌, ◌⊎◌, inl, inr, ◌↔◌, true, false, List, [], ◌∷◌,
  pos, ◌≤ℤ◌, leb_ℤ, leb_ℤ_iff, eqb_ℤ_iff, arith, loop, range, range_from, Bool-cases, All,
  All-range_iff, subst, sym,
}
use count_buffy.Z3.Interface.{Z3}

module _ ⦃z : Z3⦄ where
  infixl 35 ◌&&◌
  infixl 30 ◌||◌
  abbrev pub ◌&&◌ : z.BoolExpr → z.BoolExpr → z.BoolExpr
  a && b = z.conj a b

  abbrev pub ◌||◌ : z.BoolExpr → z.BoolExpr → z.BoolExpr
  a || b = z.disj a b

  -- `ctx.int_val` of an index or a size.
  abbrev pub num : ℕ → z.IntExpr
  num n = z.int_val (pos n)

  abbrev pub Holds : z.Model → z.BoolExpr → Type 0
  Holds m e = z.holds m e ≡ true

  pub true_holds : (m : z.Model) → Holds m (z.bool_val true)
  true_holds m = z.holds-bool_val m true

  pub false_fails : (m : z.Model) → ¬ Holds m (z.bool_val false)
  false_fails m h = ground (arith, z.holds-bool_val m false)

  pub conj_iff : (m : z.Model) (a b : z.BoolExpr) → Holds m (a && b) ↔ (Holds m a × Holds m b)
  conj_iff m a b =
      (λ h. ground (arith, z.holds-conj m a b), λ h. ground (arith, z.holds-conj m a b))

  pub disj_iff : (m : z.Model) (a b : z.BoolExpr) → Holds m (a || b) ↔ (Holds m a ⊎ Holds m b)
  disj_iff m a b =
      (λ h. ground (arith, z.holds-disj m a b), λ h. ground (arith, z.holds-disj m a b))

  pub neg_iff : (m : z.Model) (a : z.BoolExpr) → Holds m (z.neg a) ↔ (z.holds m a ≡ false)
  neg_iff m a = (λ h. ground (arith, z.holds-neg m a), λ h. ground (arith, z.holds-neg m a))

  pub implies_iff :
      (m : z.Model) (a b : z.BoolExpr) → Holds m (z.implies a b) ↔ (Holds m a → Holds m b)
  implies_iff m a b = (
    λ h k. ground (arith, z.holds-implies m a b),
    λ h. elim (Bool-cases (z.holds m a)) [
      | inl e ↦ let k = h e in ground (arith, z.holds-implies m a b)
      | inr e ↦ ground (arith, z.holds-implies m a b)
    ],
  )

  pub ite_true : (m : z.Model) (c a b : z.BoolExpr) → Holds m c → Holds m (z.ite c a b) ↔ Holds m a
  ite_true m c a b h =
      (λ k. ground (arith, z.holds-ite m c a b), λ k. ground (arith, z.holds-ite m c a b))

  pub ite_false :
      (m : z.Model) (c a b : z.BoolExpr) → z.holds m c ≡ false → Holds m (z.ite c a b) ↔ Holds m b
  ite_false m c a b h =
      (λ k. ground (arith, z.holds-ite m c a b), λ k. ground (arith, z.holds-ite m c a b))

  pub iff_iff : (m : z.Model) (a b : z.BoolExpr) → Holds m (z.iff a b) ↔ (z.holds m a ≡ z.holds m b)
  iff_iff m a b = (λ h. ground (arith, z.holds-iff m a b), λ h. ground (arith, z.holds-iff m a b))

  pub eq_iff : (m : z.Model) (a b : z.IntExpr) → Holds m (z.eq a b) ↔ (z.value m a ≡ z.value m b)
  eq_iff m a b = rw (z.holds-eq m a b) (eqb_ℤ_iff (z.value m a) (z.value m b))

  pub le_iff : (m : z.Model) (a b : z.IntExpr) → Holds m (z.le a b) ↔ (z.value m a ≤ℤ z.value m b)
  le_iff m a b = rw (z.holds-le m a b) (leb_ℤ_iff (z.value m a) (z.value m b))

  pub lt_iff :
      (m : z.Model) (a b : z.IntExpr) → Holds m (z.lt a b) ↔ (¬ (z.value m b ≤ℤ z.value m a))
  lt_iff m a b =
      let t = leb_ℤ_iff (z.value m b) (z.value m a) in
      elim (Bool-cases (leb_ℤ (z.value m b) (z.value m a))) [
        | inl e ↦ (λ h k. ground (arith, z.holds-lt m a b), λ h. absurd (h (t.0 e)))
        | inr e ↦ (λ h k. let e' = t.1 k in cc, λ h. ground (arith, z.holds-lt m a b))
      ]

  -- `r = r && f(x);` in a loop.
  conj_list_iff :
      (m : z.Model) (f : ℕ → z.BoolExpr) (r : z.BoolExpr) (xs : List ℕ)
      → Holds m (loop (λ r i. r && f i) r xs) ↔ (Holds m r × All (λ i. Holds m (f i)) xs)
  conj_list_iff m f r [] = (λ h. (h, tt), λ h. h.0)
  conj_list_iff m f r (x ∷ xs) =
      let rest = conj_list_iff m f (r && f x) xs in
      let here = conj_iff m r (f x) in
      (
        λ h. ((here.0 (rest.0 h).0).0, ((here.0 (rest.0 h).0).1, (rest.0 h).1)),
        λ h. rest.1 (here.1 (h.0, h.1.0), h.1.1),
      )

  pub conj_loop_iff :
      (m : z.Model) (f : ℕ → z.BoolExpr) (r : z.BoolExpr) (a b : ℕ)
      → Holds m (loop (λ r i. r && f i) r (range a b))
        ↔ (Holds m r × ((i : ℕ) → a ≤ i → i < b → Holds m (f i)))
  conj_loop_iff m f r a b =
      let e = conj_list_iff m f r (range a b) in
      let all = All-range_iff (λ i. Holds m (f i)) a b in
      (λ h. ((e.0 h).0, all.0 (e.0 h).1), λ h. e.1 (h.0, all.1 h.1))

  -- A loop whose rounds each add what `P` says.
  pub rounds_iff :
      (m : z.Model) (body : z.BoolExpr → ℕ → z.BoolExpr) (P : ℕ → Type 0)
      → ((r : z.BoolExpr) (i : ℕ) → Holds m (body r i) ↔ (Holds m r × P i))
      → (n a : ℕ) (r : z.BoolExpr)
      → Holds m (loop body r (range_from a n)) ↔ (Holds m r × ((i : ℕ) → a ≤ i → i < a + n → P i))
  rounds_iff m body P one zero a r = (λ h. (h, λ i lo hi. absurd (omega arith)), λ h. h.0)
  rounds_iff m body P one (suc n) a r =
      let rest = rounds_iff m body P one n (suc a) (body r a) in
      let here = one r a in
      (
        λ h.
            let (now, later) = rest.0 h in
            (
              (here.0 now).0,
              λ i lo hi. elim (at_or_after a i lo) [
                | inl same ↦ subst P same (here.0 now).1
                | inr more ↦ later i more (omega arith)
              ],
            ),
        λ (h, all). rest.1 (
          here.1 (h, all a (omega arith) (omega arith)),
          λ i lo hi. all i (omega arith) (omega arith),
        ),
      )

  -- `r = r || f(x);` in a loop.
  pub disj_loop_holds :
      (m : z.Model) (f : ℕ → z.BoolExpr) (r : z.BoolExpr) (a n : ℕ)
      → Holds m (loop (λ r i. r || f i) r (range_from a n))
      → Holds m r ⊎ ((i : ℕ) × (a ≤ i) × (i < a + n) × Holds m (f i))
  disj_loop_holds m f r a zero h = inl h
  disj_loop_holds m f r a (suc n) h = elim (disj_loop_holds m f (r || f a) (suc a) n h) [
    | inl now ↦ elim ((disj_iff m r (f a)).0 now) [
      | inl e ↦ inl e
      | inr e ↦ inr (a, omega arith, omega arith, e)
    ]
    | inr (i, lo, hi, e) ↦ inr (i, omega arith, omega arith, e)
  ]

  pub holds_disj_loop :
      (m : z.Model) (f : ℕ → z.BoolExpr) (r : z.BoolExpr) (a n : ℕ)
      → Holds m r ⊎ ((i : ℕ) × (a ≤ i) × (i < a + n) × Holds m (f i))
      → Holds m (loop (λ r i. r || f i) r (range_from a n))
  holds_disj_loop m f r a zero (inl h) = h
  holds_disj_loop m f r a zero (inr (i, lo, hi, e)) = absurd (omega arith)
  holds_disj_loop m f r a (suc n) (inl h) =
      holds_disj_loop m f (r || f a) (suc a) n (inl ((disj_iff m r (f a)).1 (inl h)))
  holds_disj_loop m f r a (suc n) (inr (i, lo, hi, e)) = elim (at_or_after a i lo) [
    | inl same ↦
        holds_disj_loop m f (r || f a) (suc a) n
          (inl ((disj_iff m r (f a)).1 (inr (subst (λ j. Holds m (f j)) (sym same) e))))
    | inr more ↦ holds_disj_loop m f (r || f a) (suc a) n (inr (i, more, omega arith, e))
  ]
