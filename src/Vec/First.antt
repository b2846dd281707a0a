-- ===== src/Vec/First.antt =====
-- The first backlogged buffer, as the schedulers find it: a flag that holds while no buffer was seen.
use count_buffy.Vec.Choice.{true_not_false}
use count_buffy.Prelude.{
  ◌⊎◌, ◌≢◌, ℕ, zero, suc, ◌<◌, ◌≡◌, sym, subst, ◌↔◌, inl, inr, false, arith, Bool-cases,
  at_or_after,
}
use count_buffy.Z3.{Z3, ◌&&◌, Holds, conj_iff, neg_iff}
use count_buffy.Vec.{Bv, bit}

module _ ⦃z : Z3⦄ (m : z.Model) where
  -- Buffer `i` is the first backlogged one.
  pub record IsFirst (bv : Bv) (i : ℕ) : Type 0 where
    pub busy : Holds m (bit bv i)
    pub idle : (j : ℕ) → j < i → z.holds m (bit bv j) ≡ false

  abbrev pub NoneBefore : Bv → ℕ → Type 0
  NoneBefore bv a = (j : ℕ) → j < a → z.holds m (bit bv j) ≡ false

  pub IsFirst-iff :
      (bv : Bv) (a : ℕ) (not_until : z.BoolExpr)
      → Holds m not_until ↔ NoneBefore bv a
      → Holds m (not_until && bit bv a) ↔ IsFirst bv a
  IsFirst-iff bv a nu e =
      let both = conj_iff m nu (bit bv a) in
      (
        λ h. record { busy = (both.0 h).1; idle = e.0 (both.0 h).0 },
        λ f. both.1 (e.1 f.idle, f.busy),
      )

  pub NoneBefore-next :
      (bv : Bv) (a : ℕ) (not_until : z.BoolExpr)
      → Holds m not_until ↔ NoneBefore bv a
      → Holds m (not_until && z.neg (bit bv a)) ↔ NoneBefore bv (suc a)
  NoneBefore-next bv a nu e =
      let both = conj_iff m nu (z.neg (bit bv a)) in
      let off = neg_iff m (bit bv a) in
      (
        λ h j b. elim (at_or_after j a (omega arith)) [
          | inl same ↦ subst (λ i. z.holds m (bit bv i) ≡ false) (sym same) (off.0 (both.0 h).1)
          | inr less ↦ e.0 (both.0 h).0 j less
        ],
        λ h. both.1 (e.1 (λ j b. h j (omega arith)), off.1 (h a (omega arith))),
      )

  -- A backlogged buffer has a first backlogged buffer at or before it.
  pub IsFirst-before : (bv : Bv) (n : ℕ) → ((i : ℕ) × (i < n) × IsFirst bv i) ⊎ NoneBefore bv n
  IsFirst-before bv zero = inr (λ j b. absurd (omega arith))
  IsFirst-before bv (suc n) = elim (IsFirst-before bv n) [
    | inl (i, b, f) ↦ inl (i, omega arith, f)
    | inr idle ↦ elim (Bool-cases (z.holds m (bit bv n))) [
      | inl h ↦ inl (n, omega arith, record { busy = h; idle = idle })
      | inr h ↦ inr (λ j b. elim (at_or_after j n (omega arith)) [
        | inl same ↦ subst (λ i. z.holds m (bit bv i) ≡ false) (sym same) h
        | inr less ↦ idle j less
      ])
    ]
  ]

  pub only-IsFirst : (bv : Bv) (i j : ℕ) → IsFirst bv i → j ≢ i → ¬ IsFirst bv j
  only-IsFirst bv i j f other g = elim (order i j) [
    | inl same ↦ other (sym same)
    | inr (inl less) ↦ let off = g.idle i less in true_not_false m f.busy off
    | inr (inr more) ↦ let off = f.idle j more in true_not_false m g.busy off
  ]
    where
      order : (i j : ℕ) → (i ≡ j) ⊎ ((i < j) ⊎ (j < i))
      order i j = ground arith
