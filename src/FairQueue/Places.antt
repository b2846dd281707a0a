-- ===== src/FairQueue/Places.antt =====
-- What `FqChecker::init` and `FqChecker::out` say of the places in the queues.
use count_buffy.Prelude.{
  ◌-◌, subst, ◌⊎◌, ◌≢◌, set, [], ℕ, zero, suc, ◌+◌, ◌≤◌, ◌<◌, ◌≡◌, refl, ◌∙◌, inl, inr, arith,
  int_laws, ℤ, pos, negsuc, ◌-ℤ◌, Bool-cases, length, range_from, if◌then◌else◌,
}
use count_buffy.Z3.{Z3, num}
use count_buffy.Vec.{Ev, Ev2, Bv, at, bit, row}
use count_buffy.Sts.{Sts}
use count_buffy.FairQueue.{FairQueue, init, set_at, init_places, outside}
use count_buffy.Prelude.{get_or-set, get_or-set_other, length-set}

module _ ⦃z : Z3⦄ (m : z.Model) (b0 : Bv) where
  -- How many of the first `n` buffers are backlogged.
  abbrev pub backlogged : ℕ → ℕ
  backlogged zero = 0
  backlogged (suc i) = if z.holds m (bit b0 i) then suc (backlogged i) else backlogged i

  -- The place of buffer `i`: behind the backlogged buffers before it, or outside.
  abbrev pub place : ℕ → ℤ
  place i = if z.holds m (bit b0 i) then pos (backlogged i) else negsuc 0

  -- `max_idx` before buffer `i`'s round.
  abbrev last : ℕ → ℤ
  last i = pos (backlogged i) -ℤ pos 1

  same_or_other : (a i : ℕ) → (a ≡ i) ⊎ (a ≢ i)
  same_or_other a i = ground arith

  next-last :
      (i : ℕ) (e : z.IntExpr)
      → z.value m e ≡ last i
      → z.value m (z.ite_int (bit b0 i) (z.add e (num 1)) e) ≡ last (suc i)
  next-last i e h = elim (Bool-cases (z.holds m (bit b0 i))) [
    | inl t ↦
        (rw t at (z.value-ite_int m (bit b0 i) (z.add e (num 1)) e))
        ∙ rw (z.value-add m e (num 1), h, z.value-int_val m (pos 1), t) (omega int_laws)
    | inr f ↦ (rw f at (z.value-ite_int m (bit b0 i) (z.add e (num 1)) e)) ∙ rw (h, f) refl
  ]

  placed :
      (i : ℕ) (e : z.IntExpr)
      → z.value m e ≡ last (suc i)
      → z.value m (z.ite_int (bit b0 i) e outside) ≡ place i
  placed i e h = elim (Bool-cases (z.holds m (bit b0 i))) [
    | inl t ↦ (rw t at (z.value-ite_int m (bit b0 i) e outside)) ∙ rw t at h ∙ rw t (omega int_laws)
    | inr f ↦
        (rw f at (z.value-ite_int m (bit b0 i) e outside))
        ∙ z.value-int_val m (negsuc 0)
        ∙ rw f refl
  ]

  -- Writing the first entry of row `a` keeps every row's size.
  rows-set_at :
      (nq : Ev2) (a : ℕ) (w : z.IntExpr)
      → a < length nq
      → ((i : ℕ) → i < length nq → 0 < length (row nq i))
      → (i : ℕ) → i < length nq
      → 0 < length (row (set_at nq a 0 w) i)
  rows-set_at nq a w ab rows i b = elim (same_or_other a i) [
    | inl same ↦
        let written = get_or-set nq a (set (row nq a) 0 w) [] ab in
        subst (λ j. 0 < length (row (set_at nq a 0 w) j)) same
          (rw (written, length-set (row nq a) 0 w) (rows a ab))
    | inr other ↦ rw (get_or-set_other nq a i (set (row nq a) 0 w) [] other) (rows i b)
  ]

  lower : (a j : ℕ) → j < suc a → a ≢ j → j < a
  lower a j b other = ground arith

  init_places-place :
      (n a : ℕ) (e : z.IntExpr) (nq : Ev2)
      → z.value m e ≡ last a
      → a + n ≤ length nq
      → ((i : ℕ) → i < length nq → 0 < length (row nq i))
      → ((i : ℕ) → i < a → z.value m (at (row nq i) 0) ≡ place i)
      → (i : ℕ) → i < a + n
      → z.value m (at (row (init_places b0 (range_from a n) e nq) i) 0) ≡ place i
  unfolding init_places
  init_places-place zero a e nq h size rows done i b = done i (omega arith)
  init_places-place (suc n) a e nq h size rows done i b =
      let e' = z.ite_int (bit b0 a) (z.add e (num 1)) e in
      let w = z.ite_int (bit b0 a) e' outside in
      let nq' = set_at nq a 0 w in
      let ab : a < length nq = omega arith in
      let sized = length-set nq a (set (row nq a) 0 w) in
      let here = next-last a e h in
      init_places-place n (suc a) e' nq' here (omega (arith, sized))
        (λ j jb. rows-set_at nq a w ab rows j (omega (arith, sized)))
        (λ j jb. elim (same_or_other a j) [
          | inl same ↦
              subst (λ j. z.value m (at (row nq' j) 0) ≡ place j) same
                (rw
                  (
                    get_or-set nq a (set (row nq a) 0 w) [] ab,
                    get_or-set (row nq a) 0 w z.undefined_int (rows a ab),
                  )
                  (placed a e' here))
          | inr other ↦
              rw (get_or-set_other nq a j (set (row nq a) 0 w) [] other)
                (done j (lower a j jb other))
        ])
        i (omega arith)

  -- After `FqChecker::init`, for arrays with a row of at least one entry for each buffer: a
  -- backlogged buffer's place in the queue of new flows is the number of backlogged buffers
  -- before it, and the place of any other buffer is -1.
  pub init-place :
      (sts : Sts) (fq : FairQueue) (s0 : Ev)
      → sts.num_bufs ≤ length fq.nq
      → ((i : ℕ) → i < length fq.nq → 0 < length (row fq.nq i))
      → (i : ℕ) → i < sts.num_bufs
      → z.value m (at (row (init sts fq b0 s0).1.nq i) 0) ≡ place i
  unfolding init ◌-ℤ◌
  init-place sts fq s0 size rows i b =
      init_places-place (sts.num_bufs - 0) 0 outside fq.nq (z.value-int_val m (negsuc 0))
        (omega arith) rows (λ i b. absurd (omega arith)) i (omega arith)
