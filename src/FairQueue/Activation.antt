-- ===== src/FairQueue/Activation.antt =====
-- What `FqChecker::trs` does with the buffers that become backlogged: they go behind the last place of
-- the queue of new flows.
use count_buffy.Vec.Choice.{true_not_false}
use count_buffy.Prelude.{
  true, false, ℕ, zero, suc, ◌+◌, ◌-◌, ◌≤◌, ◌<◌, ◌≡◌, refl, sym, ap, ◌∙◌, subst, ◌≢◌, ◌⊎◌, inl, inr,
  Bool, arith, int_laws, ℤ, pos, ◌+ℤ◌, ◌≤ℤ◌, Bool-cases, length, set, at_or_after, range_from, loop,
  +ℤ-zero, if◌then◌else◌,
}
use count_buffy.Z3.{Z3, ◌&&◌, num}
use count_buffy.Vec.{Ev, Bv, at, bit}
use count_buffy.FairQueue.{max, last_place, activate, push_activated, outside}
use count_buffy.Z3.{le_iff}
use count_buffy.Vec.Meaning.{val}
use count_buffy.Prelude.{get_or-set, get_or-set_other, length-set}

if-pos :
    (l : ℤ) (x : Bool) (p q : ℕ)
    → (if x then l +ℤ pos p else l +ℤ pos q) ≡ l +ℤ pos (if x then p else q)
if-pos l true p q = refl
if-pos l false p q = refl

module _ ⦃z : Z3⦄ (m : z.Model) where
  max-value :
      (a b : z.IntExpr)
      → (z.value m a ≤ℤ z.value m (max a b)) × (z.value m b ≤ℤ z.value m (max a b))
  unfolding max
  max-value a b = elim (Bool-cases (z.holds m (z.le b a))) [
    | inl t ↦
        let e = rw t at (z.value-ite_int m (z.le b a) a b) in
        let less = (le_iff m b a).0 t in rw e (omega arith, less)
    | inr f ↦
        let e = rw f at (z.value-ite_int m (z.le b a) a b) in
        let more = λ (h : z.value m b ≤ℤ z.value m a). true_not_false m ((le_iff m b a).1 h) f in
        rw e (omega arith, omega arith)
  ]

  last_rounds :
      (v : Ev) (n a : ℕ) (e : z.IntExpr)
      → (z.value m e ≤ℤ z.value m (loop (λ r i. max (at v i) r) e (range_from a n)))
        × ((i : ℕ)
            → a ≤ i
            → i < a + n
            → val m v i ≤ℤ z.value m (loop (λ r i. max (at v i) r) e (range_from a n)))
  last_rounds v zero a e = (omega arith, λ i lo hi. absurd (omega arith))
  last_rounds v (suc n) a e =
      let (kept, later) = last_rounds v n (suc a) (max (at v a) e) in
      let (here, old) = max-value (at v a) e in
      (
        omega arith,
        λ i lo hi. elim (at_or_after a i lo) [
          | inl same ↦
              subst
                (λ i.
                  val m v i
                  ≤ℤ z.value m
                      (loop (λ r i. max (at v i) r) (max (at v a) e) (range_from (suc a) n)))
                same (omega arith)
          | inr more ↦ later i more (omega arith)
        ],
      )

  module _ (b bp : Bv) where
    abbrev pub activated : ℕ → Bool
    activated i = z.holds m (z.neg (bit b i) && bit bp i)

    -- How many of the first `n` buffers become backlogged.
    abbrev pub joined : ℕ → ℕ
    joined zero = 0
    joined (suc i) = if activated i then suc (joined i) else joined i

    module _ (v₀ : Ev) (last : ℤ) where
      -- Where buffer `i` goes, behind the place `last`.
      abbrev pub moved : ℕ → ℤ
      moved i = if activated i then last +ℤ pos (suc (joined i)) else val m v₀ i

      same_or_other : (a i : ℕ) → (a ≡ i) ⊎ (a ≢ i)
      same_or_other a i = ground arith

      lower : (a j : ℕ) → j < suc a → a ≢ j → j < a
      lower a j b other = ground arith

      higher : (a j : ℕ) → suc a ≤ j → a ≢ j
      higher a j b e = absurd (omega arith)

      ite-moved :
          (a : ℕ) (x y : z.IntExpr) (p q : ℤ)
          → z.value m x ≡ p
          → z.value m y ≡ q
          → z.value m (z.ite_int (z.neg (bit b a) && bit bp a) x y) ≡ (if activated a then p else q)
      ite-moved a x y p q e f = z.value-ite_int m (z.neg (bit b a) && bit bp a) x y ∙ rw (e, f) refl

      activate-moved :
          (n a : ℕ) (v : Ev) (e : z.IntExpr)
          → z.value m e ≡ last +ℤ pos (joined a)
          → a + n ≤ length v
          → ((i : ℕ) → i < a → val m v i ≡ moved i)
          → ((i : ℕ) → a ≤ i → val m v i ≡ val m v₀ i)
          → (i : ℕ) → i < a + n
          → val m (loop (activate b bp) (v, e) (range_from a n)).0 i ≡ moved i
      unfolding activate
      activate-moved zero a v e h size done later i ib = done i (omega arith)
      activate-moved (suc n) a v e h size done later i ib =
          let c = z.neg (bit b a) && bit bp a in
          let next = z.add e (num 1) in
          let w = z.ite_int c next (at v a) in
          let next_value : z.value m next ≡ last +ℤ pos (suc (joined a)) =
            z.value-add m e (num 1) ∙ rw (h, z.value-int_val m (pos 1)) (omega int_laws) in
          let written = get_or-set v a w z.undefined_int (omega arith) in
          activate-moved n (suc a) (set v a w) (z.ite_int c next e)
            (ite-moved a next e (last +ℤ pos (suc (joined a))) (last +ℤ pos (joined a)) next_value h
              ∙ if-pos last (activated a) (suc (joined a)) (joined a))
            (omega (arith, length-set v a w))
            (λ j jb. elim (same_or_other a j) [
              | inl same ↦
                  subst (λ j. val m (set v a w) j ≡ moved j) same
                    (ap (z.value m) written
                      ∙ ite-moved a next (at v a) (last +ℤ pos (suc (joined a))) (val m v₀ a)
                          next_value (later a (omega arith)))
              | inr other ↦
                  ap (z.value m) (get_or-set_other v a j w z.undefined_int other)
                  ∙ done j (lower a j jb other)
            ])
            (λ j jb.
              ap (z.value m) (get_or-set_other v a j w z.undefined_int (higher a j jb))
              ∙ later j (omega arith))
            i (omega arith)

    -- For at least `n` places: none of the first `n` is above `last_place`, and after
    -- `push_activated` a buffer that has become backlogged stands behind `last_place` by one more
    -- than the number of buffers before it that have become backlogged, while every other buffer
    -- keeps its place.
    pub push_activated-moved :
        (n : ℕ) (v : Ev)
        → n ≤ length v
        → ((i : ℕ) → i < n → val m v i ≤ℤ z.value m (last_place v n))
          × ((i : ℕ)
              → i < n
              → val m (push_activated b bp n v) i ≡ moved v (z.value m (last_place v n)) i)
    unfolding push_activated last_place
    push_activated-moved n v size = (
      λ i ib. (last_rounds v (n - 0) 0 outside).1 i (omega arith) (omega arith),
      λ i ib.
          activate-moved v (z.value m (last_place v n)) (n - 0) 0 v (last_place v n)
            (sym (+ℤ-zero (z.value m (last_place v n)))) (omega arith)
            (λ j jb. absurd (omega arith)) (λ j jb. refl) i (omega arith),
    )
