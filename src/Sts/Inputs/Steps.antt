-- ===== src/Sts/Inputs/Steps.antt =====
-- What each constraint on a buffer says in a model, at one step: the quantities of the model as a
-- history of the buffer.
use count_buffy.Prelude.{
  inl, inr, +ℤ_comm, Bool-cases, Bool_ext, sym, false, ◌∙◌, ◌≤ℤ◌, pos, zero-+ℤ, total-zero, total,
  true, ℤ, parts, ℕ, suc, ◌-◌, ◌<◌, ◌≡◌, ◌↔◌, ◌+ℤ◌, ◌-ℤ◌, length, arith, int_laws,
}
use count_buffy.Z3.{ite_false, ite_true, implies_iff, iff_iff, Z3, Holds}
use count_buffy.Vec.{sum_le, sum_eq, sum_gt, Ev, add_vec, row, bit, eq_vec, sub_vec}
use count_buffy.Vec.Meaning.{
  sum_le_iff, sum_eq_iff, sum_gt_iff, total-add_vec, val-add_vec, length-add_vec, val, eq_vec_sized,
  val-sub_vec,
}
use count_buffy.Sts.{Sts}
use count_buffy.Buffer.{Trace, before}

-- Every vector of buffer `i` has an entry for each of the `suc k` packet types.
pub record IsShaped ⦃z : Z3⦄ (sts : Sts) (i k : ℕ) : Type 0 where
  pub shape_I : (t : ℕ) → t < sts.timesteps → length (row (row sts.I i) t) ≡ suc k
  pub shape_E : (t : ℕ) → t < sts.timesteps → length (row (row sts.E i) t) ≡ suc k
  pub shape_D : (t : ℕ) → t < sts.timesteps → length (row (row sts.D i) t) ≡ suc k
  pub shape_O : (t : ℕ) → t < sts.timesteps → length (row (row sts.O i) t) ≡ suc k
  pub shape_C : (t : ℕ) → t < sts.timesteps → length (row (row sts.C i) t) ≡ suc k

-- The history of buffer `i` in the model `m`.
abbrev pub history : ⦃z : Z3⦄ → z.Model → Sts → ℕ → Trace
history ⦃z⦄ m sts i = record {
  arrived = λ t. val m (row (row sts.I i) t);
  enqueued = λ t. val m (row (row sts.E i) t);
  dropped = λ t. val m (row (row sts.D i) t);
  left = λ t. val m (row (row sts.O i) t);
  held = λ t. val m (row (row sts.C i) t);
  busy = λ t. z.holds m (bit (row sts.B i) t);
}

pub suc-sub-one : (t : ℕ) → suc t - 1 ≡ t
suc-sub-one t = omega arith

-- What the constraints say of a history, at step `t`.
abbrev pub Moves : ℕ → Trace → ℕ → Type 0
Moves k trace t =
    (p : ℕ) → p < k → trace.held t p ≡ before trace t p +ℤ trace.enqueued t p -ℤ trace.left t p

abbrev pub Splits : ℕ → Trace → ℕ → Type 0
Splits k trace t = (p : ℕ) → p < k → trace.arrived t p ≡ trace.enqueued t p +ℤ trace.dropped t p

-- Before step `t`'s packets leave.
abbrev pub filled : ℕ → Trace → ℕ → ℤ
filled k trace t = total k (before trace t) +ℤ total k (trace.enqueued t)

abbrev pub Serves : ℕ → Trace → ℕ → Type 0
Serves k trace t = (trace.busy t ≡ true) ↔ (¬ (filled k trace t ≤ℤ pos 0))

abbrev pub Fits : ℕ → ℕ → Trace → ℕ → Type 0
Fits c k trace t = filled k trace t ≤ℤ pos c

abbrev pub Spills : ℕ → ℕ → Trace → ℕ → Type 0
Spills c k trace t =
    (trace.busy t ≡ true → ¬ (total k (trace.dropped t) ≤ℤ pos 0) → filled k trace t ≡ pos c)
    × (trace.busy t ≡ false → total k (trace.dropped t) ≡ pos 0)

filled_first : (k : ℕ) (trace : Trace) → filled k trace 0 ≡ total k (trace.enqueued 0)
unfolding before
filled_first k trace = rw (total-zero k) (zero-+ℤ _)

module _ ⦃z : Z3⦄ (m : z.Model) (sts : Sts) (i k : ℕ) (shaped : IsShaped sts i k) where
  pub Moves-first :
      0 < sts.timesteps
      → Holds m (eq_vec (row (row sts.C i) 0) (sub_vec (row (row sts.E i) 0) (row (row sts.O i) 0)))
        ↔ Moves (suc k) (history m sts i) 0
  unfolding before
  Moves-first h =
      let Ei = row (row sts.E i) 0 in
      let Oi = row (row sts.O i) 0 in
      let same = eq_vec_sized m (row (row sts.C i) 0) (sub_vec Ei Oi) k (shaped.shape_C 0 h) in
      let entry =
        λ (p : ℕ) (b : p < suc k). val-sub_vec m Ei Oi p (omega (arith, shaped.shape_E 0 h)) in
      (
        λ a p b. omega (int_laws, parts (same.0 a p b), parts (entry p b)),
        λ a. same.1 (λ p b. omega (int_laws, parts (a p b), parts (entry p b))),
      )

  pub Moves-next :
      (t : ℕ)
      → suc t < sts.timesteps
      → Holds m (
          eq_vec (row (row sts.C i) (suc t)) (
            sub_vec
              (add_vec (row (row sts.C i) (suc t - 1)) (row (row sts.E i) (suc t)))
              (row (row sts.O i) (suc t))))
        ↔ Moves (suc k) (history m sts i) (suc t)
  unfolding before
  Moves-next t h = rw (suc-sub-one t) (
      let Ci = row (row sts.C i) t in
      let Ei = row (row sts.E i) (suc t) in
      let Oi = row (row sts.O i) (suc t) in
      let same =
        eq_vec_sized m (row (row sts.C i) (suc t)) (sub_vec (add_vec Ci Ei) Oi) k
          (shaped.shape_C (suc t) h) in
      let size = shaped.shape_C t (omega arith) in
      let entry = λ (p : ℕ) (b : p < suc k).
        val-sub_vec m (add_vec Ci Ei) Oi p (omega (arith, length-add_vec Ci Ei)) in
      let filled = λ (p : ℕ) (b : p < suc k). val-add_vec m Ci Ei p (omega arith) in
      (
        λ a p b. omega (int_laws, parts (same.0 a p b), parts (entry p b), parts (filled p b)),
        λ a. same.1 (λ p b. omega (int_laws, parts (a p b), parts (entry p b), parts (filled p b))),
      ))

  pub Splits-at :
      (t : ℕ)
      → t < sts.timesteps
      → Holds m (eq_vec (row (row sts.I i) t) (add_vec (row (row sts.E i) t) (row (row sts.D i) t)))
        ↔ Splits (suc k) (history m sts i) t
  Splits-at t h =
      let Ei = row (row sts.E i) t in
      let Di = row (row sts.D i) t in
      let same = eq_vec_sized m (row (row sts.I i) t) (add_vec Ei Di) k (shaped.shape_I t h) in
      let entry =
        λ (p : ℕ) (b : p < suc k). val-add_vec m Ei Di p (omega (arith, shaped.shape_E t h)) in
      (λ a p b. same.0 a p b ∙ entry p b, λ a. same.1 (λ p b. a p b ∙ sym (entry p b)))

  -- What is in the buffer before packets leave, as the constraints add it up.
  filled_next :
      (t : ℕ)
      → suc t < sts.timesteps
      → total (suc k) (val m (add_vec (row (row sts.C i) t) (row (row sts.E i) (suc t))))
        ≡ filled (suc k) (history m sts i) (suc t)
  unfolding before
  filled_next t h =
      total-add_vec m (row (row sts.C i) t) (row (row sts.E i) (suc t)) (suc k)
        (shaped.shape_C t (omega arith))

  Serves-of :
      (t : ℕ) (v : Ev)
      → length v ≡ suc k
      → total (suc k) (val m v) ≡ filled (suc k) (history m sts i) t
      → Holds m (z.iff (bit (row sts.B i) t) (sum_gt v (pos 0)))
        ↔ Serves (suc k) (history m sts i) t
  Serves-of t v e f =
      let b = bit (row sts.B i) t in
      let more = rw f at (sum_gt_iff m v k (pos 0) e) in
      let both = iff_iff m b (sum_gt v (pos 0)) in
      (
        λ h. (λ x. more.0 (sym (both.0 h) ∙ x), λ x. both.0 h ∙ more.1 x),
        λ h. both.1 (
            Bool_ext (z.holds m b) (z.holds m (sum_gt v (pos 0)))
              (λ x. more.1 (h.0 x), λ x. h.1 (more.0 x))),
      )

  Spills-of :
      (t : ℕ) (v : Ev)
      → t < sts.timesteps
      → length v ≡ suc k
      → total (suc k) (val m v) ≡ filled (suc k) (history m sts i) t
      → Holds m (
          z.ite
            (bit (row sts.B i) t)
            (z.implies (sum_gt (row (row sts.D i) t) (pos 0)) (sum_eq v (pos sts.c)))
            (sum_eq (row (row sts.D i) t) (pos 0)))
        ↔ Spills sts.c (suc k) (history m sts i) t
  Spills-of t v b e f =
      let Di = row (row sts.D i) t in
      let busy = bit (row sts.B i) t in
      let more = sum_gt_iff m Di k (pos 0) (shaped.shape_D t b) in
      let full = rw f at (sum_eq_iff m v k (pos sts.c) e) in
      let empty = sum_eq_iff m Di k (pos 0) (shaped.shape_D t b) in
      let only = implies_iff m (sum_gt Di (pos 0)) (sum_eq v (pos sts.c)) in
      let when_busy =
        ite_true m busy (z.implies (sum_gt Di (pos 0)) (sum_eq v (pos sts.c)))
          (sum_eq Di (pos 0)) in
      let when_idle =
        ite_false m busy (z.implies (sum_gt Di (pos 0)) (sum_eq v (pos sts.c)))
          (sum_eq Di (pos 0)) in
      (
        λ h. (
          λ served d. full.0 (only.0 ((when_busy served).0 h) (more.1 d)),
          λ idle. empty.0 ((when_idle idle).0 h),
        ),
        λ h. elim (Bool-cases (z.holds m busy)) [
          | inl served ↦ (when_busy served).1 (only.1 (λ x. full.1 (h.0 served (more.0 x))))
          | inr idle ↦ (when_idle idle).1 (empty.1 (h.1 idle))
        ],
      )

  Fits-of :
      (t : ℕ) (v : Ev)
      → length v ≡ suc k
      → total (suc k) (val m v) ≡ filled (suc k) (history m sts i) t
      → Holds m (sum_le v (pos sts.c)) ↔ Fits sts.c (suc k) (history m sts i) t
  Fits-of t v e f = rw f at (sum_le_iff m v k (pos sts.c) e)

  pub Serves-next :
      (t : ℕ)
      → suc t < sts.timesteps
      → Holds m (
          z.iff
            (bit (row sts.B i) (suc t))
            (sum_gt (add_vec (row (row sts.C i) (suc t - 1)) (row (row sts.E i) (suc t))) (pos 0)))
        ↔ Serves (suc k) (history m sts i) (suc t)
  Serves-next t h = rw (suc-sub-one t) (
      Serves-of (suc t) (add_vec (row (row sts.C i) t) (row (row sts.E i) (suc t)))
        (length-add_vec _ _ ∙ shaped.shape_C t (omega arith)) (filled_next t h))

  pub Serves-first :
      0 < sts.timesteps
      → Holds m (z.iff (bit (row sts.B i) 0) (sum_gt (row (row sts.E i) 0) (pos 0)))
        ↔ Serves (suc k) (history m sts i) 0
  Serves-first h =
      Serves-of 0 (row (row sts.E i) 0) (shaped.shape_E 0 h)
        (sym (filled_first (suc k) (history m sts i)))

  pub Fits-first :
      0 < sts.timesteps
      → Holds m (sum_le (row (row sts.E i) 0) (pos sts.c)) ↔ Fits sts.c (suc k) (history m sts i) 0
  Fits-first h =
      Fits-of 0 (row (row sts.E i) 0) (shaped.shape_E 0 h)
        (sym (filled_first (suc k) (history m sts i)))

  -- `enqs` adds the two in the other order.
  pub Fits-next :
      (t : ℕ)
      → suc t < sts.timesteps
      → Holds m
          (sum_le (add_vec (row (row sts.E i) (suc t)) (row (row sts.C i) (suc t - 1))) (pos sts.c))
        ↔ Fits sts.c (suc k) (history m sts i) (suc t)
  unfolding before
  Fits-next t h = rw (suc-sub-one t) (
      let Ei = row (row sts.E i) (suc t) in
      let Ci = row (row sts.C i) t in
      Fits-of (suc t) (add_vec Ei Ci) (length-add_vec _ _ ∙ shaped.shape_E (suc t) h) (
        total-add_vec m Ei Ci (suc k) (shaped.shape_E (suc t) h)
        ∙ +ℤ_comm (total (suc k) (val m Ei)) (total (suc k) (val m Ci))))

  pub Spills-first :
      0 < sts.timesteps
      → Holds m (
          z.ite
            (bit (row sts.B i) 0)
            (z.implies
              (sum_gt (row (row sts.D i) 0) (pos 0))
              (sum_eq (row (row sts.E i) 0) (pos sts.c)))
            (sum_eq (row (row sts.D i) 0) (pos 0)))
        ↔ Spills sts.c (suc k) (history m sts i) 0
  Spills-first h =
      Spills-of 0 (row (row sts.E i) 0) h (shaped.shape_E 0 h)
        (sym (filled_first (suc k) (history m sts i)))

  pub Spills-next :
      (t : ℕ)
      → suc t < sts.timesteps
      → Holds m (
          z.ite
            (bit (row sts.B i) (suc t))
            (z.implies (sum_gt (row (row sts.D i) (suc t)) (pos 0)) (
              sum_eq
                (add_vec (row (row sts.C i) (suc t - 1)) (row (row sts.E i) (suc t)))
                (pos sts.c)))
            (sum_eq (row (row sts.D i) (suc t)) (pos 0)))
        ↔ Spills sts.c (suc k) (history m sts i) (suc t)
  Spills-next t h = rw (suc-sub-one t) (
      Spills-of (suc t) (add_vec (row (row sts.C i) t) (row (row sts.E i) (suc t))) h
        (length-add_vec _ _ ∙ shaped.shape_C t (omega arith)) (filled_next t h))
