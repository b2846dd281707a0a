-- ===== src/Sts/Scheduler/Steps.antt =====
-- The constraints that the base class collects, step by step: what they say at a step, in terms of the
-- checker's own matrices.
use count_buffy.Prelude.{
  at_or_after, ℕ, zero, suc, ◌+◌, ◌-◌, ◌<◌, ◌≤◌, ◌≡◌, refl, subst, List, [], ◌∷◌, arith, range,
  range_from, inl, inr, gather, All-loop_iff,
}
use count_buffy.Z3.{Z3, Holds}
use count_buffy.Vec.{Ev2, Ev3, Bv2, at, bit, row, get_buf_vec_at_i, get_bufs_at_i, get_bits_at_i}
use count_buffy.NamedExp.{NamedExp, extend_suffixed, Sat}
use count_buffy.NamedExp.Meaning.{Sat-append, extend_suffixed_iff}
use count_buffy.Sts.{Sts}
use count_buffy.Sts.Scheduler.{Scheduler, trs_steps, trs, out_steps, out, inputs, base_constrs}

-- A column's entry is the row's, also outside the matrix.
module _ ⦃z : Z3⦄ where
  pub at-get_bufs : (vv : Ev2) (t b : ℕ) → at (get_bufs_at_i vv t) b ≡ at (row vv b) t
  unfolding get_bufs_at_i
  at-get_bufs [] t b = refl
  at-get_bufs (v ∷ vv) t zero = refl
  at-get_bufs (v ∷ vv) t (suc b) = at-get_bufs vv t b

  pub bit-get_bits : (vv : Bv2) (t b : ℕ) → bit (get_bits_at_i vv t) b ≡ bit (row vv b) t
  unfolding get_bits_at_i
  bit-get_bits [] t b = refl
  bit-get_bits (v ∷ vv) t zero = refl
  bit-get_bits (v ∷ vv) t (suc b) = bit-get_bits vv t b

  pub row-get_buf_vec : (vvv : Ev3) (t b : ℕ) → row (get_buf_vec_at_i vvv t) b ≡ row (row vvv b) t
  unfolding get_buf_vec_at_i
  row-get_buf_vec [] t b = refl
  row-get_buf_vec (v ∷ vv) t zero = refl
  row-get_buf_vec (v ∷ vv) t (suc b) = row-get_buf_vec vv t b

module _ ⦃z : Z3⦄ {St : Type 0} (m : z.Model) (sch : Scheduler St) (sts : Sts) where
  -- The constraints of the step from `i` to `i + 1`, in the state `st` of the derived class.
  abbrev pub trs_at : St → ℕ → List NamedExp
  trs_at st i =
      let state = sch.get_state sts st in
      (sch.trs sts st (get_bits_at_i sts.B i) (get_bufs_at_i state i) (get_bits_at_i sts.B (i + 1))
        (get_bufs_at_i state (i + 1)) (i + 1)).0

  abbrev pub out_at : St → ℕ → List NamedExp
  out_at st j =
      (sch.out sts st (get_bits_at_i sts.B j) (get_bufs_at_i (sch.get_state sts st) j)
        (get_buf_vec_at_i sts.O j) j).0

  trs_steps-Sat :
      (a n : ℕ) (st : St)
      → Sat m (trs_steps sch sts (range_from a n) st).0
      → (i : ℕ) → a ≤ i
      → i < a + n
      → (st' : St) × Sat m (trs_at st' i)
  unfolding trs_steps
  trs_steps-Sat a zero st h i lo hi = absurd (omega arith)
  trs_steps-Sat a (suc n) st h i lo hi =
      let (now, later) = (Sat-append m (extend_suffixed [] (trs_at st a) _) _).0 h in
      elim (at_or_after a i lo) [
        | inl e ↦ (st, subst (λ j. Sat m (trs_at st j)) e ((extend_suffixed_iff m [] _ _).0 now).1)
        | inr more ↦ trs_steps-Sat (suc a) n _ later i more (omega arith)
      ]

  out_steps-Sat :
      (a n : ℕ) (st : St)
      → Sat m (out_steps sch sts (range_from a n) st).0
      → (i : ℕ) → a ≤ i
      → i < a + n
      → (st' : St) × Sat m (out_at st' i)
  unfolding out_steps
  out_steps-Sat a zero st h i lo hi = absurd (omega arith)
  out_steps-Sat a (suc n) st h i lo hi =
      let (now, later) = (Sat-append m (extend_suffixed [] (out_at st a) _) _).0 h in
      elim (at_or_after a i lo) [
        | inl e ↦ (st, subst (λ j. Sat m (out_at st j)) e ((extend_suffixed_iff m [] _ _).0 now).1)
        | inr more ↦ out_steps-Sat (suc a) n _ later i more (omega arith)
      ]

  module _ (st : St) (base : Sat m (base_constrs sch sts st).0) where
    -- Every buffer's constraints.
    pub base-inputs : (i : ℕ) → i < sts.num_bufs → Sat m (inputs sts i)
    unfolding base_constrs
    base-inputs i b =
        (All-loop_iff (λ ne. Holds m ne.e) (inputs sts) 0 sts.num_bufs).0
          ((Sat-append m (gather (inputs sts) (range 0 sts.num_bufs)) _).0 base).0 i (omega arith) b

    base-trs : Sat m (trs sch sts st).0
    unfolding base_constrs
    base-trs =
        ((Sat-append m (trs sch sts st).0 _).0
          ((Sat-append m (gather (inputs sts) (range 0 sts.num_bufs)) _).0 base).1).0

    base-out : (st' : St) × Sat m (out sch sts st').0
    unfolding base_constrs
    base-out = (
      _,
      ((Sat-append m (trs sch sts st).0 _).0
          ((Sat-append m (gather (inputs sts) (range 0 sts.num_bufs)) _).0 base).1).1,
    )

    pub base-init :
        Sat m (sch.init sts st (get_bits_at_i sts.B 0) (get_bufs_at_i (sch.get_state sts st) 0)).0
    unfolding trs
    base-init = ((Sat-append m _ _).0 base-trs).0

    pub base-step : (i : ℕ) → suc i < sts.timesteps → (st' : St) × Sat m (trs_at st' i)
    unfolding trs
    base-step i b =
        trs_steps-Sat 0 (sts.timesteps - 1 - 0) _ ((Sat-append m _ _).0 base-trs).1 i (omega arith)
          (omega arith)

    pub base-output : (j : ℕ) → j < sts.timesteps → (st' : St) × Sat m (out_at st' j)
    unfolding out
    base-output j b =
        let (st', h) = base-out in
        out_steps-Sat 0 (sts.timesteps - 0) st' h j (omega arith) (omega arith)
