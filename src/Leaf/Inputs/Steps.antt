-- ===== src/Leaf/Inputs/Steps.antt =====
-- What the constraints of Leaf.Inputs say in a model: the quantities of the model as a history of the
-- buffer, and each list of constraints as a statement about all its steps.

use count_buffy.Prelude.{
  ℕ, ◌-◌, suc, ◌<◌, ◌≡◌, ◌↔◌, inl, inr, sym, ◌∙◌, false, pos, Bool-cases, Bool_ext, length, total,
  total_zero_entries, total_zeros, +ℤ_comm, arith, int_laws, parts,
}
use count_buffy.Z3.{Z3, ◌&&◌, Holds, conj_iff, neg_iff, iff_iff, implies_iff, ite_true, ite_false}
use count_buffy.Vec.{bit, row, sum_eq, sum_gt, sum_le, eq_vec, add_vec, sub_vec}
use count_buffy.Vec.Meaning.{
  val, sum_le_iff, sum_eq_iff, sum_gt_iff, total-add_vec, val-add_vec, val-sub_vec, length-add_vec,
  eq_vec_sized,
}
use count_buffy.NamedExp.{of_expr, Sat}
use count_buffy.Buffer.{Trace, IsCounted}
use count_buffy.Buffer.Store.{kept, Moves, Serves, Fits, Spills}
use count_buffy.Sts.Inputs.Steps.{Splits, suc-sub-one}
use count_buffy.Sts.Inputs.Constraints.{Sat-steps_iff}
use count_buffy.Leaf.Buffs.{LeafBuff}
use count_buffy.Leaf.Switch.{Switch}
use count_buffy.Leaf.Inputs.{
  bl_size_at, bl_size_list, enqs_at, enqs_list, drops_at, drops_list, enq_deq_sum_at,
  enq_deq_sum_list,
}

-- Every vector of the buffer has an entry for each of its `suc k` packet types.
pub record IsFull ⦃z : Z3⦄ (buff : LeafBuff) (timesteps k : ℕ) : Type 0 where
  pub shape_I : (t : ℕ) → t < timesteps → length (row buff.I t) ≡ suc k
  pub shape_E : (t : ℕ) → t < timesteps → length (row buff.E t) ≡ suc k
  pub shape_D : (t : ℕ) → t < timesteps → length (row buff.D t) ≡ suc k
  pub shape_O : (t : ℕ) → t < timesteps → length (row buff.O t) ≡ suc k
  pub shape_C : (t : ℕ) → t < timesteps → length (row buff.C t) ≡ suc k

abbrev pub buff_history : ⦃z : Z3⦄ → z.Model → LeafBuff → Trace
buff_history ⦃z⦄ m buff = record {
  arrived = λ t. val m (row buff.I t);
  enqueued = λ t. val m (row buff.E t);
  dropped = λ t. val m (row buff.D t);
  left = λ t. val m (row buff.O t);
  held = λ t. val m (row buff.C t);
  busy = λ t. z.holds m (bit buff.B t);
}

module _ ⦃z : Z3⦄ (m : z.Model) (sw : Switch) (buff : LeafBuff) (k : ℕ)
    (full : IsFull buff sw.timesteps k) where
  abbrev seen : Trace
  seen = buff_history m buff

  Serves-at :
      (t : ℕ)
      → t < sw.timesteps
      → Holds m (z.iff (bit buff.B t) (sum_gt (row buff.C t) (pos 0))) ↔ Serves (suc k) seen t
  Serves-at t b =
      let v = bit buff.B t in
      let more = sum_gt_iff m (row buff.C t) k (pos 0) (full.shape_C t b) in
      let both = iff_iff m v (sum_gt (row buff.C t) (pos 0)) in
      (
        λ h. (λ x. more.0 (sym (both.0 h) ∙ x), λ x. both.0 h ∙ more.1 x),
        λ h. both.1 (
            Bool_ext (z.holds m v) (z.holds m (sum_gt (row buff.C t) (pos 0)))
              (λ x. more.1 (h.0 x), λ x. h.1 (more.0 x))),
      )

  Moves-next :
      (t : ℕ)
      → suc t < sw.timesteps
      → Holds m (
          eq_vec (row buff.C (suc t)) (
            sub_vec
              (add_vec (row buff.C (suc t - 1)) (row buff.E (suc t - 1)))
              (row buff.O (suc t - 1))))
        ↔ Moves (suc k) seen (suc t)
  unfolding kept
  Moves-next t b = rw (suc-sub-one t) (
      let c = row buff.C t in
      let e = row buff.E t in
      let same =
        eq_vec_sized m (row buff.C (suc t)) (sub_vec (add_vec c e) (row buff.O t)) k
          (full.shape_C (suc t) b) in
      let size = full.shape_C t (omega arith) in
      let entry = λ (p : ℕ) (pb : p < suc k).
        val-sub_vec m (add_vec c e) (row buff.O t) p (omega (arith, length-add_vec c e)) in
      let filled = λ (p : ℕ) (pb : p < suc k). val-add_vec m c e p (omega arith) in
      (
        λ a p pb. omega (int_laws, parts (same.0 a p pb), parts (entry p pb), parts (filled p pb)),
        λ a.
            same.1
              (λ p pb. omega (int_laws, parts (a p pb), parts (entry p pb), parts (filled p pb))),
      ))

  Fits-at :
      (t : ℕ)
      → t < sw.timesteps
      → Holds m (sum_le (add_vec (row buff.E t) (row buff.C t)) (pos sw.buff_cap))
        ↔ Fits sw.buff_cap (suc k) seen t
  Fits-at t b =
      let e = row buff.E t in
      let c = row buff.C t in
      rw
        (total-add_vec m e c (suc k) (full.shape_E t b)
          ∙ +ℤ_comm (total (suc k) (val m e)) (total (suc k) (val m c)))
        at (sum_le_iff m (add_vec e c) k (pos sw.buff_cap) (length-add_vec e c ∙ full.shape_E t b))

  Spills-at :
      (t : ℕ)
      → t < sw.timesteps
      → Holds m (
          z.ite
            (bit buff.B t)
            (z.implies
              (sum_gt (row buff.D t) (pos 0))
              (sum_eq (add_vec (row buff.C t) (row buff.E t)) (pos sw.buff_cap)))
            (sum_eq (row buff.D t) (pos 0)))
        ↔ Spills sw.buff_cap (suc k) seen t
  Spills-at t b =
      let d = row buff.D t in
      let v = add_vec (row buff.C t) (row buff.E t) in
      let busy = bit buff.B t in
      let more = sum_gt_iff m d k (pos 0) (full.shape_D t b) in
      let sized = length-add_vec (row buff.C t) (row buff.E t) ∙ full.shape_C t b in
      let at_cap =
        rw (total-add_vec m (row buff.C t) (row buff.E t) (suc k) (full.shape_C t b)) at
          (sum_eq_iff m v k (pos sw.buff_cap) sized) in
      let empty = sum_eq_iff m d k (pos 0) (full.shape_D t b) in
      let only = implies_iff m (sum_gt d (pos 0)) (sum_eq v (pos sw.buff_cap)) in
      let when_busy =
        ite_true m busy (z.implies (sum_gt d (pos 0)) (sum_eq v (pos sw.buff_cap)))
          (sum_eq d (pos 0)) in
      let when_idle =
        ite_false m busy (z.implies (sum_gt d (pos 0)) (sum_eq v (pos sw.buff_cap)))
          (sum_eq d (pos 0)) in
      (
        λ h. (
          λ served some_dropped. at_cap.0 (only.0 ((when_busy served).0 h) (more.1 some_dropped)),
          λ idle. empty.0 ((when_idle idle).0 h),
        ),
        λ h. elim (Bool-cases (z.holds m busy)) [
          | inl served ↦ (when_busy served).1 (only.1 (λ x. at_cap.1 (h.0 served (more.0 x))))
          | inr idle ↦ (when_idle idle).1 (empty.1 (h.1 idle))
        ],
      )

  pub Splits-at :
      (t : ℕ)
      → t < sw.timesteps
      → Holds m (eq_vec (row buff.I t) (add_vec (row buff.E t) (row buff.D t)))
        ↔ Splits (suc k) seen t
  Splits-at t b =
      let e = row buff.E t in
      let d = row buff.D t in
      let same = eq_vec_sized m (row buff.I t) (add_vec e d) k (full.shape_I t b) in
      let entry =
        λ (p : ℕ) (pb : p < suc k). val-add_vec m e d p (omega (arith, full.shape_E t b)) in
      (λ a p pb. same.0 a p pb ∙ entry p pb, λ a. same.1 (λ p pb. a p pb ∙ sym (entry p pb)))

  module _ (some_step : 0 < sw.timesteps) where
    pub enq_deq_sum_list_iff :
        Sat m (enq_deq_sum_list sw buff) ↔ ((t : ℕ) → t < sw.timesteps → Splits (suc k) seen t)
    unfolding enq_deq_sum_list enq_deq_sum_at of_expr
    enq_deq_sum_list_iff =
        Sat-steps_iff m (Splits (suc k) seen)
          (of_expr (eq_vec (row buff.I 0) (add_vec (row buff.E 0) (row buff.D 0))))
          (enq_deq_sum_at buff) sw.timesteps some_step (Splits-at 0 some_step)
          (λ t b. let now = Splits-at (suc t) b in (λ h. now.0 h.0, λ h. (now.1 h, tt)))

    -- The first step, of a buffer that holds nothing then.
    module _ (empty : total (suc k) (seen.held 0) ≡ pos 0) where
      pub Serves-first : Holds m (z.neg (bit buff.B 0)) ↔ Serves (suc k) seen 0
      Serves-first =
          let off = neg_iff m (bit buff.B 0) in
          (
            λ h. (
              λ on. let idle = off.0 h in cc,
              λ some_held. absurd (some_held (rw empty (omega arith))),
            ),
            λ serves. off.1 (elim (Bool-cases (z.holds m (bit buff.B 0))) [
              | inl on ↦ absurd (serves.0 on (rw empty (omega arith)))
              | inr idle ↦ idle
            ]),
          )

      pub Fits-first :
          Holds m (sum_le (row buff.E 0) (pos sw.buff_cap)) ↔ Fits sw.buff_cap (suc k) seen 0
      Fits-first =
          let few = sum_le_iff m (row buff.E 0) k (pos sw.buff_cap) (full.shape_E 0 some_step) in
          let none_held = parts empty in
          (λ h. let le = few.0 h in omega int_laws, λ h. few.1 (omega int_laws))

      pub enqs_list_iff :
          z.holds m (bit buff.B 0) ≡ false
          → Sat m (enqs_list sw buff)
            ↔ ((t : ℕ) → t < sw.timesteps → Fits sw.buff_cap (suc k) seen t)
      unfolding enqs_list enqs_at of_expr
      enqs_list_iff idle =
          Sat-steps_iff m (Fits sw.buff_cap (suc k) seen)
            (of_expr (sum_le (row buff.E 0) (pos sw.buff_cap) && z.neg (bit buff.B 0)))
            (enqs_at sw buff) sw.timesteps some_step
            (let both =
                conj_iff m (sum_le (row buff.E 0) (pos sw.buff_cap)) (z.neg (bit buff.B 0)) in
              (
                λ h. Fits-first.0 (both.0 h).0,
                λ h. both.1 (Fits-first.1 h, (neg_iff m (bit buff.B 0)).1 idle),
              ))
            (λ t b. let now = Fits-at (suc t) b in (λ h. now.0 h.0, λ h. (now.1 h, tt)))

    pub drops_list_iff :
        z.holds m (bit buff.B 0) ≡ false
        → Sat m (drops_list sw buff)
          ↔ ((t : ℕ) → t < sw.timesteps → Spills sw.buff_cap (suc k) seen t)
    unfolding drops_list drops_at of_expr
    drops_list_iff idle =
        Sat-steps_iff m (Spills sw.buff_cap (suc k) seen) (of_expr (sum_eq (row buff.D 0) (pos 0)))
          (drops_at sw buff) sw.timesteps some_step
          (let none_ = sum_eq_iff m (row buff.D 0) k (pos 0) (full.shape_D 0 some_step) in
            (λ h. (λ on. let off = idle in cc, λ _. none_.0 h), λ h. none_.1 (h.1 idle)))
          (λ t b. let now = Spills-at (suc t) b in (λ h. now.0 h.0, λ h. (now.1 h, tt)))

    module _ (counted : IsCounted (suc k) sw.timesteps seen) where
      pub Moves-first : (total (suc k) (seen.held 0) ≡ pos 0) ↔ Moves (suc k) seen 0
      unfolding kept
      Moves-first = (
        total_zero_entries (suc k) (seen.held 0) (λ p b. counted.held_nonneg 0 p some_step b),
        total_zeros (suc k) (seen.held 0),
      )

      pub bl_size_list_iff :
          Sat m (bl_size_list sw buff)
          ↔ ((t : ℕ) → t < sw.timesteps → Moves (suc k) seen t × Serves (suc k) seen t)
      unfolding bl_size_list bl_size_at of_expr
      bl_size_list_iff =
          let none_ = sum_eq_iff m (row buff.C 0) k (pos 0) (full.shape_C 0 some_step) in
          let steps = λ (empty : total (suc k) (seen.held 0) ≡ pos 0).
            Sat-steps_iff m (λ t. Moves (suc k) seen t × Serves (suc k) seen t)
              (of_expr (z.neg (bit buff.B 0))) (bl_size_at buff) sw.timesteps some_step
              (
                λ h. (Moves-first.0 empty, (Serves-first empty).0 h),
                λ h. (Serves-first empty).1 h.1,
              )
              (λ t b.
                let serves = Serves-at (suc t) b in
                let moves = Moves-next t b in
                (λ h. (moves.0 h.1.0, serves.0 h.0), λ h. (serves.1 h.1, (moves.1 h.0, tt)))) in
          (
            λ h. (steps (none_.0 h.0)).0 h.1,
            λ h. let empty = Moves-first.1 (h 0 some_step).0 in (none_.1 empty, (steps empty).1 h),
          )
