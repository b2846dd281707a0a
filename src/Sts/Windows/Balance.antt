-- ===== src/Sts/Windows/Balance.antt =====
-- What the windows of `STSChecker::winds` count: what a window holds and hands on, less what has left.
use count_buffy.Sts.Windows.{winds_at, winds, update, limits}
use count_buffy.Sts.Inputs.Steps.{suc-sub-one}
use count_buffy.Solver.{const_vec}
use count_buffy.Vec.{eq_vec, le_vec, add_vec}
use count_buffy.Vec.Meaning.{
  val, eq_vec_sized, val-add_vec, val-sub_vec, length-add_vec, get_or-map_all,
}
use count_buffy.Prelude.{All-loop_iff}
use count_buffy.Prelude.{
  ℕ, suc, ◌<◌, ◌≡◌, ap, ◌∙◌, inl, inr, false, arith, int_laws, parts, ℤ, pos, ◌+ℤ◌, ◌-ℤ◌,
  Bool-cases, length,
}
use count_buffy.Z3.{Z3, ◌&&◌, Holds, conj_iff, ite_true, ite_false}
use count_buffy.Vec.{Ev, Ev3, row}
use count_buffy.NamedExp.{of_expr, Sat}
use count_buffy.Sts.{Sts}

-- The rows that the windows read have an entry for each packet type.
pub record IsWindowed ⦃z : Z3⦄ (sts : Sts) (i k : ℕ) : Type 0 where
  pub types : sts.pkt_types ≡ suc k
  pub shape_we : (t : ℕ) → t < sts.timesteps → length (row (row sts.wnd_enq i) t) ≡ suc k
  pub shape_wn : (t : ℕ) → t < sts.timesteps → length (row (row sts.wnd_enq_nxt i) t) ≡ suc k
  pub shape_wo : (t : ℕ) → t < sts.timesteps → length (row (row sts.wnd_out i) t) ≡ suc k
  pub shape_se : (t : ℕ) → t < sts.timesteps → length (row (row sts.tmp_wnd_enq i) t) ≡ suc k

module _ ⦃z : Z3⦄ (m : z.Model) where
  pub first : {a b : z.BoolExpr} → Holds m (a && b) → Holds m a
  first {a} {b} h = ((conj_iff m a b).0 h).0

  pub second : {a b : z.BoolExpr} → Holds m (a && b) → Holds m b
  second {a} {b} h = ((conj_iff m a b).0 h).1

  limits-constr :
      (sts : Sts) (i j : ℕ) (constr : z.BoolExpr) → Holds m (limits sts i j constr) → Holds m constr
  unfolding limits
  limits-constr sts i j constr h =
      first (first (first (first (first (first (first (first (first (first (first h))))))))))

  pub val-zeros : (n p : ℕ) → p < n → val m (const_vec n (pos 0)) p ≡ pos 0
  unfolding const_vec
  val-zeros n p b =
      ap (z.value m) (get_or-map_all (λ i. z.int_val (pos 0)) z.undefined_int n p b)
      ∙ z.value-int_val m (pos 0)

  module _ (sts : Sts) (i k : ℕ) (windowed : IsWindowed sts i k) (t : ℕ) (b : suc t < sts.timesteps)
      (sat : Sat m (winds sts i)) where
    abbrev pub entry : Ev3 → ℕ → ℕ → ℤ
    entry x s p = val m (row (row x i) s) p

    abbrev left_over : Ev
    left_over = add_vec (row (row sts.wnd_out i) t) (row (row sts.O i) (suc t))

    abbrev pub Closes : Type 0
    Closes = Holds m (le_vec (row (row sts.tmp_wnd_enq i) (suc t)) left_over)

    -- The constraints of step `t + 1`.
    at_step :
        Holds m (
          eq_vec (add_vec (row (row sts.wnd_enq i) t) (row (row sts.E i) (suc t))) (
            add_vec
              (row (row sts.tmp_wnd_enq i) (suc t))
              (row (row sts.tmp_wnd_enq_nxt i) (suc t))))
        × Holds m (update sts i (suc t))
    unfolding winds winds_at of_expr
    at_step =
        let now =
          (All-loop_iff (λ ne. Holds m ne.e) (winds_at sts i) 1 sts.timesteps).0 sat.1.1.1 (suc t)
            (omega arith) b in
        (rw (suc-sub-one t) at now.0, limits-constr sts i (suc t) (update sts i (suc t)) now.1.0)

    filled :
        (p : ℕ)
        → p < suc k
        → entry sts.wnd_enq t p +ℤ entry sts.E (suc t) p
          ≡ entry sts.tmp_wnd_enq (suc t) p +ℤ entry sts.tmp_wnd_enq_nxt (suc t) p
    filled p pb =
        let We = row (row sts.wnd_enq i) t in
        let Ej = row (row sts.E i) (suc t) in
        let Se = row (row sts.tmp_wnd_enq i) (suc t) in
        let Sn = row (row sts.tmp_wnd_enq_nxt i) (suc t) in
        let in_we = windowed.shape_we t (omega arith) in
        let in_se = windowed.shape_se (suc t) b in
        let same =
          (eq_vec_sized m (add_vec We Ej) (add_vec Se Sn) k (length-add_vec We Ej ∙ in_we)).0
            at_step.0 p pb in
        rw (val-add_vec m We Ej p (omega arith), val-add_vec m Se Sn p (omega arith)) at same

    to_entry :
        (p : ℕ) → p < suc k → val m left_over p ≡ entry sts.wnd_out t p +ℤ entry sts.O (suc t) p
    to_entry p pb =
        let in_wo = windowed.shape_wo t (omega arith) in
        val-add_vec m (row (row sts.wnd_out i) t) (row (row sts.O i) (suc t)) p (omega arith)

    at_entry :
        (l r : Ev)
        → length l ≡ suc k
        → (p : ℕ) → p < suc k
        → Holds m (eq_vec l r)
        → val m l p ≡ val m r p
    at_entry l r e p pb h = (eq_vec_sized m l r k e).0 h p pb

    not_holds : {e : z.BoolExpr} → ¬ Holds m e → z.holds m e ≡ false
    not_holds {e} fails = elim (Bool-cases (z.holds m e)) [ inl t ↦ absurd (fails t) | inr f ↦ f ]

    -- In a model of the constraints of `winds`, with the window vectors of full size: while a
    -- window stays open, what it holds and hands on less what has left changes by what is
    -- enqueued and what leaves; in the step that closes it, what had been handed on before is
    -- left out of the balance.
    pub winds-balance :
        (p : ℕ)
        → p < suc k
        → (¬ Closes
            → entry sts.wnd_enq (suc t) p
                +ℤ entry sts.wnd_enq_nxt (suc t) p
                -ℤ entry sts.wnd_out (suc t) p
              ≡ entry sts.wnd_enq t p
                +ℤ entry sts.wnd_enq_nxt t p
                -ℤ entry sts.wnd_out t p
                +ℤ entry sts.E (suc t) p
                -ℤ entry sts.O (suc t) p)
          × (Closes
              → entry sts.wnd_enq (suc t) p
                  +ℤ entry sts.wnd_enq_nxt (suc t) p
                  -ℤ entry sts.wnd_out (suc t) p
                ≡ entry sts.wnd_enq t p
                  -ℤ entry sts.wnd_out t p
                  +ℤ entry sts.E (suc t) p
                  -ℤ entry sts.O (suc t) p)
    unfolding update
    winds-balance p pb =
        let Wn = row (row sts.wnd_enq_nxt i) (suc t) in
        let Se = row (row sts.tmp_wnd_enq i) (suc t) in
        let Sn = row (row sts.tmp_wnd_enq_nxt i) (suc t) in
        let change = rw (update, suc-sub-one t) at at_step.1 in
        let fill = parts (filled p pb) in
        let in_se = windowed.shape_se (suc t) b in
        let out = to_entry p pb in
        (
          λ stays.
              let off = not_holds stays in
              let both = (ite_false m _ _ _ off).0 change in
              let we = at_entry _ _ (windowed.shape_we (suc t) b) p pb (first (first both)) in
              let wn = at_entry _ _ (windowed.shape_wn (suc t) b) p pb (second (first both)) in
              let wo = at_entry _ _ (windowed.shape_wo (suc t) b) p pb (second both) in
              let handed =
                val-add_vec m (row (row sts.wnd_enq_nxt i) t) Sn p
                  (omega (arith, windowed.shape_wn t (omega arith))) in
              omega (int_laws, parts we, parts (wn ∙ handed), parts (wo ∙ out), fill),
          λ closes.
              let both = (ite_true m _ _ _ closes).0 change in
              let we = at_entry _ _ (windowed.shape_we (suc t) b) p pb (first (first both)) in
              let wn = at_entry _ _ (windowed.shape_wn (suc t) b) p pb (second (first both)) in
              let wo = at_entry _ _ (windowed.shape_wo (suc t) b) p pb (second both) in
              let in_wn = windowed.shape_wn (suc t) b in
              let in_wo = windowed.shape_wo t (omega arith) in
              let sized = length-add_vec (row (row sts.wnd_out i) t) (row (row sts.O i) (suc t)) in
              let opened = val-add_vec m Wn Sn p (omega arith) in
              let types = windowed.types in
              let emptied = val-zeros sts.pkt_types p (omega arith) in
              let passed = val-sub_vec m left_over Se p (omega (arith, sized)) in
              omega (
                int_laws,
                parts (we ∙ opened),
                parts (wn ∙ emptied),
                parts (wo ∙ passed),
                parts out,
                fill,
              ),
        )
