-- ===== src/Leaf/Windows/Balance.antt =====
-- What the windows of `LeafBase::winds` count: what a window holds and hands on, less what has left, is
-- what has been enqueued less what has left, also when windows close.

use count_buffy.Prelude.{
  ℕ, zero, suc, ◌<◌, ◌≡◌, ◌∙◌, inl, inr, arith, int_laws, parts, ℤ, pos, ◌+ℤ◌, ◌-ℤ◌, ◌≤ℤ◌,
  Bool-cases, length, total, total_zero_entries, All-loop_iff, codes, to_string, ◌++◌,
}
use count_buffy.Z3.{Z3, Holds, ite_true, ite_false}
use count_buffy.Vec.{Ev, Ev2, row, eq_vec, le_vec, add_vec}
use count_buffy.Vec.Meaning.{
  val, eq_vec_sized, val-add_vec, val-sub_vec, length-add_vec, sum_eq_iff,
}
use count_buffy.NamedExp.{of_expr, Sat}
use count_buffy.NamedExp.Meaning.{merge_in_iff}
use count_buffy.Sts.Inputs.Steps.{suc-sub-one}
use count_buffy.Sts.Windows.Balance.{first, second, val-zeros}
use count_buffy.Leaf.Buffs.{LeafBuff}
use count_buffy.Leaf.Switch.{Switch}
use count_buffy.Leaf.Windows.{update, limits, winds_at, winds_list, winds}

-- The rows that the windows read have an entry for each packet type.
pub record IsLeafWindowed ⦃z : Z3⦄ (sw : Switch) (buff : LeafBuff) (k : ℕ) : Type 0 where
  pub types : sw.pkt_types ≡ suc k
  pub shape_we : (t : ℕ) → t < sw.timesteps → length (row buff.wnd_enq t) ≡ suc k
  pub shape_wn : (t : ℕ) → t < sw.timesteps → length (row buff.wnd_enq_nxt t) ≡ suc k
  pub shape_wo : (t : ℕ) → t < sw.timesteps → length (row buff.wnd_out t) ≡ suc k
  pub shape_se : (t : ℕ) → t < sw.timesteps → length (row buff.tmp_wnd_enq t) ≡ suc k

module _ ⦃z : Z3⦄ (m : z.Model) where
  limits-constr :
      (sw : Switch) (buff : LeafBuff) (j : ℕ) (constr : z.BoolExpr)
      → Holds m (limits sw buff j constr)
      → Holds m constr
  unfolding limits
  limits-constr sw buff j constr h = first m (
      first m
        (first m (first m (first m (first m (first m (first m (first m (first m (first m h))))))))))

  module _ (sw : Switch) (buff : LeafBuff) (i k : ℕ) (windowed : IsLeafWindowed sw buff k)
      (sat : Sat m (winds sw buff i)) where
    abbrev pub entry_at : Ev2 → ℕ → ℕ → ℤ
    entry_at x s p = val m (row x s) p

    -- What a window holds and hands on less what has left.
    abbrev pub counted_by : ℕ → ℕ → ℤ
    counted_by t p =
        entry_at buff.wnd_enq t p +ℤ entry_at buff.wnd_enq_nxt t p -ℤ entry_at buff.wnd_out t p

    lists : Sat m (winds_list sw buff)
    unfolding winds
    lists =
        (merge_in_iff m (winds_list sw buff) (codes "wins[" ++ to_string i ++ codes "]")).0 sat.0

    module _ (t : ℕ) (b : suc t < sw.timesteps) where
      at_step :
          Holds m (
            eq_vec
              (add_vec (row buff.wnd_enq t) (row buff.E (suc t)))
              (add_vec (row buff.tmp_wnd_enq (suc t)) (row buff.tmp_wnd_enq_nxt (suc t))))
          × Holds m (update sw buff (suc t))
      unfolding winds_list winds_at of_expr
      at_step =
          let now =
            (All-loop_iff (λ ne. Holds m ne.e) (winds_at sw buff) 1 sw.timesteps).0 lists.1.1.1
              (suc t) (omega arith) b in
          (
            rw (suc-sub-one t) at now.0,
            limits-constr sw buff (suc t) (update sw buff (suc t)) now.1.0,
          )

      filled :
          (p : ℕ)
          → p < suc k
          → entry_at buff.wnd_enq t p +ℤ entry_at buff.E (suc t) p
            ≡ entry_at buff.tmp_wnd_enq (suc t) p +ℤ entry_at buff.tmp_wnd_enq_nxt (suc t) p
      filled p pb =
          let We = row buff.wnd_enq t in
          let Ej = row buff.E (suc t) in
          let Se = row buff.tmp_wnd_enq (suc t) in
          let Sn = row buff.tmp_wnd_enq_nxt (suc t) in
          let in_we = windowed.shape_we t (omega arith) in
          let in_se = windowed.shape_se (suc t) b in
          let same =
            (eq_vec_sized m (add_vec We Ej) (add_vec Se Sn) k (length-add_vec We Ej ∙ in_we)).0
              at_step.0 p pb in
          rw (val-add_vec m We Ej p (omega arith), val-add_vec m Se Sn p (omega arith)) at same

      at_entry :
          (l r : Ev)
          → length l ≡ suc k
          → (p : ℕ) → p < suc k
          → Holds m (eq_vec l r)
          → val m l p ≡ val m r p
      at_entry l r e p pb h = (eq_vec_sized m l r k e).0 h p pb

      -- One step, whether the window closes or not.
      counted_by-next :
          (p : ℕ)
          → p < suc k
          → counted_by (suc t) p
            ≡ counted_by t p +ℤ entry_at buff.E (suc t) p -ℤ entry_at buff.O (suc t) p
      unfolding update
      counted_by-next p pb =
          let Wn = row buff.wnd_enq_nxt t in
          let Se = row buff.tmp_wnd_enq (suc t) in
          let Sn = row buff.tmp_wnd_enq_nxt (suc t) in
          let to = add_vec (row buff.wnd_out t) (row buff.O (suc t)) in
          let change = rw (update, suc-sub-one t) at at_step.1 in
          let fill = parts (filled p pb) in
          let in_wo = windowed.shape_wo t (omega arith) in
          let in_wn = windowed.shape_wn t (omega arith) in
          let out = val-add_vec m (row buff.wnd_out t) (row buff.O (suc t)) p (omega arith) in
          let handed = val-add_vec m Wn Sn p (omega arith) in
          elim (Bool-cases (z.holds m (le_vec Se to))) [
            | inl closes ↦
                let both = (ite_true m _ _ _ closes).0 change in
                let we = at_entry _ _ (windowed.shape_we (suc t) b) p pb (first m (first m both)) in
                let wn =
                  at_entry _ _ (windowed.shape_wn (suc t) b) p pb (second m (first m both)) in
                let wo = at_entry _ _ (windowed.shape_wo (suc t) b) p pb (second m both) in
                let types = windowed.types in
                let emptied = val-zeros m sw.pkt_types p (omega arith) in
                let sized = length-add_vec (row buff.wnd_out t) (row buff.O (suc t)) in
                let passed = val-sub_vec m to Se p (omega arith) in
                omega (
                  int_laws,
                  parts (we ∙ handed),
                  parts (wn ∙ emptied),
                  parts (wo ∙ passed),
                  parts out,
                  fill,
                )
            | inr stays ↦
                let both = (ite_false m _ _ _ stays).0 change in
                let we = at_entry _ _ (windowed.shape_we (suc t) b) p pb (first m (first m both)) in
                let wn =
                  at_entry _ _ (windowed.shape_wn (suc t) b) p pb (second m (first m both)) in
                let wo = at_entry _ _ (windowed.shape_wo (suc t) b) p pb (second m both) in
                omega (int_laws, parts we, parts (wn ∙ handed), parts (wo ∙ out), fill)
          ]

    at_start :
        (p : ℕ)
        → p < suc k
        → 0 < sw.timesteps
        → ((q : ℕ) → q < suc k → pos 0 ≤ℤ entry_at buff.wnd_enq_nxt 0 q)
        → counted_by 0 p ≡ entry_at buff.E 0 p -ℤ entry_at buff.O 0 p
    unfolding winds_list of_expr
    at_start p pb b nonneg =
        let we = (eq_vec_sized m _ _ k (windowed.shape_we 0 b)).0 lists.0 p pb in
        let wo = (eq_vec_sized m _ _ k (windowed.shape_wo 0 b)).0 lists.1.0 p pb in
        let none_ =
          (sum_eq_iff m (row buff.wnd_enq_nxt 0) k (pos 0) (windowed.shape_wn 0 b)).0 lists.1.1.0 in
        let wn = total_zero_entries (suc k) (val m (row buff.wnd_enq_nxt 0)) nonneg none_ p pb in
        omega (int_laws, parts we, parts wo, parts wn)

    -- In a model of the constraints of `LeafBase::winds`, with the window vectors of full size
    -- and no negative `wnd_enq_nxt` in the first step: at every step what the window holds and
    -- hands on less what has left is, for each packet type, what has been enqueued so far less
    -- what has left so far, whether windows were closed or not.
    pub leaf_winds-balance :
        ((q : ℕ) → q < suc k → pos 0 ≤ℤ entry_at buff.wnd_enq_nxt 0 q)
        → (t p : ℕ) → t < sw.timesteps
        → p < suc k
        → counted_by t p
          ≡ total (suc t) (λ s. entry_at buff.E s p) -ℤ total (suc t) (λ s. entry_at buff.O s p)
    unfolding total
    leaf_winds-balance nonneg zero p b pb =
        let start = parts (at_start p pb b nonneg) in omega int_laws
    leaf_winds-balance nonneg (suc t) p b pb =
        let earlier = parts (leaf_winds-balance nonneg t p (omega arith) pb) in
        let step = parts (counted_by-next t b p pb) in omega int_laws
