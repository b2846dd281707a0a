-- ===== src/Leaf/Windows.antt =====
-- The windows of a buffer of a switch (`winds` and `winds_old` of src/leaf_spine/leaf_base.cpp). In
-- contrast to src/sts_checker.cpp, closing a window takes over what had been handed on before.

pub mod Balance
use count_buffy.Prelude.{
  ℕ, ◌-◌, ◌*◌, List, [], ◌∷◌, ◌++◌, pos, ◌-ℤ◌, range, gather, codes, to_string,
}
use count_buffy.Z3.{Z3, ◌&&◌, num}
use count_buffy.Vec.{row, sum, sum_eq}
use count_buffy.NamedExp.{NamedExp, of_expr, named}
use count_buffy.Vec.{sum_gt, sum_le, sum_ge, sum_lt, le_vec, eq_vec, add_vec, sub_vec}
use count_buffy.NamedExp.{merge_in}
use count_buffy.Solver.{const_vec}
use count_buffy.Sts.Windows.{tagged}
use count_buffy.Leaf.Buffs.{LeafBuff}
use count_buffy.Leaf.Switch.{Switch}

module _ ⦃z : Z3⦄ where
  -- The window's update at step `j`: the first branch closes the window.
  unfoldable pub update : Switch → LeafBuff → ℕ → z.BoolExpr
  update sw buff j =
      let we = buff.wnd_enq in
      let wn = buff.wnd_enq_nxt in
      let wo = buff.wnd_out in
      let se = row buff.tmp_wnd_enq j in
      let sn = row buff.tmp_wnd_enq_nxt j in
      let to = add_vec (row wo (j - 1)) (row buff.O j) in
      z.ite (le_vec se to)
        (eq_vec (row we j) (add_vec (row wn (j - 1)) sn)
          && eq_vec (row wn j) (const_vec sw.pkt_types (pos 0))
          && eq_vec (row wo j) (sub_vec to se))
        (eq_vec (row we j) se
          && eq_vec (row wn j) (add_vec (row wn (j - 1)) sn)
          && eq_vec (row wo j) to)

  -- The limits that are joined to the update.
  unfoldable pub limits : Switch → LeafBuff → ℕ → z.BoolExpr → z.BoolExpr
  limits sw buff j constr =
      let cap = sw.buff_cap in
      let se = row buff.tmp_wnd_enq j in
      let sn = row buff.tmp_wnd_enq_nxt j in
      let to = add_vec (row buff.wnd_out (j - 1)) (row buff.O j) in
      constr
      && sum_le se (pos cap)
      && sum_le sn (pos cap -ℤ pos 1)
      && sum_ge sn (pos 0)
      && sum_ge se (pos 0)
      && sum_ge to (pos 0)
      && sum_le to (pos (2 * cap))
      && sum_lt (row buff.wnd_enq_nxt j) (pos cap)
      && le_vec (row buff.wnd_enq (j - 1)) se
      && z.implies (z.lt (num 0) (sum sn)) (z.eq (sum se) (num cap))
      && z.implies (z.lt (sum se) (num cap)) (z.eq (sum sn) (num 0))
      && z.neg (z.lt (sum se) (num cap) && z.lt (num 0) (sum sn))

  unfoldable pub winds_at : Switch → LeafBuff → ℕ → List NamedExp
  unfolding update limits
  winds_at sw buff j =
      of_expr (
        eq_vec (add_vec (row buff.wnd_enq (j - 1)) (row buff.E j))
          (add_vec (row buff.tmp_wnd_enq j) (row buff.tmp_wnd_enq_nxt j)))
      ∷ of_expr (limits sw buff j (update sw buff j))
      ∷ of_expr (le_vec (row buff.wnd_out j) (row buff.wnd_enq j))
      ∷ []

  unfoldable pub winds_list : Switch → LeafBuff → List NamedExp
  unfolding winds_at
  winds_list sw buff =
      of_expr (eq_vec (row buff.wnd_enq 0) (row buff.E 0))
      ∷ of_expr (eq_vec (row buff.wnd_out 0) (row buff.O 0))
      ∷ of_expr (sum_eq (row buff.wnd_enq_nxt 0) (pos 0))
      ∷ gather (winds_at sw buff) (range 1 sw.timesteps)

  unfoldable pub winds : Switch → LeafBuff → ℕ → List NamedExp
  unfolding winds_list
  winds sw buff i = merge_in (winds_list sw buff) (codes "wins[" ++ to_string i ++ codes "]") ∷ []

  -- The constraints of one step of `winds_old`, which no method calls.
  unfoldable pub step_old : Switch → LeafBuff → ℕ → ℕ → List NamedExp
  step_old sw buff i j =
      let cap = pos sw.buff_cap in
      let we = buff.wnd_enq in
      let wn = buff.wnd_enq_nxt in
      let wo = buff.wnd_out in
      let te = row buff.tmp_wnd_enq j in
      let tn = row buff.tmp_wnd_enq_nxt j in
      let total_sum = add_vec (add_vec (row we (j - 1)) (row wn (j - 1))) (row buff.E j) in
      let to = add_vec (row wo (j - 1)) (row buff.O j) in
      let m = le_vec te to in
      named (eq_vec (add_vec te tn) total_sum) (tagged (codes "Update te + tn") i j)
      ∷ named
          (z.neg (sum_lt te cap && sum_gt tn (pos 0))
            && sum_le te cap
            && sum_le tn cap
            && le_vec (row we (j - 1)) te)
          (tagged (codes "Overflow mechanism") i j)
      ∷ named
          (z.ite m (eq_vec (row we j) tn) (
            z.ite (sum_le total_sum cap) (eq_vec (row we j) total_sum)
              (eq_vec (row we j) total_sum)))
          (tagged (codes "Update WE") i j)
      ∷ named (z.ite m (sum_eq (row wn j) (pos 0)) (eq_vec (row wn j) tn))
          (tagged (codes "Update WN") i j)
      ∷ named (z.ite m (eq_vec (row wo j) (sub_vec to te)) (eq_vec (row wo j) to))
          (tagged (codes "Update WO") i j)
      ∷ named (le_vec (row wo j) (row we j)) (tagged (codes "WndOut <= WndEnq") i j)
      ∷ named (eq_vec (row buff.C j) (sub_vec (add_vec (row we j) (row wn j)) (row wo j)))
          (tagged (codes "equity") i j)
      ∷ []

  unfoldable pub winds_old : Switch → LeafBuff → ℕ → List NamedExp
  unfolding step_old
  winds_old sw buff i =
      named (eq_vec (row buff.wnd_enq 0) (row buff.E 0)) (tagged (codes "WndEnq") i 0)
      ∷ named (eq_vec (row buff.wnd_out 0) (row buff.O 0)) (tagged (codes "WndOut") i 0)
      ∷ named (sum_eq (row buff.wnd_enq_nxt 0) (pos 0)) (tagged (codes "WndNxt") i 0)
      ∷ gather (step_old sw buff i) (range 1 sw.timesteps)
