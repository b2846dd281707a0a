-- ===== src/Sts/Windows.antt =====
-- The windows of a checker, which count packets without their order (`winds` and `winds_old` of
-- src/sts_checker.cpp). A window is filled by what is enqueued up to the capacity, the surplus goes to
-- the next one, and it is closed when as much has left as it holds.
pub mod Balance
use count_buffy.Prelude.{
  ℕ, ◌-◌, ◌*◌, List, [], ◌∷◌, ◌++◌, Text, codes, to_string, pos, ◌-ℤ◌, gather, range,
}
use count_buffy.Z3.{Z3, ◌&&◌, num}
use count_buffy.Vec.{
  row, eq_vec, le_vec, sub_vec, add_vec, sum, sum_gt, sum_ge, sum_lt, sum_le, sum_eq,
}
use count_buffy.NamedExp.{NamedExp, of_expr, named}
use count_buffy.Solver.{const_vec}
use count_buffy.Sts.{Sts}

module _ ⦃z : Z3⦄ where
  -- The window's update at step `j`: the first branch closes the window.
  unfoldable pub update : Sts → ℕ → ℕ → z.BoolExpr
  update sts i j =
      let we = row sts.wnd_enq i in
      let wn = row sts.wnd_enq_nxt i in
      let wo = row sts.wnd_out i in
      let se = row (row sts.tmp_wnd_enq i) j in
      let sn = row (row sts.tmp_wnd_enq_nxt i) j in
      let to = add_vec (row wo (j - 1)) (row (row sts.O i) j) in
      z.ite (le_vec se to)
        (eq_vec (row we j) (add_vec (row wn j) sn)
          && eq_vec (row wn j) (const_vec sts.pkt_types (pos 0))
          && eq_vec (row wo j) (sub_vec to se))
        (eq_vec (row we j) se
          && eq_vec (row wn j) (add_vec (row wn (j - 1)) sn)
          && eq_vec (row wo j) to)

  -- The limits that are joined to the update.
  unfoldable pub limits : Sts → ℕ → ℕ → z.BoolExpr → z.BoolExpr
  limits sts i j constr =
      let we = row sts.wnd_enq i in
      let wn = row sts.wnd_enq_nxt i in
      let wo = row sts.wnd_out i in
      let se = row (row sts.tmp_wnd_enq i) j in
      let sn = row (row sts.tmp_wnd_enq_nxt i) j in
      let to = add_vec (row wo (j - 1)) (row (row sts.O i) j) in
      let c = sts.c in
      constr
      && sum_le se (pos c)
      && sum_le sn (pos c -ℤ pos 1)
      && sum_ge sn (pos 0)
      && sum_ge se (pos 0)
      && sum_ge to (pos 0)
      && sum_le to (pos (2 * c))
      && sum_lt (row wn j) (pos c)
      && le_vec (row we (j - 1)) se
      && z.implies (z.lt (num 0) (sum sn)) (z.eq (sum se) (num c))
      && z.implies (z.lt (sum se) (num c)) (z.eq (sum sn) (num 0))
      && z.neg (z.lt (sum se) (num c) && z.lt (num 0) (sum sn))

  -- The constraints of step `j`.
  unfoldable pub winds_at : Sts → ℕ → ℕ → List NamedExp
  unfolding update limits
  winds_at sts i j =
      let we = row sts.wnd_enq i in
      of_expr (
        eq_vec (add_vec (row we (j - 1)) (row (row sts.E i) j))
          (add_vec (row (row sts.tmp_wnd_enq i) j) (row (row sts.tmp_wnd_enq_nxt i) j)))
      ∷ of_expr (limits sts i j (update sts i j))
      ∷ of_expr (le_vec (row (row sts.wnd_out i) j) (row we j))
      ∷ []

  unfoldable pub winds : Sts → ℕ → List NamedExp
  unfolding winds_at
  winds sts i =
      of_expr (eq_vec (row (row sts.wnd_enq i) 0) (row (row sts.E i) 0))
      ∷ of_expr (eq_vec (row (row sts.wnd_out i) 0) (row (row sts.O i) 0))
      ∷ of_expr (sum_eq (row (row sts.wnd_enq_nxt i) 0) (pos 0))
      ∷ gather (winds_at sts i) (range 1 sts.timesteps)

  -- `format("{}[{}]@{}", what, i, j)`
  abbrev pub tagged : Text → ℕ → ℕ → Text
  tagged what i j = what ++ codes "[" ++ (to_string i ++ (codes "]@" ++ to_string j))

  -- The constraints of one step of `winds_old`.
  unfoldable pub step_old : Sts → ℕ → ℕ → List NamedExp
  step_old sts i j =
      let cap = pos sts.c in
      let we = row sts.wnd_enq i in
      let wn = row sts.wnd_enq_nxt i in
      let wo = row sts.wnd_out i in
      let te = row (row sts.tmp_wnd_enq i) j in
      let tn = row (row sts.tmp_wnd_enq_nxt i) j in
      let total_sum = add_vec (add_vec (row we (j - 1)) (row wn (j - 1))) (row (row sts.E i) j) in
      let to = add_vec (row wo (j - 1)) (row (row sts.O i) j) in
      let m = le_vec te to in
      named (eq_vec (add_vec te tn) total_sum) (tagged (codes "Update te + tn") i j)
      ∷ named
          (z.neg (sum_lt te cap && sum_gt tn (pos 0))
            && sum_le te cap
            && sum_le tn cap
            && le_vec (row we (j - 1)) te)
          (tagged (codes "Overflow mechanism") i j)
      ∷ named
          (z.ite m (eq_vec (row we j) tn) (
            z.ite (sum_le total_sum cap) (eq_vec (row we j) total_sum)
              (eq_vec (row we j) total_sum)))
          (tagged (codes "Update WE") i j)
      ∷ named (z.ite m (sum_eq (row wn j) (pos 0)) (eq_vec (row wn j) tn))
          (tagged (codes "Update WN") i j)
      ∷ named (z.ite m (eq_vec (row wo j) (sub_vec to te)) (eq_vec (row wo j) to))
          (tagged (codes "Update WO") i j)
      ∷ named (le_vec (row wo j) (row we j)) (tagged (codes "WndOut <= WndEnq") i j)
      ∷ named (eq_vec (row (row sts.C i) j) (sub_vec (add_vec (row we j) (row wn j)) (row wo j)))
          (tagged (codes "equity") i j)
      ∷ []

  unfoldable pub winds_old : Sts → ℕ → List NamedExp
  unfolding step_old
  winds_old sts i =
      named (eq_vec (row (row sts.wnd_enq i) 0) (row (row sts.E i) 0)) (tagged (codes "WndEnq") i 0)
      ∷ named (eq_vec (row (row sts.wnd_out i) 0) (row (row sts.O i) 0))
          (tagged (codes "WndOut") i 0)
      ∷ named (sum_eq (row (row sts.wnd_enq_nxt i) 0) (pos 0)) (tagged (codes "WndNxt") i 0)
      ∷ gather (step_old sts i) (range 1 sts.timesteps)
