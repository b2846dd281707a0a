-- ===== src/Merger/Classifier.antt =====
-- src/classifier.hpp and src/classifier.cpp: types 0 and 1 go to output 1, type 2 to output 0.
use count_buffy.Prelude.{ℕ, List, [], ◌++◌, pos, set, range, loop, Text, codes}
use count_buffy.Z3.{Z3, num}
use count_buffy.Vec.{Ev3, at, row}
use count_buffy.NamedExp.{NamedExp}
use count_buffy.Solver.{SmtSolver, ivvv, add_bound}

pub record Classifier ⦃z : Z3⦄ : Type 0 where
  pub I : Ev3
  pub O : Ev3
  pub timesteps : ℕ
  pub out_bufs : ℕ
  pub pkt_types : ℕ

module _ ⦃z : Z3⦄ where
  -- The parameter `o` is the number of outputs, of which two are made.
  unfoldable pub new_classifier : SmtSolver → Text → ℕ → ℕ → ℕ → Classifier × SmtSolver
  new_classifier slv var_prefix m k o =
      let (i, slv) = ivvv 1 m k (codes "I_" ++ var_prefix) slv in
      let (out, slv) = ivvv 2 m k (codes "O_" ++ var_prefix) slv in
      let slv = add_bound (add_bound slv i (pos 0) (pos 100)) out (pos 0) (pos 100) in
      (record { I = i; O = out; timesteps = m; out_bufs = o; pkt_types = k }, slv)

  -- `O[b][j][p] = e`
  abbrev pub set_at : Ev3 → ℕ → ℕ → ℕ → z.IntExpr → Ev3
  set_at o b j p e = set o b (set (row o b) j (set (row (row o b) j) p e))

  unfoldable pub classify : Ev3 → Ev3 → ℕ → Ev3
  classify i o j =
      let from = row (row i 0) j in
      let o = set_at o 1 j 0 (at from 0) in
      let o = set_at o 1 j 1 (at from 1) in
      let o = set_at o 1 j 2 (num 0) in
      let o = set_at o 0 j 0 (num 0) in let o = set_at o 0 j 1 (num 0) in set_at o 0 j 2 (at from 2)

  unfoldable pub set_out : Classifier → List NamedExp × Classifier
  unfolding classify
  set_out cl = ([], record cl { O = loop (classify cl.I) cl.O (range 0 cl.timesteps) })
