-- ===== src/Runner/Loom.antt =====
-- src/loom_sts_runner.hpp and src/loom_sts_runner.cpp: the runner for the composition of several
-- switches, with its own base workload and query.
use count_buffy.Prelude.{
  ℕ, ◌+◌, ◌%◌, List, [], ◌∷◌, ◌++◌, length, rest_of, get_or, range, loop, gather, ◌==◌,
  if◌then◌else◌, Text, codes, to_string,
}
use count_buffy.Z3.{Z3, num}
use count_buffy.Vec.{Ev2, Ev3, at, row}
use count_buffy.NamedExp.{NamedExp, of_expr, named}
use count_buffy.Solver.{
  and_go, SmtSolver, Outcome, returns, throws, add_all, add, check_sat, check_unsat,
}
use count_buffy.NamedExp.{merge, negate}
use count_buffy.Sts.Checks.{push, pop}
use count_buffy.Vec.{sum_rows_to, add_vec}
use count_buffy.Workload
use count_buffy.Workload.Lines.{parse}
use count_buffy.Prelude.{text_eq}

module _ ⦃z : Z3⦄ where
  -- Input `i` has packets of type `i % 3` only.
  unfoldable pub own_type : Ev3 → List NamedExp
  own_type ins =
      gather
        (λ t.
          gather
            (λ i.
              gather
                (λ k.
                  if i % 3 == k
                  then []
                  else named (z.eq (at (row (row ins i) t) k) (num 0)) (
                      codes "bse_wl: I["
                      ++ to_string i
                      ++ codes "]["
                      ++ to_string t
                      ++ codes "]["
                      ++ to_string k
                      ++ codes "] == 0")
                    ∷ [])
                (range 0 (length (row (row ins 0) 0))))
            (range 0 (length ins)))
        (range 0 (length (row ins 0)))

  -- What arrived by step `t` at the inputs with `i % 3 == 0`, and at the others.
  unfoldable pub sums_at : Ev3 → ℕ → z.IntExpr × z.IntExpr
  sums_at ins t =
      loop
        (λ s i.
          let (s0, s1) = s in
          if i % 3 == 0
          then (z.add s0 (sum_rows_to (row ins i) t), s1)
          else (s0, z.add s1 (sum_rows_to (row ins i) t)))
        (num 0, num 0) (range 0 (length ins))

  unfoldable pub base_wl : Ev3 → List NamedExp
  unfolding own_type sums_at
  base_wl ins =
      own_type ins
      ++ gather
          (λ t.
            let (s0, s1) = sums_at ins t in
            of_expr (z.le (num (t + 1)) s0)
            ∷ named (z.le (num (t + 1)) s1) (codes "I[s1][" ++ to_string t ++ codes "] >= t")
            ∷ [])
          (range 0 (length (row ins 0)))

  unfoldable pub query : Ev2 → List NamedExp
  query out =
      let s = loop (λ s i. add_vec s (row out i)) (row out 0) (range 1 (length out)) in
      named (z.lt (num 3) (z.sub (z.add (at s 1) (at s 2)) (at s 0))) (codes "Query") ∷ []

  ignored : {A : Type 0} → Outcome A → SmtSolver → Outcome SmtSolver
  ignored (returns a) slv = returns (pop slv)
  ignored (throws e) slv = throws e

  unfoldable pub verdict : Ev2 → Text → SmtSolver → Outcome SmtSolver
  unfolding ignored query
  verdict out res_stat slv =
      let slv = add slv (negate (merge (query out) (codes "not query"))) in
      if text_eq res_stat (codes "SAT")
      then ignored (check_sat slv) slv
      else if text_eq res_stat (codes "UNSAT")
      then ignored (check_unsat slv) slv
      else returns (pop slv)

  judged : Ev2 → Text → Outcome SmtSolver → Outcome SmtSolver
  unfolding verdict
  judged out res_stat (returns slv) = verdict out res_stat slv
  judged out res_stat (throws e) = throws e

  module _ (parser : Text → List Workload.Node) (i : Ev3) (out : Ev2) where
    unfoldable pub run_all : SmtSolver → List (List Text) → Outcome SmtSolver
    unfolding judged and_go
    run_all slv [] = returns slv
    run_all slv (wl ∷ wls) =
        and_go
          (judged out (get_or wl 0 [])
            (parse parser i (length i) (length (row i 0)) (push slv) (rest_of wl)))
          (λ slv. run_all slv wls)

    unfoldable pub run : SmtSolver → List (List Text) → Outcome SmtSolver
    unfolding base_wl run_all
    run slv wls = run_all (add_all slv (base_wl i)) wls
