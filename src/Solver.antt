-- ===== src/Solver.antt =====
-- src/smt_solver.hpp and src/smt_solver.cpp: declaring the variables of a model, asserting
-- constraints, and asking for a verdict. A call returns the solver object that it leaves; a
-- `runtime_error` is a result. An array of zero vectors, `new vector[0]`, is read as an empty vector.
pub mod Models
pub mod Arrays
pub mod Bounds
pub mod Cut
use count_buffy.Prelude.{
  ℕ, ◌+◌, Bool, true, List, [], ◌∷◌, ◌++◌, map, Text, codes, to_string, ℤ, length, get_or, range,
}
use count_buffy.Z3.{Z3, CheckResult, ◌&&◌, num}
use count_buffy.Vec.{Ev, Ev2, Ev3, Bv, Bv2}
use count_buffy.NamedExp.{NamedExp, named}

-- A loop whose rounds append a vector's entry and change a state.
module _ {ℓ κ} {A : Type ℓ} {S : Type κ} where
  unfoldable pub rounds : (ℕ → S → A × S) → List ℕ → S → List A × S
  rounds f [] s = ([], s)
  rounds f (i ∷ is) s = let (a, s₁) = f i s in let (as', s₂) = rounds f is s₁ in (a ∷ as', s₂)

pub data Outcome {ℓ} (A : Type ℓ) : Type ℓ where
  returns : A → Outcome A
  throws : Text → Outcome A

-- What follows a call that may throw.
unfoldable pub and_go {ℓ κ} : {A : Type ℓ} {B : Type κ} → Outcome A → (A → Outcome B) → Outcome B
and_go (returns a) f = f a
and_go (throws e) f = throws e

pub record SmtSolver ⦃z : Z3⦄ : Type 0 where
  pub s : z.Solver
  pub bool_vars : ℕ
  pub int_vars : ℕ

module _ ⦃z : Z3⦄ where
  -- The constructors set the random seed, which the interface does not see.
  unfoldable pub new_solver : SmtSolver
  new_solver = record { s = z.fresh; bool_vars = 0; int_vars = 0 }

  -- `name + "_" + to_string(i)`
  abbrev pub indexed : Text → ℕ → Text
  indexed name i = name ++ codes "_" ++ to_string i

  unfoldable pub bv : ℕ → Text → SmtSolver → Bv × SmtSolver
  unfolding rounds
  bv k name =
      rounds
        (λ i slv. (z.bool_const (indexed name i), record slv { bool_vars = slv.bool_vars + 1 }))
        (range 0 k)

  unfoldable pub bv_const : ℕ → Bool → SmtSolver → Bv × SmtSolver
  unfolding rounds
  bv_const k v =
      rounds (λ i slv. (z.bool_val v, record slv { bool_vars = slv.bool_vars + 1 })) (range 0 k)

  unfoldable pub bvv : ℕ → ℕ → Text → SmtSolver → Bv2 × SmtSolver
  unfolding rounds bv
  bvv m k name = rounds (λ i. bv k (indexed name i)) (range 0 m)

  -- The loop runs to `m`, not to `n`, and the names have no `_`.
  unfoldable pub bvvv : ℕ → ℕ → ℕ → Text → SmtSolver → List Bv2 × SmtSolver
  unfolding rounds bvv
  bvvv n m k name = rounds (λ i. bvv m k (name ++ to_string i)) (range 0 m)

  unfoldable pub iv : ℕ → Text → SmtSolver → Ev × SmtSolver
  unfolding rounds
  iv k name =
      rounds (λ i slv. (z.int_const (indexed name i), record slv { int_vars = slv.int_vars + 1 }))
        (range 0 k)

  unfoldable pub iv_const : ℕ → ℤ → SmtSolver → Ev × SmtSolver
  unfolding rounds
  iv_const k n =
      rounds (λ i slv. (z.int_val n, record slv { int_vars = slv.int_vars + 1 })) (range 0 k)

  -- One variable for each packet type in use; `k` is not read.
  unfoldable pub iv_used : ℕ → Text → List ℕ → SmtSolver → Ev × SmtSolver
  unfolding rounds
  iv_used k name pkt_types =
      rounds
        (λ i slv. (
          z.int_const (indexed name i ++ codes "->" ++ to_string (get_or pkt_types i 0)),
          record slv { int_vars = slv.int_vars + 1 },
        ))
        (range 0 (length pkt_types))

  unfoldable pub ivv : ℕ → ℕ → Text → SmtSolver → Ev2 × SmtSolver
  unfolding rounds iv
  ivv m k name = rounds (λ i. iv k (indexed name i)) (range 0 m)

  unfoldable pub ivv_const : ℕ → ℕ → ℤ → SmtSolver → Ev2 × SmtSolver
  unfolding rounds iv_const
  ivv_const m k n = rounds (λ i. iv_const k n) (range 0 m)

  unfoldable pub ivv_used : ℕ → ℕ → Text → List ℕ → SmtSolver → Ev2 × SmtSolver
  unfolding rounds iv_used
  ivv_used m k name pkt_types = rounds (λ i. iv_used k (indexed name i) pkt_types) (range 0 m)

  unfoldable pub ivvv : ℕ → ℕ → ℕ → Text → SmtSolver → Ev3 × SmtSolver
  unfolding rounds ivv
  ivvv n m k name = rounds (λ i. ivv m k (indexed name i)) (range 0 n)

  unfoldable pub const_vec : ℕ → ℤ → Ev
  const_vec size val = map (λ i. z.int_val val) (range 0 size)

  -- `s.add(e, name)`. That the library may throw, which the code reports and passes on, is left out.
  unfoldable pub add : SmtSolver → NamedExp → SmtSolver
  add slv ne = record slv { s = z.assert_named slv.s ne.e ne.name }

  unfoldable pub add_exp : SmtSolver → z.BoolExpr → Text → SmtSolver
  unfolding add
  add_exp slv e prefix = add slv (named e (prefix ++ codes "_" ++ z.to_text e))

  unfoldable pub add_all : SmtSolver → List NamedExp → SmtSolver
  unfolding add
  add_all slv [] = slv
  add_all slv (ne ∷ nes) = add_all (add slv ne) nes

  -- The bounds of one matrix, as the loops of `add_bound` join them.
  unfoldable pub bound_vec : ℤ → ℤ → z.BoolExpr → Ev → z.BoolExpr
  bound_vec lower upper res [] = res
  bound_vec lower upper res (e ∷ v) =
      bound_vec lower upper (res && z.le (z.int_val lower) e && z.le e (z.int_val upper)) v

  unfoldable pub bound_rows : ℤ → ℤ → z.BoolExpr → Ev2 → z.BoolExpr
  unfolding bound_vec
  bound_rows lower upper res [] = res
  bound_rows lower upper res (v ∷ vv) = bound_rows lower upper (bound_vec lower upper res v) vv

  unfoldable pub add_bound_rows : SmtSolver → Ev2 → ℤ → ℤ → SmtSolver
  unfolding bound_rows
  add_bound_rows slv vv lower upper = record slv {
    s = z.assert slv.s (bound_rows lower upper (z.bool_val true) vv);
  }

  unfoldable pub add_bounds : SmtSolver → Ev3 → ℤ → ℤ → SmtSolver
  unfolding add_bound_rows
  add_bounds slv [] lower upper = slv
  add_bounds slv (vv ∷ vvv) lower upper =
      add_bounds (add_bound_rows slv vv lower upper) vvv lower upper

  -- After the bounds of each matrix the function asserts its own `res`, which is still `true`.
  unfoldable pub add_bound : SmtSolver → Ev3 → ℤ → ℤ → SmtSolver
  unfolding add_bounds
  add_bound slv vvv lower upper =
      let bounded = add_bounds slv vvv lower upper in
      record bounded { s = z.assert bounded.s (z.bool_val true) }

  -- `ite(s + x <= C, x, ite(s == C, 0, C - s))`: as much of `x` as still fits.
  unfoldable pub fitting : z.IntExpr → z.IntExpr → z.IntExpr → z.IntExpr
  fitting s C x = z.ite_int (z.le (z.add s x) C) x (z.ite_int (z.eq s C) (num 0) (z.sub C s))

  unfoldable pub capped_from : z.IntExpr → z.IntExpr → Ev → Ev × Ev
  unfolding fitting
  capped_from s C [] = ([], [])
  capped_from s C (x ∷ v) =
      let val = fitting s C x in
      let (capped, slack) = capped_from (z.add s val) C v in (val ∷ capped, z.sub x val ∷ slack)

  -- The vector cut so that its sum is at most `cap`, and what was cut off.
  unfoldable pub capped : Ev → ℤ → Ev × Ev
  unfolding capped_from
  capped v cap = capped_from (num 0) (z.int_val cap) v

  -- `check_sat` throws unless the verdict is `sat`, `check_unsat` unless it is `unsat`.
  unfoldable pub model_of : SmtSolver → CheckResult → Outcome z.Model
  model_of slv CheckResult.sat = returns (z.get_model slv.s)
  model_of slv _ = throws (codes "Model is not SAT!")

  unfoldable pub check_sat : SmtSolver → Outcome z.Model
  unfolding model_of
  check_sat slv = model_of slv (z.check slv.s)

  unfoldable pub refuted : CheckResult → Outcome (Unit {0})
  refuted CheckResult.unsat = returns tt
  refuted _ = throws (codes "Model is SAT!")

  unfoldable pub check_unsat : SmtSolver → Outcome (Unit {0})
  unfolding refuted
  check_unsat slv = refuted (z.check slv.s)
