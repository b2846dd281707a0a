-- ===== src/Z3/Interface.antt =====
-- The solver library that every part of the program builds its formulas with. It is not part of the
-- repository, so it is an interface: expressions, their values in a model, and the solver's stack of
-- assertions, with the documented meaning of the operations that the sources call. An `expr` of the
-- library is an expression of Boolean or of integer sort; the interface has a type for each sort.
use count_buffy.Prelude.{
  ◌≡◌, Bool, true, List, [], ◌∷◌, ◌++◌, Text, ℤ, ◌+ℤ◌, ◌-ℤ◌, leb_ℤ, eqb_ℤ, if◌then◌else◌, All,
}
use mathlib.Core.Bool.{◌&&◌ as and_bool, ◌||◌ as or_bool, not as not_bool}

-- All assertions of a stack of frames.
abbrev pub flatten {ℓ} : {A : Type ℓ} → List (List A) → List A
flatten [] = []
flatten (x ∷ xs) = x ++ flatten xs

-- `pop` drops the innermost frame.
abbrev pub outer {ℓ} : {A : Type ℓ} → List (List A) → List (List A)
outer [] = []
outer (f ∷ fs) = fs

-- An assertion goes into the innermost frame.
abbrev pub on_top {ℓ} : {A : Type ℓ} → A → List (List A) → List (List A)
on_top e [] = (e ∷ []) ∷ []
on_top e (f ∷ fs) = (e ∷ f) ∷ fs

-- `check_result` of the library.
pub data CheckResult : Type 0 where
  sat unsat unknown : CheckResult

pub record Z3 : Type 1 where
  pub BoolExpr : Type 0
  pub IntExpr : Type 0
  pub Model : Type 0
  -- `context::bool_val`, `int_val`, `bool_const` and `int_const`.
  pub bool_val : Bool → BoolExpr
  pub int_val : ℤ → IntExpr
  pub bool_const : Text → BoolExpr
  pub int_const : Text → IntExpr
  -- `&&`, `||`, `!`, `implies`, `ite` and `==` on Boolean expressions.
  pub conj : BoolExpr → BoolExpr → BoolExpr
  pub disj : BoolExpr → BoolExpr → BoolExpr
  pub neg : BoolExpr → BoolExpr
  pub implies : BoolExpr → BoolExpr → BoolExpr
  pub ite : BoolExpr → BoolExpr → BoolExpr → BoolExpr
  pub iff : BoolExpr → BoolExpr → BoolExpr
  -- `+`, `-`, `ite`, `==` and `<=` on integer expressions.
  pub add : IntExpr → IntExpr → IntExpr
  pub sub : IntExpr → IntExpr → IntExpr
  pub ite_int : BoolExpr → IntExpr → IntExpr → IntExpr
  pub eq : IntExpr → IntExpr → BoolExpr
  pub le : IntExpr → IntExpr → BoolExpr
  pub lt : IntExpr → IntExpr → BoolExpr
  -- `ast::to_string`.
  pub to_text : BoolExpr → Text
  -- What a read outside a vector gives: undefined behaviour, of which nothing is assumed.
  pub undefined_bool : BoolExpr
  pub undefined_int : IntExpr
  -- `model::eval`, with completion.
  pub holds : Model → BoolExpr → Bool
  pub value : Model → IntExpr → ℤ
  pub holds-bool_val : (m : Model) (b : Bool) → holds m (bool_val b) ≡ b
  pub value-int_val : (m : Model) (n : ℤ) → value m (int_val n) ≡ n
  pub holds-conj :
      (m : Model) (a b : BoolExpr) → holds m (conj a b) ≡ and_bool (holds m a) (holds m b)
  pub holds-disj :
      (m : Model) (a b : BoolExpr) → holds m (disj a b) ≡ or_bool (holds m a) (holds m b)
  pub holds-neg : (m : Model) (a : BoolExpr) → holds m (neg a) ≡ not_bool (holds m a)
  pub holds-implies :
      (m : Model) (a b : BoolExpr)
      → holds m (implies a b) ≡ or_bool (not_bool (holds m a)) (holds m b)
  pub holds-ite :
      (m : Model) (c a b : BoolExpr)
      → holds m (ite c a b) ≡ (if holds m c then holds m a else holds m b)
  pub holds-iff :
      (m : Model) (a b : BoolExpr)
      → holds m (iff a b) ≡ (if holds m a then holds m b else not_bool (holds m b))
  pub value-add : (m : Model) (a b : IntExpr) → value m (add a b) ≡ value m a +ℤ value m b
  pub value-sub : (m : Model) (a b : IntExpr) → value m (sub a b) ≡ value m a -ℤ value m b
  pub value-ite_int :
      (m : Model) (c : BoolExpr) (a b : IntExpr)
      → value m (ite_int c a b) ≡ (if holds m c then value m a else value m b)
  pub holds-eq : (m : Model) (a b : IntExpr) → holds m (eq a b) ≡ eqb_ℤ (value m a) (value m b)
  pub holds-le : (m : Model) (a b : IntExpr) → holds m (le a b) ≡ leb_ℤ (value m a) (value m b)
  pub holds-lt :
      (m : Model) (a b : IntExpr) → holds m (lt a b) ≡ not_bool (leb_ℤ (value m b) (value m a))
  -- `solver`: a stack of frames of assertions, the innermost first.
  pub Solver : Type 0
  pub fresh : Solver
  pub push : Solver → Solver
  pub pop : Solver → Solver
  pub assert : Solver → BoolExpr → Solver
  pub assert_named : Solver → BoolExpr → Text → Solver
  pub check : Solver → CheckResult
  pub get_model : Solver → Model
  pub frames : Solver → List (List BoolExpr)
  pub frames-fresh : frames fresh ≡ [] ∷ []
  pub frames-push : (s : Solver) → frames (push s) ≡ [] ∷ frames s
  pub frames-pop : (s : Solver) → frames (pop s) ≡ outer (frames s)
  pub frames-assert : (s : Solver) (e : BoolExpr) → frames (assert s e) ≡ on_top e (frames s)
  pub frames-assert_named :
      (s : Solver) (e : BoolExpr) (name : Text)
      → frames (assert_named s e name) ≡ on_top e (frames s)
  pub check_sound :
      (s : Solver) → check s ≡ sat → All (λ e. holds (get_model s) e ≡ true) (flatten (frames s))
  pub check_unsat_sound :
      (s : Solver) (m : Model)
      → check s ≡ unsat
      → ¬ All (λ e. holds m e ≡ true) (flatten (frames s))
