-- ===== src/Z3/Concrete.antt =====
-- An implementation of the interface, which shows that its laws can be met and on which the witnesses
-- run: an expression is a function of a valuation, there is one model, and the solver evaluates.
use mathlib.Core.Bool.{◌&&◌, ◌||◌, not}
use count_buffy.Prelude.{
  ◌≡◌, refl, Bool, true, false, List, [], ◌∷◌, ◌↔◌, Text, ℤ, pos, ◌+ℤ◌, ◌-ℤ◌, leb_ℤ, eqb_ℤ,
  if◌then◌else◌, All, arith,
}
use count_buffy.Z3.Interface.{Z3, CheckResult, flatten, outer, on_top}

pub record Valuation : Type 0 where
  pub bools : Text → Bool
  pub ints : Text → ℤ

abbrev pub all_hold : List (Valuation → Bool) → Valuation → Bool
all_hold [] m = true
all_hold (e ∷ es) m = e m && all_hold es m

pub all_hold-All :
    (es : List (Valuation → Bool)) (m : Valuation)
    → (all_hold es m ≡ true) ↔ All (λ e. e m ≡ true) es
all_hold-All [] m = (λ h. tt, λ h. refl)
all_hold-All (e ∷ es) m =
    let rest = all_hold-All es m in
    (
      λ h. (ground arith, rest.0 (ground arith)),
      λ h. let h₁ = h.0 in let h₂ = rest.1 h.1 in ground arith,
    )

abbrev pub decided : Bool → CheckResult
decided true = CheckResult.sat
decided false = CheckResult.unsat

pub decided-sat : (b : Bool) → decided b ≡ CheckResult.sat → b ≡ true
decided-sat true h = refl
decided-sat false h = cc

pub decided-unsat : (b : Bool) → decided b ≡ CheckResult.unsat → ¬ (b ≡ true)
decided-unsat true h = cc
decided-unsat false h = cc

-- The solver of a theory whose only model is `m`: it evaluates the assertions.
abbrev pub concrete : Valuation → Z3
concrete m = record {
  BoolExpr = Valuation → Bool;
  IntExpr = Valuation → ℤ;
  Model = Unit {0};
  bool_val = λ b v. b;
  int_val = λ n v. n;
  bool_const = λ x v. v.bools x;
  int_const = λ x v. v.ints x;
  conj = λ a b v. a v && b v;
  disj = λ a b v. a v || b v;
  neg = λ a v. not (a v);
  implies = λ a b v. not (a v) || b v;
  ite = λ c a b v. if c v then a v else b v;
  iff = λ a b v. if a v then b v else not (b v);
  add = λ a b v. a v +ℤ b v;
  sub = λ a b v. a v -ℤ b v;
  ite_int = λ c a b v. if c v then a v else b v;
  eq = λ a b v. eqb_ℤ (a v) (b v);
  le = λ a b v. leb_ℤ (a v) (b v);
  lt = λ a b v. not (leb_ℤ (b v) (a v));
  to_text = λ e. [];
  undefined_bool = λ v. false;
  undefined_int = λ v. pos 0;
  holds = λ v e. e m;
  value = λ v e. e m;
  holds-bool_val = λ v b. refl;
  value-int_val = λ v n. refl;
  holds-conj = λ v a b. refl;
  holds-disj = λ v a b. refl;
  holds-neg = λ v a. refl;
  holds-implies = λ v a b. refl;
  holds-ite = λ v c a b. refl;
  holds-iff = λ v a b. refl;
  value-add = λ v a b. refl;
  value-sub = λ v a b. refl;
  value-ite_int = λ v c a b. refl;
  holds-eq = λ v a b. refl;
  holds-le = λ v a b. refl;
  holds-lt = λ v a b. refl;
  Solver = List (List (Valuation → Bool));
  fresh = [] ∷ [];
  push = λ s. [] ∷ s;
  pop = λ s. outer s;
  assert = λ s e. on_top e s;
  assert_named = λ s e x. on_top e s;
  check = λ s. decided (all_hold (flatten s) m);
  get_model = λ s. tt;
  frames = λ s. s;
  frames-fresh = refl;
  frames-push = λ s. refl;
  frames-pop = λ s. refl;
  frames-assert = λ s e. refl;
  frames-assert_named = λ s e x. refl;
  check_sound = λ s h. (all_hold-All (flatten s) m).0 (decided-sat _ h);
  check_unsat_sound = λ s v h all. decided-unsat _ h ((all_hold-All (flatten s) m).1 all);
}
