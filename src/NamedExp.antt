-- ===== src/NamedExp.antt =====
-- src/named_expr.hpp, src/named_expr.cpp and the constraints' part of src/lib.hpp and src/lib.cpp:
-- a constraint is an expression with a name.
pub mod Meaning
use count_buffy.Prelude.{
  ℕ, Bool, true, List, [], ◌∷◌, ◌++◌, map, Text, codes, length, get_or, loop, range, All,
}
use count_buffy.Z3.{Z3, ◌&&◌, Holds}
use count_buffy.Vec.{Bv, bit}

pub record NamedExp ⦃z : Z3⦄ : Type 0 where
  pub e : z.BoolExpr
  pub name : Text

module _ ⦃z : Z3⦄ where
  -- The constructor that takes the name from the expression.
  unfoldable pub of_expr : z.BoolExpr → NamedExp
  of_expr e = record { e = e; name = z.to_text e }

  abbrev pub named : z.BoolExpr → Text → NamedExp
  named e name = record { e = e; name = name }

  unfoldable pub prefix : NamedExp → Text → NamedExp
  prefix ne p = named ne.e (p ++ codes "_" ++ ne.name)

  -- `format("Not ", name)`: the format has no place for the name, which is dropped.
  unfoldable pub negate : NamedExp → NamedExp
  negate ne = named (z.neg ne.e) (codes "Not ")

  -- `nes[i].e`.
  abbrev pub exp_at : List NamedExp → ℕ → z.BoolExpr
  exp_at nes i = (get_or nes i (named z.undefined_bool [])).e

  -- `merge` with a context starts from `true`; the other two from the first entry.
  unfoldable pub merge_in : List NamedExp → Text → NamedExp
  merge_in nes name =
      named (loop (λ e i. e && exp_at nes i) (z.bool_val true) (range 0 (length nes))) name

  unfoldable pub merge : List NamedExp → Text → NamedExp
  merge nes name =
      named (loop (λ e i. e && exp_at nes i) (exp_at nes 0) (range 1 (length nes))) name

  unfoldable pub merge_exprs : Bv → Text → NamedExp
  merge_exprs nes name =
      named (loop (λ e i. e && bit nes i) (bit nes 0) (range 1 (length nes))) name

  -- `extend(source, extra)`, and with a suffix for each name.
  abbrev pub extend {ℓ} : {A : Type ℓ} → List A → List A → List A
  extend source extra = source ++ extra

  unfoldable pub extend_suffixed : List NamedExp → List NamedExp → Text → List NamedExp
  extend_suffixed source extra suffix =
      source ++ map (λ item. named item.e (item.name ++ suffix)) extra

  -- A model satisfies a list of constraints.
  abbrev pub Sat : z.Model → List NamedExp → Type 0
  Sat m nes = All (λ ne. Holds m ne.e) nes
