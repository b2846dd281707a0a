-- ===== src/Solver/Models.antt =====
-- What a model of the solver's assertions satisfies after each operation.
use count_buffy.Prelude.{refl, subst, ◌≡◌, ap, ◌∙◌, ◌↔◌, List, [], ◌∷◌, All}
use count_buffy.Z3.{Z3, Holds}
use count_buffy.NamedExp.{NamedExp, Sat}
use count_buffy.Solver.{SmtSolver, returns, add, add_all, check_sat, check_unsat, model_of, refuted}
use count_buffy.Z3.{CheckResult, flatten, on_top}

module _ ⦃z : Z3⦄ where
  -- A model satisfies everything that is asserted.
  abbrev pub Models : z.Model → SmtSolver → Type 0
  Models m slv = All (Holds m) (flatten (z.frames slv.s))

  flatten-on_top :
      (P : z.BoolExpr → Type 0) (e : z.BoolExpr) (fs : List (List z.BoolExpr))
      → All P (flatten (on_top e fs)) ↔ (All P (flatten fs) × P e)
  flatten-on_top P e [] = (λ h. (tt, h.0), λ h. (h.1, tt))
  flatten-on_top P e (f ∷ fs) = (λ h. (h.1, h.0), λ h. (h.1, h.0))

  model_of-sat :
      (slv : SmtSolver) (c : CheckResult) (m : z.Model)
      → model_of slv c ≡ returns m
      → (c ≡ CheckResult.sat) × (z.get_model slv.s ≡ m)
  unfolding model_of
  model_of-sat slv CheckResult.sat m h = (refl, cc)
  model_of-sat slv CheckResult.unsat m h = absurd cc
  model_of-sat slv CheckResult.unknown m h = absurd cc

  refuted-unsat : (c : CheckResult) → refuted c ≡ returns tt → c ≡ CheckResult.unsat
  unfolding refuted
  refuted-unsat CheckResult.sat h = absurd cc
  refuted-unsat CheckResult.unsat h = refl
  refuted-unsat CheckResult.unknown h = absurd cc

  module _ (m : z.Model) where
    pub assert-Models :
        (slv : SmtSolver) (e : z.BoolExpr)
        → Models m (record slv { s = z.assert slv.s e }) ↔ (Models m slv × Holds m e)
    assert-Models slv e = rw (z.frames-assert slv.s e) (flatten-on_top (Holds m) e (z.frames slv.s))

    pub add-Models :
        (slv : SmtSolver) (ne : NamedExp) → Models m (add slv ne) ↔ (Models m slv × Holds m ne.e)
    unfolding add
    add-Models slv ne =
        rw (z.frames-assert_named slv.s ne.e ne.name)
          (flatten-on_top (Holds m) ne.e (z.frames slv.s))

    pub add_all-Models :
        (nes : List NamedExp) (slv : SmtSolver)
        → Models m (add_all slv nes) ↔ (Models m slv × Sat m nes)
    unfolding add_all
    add_all-Models [] slv = (λ h. (h, tt), λ h. h.0)
    add_all-Models (ne ∷ nes) slv =
        let one = add-Models slv ne in
        let rest = add_all-Models nes (add slv ne) in
        (
          λ h. ((one.0 (rest.0 h).0).0, ((one.0 (rest.0 h).0).1, (rest.0 h).1)),
          λ h. rest.1 (one.1 (h.0, h.1.0), h.1.1),
        )

    -- The verdict `sat` comes with a model of the assertions.
    pub check_sat-Models : (slv : SmtSolver) → check_sat slv ≡ returns m → Models m slv
    unfolding check_sat model_of
    check_sat-Models slv h =
        let (verdict, same) = model_of-sat slv (z.check slv.s) m h in
        subst (λ n. All (Holds n) (flatten (z.frames slv.s))) same (z.check_sound slv.s verdict)

    pub check_unsat-Models : (slv : SmtSolver) → check_unsat slv ≡ returns tt → ¬ Models m slv
    unfolding check_unsat refuted
    check_unsat-Models slv h = z.check_unsat_sound slv.s m (refuted-unsat (z.check slv.s) h)

  -- Asserting changes the innermost frame only.
  pub add_all-frames :
      (nes : List NamedExp) (slv : SmtSolver) (f : List z.BoolExpr) (fs : List (List z.BoolExpr))
      → z.frames slv.s ≡ f ∷ fs
      → (g : List z.BoolExpr) × (z.frames (add_all slv nes).s ≡ g ∷ fs)
  unfolding add_all add
  add_all-frames [] slv f fs e = (f, e)
  add_all-frames (ne ∷ nes) slv f fs e =
      add_all-frames nes (add slv ne) (ne.e ∷ f) fs
        (z.frames-assert_named slv.s ne.e ne.name ∙ ap (on_top ne.e) e)
