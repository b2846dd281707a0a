-- ===== src/Sts/Checks/Verdicts.antt =====
-- What the verdicts of the checks mean, and which frames the checks leave behind.
use count_buffy.Prelude.{◌≡◌, refl, ap, ◌∙◌, ◌↔◌, inl, inr, List, [], ◌∷◌, Bool-cases, Text, codes}
use count_buffy.Z3.{on_top, Z3, Holds, neg_iff}
use count_buffy.NamedExp.{NamedExp, Sat}
use count_buffy.Sts.{Sts}
use count_buffy.Solver.{SmtSolver, Outcome, returns, throws, add, add_all, check_sat, check_unsat}
use count_buffy.Solver.Models.{
  Models, add-Models, add_all-Models, check_sat-Models, check_unsat-Models, add_all-frames,
}
use count_buffy.NamedExp.{merge, negate}
use count_buffy.NamedExp.Meaning.{merge_iff}
use count_buffy.Sts.Scheduler.{Scheduler, base_constrs}
use count_buffy.Sts.Checks.{
  push, pop, pop_after, sts_check_sat, sts_check_unsat, check_wl_and_query_sat,
  check_wl_and_not_query_unsat,
}
use count_buffy.Z3.{outer}

module _ ⦃z : Z3⦄ where
  pub push-Models : (m : z.Model) (slv : SmtSolver) → Models m (push slv) ↔ Models m slv
  unfolding push
  push-Models m slv = rw (z.frames-push slv.s) (λ h. h, λ h. h)

  pop_after-returns {ℓ} :
      {A : Type ℓ} (o : Outcome A) (slv : SmtSolver) (a : A)
      → (pop_after o slv).0 ≡ returns a
      → (o ≡ returns a) × (pop_after o slv ≡ (returns a, pop slv))
  unfolding pop_after
  pop_after-returns (returns b) slv a h = (h, ap (λ o. (o, pop slv)) h)
  pop_after-returns (throws e) slv a h = absurd cc

  pop_after-throws {ℓ} :
      {A : Type ℓ} (o : Outcome A) (slv : SmtSolver) (e : Text)
      → (pop_after o slv).0 ≡ throws e
      → (pop_after o slv).1 ≡ slv
  unfolding pop_after
  pop_after-throws (returns b) slv e h = absurd cc
  pop_after-throws (throws e') slv e h = refl

  pub popped :
      (slv : SmtSolver) (nes : List NamedExp)
      → z.frames (pop (add_all (push slv) nes)).s ≡ z.frames slv.s
  unfolding pop push
  popped slv nes =
      z.frames-pop (add_all (push slv) nes).s
      ∙ ap outer (add_all-frames nes (push slv) [] (z.frames slv.s) (z.frames-push slv.s)).1

  -- A model that `STSChecker::check_sat` returns satisfies what was asserted before and the given
  -- constraints, and the solver's frames are afterwards as they were.
  pub sts_check_sat-Models :
      (m : z.Model) (slv : SmtSolver) (nes : List NamedExp)
      → (sts_check_sat slv nes).0 ≡ returns m
      → Models m slv × Sat m nes × (z.frames (sts_check_sat slv nes).1.s ≡ z.frames slv.s)
  unfolding sts_check_sat
  sts_check_sat-Models m slv nes h =
      let slv' = add_all (push slv) nes in
      let (verdict, left) = pop_after-returns (check_sat slv') slv' m h in
      let (before, now) = (add_all-Models m nes (push slv)).0 (check_sat-Models m slv' verdict) in
      (
        (push-Models m slv).0 before,
        now,
        ap (λ (r : Outcome z.Model × SmtSolver). z.frames r.1.s) left ∙ popped slv nes,
      )

  -- When `STSChecker::check_unsat` returns, no model satisfies what was asserted before together
  -- with the given constraints, and the solver's frames are afterwards as they were.
  pub sts_check_unsat-Models :
      (slv : SmtSolver) (nes : List NamedExp)
      → (sts_check_unsat slv nes).0 ≡ returns tt
      → ((m : z.Model) → Models m slv → ¬ Sat m nes)
        × (z.frames (sts_check_unsat slv nes).1.s ≡ z.frames slv.s)
  unfolding sts_check_unsat
  sts_check_unsat-Models slv nes h =
      let slv' = add_all (push slv) nes in
      let (verdict, left) = pop_after-returns (check_unsat slv') slv' tt h in
      (
        λ m old new.
            check_unsat-Models m slv' verdict
              ((add_all-Models m nes (push slv)).1 ((push-Models m slv).1 old, new)),
        ap (λ (r : Outcome (Unit {0}) × SmtSolver). z.frames r.1.s) left ∙ popped slv nes,
      )

  -- When `STSChecker::check_sat` throws, the frame that it pushed is still on the stack, above
  -- the frames that were there before.
  pub sts_check_sat-throws :
      (slv : SmtSolver) (nes : List NamedExp) (e : Text)
      → (sts_check_sat slv nes).0 ≡ throws e
      → outer (z.frames (sts_check_sat slv nes).1.s) ≡ z.frames slv.s
  unfolding sts_check_sat push
  sts_check_sat-throws slv nes e h =
      let slv' = add_all (push slv) nes in
      rw (pop_after-throws (check_sat slv') slv' e h)
        (ap outer (add_all-frames nes (push slv) [] (z.frames slv.s) (z.frames-push slv.s)).1)

  module _ {St : Type 0} (sch : Scheduler St) (sts : Sts) (st : St) where
    -- The query in the state that the base constraints leave.
    abbrev pub query_after : List NamedExp
    query_after = sch.query sts (base_constrs sch sts st).1

    pub check_wl_and_query_sat-Models :
        (m : z.Model) (slv : SmtSolver)
        → (check_wl_and_query_sat sch sts st slv).0 ≡ returns m
        → Models m slv
          × Sat m (sch.workload sts st)
          × Sat m (base_constrs sch sts st).0
          × Sat m query_after
    unfolding check_wl_and_query_sat
    check_wl_and_query_sat-Models m slv h =
        let slv₁ = add_all (push slv) (sch.workload sts st) in
        let slv₂ = add_all slv₁ (base_constrs sch sts st).0 in
        let slv₃ = add_all slv₂ query_after in
        let (verdict, left) = pop_after-returns (check_sat slv₃) slv₃ m h in
        let (h₂, query) = (add_all-Models m query_after slv₂).0 (check_sat-Models m slv₃ verdict) in
        let (h₁, base) = (add_all-Models m (base_constrs sch sts st).0 slv₁).0 h₂ in
        let (h₀, workload) = (add_all-Models m (sch.workload sts st) (push slv)).0 h₁ in
        ((push-Models m slv).0 h₀, workload, base, query)

    -- When `check_wl_and_not_query_unsat` returns and the query is not an empty list, every model
    -- of what was asserted before, of the workload and of the base constraints satisfies the
    -- query.
    pub check_wl_and_not_query_unsat-query :
        (slv : SmtSolver) (ne : NamedExp) (nes : List NamedExp)
        → query_after ≡ ne ∷ nes
        → (check_wl_and_not_query_unsat sch sts st slv).0 ≡ returns tt
        → (m : z.Model) → Models m slv
        → Sat m (sch.workload sts st)
        → Sat m (base_constrs sch sts st).0
        → Sat m query_after
    unfolding check_wl_and_not_query_unsat negate
    check_wl_and_not_query_unsat-query slv ne nes e h m old workload base =
        let slv₁ = add_all (push slv) (sch.workload sts st) in
        let slv₂ = add_all slv₁ (base_constrs sch sts st).0 in
        let query = merge query_after (codes "query") in
        let none_ = check_unsat-Models m (add slv₂ (negate query)) h in
        let models = (add_all-Models m (base_constrs sch sts st).0 slv₁).1 (
          (add_all-Models m (sch.workload sts st) (push slv)).1
              ((push-Models m slv).1 old, workload),
          base,
        ) in
        let holds : Holds m query.e = elim (Bool-cases (z.holds m query.e)) [
          | inl t ↦ t
          | inr f ↦
              absurd
                (none_ ((add-Models m slv₂ (negate query)).1 (models, (neg_iff m query.e).1 f)))
        ] in
        rw e ((merge_iff m ne nes (codes "query")).0 (rw e at holds))

    -- Whatever the verdict is, `check_wl_and_not_query_unsat` leaves the frame that it pushed on
    -- the stack, above the frames that were there before.
    pub check_wl_and_not_query_unsat-frame :
        (slv : SmtSolver)
        → outer (z.frames (check_wl_and_not_query_unsat sch sts st slv).1.s) ≡ z.frames slv.s
    unfolding check_wl_and_not_query_unsat push add
    check_wl_and_not_query_unsat-frame slv =
        let (g, e) =
          add_all-frames (sch.workload sts st) (push slv) [] (z.frames slv.s)
            (z.frames-push slv.s) in
        let (g', e') =
          add_all-frames (base_constrs sch sts st).0 (add_all (push slv) (sch.workload sts st)) g
            (z.frames slv.s) e in
        ap outer (z.frames-assert_named _ _ _ ∙ ap (on_top _) e')
