-- ===== src/Runner/Frames.antt =====
-- A workload leaves no assertion behind: the next one meets the solver as this one did.
use count_buffy.Solver.{
  SmtSolver, Outcome, returns, throws, and_go, add_all, check_sat, check_unsat,
}
use count_buffy.Solver.Models.{add_all-frames}
use count_buffy.Solver.Arrays.{ivv-keeps}
use count_buffy.Sts.Checks.{push, pop}
use count_buffy.Workload
use count_buffy.Workload.{new_extractor}
use count_buffy.Workload.Lines.{parse, parse_from, parse_line, add_line}
use count_buffy.Runner.{
  Ended, goes_on, stopped, exits, after_sat, shown, after_unsat, verdict, judged, run_one, continue,
  run_all,
}
use count_buffy.Z3.{outer}
use count_buffy.Prelude.{text_eq, rest_of}
use count_buffy.Prelude.{
  ℕ, ◌+◌, ◌≡◌, refl, sym, ap, ◌∙◌, subst, inl, inr, List, [], ◌∷◌, ◌++◌, Bool-cases, get_or, Text,
  codes, to_string,
}
use count_buffy.Z3.{Z3}
use count_buffy.Vec.{Ev3}
use count_buffy.NamedExp.{NamedExp}

and_go-returns {ℓ κ} :
    {A : Type ℓ} {B : Type κ} (o : Outcome A) (f : A → Outcome B) (b : B)
    → and_go o f ≡ returns b
    → (a : A) × (o ≡ returns a) × (f a ≡ returns b)
unfolding and_go
and_go-returns (returns a) f b h = (a, refl, h)
and_go-returns (throws e) f b h = absurd cc

module _ ⦃z : Z3⦄ where
  -- The frames below the innermost one are `fs`.
  abbrev Above : List (List z.BoolExpr) → SmtSolver → Type 0
  Above fs slv = (f : List z.BoolExpr) × (z.frames slv.s ≡ f ∷ fs)

  returned : (a b : SmtSolver) → Ended.goes_on a ≡ goes_on b → a ≡ b
  returned a b h = cc

  same_solver : (a b : SmtSolver) → Outcome.returns a ≡ returns b → a ≡ b
  same_solver a b h = cc

  module _ (parser : Text → List Workload.Node) (i : Ev3) (num_buffs timesteps : ℕ)
      (fs : List (List z.BoolExpr)) where
    add_line-Above :
        (o : Outcome (List NamedExp)) (slv slv' : SmtSolver)
        → add_line parser i num_buffs timesteps slv o ≡ returns slv'
        → Above fs slv
        → Above fs slv'
    unfolding add_line
    add_line-Above (returns nes) slv slv' h (f, e) =
        subst (Above fs) (same_solver (add_all slv nes) slv' h) (add_all-frames nes slv f fs e)
    add_line-Above (throws e) slv slv' h above = absurd cc

    parse_line-keeps :
        (slv : SmtSolver) (p line : Text)
        → (parse_line parser i num_buffs timesteps slv p line).1.s ≡ slv.s
    unfolding parse_line new_extractor
    parse_line-keeps slv p line = ivv-keeps num_buffs timesteps (codes "Workload") slv

    parse_from-Above :
        (lines : List Text) (n : ℕ) (slv slv' : SmtSolver)
        → parse_from parser i num_buffs timesteps slv n lines ≡ returns slv'
        → Above fs slv
        → Above fs slv'
    unfolding parse_from
    parse_from-Above [] n slv slv' h above = subst (Above fs) (same_solver slv slv' h) above
    parse_from-Above (line ∷ lines) n slv slv' h (f, e) =
        let parsed =
          parse_line parser i num_buffs timesteps slv (codes "WL_" ++ to_string n) line in
        let (slv₂, p, q) =
          and_go-returns (add_line parser i num_buffs timesteps parsed.1 parsed.0)
            (λ slv₂. parse_from parser i num_buffs timesteps slv₂ (n + 1) lines) slv' h in
        let kept = parse_line-keeps slv (codes "WL_" ++ to_string n) line in
        parse_from-Above lines (n + 1) slv₂ slv' q
          (add_line-Above parsed.0 parsed.1 slv₂ p (f, ap z.frames kept ∙ e))

  after_sat-frames :
      (slv slv' : SmtSolver) (o : Outcome z.Model) → after_sat slv o ≡ goes_on slv' → slv' ≡ pop slv
  unfolding after_sat
  after_sat-frames slv slv' (returns m) h = sym (returned (pop slv) slv' h)
  after_sat-frames slv slv' (throws e) h = absurd cc

  shown-ends : (o : Outcome z.Model) (slv : SmtSolver) → ¬ (shown o ≡ goes_on slv)
  unfolding shown
  shown-ends (returns m) slv h = cc
  shown-ends (throws e) slv h = cc

  after_unsat-frames :
      (slv slv' : SmtSolver) (o : Outcome (Unit {0}))
      → after_unsat slv o ≡ goes_on slv'
      → slv' ≡ pop slv
  unfolding after_unsat
  after_unsat-frames slv slv' (returns u) h = sym (returned (pop slv) slv' h)
  after_unsat-frames slv slv' (throws e) h = absurd (shown-ends (check_sat slv) slv' h)

  -- A workload that goes on has been judged and its frame popped.
  verdict-pops :
      (res_stat : Text) (slv slv' : SmtSolver)
      → verdict res_stat slv ≡ goes_on slv'
      → slv' ≡ pop slv
  unfolding verdict
  verdict-pops res_stat slv slv' h = elim (Bool-cases (text_eq res_stat (codes "SAT"))) [
    | inl t ↦ after_sat-frames slv slv' (check_sat slv) (rw t at h)
    | inr f ↦ elim (Bool-cases (text_eq res_stat (codes "UNSAT"))) [
      | inl t' ↦ after_unsat-frames slv slv' (check_unsat slv) (rw (f, t') at h)
      | inr f' ↦ sym (returned (pop slv) slv' (rw (f, f') at h))
    ]
  ]

  judged-frames :
      (fs : List (List z.BoolExpr)) (res_stat : Text) (o : Outcome SmtSolver) (slv' : SmtSolver)
      → ((slv : SmtSolver) → o ≡ returns slv → Above fs slv)
      → judged res_stat o ≡ goes_on slv'
      → z.frames slv'.s ≡ fs
  unfolding judged pop
  judged-frames fs res_stat (returns slv) slv' above h =
      let (f, e) = above slv refl in
      ap (λ (t : SmtSolver). z.frames t.s) (verdict-pops res_stat slv slv' h)
      ∙ z.frames-pop slv.s
      ∙ ap outer e
  judged-frames fs res_stat (throws e) slv' above h = absurd cc

  module _ (parser : Text → List Workload.Node) (i : Ev3) (num_buffers timesteps : ℕ) where
    run_one-frames :
        (slv slv' : SmtSolver) (wl : List Text)
        → run_one parser i num_buffers timesteps slv wl ≡ goes_on slv'
        → z.frames slv'.s ≡ z.frames slv.s
    unfolding run_one push parse
    run_one-frames slv slv' wl h =
        judged-frames (z.frames slv.s) (get_or wl 0 []) _ slv'
          (λ slv₁ e.
            parse_from-Above parser i num_buffers timesteps (z.frames slv.s) (rest_of wl) 0
              (push slv) slv₁ e ([], z.frames-push slv.s))
          h

    continue-goes_on :
        (o : Ended) (f : SmtSolver → Ended) (slv' : SmtSolver)
        → continue parser i num_buffers timesteps o f ≡ goes_on slv'
        → (slv : SmtSolver) × (o ≡ goes_on slv) × (f slv ≡ goes_on slv')
    unfolding continue
    continue-goes_on (goes_on slv) f slv' h = (slv, refl, h)
    continue-goes_on (stopped e) f slv' h = absurd cc
    continue-goes_on exits f slv' h = absurd cc

    -- When the run over all workloads comes to its end, the solver holds the frames of assertions
    -- that it held at the start.
    pub run_all-frames :
        (wls : List (List Text)) (slv slv' : SmtSolver)
        → run_all parser i num_buffers timesteps slv wls ≡ goes_on slv'
        → z.frames slv'.s ≡ z.frames slv.s
    unfolding run_all
    run_all-frames [] slv slv' h = sym (ap (λ (t : SmtSolver). z.frames t.s) (returned slv slv' h))
    run_all-frames (wl ∷ wls) slv slv' h =
        let (slv₁, p, q) =
          continue-goes_on (run_one parser i num_buffers timesteps slv wl)
            (λ slv. run_all parser i num_buffers timesteps slv wls) slv' h in
        run_all-frames wls slv₁ slv' q ∙ run_one-frames slv slv₁ wl p
