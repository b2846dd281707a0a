-- ===== src/Lst/Verdicts.antt =====
-- What it means when a check of lst.cpp comes to its end.

use count_buffy.Prelude.{
  ℕ, ◌≡◌, refl, sym, subst, ◌↔◌, inl, inr, Bool, true, false, List, [], ◌∷◌, Text, codes,
  Bool-cases, length,
}
use count_buffy.Z3.{Z3, Holds, neg_iff}
use count_buffy.Vec.{Ev3}
use count_buffy.NamedExp.{NamedExp, named, negate}
use count_buffy.Solver.{
  SmtSolver, Outcome, returns, throws, and_go, add, add_all, check_sat, check_unsat,
}
use count_buffy.Solver.Models.{Models, add-Models, check_sat-Models, check_unsat-Models}
use count_buffy.Sts.Checks.{push, pop}
use count_buffy.Sts.Checks.Verdicts.{push-Models, popped}
use count_buffy.Workload.{Node}
use count_buffy.Leaf.Ports.{Values}
use count_buffy.Leaf.Metadata.{uniq}
use count_buffy.Leaf.Workload.Lines.{types_by_value}
use count_buffy.Prelude.{nat_key, Map}
use count_buffy.Lst.Program.{
  query, satisfiable_with, unsatisfiable_with, judge, check_network, constrain, to_dst, time_steps,
}

-- A result of `and_go` is one of both calls.
pub and_go-returns {ℓ κ} :
    {A : Type ℓ} {B : Type κ} (o : Outcome A) (f : A → Outcome B) (b : B)
    → and_go o f ≡ returns b
    → (a : A) × (o ≡ returns a) × (f a ≡ returns b)
unfolding and_go
and_go-returns (returns a) f b h = (a, refl, h)
and_go-returns (throws e) f b h = absurd cc

module _ ⦃z : Z3⦄ where
  -- In a frame of its own a constraint is forgotten afterwards.
  forgotten-Models :
      (m : z.Model) (slv : SmtSolver) (ne : NamedExp)
      → Models m (pop (add (push slv) ne)) ↔ Models m slv
  unfolding add_all
  forgotten-Models m slv ne = rw (popped slv (ne ∷ [])) (λ h. h, λ h. h)

  pub satisfiable_with-Models :
      (slv slv' : SmtSolver) (ne : NamedExp)
      → satisfiable_with ne slv ≡ returns slv'
      → ((m : z.Model) × Models m slv × Holds m ne.e) × (slv' ≡ pop (add (push slv) ne))
  unfolding satisfiable_with
  satisfiable_with-Models slv slv' ne h =
      let (m, verdict, same) = and_go-returns (check_sat (add (push slv) ne)) _ slv' h in
      let (old, now) = (add-Models m (push slv) ne).0 (check_sat-Models m _ verdict) in
      ((m, (push-Models m slv).0 old, now), cc)

  pub unsatisfiable_with-Models :
      (slv slv' : SmtSolver) (ne : NamedExp)
      → unsatisfiable_with ne slv ≡ returns slv'
      → (m : z.Model) → Models m slv
      → ¬ Holds m ne.e
  unfolding unsatisfiable_with
  unsatisfiable_with-Models slv slv' ne h m old now =
      let (u, verdict, same) = and_go-returns (check_unsat (add (push slv) ne)) _ slv' h in
      check_unsat-Models m _ verdict
        ((add-Models m (push slv) ne).1 ((push-Models m slv).1 old, now))

  -- The verdict on a query.
  abbrev pub Verdict : Bool → z.BoolExpr → SmtSolver → Type 0
  Verdict true q slv = (m : z.Model) × Models m slv × (z.holds m q ≡ false)
  Verdict false q slv =
      ((m : z.Model) × Models m slv × Holds m q) × ((m : z.Model) → Models m slv → Holds m q)

  pub judge-Verdict :
      (sat : Bool) (q : z.BoolExpr) (slv slv' : SmtSolver)
      → judge sat q slv ≡ returns slv'
      → Verdict sat q slv
  unfolding judge negate
  judge-Verdict true q slv slv' h =
      let ((m, old, now), same) =
        satisfiable_with-Models slv slv' (negate (named q (codes "query"))) h in
      (m, old, (neg_iff m q).0 now)
  judge-Verdict false q slv slv' h =
      let ne = named q (codes "query") in
      let (slv₁, first, second) = and_go-returns (satisfiable_with ne slv) _ slv' h in
      let (found, same) = satisfiable_with-Models slv slv₁ ne first in
      (
        found,
        λ m old. elim (Bool-cases (z.holds m q)) [
          | inl holds_it ↦ holds_it
          | inr fails_it ↦
              let here = (forgotten-Models m slv ne).1 old in
              absurd (
                unsatisfiable_with-Models slv₁ slv' (negate ne) second m
                  (subst (λ s. Models m s) (sym same) here) ((neg_iff m q).1 fails_it))
        ],
      )

  module _ (parser : Text → List Node) (evaluates : Text → ℕ → Bool) where
    -- When the check of lst.cpp comes to its end: the workload was accepted, and of the
    -- assertions with the workload and the unique destinations, a workload that is expected to be
    -- satisfiable has a model in which the query fails, and any other has a model in which the
    -- query holds and no model in which it fails.
    pub check_network-Verdict :
        (wl : List Text) (sat : Bool) (i o : Ev3) (slv slv' : SmtSolver)
        → check_network parser evaluates wl sat ((i, o), slv) ≡ returns slv'
        → (vals : Map ℕ Values) × (slv₁ : SmtSolver) × (constrain parser evaluates (push slv) i wl
            ≡ returns (vals, slv₁))
          × Verdict sat (query o) (
              add_all slv₁
                (uniq i (types_by_value (to_dst parser evaluates)) (length i) time_steps))
    unfolding check_network
    check_network-Verdict wl sat i o slv slv' h =
        let ((vals, slv₁), first, second) =
          and_go-returns (constrain parser evaluates (push slv) i wl) _ slv' h in
        (vals, slv₁, first, judge-Verdict sat (query o) _ slv' second)
