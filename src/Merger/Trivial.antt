-- ===== src/Merger/Trivial.antt =====
-- src/trivial_sts.hpp and src/trivial_sts.cpp: one buffer of two packet types, with no constraint of
-- its own.
use count_buffy.Prelude.{ℕ, true, List, [], ◌∷◌, Text, codes}
use count_buffy.Z3.{Z3}
use count_buffy.NamedExp.{NamedExp, named}
use count_buffy.Sts.{Sts}
use count_buffy.Sts.Scheduler.{Scheduler}
use count_buffy.Sts.{new_sts}
use count_buffy.Solver.{SmtSolver}

module _ ⦃z : Z3⦄ where
  unfoldable pub new_trivial : SmtSolver → Text → ℕ → Sts × SmtSolver
  new_trivial slv var_prefix m = new_sts slv var_prefix 1 m 2 4 4 4

  -- Each method gives one constraint, `true`, under its own name.
  unfoldable pub anything : Text → List NamedExp
  anything name = named (z.bool_val true) name ∷ []

  abbrev pub trivial : Scheduler (Unit {0})
  trivial = record {
    init = λ sts st b0 s0. (anything (codes "init"), st);
    trs = λ sts st b s bp sp tp. (anything (codes "trs"), st);
    out = λ sts st bv sv ov t. (anything (codes "out"), st);
    workload = λ sts st. anything (codes "workload");
    base_wl = λ sts st. [];
    query = λ sts st. anything (codes "query");
    get_state = λ sts st. sts.S_int;
  }
