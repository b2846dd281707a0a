-- ===== src/RateLimiter.antt =====
-- examples/rate_limiter.hpp, examples/rate_limiter.cpp and examples/main.cpp: the rate limiter of the
-- hello-world example. Its state is 1 in the steps in which it serves.
pub mod Rate
use count_buffy.Prelude.{List, [], ◌∷◌}
use count_buffy.Z3.{Z3, num}
use count_buffy.Vec.{Ev, Ev2, Bv, at, row, bit, sum, sum_rows}
use count_buffy.NamedExp.{NamedExp, of_expr}
use count_buffy.Sts.{Sts}
use count_buffy.Sts.Scheduler.{Scheduler}

module _ ⦃z : Z3⦄ where
  unfoldable pub workload : Sts → List NamedExp
  workload sts = of_expr (z.le (num 5) (sum_rows (row sts.I 0))) ∷ []

  unfoldable pub out : Bv → Ev → Ev2 → List NamedExp
  out bv sv ov =
      of_expr (
        z.ite (z.eq (at sv 0) (num 1)) (z.eq (sum (row ov 0)) (num 1))
          (z.eq (sum (row ov 0)) (num 0)))
      ∷ []

  unfoldable pub trs : Bv → Ev → Bv → Ev → List NamedExp
  trs b s bp sp =
      of_expr (z.ite (bit bp 0) (z.eq (at sp 0) (z.sub (num 1) (at s 0))) (z.eq (at sp 0) (at s 0)))
      ∷ []

  unfoldable pub query : Sts → List NamedExp
  query sts = of_expr (z.le (sum_rows (row sts.O 0)) (num 5)) ∷ []

  unfoldable pub init : Bv → Ev → List NamedExp
  init b0 s0 = of_expr (z.ite (bit b0 0) (z.eq (at s0 0) (num 1)) (z.eq (at s0 0) (num 0))) ∷ []

  abbrev pub rate_limiter : Scheduler (Unit {0})
  rate_limiter = record {
    init = λ sts st b0 s0. (init b0 s0, st);
    trs = λ sts st b s bp sp tp. (trs b s bp sp, st);
    out = λ sts st bv sv ov t. (out bv sv ov, st);
    workload = λ sts st. workload sts;
    base_wl = λ sts st. [];
    query = λ sts st. query sts;
    get_state = λ sts st. sts.S_int;
  }
