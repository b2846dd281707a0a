-- ===== src/Sts/Inputs/Exact.antt =====
-- `STSChecker::inputs` against the buffer.
use count_buffy.NamedExp.Meaning.{Sat-append}
use count_buffy.Prelude.{List, ◌++◌, ℕ, suc, ◌<◌, ◌≡◌, ◌↔◌, false}
use count_buffy.Z3.{Z3}
use count_buffy.NamedExp.{NamedExp, Sat}
use count_buffy.Sts.{Sts}
use count_buffy.Sts.Scheduler.{inputs}
use count_buffy.Sts.Inputs.{bl_size, enqs, drops, enq_deq_sum}
use count_buffy.Sts.Inputs.Steps.{IsShaped, history}
use count_buffy.Sts.Inputs.Constraints.{
  Serves-of_both, both_of_Serves, bl_size_iff, enqs_iff, drops_iff, enq_deq_sum_iff,
}
use count_buffy.Sts.Inputs.Run.{IsRun_iff, IsStep-of}
use count_buffy.Buffer.{IsRun, IsCounted}

module _ ⦃z : Z3⦄ (m : z.Model) (sts : Sts) (i k : ℕ) (shaped : IsShaped sts i k)
    (some_step : 0 < sts.timesteps)
    (counted : IsCounted (suc k) sts.timesteps (history m sts i)) where
  -- The four lists on their own, whatever stands behind them.
  parts_iff :
      (rest : List NamedExp)
      → Sat m (bl_size sts i ++ (enqs sts i ++ (drops sts i ++ (enq_deq_sum sts i ++ rest)))) ↔ (
          Sat m (bl_size sts i)
          × Sat m (enqs sts i)
          × Sat m (drops sts i)
          × Sat m (enq_deq_sum sts i)
          × Sat m rest)
  parts_iff rest =
      let a = Sat-append m (bl_size sts i) _ in
      let b = Sat-append m (enqs sts i) _ in
      let c = Sat-append m (drops sts i) _ in
      let d = Sat-append m (enq_deq_sum sts i) rest in
      (
        λ h.
            let e = a.0 h in
            let f = b.0 e.1 in let g = c.0 f.1 in let w = d.0 g.1 in (e.0, f.0, g.0, w.0, w.1),
        λ h. a.1 (h.0, b.1 (h.1, c.1 (h.2, d.1 (h.3, h.4)))),
      )

  -- Every model of a buffer's constraints is a run of the buffer, with or without windows.
  pub inputs-IsRun : Sat m (inputs sts i) → IsRun sts.c (suc k) sts.timesteps (history m sts i)
  unfolding inputs
  inputs-IsRun h t b =
      let all = (parts_iff _).0 h in
      let moved = (bl_size_iff m sts i k shaped some_step).0 all.0 t b in
      let fitting = (enqs_iff m sts i k shaped some_step).0 all.1 t b in
      let spilt = (drops_iff m sts i k shaped some_step).0 all.2 t b in
      let split = (enq_deq_sum_iff m sts i k shaped some_step).0 all.3 t b in
      IsStep-of sts.c (suc k) sts.timesteps (history m sts i) counted t b
        (Serves-of_both (suc k) (history m sts i) t fitting.0 moved.0) moved.1 fitting.1 spilt split

  -- Without windows, with room for a packet and at least one step, for a buffer whose vectors
  -- have an entry for each packet type and whose quantities are not negative: a model satisfies
  -- the constraints that `inputs` gives for the buffer exactly when its history is a run of the
  -- buffer specification.
  pub inputs_iff :
      sts.use_win ≡ false
      → 0 < sts.c
      → Sat m (inputs sts i) ↔ IsRun sts.c (suc k) sts.timesteps (history m sts i)
  unfolding inputs
  inputs_iff no_windows some_room = (
    inputs-IsRun,
    λ run.
        let all =
          (IsRun_iff sts.c (suc k) sts.timesteps (history m sts i) counted some_room).0 run in
        let both = λ (t : ℕ) (b : t < sts.timesteps).
          both_of_Serves (suc k) (history m sts i) t (all t b).0 in
        (parts_iff _).1 (
          (bl_size_iff m sts i k shaped some_step).1 (λ t b. ((both t b).1, (all t b).1)),
          (enqs_iff m sts i k shaped some_step).1 (λ t b. ((both t b).0, (all t b).2)),
          (drops_iff m sts i k shaped some_step).1 (λ t b. (all t b).3),
          (enq_deq_sum_iff m sts i k shaped some_step).1 (λ t b. (all t b).4),
          rw no_windows tt,
        ),
  )
