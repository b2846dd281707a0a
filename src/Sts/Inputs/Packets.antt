-- ===== src/Sts/Inputs/Packets.antt =====
-- What happens to the packets in a model of a buffer's constraints.
use count_buffy.Prelude.{ℕ, suc, ◌<◌, ◌≡◌, false, arith, ℤ, pos, ◌+ℤ◌, ◌≤ℤ◌, total}
use count_buffy.Z3.{Z3}
use count_buffy.Vec.{Ev3, bit, row, sum}
use count_buffy.NamedExp.{Sat}
use count_buffy.Sts.{Sts}
use count_buffy.Buffer.{amount, IsRun, IsCounted}
use count_buffy.Buffer.Laws.{conserved, held-le-capacity, idle-left}
use count_buffy.Sts.Inputs.Steps.{IsShaped, history}
use count_buffy.Sts.Inputs.Exact.{inputs-IsRun}
use count_buffy.Sts.Scheduler.{inputs}
use count_buffy.Vec.Meaning.{val, value-sum}

module _ ⦃z : Z3⦄ (m : z.Model) (sts : Sts) (i k : ℕ) (shaped : IsShaped sts i k)
    (some_step : 0 < sts.timesteps) (counted : IsCounted (suc k) sts.timesteps (history m sts i))
    (sat : Sat m (inputs sts i)) where
  run : IsRun sts.c (suc k) sts.timesteps (history m sts i)
  run = inputs-IsRun m sts i k shaped some_step counted sat

  -- The packets of type `p` of matrix `x` up to step `t`.
  abbrev pub until : Ev3 → ℕ → ℕ → ℤ
  until x t p = total (suc t) (λ s. val m (row (row x i) s) p)

  -- In a model of the constraints that `inputs` gives for a buffer, with its vectors of full size
  -- and no negative quantity: up to any step, the packets of a type that arrived are those
  -- dropped, those that left and those still held.
  pub inputs-conserved :
      (t p : ℕ)
      → t < sts.timesteps
      → p < suc k
      → until sts.I t p ≡ until sts.D t p +ℤ until sts.O t p +ℤ val m (row (row sts.C i) t) p
  inputs-conserved = conserved sts.c (suc k) sts.timesteps (history m sts i) run

  -- In a model of the constraints that `inputs` gives for a buffer, with its vectors of full size
  -- and no negative quantity: at every step at most the capacity is held, and nothing leaves a
  -- buffer that is not backlogged.
  pub inputs-held :
      (t : ℕ)
      → t < sts.timesteps
      → (z.value m (sum (row (row sts.C i) t)) ≤ℤ pos sts.c)
        × (z.holds m (bit (row sts.B i) t) ≡ false → z.value m (sum (row (row sts.O i) t)) ≤ℤ pos 0)
  unfolding amount
  inputs-held t b =
      let held = value-sum m (row (row sts.C i) t) k (shaped.shape_C t b) in
      let left = value-sum m (row (row sts.O i) t) k (shaped.shape_O t b) in
      let room = held-le-capacity sts.c (suc k) sts.timesteps (history m sts i) run counted t b in
      (
        rw held (omega arith),
        λ idle.
            let none_ =
              idle-left sts.c (suc k) sts.timesteps (history m sts i) run counted t b idle in
            rw left (omega arith),
      )
