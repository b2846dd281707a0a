-- ===== src/Leaf/Inputs/Packets.antt =====
-- What happens to the packets in a model of the constraints on a buffer of a switch.

use count_buffy.Prelude.{ℕ, suc, ◌<◌, ◌≤◌, ◌≡◌, false, ℤ, ◌+ℤ◌, total, pos_part}
use count_buffy.Z3.{Z3}
use count_buffy.Vec.{Ev2, bit, row}
use count_buffy.Vec.Meaning.{val}
use count_buffy.NamedExp.{Sat}
use count_buffy.Buffer.{IsCounted, amount}
use count_buffy.Buffer.Store.{IsStored, stored-conserved}
use count_buffy.Leaf.Buffs.{LeafBuff}
use count_buffy.Leaf.Switch.{Switch}
use count_buffy.Leaf.Inputs.{inputs}
use count_buffy.Leaf.Inputs.Steps.{IsFull, buff_history}
use count_buffy.Leaf.Inputs.Exact.{leaf_inputs_iff}

module _ ⦃z : Z3⦄ (m : z.Model) (sw : Switch) (buff : LeafBuff) (k i : ℕ)
    (full : IsFull buff sw.timesteps k) (some_step : 0 < sw.timesteps)
    (counted : IsCounted (suc k) sw.timesteps (buff_history m buff))
    (no_windows : sw.use_win ≡ false) (sat : Sat m (inputs sw buff i)) where
  run : (t : ℕ) → t < sw.timesteps → IsStored sw.buff_cap (suc k) (buff_history m buff) t
  run = (leaf_inputs_iff m sw buff k full some_step counted i no_windows).0 sat

  -- The packets of type `p` of a matrix before step `t`.
  abbrev pub before_step : Ev2 → ℕ → ℕ → ℤ
  before_step x t p = total t (λ s. val m (row x s) p)

  -- In a model of the constraints that `LeafBase::inputs` gives for a buffer, with its vectors of
  -- full size, no negative quantity and no windows: the packets of a type that arrived before a
  -- step are those dropped, those that left and those that are held at the step.
  pub leaf_inputs-conserved :
      (t p : ℕ)
      → t < sw.timesteps
      → p < suc k
      → before_step buff.I t p
        ≡ before_step buff.D t p +ℤ before_step buff.O t p +ℤ val m (row buff.C t) p
  leaf_inputs-conserved =
      stored-conserved sw.buff_cap (suc k) sw.timesteps (buff_history m buff) run

  -- Offered.
  pub leaf_inputs-offered :
      (t : ℕ)
      → t < sw.timesteps
      → z.holds m (bit buff.B t) ≡ false
      → pos_part (total (suc k) (val m (row buff.I t))) ≤ sw.buff_cap
  unfolding amount
  leaf_inputs-offered t b = (run t b).offered
