-- ===== src/Tests/Buffers.antt =====
-- The theorems on the buffers and the windows, applied to the small models.
use count_buffy.Sts.Scheduler
use count_buffy.Sts.Inputs.{
  bl_size, bl_size_at, bl_size_first, enqs, enqs_at, enqs_first, drops, drops_at, drops_first,
  enq_deq_sum, enq_deq_sum_first, enq_deq_sum_at,
}
use count_buffy.Sts.Inputs.Steps.{history}
use count_buffy.Sts.Inputs.Exact.{inputs_iff}
use count_buffy.Sts.Inputs.Packets.{inputs-conserved, inputs-held}
use count_buffy.Sts.Windows.{winds, winds_at, update, limits}
use count_buffy.Sts.Windows.Balance.{IsWindowed, winds-balance}
use count_buffy.Solver.{const_vec}
use count_buffy.Buffer.{IsRun}
use count_buffy.Tests.{
  lit, steps, tried, the_model, two_buffers, one_buffer, checker, all_true-Sat,
  two_buffers-IsShaped, two_buffers-IsCounted, one_buffer-IsShaped, one_buffer-IsCounted, below_two,
}
use count_buffy.Prelude.{eqb_ℤ, leb_ℤ}
use count_buffy.Vec.Meaning.{val}
use count_buffy.Vec.{sum_to, sum_le, sum_gt, sum_lt, sum_ge, eq_vec, le_vec, add_vec, sub_vec}
use count_buffy.Prelude.{◌≡◌, refl, ◌↔◌, true, false, [], ◌∷◌, arith, pos, ◌+ℤ◌, ◌-ℤ◌, ◌≤ℤ◌, total}
use count_buffy.Z3.{Holds}
use count_buffy.Vec.{row, sum, sum_eq}
use count_buffy.NamedExp.{of_expr, Sat}
use count_buffy.Sts.{Sts}

inputs_iff_example :
    Sat the_model (Scheduler.inputs two_buffers 1) ↔ IsRun 3 1 2 (history the_model two_buffers 1)
inputs_iff_example =
    inputs_iff the_model two_buffers 1 0 (two_buffers-IsShaped 1 (omega arith)) (omega arith)
      (two_buffers-IsCounted 1 (omega arith)) refl (omega arith)

one_buffer-inputs : Sat the_model (Scheduler.inputs one_buffer 0)
unfolding Scheduler.inputs bl_size bl_size_at bl_size_first enqs enqs_at enqs_first drops drops_at
    drops_first enq_deq_sum enq_deq_sum_first enq_deq_sum_at sum sum_to sum_le sum_gt sum_eq eq_vec
    add_vec sub_vec of_expr eqb_ℤ leb_ℤ ◌+ℤ◌ ◌-ℤ◌
one_buffer-inputs = all_true-Sat (Scheduler.inputs one_buffer 0) refl

inputs-conserved_example :
    total 2 (λ s. val the_model (row (row one_buffer.I 0) s) 0)
    ≡ total 2 (λ s. val the_model (row (row one_buffer.D 0) s) 0)
      +ℤ total 2 (λ s. val the_model (row (row one_buffer.O 0) s) 0)
      +ℤ pos 1
inputs-conserved_example =
    inputs-conserved the_model one_buffer 0 0 one_buffer-IsShaped (omega arith) one_buffer-IsCounted
      one_buffer-inputs 1 0 (omega arith) (omega arith)

inputs-held_example :
    (tried.value the_model (sum (row (row one_buffer.C 0) 0)) ≤ℤ pos 3)
    × (true ≡ false → tried.value the_model (sum (row (row one_buffer.O 0) 0)) ≤ℤ pos 0)
inputs-held_example =
    inputs-held the_model one_buffer 0 0 one_buffer-IsShaped (omega arith) one_buffer-IsCounted
      one_buffer-inputs 0 (omega arith)

-- The packet of the first window leaves in the second step and closes the window.
abbrev windowed : Sts
windowed = record (checker (steps (1 ∷ 0 ∷ []) ∷ []) [] [] (steps (0 ∷ 1 ∷ []) ∷ []) [] [] 1) {
  wnd_enq = steps (1 ∷ 0 ∷ []) ∷ [];
  wnd_enq_nxt = steps (0 ∷ 0 ∷ []) ∷ [];
  wnd_out = steps (0 ∷ 0 ∷ []) ∷ [];
  tmp_wnd_enq = steps (0 ∷ 1 ∷ []) ∷ [];
  tmp_wnd_enq_nxt = steps (0 ∷ 0 ∷ []) ∷ [];
}

windowed-winds : Sat the_model (winds windowed 0)
unfolding winds winds_at update limits const_vec sum sum_to sum_le sum_gt sum_lt sum_ge sum_eq
    eq_vec le_vec add_vec sub_vec of_expr eqb_ℤ leb_ℤ ◌+ℤ◌ ◌-ℤ◌
windowed-winds = all_true-Sat (winds windowed 0) refl

windowed-IsWindowed : IsWindowed windowed 0 0
windowed-IsWindowed = record {
  types = refl;
  shape_we = below_two _ refl refl;
  shape_wn = below_two _ refl refl;
  shape_wo = below_two _ refl refl;
  shape_se = below_two _ refl refl;
}

winds-balance_example :
    (¬ Holds the_model (le_vec (lit (1 ∷ [])) (add_vec (lit (0 ∷ [])) (lit (1 ∷ []))))
      → pos 0 +ℤ pos 0 -ℤ pos 0 ≡ pos 1 +ℤ pos 0 -ℤ pos 0 +ℤ pos 0 -ℤ pos 1)
    × (Holds the_model (le_vec (lit (1 ∷ [])) (add_vec (lit (0 ∷ [])) (lit (1 ∷ []))))
        → pos 0 +ℤ pos 0 -ℤ pos 0 ≡ pos 1 -ℤ pos 0 +ℤ pos 0 -ℤ pos 1)
winds-balance_example =
    winds-balance the_model windowed 0 0 windowed-IsWindowed 0 (omega arith) windowed-winds 0
      (omega arith)
