-- ===== src/Tests/Stores.antt =====
-- The theorems on the buffers of a switch, applied to a buffer for two packets over two steps: two come
-- and stay, then one of them leaves while a third one is dropped.

use count_buffy.Prelude.{
  ℕ, ◌<◌, ◌≡◌, refl, ◌↔◌, true, false, [], ◌∷◌, arith, pos, ◌+ℤ◌, ◌-ℤ◌, total, eqb_ℤ, leb_ℤ,
}
use count_buffy.NamedExp.{merge_in, of_expr, Sat}
use count_buffy.Vec.{
  row, sum, sum_to, sum_eq, sum_le, sum_gt, sum_lt, sum_ge, eq_vec, le_vec, add_vec, sub_vec,
}
use count_buffy.Vec.Meaning.{val}
use count_buffy.Solver.{const_vec}
use count_buffy.Buffer.{IsCounted}
use count_buffy.Buffer.Store.{IsStored}
use count_buffy.Leaf.Buffs.{LeafBuff}
use count_buffy.Leaf.Switch.{Switch}
use count_buffy.Leaf.Inputs.{
  inputs, bl_size, bl_size_list, bl_size_at, enqs, enqs_list, enqs_at, drops, drops_list, drops_at,
  enq_deq_sum, enq_deq_sum_list, enq_deq_sum_at,
}
use count_buffy.Leaf.Inputs.Steps.{IsFull, buff_history}
use count_buffy.Leaf.Inputs.Exact.{leaf_inputs_iff}
use count_buffy.Leaf.Inputs.Packets.{leaf_inputs-conserved}
use count_buffy.Leaf.Windows.{winds, winds_list, winds_at, update, limits}
use count_buffy.Leaf.Windows.Balance.{IsLeafWindowed, leaf_winds-balance}
use count_buffy.Tests.{
  tried, lit, flags, steps, the_model, all_true-Sat, below_one, below_two, in_both,
}

abbrev stored_buff : LeafBuff
stored_buff = record {
  I = steps (2 ∷ 1 ∷ []);
  E = steps (2 ∷ 0 ∷ []);
  D = steps (0 ∷ 1 ∷ []);
  B = flags (false ∷ true ∷ []);
  S = lit (0 ∷ []);
  O = steps (0 ∷ 1 ∷ []);
  C = steps (0 ∷ 2 ∷ []);
  wnd_enq = steps (2 ∷ 2 ∷ []);
  wnd_enq_nxt = steps (0 ∷ 0 ∷ []);
  wnd_out = steps (0 ∷ 1 ∷ []);
  tmp_wnd_enq = steps (0 ∷ 2 ∷ []);
  tmp_wnd_enq_nxt = steps (0 ∷ 0 ∷ []);
  tmp_wnd_out = [];
  match = flags (true ∷ []);
  src = 0;
  dst = 0;
  empty = false;
  used_pkt_types = 0 ∷ [];
  pkt_types = 1;
}

abbrev one_queue : Switch
one_queue = record {
  var_prefix = [];
  timesteps = 2;
  pkt_types = 1;
  buff_cap = 2;
  max_enq = 2;
  max_deq = 1;
  use_win = false;
  buffs = ((0, 0), stored_buff) ∷ [];
}

stored_buff-IsFull : IsFull stored_buff 2 0
stored_buff-IsFull = record {
  shape_I = below_two _ refl refl;
  shape_E = below_two _ refl refl;
  shape_D = below_two _ refl refl;
  shape_O = below_two _ refl refl;
  shape_C = below_two _ refl refl;
}

stored_buff-IsCounted : IsCounted 1 2 (buff_history the_model stored_buff)
stored_buff-IsCounted = record {
  arrived_nonneg = in_both _ (omega arith) (omega arith);
  enqueued_nonneg = in_both _ (omega arith) (omega arith);
  dropped_nonneg = in_both _ (omega arith) (omega arith);
  left_nonneg = in_both _ (omega arith) (omega arith);
  held_nonneg = in_both _ (omega arith) (omega arith);
}

leaf_inputs_iff_example :
    Sat the_model (inputs one_queue stored_buff 0)
    ↔ ((t : ℕ) → t < 2 → IsStored 2 1 (buff_history the_model stored_buff) t)
leaf_inputs_iff_example =
    leaf_inputs_iff the_model one_queue stored_buff 0 stored_buff-IsFull (omega arith)
      stored_buff-IsCounted 0 refl

stored_buff-inputs : Sat the_model (inputs one_queue stored_buff 0)
unfolding inputs bl_size bl_size_list bl_size_at enqs enqs_list enqs_at drops drops_list drops_at
    enq_deq_sum enq_deq_sum_list enq_deq_sum_at merge_in sum sum_to sum_le sum_gt sum_eq eq_vec
    add_vec sub_vec of_expr eqb_ℤ leb_ℤ ◌+ℤ◌ ◌-ℤ◌
stored_buff-inputs = all_true-Sat (inputs one_queue stored_buff 0) refl

leaf_inputs-conserved_example :
    total 1 (λ s. val the_model (row stored_buff.I s) 0)
    ≡ total 1 (λ s. val the_model (row stored_buff.D s) 0)
      +ℤ total 1 (λ s. val the_model (row stored_buff.O s) 0)
      +ℤ pos 2
leaf_inputs-conserved_example =
    leaf_inputs-conserved the_model one_queue stored_buff 0 0 stored_buff-IsFull (omega arith)
      stored_buff-IsCounted refl stored_buff-inputs 1 0 (omega arith) (omega arith)

stored_buff-winds : Sat the_model (winds one_queue stored_buff 0)
unfolding winds winds_list winds_at update limits merge_in const_vec sum sum_to sum_le sum_gt sum_lt
    sum_ge sum_eq eq_vec le_vec add_vec sub_vec of_expr eqb_ℤ leb_ℤ ◌+ℤ◌ ◌-ℤ◌
stored_buff-winds = all_true-Sat (winds one_queue stored_buff 0) refl

stored_buff-IsLeafWindowed : IsLeafWindowed one_queue stored_buff 0
stored_buff-IsLeafWindowed = record {
  types = refl;
  shape_we = below_two _ refl refl;
  shape_wn = below_two _ refl refl;
  shape_wo = below_two _ refl refl;
  shape_se = below_two _ refl refl;
}

leaf_winds-balance_example :
    pos 2 +ℤ pos 0 -ℤ pos 1
    ≡ total 2 (λ s. val the_model (row stored_buff.E s) 0)
      -ℤ total 2 (λ s. val the_model (row stored_buff.O s) 0)
leaf_winds-balance_example =
    leaf_winds-balance the_model one_queue stored_buff 0 0 stored_buff-IsLeafWindowed
      stored_buff-winds (below_one _ (omega arith)) 1 0 (omega arith) (omega arith)
