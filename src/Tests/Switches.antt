-- ===== src/Tests/Switches.antt =====
-- The theorems on the switches: two inputs, each with a packet for the one output, of which the first
-- is served; and the topology of two spines and three leafs with two hosts each.

use count_buffy.Prelude.{
  inr, List, ℕ, ◌/◌, ◌*◌, ◌%◌, ◌<◌, ◌≡◌, ◌≢◌, ◌↔◌, ◌⊎◌, refl, true, false, none, some, [], ◌∷◌,
  arith, pos, ◌≤ℤ◌, All, nat_key, pair_key, eqb_ℤ, get_or,
}
use count_buffy.NamedExp.{Sat}
use count_buffy.Tests.{lit, flags, steps, tried, the_model, all_true-Sat}
use count_buffy.Leaf.Buffs.{LeafBuff}
use count_buffy.Leaf.Switch.{
  dst_map_per_src, Switch, get_in_ports, get_out_ports, get_buffs_for_src, get_buffs_for_dst,
  from_src, src_map_per_dst,
}
use count_buffy.Leaf.Fperf.{
  Fperf, trs_at, out, together, matches, match_cond, none_preferred, not_before, only_one,
  others_off, one_head, served, idle_output, move_head,
}
use count_buffy.Leaf.Fperf.Matching.{IsMatching, trs_at-IsMatching}
use count_buffy.Leaf.Fperf.Service.{sent, sent-le-one}
use count_buffy.Leaf.Ports.{Routes, Values, fix_port, update_port}
use count_buffy.Leaf.Ports.Members.{Has}
use count_buffy.Leaf.Ports.Exact.{IsRouted, IsUsed, fix_port_iff, update_port_iff}
use count_buffy.Lst.Topology.{get_spine_port_map, spine_hop}
use count_buffy.Lst.Spines.{get_spine_port_map_iff}
use count_buffy.Lst.Routing.{Place, hop, hop-delivers}
use count_buffy.Prelude.{find, find_or, assign}
use count_buffy.Vec.{sum_eq, sum, sum_to}
use count_buffy.Leaf.Turns
use count_buffy.Leaf.Base
use count_buffy.Leaf.Turns.{leaf_sts, no_turns}
use count_buffy.Prelude.{KeysDiffer}
use count_buffy.Leaf.Turns.Exclusive.{leaf_sts-one_sends}
use count_buffy.NamedExp.{of_expr}
use count_buffy.Vec.{row}

abbrev queue : ℕ → ℕ → ℕ → LeafBuff
queue src dst leaving = record {
  I = steps (1 ∷ []);
  E = steps (1 ∷ []);
  D = steps (0 ∷ []);
  B = flags (true ∷ []);
  S = lit (0 ∷ []);
  O = steps (leaving ∷ []);
  C = steps (1 ∷ []);
  wnd_enq = [];
  wnd_enq_nxt = [];
  wnd_out = [];
  tmp_wnd_enq = [];
  tmp_wnd_enq_nxt = [];
  tmp_wnd_out = [];
  match = flags (true ∷ []);
  src = src;
  dst = dst;
  empty = false;
  used_pkt_types = 0 ∷ [];
  pkt_types = 1;
}

abbrev two_inputs : Switch
two_inputs = record {
  var_prefix = [];
  timesteps = 1;
  pkt_types = 1;
  buff_cap = 2;
  max_enq = 2;
  max_deq = 1;
  use_win = false;
  buffs = ((0, 0), queue 0 0 1) ∷ ((1, 0), queue 1 0 0) ∷ [];
}

-- The head of the output is its second queue, so the first one is preferred.
abbrev first_matched : Fperf
first_matched = record {
  dst_src_to_src_idx = (0, ((0, 0) ∷ (1, 1) ∷ [])) ∷ [];
  src_dst_to_dst_idx = (0, ((0, 0) ∷ [])) ∷ (1, ((0, 0) ∷ [])) ∷ [];
  in_to_out = (0, (flags (true ∷ []) ∷ [])) ∷ (1, (flags (false ∷ []) ∷ [])) ∷ [];
  out_from_in = (0, (flags (true ∷ []) ∷ flags (false ∷ []) ∷ [])) ∷ [];
  in_prio_head = (0, (flags (true ∷ []) ∷ [])) ∷ (1, (flags (true ∷ []) ∷ [])) ∷ [];
  out_prio_head = (0, (flags (false ∷ []) ∷ flags (true ∷ []) ∷ [])) ∷ [];
}

two_inputs-trs_at : Sat the_model (trs_at two_inputs first_matched 0)
unfolding trs_at get_in_ports get_out_ports get_buffs_for_src get_buffs_for_dst from_src
    src_map_per_dst together matches match_cond none_preferred not_before only_one others_off
    one_head move_head find assign find_or
two_inputs-trs_at = all_true-Sat (trs_at two_inputs first_matched 0) refl

two_inputs-out : Sat the_model (out two_inputs first_matched 0)
unfolding out get_in_ports get_out_ports get_buffs_for_src get_buffs_for_dst from_src
    src_map_per_dst served idle_output find assign find_or sum_eq sum sum_to eqb_ℤ
two_inputs-out = all_true-Sat (out two_inputs first_matched 0) refl

trs_at-IsMatching_example : IsMatching the_model two_inputs first_matched 0
trs_at-IsMatching_example = trs_at-IsMatching the_model two_inputs first_matched 0 two_inputs-trs_at

sent-le-one_example :
    All (λ p. sent the_model 0 (get_buffs_for_src two_inputs p) ≤ℤ pos 1) (get_in_ports two_inputs)
sent-le-one_example =
    sent-le-one the_model two_inputs first_matched 0 two_inputs-trs_at two_inputs-out

-- Two inputs whose queues both have a packet for the one output: the turn is the second input's.
abbrev last_has_turn : Switch
last_has_turn = record two_inputs { buffs = ((0, 0), queue 0 0 0) ∷ ((1, 0), queue 1 0 1) ∷ [] }

last_has_turn-KeysDiffer : KeysDiffer last_has_turn.buffs
unfolding find
last_has_turn-KeysDiffer = (refl, (refl, tt))

last_has_turn-out :
    Sat the_model (Turns.out last_has_turn (Base.trs leaf_sts last_has_turn no_turns).1 0)
unfolding Turns.out Turns.init Turns.trs Turns.first_turn Turns.push_matches Turns.match_at Base.trs
    Base.trs_steps src_map_per_dst dst_map_per_src find assign find_or sum_eq sum sum_to eqb_ℤ
    of_expr
last_has_turn-out = (refl, tt)

leaf_sts-one_sends_example : tried.value the_model (sum (row (queue 0 0 0).O 0)) ≡ pos 0
unfolding find sum sum_to
leaf_sts-one_sends_example =
    leaf_sts-one_sends the_model last_has_turn 0 last_has_turn-KeysDiffer (omega arith)
      last_has_turn-out (1, 0) (0, 0) (queue 1 0 1) (queue 0 0 0) refl refl refl refl (inr refl)
      (λ e. absurd cc) (λ e. absurd cc)

hop-delivers_example :
    ((7 % 6 / 2 ≡ 1) × (hop 2 3 2 7 (Place.leaf 1) ≡ Place.host 1))
    ⊎ ((7 % 6 / 2 ≢ 1)
        × (hop 2 3 2 7 (Place.leaf 1) ≡ Place.spine 1)
        × (1 < 2)
        × (hop 2 3 2 7 (hop 2 3 2 7 (hop 2 3 2 7 (Place.leaf 1))) ≡ Place.host 1))
hop-delivers_example = hop-delivers 2 3 2 (omega arith) 7 1 (omega arith)

abbrev first_leaf : ℕ
first_leaf = 0

abbrev last_leaf : ℕ
last_leaf = 2

get_spine_port_map_iff_example :
    Has (find_or (get_spine_port_map 3 2 1) (0, 2) []) 11
    ↔ (((0 < 3) × (2 < 3) × (first_leaf ≢ last_leaf)) × (11 / (3 * 2) ≡ 1) × (spine_hop 3 2 11 ≡ 2))
get_spine_port_map_iff_example = get_spine_port_map_iff 3 2 1 (omega arith) first_leaf last_leaf 11

-- Types 0 and 1 go to destinations 0 and 1 on path 0, and leave by the port of their number.
abbrev two_types : Routes
two_types = record {
  pkt_type_to_nxt_hop = 0 ∷ 1 ∷ [];
  used_dsts = 1 ∷ [];
  used_ecmps = 0 ∷ [];
  pkt_type_to_dst = (0, 0) ∷ (1, 1) ∷ [];
  pkt_type_to_ecmp = (0, 0) ∷ (1, 0) ∷ [];
  port_to_ecmp = none ∷ none ∷ some 0 ∷ [];
  src_port_to_input = some 0 ∷ some 1 ∷ none ∷ [];
  zero_inputs = [];
}

fix_port_iff_example :
    Has (fix_port two_types (2, 1) []) 1
    ↔ (Has [] 1 ⊎ ((1 < 2) × (1 < 2) × IsRouted two_types (2, 1) 1))
fix_port_iff_example = fix_port_iff two_types (2, 1) [] 1

abbrev one_input : Values
one_input = record { dst = 1 ∷ []; ecmp = 0 ∷ [] }

abbrev two_hops : List ℕ
two_hops = 0 ∷ 1 ∷ []

update_port_iff_example :
    Has (update_port (one_input ∷ []) (some 0 ∷ []) two_hops (none ∷ none ∷ []) (0, 1) []) 1 ↔ (
      Has [] 1
      ⊎ ((n : ℕ) × (some 0 ≡ some n)
          × IsUsed
              (get_or (one_input ∷ []) (n % 1) (record { dst = []; ecmp = [] }))
              none
              two_hops
              1
              1))
update_port_iff_example =
    update_port_iff (one_input ∷ []) (some 0 ∷ []) two_hops (none ∷ none ∷ []) (0, 1) [] 1
