-- ===== src/Lsl/Agreement.antt =====
-- The tables of lsl.cpp are those that the functions of lst.cpp give for two spines and three leafs with
-- two hosts each.

use count_buffy.Prelude.{ℕ, zero, suc, ◌<◌, ◌≡◌, refl, arith}
use count_buffy.Prelude.{nat_key, pair_key, assign}
use count_buffy.Lst.Topology.{
  get_leaf_ports, get_port_to_ecmp, get_pkt_type_to_next_hop_port, get_pkt_type_to_dst_index,
  get_pkt_type_to_spine_index, get_port_index_to_input_index, get_spine_port_map,
  get_pkt_type_to_next_hop_port_spine, leaf_hop, spine_hop,
}
use count_buffy.Lsl.Tables.{
  pkt_type_to_dst, pkt_type_to_ecmp, leaf_ports, port_to_ecmp, hops_of, inputs_of, spine_ports_of,
  spine_pkt_type_to_nxt_hop,
}

-- The tables of the packet types, and those that all leafs or all spines share.
pub record AgreesOnTypes : Type 0 where
  pub dsts : pkt_type_to_dst ≡ get_pkt_type_to_dst_index 2 3 2
  pub ecmps : pkt_type_to_ecmp ≡ get_pkt_type_to_spine_index 2 3 2
  pub ports : leaf_ports ≡ get_leaf_ports 2 2
  pub paths : port_to_ecmp ≡ get_port_to_ecmp 2 2
  pub spine_hops : spine_pkt_type_to_nxt_hop ≡ get_pkt_type_to_next_hop_port_spine 2 3 2

pub types_agree : AgreesOnTypes
unfolding get_pkt_type_to_dst_index get_pkt_type_to_spine_index get_leaf_ports get_port_to_ecmp
    get_pkt_type_to_next_hop_port_spine spine_hop assign
types_agree = record { dsts = refl; ecmps = refl; ports = refl; paths = refl; spine_hops = refl }

-- Agree.
pub tables_agree :
    (leaf spine : ℕ)
    → leaf < 3
    → spine < 2
    → (hops_of leaf ≡ get_pkt_type_to_next_hop_port 2 3 2 leaf)
      × (inputs_of leaf ≡ get_port_index_to_input_index 2 3 2 leaf)
      × (spine_ports_of spine ≡ get_spine_port_map 3 2 spine)
unfolding get_pkt_type_to_next_hop_port get_port_index_to_input_index get_spine_port_map leaf_hop
    assign
tables_agree zero zero b c = (refl, refl, refl)
tables_agree zero (suc zero) b c = (refl, refl, refl)
tables_agree (suc zero) zero b c = (refl, refl, refl)
tables_agree (suc zero) (suc zero) b c = (refl, refl, refl)
tables_agree (suc (suc zero)) zero b c = (refl, refl, refl)
tables_agree (suc (suc zero)) (suc zero) b c = (refl, refl, refl)
tables_agree (suc (suc (suc leaf))) spine b c = absurd (omega arith)
tables_agree leaf (suc (suc spine)) b c = absurd (omega arith)
