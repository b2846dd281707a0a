-- ===== src/Leaf/Ports.antt =====
-- The packet types between the ports of a switch (`fix` and `update_ports` of
-- src/leaf_spine/leaf_utils.cpp), which say for which types a buffer has variables. An index or a path
-- of -1 is `none`. The maps by packet type have the keys from 0 on, as all callers build them, so a
-- read with `[]` inserts nothing.

pub mod Members
pub mod Exact
use count_buffy.Prelude.{
  ℕ, ◌+◌, ◌*◌, ◌%◌, Bool, false, Option, none, some, List, [], ◌∷◌, map, length, get_or, range,
  loop, gather, ltb, ◌==◌, if◌then◌else◌,
}
use count_buffy.Prelude.{nat_key, Map, find_or, contains_number, add_once}
use mathlib.Core.Bool.{◌&&◌, not}

abbrev pub PortTypes : Type 0
PortTypes = Map (ℕ × ℕ) (List ℕ)

-- What an input may send: the destinations and the paths.
pub record Values : Type 0 where
  pub dst : List ℕ
  pub ecmp : List ℕ

abbrev pub is_number : Option ℕ → ℕ → Bool
is_number none n = false
is_number (some k) n = k == n

abbrev pub is_in : Option ℕ → List ℕ → Bool
is_in none ns = false
is_in (some k) ns = contains_number ns k

-- What `fix` reads of the network and of a switch.
pub record Routes : Type 0 where
  pub pkt_type_to_nxt_hop : List ℕ
  pub used_dsts : List ℕ
  pub used_ecmps : List ℕ
  pub pkt_type_to_dst : Map ℕ ℕ
  pub pkt_type_to_ecmp : Map ℕ ℕ
  pub port_to_ecmp : List (Option ℕ)
  pub src_port_to_input : List (Option ℕ)
  pub zero_inputs : List ℕ

-- Packet type `k` goes from one port to the other.
unfoldable pub goes : Routes → ℕ → ℕ → ℕ → Bool
goes r src_port dst_port k =
    let ecmp_value = find_or r.pkt_type_to_ecmp k 0 in
    let dst_value = find_or r.pkt_type_to_dst k 0 in
    contains_number r.used_dsts dst_value
    && (contains_number r.used_ecmps ecmp_value
        && (get_or r.pkt_type_to_nxt_hop k 0 == dst_port
            && (is_number (get_or r.port_to_ecmp src_port none) ecmp_value
                && not (is_in (get_or r.src_port_to_input src_port none) r.zero_inputs))))

-- `if (…) if (find(…) == p.end()) p.push_back(k);` for each of some types.
unfoldable pub add_types : (ℕ → Bool) → List ℕ → List ℕ → List ℕ
add_types test p ks = loop (λ p k. if test k then add_once p k else p) p ks

-- The ports to the hosts, 0 and 1, are left to `update_ports`.
unfoldable pub fix_port : Routes → ℕ × ℕ → List ℕ → List ℕ
unfolding goes add_types
fix_port r key p =
    if ltb key.0 2 then p else add_types (goes r key.0 key.1) p (range 0 (length r.pkt_type_to_dst))

unfoldable pub fix : Routes → PortTypes → PortTypes
unfolding fix_port
fix r ports = map (λ (key, p). (key, fix_port r key p)) ports

abbrev pub ecmps_of : Option ℕ → List ℕ → List ℕ
ecmps_of (some e) used = e ∷ []
ecmps_of none used = used

-- The number of destinations, by which the types of two paths differ.
abbrev pub path_offset : ℕ
path_offset = 6

-- The packet types with a path of `dst_ecmps`, which is used, and a used destination.
unfoldable pub types_of : Values → List ℕ → List ℕ
types_of used dst_ecmps =
    gather
      (λ e. if contains_number used.ecmp e then map (λ d. e * path_offset + d) used.dst else [])
      dst_ecmps

unfoldable pub update_port :
    List Values → List (Option ℕ) → List ℕ → List (Option ℕ) → ℕ × ℕ → List ℕ → List ℕ
unfolding types_of add_types
update_port vals_per_input port_to_input hops port_to_ecmp key p =
    elim (get_or port_to_input key.0 none) [
      | none ↦ p
      | some src_input ↦
          let used =
            get_or vals_per_input (src_input % length vals_per_input)
              (record { dst = []; ecmp = [] }) in
          add_types (λ k. get_or hops k 0 == key.1) p
            (types_of used (ecmps_of (get_or port_to_ecmp key.1 none) used.ecmp))
    ]

unfoldable pub update_ports :
    List Values → PortTypes → List (Option ℕ) → List ℕ → List (Option ℕ) → PortTypes
unfolding update_port
update_ports vals_per_input ports port_to_input hops port_to_ecmp =
    map (λ (key, p). (key, update_port vals_per_input port_to_input hops port_to_ecmp key p)) ports
