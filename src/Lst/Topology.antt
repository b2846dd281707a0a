-- ===== src/Lst/Topology.antt =====
-- The ports of the switches, and for each packet type the destination, the path and the next hop
-- (lst.cpp). The ports of a leaf are its hosts and then the spines; those of a spine are the leafs.
-- A packet type is a path and a destination.

-- No packet type is in use between the ports of a leaf until `fix` and `update_ports`. A host's port
-- is linked with every other one.
use count_buffy.Prelude.{
  ℕ, ◌+◌, ◌*◌, ◌/◌, ◌%◌, Option, none, some, List, [], ◌++◌, map, range, loop, ltb, leb, ◌==◌,
  if◌then◌else◌,
}
use count_buffy.Prelude.{nat_key, pair_key, Map, assign}
use count_buffy.Leaf.Ports.{PortTypes}
use mathlib.Core.Bool.{◌&&◌}

unfoldable pub get_leaf_ports : ℕ → ℕ → PortTypes
get_leaf_ports hosts_per_leaf num_spines =
    loop
      (λ ports host_port.
        loop
          (λ ports i.
            if host_port == i
            then ports
            else assign (i, host_port) [] (assign (host_port, i) [] ports))
          ports (range 0 (hosts_per_leaf + num_spines)))
      [] (range 0 hosts_per_leaf)

unfoldable pub get_port_to_ecmp : ℕ → ℕ → List (Option ℕ)
get_port_to_ecmp host_per_leaf num_spines =
    map (λ i. none) (range 0 host_per_leaf) ++ map (λ i. some i) (range 0 num_spines)

-- The next hop of packet type `i` at a leaf.
unfoldable pub leaf_hop : ℕ → ℕ → ℕ → ℕ → ℕ
leaf_hop leafs_per_spine hosts_per_leaf leaf_index i =
    let total_hosts = leafs_per_spine * hosts_per_leaf in
    let host_index = i % total_hosts in
    if leb (leaf_index * hosts_per_leaf) host_index
      && ltb host_index ((leaf_index + 1) * hosts_per_leaf)
    then host_index % hosts_per_leaf
    else hosts_per_leaf + i / total_hosts

unfoldable pub get_pkt_type_to_next_hop_port : ℕ → ℕ → ℕ → ℕ → List ℕ
unfolding leaf_hop
get_pkt_type_to_next_hop_port num_spines leafs_per_spine hosts_per_leaf leaf_index =
    map (leaf_hop leafs_per_spine hosts_per_leaf leaf_index)
      (range 0 (num_spines * (leafs_per_spine * hosts_per_leaf)))

-- The keys are assigned in their order.
unfoldable pub get_pkt_type_to_dst_index : ℕ → ℕ → ℕ → Map ℕ ℕ
get_pkt_type_to_dst_index num_spines leafs_per_spine hosts_per_leaf =
    let total_hosts = leafs_per_spine * hosts_per_leaf in
    map (λ i. (i, i % total_hosts)) (range 0 (num_spines * total_hosts))

unfoldable pub get_pkt_type_to_spine_index : ℕ → ℕ → ℕ → Map ℕ ℕ
get_pkt_type_to_spine_index num_spines leafs_per_spine hosts_per_leaf =
    let total_hosts = leafs_per_spine * hosts_per_leaf in
    map (λ i. (i, i / total_hosts)) (range 0 (num_spines * total_hosts))

unfoldable pub get_port_index_to_input_index : ℕ → ℕ → ℕ → ℕ → List (Option ℕ)
get_port_index_to_input_index num_spines leafs_per_spine hosts_per_leaf leaf_index =
    map (λ i. some (hosts_per_leaf * leaf_index + i)) (range 0 hosts_per_leaf)
    ++ map (λ i. none) (range 0 num_spines)

-- Between two leafs a spine passes on the types of its path to the hosts of the second one.
unfoldable pub get_spine_port_map : ℕ → ℕ → ℕ → PortTypes
get_spine_port_map leafs_per_spine host_per_leaf spine_index =
    let total_hosts = host_per_leaf * leafs_per_spine in
    loop
      (λ ports i.
        loop
          (λ ports j.
            if i == j
            then ports
            else assign (i, j)
                (map (λ k. spine_index * total_hosts + (host_per_leaf * j + k))
                  (range 0 host_per_leaf))
                ports)
          ports (range 0 leafs_per_spine))
      [] (range 0 leafs_per_spine)

-- The next hop of packet type `i` at a spine.
unfoldable pub spine_hop : ℕ → ℕ → ℕ → ℕ
spine_hop leafs_per_spine host_per_leaf i = (i % (leafs_per_spine * host_per_leaf)) / host_per_leaf

unfoldable pub get_pkt_type_to_next_hop_port_spine : ℕ → ℕ → ℕ → List ℕ
unfolding spine_hop
get_pkt_type_to_next_hop_port_spine num_spines leafs_per_spine host_per_leaf =
    map (spine_hop leafs_per_spine host_per_leaf)
      (range 0 (num_spines * (leafs_per_spine * host_per_leaf)))
