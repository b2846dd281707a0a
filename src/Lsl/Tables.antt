-- ===== src/Lsl/Tables.antt =====
-- The tables that `check_wl` of lsl.cpp writes out: destinations and paths of the packet types, the ports
-- of the three leafs and the two spines, and their next hops.

use count_buffy.Prelude.{ℕ, Option, none, some, List, [], ◌∷◌, get_or, Map}
use count_buffy.Leaf.Ports.{PortTypes}

abbrev pub pkt_type_to_dst : Map ℕ ℕ
pkt_type_to_dst =
    (0, 0)
    ∷ (1, 1)
    ∷ (2, 2)
    ∷ (3, 3)
    ∷ (4, 4)
    ∷ (5, 5)
    ∷ (6, 0)
    ∷ (7, 1)
    ∷ (8, 2)
    ∷ (9, 3)
    ∷ (10, 4)
    ∷ (11, 5)
    ∷ []

abbrev pub pkt_type_to_ecmp : Map ℕ ℕ
pkt_type_to_ecmp =
    (0, 0)
    ∷ (1, 0)
    ∷ (2, 0)
    ∷ (3, 0)
    ∷ (4, 0)
    ∷ (5, 0)
    ∷ (6, 1)
    ∷ (7, 1)
    ∷ (8, 1)
    ∷ (9, 1)
    ∷ (10, 1)
    ∷ (11, 1)
    ∷ []

-- `l1_ports`, `l2_ports` and `l3_ports` are the same.
abbrev pub leaf_ports : PortTypes
leaf_ports =
    ((0, 1), [])
    ∷ ((0, 2), [])
    ∷ ((0, 3), [])
    ∷ ((1, 0), [])
    ∷ ((1, 2), [])
    ∷ ((1, 3), [])
    ∷ ((2, 0), [])
    ∷ ((2, 1), [])
    ∷ ((3, 0), [])
    ∷ ((3, 1), [])
    ∷ []

abbrev pub port_to_ecmp : List (Option ℕ)
port_to_ecmp = none ∷ none ∷ some 0 ∷ some 1 ∷ []

abbrev pub l1_pkt_type_to_nxt_hop : List ℕ
l1_pkt_type_to_nxt_hop = 0 ∷ 1 ∷ 2 ∷ 2 ∷ 2 ∷ 2 ∷ 0 ∷ 1 ∷ 3 ∷ 3 ∷ 3 ∷ 3 ∷ []

abbrev pub l2_pkt_type_to_nxt_hop : List ℕ
l2_pkt_type_to_nxt_hop = 2 ∷ 2 ∷ 0 ∷ 1 ∷ 2 ∷ 2 ∷ 3 ∷ 3 ∷ 0 ∷ 1 ∷ 3 ∷ 3 ∷ []

abbrev pub l3_pkt_type_to_nxt_hop : List ℕ
l3_pkt_type_to_nxt_hop = 2 ∷ 2 ∷ 2 ∷ 2 ∷ 0 ∷ 1 ∷ 3 ∷ 3 ∷ 3 ∷ 3 ∷ 0 ∷ 1 ∷ []

abbrev pub l1_src_port_to_input : List (Option ℕ)
l1_src_port_to_input = some 0 ∷ some 1 ∷ none ∷ none ∷ []

abbrev pub l2_src_port_to_input : List (Option ℕ)
l2_src_port_to_input = some 2 ∷ some 3 ∷ none ∷ none ∷ []

abbrev pub l3_src_port_to_input : List (Option ℕ)
l3_src_port_to_input = some 4 ∷ some 5 ∷ none ∷ none ∷ []

abbrev pub s1_ports : PortTypes
s1_ports =
    ((0, 1), 2 ∷ 3 ∷ [])
    ∷ ((0, 2), 4 ∷ 5 ∷ [])
    ∷ ((1, 0), 0 ∷ 1 ∷ [])
    ∷ ((1, 2), 4 ∷ 5 ∷ [])
    ∷ ((2, 0), 0 ∷ 1 ∷ [])
    ∷ ((2, 1), 2 ∷ 3 ∷ [])
    ∷ []

abbrev pub s2_ports : PortTypes
s2_ports =
    ((0, 1), 8 ∷ 9 ∷ [])
    ∷ ((0, 2), 10 ∷ 11 ∷ [])
    ∷ ((1, 0), 6 ∷ 7 ∷ [])
    ∷ ((1, 2), 10 ∷ 11 ∷ [])
    ∷ ((2, 0), 6 ∷ 7 ∷ [])
    ∷ ((2, 1), 8 ∷ 9 ∷ [])
    ∷ []

-- `s1_pkt_type_to_nxt_hop` and `s2_pkt_type_to_nxt_hop` are the same.
abbrev pub spine_pkt_type_to_nxt_hop : List ℕ
spine_pkt_type_to_nxt_hop = 0 ∷ 0 ∷ 1 ∷ 1 ∷ 2 ∷ 2 ∷ 0 ∷ 0 ∷ 1 ∷ 1 ∷ 2 ∷ 2 ∷ []

-- The tables by the number of the leaf or the spine.
abbrev pub hops_of : ℕ → List ℕ
hops_of leaf =
    get_or (l1_pkt_type_to_nxt_hop ∷ l2_pkt_type_to_nxt_hop ∷ l3_pkt_type_to_nxt_hop ∷ []) leaf []

abbrev pub inputs_of : ℕ → List (Option ℕ)
inputs_of leaf =
    get_or (l1_src_port_to_input ∷ l2_src_port_to_input ∷ l3_src_port_to_input ∷ []) leaf []

abbrev pub spine_ports_of : ℕ → PortTypes
spine_ports_of spine = get_or (s1_ports ∷ s2_ports ∷ []) spine []
