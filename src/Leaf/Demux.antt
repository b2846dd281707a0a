-- ===== src/Leaf/Demux.antt =====
-- src/leaf_spine/demux_switch.hpp and src/leaf_spine/demux_switch.cpp: a switch that knows the output
-- port of each packet type, so that the input of a port is put together type by type.

-- The switch of the base classes and the output port of each packet type.
use count_buffy.Prelude.{
  ℕ, none, some, List, [], ◌∷◌, ◌++◌, map, get_or, range, loop, gather, ◌==◌, if◌then◌else◌, Text,
  codes, to_string,
}
use count_buffy.Z3.{Z3, num}
use count_buffy.Vec.{Ev2, at, row}
use count_buffy.NamedExp.{named}
use count_buffy.Solver.{SmtSolver, add_all}
use count_buffy.Leaf.Buffs.{LeafBuff, get_expanded_i}
use count_buffy.Leaf.Switch.{Switch, get_in_ports}
use count_buffy.Leaf.Fperf.{Fperf, new_fperf, new_fperf_used}
use count_buffy.Prelude.{nat_key, Map, assign, find}

pub record Demux ⦃z : Z3⦄ : Type 0 where
  pub base : Switch
  pub st : Fperf
  pub pkt_type_to_nxt_hop : List ℕ

module _ ⦃z : Z3⦄ where
  unfoldable pub get_dst_map : Switch → ℕ → Map ℕ LeafBuff
  get_dst_map sw src =
      loop (λ m ((s, d), buff). if src == s then assign d buff m else m) [] sw.buffs

  -- The input of packet type `k` at step `t`: that of the buffer to its next hop, if there is one.
  unfoldable pub hop_input : Map ℕ LeafBuff → ℕ → ℕ → ℕ → z.IntExpr
  unfolding get_expanded_i
  hop_input buffs hop t k = elim (find buffs hop) [
    | none ↦ num 0
    | some buff ↦ at (row (get_expanded_i buff) t) k
  ]

  unfoldable pub get_in_port : Demux → ℕ → Ev2
  unfolding get_dst_map hop_input
  get_in_port sw src =
      let buffs = get_dst_map sw.base src in
      map
        (λ t.
          map (λ k. hop_input buffs (get_or sw.pkt_type_to_nxt_hop k 0) t k)
            (range 0 sw.base.pkt_types))
        (range 0 sw.base.timesteps)

  -- Other packet types do not enter a buffer; `add` appends the expression to the name. The call in the constructors is commented out.
  unfoldable pub add_some_constraint : Demux → Text → ℕ → List ℕ → SmtSolver → SmtSolver
  unfolding get_in_ports get_dst_map
  add_some_constraint sw var_prefix pkt_types hops slv = add_all slv (
      gather
        (λ src.
          gather
            (λ ((dst, buff) : ℕ × LeafBuff).
              gather
                (λ t.
                  gather
                    (λ k.
                      if dst == get_or hops k 0
                      then []
                      else let e = z.eq (at (row buff.I t) k) (num 0) in
                        named e (
                          var_prefix
                          ++ codes "_["
                          ++ to_string src
                          ++ codes "->"
                          ++ to_string dst
                          ++ codes "@"
                          ++ to_string t
                          ++ codes "#"
                          ++ to_string k
                          ++ codes "] == 0_"
                          ++ z.to_text e)
                        ∷ [])
                    (range 0 pkt_types))
                (range 0 sw.base.timesteps))
            (get_dst_map sw.base src))
        (get_in_ports sw.base))

  unfoldable pub new_demux_used :
      SmtSolver → Text → Map (ℕ × ℕ) (List ℕ) → ℕ → ℕ → ℕ → ℕ → ℕ → List ℕ → Demux × SmtSolver
  unfolding new_fperf_used
  new_demux_used slv var_prefix port_list time_steps pkt_types buf_cap max_enq max_deq hops =
      let ((sw, st), slv) =
        new_fperf_used slv var_prefix port_list time_steps pkt_types buf_cap max_enq max_deq in
      (record { base = sw; st = st; pkt_type_to_nxt_hop = hops }, slv)

  unfoldable pub new_demux :
      SmtSolver → Text → List (ℕ × ℕ) → ℕ → ℕ → ℕ → ℕ → ℕ → List ℕ → Demux × SmtSolver
  unfolding new_fperf
  new_demux slv var_prefix port_list time_steps pkt_types buf_cap max_enq max_deq hops =
      let ((sw, st), slv) =
        new_fperf slv var_prefix port_list time_steps pkt_types buf_cap max_enq max_deq in
      (record { base = sw; st = st; pkt_type_to_nxt_hop = hops }, slv)
