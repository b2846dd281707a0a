-- ===== src/Leaf/Switch.antt =====
-- src/leaf_spine/leaf_base.hpp and src/leaf_spine/leaf_base.cpp: the buffers of a switch by input and
-- output port, what comes in and goes out at a port, and the turns. The constraints on a buffer are in
-- Leaf.Inputs and Leaf.Windows.
use count_buffy.Prelude.{
  ℕ, ◌+◌, ◌-◌, ◌%◌, Bool, false, List, [], ◌∷◌, ◌++◌, map, pos, length, get_or, range, loop, ◌==◌,
  if◌then◌else◌, Text, codes, to_string,
}
use count_buffy.Z3.{Z3, num}
use count_buffy.Vec.{Ev2, Bv, bit}
use count_buffy.Solver.{SmtSolver, Outcome, returns, throws, ivv_const}
use count_buffy.Leaf.Buffs.{LeafBuff, new_full, new_empty, new_used, get_expanded_i, get_expanded_o}
use count_buffy.Vec.{add_rows}
use count_buffy.Prelude.{nat_key, pair_key, Map, assign, find_or, values, add_once}

module _ ⦃z : Z3⦄ where
  -- The fields of `LeafBase`, without the solver, which is passed on, and without those of the
  -- derived classes.
  pub record Switch : Type 0 where
    pub var_prefix : Text
    pub timesteps : ℕ
    pub pkt_types : ℕ
    pub buff_cap : ℕ
    pub max_enq : ℕ
    pub max_deq : ℕ
    pub use_win : Bool
    pub buffs : Map (ℕ × ℕ) LeafBuff

  -- `format("{}_BUF_{}_{}", var_prefix, src, dst)`
  abbrev pub buff_name : Text → ℕ → ℕ → Text
  buff_name var_prefix src dst =
      var_prefix ++ codes "_BUF_" ++ to_string src ++ codes "_" ++ to_string dst

  unfoldable pub full_buffs :
      Text
      → ℕ
      → ℕ
      → ℕ
      → ℕ
      → ℕ
      → List (ℕ × ℕ)
      → Map (ℕ × ℕ) LeafBuff
      → SmtSolver
      → Map (ℕ × ℕ) LeafBuff × SmtSolver
  full_buffs var_prefix timesteps pkt_types cap enq deq [] buffs slv = (buffs, slv)
  full_buffs var_prefix timesteps pkt_types cap enq deq ((src, dst) ∷ ports) buffs slv =
      let (buff, slv) =
        new_full slv (buff_name var_prefix src dst) timesteps pkt_types enq deq cap src dst in
      full_buffs var_prefix timesteps pkt_types cap enq deq ports (assign (src, dst) buff buffs) slv

  -- The constructor from a list of port pairs.
  unfoldable pub new_switch :
      SmtSolver → Text → List (ℕ × ℕ) → ℕ → ℕ → ℕ → ℕ → ℕ → Switch × SmtSolver
  unfolding full_buffs
  new_switch slv var_prefix port_list time_steps pkt_types buff_cap max_enq max_deq =
      let (buffs, slv) =
        full_buffs var_prefix time_steps pkt_types buff_cap max_enq max_deq port_list [] slv in
      (
        record {
          var_prefix = var_prefix;
          timesteps = time_steps;
          pkt_types = pkt_types;
          buff_cap = buff_cap;
          max_enq = max_enq;
          max_deq = max_deq;
          use_win = false;
          buffs = buffs;
        },
        slv,
      )

  -- Without a packet type in use the buffer is an empty one.
  unfoldable pub buff_of :
      Text → ℕ → ℕ → ℕ → ℕ → ℕ → ℕ → ℕ → List ℕ → SmtSolver → LeafBuff × SmtSolver
  buff_of var_prefix timesteps pkt_types cap enq deq src dst [] slv =
      new_empty slv timesteps pkt_types src dst
  buff_of var_prefix timesteps pkt_types cap enq deq src dst (k ∷ ks) slv =
      new_used slv (buff_name var_prefix src dst) timesteps pkt_types enq deq cap src dst (k ∷ ks)

  unfoldable pub used_buffs :
      Text
      → ℕ
      → ℕ
      → ℕ
      → ℕ
      → ℕ
      → Map (ℕ × ℕ) (List ℕ)
      → Map (ℕ × ℕ) LeafBuff
      → SmtSolver
      → Map (ℕ × ℕ) LeafBuff × SmtSolver
  unfolding buff_of
  used_buffs var_prefix timesteps pkt_types cap enq deq [] buffs slv = (buffs, slv)
  used_buffs var_prefix timesteps pkt_types cap enq deq (((src, dst), used) ∷ ports) buffs slv =
      let (buff, slv) = buff_of var_prefix timesteps pkt_types cap enq deq src dst used slv in
      used_buffs var_prefix timesteps pkt_types cap enq deq ports (assign (src, dst) buff buffs) slv

  -- The constructor from the packet types that are in use between two ports.
  unfoldable pub new_switch_used :
      SmtSolver → Text → Map (ℕ × ℕ) (List ℕ) → ℕ → ℕ → ℕ → ℕ → ℕ → Switch × SmtSolver
  unfolding used_buffs
  new_switch_used slv var_prefix port_list time_steps pkt_types buff_cap max_enq max_deq =
      let (buffs, slv) =
        used_buffs var_prefix time_steps pkt_types buff_cap max_enq max_deq port_list [] slv in
      (
        record {
          var_prefix = var_prefix;
          timesteps = time_steps;
          pkt_types = pkt_types;
          buff_cap = buff_cap;
          max_enq = max_enq;
          max_deq = max_deq;
          use_win = false;
          buffs = buffs;
        },
        slv,
      )

  abbrev pub get_buff_list : Switch → List LeafBuff
  get_buff_list sw = values sw.buffs

  -- The buffers by output port and then by input port.
  unfoldable pub src_map_per_dst : Switch → Map ℕ (Map ℕ LeafBuff)
  src_map_per_dst sw =
      loop (λ m ((src, dst), buff). assign dst (assign src buff (find_or m dst [])) m) [] sw.buffs

  unfoldable pub dst_map_per_src : Switch → Map ℕ (Map ℕ LeafBuff)
  dst_map_per_src sw =
      loop (λ m ((src, dst), buff). assign src (assign dst buff (find_or m src [])) m) [] sw.buffs

  unfoldable pub get_buffs_for_dst : Switch → ℕ → List LeafBuff
  unfolding src_map_per_dst
  get_buffs_for_dst sw dst = values (find_or (src_map_per_dst sw) dst [])

  unfoldable pub from_src : ℕ → Map (ℕ × ℕ) LeafBuff → List LeafBuff
  from_src src [] = []
  from_src src ((key, buff) ∷ buffs) =
      let rest = from_src src buffs in if key.0 == src then buff ∷ rest else rest

  unfoldable pub get_buffs_for_src : Switch → ℕ → List LeafBuff
  unfolding from_src
  get_buffs_for_src sw src = from_src src sw.buffs

  unfoldable pub get_in_ports : Switch → List ℕ
  get_in_ports sw = loop (λ ports ((src, dst), buff). add_once ports src) [] sw.buffs

  unfoldable pub get_out_ports : Switch → List ℕ
  get_out_ports sw = loop (λ ports ((src, dst), buff). add_once ports dst) [] sw.buffs

  -- What the buffers of a port take in, or let out, together.
  unfoldable pub joined : (LeafBuff → Ev2) → LeafBuff → List LeafBuff → Ev2
  joined f buff buffs = loop (λ rows b. add_rows rows (f b)) (f buff) buffs

  unfoldable pub in_of : List LeafBuff → Outcome Ev2
  unfolding joined get_expanded_i
  in_of [] = throws (codes "src_buffs.size() > 0")
  in_of (buff ∷ buffs) = returns (joined get_expanded_i buff buffs)

  unfoldable pub get_in_port : Switch → ℕ → Outcome Ev2
  unfolding in_of get_buffs_for_src
  get_in_port sw src = in_of (get_buffs_for_src sw src)

  unfoldable pub out_of : Switch → List LeafBuff → SmtSolver → Ev2 × SmtSolver
  unfolding joined get_expanded_o
  out_of sw [] slv = ivv_const sw.timesteps sw.pkt_types (pos 0) slv
  out_of sw (buff ∷ buffs) slv = (joined get_expanded_o buff buffs, slv)

  unfoldable pub get_out_port : Switch → ℕ → SmtSolver → Ev2 × SmtSolver
  unfolding out_of get_buffs_for_dst
  get_out_port sw dst slv = out_of sw (get_buffs_for_dst sw dst) slv

  -- The turn after the `i`-th buffer: the candidates are tried from the farthest to the nearest,
  -- and the last backlogged one stands.
  unfoldable pub rr_from : List ℕ → Bv → ℕ → z.IntExpr
  rr_from vals b i =
      let count = length vals in
      loop (λ x j. let l = (i + count - j) % count in z.ite_int (bit b l) (num (get_or vals l 0)) x)
        (num (get_or vals i 0)) (range 1 count)

  -- The common body of `rr_for_dst` and `rr_for_src`, which differ in the ports that they read.
  unfoldable pub rr : List ℕ → Bv → z.IntExpr → z.IntExpr
  unfolding rr_from
  rr vals b prev_turn =
      loop
        (λ nxt_turn i.
          z.ite_int (z.eq prev_turn (num (get_or vals i 0))) (rr_from vals b i) nxt_turn)
        prev_turn (range 0 (length vals))

  unfoldable pub rr_for_dst : List LeafBuff → ℕ → z.IntExpr → z.IntExpr
  unfolding rr
  rr_for_dst buffs t prev_turn =
      rr (map (λ (b : LeafBuff). b.src) buffs) (map (λ (b : LeafBuff). bit b.B t) buffs) prev_turn

  unfoldable pub rr_for_src : List LeafBuff → ℕ → z.IntExpr → z.IntExpr
  unfolding rr
  rr_for_src buffs t prev_turn =
      rr (map (λ (b : LeafBuff). b.dst) buffs) (map (λ (b : LeafBuff). bit b.B t) buffs) prev_turn
