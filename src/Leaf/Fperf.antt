-- ===== src/Leaf/Fperf.antt =====
-- src/leaf_spine/fperf_leaf_sts.hpp and src/leaf_spine/fperf_leaf_sts.cpp: a switch that matches its
-- input ports with its output ports in every step. Each port has a queue at the head of its round
-- robin, and goes on from there.

-- `mk_and` and `mk_or`.
pub mod Matching
pub mod Service
use count_buffy.Prelude.{
  ℕ, zero, suc, ◌+◌, ◌-◌, ◌%◌, true, false, List, [], ◌∷◌, ◌++◌, map, pos, length, range, loop,
  gather, ◌==◌, if◌then◌else◌, Text, codes, to_string,
}
use count_buffy.Z3.{Z3, ◌&&◌, ◌||◌, num}
use count_buffy.Vec.{Bv, Bv2, bit, row, sum, sum_eq}
use count_buffy.NamedExp.{NamedExp, named}
use count_buffy.Solver.{SmtSolver}
use count_buffy.Leaf.Buffs.{LeafBuff}
use count_buffy.Leaf.Switch.{
  Switch, get_in_ports, get_out_ports, get_buffs_for_src, get_buffs_for_dst, new_switch,
  new_switch_used,
}
use count_buffy.Leaf.Base.{Kind}
use count_buffy.Prelude.{nat_key, pair_key, Map, assign, find_or}

module _ ⦃z : Z3⦄ where
  abbrev pub mk_and : Bv → z.BoolExpr
  mk_and [] = z.bool_val true
  mk_and (e ∷ es) = e && mk_and es

  abbrev pub mk_or : Bv → z.BoolExpr
  mk_or [] = z.bool_val false
  mk_or (e ∷ es) = e || mk_or es

-- For each port: the index of the other port among its queues, and for each queue and step whether
-- it is matched and whether it is at the head.
pub record Fperf ⦃z : Z3⦄ : Type 0 where
  pub dst_src_to_src_idx : Map ℕ (Map ℕ ℕ)
  pub src_dst_to_dst_idx : Map ℕ (Map ℕ ℕ)
  pub in_to_out : Map ℕ Bv2
  pub out_from_in : Map ℕ Bv2
  pub in_prio_head : Map ℕ Bv2
  pub out_prio_head : Map ℕ Bv2

module _ ⦃z : Z3⦄ where
  -- `format("{}_{}[{}][{}][{}]", var_prefix, what, port, i, t)`
  abbrev pub var_name : Text → Text → ℕ → ℕ → ℕ → Text
  var_name var_prefix what port i t =
      var_prefix
      ++ codes "_"
      ++ what
      ++ codes "["
      ++ to_string port
      ++ codes "]["
      ++ to_string i
      ++ codes "]["
      ++ to_string t
      ++ codes "]"

  unfoldable pub port_idx : (LeafBuff → ℕ) → List LeafBuff → ℕ → Map ℕ ℕ → Map ℕ ℕ
  port_idx f [] i idx = idx
  port_idx f (buff ∷ buffs) i idx = port_idx f buffs (suc i) (assign (f buff) i idx)

  -- Variables for `n` queues of a port over `steps` steps.
  unfoldable pub port_vars : Text → Text → ℕ → ℕ → ℕ → Bv2
  port_vars var_prefix what steps port n =
      map (λ i. map (λ t. z.bool_const (var_name var_prefix what port i t)) (range 0 steps))
        (range 0 n)

  unfoldable pub setup : Switch → Fperf
  unfolding port_idx port_vars get_in_ports get_out_ports get_buffs_for_src get_buffs_for_dst
  setup sw =
      let ins = get_in_ports sw in
      let outs = get_out_ports sw in
      let in_count = λ (p : ℕ). length (get_buffs_for_src sw p) in
      let out_count = λ (p : ℕ). length (get_buffs_for_dst sw p) in
      let in_vars = λ (what : Text).
        loop (λ m p. assign p (port_vars sw.var_prefix what sw.timesteps p (in_count p)) m) []
          ins in
      let out_vars = λ (what : Text).
        loop (λ m p. assign p (port_vars sw.var_prefix what sw.timesteps p (out_count p)) m) []
          outs in
      record {
        dst_src_to_src_idx =
            loop
              (λ m p. assign p (port_idx (λ (b : LeafBuff). b.src) (get_buffs_for_dst sw p) 0 []) m)
              [] outs;
        src_dst_to_dst_idx =
            loop
              (λ m p. assign p (port_idx (λ (b : LeafBuff). b.dst) (get_buffs_for_src sw p) 0 []) m)
              [] ins;
        in_to_out = in_vars (codes "in_to_out");
        out_from_in = out_vars (codes "out_from_in");
        in_prio_head = in_vars (codes "in_prio_head");
        out_prio_head = out_vars (codes "out_prio_head");
      }

  -- `vars[port][i][t]`
  abbrev pub var_at : Map ℕ Bv2 → ℕ → ℕ → ℕ → z.BoolExpr
  var_at vars port i t = bit (row (find_or vars port []) i) t

  -- `idx[port][other]`
  abbrev pub idx_at : Map ℕ (Map ℕ ℕ) → ℕ → ℕ → ℕ
  idx_at idx port other = find_or (find_or idx port []) other 0

  -- A text with numbers after it, each behind a word.
  abbrev pub worded : Text → Text → ℕ → Text
  worded name word n = name ++ word ++ to_string n

  -- The input and the output agree on a match, and only a backlogged buffer is matched.
  unfoldable pub together : Switch → Fperf → ℕ → ℕ → ℕ → LeafBuff → NamedExp
  together sw st t src dst buff =
      let src_idx = idx_at st.dst_src_to_src_idx dst src in
      let dst_idx = idx_at st.src_dst_to_dst_idx src dst in
      let i = var_at st.in_to_out src dst_idx t in
      let o = var_at st.out_from_in dst src_idx t in
      named (z.implies i (o && bit buff.B t) && z.implies (z.neg i) (z.neg o)) (
        worded
          (worded
            (worded
              (worded (worded sw.var_prefix (codes "_in_and_out_together_") src) (codes "(q")
                dst_idx)
              (codes ")_") dst)
            (codes "(q") src_idx)
          (codes ")_at_") t)

  -- `!f(ind)` for the indices before `idx`.
  unfoldable pub not_before : (ℕ → z.BoolExpr) → ℕ → List ℕ → Bv
  not_before f idx [] = []
  not_before f idx (ind ∷ inds) =
      let rest = not_before f idx inds in if ind == idx then [] else z.neg (f ind) ∷ rest

  -- For each queue at the head: no queue from the one after it up to `idx` is matched.
  unfoldable pub none_preferred : (ℕ → z.BoolExpr) → (ℕ → z.BoolExpr) → ℕ → ℕ → Bv
  unfolding not_before
  none_preferred head matched n idx =
      map
        (λ p. z.implies (head p) (
          mk_and
            (z.bool_val true ∷ not_before matched idx (map (λ k. (p + 1 + k) % n) (range 0 n)))))
        (range 0 n)

  unfoldable pub match_cond : Switch → Fperf → ℕ → ℕ → ℕ → LeafBuff → z.BoolExpr
  unfolding none_preferred get_buffs_for_src get_buffs_for_dst
  match_cond sw st t src dst buff =
      mk_and (
        none_preferred (λ p. var_at st.out_prio_head dst p t) (λ p. var_at st.out_from_in dst p t)
          (length (get_buffs_for_dst sw dst)) (idx_at st.dst_src_to_src_idx dst src))
      && mk_and (
          none_preferred (λ p. var_at st.in_prio_head src p t) (λ p. var_at st.in_to_out src p t)
            (length (get_buffs_for_src sw src)) (idx_at st.src_dst_to_dst_idx src dst))
      && bit buff.B t

  unfoldable pub matches : Switch → Fperf → ℕ → ℕ → ℕ → LeafBuff → List NamedExp
  unfolding match_cond
  matches sw st t src dst buff =
      let cond = match_cond sw st t src dst buff in
      let i = var_at st.in_to_out src (idx_at st.src_dst_to_dst_idx src dst) t in
      let name = λ (word : Text).
        worded (worded (worded sw.var_prefix (codes "_") src) word dst) (codes "_at_") t in
      named (z.implies cond i) (name (codes "_matches_"))
      ∷ named (z.implies (z.neg cond) (z.neg i)) (name (codes "_doesnt_match_"))
      ∷ []

  -- `!f(j)` for all `j` of `n` but `i`.
  unfoldable pub others_off : (ℕ → z.BoolExpr) → ℕ → ℕ → Bv
  others_off f n i = gather (λ j. if i == j then [] else z.neg (f j) ∷ []) (range 0 n)

  -- When one of `n` is on, the others are not.
  unfoldable pub only_one : (ℕ → Text) → (ℕ → z.BoolExpr) → ℕ → List NamedExp
  unfolding others_off
  only_one name f n =
      map (λ i. named (z.implies (f i) (mk_and (others_off f n i))) (name i)) (range 0 n)

  -- One queue is at the head, and only one.
  unfoldable pub one_head : Text → Text → ℕ → ℕ → ℕ → (ℕ → z.BoolExpr) → List NamedExp
  unfolding only_one
  one_head var_prefix side port t n head =
      named (mk_or (map head (range 0 n))) (
        worded (worded (var_prefix ++ codes "_at_least_one_" ++ side) (codes "_prio_head_[") port)
          (codes "]_at_") t)
      ∷ only_one
          (λ i.
            var_name var_prefix (codes "only_" ++ side ++ codes "_prio_head") port i t
            ++ codes "_is_one")
          head n

  -- A match moves the head to the matched queue; without a match the heads stay.
  unfoldable pub move_head :
      Text
      → Text
      → ℕ
      → ℕ
      → ℕ
      → (ℕ → z.BoolExpr)
      → (ℕ → z.BoolExpr)
      → (ℕ → z.BoolExpr)
      → List NamedExp
  move_head var_prefix side port t n matched head head' =
      map
        (λ i. named (z.implies (matched i) (head' i)) (
          var_name var_prefix (codes "update_" ++ side ++ codes "_prio_head") port i t
          ++ codes "_to_one"))
        (range 0 n)
      ++ map
          (λ i.
            named
              (z.implies (mk_and (map (λ j. z.neg (matched j)) (range 0 n)))
                (z.iff (head' i) (head i)))
              (var_name var_prefix (codes "dont_update_" ++ side ++ codes "_prio_head") port i t))
          (range 0 n)

  -- The constraints of `trs` for step `t`, whose previous step is `t - 1`.
  unfoldable pub trs_at : Switch → Fperf → ℕ → List NamedExp
  unfolding together matches only_one one_head move_head get_in_ports get_out_ports
      get_buffs_for_src get_buffs_for_dst
  trs_at sw st t =
      let ins = get_in_ports sw in
      let outs = get_out_ports sw in
      let in_count = λ (p : ℕ). length (get_buffs_for_src sw p) in
      let out_count = λ (p : ℕ). length (get_buffs_for_dst sw p) in
      let pre = sw.var_prefix in
      map (λ ((src, dst), buff). together sw st t src dst buff) sw.buffs
      ++ (gather (λ ((src, dst), buff). matches sw st t src dst buff) sw.buffs
          ++ (gather
                (λ p.
                  only_one
                    (λ i.
                      worded
                        (worded (worded pre (codes "_in_port_") p) (codes "_matches_only_voq_") i)
                        (codes "_at_") t)
                    (λ i. var_at st.in_to_out p i t) (in_count p))
                ins
              ++ (gather
                    (λ p.
                      only_one
                        (λ i.
                          worded
                            (worded (worded pre (codes "_out_port_") p) (codes "_matches_only_voq_")
                              i)
                            (codes "_at_") t)
                        (λ i. var_at st.out_from_in p i t) (out_count p))
                    outs
                  ++ (gather
                        (λ p.
                          one_head pre (codes "in") p t (in_count p)
                            (λ i. var_at st.in_prio_head p i t))
                        ins
                      ++ (gather
                            (λ p.
                              one_head pre (codes "out") p t (out_count p)
                                (λ i. var_at st.out_prio_head p i t))
                            outs
                          ++ (if t == 0
                              then []
                              else gather
                                  (λ p.
                                    move_head pre (codes "in") p t (in_count p)
                                      (λ i. var_at st.in_to_out p i (t - 1))
                                      (λ i. var_at st.in_prio_head p i (t - 1))
                                      (λ i. var_at st.in_prio_head p i t))
                                  ins
                                ++ gather
                                    (λ p.
                                      move_head pre (codes "out") p t (out_count p)
                                        (λ i. var_at st.out_from_in p i (t - 1))
                                        (λ i. var_at st.out_prio_head p i (t - 1))
                                        (λ i. var_at st.out_prio_head p i t))
                                    outs))))))

  unfoldable pub trs : Switch → Fperf → ℕ → List NamedExp
  unfolding trs_at
  trs sw st prev_t = trs_at sw st (prev_t + 1)

  -- At first the first queue of each port is at the head.
  unfoldable pub first_head : Text → Text → ℕ → ℕ → (ℕ → z.BoolExpr) → List NamedExp
  first_head var_prefix side port zero head = []
  first_head var_prefix side port (suc n) head =
      let what = side ++ codes "_prio_head" in
      named (head 0) (var_name var_prefix what port 0 0 ++ codes "_is_one")
      ∷ map (λ i. named (z.neg (head i)) (var_name var_prefix what port i 0 ++ codes "_is_zero"))
          (range 1 (suc n))

  -- `init` calls `trs(-1)`.
  unfoldable pub init : Switch → Fperf → List NamedExp
  unfolding trs_at first_head get_in_ports get_out_ports get_buffs_for_src get_buffs_for_dst
  init sw st =
      trs_at sw st 0
      ++ (gather
            (λ p.
              first_head sw.var_prefix (codes "in") p (length (get_buffs_for_src sw p))
                (λ i. var_at st.in_prio_head p i 0))
            (get_in_ports sw)
          ++ gather
              (λ p.
                first_head sw.var_prefix (codes "out") p (length (get_buffs_for_dst sw p))
                  (λ i. var_at st.out_prio_head p i 0))
              (get_out_ports sw))

  -- The queues of an input port from the `i`-th on: a matched one serves one packet, the others none.
  unfoldable pub served : Switch → Fperf → ℕ → ℕ → ℕ → List LeafBuff → List NamedExp
  served sw st t port i [] = []
  served sw st t port i (buff ∷ buffs) =
      let matched = var_at st.in_to_out port i t in
      let name = λ (word : Text).
        worded (worded (worded sw.var_prefix (codes "_") port) (codes "_in_") i) (codes "_deq_cnt[")
          t
        ++ word in
      let rest = served sw st t port (suc i) buffs in
      if buff.empty
      then rest
      else named (z.implies matched (z.eq (sum (row buff.O t)) (num 1))) (name (codes "]_is_one"))
        ∷ named (z.implies (z.neg matched) (z.eq (sum (row buff.O t)) (num 0)))
            (name (codes "]_is_zero"))
        ∷ rest

  -- Nothing leaves at an output port without a match.
  unfoldable pub idle_output : Switch → Fperf → ℕ → ℕ → NamedExp
  unfolding get_buffs_for_dst
  idle_output sw st t port =
      let buffs = get_buffs_for_dst sw port in
      named
        (z.implies
          (mk_and (
            z.bool_val true
            ∷ map (λ i. z.neg (var_at st.out_from_in port i t)) (range 0 (length buffs))))
          (mk_and (
            z.bool_val true
            ∷ gather
                (λ (buff : LeafBuff). if buff.empty then [] else sum_eq (row buff.O t) (pos 0) ∷ [])
                buffs)))
        (worded (worded sw.var_prefix (codes "_no_enqs_in_out_") port) (codes "_at_") t)

  unfoldable pub out : Switch → Fperf → ℕ → List NamedExp
  unfolding served idle_output get_in_ports get_out_ports get_buffs_for_src
  out sw st t =
      gather (λ p. served sw st t p 0 (get_buffs_for_src sw p)) (get_in_ports sw)
      ++ map (λ p. idle_output sw st t p) (get_out_ports sw)

  abbrev pub fperf : Kind Fperf
  fperf = record {
    init = λ sw st. (init sw st, st);
    trs = λ sw st prev_t. (trs sw st prev_t, st);
    out = λ sw st t. out sw st t;
  }

  -- The constructors of `FperfLeafSts`.
  unfoldable pub new_fperf :
      SmtSolver → Text → List (ℕ × ℕ) → ℕ → ℕ → ℕ → ℕ → ℕ → (Switch × Fperf) × SmtSolver
  unfolding setup
  new_fperf slv var_prefix port_list time_steps pkt_types buff_cap max_enq max_deq =
      let (sw, slv) =
        new_switch slv var_prefix port_list time_steps pkt_types buff_cap max_enq max_deq in
      ((sw, setup sw), slv)

  unfoldable pub new_fperf_used :
      SmtSolver → Text → Map (ℕ × ℕ) (List ℕ) → ℕ → ℕ → ℕ → ℕ → ℕ → (Switch × Fperf) × SmtSolver
  unfolding setup
  new_fperf_used slv var_prefix port_list time_steps pkt_types buff_cap max_enq max_deq =
      let (sw, slv) =
        new_switch_used slv var_prefix port_list time_steps pkt_types buff_cap max_enq max_deq in
      ((sw, setup sw), slv)
