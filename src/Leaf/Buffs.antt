-- ===== src/Leaf/Buffs.antt =====
-- src/leaf_spine/leaf_buff.hpp and src/leaf_spine/leaf_buff.cpp: a buffer between two ports of a switch
-- has variables for the packet types in use only; the expanded matrices have an entry for every type.
use count_buffy.Prelude.{
  ℕ, Bool, true, false, [], Option, none, some, List, ◌++◌, map, pos, length, get_or, range, loop,
  ◌==◌, if◌then◌else◌, Text, codes,
}
use count_buffy.Z3.{Z3, num}
use count_buffy.Vec.{Ev, Ev2, Bv, at}
use count_buffy.Sts.{max_i}
use count_buffy.Solver.{
  SmtSolver, bv, iv, iv_used, ivv, ivv_used, ivv_const, iv_const, bv_const, add_bound_rows,
}

-- `result[k] = j`; `none` stands for the -1 of a type that is not in use. Keys that are no packet
-- types are not read.
abbrev pub put : (ℕ → Option ℕ) → ℕ → ℕ → ℕ → Option ℕ
put result k j i = if i == k then some j else result i

unfoldable pub get_pkt_type_to_local_vec_idx : List ℕ → ℕ → Option ℕ
get_pkt_type_to_local_vec_idx used =
    loop (λ result j. put result (get_or used j 0) j) (λ i. none) (range 0 (length used))

module _ ⦃z : Z3⦄ where
  -- The matrices are over the time and the packet types in use.
  pub record LeafBuff : Type 0 where
    pub I : Ev2
    pub E : Ev2
    pub D : Ev2
    pub B : Bv
    pub S : Ev
    pub O : Ev2
    pub C : Ev2
    pub wnd_enq : Ev2
    pub wnd_enq_nxt : Ev2
    pub wnd_out : Ev2
    pub tmp_wnd_enq : Ev2
    pub tmp_wnd_enq_nxt : Ev2
    pub tmp_wnd_out : Ev2
    pub match : Bv
    pub src : ℕ
    pub dst : ℕ
    pub empty : Bool
    pub used_pkt_types : List ℕ
    pub pkt_types : ℕ

  -- The bounds that both constructors with variables assert, in their order.
  unfoldable pub buff_bounds : SmtSolver → LeafBuff → ℕ → ℕ → ℕ → SmtSolver
  buff_bounds slv buff max_enq max_deq buf_cap =
      let slv = add_bound_rows slv buff.I (pos 0) (pos max_i) in
      let slv = add_bound_rows slv buff.E (pos 0) (pos max_enq) in
      let slv = add_bound_rows slv buff.D (pos 0) (pos max_enq) in
      let slv = add_bound_rows slv buff.O (pos 0) (pos max_deq) in
      let slv = add_bound_rows slv buff.C (pos 0) (pos buf_cap) in
      let slv = add_bound_rows slv buff.wnd_enq (pos 0) (pos buf_cap) in
      let slv = add_bound_rows slv buff.wnd_enq_nxt (pos 0) (pos buf_cap) in
      let slv = add_bound_rows slv buff.wnd_out (pos 0) (pos buf_cap) in
      let slv = add_bound_rows slv buff.tmp_wnd_enq (pos 0) (pos buf_cap) in
      let slv = add_bound_rows slv buff.tmp_wnd_enq_nxt (pos 0) (pos buf_cap) in
      add_bound_rows slv buff.tmp_wnd_out (pos 0) (pos buf_cap)

  -- The variables of a buffer: `mat` makes the matrices and `vec` the vector `S`.
  unfoldable pub buff_vars :
      (Text → SmtSolver → Ev2 × SmtSolver)
      → (Text → SmtSolver → Ev × SmtSolver)
      → SmtSolver
      → Text
      → ℕ
      → ℕ
      → ℕ
      → ℕ
      → List ℕ
      → LeafBuff × SmtSolver
  buff_vars mat vec slv var_prefix time_steps pkt_types src dst used =
      let (i, slv) = mat (codes "I_" ++ var_prefix) slv in
      let (e, slv) = mat (codes "E_" ++ var_prefix) slv in
      let (d, slv) = mat (codes "D_" ++ var_prefix) slv in
      let (b, slv) = bv time_steps (codes "B_" ++ var_prefix) slv in
      let (s, slv) = vec (codes "S_" ++ var_prefix) slv in
      let (o, slv) = mat (codes "O_" ++ var_prefix) slv in
      let (c, slv) = mat (codes "C_" ++ var_prefix) slv in
      let (we, slv) = mat (codes "WE_" ++ var_prefix) slv in
      let (wn, slv) = mat (codes "WEN_" ++ var_prefix) slv in
      let (wo, slv) = mat (codes "WO_" ++ var_prefix) slv in
      let (te, slv) = mat (codes "TWE_" ++ var_prefix) slv in
      let (tn, slv) = mat (codes "TWEN_" ++ var_prefix) slv in
      let (to, slv) = mat (codes "TWO_" ++ var_prefix) slv in
      let (mt, slv) = bv time_steps (codes "Match_" ++ var_prefix) slv in
      (
        record {
          I = i;
          E = e;
          D = d;
          B = b;
          S = s;
          O = o;
          C = c;
          wnd_enq = we;
          wnd_enq_nxt = wn;
          wnd_out = wo;
          tmp_wnd_enq = te;
          tmp_wnd_enq_nxt = tn;
          tmp_wnd_out = to;
          match = mt;
          src = src;
          dst = dst;
          empty = false;
          used_pkt_types = used;
          pkt_types = pkt_types;
        },
        slv,
      )

  -- The constructor without packet types: all are in use.
  unfoldable pub new_full : SmtSolver → Text → ℕ → ℕ → ℕ → ℕ → ℕ → ℕ → ℕ → LeafBuff × SmtSolver
  unfolding buff_vars buff_bounds
  new_full slv var_prefix time_steps pkt_types max_enq max_deq buf_cap src dst =
      let (buff, slv) =
        buff_vars (ivv time_steps pkt_types) (iv time_steps) slv var_prefix time_steps pkt_types src
          dst (range 0 pkt_types) in
      (buff, buff_bounds slv buff max_enq max_deq buf_cap)

  -- The constructor for some packet types. `S` has one entry for each of them as well.
  unfoldable pub new_used :
      SmtSolver → Text → ℕ → ℕ → ℕ → ℕ → ℕ → ℕ → ℕ → List ℕ → LeafBuff × SmtSolver
  unfolding buff_vars buff_bounds
  new_used slv var_prefix time_steps pkt_types max_enq max_deq buf_cap src dst used =
      let (buff, slv) =
        buff_vars (λ name. ivv_used time_steps pkt_types name used)
          (λ name. iv_used time_steps name used) slv var_prefix time_steps pkt_types src dst used in
      (buff, buff_bounds slv buff max_enq max_deq buf_cap)

  -- The constructor of a buffer that nothing enters; it declares no variable and no type in use.
  unfoldable pub new_empty : SmtSolver → ℕ → ℕ → ℕ → ℕ → LeafBuff × SmtSolver
  new_empty slv time_steps pkt_types src dst =
      let zeros = ivv_const time_steps pkt_types (pos 0) in
      let (i, slv) = zeros slv in
      let (e, slv) = zeros slv in
      let (d, slv) = zeros slv in
      let (b, slv) = bv_const time_steps false slv in
      let (s, slv) = iv_const time_steps (pos 0) slv in
      let (o, slv) = zeros slv in
      let (c, slv) = zeros slv in
      let (we, slv) = zeros slv in
      let (wn, slv) = zeros slv in
      let (wo, slv) = zeros slv in
      let (te, slv) = zeros slv in
      let (tn, slv) = zeros slv in
      let (to, slv) = zeros slv in
      let (mt, slv) = bv_const time_steps false slv in
      (
        record {
          I = i;
          E = e;
          D = d;
          B = b;
          S = s;
          O = o;
          C = c;
          wnd_enq = we;
          wnd_enq_nxt = wn;
          wnd_out = wo;
          tmp_wnd_enq = te;
          tmp_wnd_enq_nxt = tn;
          tmp_wnd_out = to;
          match = mt;
          src = src;
          dst = dst;
          empty = true;
          used_pkt_types = [];
          pkt_types = pkt_types;
        },
        slv,
      )

  abbrev pub entry : Ev → Option ℕ → z.IntExpr
  entry v none = num 0
  entry v (some j) = at v j

  -- The body of `getExpandedI`, `getExpandedO` and `getExpandedC`.
  unfoldable pub expanded : LeafBuff → Ev2 → Ev2
  unfolding get_pkt_type_to_local_vec_idx
  expanded buff vv =
      let m = get_pkt_type_to_local_vec_idx buff.used_pkt_types in
      map (λ v. map (λ i. entry v (m i)) (range 0 buff.pkt_types)) vv

  unfoldable pub get_expanded_i : LeafBuff → Ev2
  unfolding expanded
  get_expanded_i buff = expanded buff buff.I

  unfoldable pub get_expanded_o : LeafBuff → Ev2
  unfolding expanded
  get_expanded_o buff = expanded buff buff.O

  unfoldable pub get_expanded_c : LeafBuff → Ev2
  unfolding expanded
  get_expanded_c buff = expanded buff buff.C
