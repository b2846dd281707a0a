-- ===== src/Leaf/Turns.antt =====
-- src/leaf_spine/leaf_sts.hpp and src/leaf_spine/leaf_sts.cpp: a switch in which each output port has
-- a turn among the input ports and each input port one among the output ports; a buffer is matched
-- when it has both turns. The turns are expressions, not variables, so there are no constraints on
-- them.

-- What the steps record, and what leaves the switch in a step.
pub mod Recorded
pub mod Exclusive
use count_buffy.Prelude.{ℕ, ◌+◌, true, false, List, [], ◌∷◌, ◌++◌, map, pos, loop, if◌then◌else◌}
use count_buffy.Z3.{Z3, ◌&&◌, ◌||◌, num}
use count_buffy.Vec.{Ev, Bv, at, bit, row, sum_eq}
use count_buffy.NamedExp.{NamedExp, of_expr}
use count_buffy.Leaf.Buffs.{LeafBuff}
use count_buffy.Leaf.Switch.{Switch, src_map_per_dst, dst_map_per_src, rr_for_dst, rr_for_src}
use count_buffy.Leaf.Base.{Kind}
use count_buffy.Prelude.{Key, nat_key, pair_key, Map, assign, find_or, values}

pub record Turns ⦃z : Z3⦄ : Type 0 where
  pub src_turn_for_dst : Map ℕ Ev
  pub dst_turn_for_src : Map ℕ Ev
  pub matched : Map (ℕ × ℕ) Bv
  pub tmp_per_src : Map ℕ Ev
  pub tmp_per_dst : Map ℕ Ev

module _ ⦃z : Z3⦄ where
  -- `m[k].push_back(x)`
  abbrev pub push_at {ℓ κ} :
      {K : Type ℓ} {A : Type κ} ⦃o : Key K⦄ → K → A → Map K (List A) → Map K (List A)
  push_at k x m = assign k (find_or m k [] ++ (x ∷ [])) m

  -- The first turn of a port: the values that it runs through, the last of which stands. `f` is the
  -- port at the other side of a buffer.
  unfoldable pub first_turn : (LeafBuff → ℕ) → z.IntExpr → List LeafBuff → Ev
  first_turn f x [] = x ∷ []
  first_turn f x (buff ∷ buffs) = x ∷ first_turn f (z.ite_int (bit buff.B 0) (num (f buff)) x) buffs

  abbrev pub head_port : (LeafBuff → ℕ) → List LeafBuff → ℕ
  head_port f [] = 0
  head_port f (buff ∷ buffs) = f buff

  abbrev pub last_of : Ev → z.IntExpr
  last_of [] = z.undefined_int
  last_of (e ∷ []) = e
  last_of (e ∷ e' ∷ es) = last_of (e' ∷ es)

  -- `B[t] && src_turn_for_dst[dst][t] == src && dst_turn_for_src[src][t] == dst`
  unfoldable pub match_at : Turns → ℕ → ℕ × ℕ → LeafBuff → z.BoolExpr
  match_at st t key buff =
      bit buff.B t
      && (z.eq (at (find_or st.src_turn_for_dst key.1 []) t) (num key.0)
          && z.eq (at (find_or st.dst_turn_for_src key.0 []) t) (num key.1))

  -- The matches of step `t`, for all buffers.
  unfoldable pub push_matches : Turns → ℕ → Map (ℕ × ℕ) LeafBuff → Turns
  unfolding match_at
  push_matches st t [] = st
  push_matches st t ((key, buff) ∷ buffs) =
      push_matches (record st { matched = push_at key (match_at st t key buff) st.matched }) t buffs

  unfoldable pub init : Switch → Turns → Turns
  unfolding first_turn push_matches src_map_per_dst dst_map_per_src
  init sw st =
      let st₁ =
        loop
          (λ (st : Turns) ((dst, src_map) : ℕ × Map ℕ LeafBuff).
            let buffs = values src_map in
            let port = λ (b : LeafBuff). b.src in
            let tried = first_turn port (num (head_port port buffs)) buffs in
            record st {
              tmp_per_dst = assign dst (find_or st.tmp_per_dst dst [] ++ tried) st.tmp_per_dst;
              src_turn_for_dst = push_at dst (last_of tried) st.src_turn_for_dst;
            })
          st (src_map_per_dst sw) in
      let st₂ =
        loop
          (λ (st : Turns) ((src, dst_map) : ℕ × Map ℕ LeafBuff).
            let buffs = values dst_map in
            let port = λ (b : LeafBuff). b.dst in
            let tried = first_turn port (num (head_port port buffs)) buffs in
            record st {
              tmp_per_src = assign src (find_or st.tmp_per_src src [] ++ tried) st.tmp_per_src;
              dst_turn_for_src = push_at src (last_of tried) st.dst_turn_for_src;
            })
          st₁ (dst_map_per_src sw) in
      push_matches st₂ 0 sw.buffs

  -- Some queue of the port is matched in step `t`.
  unfoldable pub any_matched : Turns → ℕ → List (ℕ × ℕ) → z.BoolExpr
  any_matched st t ports =
      loop (λ m key. m || bit (find_or st.matched key []) t) (z.bool_val false) ports

  -- The turn of an output port in the step after `t`, and that of an input port.
  unfoldable pub next_src_turn : Turns → ℕ → ℕ × Map ℕ LeafBuff → z.IntExpr
  unfolding any_matched rr_for_dst
  next_src_turn st t (dst, buffs) =
      let m = any_matched st t (map (λ (src, buff). (src, dst)) buffs) in
      let first = num (head_port (λ (b : LeafBuff). b.src) (values buffs)) in
      rr_for_dst (values buffs) (t + 1)
        (z.ite_int m (at (find_or st.src_turn_for_dst dst []) t) first)

  unfoldable pub next_dst_turn : Turns → ℕ → ℕ × Map ℕ LeafBuff → z.IntExpr
  unfolding any_matched rr_for_src
  next_dst_turn st t (src, buffs) =
      let m = any_matched st t (map (λ (dst, buff). (src, dst)) buffs) in
      let first = num (head_port (λ (b : LeafBuff). b.dst) (values buffs)) in
      rr_for_src (values buffs) (t + 1)
        (z.ite_int m (at (find_or st.dst_turn_for_src src []) t) first)

  -- All turns are computed from the old state before any is stored.
  unfoldable pub trs : Switch → Turns → ℕ → Turns
  unfolding next_src_turn next_dst_turn push_matches src_map_per_dst dst_map_per_src
  trs sw st t =
      let st₁ = record st {
        dst_turn_for_src =
            loop (λ m entry. push_at entry.0 (next_dst_turn st t entry) m) st.dst_turn_for_src
              (dst_map_per_src sw);
        src_turn_for_dst =
            loop (λ m entry. push_at entry.0 (next_src_turn st t entry) m) st.src_turn_for_dst
              (src_map_per_dst sw);
      } in
      push_matches st₁ (t + 1) sw.buffs

  unfoldable pub out : Switch → Turns → ℕ → List NamedExp
  out sw st t =
      of_expr (
        loop
          (λ res ((key, buff) : (ℕ × ℕ) × LeafBuff).
            if buff.empty
            then res
            else (res
                && z.ite (bit buff.B t && bit (find_or st.matched key []) t)
                    (sum_eq (row buff.O t) (pos 1)) (sum_eq (row buff.O t) (pos 0))))
          (z.bool_val true) sw.buffs)
      ∷ []

  abbrev pub leaf_sts : Kind Turns
  leaf_sts = record {
    init = λ sw st. ([], init sw st);
    trs = λ sw st t. ([], trs sw st t);
    out = λ sw st t. out sw st t;
  }

  abbrev pub no_turns : Turns
  no_turns = record {
    src_turn_for_dst = [];
    dst_turn_for_src = [];
    matched = [];
    tmp_per_src = [];
    tmp_per_dst = [];
  }
