-- ===== src/Leaf/Metadata.antt =====
-- The destinations and paths of packets (`dst_val`, `ecmp_val`, `uniq`, `valid`, `same` and
-- `link_ports` of src/leaf_spine/leaf_utils.cpp). A packet's type gives both.

use count_buffy.Prelude.{
  ℕ, true, false, List, [], ◌∷◌, ◌++◌, negsuc, length, range, loop, gather, ◌==◌, if◌then◌else◌,
  codes, to_string,
}
use count_buffy.Z3.{Z3, ◌&&◌, ◌||◌, num}
use count_buffy.Vec.{Ev, Ev2, Ev3, at, row}
use count_buffy.NamedExp.{NamedExp, named}
use count_buffy.Workload.{valid_meta}
use count_buffy.Prelude.{nat_key, Map}

module _ ⦃z : Z3⦄ where
  -- `buf[k] > 0` for one of the types.
  unfoldable pub one_of : Ev → List ℕ → z.BoolExpr
  one_of buf pkt_types = loop (λ e k. e || z.lt (num 0) (at buf k)) (z.bool_val false) pkt_types

  -- The common body of `dst_val` and `ecmp_val`: the value with packets of its types, or -1. Of
  -- several such values the greatest stands.
  unfoldable pub meta_val : Ev → Map ℕ (List ℕ) → z.IntExpr
  unfolding one_of
  meta_val buf types =
      loop (λ e (d, ks). z.ite_int (one_of buf ks) (num d) e) (z.int_val (negsuc 0)) types

  unfoldable pub dst_val : Ev3 → Map ℕ (List ℕ) → ℕ → ℕ → z.IntExpr
  unfolding meta_val
  dst_val i dst_to_pkt_type buf_idx time_idx =
      meta_val (row (row i buf_idx) time_idx) dst_to_pkt_type

  unfoldable pub ecmp_val : Ev3 → Map ℕ (List ℕ) → ℕ → ℕ → z.IntExpr
  unfolding meta_val
  ecmp_val i ecmp_to_pkt_type buf_idx time_idx =
      meta_val (row (row i buf_idx) time_idx) ecmp_to_pkt_type

  -- No two inputs have the same destination in a step, unless both are idle.
  unfoldable pub uniq : Ev3 → Map ℕ (List ℕ) → ℕ → ℕ → List NamedExp
  unfolding dst_val
  uniq inputs dst_to_pkt_type num_buffs timesteps =
      let idle = z.int_val (negsuc 0) in
      gather
        (λ t.
          gather
            (λ i.
              gather
                (λ j.
                  let a = dst_val inputs dst_to_pkt_type i t in
                  let b = dst_val inputs dst_to_pkt_type j t in
                  if i == j
                  then []
                  else named (z.neg (z.eq a b) || (z.eq a idle && z.eq b idle)) (
                      codes "unique_t"
                      ++ to_string t
                      ++ codes "_i"
                      ++ to_string i
                      ++ codes "_j"
                      ++ to_string j)
                    ∷ [])
                (range 0 num_buffs))
            (range 0 num_buffs))
        (range 0 timesteps)

  unfoldable pub valid : Ev3 → ℕ → ℕ → z.BoolExpr
  unfolding valid_meta
  valid inputs num_buffs timesteps =
      loop (λ res i. loop (λ res t. res && valid_meta inputs i t) res (range 0 timesteps))
        (z.bool_val true) (range 0 num_buffs)

  -- An input keeps its destination over the time.
  unfoldable pub same : Ev3 → Map ℕ (List ℕ) → ℕ → ℕ → z.BoolExpr
  unfolding dst_val valid_meta
  same inputs dst_to_pkt_type num_buffs timesteps =
      loop
        (λ res i.
          let init_val = dst_val inputs dst_to_pkt_type i 0 in
          loop
            (λ res t.
              res && (z.eq init_val (dst_val inputs dst_to_pkt_type i t) && valid_meta inputs i t))
            (res && valid_meta inputs i 0) (range 1 timesteps))
        (z.bool_val true) (range 0 num_buffs)

  -- What leaves at one port comes in at the other. The first row gives the number of types.
  unfoldable pub link_ports : Ev2 → Ev2 → z.BoolExpr
  link_ports out inp =
      loop
        (λ e i.
          loop (λ e j. e && z.eq (at (row out i) j) (at (row inp i) j)) e
            (range 0 (length (row out 0))))
        (z.bool_val true) (range 0 (length out))
