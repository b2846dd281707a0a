-- ===== src/Leaf/Fperf/Matching.antt =====
-- What the constraints of a step say of the match between the ports of a switch: no queue is matched
-- beside another of its ports, both sides agree, and the match cannot be made larger.

use count_buffy.Prelude.{
  length, true, ℕ, ◌+◌, ◌%◌, ◌<◌, ◌≡◌, ◌≢◌, ◌↔◌, ◌⊎◌, inl, inr, false, List, [], ◌∷◌, map, arith,
  Bool-cases, All, range, ◌==◌, if◌then◌else◌, Text,
}
use count_buffy.Z3.{◌&&◌, Z3, Holds, true_holds, conj_iff, neg_iff, implies_iff}
use count_buffy.Vec.{Bv}
use count_buffy.NamedExp.{named, Sat}
use native.Mathlib.Nat.{mod-lt}
use count_buffy.Leaf.Buffs.{LeafBuff}
use count_buffy.Leaf.Switch.{
  Switch, get_in_ports, get_out_ports, get_buffs_for_src, get_buffs_for_dst,
}
use count_buffy.NamedExp.Meaning.{Sat-append}
use count_buffy.Prelude.{nat_key, Map, gather}
use count_buffy.Vec.{bit}
use count_buffy.Leaf.Fperf.{
  Fperf, var_at, idx_at, together, matches, match_cond, trs_at, mk_and, only_one, others_off,
  not_before, none_preferred,
}
use count_buffy.Vec.Choice.{true_not_false}
use count_buffy.Prelude.{All-map_iff, All-range_iff, All-gather_iff, ==_iff}

module _ ⦃z : Z3⦄ (m : z.Model) where
  pub mk_and_iff : (es : Bv) → Holds m (mk_and es) ↔ All (Holds m) es
  mk_and_iff [] = (λ h. tt, λ h. true_holds m)
  mk_and_iff (e ∷ es) =
      let both = conj_iff m e (mk_and es) in
      let rest = mk_and_iff es in
      (λ h. ((both.0 h).0, rest.0 (both.0 h).1), λ h. both.1 (h.0, rest.1 h.1))

  pub fails : (e : z.BoolExpr) → ¬ Holds m e → z.holds m e ≡ false
  fails e h = elim (Bool-cases (z.holds m e)) [ inl on ↦ absurd (h on) | inr off ↦ off ]

  -- Not both of two.
  off_or_same :
      (f : ℕ → z.BoolExpr) (i j : ℕ)
      → All (Holds m) (if i == j then [] else z.neg (f j) ∷ [])
      → (i ≡ j) ⊎ (z.holds m (f j) ≡ false)
  off_or_same f i j h = elim (Bool-cases (i == j)) [
    | inl same ↦ inl ((==_iff i j).0 same)
    | inr other ↦ inr ((neg_iff m (f j)).0 (rw other at h).0)
  ]

  pub only_one-eq :
      (name : ℕ → Text) (f : ℕ → z.BoolExpr) (n i j : ℕ)
      → Sat m (only_one name f n)
      → i < n
      → j < n
      → Holds m (f i)
      → Holds m (f j)
      → i ≡ j
  unfolding only_one others_off
  only_one-eq name f n i j h bi bj hi hj =
      let each =
        (All-map_iff (λ ne. Holds m ne.e)
            (λ i. named (z.implies (f i) (mk_and (others_off f n i))) (name i)) (range 0 n)).0
          h in
      let here =
        (All-range_iff (λ i. Holds m (z.implies (f i) (mk_and (others_off f n i)))) 0 n).0 each i
          (omega arith) bi in
      let others = (mk_and_iff (others_off f n i)).0 ((implies_iff m (f i) _).0 here hi) in
      let parts =
        (All-gather_iff (Holds m) (λ j. if i == j then [] else z.neg (f j) ∷ []) (range 0 n)).0
          others in
      elim (off_or_same f i j (
        (All-range_iff (λ j. All (Holds m) (if i == j then [] else z.neg (f j) ∷ [])) 0 n).0 parts j
          (omega arith) bj)) [ inl same ↦ same | inr off ↦ absurd (true_not_false m hj off) ]

  -- Nothing that is preferred to `idx` is matched, when nothing but `idx` is.
  not_before_holds :
      (f : ℕ → z.BoolExpr) (n idx : ℕ)
      → ((i : ℕ) → i < n → i ≢ idx → z.holds m (f i) ≡ false)
      → (inds : List ℕ) → All (λ i. i < n) inds
      → All (Holds m) (not_before f idx inds)
  unfolding not_before
  not_before_holds f n idx off [] h = tt
  not_before_holds f n idx off (ind ∷ inds) h = elim (Bool-cases (ind == idx)) [
    | inl same ↦ rw same tt
    | inr other ↦ rw other (
      (neg_iff m (f ind)).1 (off ind h.0 (λ e. let same = (==_iff ind idx).1 e in cc)),
      not_before_holds f n idx off inds h.1,
    )
  ]

  in_turn : (n p : ℕ) → p < n → All (λ i. i < n) (map (λ k. (p + 1 + k) % n) (range 0 n))
  in_turn n p b = (All-map_iff (λ i. i < n) (λ k. (p + 1 + k) % n) (range 0 n)).1 (
      (All-range_iff (λ k. (p + 1 + k) % n < n) 0 n).1
        (λ k lo hi. mod-lt (p + 1 + k) (omega arith)))

  none_preferred_holds :
      (head f : ℕ → z.BoolExpr) (n idx : ℕ)
      → ((i : ℕ) → i < n → i ≢ idx → z.holds m (f i) ≡ false)
      → All (Holds m) (none_preferred head f n idx)
  unfolding none_preferred
  none_preferred_holds head f n idx off = (All-map_iff (Holds m) _ (range 0 n)).1 (
      (All-range_iff _ 0 n).1 (λ p lo hi. (implies_iff m (head p) _).1 (λ _.
        (mk_and_iff (z.bool_val true ∷ not_before f idx (map (λ k. (p + 1 + k) % n) (range 0 n)))).1
          (true_holds m, not_before_holds f n idx off _ (in_turn n p hi)))))

-- The variables of a step.
module _ ⦃z : Z3⦄ (m : z.Model) (sw : Switch) (st : Fperf) (t : ℕ) where
  -- Queue `i` of an input port, or of an output port, is matched.
  abbrev pub In : ℕ → ℕ → Type 0
  In p i = Holds m (var_at st.in_to_out p i t)

  abbrev pub Out : ℕ → ℕ → Type 0
  Out p i = Holds m (var_at st.out_from_in p i t)

  abbrev pub in_count : ℕ → ℕ
  in_count p = length (get_buffs_for_src sw p)

  abbrev pub out_count : ℕ → ℕ
  out_count p = length (get_buffs_for_dst sw p)

  -- The place of a buffer among the queues of its input port, and of its output port.
  abbrev pub in_idx : ℕ × ℕ → ℕ
  in_idx key = idx_at st.src_dst_to_dst_idx key.0 key.1

  abbrev pub out_idx : ℕ × ℕ → ℕ
  out_idx key = idx_at st.dst_src_to_src_idx key.1 key.0

  -- No other queue of the buffer's ports is matched.
  abbrev pub PortsFree : ℕ × ℕ → Type 0
  PortsFree key =
      ((i : ℕ) → i < in_count key.0 → i ≢ in_idx key → ¬ In key.0 i)
      × ((i : ℕ) → i < out_count key.1 → i ≢ out_idx key → ¬ Out key.1 i)

  abbrev pub InOnce : ℕ → Type 0
  InOnce p = (i j : ℕ) → i < in_count p → j < in_count p → In p i → In p j → i ≡ j

  abbrev pub OutOnce : ℕ → Type 0
  OutOnce p = (i j : ℕ) → i < out_count p → j < out_count p → Out p i → Out p j → i ≡ j

  -- Both sides agree, only a backlogged buffer is matched, and a backlogged buffer whose ports are
  -- free is.
  pub record IsMatched (key : ℕ × ℕ) (buff : LeafBuff) : Type 0 where
    pub agree : In key.0 (in_idx key) ↔ Out key.1 (out_idx key)
    pub busy : In key.0 (in_idx key) → Holds m (bit buff.B t)
    pub maximal : Holds m (bit buff.B t) → PortsFree key → In key.0 (in_idx key)

  pub record IsMatching : Type 0 where
    pub in_once : All InOnce (get_in_ports sw)
    pub out_once : All OutOnce (get_out_ports sw)
    pub matched : All (λ (key, buff). IsMatched key buff) sw.buffs

  together-agree :
      (src dst : ℕ) (buff : LeafBuff)
      → Holds m (together sw st t src dst buff).e
      → (In src (in_idx (src, dst)) ↔ Out dst (out_idx (src, dst)))
        × (In src (in_idx (src, dst)) → Holds m (bit buff.B t))
  unfolding together
  together-agree src dst buff h =
      let i = var_at st.in_to_out src (in_idx (src, dst)) t in
      let o = var_at st.out_from_in dst (out_idx (src, dst)) t in
      let parts = (conj_iff m _ _).0 h in
      let on = (implies_iff m i (o && bit buff.B t)).0 parts.0 in
      let off = (implies_iff m (z.neg i) (z.neg o)).0 parts.1 in
      (
        (
          λ h. ((conj_iff m o (bit buff.B t)).0 (on h)).0,
          λ h. elim (Bool-cases (z.holds m i)) [
            | inl matched ↦ matched
            | inr free ↦ absurd (true_not_false m h ((neg_iff m o).0 (off ((neg_iff m i).1 free))))
          ],
        ),
        λ h. ((conj_iff m o (bit buff.B t)).0 (on h)).1,
      )

  matches-maximal :
      (src dst : ℕ) (buff : LeafBuff)
      → Sat m (matches sw st t src dst buff)
      → Holds m (bit buff.B t)
      → PortsFree (src, dst)
      → In src (in_idx (src, dst))
  unfolding matches match_cond
  matches-maximal src dst buff h busy free =
      let out_free =
        none_preferred_holds m (λ p. var_at st.out_prio_head dst p t)
          (λ p. var_at st.out_from_in dst p t) (out_count dst) (out_idx (src, dst))
          (λ i b other. fails m _ (free.1 i b other)) in
      let in_free =
        none_preferred_holds m (λ p. var_at st.in_prio_head src p t)
          (λ p. var_at st.in_to_out src p t) (in_count src) (in_idx (src, dst))
          (λ i b other. fails m _ (free.0 i b other)) in
      let ports = (conj_iff m _ _).1 ((mk_and_iff m _).1 out_free, (mk_and_iff m _).1 in_free) in
      (implies_iff m (match_cond sw st t src dst buff) _).0 h.0 ((conj_iff m _ _).1 (ports, busy))

  once :
      (name : ℕ → ℕ → Text) (f : ℕ → ℕ → z.BoolExpr) (count : ℕ → ℕ) (ports : List ℕ)
      → Sat m (gather (λ p. only_one (name p) (f p) (count p)) ports)
      → All
          (λ p. (i j : ℕ) → i < count p → j < count p → Holds m (f p i) → Holds m (f p j) → i ≡ j)
          ports
  once name f count [] h = tt
  once name f count (p ∷ ports) h =
      let parts = (Sat-append m (only_one (name p) (f p) (count p)) _).0 h in
      (
        λ i j bi bj. only_one-eq m (name p) (f p) (count p) i j parts.0 bi bj,
        once name f count ports parts.1,
      )

  each-IsMatched :
      (buffs : Map (ℕ × ℕ) LeafBuff)
      → Sat m (map (λ ((src, dst), buff). together sw st t src dst buff) buffs)
      → Sat m (gather (λ ((src, dst), buff). matches sw st t src dst buff) buffs)
      → All (λ (key, buff). IsMatched key buff) buffs
  each-IsMatched [] h k = tt
  each-IsMatched (((src, dst), buff) ∷ buffs) h k =
      let now = together-agree src dst buff h.0 in
      let parts = (Sat-append m (matches sw st t src dst buff) _).0 k in
      (
        record { agree = now.0; busy = now.1; maximal = matches-maximal src dst buff parts.0 },
        each-IsMatched buffs h.1 parts.1,
      )

  -- In a model of what `FperfLeafSts::trs` adds for a step: an input port has at most one matched
  -- queue, and so has an output port; both sides agree on the match of every queue; only a
  -- backlogged queue is matched; and a backlogged queue is matched when no other queue of its two
  -- ports is.
  pub trs_at-IsMatching : Sat m (trs_at sw st t) → IsMatching
  unfolding trs_at
  trs_at-IsMatching h =
      let a = (Sat-append m _ _).0 h in
      let b = (Sat-append m _ _).0 a.1 in
      let c = (Sat-append m _ _).0 b.1 in
      let d = (Sat-append m _ _).0 c.1 in
      record {
        in_once = once _ (λ p i. var_at st.in_to_out p i t) in_count (get_in_ports sw) c.0;
        out_once = once _ (λ p i. var_at st.out_from_in p i t) out_count (get_out_ports sw) d.0;
        matched = each-IsMatched sw.buffs a.0 b.0;
      }
