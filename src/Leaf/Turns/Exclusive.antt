-- ===== src/Leaf/Turns/Exclusive.antt =====
-- What leaves a `LeafSts` in a step, by the turns of its ports (`out` of src/leaf_spine/leaf_sts.cpp).

use count_buffy.Prelude.{
  ℕ, ◌<◌, ◌≡◌, ◌≢◌, ◌⊎◌, sym, ◌∙◌, subst, inl, inr, true, false, [], ◌∷◌, arith, pos, Bool-cases,
  some, loop, if◌then◌else◌,
}
use count_buffy.Prelude.{nat_key, pair_key, Map, find, find_or}
use count_buffy.Z3.{Z3, ◌&&◌, num, Holds, conj_iff, eq_iff, ite_false}
use count_buffy.Vec.{bit, row, sum, sum_eq, at}
use count_buffy.NamedExp.{Sat, of_expr}
use count_buffy.Vec.Choice.{true_not_false}
use count_buffy.Leaf.Fperf.Matching.{fails}
use count_buffy.Leaf.Buffs.{LeafBuff}
use count_buffy.Leaf.Switch.{Switch}
use count_buffy.Leaf.Base
use count_buffy.Leaf.Turns.{Turns, match_at, out, leaf_sts, no_turns}
use count_buffy.Leaf.Turns.Recorded.{matches_of, run-IsRecorded}
use count_buffy.Prelude.{KeysDiffer, found_head}

same_pair_of : (a b : ℕ × ℕ) → a.0 ≡ b.0 → a.1 ≡ b.1 → a ≡ b
same_pair_of (a, b) (c, d) e e' = cc

module _ ⦃z : Z3⦄ (m : z.Model) where
  same_num : (e : z.IntExpr) (i j : ℕ) → Holds m (z.eq e (num i)) → Holds m (z.eq e (num j)) → i ≡ j
  same_num e i j h k =
      let vi = (eq_iff m e (num i)).0 h ∙ z.value-int_val m (pos i) in
      let vj = (eq_iff m e (num j)).0 k ∙ z.value-int_val m (pos j) in let same = sym vi ∙ vj in cc

  -- Both ports of a matched queue have their turn.
  has_turns :
      (st : Turns) (t : ℕ) (key : ℕ × ℕ) (buff : LeafBuff)
      → Holds m (match_at st t key buff)
      → Holds m (bit buff.B t)
        × Holds m (z.eq (at (find_or st.src_turn_for_dst key.1 []) t) (num key.0))
        × Holds m (z.eq (at (find_or st.dst_turn_for_src key.0 []) t) (num key.1))
  unfolding match_at
  has_turns st t key buff h =
      let (busy, turns) = (conj_iff m _ _).0 h in
      let (src, dst) = (conj_iff m _ _).0 turns in (busy, src, dst)

  one_match :
      (st : Turns) (t : ℕ) (a b : ℕ × ℕ) (p q : LeafBuff)
      → (a.0 ≡ b.0) ⊎ (a.1 ≡ b.1)
      → Holds m (match_at st t a p)
      → Holds m (match_at st t b q)
      → a ≡ b
  one_match st t a b p q shared h k =
      let (busy, src, dst) = has_turns st t a p h in
      let (busy', src', dst') = has_turns st t b q k in
      elim shared [
        | inl srcs ↦
            let turn = λ (p : ℕ). at (find_or st.dst_turn_for_src p []) t in
            same_pair_of a b srcs (
              same_num (turn a.0) a.1 b.1 dst
                (subst (λ p. Holds m (z.eq (turn p) (num b.1))) (sym srcs) dst'))
        | inr dsts ↦
            let turn = λ (p : ℕ). at (find_or st.src_turn_for_dst p []) t in
            same_pair_of a b
              (same_num (turn a.1) a.0 b.0 src
                (subst (λ p. Holds m (z.eq (turn p) (num b.0))) (sym dsts) src'))
              dsts
      ]

  -- What `out` adds for a buffer.
  abbrev with_buff : Turns → ℕ → z.BoolExpr → (ℕ × ℕ) × LeafBuff → z.BoolExpr
  with_buff st t res (key, buff) =
      if buff.empty
      then res
      else (res
          && z.ite (bit buff.B t && bit (matches_of st key) t) (sum_eq (row buff.O t) (pos 1))
              (sum_eq (row buff.O t) (pos 0)))

  -- Without a match a queue that is not an empty one sends nothing.
  abbrev Waits : Turns → ℕ → ℕ × ℕ → LeafBuff → Type 0
  Waits st t key buff =
      buff.empty ≡ false
      → z.holds m (bit (matches_of st key) t) ≡ false
      → z.value m (sum (row buff.O t)) ≡ pos 0

  with_buff-Waits :
      (st : Turns) (t : ℕ) (res : z.BoolExpr) (key : ℕ × ℕ) (buff : LeafBuff)
      → Holds m (with_buff st t res (key, buff))
      → Holds m res × Waits st t key buff
  unfolding sum_eq
  with_buff-Waits st t res key buff h = elim (Bool-cases buff.empty) [
    | inl e ↦ (rw e at h, λ full. absurd cc)
    | inr e ↦
        let c = bit buff.B t && bit (matches_of st key) t in
        let (before, here) = (conj_iff m _ _).0 (rw e at h) in
        (
          before,
          λ full off.
              let no = fails m c (λ both. true_not_false m ((conj_iff m _ _).0 both).1 off) in
              (eq_iff m _ _).0 ((ite_false m c _ _ no).0 here) ∙ z.value-int_val m (pos 0),
        )
  ]

  all_buffs-Waits :
      (st : Turns) (t : ℕ) (buffs : Map (ℕ × ℕ) LeafBuff) (res : z.BoolExpr)
      → Holds m (loop (with_buff st t) res buffs)
      → Holds m res
        × ((key : ℕ × ℕ) (buff : LeafBuff) → find buffs key ≡ some buff → Waits st t key buff)
  unfolding find
  all_buffs-Waits st t [] res h = (h, λ key buff found. cc)
  all_buffs-Waits st t ((k, b) ∷ buffs) res h =
      let (now, rest) = all_buffs-Waits st t buffs (with_buff st t res (k, b)) h in
      let (before, here) = with_buff-Waits st t res k b now in
      (
        before,
        λ key buff found. elim (found_head k b buff buffs key found) [
          | inl (same, same') ↦
              subst (λ k'. Waits st t k' buff) (sym same) (subst (Waits st t k) same' here)
          | inr (other, later) ↦ rest key buff later
        ],
      )

  -- In the state that `LeafSts::init` and `LeafSts::trs` leave after all steps, for a switch no
  -- two of whose queues have the same ports, and in a model of what `LeafSts::out` adds for a
  -- step within the time: when packets leave a queue that is not an empty one, none leaves any
  -- other such queue that shares an input port or an output port with it.
  pub leaf_sts-one_sends :
      (sw : Switch) (t : ℕ)
      → KeysDiffer sw.buffs
      → t < sw.timesteps
      → Sat m (out sw (Base.trs leaf_sts sw no_turns).1 t)
      → (a b : ℕ × ℕ) (p q : LeafBuff) → find sw.buffs a ≡ some p
      → find sw.buffs b ≡ some q
      → p.empty ≡ false
      → q.empty ≡ false
      → (a.0 ≡ b.0) ⊎ (a.1 ≡ b.1)
      → a ≢ b
      → z.value m (sum (row p.O t)) ≢ pos 0
      → z.value m (sum (row q.O t)) ≡ pos 0
  unfolding out of_expr
  leaf_sts-one_sends sw t d within h a b p q found found' full full' shared other sends =
      let st = (Base.trs leaf_sts sw no_turns).1 in
      let waits = (all_buffs-Waits st t sw.buffs (z.bool_val true) h.0).1 in
      let (st', made) = (run-IsRecorded sw d).entry t (omega arith) in
      elim (Bool-cases (z.holds m (bit (matches_of st a) t))) [
        | inr off ↦ absurd (sends (waits a p found full off))
        | inl on ↦ elim (Bool-cases (z.holds m (bit (matches_of st b) t))) [
          | inr off' ↦ waits b q found' full' off'
          | inl on' ↦ absurd (
              other (
                one_match st' t a b p q shared (subst (Holds m) (made a p found) on)
                  (subst (Holds m) (made b q found') on')))
        ]
      ]
