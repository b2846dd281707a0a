-- ===== src/Leaf/Fperf/Service.antt =====
-- What leaves a switch in a step, and how the heads of its ports move.

use count_buffy.Prelude.{
  ℕ, suc, ◌+◌, ◌≤◌, ◌<◌, ◌≡◌, refl, sym, ◌∙◌, subst, inl, inr, List, [], ◌∷◌, arith, int_laws, ℤ,
  pos, ◌+ℤ◌, ◌≤ℤ◌, Bool-cases, length, All, gather, if◌then◌else◌,
}
use count_buffy.Z3.{Z3, num, Holds, neg_iff, implies_iff, eq_iff}
use count_buffy.Vec.{row, sum}
use count_buffy.NamedExp.{Sat}
use count_buffy.Leaf.Fperf.{Fperf, var_at, served, out, trs_at}
use count_buffy.Leaf.Fperf.Matching.{In, InOnce, fails, trs_at-IsMatching}
use count_buffy.Vec.Choice.{true_not_false}
use count_buffy.NamedExp.Meaning.{Sat-append}
use count_buffy.Leaf.Buffs.{LeafBuff}
use count_buffy.Leaf.Switch.{Switch, get_in_ports, get_buffs_for_src}

module _ ⦃z : Z3⦄ (m : z.Model) where
  -- The packets that leave at a step from buffers that are not empty ones.
  abbrev pub sent : ℕ → List LeafBuff → ℤ
  sent t [] = pos 0
  sent t (buff ∷ buffs) =
      (if buff.empty then pos 0 else z.value m (sum (row buff.O t))) +ℤ sent t buffs

  value_num : (e : z.IntExpr) (n : ℕ) → Holds m (z.eq e (num n)) → z.value m e ≡ pos n
  value_num e n h = (eq_iff m e (num n)).0 h ∙ z.value-int_val m (pos n)

  module _ (sw : Switch) (st : Fperf) (t p : ℕ) where
    -- A queue without a match sends nothing, a matched one sends one packet.
    served-one :
        (i : ℕ) (buff : LeafBuff) (buffs : List LeafBuff)
        → Sat m (served sw st t p i (buff ∷ buffs))
        → (Sat m (served sw st t p (suc i) buffs)
            × (¬ In m sw st t p i
                → (if buff.empty then pos 0 else z.value m (sum (row buff.O t))) ≡ pos 0)
            × ((if buff.empty then pos 0 else z.value m (sum (row buff.O t))) ≤ℤ pos 1))
    unfolding served
    served-one i buff buffs h = elim (Bool-cases buff.empty) [
      | inl none_ ↦ let h' = rw none_ at h in rw none_ (h', λ _. refl, omega arith)
      | inr some_ ↦
          let v = var_at st.in_to_out p i t in
          let (one, (zero_, rest)) = rw some_ at h in
          let off = λ (free : ¬ In m sw st t p i).
            value_num (sum (row buff.O t)) 0
              ((implies_iff m (z.neg v) _).0 zero_ ((neg_iff m v).1 (fails m v free))) in
          rw some_ (
            rest,
            off,
            elim (Bool-cases (z.holds m v)) [
              | inl on ↦
                  let e = value_num (sum (row buff.O t)) 1 ((implies_iff m v _).0 one on) in
                  subst (λ x. x ≤ℤ pos 1) (sym e) (omega arith)
              | inr free ↦
                  let e = off (λ on. true_not_false m on free) in
                  subst (λ x. x ≤ℤ pos 1) (sym e) (omega arith)
            ],
          )
    ]

    sent_none :
        (i : ℕ) (buffs : List LeafBuff)
        → Sat m (served sw st t p i buffs)
        → ((j : ℕ) → i ≤ j → j < i + length buffs → ¬ In m sw st t p j)
        → sent t buffs ≡ pos 0
    sent_none i [] h off = refl
    sent_none i (buff ∷ buffs) h off =
        let (rest, here, one) = served-one i buff buffs h in
        let e = here (off i (omega arith) (omega arith)) in
        let e' = sent_none (suc i) buffs rest (λ j lo hi. off j (omega arith) (omega arith)) in
        rw (e, e') (omega int_laws)

    sent_one :
        (i : ℕ) (buffs : List LeafBuff)
        → Sat m (served sw st t p i buffs)
        → ((j k : ℕ)
            → j < i + length buffs
            → k < i + length buffs
            → In m sw st t p j
            → In m sw st t p k
            → j ≡ k)
        → sent t buffs ≤ℤ pos 1
    sent_one i [] h once = omega arith
    sent_one i (buff ∷ buffs) h once =
        let (rest, here, one) = served-one i buff buffs h in
        elim (Bool-cases (z.holds m (var_at st.in_to_out p i t))) [
          | inl on ↦
              let e = sent_none (suc i) buffs rest (λ j lo hi other.
                let same = once i j (omega arith) (omega arith) on other in absurd (omega arith)) in
              rw e (omega (int_laws, one))
          | inr free ↦
              let e = here (λ on. true_not_false m on free) in
              let less =
                sent_one (suc i) buffs rest
                  (λ j k bj bk hj hk. once j k (omega arith) (omega arith) hj hk) in
              rw e (omega (int_laws, less))
        ]

  -- In a model of what `FperfLeafSts::trs` and `FperfLeafSts::out` add for a step, at most one
  -- packet leaves the queues of an input port that are not empty ones.
  pub sent-le-one :
      (sw : Switch) (st : Fperf) (t : ℕ)
      → Sat m (trs_at sw st t)
      → Sat m (out sw st t)
      → All (λ p. sent t (get_buffs_for_src sw p) ≤ℤ pos 1) (get_in_ports sw)
  unfolding out
  sent-le-one sw st t h k =
      each (get_in_ports sw) (trs_at-IsMatching m sw st t h).in_once ((Sat-append m _ _).0 k).0
    where
      each :
          (ports : List ℕ)
          → All (InOnce m sw st t) ports
          → Sat m (gather (λ p. served sw st t p 0 (get_buffs_for_src sw p)) ports)
          → All (λ p. sent t (get_buffs_for_src sw p) ≤ℤ pos 1) ports
      each [] once h = tt
      each (p ∷ ports) once h =
          let parts = (Sat-append m (served sw st t p 0 (get_buffs_for_src sw p)) _).0 h in
          (
            sent_one sw st t p 0 (get_buffs_for_src sw p) parts.0
                (λ j k bj bk. once.0 j k (omega arith) (omega arith)),
            each ports once.1 parts.1,
          )
