-- ===== src/Prio/Transition.antt =====
-- `PrioSTS::trs` asks for nothing that the buffers' constraints and `out` do not already ask for: a
-- buffer that is backlogged behind another one is not served, so it stays backlogged.
use count_buffy.Sts.Scheduler.Steps.{row-get_buf_vec, bit-get_bits}
use count_buffy.Buffer.Laws.{unserved-busy}
use count_buffy.Vec.Meaning.{value-sum}
use count_buffy.Sts.Inputs.Exact.{inputs-IsRun}
use count_buffy.Sts.Scheduler.{inputs}
use count_buffy.Buffer.{amount, IsRun, IsCounted}
use count_buffy.Sts.Inputs.Steps.{history, IsShaped}
use count_buffy.Prelude.{
  All-map_iff, All-loop_iff, All-range_iff, map, List, [], ◌∷◌, range, ◌+◌, ℕ, suc, ◌<◌, ◌≡◌, sym,
  ap, ◌∙◌, ◌↔◌, true, arith, pos, All, pos_part,
}
use count_buffy.Z3.{Z3, ◌&&◌, Holds, true_holds, conj_iff, implies_iff}
use count_buffy.Vec.{get_buf_vec_at_i, get_bits_at_i, Ev, Bv, bit, row, sum}
use count_buffy.NamedExp.{of_expr, Sat}
use count_buffy.Sts.{Sts}
use count_buffy.Prio.{trs, trs_rounds, pairs, out}
use count_buffy.Prio.Service.{first_served_iff}

-- The pairs are those of the two nested loops.
pub All-pairs_iff {κ} :
    (P : ℕ × ℕ → Type κ) (n : ℕ) → All P (pairs n) ↔ ((i l : ℕ) → i < l → l < n → P (i, l))
unfolding pairs
All-pairs_iff P n =
    let outer = All-loop_iff P (λ i. map (λ l. (i, l)) (range (i + 1) n)) 0 n in
    let inner = λ (i : ℕ). All-map_iff P (λ (l : ℕ). (i, l)) (range (i + 1) n) in
    let each = λ (i : ℕ). All-range_iff (λ l. P (i, l)) (i + 1) n in
    (
      λ h i l less b.
          (each i).0 ((inner i).0 (outer.0 h i (omega arith) (omega arith))) l (omega arith) b,
      λ h. outer.1 (λ i lo hi. (inner i).1 ((each i).1 (λ l less b. h i l (omega arith) b))),
    )

module _ ⦃z : Z3⦄ (m : z.Model) where
  -- Two backlogged buffers leave the second one backlogged.
  abbrev pub Waits : Bv → Bv → ℕ × ℕ → Type 0
  Waits b bp (i, l) = Holds m (bit b i) → Holds m (bit b l) → Holds m (bit bp l)

  trs_rounds_iff :
      (b bp : Bv) (is : List (ℕ × ℕ)) (res : z.BoolExpr)
      → Holds m res
      → Sat m (trs_rounds b bp is res) ↔ All (Waits b bp) is
  unfolding trs_rounds of_expr
  trs_rounds_iff b bp [] res h = (λ _. tt, λ _. tt)
  trs_rounds_iff b bp ((i, l) ∷ is) res h =
      let part = z.implies (bit b i) (z.implies (bit b l) (bit bp l)) in
      let both = conj_iff m res part in
      let outer = implies_iff m (bit b i) (z.implies (bit b l) (bit bp l)) in
      let inner = implies_iff m (bit b l) (bit bp l) in
      let rest = trs_rounds_iff b bp is (res && part) in
      (
        λ h'. (λ bi bl. inner.0 (outer.0 (both.0 h'.0).1 bi) bl, (rest h'.0).0 h'.1),
        λ h'.
            let now = both.1 (h, outer.1 (λ bi. inner.1 (λ bl. h'.0 bi bl))) in
            (now, (rest now).1 h'.1),
      )

  -- What the transition constraints say.
  pub trs_iff :
      (sts : Sts) (b : Bv) (s : Ev) (bp : Bv) (sp : Ev) (tp : ℕ)
      → Sat m (trs sts b s bp sp tp) ↔ ((i l : ℕ) → i < l → l < sts.num_bufs → Waits b bp (i, l))
  unfolding trs
  trs_iff sts b s bp sp tp =
      let rounds = trs_rounds_iff b bp (pairs sts.num_bufs) (z.bool_val true) (true_holds m) in
      let all = All-pairs_iff (Waits b bp) sts.num_bufs in
      (λ h. all.0 (rounds.0 h), λ h. rounds.1 (all.1 h))

module _ ⦃z : Z3⦄ (m : z.Model) (sts : Sts) (k : ℕ) (t : ℕ) (b : suc t < sts.timesteps)
    (shaped : (i : ℕ) → i < sts.num_bufs → IsShaped sts i k)
    (counted : (i : ℕ) → i < sts.num_bufs → IsCounted (suc k) sts.timesteps (history m sts i))
    (buffers : (i : ℕ) → i < sts.num_bufs → Sat m (inputs sts i)) where
  run : (l : ℕ) → l < sts.num_bufs → IsRun sts.c (suc k) sts.timesteps (history m sts l)
  run l lb = inputs-IsRun m sts l k (shaped l lb) (omega arith) (counted l lb) (buffers l lb)

  -- A backlogged buffer that serves no packet in a step is backlogged in the next.
  unserved :
      (l : ℕ)
      → l < sts.num_bufs
      → Holds m (bit (row sts.B l) t)
      → z.value m (sum (row (row sts.O l) t)) ≡ pos 0
      → Holds m (bit (row sts.B l) (suc t))
  unfolding amount
  unserved l lb busy none_ =
      let all = value-sum m (row (row sts.O l) t) k ((shaped l lb).shape_O t (omega arith)) in
      unserved-busy sts.c (suc k) sts.timesteps (history m sts l) (run l lb) (counted l lb) t b busy
        (ap pos_part (sym all ∙ none_))

  -- For buffers whose vectors have an entry for each packet type and whose quantities are not
  -- negative, a model that satisfies the constraints of every buffer and the priority scheduler's
  -- output constraints of a step also satisfies its transition constraints from that step to the
  -- next.
  pub trs_redundant :
      (s sv sp : Ev)
      → Sat m (out sts (get_bits_at_i sts.B t) sv (get_buf_vec_at_i sts.O t) t)
      → Sat m (trs sts (get_bits_at_i sts.B t) s (get_bits_at_i sts.B (suc t)) sp (suc t))
  trs_redundant s sv sp h = (trs_iff m sts _ s _ sp (suc t)).1 (λ i l less lb bi bl.
      let none_ =
        ((first_served_iff m sts _ sv _ t).0 h l lb).1 (λ f. let idle = f.idle i less in cc) in
      rw (bit-get_bits sts.B (suc t) l) (
        unserved l lb (rw (bit-get_bits sts.B t l) at bl)
          (rw (row-get_buf_vec sts.O t l) at none_)))
