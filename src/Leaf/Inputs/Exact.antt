-- ===== src/Leaf/Inputs/Exact.antt =====
-- `LeafBase::inputs` against the buffer that stores before it forwards.

use count_buffy.Prelude.{
  ℕ, suc, ◌<◌, ◌≡◌, ◌↔◌, false, inl, inr, arith, codes, to_string, ◌++◌, Bool-cases,
}
use count_buffy.Z3.{Z3}
use count_buffy.Vec.{bit}
use count_buffy.NamedExp.{Sat}
use count_buffy.NamedExp.Meaning.{merge_in_iff}
use count_buffy.Buffer.{IsCounted}
use count_buffy.Buffer.Store.{IsStored, IsStored_iff}
use count_buffy.Leaf.Buffs.{LeafBuff}
use count_buffy.Leaf.Switch.{Switch}
use count_buffy.Leaf.Inputs.{
  inputs, bl_size, bl_size_list, enqs, enqs_list, drops, drops_list, enq_deq_sum, enq_deq_sum_list,
}
use count_buffy.Leaf.Inputs.Steps.{
  IsFull, buff_history, Moves-first, bl_size_list_iff, enqs_list_iff, drops_list_iff,
  enq_deq_sum_list_iff,
}

module _ ⦃z : Z3⦄ (m : z.Model) (sw : Switch) (buff : LeafBuff) (k : ℕ)
    (full : IsFull buff sw.timesteps k) (some_step : 0 < sw.timesteps)
    (counted : IsCounted (suc k) sw.timesteps (buff_history m buff)) where
  -- The four merged constraints, each as its list.
  lists_iff :
      (i : ℕ)
      → sw.use_win ≡ false
      → Sat m (inputs sw buff i) ↔ (
          Sat m (bl_size_list sw buff)
          × Sat m (enqs_list sw buff)
          × Sat m (drops_list sw buff)
          × Sat m (enq_deq_sum_list sw buff))
  unfolding inputs bl_size enqs drops enq_deq_sum
  lists_iff i no_windows =
      let a =
        merge_in_iff m (bl_size_list sw buff) (codes "BL Size[" ++ to_string i ++ codes "]") in
      let b = merge_in_iff m (enqs_list sw buff) (codes "Enqs[" ++ to_string i ++ codes "]") in
      let c = merge_in_iff m (drops_list sw buff) (codes "Drops[" ++ to_string i ++ codes "]") in
      let d =
        merge_in_iff m (enq_deq_sum_list sw buff)
          (codes "EnqDropSum[" ++ to_string i ++ codes "]") in
      (
        λ h. (a.0 h.0, b.0 h.1.0, c.0 h.1.1.0, d.0 h.1.1.1.0),
        λ h. (a.1 h.0, (b.1 h.1, (c.1 h.2, (d.1 h.3, rw no_windows tt)))),
      )

  idle_first : Sat m (bl_size_list sw buff) → z.holds m (bit buff.B 0) ≡ false
  idle_first h =
      let first = (bl_size_list_iff m sw buff k full some_step counted).0 h 0 some_step in
      let empty = (Moves-first m sw buff k full some_step counted).1 first.0 in
      elim (Bool-cases (z.holds m (bit buff.B 0))) [
        | inl on ↦ absurd (first.1.0 on (rw empty (omega arith)))
        | inr idle ↦ idle
      ]

  -- For a switch without windows and at least one step, and a buffer whose vectors have an entry
  -- for each packet type and whose quantities are not negative: a model satisfies the constraints
  -- that `LeafBase::inputs` gives for the buffer exactly when every step of its history is one of
  -- a buffer that stores packets before it forwards them, with the switch's capacity, and that is
  -- not offered more than this when it is not busy.
  pub leaf_inputs_iff :
      (i : ℕ)
      → sw.use_win ≡ false
      → Sat m (inputs sw buff i)
        ↔ ((t : ℕ) → t < sw.timesteps → IsStored sw.buff_cap (suc k) (buff_history m buff) t)
  leaf_inputs_iff i no_windows =
      let all = lists_iff i no_windows in
      let moves = bl_size_list_iff m sw buff k full some_step counted in
      let first = Moves-first m sw buff k full some_step counted in
      let fits = enqs_list_iff m sw buff k full some_step in
      let spills = drops_list_iff m sw buff k full some_step in
      let splits = enq_deq_sum_list_iff m sw buff k full some_step in
      let step = λ (t : ℕ) (b : t < sw.timesteps).
        IsStored_iff sw.buff_cap (suc k) sw.timesteps (buff_history m buff) counted t b in
      (
        λ h t b.
            let lists = all.0 h in
            let idle = idle_first lists.0 in
            let empty = first.1 (moves.0 lists.0 0 some_step).0 in
            let moved = moves.0 lists.0 t b in
            (step t b).1 (
              moved.0,
              moved.1,
              (fits empty idle).0 lists.1 t b,
              (spills idle).0 lists.2 t b,
              splits.0 lists.3 t b,
            ),
        λ run.
            let facts = λ (t : ℕ) (b : t < sw.timesteps). (step t b).0 (run t b) in
            let moved = moves.1 (λ t b. ((facts t b).0, (facts t b).1)) in
            let idle = idle_first moved in
            let empty = first.1 (facts 0 some_step).0 in
            all.1 (
              moved,
              (fits empty idle).1 (λ t b. (facts t b).2),
              (spills idle).1 (λ t b. (facts t b).3),
              splits.1 (λ t b. (facts t b).4),
            ),
      )
