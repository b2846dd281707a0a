-- ===== src/Buffer/Laws.antt =====
-- What every run of a buffer has: no packet is lost or made up, and the capacity is kept.
use count_buffy.Prelude.{
  ltb_iff, pos, ◌≤ℤ◌, true, ltb_iff, true, ltb_fails, sym, false, ℕ, zero, suc, ◌<◌, ◌≤◌, ◌≡◌, ◌+ℤ◌,
  ◌-ℤ◌, total, total-add, total-sub, total_congr, total_nonneg, int_laws, parts, arith,
  neg_part_nonneg, ◌∙◌,
}
use count_buffy.Buffer.{Trace, IsRun, IsCounted, before, amount, taken}

module _ (c k steps : ℕ) (trace : Trace) (run : IsRun c k steps trace) where
  -- Up to step `t`, what has arrived of type `p` has been dropped, has left or is held.
  pub conserved :
      (t p : ℕ)
      → t < steps
      → p < k
      → total (suc t) (λ s. trace.arrived s p)
        ≡ total (suc t) (λ s. trace.dropped s p)
          +ℤ total (suc t) (λ s. trace.left s p)
          +ℤ trace.held t p
  unfolding total before
  conserved zero p b h =
      let st = run zero b in
      let split = parts (st.splits p h) in let move = parts (st.moves p h) in omega int_laws
  conserved (suc t) p b h =
      let st = run (suc t) b in
      let split = parts (st.splits p h) in
      let move = parts (st.moves p h) in
      let earlier = parts (conserved t p (omega arith) h) in omega int_laws

  module _ (counted : IsCounted k steps trace) where
    total_held :
        (t : ℕ)
        → t < steps
        → total k (trace.held t)
          ≡ total k (before trace t) +ℤ total k (trace.enqueued t) -ℤ total k (trace.left t)
    total_held t b =
        total_congr k (trace.held t) (λ p. before trace t p +ℤ trace.enqueued t p -ℤ trace.left t p)
          (run t b).moves
        ∙ total-sub k (λ p. before trace t p +ℤ trace.enqueued t p) (trace.left t)
        ∙ rw (total-add k (before trace t) (trace.enqueued t))

    -- Never more packets than the capacity.
    pub held-le-capacity : (t : ℕ) → t < steps → amount k (trace.held t) ≤ c
    unfolding amount taken
    held-le-capacity t b =
        let st = run t b in
        let sum = parts (total_held t b) in
        let held_nonneg =
          neg_part_nonneg _ (total_nonneg k (trace.held t) (λ p h. counted.held_nonneg t p b h)) in
        let left_nonneg = total_nonneg k (trace.left t) (λ p h. counted.left_nonneg t p b h) in
        let entering = st.admits in let room = st.fits in omega int_laws

    -- Nothing leaves an idle buffer.
    pub idle-left : (t : ℕ) → t < steps → trace.busy t ≡ false → amount k (trace.left t) ≡ 0
    unfolding amount
    idle-left t b idle =
        let st = run t b in
        let sum = parts (total_held t b) in
        let held_nonneg = total_nonneg k (trace.held t) (λ p h. counted.held_nonneg t p b h) in
        let left_nonneg =
          neg_part_nonneg _ (total_nonneg k (trace.left t) (λ p h. counted.left_nonneg t p b h)) in
        let empty = ltb_fails 0 _ (sym st.serves ∙ idle) in omega int_laws

    total-before_nonneg : (t : ℕ) → t < steps → pos 0 ≤ℤ total k (before trace t)
    unfolding before
    total-before_nonneg zero b = total_nonneg k (λ _. pos 0) (λ p h. omega arith)
    total-before_nonneg (suc t) b =
        total_nonneg k (trace.held t) (λ p h. counted.held_nonneg t p (omega arith) h)

    -- A busy buffer that nothing leaves is still busy in the next step.
    pub unserved-busy :
        (t : ℕ)
        → suc t < steps
        → trace.busy t ≡ true
        → amount k (trace.left t) ≡ 0
        → trace.busy (suc t) ≡ true
    unfolding amount before
    unserved-busy t b busy none_left =
        let st = run t (omega arith) in
        let next = run (suc t) b in
        let sum = parts (total_held t (omega arith)) in
        let left_nonneg =
          neg_part_nonneg _
            (total_nonneg k (trace.left t) (λ p h. counted.left_nonneg t p (omega arith) h)) in
        let some_held = (ltb_iff 0 _).0 (sym st.serves ∙ busy) in
        let before_nonneg = neg_part_nonneg _ (total-before_nonneg t (omega arith)) in
        let enqueued_nonneg = neg_part_nonneg _ (
          total_nonneg k (trace.enqueued t) (λ p h. counted.enqueued_nonneg t p (omega arith) h)) in
        next.serves ∙ (ltb_iff 0 _).1 (omega int_laws)
