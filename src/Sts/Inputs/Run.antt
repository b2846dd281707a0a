-- ===== src/Sts/Inputs/Run.antt =====
-- The constraints on a buffer are satisfied exactly by the runs of a buffer that drops at the tail.
use count_buffy.Prelude.{
  inl, inr, ≤ℤ_decide, ltb_iff, neg_part, neg_part_nonneg, Bool-cases, ◌⊎◌, sym, Bool_ext, ℕ, zero,
  suc, ◌+◌, ◌-◌, ◌<◌, ◌≤◌, ◌≡◌, ◌↔◌, true, false, ltb, ℤ, pos, pos_part, ◌+ℤ◌, ◌≤ℤ◌, min, total,
  total_congr, total-add, total_nonneg, total-zero, int_laws, parts, arith, ◌∙◌,
}
use count_buffy.Buffer.{IsRun, Trace, IsStep, IsCounted, before, amount, taken}
use count_buffy.Sts.Inputs.Steps.{Moves, Serves, Fits, Spills, Splits, filled}

-- The numbers of one step: `h` packets held, `e` enqueued, `d` dropped, `a` arriving.
module _ (c : ℕ) (h e d a : ℤ) (h_nonneg : neg_part h ≡ 0) (e_nonneg : neg_part e ≡ 0)
    (d_nonneg : neg_part d ≡ 0) (split : a ≡ e +ℤ d) where
  pub admitted :
      h +ℤ e ≤ℤ pos c
      → (d ≤ℤ pos 0) ⊎ (h +ℤ e ≡ pos c)
      → pos_part e ≡ min (pos_part a) (c - pos_part h)
  admitted fits (inl none_dropped) =
      let a_nonneg = neg_part_nonneg a (omega (int_laws, parts split)) in
      omega (int_laws, parts split)
  admitted fits (inr full) =
      let a_nonneg = neg_part_nonneg a (omega (int_laws, parts split)) in
      omega (int_laws, parts split, parts full)

  pub fits_of_admitted :
      pos_part h ≤ c → pos_part e ≡ min (pos_part a) (c - pos_part h) → h +ℤ e ≤ℤ pos c
  fits_of_admitted room taken_all = omega (int_laws, parts split)

  pub full_of_dropped :
      pos_part h ≤ c
      → pos_part e ≡ min (pos_part a) (c - pos_part h)
      → ¬ (d ≤ℤ pos 0)
      → h +ℤ e ≡ pos c
  full_of_dropped room taken_all some_dropped = omega (int_laws, parts split)

  none_dropped_of_idle :
      0 < c → pos_part e ≡ min (pos_part a) (c - pos_part h) → h +ℤ e ≤ℤ pos 0 → d ≡ pos 0
  none_dropped_of_idle some_room taken_all idle = omega (int_laws, parts split)

  busy_test : (ltb 0 (pos_part h + pos_part e) ≡ true) ↔ (¬ (h +ℤ e ≤ℤ pos 0))
  busy_test = (
    λ t. let lt = (ltb_iff 0 (pos_part h + pos_part e)).0 t in omega int_laws,
    λ t. (ltb_iff 0 (pos_part h + pos_part e)).1 (omega int_laws),
  )

  idle_filled : ltb 0 (pos_part h + pos_part e) ≡ false → h +ℤ e ≤ℤ pos 0
  idle_filled idle =
      let none_there : ¬ (0 < pos_part h + pos_part e) =
        λ t. let x = (ltb_iff 0 (pos_part h + pos_part e)).1 t in cc in
      omega int_laws

module _ (c k steps : ℕ) (trace : Trace) (counted : IsCounted k steps trace) where
  before_nonneg : (t : ℕ) → t < steps → neg_part (total k (before trace t)) ≡ 0
  unfolding before
  before_nonneg zero b = rw (total-zero k) (omega arith)
  before_nonneg (suc t) b =
      neg_part_nonneg _
        (total_nonneg k (trace.held t) (λ p h. counted.held_nonneg t p (omega arith) h))

  module _ (t : ℕ) (b : t < steps) where
    pub arrived_total :
        Splits k trace t
        → total k (trace.arrived t) ≡ total k (trace.enqueued t) +ℤ total k (trace.dropped t)
    arrived_total s =
        total_congr k (trace.arrived t) (λ p. trace.enqueued t p +ℤ trace.dropped t p) s
        ∙ total-add k (trace.enqueued t) (trace.dropped t)

    pub enqueued_total : neg_part (total k (trace.enqueued t)) ≡ 0
    enqueued_total =
        neg_part_nonneg _
          (total_nonneg k (trace.enqueued t) (λ p h. counted.enqueued_nonneg t p b h))

    pub dropped_total : neg_part (total k (trace.dropped t)) ≡ 0
    dropped_total =
        neg_part_nonneg _ (total_nonneg k (trace.dropped t) (λ p h. counted.dropped_nonneg t p b h))

    -- Whatever is dropped, is dropped when the buffer is full.
    spilt : Spills c k trace t → (total k (trace.dropped t) ≤ℤ pos 0) ⊎ (filled k trace t ≡ pos c)
    spilt s = elim (Bool-cases (trace.busy t)) [
      | inl served ↦ elim (≤ℤ_decide (total k (trace.dropped t)) (pos 0)) [
        | inl none_dropped ↦ inl none_dropped
        | inr some_dropped ↦ inr (s.0 served some_dropped)
      ]
      | inr idle ↦ inl (rw (s.1 idle) (omega arith))
    ]

    pub IsStep-of :
        Serves k trace t
        → Moves k trace t
        → Fits c k trace t
        → Spills c k trace t
        → Splits k trace t
        → IsStep c k trace t
    unfolding amount taken
    IsStep-of sv mv f s sp =
        let split = arrived_total sp in
        let held = before_nonneg t b in
        record {
          splits = sp;
          moves = mv;
          admits = admitted c _ _ _ _ held enqueued_total dropped_total split f (spilt s);
          fits = let e = enqueued_total in omega int_laws;
          serves =
              let test = busy_test c _ _ _ _ held enqueued_total dropped_total split in
              Bool_ext _ _ (λ x. test.1 (sv.0 x), λ x. sv.1 (test.0 x));
        }

    pub constraints_of :
        0 < c
        → IsStep c k trace t
        → Serves k trace t
          × Moves k trace t
          × Fits c k trace t
          × Spills c k trace t
          × Splits k trace t
    unfolding amount taken
    constraints_of some_room st =
        let split = arrived_total st.splits in
        let held = before_nonneg t b in
        let enq = enqueued_total in
        let drop = dropped_total in
        let test = busy_test c _ _ _ _ held enq drop split in
        let idle_test : trace.busy t ≡ false → filled k trace t ≤ℤ pos 0 =
          λ idle. idle_filled c _ _ _ _ held enq drop split (sym st.serves ∙ idle) in
        (
          (λ x. test.0 (sym st.serves ∙ x), λ x. st.serves ∙ test.1 x),
          st.moves,
          fits_of_admitted c _ _ _ _ held enq drop split st.fits st.admits,
          (
            λ _ some_dropped.
                full_of_dropped c _ _ _ _ held enq drop split st.fits st.admits some_dropped,
            λ idle.
                none_dropped_of_idle c _ _ _ _ held enq drop split some_room st.admits
                  (idle_test idle),
          ),
          st.splits,
        )

pub IsRun_iff :
    (c k steps : ℕ) (trace : Trace)
    → IsCounted k steps trace
    → 0 < c
    → IsRun c k steps trace ↔ (
        (t : ℕ)
        → t < steps
        → Serves k trace t
          × Moves k trace t
          × Fits c k trace t
          × Spills c k trace t
          × Splits k trace t)
IsRun_iff c k steps trace counted some_room = (
  λ run t b. constraints_of c k steps trace counted t b some_room (run t b),
  λ all t b. let h = all t b in IsStep-of c k steps trace counted t b h.0 h.1 h.2 h.3 h.4,
)
