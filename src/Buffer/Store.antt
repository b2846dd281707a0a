-- ===== src/Buffer/Store.antt =====
-- The other kind of buffer in the program, that of src/leaf_spine: packets can leave only in a step
-- after the one in which they came in, so what is held is counted before the packets of a step come in.
-- It is the specification that Leaf.Inputs is proved against.

use count_buffy.Prelude.{
  ℕ, zero, suc, ◌≤◌, ◌<◌, ◌≡◌, ◌↔◌, ◌⊎◌, inl, inr, sym, ◌∙◌, true, false, ℤ, pos, pos_part,
  neg_part, neg_part_nonneg, ◌+ℤ◌, ◌-ℤ◌, ◌≤ℤ◌, ltb, ltb_iff, total, total_nonneg, Bool-cases,
  Bool_ext, ≤ℤ_decide, arith, int_laws, parts,
}
use count_buffy.Buffer.{Trace, IsCounted, amount, taken}
use count_buffy.Sts.Inputs.Steps.{Splits}
use count_buffy.Sts.Inputs.Run.{
  enqueued_total, dropped_total, arrived_total, admitted, fits_of_admitted, full_of_dropped,
}

-- What step `t` leaves to be held in the next; the buffer starts empty.
unfoldable pub kept : Trace → ℕ → ℕ → ℤ
kept trace zero p = pos 0
kept trace (suc t) p = trace.held t p +ℤ trace.enqueued t p -ℤ trace.left t p

-- Step `t` of a buffer for `c` packets of `k` types: no packet changes its type or is lost, as many
-- enter as fit beside those held, the others are dropped, the buffer is busy when it holds a packet, and
-- one that is not busy is not offered more than fits.
pub record IsStored (c k : ℕ) (trace : Trace) (t : ℕ) : Type 0 where
  pub splits : Splits k trace t
  pub moves : (p : ℕ) → p < k → trace.held t p ≡ kept trace t p
  pub admits :
      amount k (trace.enqueued t) ≡ taken c (amount k (trace.held t)) (amount k (trace.arrived t))
  pub fits : amount k (trace.held t) ≤ c
  pub serves : trace.busy t ≡ ltb 0 (amount k (trace.held t))
  pub offered : trace.busy t ≡ false → amount k (trace.arrived t) ≤ c

-- The same, as the constraints say it.
abbrev pub Moves : ℕ → Trace → ℕ → Type 0
Moves k trace t = (p : ℕ) → p < k → trace.held t p ≡ kept trace t p

abbrev pub Serves : ℕ → Trace → ℕ → Type 0
Serves k trace t = (trace.busy t ≡ true) ↔ (¬ (total k (trace.held t) ≤ℤ pos 0))

abbrev pub stored : ℕ → Trace → ℕ → ℤ
stored k trace t = total k (trace.held t) +ℤ total k (trace.enqueued t)

abbrev pub Fits : ℕ → ℕ → Trace → ℕ → Type 0
Fits c k trace t = stored k trace t ≤ℤ pos c

abbrev pub Spills : ℕ → ℕ → Trace → ℕ → Type 0
Spills c k trace t =
    (trace.busy t ≡ true → ¬ (total k (trace.dropped t) ≤ℤ pos 0) → stored k trace t ≡ pos c)
    × (trace.busy t ≡ false → total k (trace.dropped t) ≡ pos 0)

module _ (c k steps : ℕ) (trace : Trace) (counted : IsCounted k steps trace) (t : ℕ)
    (b : t < steps) where
  held_nonneg : neg_part (total k (trace.held t)) ≡ 0
  held_nonneg =
      neg_part_nonneg _ (total_nonneg k (trace.held t) (λ p h. counted.held_nonneg t p b h))

  spilt : Spills c k trace t → (total k (trace.dropped t) ≤ℤ pos 0) ⊎ (stored k trace t ≡ pos c)
  spilt s = elim (Bool-cases (trace.busy t)) [
    | inl served ↦ elim (≤ℤ_decide (total k (trace.dropped t)) (pos 0)) [
      | inl none_dropped ↦ inl none_dropped
      | inr some_dropped ↦ inr (s.0 served some_dropped)
    ]
    | inr idle ↦ inl (rw (s.1 idle) (omega arith))
  ]

  holds_none : Serves k trace t → trace.busy t ≡ false → total k (trace.held t) ≤ℤ pos 0
  holds_none serves idle = elim (≤ℤ_decide (total k (trace.held t)) (pos 0)) [
    | inl none_held ↦ none_held
    | inr some_held ↦ let on = serves.1 some_held in cc
  ]

  busy_test :
      (ltb 0 (pos_part (total k (trace.held t))) ≡ true) ↔ (¬ (total k (trace.held t) ≤ℤ pos 0))
  busy_test =
      let h = held_nonneg in
      let test = ltb_iff 0 (pos_part (total k (trace.held t))) in
      (λ x. let lt = test.0 x in omega int_laws, λ x. test.1 (omega int_laws))

  pub IsStored_iff : IsStored c k trace t ↔ (
      Moves k trace t × Serves k trace t × Fits c k trace t × Spills c k trace t × Splits k trace t)
  unfolding amount taken
  IsStored_iff =
      let h = held_nonneg in
      let e = enqueued_total c k steps trace counted t b in
      let d = dropped_total c k steps trace counted t b in
      let test = busy_test in
      (
        λ st.
            let split = arrived_total c k steps trace counted t b st.splits in
            let sum = parts split in
            let serves : Serves k trace t =
              (λ x. test.0 (sym st.serves ∙ x), λ x. st.serves ∙ test.1 x) in
            let fits = fits_of_admitted c _ _ _ _ h e d split st.fits st.admits in
            (
              st.moves,
              serves,
              fits,
              (
                λ _ some_dropped.
                    full_of_dropped c _ _ _ _ h e d split st.fits st.admits some_dropped,
                λ idle.
                    let none_held = holds_none serves idle in
                    let few = st.offered idle in
                    let enters = st.admits in
                    let a_nonneg = neg_part_nonneg (total k (trace.arrived t)) (omega int_laws) in
                    omega int_laws,
              ),
              st.splits,
            ),
        λ all.
            let split = arrived_total c k steps trace counted t b all.4 in
            let sum = parts split in
            let fits = all.2 in
            record {
              splits = all.4;
              moves = all.0;
              admits = admitted c _ _ _ _ h e d split fits (spilt all.3);
              fits = omega int_laws;
              serves = Bool_ext _ _ (λ x. test.1 (all.1.0 x), λ x. all.1.1 (test.0 x));
              offered = λ idle.
                  let none_held = holds_none all.1 idle in
                  let none_dropped = parts (all.3.1 idle) in
                  let some_arrive : pos 0 ≤ℤ total k (trace.arrived t) = omega int_laws in
                  let a_nonneg = neg_part_nonneg (total k (trace.arrived t)) some_arrive in
                  let few : pos_part (total k (trace.arrived t)) ≤ c = omega int_laws in few;
            },
      )

-- Before step `t`, what had arrived of type `p` had been dropped, had left or is held.
pub stored-conserved :
    (c k steps : ℕ) (trace : Trace)
    → ((t : ℕ) → t < steps → IsStored c k trace t)
    → (t p : ℕ) → t < steps
    → p < k
    → total t (λ s. trace.arrived s p)
      ≡ total t (λ s. trace.dropped s p) +ℤ total t (λ s. trace.left s p) +ℤ trace.held t p
unfolding total kept
stored-conserved c k steps trace run zero p b h =
    let none_held = parts ((run 0 b).moves p h) in omega int_laws
stored-conserved c k steps trace run (suc t) p b h =
    let moves = parts ((run (suc t) b).moves p h) in
    let splits = parts ((run t (omega arith)).splits p h) in
    let earlier = parts (stored-conserved c k steps trace run t p (omega arith) h) in omega int_laws
