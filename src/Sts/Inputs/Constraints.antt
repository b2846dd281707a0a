-- ===== src/Sts/Inputs/Constraints.antt =====
-- The four lists of constraints on a buffer, each as a statement about its history.
use count_buffy.Prelude.{
  pos, arith, All-loop_iff, ℕ, zero, suc, ◌<◌, ◌≤◌, ◌↔◌, List, ◌∷◌, gather, range,
}
use count_buffy.Vec.{sum_gt}
use count_buffy.Z3.{conj_iff, Z3, Holds}
use count_buffy.NamedExp.{NamedExp, of_expr, Sat}
use count_buffy.Sts.{Sts}
use count_buffy.Sts.Inputs.{
  enq_deq_sum_first, drops_first, enqs_first, bl_size_first, bit, row, sum_le, enq_deq_sum_at,
  drops_at, enqs_at, enq_deq_sum, drops, enqs, bl_size_at, bl_size,
}
use count_buffy.Sts.Inputs.Steps.{
  Fits-next, Fits-first, Serves-first, Spills-next, Splits-at, Spills-first, Splits, Spills, Fits,
  Moves-next, Serves-next, Moves-first, IsShaped, history, Moves, Serves,
}
use count_buffy.Buffer.{Trace}

-- One constraint for the first step and a list of them for each later one.
pub Sat-steps_iff :
    ⦃z : Z3⦄ (m : z.Model) (P : ℕ → Type 0) (first : NamedExp) (f : ℕ → List NamedExp) (steps : ℕ)
    → 0 < steps
    → Holds m first.e ↔ P 0
    → ((t : ℕ) → suc t < steps → Sat m (f (suc t)) ↔ P (suc t))
    → Sat m (first ∷ gather f (range 1 steps)) ↔ ((t : ℕ) → t < steps → P t)
Sat-steps_iff m P first f steps h now later = (down, up)
  where
    each : Sat m (gather f (range 1 steps)) ↔ ((i : ℕ) → 1 ≤ i → i < steps → Sat m (f i))
    each = All-loop_iff (λ ne. Holds m ne.e) f 1 steps

    down : Sat m (first ∷ gather f (range 1 steps)) → (t : ℕ) → t < steps → P t
    down s zero b = now.0 s.0
    down s (suc t) b = (later t b).0 (each.0 s.1 (suc t) (omega arith) b)

    rest : ((t : ℕ) → t < steps → P t) → (i : ℕ) → 1 ≤ i → i < steps → Sat m (f i)
    rest p zero lo b = absurd (omega arith)
    rest p (suc t) lo b = (later t b).1 (p (suc t) b)

    up : ((t : ℕ) → t < steps → P t) → Sat m (first ∷ gather f (range 1 steps))
    up p = (now.1 (p 0 h), each.1 (rest p))

-- The first step's test of `B` stands in `enqs`, the later ones' in `bl_size`.
abbrev pub ServesLater : ℕ → Trace → ℕ → Type 0
ServesLater k trace zero = Unit {0}
ServesLater k trace (suc t) = Serves k trace (suc t)

abbrev pub ServesFirst : ℕ → Trace → ℕ → Type 0
ServesFirst k trace zero = Serves k trace 0
ServesFirst k trace (suc t) = Unit {0}

pub Serves-of_both :
    (k : ℕ) (trace : Trace) (t : ℕ)
    → ServesFirst k trace t
    → ServesLater k trace t
    → Serves k trace t
Serves-of_both k trace zero first later = first
Serves-of_both k trace (suc t) first later = later

pub both_of_Serves :
    (k : ℕ) (trace : Trace) (t : ℕ)
    → Serves k trace t
    → ServesFirst k trace t × ServesLater k trace t
both_of_Serves k trace zero h = (h, tt)
both_of_Serves k trace (suc t) h = (tt, h)

module _ ⦃z : Z3⦄ (m : z.Model) (sts : Sts) (i k : ℕ) (shaped : IsShaped sts i k)
    (some_step : 0 < sts.timesteps) where
  pub bl_size_iff : Sat m (bl_size sts i) ↔ (
      (t : ℕ)
      → t < sts.timesteps
      → ServesLater (suc k) (history m sts i) t × Moves (suc k) (history m sts i) t)
  unfolding bl_size bl_size_first bl_size_at of_expr
  bl_size_iff =
      Sat-steps_iff m
        (λ t. ServesLater (suc k) (history m sts i) t × Moves (suc k) (history m sts i) t)
        (bl_size_first sts i) (bl_size_at sts i) sts.timesteps some_step
        (let first = Moves-first m sts i k shaped some_step in
          (λ h. (tt, first.0 h), λ h. first.1 h.1))
        (λ t b.
          let served = Serves-next m sts i k shaped t b in
          let moved = Moves-next m sts i k shaped t b in
          (λ h. (served.0 h.0, moved.0 h.1.0), λ h. (served.1 h.0, (moved.1 h.1, tt))))

  pub enqs_iff : Sat m (enqs sts i) ↔ (
      (t : ℕ)
      → t < sts.timesteps
      → ServesFirst (suc k) (history m sts i) t × Fits sts.c (suc k) (history m sts i) t)
  unfolding enqs enqs_first enqs_at of_expr
  enqs_iff =
      Sat-steps_iff m
        (λ t. ServesFirst (suc k) (history m sts i) t × Fits sts.c (suc k) (history m sts i) t)
        (enqs_first sts i) (enqs_at sts i) sts.timesteps some_step
        (let both =
            conj_iff m (sum_le (row (row sts.E i) 0) (pos sts.c))
              (z.iff (bit (row sts.B i) 0) (sum_gt (row (row sts.E i) 0) (pos 0))) in
          let served = Serves-first m sts i k shaped some_step in
          let fitting = Fits-first m sts i k shaped some_step in
          (
            λ h. (served.0 (both.0 h).1, fitting.0 (both.0 h).0),
            λ h. both.1 (fitting.1 h.1, served.1 h.0),
          ))
        (λ t b.
          let fitting = Fits-next m sts i k shaped t b in
          (λ h. (tt, fitting.0 h.0), λ h. (fitting.1 h.1, tt)))

  pub drops_iff :
      Sat m (drops sts i) ↔ ((t : ℕ) → t < sts.timesteps → Spills sts.c (suc k) (history m sts i) t)
  unfolding drops drops_first drops_at of_expr
  drops_iff =
      Sat-steps_iff m (Spills sts.c (suc k) (history m sts i)) (drops_first sts i) (drops_at sts i)
        sts.timesteps some_step (Spills-first m sts i k shaped some_step)
        (λ t b.
          let spilt = Spills-next m sts i k shaped t b in (λ h. spilt.0 h.0, λ h. (spilt.1 h, tt)))

  pub enq_deq_sum_iff :
      Sat m (enq_deq_sum sts i) ↔ ((t : ℕ) → t < sts.timesteps → Splits (suc k) (history m sts i) t)
  unfolding enq_deq_sum enq_deq_sum_first enq_deq_sum_at of_expr
  enq_deq_sum_iff =
      Sat-steps_iff m (Splits (suc k) (history m sts i)) (enq_deq_sum_first sts i)
        (enq_deq_sum_at sts i) sts.timesteps some_step (Splits-at m sts i k shaped 0 some_step)
        (λ t b.
          let parts = Splits-at m sts i k shaped (suc t) b in
          (λ h. parts.0 h.0, λ h. (parts.1 h, tt)))
