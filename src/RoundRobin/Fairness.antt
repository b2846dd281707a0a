-- ===== src/RoundRobin/Fairness.antt =====
-- A backlogged buffer's turn comes within one round, whatever the others do.
use count_buffy.Prelude.{
  ◌-◌, ◌≤◌, ℕ, zero, suc, ◌+◌, ◌%◌, ◌<◌, ◌≡◌, ap, ◌∙◌, ◌⊎◌, inl, inr, false, arith, ℤ, pos,
}
use count_buffy.Z3.{Z3, Holds}
use count_buffy.Vec.{sum, get_bufs_at_i, get_bits_at_i, at, bit, row}
use count_buffy.NamedExp.{Sat}
use count_buffy.Sts.{Sts}
use count_buffy.RoundRobin.{round_robin}
use count_buffy.Vec.First.{IsFirst-before}
use count_buffy.RoundRobin.Turn.{IsNext, trs-IsNext}
use count_buffy.RoundRobin.Service.{init_iff, turn_served_iff}
use count_buffy.Sts.Scheduler.{base_constrs}
use count_buffy.Sts.Scheduler.Steps.{
  base-output, row-get_buf_vec, base-init, base-step, at-get_bufs, bit-get_bits,
}
use native.Mathlib.Nat.{mod-lt, add-mod_right, mod-add-mod, mod-eq_of_lt}
use native.Mathlib.Numerals.{add-one}

module _ ⦃z : Z3⦄ (m : z.Model) (sts : Sts) (base : Sat m (base_constrs round_robin sts tt).0)
    (some_buf : 0 < sts.num_bufs) where
  abbrev pub turn : ℕ → ℤ
  turn t = z.value m (at (row sts.S_int 0) t)

  abbrev pub Backlogged : ℕ → ℕ → Type 0
  Backlogged t l = Holds m (bit (row sts.B l) t)

  turn-IsNext :
      (t i : ℕ)
      → suc t < sts.timesteps
      → i < sts.num_bufs
      → turn t ≡ pos i
      → IsNext m (get_bits_at_i sts.B (suc t)) sts.num_bufs i 0 (turn (suc t))
  turn-IsNext t i b ib now =
      let (st, h) = base-step m round_robin sts tt base t b in
      let next =
        trs-IsNext m sts (get_bits_at_i sts.B t) (get_bufs_at_i sts.S_int t)
          (get_bits_at_i sts.B (t + 1)) (get_bufs_at_i sts.S_int (t + 1)) (t + 1) i ib h
          (rw (at-get_bufs sts.S_int t 0) now) in
      rw (at-get_bufs sts.S_int (t + 1) 0, add-one t) at next

  -- In a model of the base constraints of the round-robin scheduler with at least one buffer, the
  -- turn is the index of a buffer at every step.
  pub turn-IsBuffer : (t : ℕ) → t < sts.timesteps → (i : ℕ) × (i < sts.num_bufs) × (turn t ≡ pos i)
  turn-IsBuffer zero b =
      let starts = rw (at-get_bufs sts.S_int 0 0) at (
        (init_iff m sts (get_bits_at_i sts.B 0) (get_bufs_at_i sts.S_int 0)).0
          (base-init m round_robin sts tt base)) in
      elim (IsFirst-before m (get_bits_at_i sts.B 0) sts.num_bufs) [
        | inl (i, ib, f) ↦ (i, ib, starts.0 i ib f)
        | inr idle ↦ (0, some_buf, starts.1 idle)
      ]
  turn-IsBuffer (suc t) b =
      let (i, ib, now) = turn-IsBuffer t (omega arith) in
      elim (turn-IsNext t i b ib now) [
        | inl h ↦ ((i + h.dist) % sts.num_bufs, mod-lt _ some_buf, h.found)
        | inr h ↦ (i, ib, h.stays)
      ]

  near_or_far : (a b : ℕ) → (a ≤ b) ⊎ (b < a)
  near_or_far a b = ground arith

  -- The buffer at place `p` cannot be both backlogged and idle.
  not_idle :
      (t p l : ℕ) → p ≡ l → Backlogged t l → z.holds m (bit (get_bits_at_i sts.B t) p) ≡ false → ⊥
  not_idle t p l e busy idle = let off = rw (bit-get_bits sts.B t p, e) at idle in cc

  -- Each step towards a backlogged buffer `d` places on brings the turn nearer.
  turn_within :
      (fuel d t i l : ℕ)
      → d ≤ fuel
      → d < sts.num_bufs
      → t + d < sts.timesteps
      → i < sts.num_bufs
      → turn t ≡ pos i
      → (i + d) % sts.num_bufs ≡ l
      → ((s : ℕ) → t < s → s ≤ t + d → Backlogged s l)
      → (s : ℕ) × (s ≤ d) × (turn (t + s) ≡ pos l)
  turn_within fuel zero t i l f dn b ib now e busy =
      let p : i + 0 ≡ i = omega arith in
      let q : t + 0 ≡ t = omega arith in
      let same = rw (p, mod-eq_of_lt ib) at e in (0, omega arith, rw q (now ∙ ap pos same))
  turn_within zero (suc d) t i l f dn b ib now e busy = absurd (omega arith)
  turn_within (suc fuel) (suc d) t i l f dn b ib now e busy =
      elim (turn-IsNext t i (omega arith) ib now) [
        | inl h ↦ elim (near_or_far h.dist (suc d)) [
          | inl near ↦
              let sum_ : i + h.dist + (suc d - h.dist) ≡ i + suc d = omega arith in
              let e' = mod-add-mod (i + h.dist) sts.num_bufs (suc d - h.dist) ∙ rw sum_ e in
              let away = h.beyond in
              let (s, sb, found) =
                turn_within fuel (suc d - h.dist) (suc t) ((i + h.dist) % sts.num_bufs) l
                  (omega arith) (omega arith) (omega arith) (mod-lt _ some_buf) h.found e'
                  (λ s lo hi. busy s (omega arith) (omega arith)) in
              let later : t + suc s ≡ suc t + s = omega arith in
              (suc s, omega arith, rw later found)
          | inr far ↦ absurd (
              not_idle (suc t) ((i + suc d) % sts.num_bufs) l e
                (busy (suc t) (omega arith) (omega arith)) (h.first (suc d) (omega arith) far))
        ]
        | inr h ↦ absurd (
            not_idle (suc t) ((i + suc d) % sts.num_bufs) l e
              (busy (suc t) (omega arith) (omega arith)) (h.others_idle (suc d) (omega arith) dn))
      ]

  -- Every buffer is some number of places after every other.
  apart :
      (i l : ℕ)
      → i < sts.num_bufs
      → l < sts.num_bufs
      → (d : ℕ) × (d < sts.num_bufs) × ((i + d) % sts.num_bufs ≡ l)
  apart i l ib lb = elim (near_or_far i l) [
    | inl le ↦ let p : i + (l - i) ≡ l = omega arith in (l - i, omega arith, rw p (mod-eq_of_lt lb))
    | inr lt ↦
        let p : i + (l + sts.num_bufs - i) ≡ l + sts.num_bufs = omega arith in
        (l + sts.num_bufs - i, omega arith, rw p (add-mod_right l sts.num_bufs ∙ mod-eq_of_lt lb))
  ]

  pub turn_comes :
      (t l : ℕ)
      → l < sts.num_bufs
      → t + sts.num_bufs ≤ sts.timesteps
      → ((s : ℕ) → t < s → s < t + sts.num_bufs → Backlogged s l)
      → (s : ℕ) × (s < sts.num_bufs) × (turn (t + s) ≡ pos l)
  turn_comes t l lb b busy =
      let (i, ib, now) = turn-IsBuffer t (omega arith) in
      let (d, db, e) = apart i l ib lb in
      let (s, sb, found) =
        turn_within d d t i l (omega arith) db (omega arith) ib now e
          (λ s lo hi. busy s lo (omega arith)) in
      (s, omega arith, found)

  -- In the step of its turn a backlogged buffer serves one packet and all others none.
  turn-serves :
      (t l : ℕ)
      → t < sts.timesteps
      → l < sts.num_bufs
      → turn t ≡ pos l
      → Backlogged t l
      → z.value m (sum (row (row sts.O l) t)) ≡ pos 1
  turn-serves t l b lb now busy =
      let (st, h) = base-output m round_robin sts tt base t b in
      let serves = ((turn_served_iff m sts _ _ _ t).0 h l lb).0 in
      rw (row-get_buf_vec sts.O t l) at
        (serves (rw (bit-get_bits sts.B t l) busy, rw (at-get_bufs sts.S_int t 0) now))

  -- In a model of the base constraints of the round-robin scheduler with `n` buffers, a buffer
  -- that is backlogged in `n` steps in a row, within the time modelled, serves exactly one packet
  -- in one of them.
  pub served_in_round :
      (t l : ℕ)
      → l < sts.num_bufs
      → t + sts.num_bufs ≤ sts.timesteps
      → ((s : ℕ) → t ≤ s → s < t + sts.num_bufs → Backlogged s l)
      → (s : ℕ) × (s < sts.num_bufs) × (z.value m (sum (row (row sts.O l) (t + s))) ≡ pos 1)
  served_in_round t l lb b busy =
      let (s, sb, found) = turn_comes t l lb b (λ s lo hi. busy s (omega arith) hi) in
      (
        s,
        sb,
        turn-serves (t + s) l (omega arith) lb found (busy (t + s) (omega arith) (omega arith)),
      )
