-- ===== src/Buffer.antt =====
-- What a buffer of the program promises, independently of the constraints: a queue of at most `c`
-- packets of several types, which takes arriving packets while it has room and drops the others, and
-- from which packets leave. It is the specification that the constraints of src/sts_checker.cpp are
-- proved against.
pub mod Laws
pub mod Store
use count_buffy.Prelude.{
  ℕ, zero, suc, ◌+◌, ◌-◌, ◌≤◌, ◌<◌, ◌≡◌, Bool, ℤ, pos, pos_part, ◌+ℤ◌, ◌-ℤ◌, ◌≤ℤ◌, min, ltb, total,
}

-- A history: at each time and for each packet type, what arrives, enters, is dropped and leaves, and
-- what is then held; and whether the buffer has packets to serve.
pub record Trace : Type 0 where
  pub arrived : ℕ → ℕ → ℤ
  pub enqueued : ℕ → ℕ → ℤ
  pub dropped : ℕ → ℕ → ℤ
  pub left : ℕ → ℕ → ℤ
  pub held : ℕ → ℕ → ℤ
  pub busy : ℕ → Bool

-- What is held before the packets of step `t` arrive; the buffer starts empty.
unfoldable pub before : Trace → ℕ → ℕ → ℤ
before trace zero p = pos 0
before trace (suc t) p = trace.held t p

-- Room for `c` packets, `held` of them taken, and `arriving` new ones: how many enter.
unfoldable pub taken : ℕ → ℕ → ℕ → ℕ
taken c held arriving = min arriving (c - held)

-- The packets of all `k` types.
unfoldable pub amount : ℕ → (ℕ → ℤ) → ℕ
amount k f = pos_part (total k f)

-- Step `t` of a run: no packet changes its type or is lost, as many enter as fit, the others are
-- dropped, and the buffer is busy when it holds a packet.
pub record IsStep (c k : ℕ) (trace : Trace) (t : ℕ) : Type 0 where
  pub splits : (p : ℕ) → p < k → trace.arrived t p ≡ trace.enqueued t p +ℤ trace.dropped t p
  pub moves :
      (p : ℕ) → p < k → trace.held t p ≡ before trace t p +ℤ trace.enqueued t p -ℤ trace.left t p
  pub admits :
      amount k (trace.enqueued t) ≡ taken c (amount k (before trace t)) (amount k (trace.arrived t))
  pub fits : amount k (before trace t) ≤ c
  pub serves : trace.busy t ≡ ltb 0 (amount k (before trace t) + amount k (trace.enqueued t))

abbrev pub IsRun : ℕ → ℕ → ℕ → Trace → Type 0
IsRun c k steps trace = (t : ℕ) → t < steps → IsStep c k trace t

-- No quantity is negative.
pub record IsCounted (k steps : ℕ) (trace : Trace) : Type 0 where
  pub arrived_nonneg : (t p : ℕ) → t < steps → p < k → pos 0 ≤ℤ trace.arrived t p
  pub enqueued_nonneg : (t p : ℕ) → t < steps → p < k → pos 0 ≤ℤ trace.enqueued t p
  pub dropped_nonneg : (t p : ℕ) → t < steps → p < k → pos 0 ≤ℤ trace.dropped t p
  pub left_nonneg : (t p : ℕ) → t < steps → p < k → pos 0 ≤ℤ trace.left t p
  pub held_nonneg : (t p : ℕ) → t < steps → p < k → pos 0 ≤ℤ trace.held t p
