-- ===== src/Vec.antt =====
-- src/lib.hpp and src/lib.cpp: vectors of expressions, their comparisons and sums, and constraints
-- with a name. An operation of two vectors runs over the left one's size, as the sources do; what
-- lies outside the right one is undefined.
pub mod Meaning
pub mod Choice
pub mod First
use count_buffy.Prelude.{
  ℕ, suc, ◌+◌, ◌-◌, Bool, true, List, [], ◌∷◌, ◌++◌, map, Text, ℤ, pos, length, get_or, loop, range,
}
use count_buffy.Z3.{Z3, ◌&&◌, num}

module _ ⦃z : Z3⦄ where
  -- `ev`, `ev2` and `ev3`, of integer and of Boolean sort.
  abbrev pub Ev : Type 0
  Ev = List z.IntExpr

  abbrev pub Ev2 : Type 0
  Ev2 = List Ev

  abbrev pub Ev3 : Type 0
  Ev3 = List Ev2

  abbrev pub Bv : Type 0
  Bv = List z.BoolExpr

  abbrev pub Bv2 : Type 0
  Bv2 = List Bv

  -- `v[i]`.
  abbrev pub at : Ev → ℕ → z.IntExpr
  at v i = get_or v i z.undefined_int

  abbrev pub bit : Bv → ℕ → z.BoolExpr
  bit v i = get_or v i z.undefined_bool

  -- `v[i]` of a vector of vectors.
  abbrev pub row {ℓ} : {A : Type ℓ} → List (List A) → ℕ → List A
  row v i = get_or v i []

  -- `get_buf_vec_at_i`: the entries at time `i`, over the buffers.
  unfoldable pub get_buf_vec_at_i : Ev3 → ℕ → Ev2
  get_buf_vec_at_i vvv i = map (λ vv. row vv i) vvv

  unfoldable pub get_bufs_at_i : Ev2 → ℕ → Ev
  get_bufs_at_i vv i = map (λ v. at v i) vv

  unfoldable pub get_bits_at_i : Bv2 → ℕ → Bv
  get_bits_at_i vv i = map (λ v. bit v i) vv

  unfoldable pub sum_to : Ev → ℕ → z.IntExpr
  sum_to v limit = loop (λ s i. z.add s (at v i)) (at v 0) (range 1 (limit + 1))

  unfoldable pub sum : Ev → z.IntExpr
  unfolding sum_to
  sum v = sum_to v (length v - 1)

  unfoldable pub sum_rows_between : Ev2 → ℕ → ℕ → z.IntExpr
  sum_rows_between vv from limit =
      loop (λ s i. z.add s (sum (row vv i))) (sum (row vv from)) (range (from + 1) (limit + 1))

  unfoldable pub sum_rows_to : Ev2 → ℕ → z.IntExpr
  sum_rows_to vv limit =
      loop (λ s i. z.add s (sum (row vv i))) (sum (row vv 0)) (range 1 (limit + 1))

  unfoldable pub sum_rows : Ev2 → z.IntExpr
  unfolding sum_rows_to
  sum_rows vv = sum_rows_to vv (length vv - 1)

  -- `v == n`, `<`, `<=`, `>` and `>=` against a number compare the sum.
  unfoldable pub sum_eq : Ev → ℤ → z.BoolExpr
  sum_eq v n = z.eq (sum v) (z.int_val n)

  unfoldable pub sum_lt : Ev → ℤ → z.BoolExpr
  sum_lt l n = z.lt (sum l) (z.int_val n)

  unfoldable pub sum_le : Ev → ℤ → z.BoolExpr
  sum_le l n = z.le (sum l) (z.int_val n)

  unfoldable pub sum_gt : Ev → ℤ → z.BoolExpr
  sum_gt l n = z.lt (z.int_val n) (sum l)

  unfoldable pub sum_ge : Ev → ℤ → z.BoolExpr
  sum_ge l n = z.le (z.int_val n) (sum l)

  -- `v == n` for a vector of numbers.
  unfoldable pub eq_ints : Ev → List ℤ → z.BoolExpr
  eq_ints v n =
      loop (λ result i. result && z.eq (at v i) (z.int_val (get_or n i (pos 0))))
        (z.eq (at v 0) (z.int_val (get_or n 0 (pos 0)))) (range 1 (length v))

  -- `l + r` and `l - r`, entry by entry.
  unfoldable pub add_vec : Ev → Ev → Ev
  add_vec l r = map (λ i. z.add (at l i) (at r i)) (range 0 (length l))

  unfoldable pub sub_vec : Ev → Ev → Ev
  sub_vec l r = map (λ i. z.sub (at l i) (at r i)) (range 0 (length l))

  unfoldable pub add_rows : Ev2 → Ev2 → Ev2
  add_rows l r = map (λ i. add_vec (row l i) (row r i)) (range 0 (length l))

  -- `l == r`, `l < r` and `l <= r`: every entry.
  unfoldable pub eq_vec : Ev → Ev → z.BoolExpr
  eq_vec l r =
      loop (λ result i. result && z.eq (at l i) (at r i)) (z.eq (at l 0) (at r 0))
        (range 1 (length l))

  unfoldable pub lt_vec : Ev → Ev → z.BoolExpr
  lt_vec l r =
      loop (λ result i. result && z.lt (at l i) (at r i)) (z.lt (at l 0) (at r 0))
        (range 1 (length l))

  unfoldable pub le_vec : Ev → Ev → z.BoolExpr
  le_vec l r =
      loop (λ result i. result && z.le (at l i) (at r i)) (z.le (at l 0) (at r 0))
        (range 1 (length l))

  unfoldable pub eq_rows : Ev2 → Ev2 → z.BoolExpr
  eq_rows l r =
      loop (λ res i. res && eq_vec (row l i) (row r i)) (eq_vec (row l 0) (row r 0))
        (range 1 (length l))
