-- ===== src/Vec/Meaning.antt =====
-- What the operations on vectors of src/lib.cpp mean in a model, entry by entry.
use count_buffy.Prelude.{
  total-add, total_congr, total, ℕ, zero, suc, ◌+◌, ◌-◌, ◌≤◌, ◌<◌, ◌≡◌, refl, sym, ◌↔◌, map, ℤ,
  ◌+ℤ◌, ◌-ℤ◌, ◌≤ℤ◌, zero-+ℤ, length, get_or, loop, range, range_from, arith, ap, ◌∙◌,
}
use count_buffy.Z3.{Z3, Holds, conj_loop_iff, eq_iff, le_iff, lt_iff}
use count_buffy.Vec.{
  Ev2, row, sum_rows, sum_rows_to, Ev, at, sum_to, sum, sum_eq, sum_le, sum_ge, sum_gt, sum_lt,
  add_vec, sub_vec, eq_vec, le_vec,
}

get_or-map_range :
    {A : Type 0} (f : ℕ → A) (d : A) (a n i : ℕ)
    → i < n
    → get_or (map f (range_from a n)) i d ≡ f (a + i)
get_or-map_range f d a zero i h = absurd (omega arith)
get_or-map_range f d a (suc n) zero h = ap f (omega arith)
get_or-map_range f d a (suc n) (suc i) h =
    get_or-map_range f d (suc a) n i (omega arith) ∙ ap f (omega arith)

-- An entry of a vector that a loop over all indices fills.
pub get_or-map_all :
    {A : Type 0} (f : ℕ → A) (d : A) (n i : ℕ) → i < n → get_or (map f (range 0 n)) i d ≡ f i
get_or-map_all f d n i h =
    get_or-map_range f d 0 (n - 0) i (omega arith) ∙ ap f {y = i} (omega arith)

length-map_range : {A : Type 0} (f : ℕ → A) (a n : ℕ) → length (map f (range_from a n)) ≡ n
length-map_range f a zero = refl
length-map_range f a (suc n) = ap suc (length-map_range f (suc a) n)

-- All of 0, …, n - 1, where the loop starts with 0 on its own.
pub from_one :
    (P : ℕ → Type 0) (n : ℕ)
    → 0 < n
    → (P 0 × ((i : ℕ) → 1 ≤ i → i < n → P i)) ↔ ((i : ℕ) → i < n → P i)
from_one P n some_p = (up, λ h. (h 0 some_p, λ i lo hi. h i hi))
  where
    up : P 0 × ((i : ℕ) → 1 ≤ i → i < n → P i) → (i : ℕ) → i < n → P i
    up h zero b = h.0
    up h (suc i) b = h.1 (suc i) (omega arith) b

module _ ⦃z : Z3⦄ (m : z.Model) where
  -- The value of an entry.
  abbrev pub val : Ev → ℕ → ℤ
  val v p = z.value m (at v p)

  sum_rounds :
      (f : ℕ → z.IntExpr) (a n : ℕ) (s : z.IntExpr)
      → z.value m s ≡ total a (λ i. z.value m (f i))
      → z.value m (loop (λ s i. z.add s (f i)) s (range_from a n))
        ≡ total (a + n) (λ i. z.value m (f i))
  unfolding total
  sum_rounds f a zero s h =
      h ∙ ap (λ k. total k (λ i. z.value m (f i))) {y = a + zero} (omega arith)
  sum_rounds f a (suc n) s h =
      sum_rounds f (suc a) n (z.add s (f a))
        (z.value-add m s (f a) ∙ ap (λ t. t +ℤ z.value m (f a)) h)
      ∙ ap (λ k. total k (λ i. z.value m (f i))) {y = a + suc n} (omega arith)

  -- A sum that starts with the first term and adds those from 1 to `limit`.
  sum_loop :
      (f : ℕ → z.IntExpr) (limit : ℕ)
      → z.value m (loop (λ s i. z.add s (f i)) (f 0) (range 1 (limit + 1)))
        ≡ total (suc limit) (λ i. z.value m (f i))
  unfolding total
  sum_loop f limit =
      sum_rounds f 1 (limit + 1 - 1) (f 0) (sym (zero-+ℤ (z.value m (f 0))))
      ∙ ap (λ k. total k (λ i. z.value m (f i))) {y = suc limit} (omega arith)

  pub value-sum_to : (v : Ev) (limit : ℕ) → z.value m (sum_to v limit) ≡ total (suc limit) (val v)
  unfolding sum_to
  value-sum_to v limit = sum_loop (at v) limit

  pub value-sum_rows_to :
      (vv : Ev2) (limit : ℕ)
      → z.value m (sum_rows_to vv limit) ≡ total (suc limit) (λ t. z.value m (sum (row vv t)))
  unfolding sum_rows_to
  value-sum_rows_to vv limit = sum_loop (λ t. sum (row vv t)) limit

  pub value-sum_rows :
      (vv : Ev2) (n : ℕ)
      → length vv ≡ suc n
      → z.value m (sum_rows vv) ≡ total (suc n) (λ t. z.value m (sum (row vv t)))
  unfolding sum_rows
  value-sum_rows vv n e =
      value-sum_rows_to vv (length vv - 1)
      ∙ ap (λ k. total k (λ t. z.value m (sum (row vv t)))) {y = suc n} (omega arith)

  pub value-sum : (v : Ev) (n : ℕ) → length v ≡ suc n → z.value m (sum v) ≡ total (suc n) (val v)
  unfolding sum
  value-sum v n e =
      value-sum_to v (length v - 1) ∙ ap (λ k. total k (val v)) {y = suc n} (omega arith)

  pub val-add_vec : (l r : Ev) (p : ℕ) → p < length l → val (add_vec l r) p ≡ val l p +ℤ val r p
  unfolding add_vec
  val-add_vec l r p h =
      ap (z.value m) (get_or-map_all (λ i. z.add (at l i) (at r i)) z.undefined_int (length l) p h)
      ∙ z.value-add m (at l p) (at r p)

  pub val-sub_vec : (l r : Ev) (p : ℕ) → p < length l → val (sub_vec l r) p ≡ val l p -ℤ val r p
  unfolding sub_vec
  val-sub_vec l r p h =
      ap (z.value m) (get_or-map_all (λ i. z.sub (at l i) (at r i)) z.undefined_int (length l) p h)
      ∙ z.value-sub m (at l p) (at r p)

  pub eq_vec_iff :
      (l r : Ev)
      → 0 < length l
      → Holds m (eq_vec l r) ↔ ((p : ℕ) → p < length l → val l p ≡ val r p)
  unfolding eq_vec
  eq_vec_iff l r h =
      let rounds =
        conj_loop_iff m (λ i. z.eq (at l i) (at r i)) (z.eq (at l 0) (at r 0)) 1 (length l) in
      let all = from_one (λ i. Holds m (z.eq (at l i) (at r i))) (length l) h in
      (
        λ k p b. (eq_iff m (at l p) (at r p)).0 (all.0 (rounds.0 k) p b),
        λ k. rounds.1 (all.1 (λ p b. (eq_iff m (at l p) (at r p)).1 (k p b))),
      )

  pub le_vec_iff :
      (l r : Ev)
      → 0 < length l
      → Holds m (le_vec l r) ↔ ((p : ℕ) → p < length l → val l p ≤ℤ val r p)
  unfolding le_vec
  le_vec_iff l r h =
      let rounds =
        conj_loop_iff m (λ i. z.le (at l i) (at r i)) (z.le (at l 0) (at r 0)) 1 (length l) in
      let all = from_one (λ i. Holds m (z.le (at l i) (at r i))) (length l) h in
      (
        λ k p b. (le_iff m (at l p) (at r p)).0 (all.0 (rounds.0 k) p b),
        λ k. rounds.1 (all.1 (λ p b. (le_iff m (at l p) (at r p)).1 (k p b))),
      )

  pub eq_vec_sized :
      (l r : Ev) (k : ℕ)
      → length l ≡ suc k
      → Holds m (eq_vec l r) ↔ ((p : ℕ) → p < suc k → val l p ≡ val r p)
  eq_vec_sized l r k e =
      let h = eq_vec_iff l r (omega arith) in
      (λ a p b. h.0 a p (omega arith), λ a. h.1 (λ p b. a p (omega arith)))

  pub le_vec_sized :
      (l r : Ev) (k : ℕ)
      → length l ≡ suc k
      → Holds m (le_vec l r) ↔ ((p : ℕ) → p < suc k → val l p ≤ℤ val r p)
  le_vec_sized l r k e =
      let h = le_vec_iff l r (omega arith) in
      (λ a p b. h.0 a p (omega arith), λ a. h.1 (λ p b. a p (omega arith)))

  pub total-add_vec :
      (l r : Ev) (k : ℕ)
      → length l ≡ k
      → total k (val (add_vec l r)) ≡ total k (val l) +ℤ total k (val r)
  total-add_vec l r k e =
      total_congr k (val (add_vec l r)) (λ p. val l p +ℤ val r p)
        (λ p b. val-add_vec l r p (omega arith))
      ∙ total-add k (val l) (val r)

  -- Comparisons of a sum with a number.
  pub sum_eq_iff :
      (v : Ev) (k : ℕ) (n : ℤ)
      → length v ≡ suc k
      → Holds m (sum_eq v n) ↔ (total (suc k) (val v) ≡ n)
  unfolding sum_eq
  sum_eq_iff v k n e = rw (value-sum v k e, z.value-int_val m n) at (eq_iff m (sum v) (z.int_val n))

  pub sum_le_iff :
      (v : Ev) (k : ℕ) (n : ℤ)
      → length v ≡ suc k
      → Holds m (sum_le v n) ↔ (total (suc k) (val v) ≤ℤ n)
  unfolding sum_le
  sum_le_iff v k n e = rw (value-sum v k e, z.value-int_val m n) at (le_iff m (sum v) (z.int_val n))

  pub sum_ge_iff :
      (v : Ev) (k : ℕ) (n : ℤ)
      → length v ≡ suc k
      → Holds m (sum_ge v n) ↔ (n ≤ℤ total (suc k) (val v))
  unfolding sum_ge
  sum_ge_iff v k n e = rw (value-sum v k e, z.value-int_val m n) at (le_iff m (z.int_val n) (sum v))

  pub sum_gt_iff :
      (v : Ev) (k : ℕ) (n : ℤ)
      → length v ≡ suc k
      → Holds m (sum_gt v n) ↔ (¬ (total (suc k) (val v) ≤ℤ n))
  unfolding sum_gt
  sum_gt_iff v k n e = rw (value-sum v k e, z.value-int_val m n) at (lt_iff m (z.int_val n) (sum v))

  pub sum_lt_iff :
      (v : Ev) (k : ℕ) (n : ℤ)
      → length v ≡ suc k
      → Holds m (sum_lt v n) ↔ (¬ (n ≤ℤ total (suc k) (val v)))
  unfolding sum_lt
  sum_lt_iff v k n e = rw (value-sum v k e, z.value-int_val m n) at (lt_iff m (sum v) (z.int_val n))

pub length-add_vec : ⦃z : Z3⦄ (l r : Ev) → length (add_vec l r) ≡ length l
unfolding add_vec
length-add_vec l r = length-map_range _ 0 (length l - 0) ∙ omega arith

pub length-sub_vec : ⦃z : Z3⦄ (l r : Ev) → length (sub_vec l r) ≡ length l
unfolding sub_vec
length-sub_vec l r = length-map_range _ 0 (length l - 0) ∙ omega arith
