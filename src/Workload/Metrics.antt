-- ===== src/Workload/Metrics.antt =====
-- What a line of a workload asks of the inputs.
use count_buffy.Vec.Choice.{true_not_false}
use count_buffy.Workload.{and_then}
use count_buffy.NamedExp.{named}
use count_buffy.Workload.{cenq_name}
use count_buffy.Vec.{Ev2, at, row}
use count_buffy.Z3.{num}
use count_buffy.Prelude.{
  get_or-map_in, pos, +ℤ-zero, loop, map, [], ◌∷◌, length, total_first, +ℤ_assoc, zero-+ℤ, codes,
  ap, sym, ◌∙◌, ◌==◌, true, false, ◌*◌, All-range_iff, range, ◌+◌, ℕ, zero, suc, ◌-◌, ◌≤◌, ◌<◌, ◌≡◌,
  refl, ◌↔◌, inl, inr, List, arith, ℤ, ◌+ℤ◌, ◌≤ℤ◌, Bool-cases, All, total, Text,
}
use count_buffy.Z3.{Z3, Holds, neg_iff, eq_iff}
use count_buffy.Vec.{Ev}
use count_buffy.NamedExp.{NamedExp, Sat}
use count_buffy.Workload.{
  Extractor, binop, cenq_rounds, get_cenqs_for_buff, bound_at, cenq_sum, over_interval, each_time,
  name_it, parse_cenq,
}
use count_buffy.Solver.{Outcome, returns}
use count_buffy.Z3.{le_iff, lt_iff}
use count_buffy.Vec.Meaning.{val}

-- The comparisons of the workload language.
pub data Comparison : Type 0 where
  less at_most more at_least equal unequal : Comparison

abbrev pub spelling : Comparison → Text
spelling less = codes "<"
spelling at_most = codes "<="
spelling more = codes ">"
spelling at_least = codes ">="
spelling equal = codes "=="
spelling unequal = codes "!="

abbrev pub Compares : Comparison → ℤ → ℤ → Type 0
Compares less a b = ¬ (b ≤ℤ a)
Compares at_most a b = a ≤ℤ b
Compares more a b = ¬ (a ≤ℤ b)
Compares at_least a b = b ≤ℤ a
Compares equal a b = a ≡ b
Compares unequal a b = ¬ (a ≡ b)

module _ ⦃z : Z3⦄ (m : z.Model) where
  neg_eq_iff : (l r : z.IntExpr) → Holds m (z.neg (z.eq l r)) ↔ (¬ (z.value m l ≡ z.value m r))
  neg_eq_iff l r =
      let same = eq_iff m l r in
      let off = neg_iff m (z.eq l r) in
      elim (Bool-cases (z.holds m (z.eq l r))) [
        | inl t ↦ (λ h. absurd (true_not_false m t (off.0 h)), λ h. absurd (h (same.0 t)))
        | inr f ↦ (λ h e. true_not_false m (same.1 e) f, λ h. off.1 f)
      ]

  -- For each of the six comparisons of the workload language `binop` returns an expression, and
  -- it holds in a model exactly when the values of the two sides compare so.
  pub binop_iff :
      (c : Comparison) (l r : z.IntExpr)
      → (e : z.BoolExpr) × (binop l (spelling c) r ≡ returns e)
        × (Holds m e ↔ Compares c (z.value m l) (z.value m r))
  unfolding binop
  binop_iff less l r = (_, refl, lt_iff m l r)
  binop_iff at_most l r = (_, refl, le_iff m l r)
  binop_iff more l r = (_, refl, lt_iff m r l)
  binop_iff at_least l r = (_, refl, le_iff m r l)
  binop_iff equal l r = (_, refl, eq_iff m l r)
  binop_iff unequal l r = (_, refl, neg_eq_iff l r)

  cenq_rounds-val :
      (it : Ev) (cenq : z.IntExpr) (j : ℕ)
      → j < length it
      → val m (cenq_rounds cenq it) j ≡ z.value m cenq +ℤ total (suc j) (val m it)
  unfolding cenq_rounds total
  cenq_rounds-val [] cenq j b = absurd (omega arith)
  cenq_rounds-val (x ∷ it) cenq zero b =
      z.value-add m cenq x ∙ ap (λ n. z.value m cenq +ℤ n) (sym (zero-+ℤ (z.value m x)))
  cenq_rounds-val (x ∷ it) cenq (suc j) b =
      cenq_rounds-val it (z.add cenq x) j (omega arith)
      ∙ rw (z.value-add m cenq x, total_first (suc j) (val m (x ∷ it)))
          (+ℤ_assoc (z.value m cenq) (z.value m x) (total (suc j) (val m it)))

  -- The number of packets that arrived in the first `j + 1` steps.
  pub cenqs-total :
      (it : Ev) (j : ℕ) → j < length it → val m (get_cenqs_for_buff it) j ≡ total (suc j) (val m it)
  unfolding get_cenqs_for_buff total
  cenqs-total [] j b = absurd (omega arith)
  cenqs-total (x ∷ it) zero b = sym (zero-+ℤ (z.value m x))
  cenqs-total (x ∷ it) (suc j) b =
      cenq_rounds-val it x j (omega arith) ∙ sym (total_first (suc j) (val m (x ∷ it)))

  each_time_iff :
      (f : ℕ → Outcome NamedExp) (P : ℕ → Type 0)
      → ((t : ℕ) → (ne : NamedExp) × (f t ≡ returns ne) × (Holds m ne.e ↔ P t))
      → (ts : List ℕ)
      → (nes : List NamedExp) × (each_time f ts ≡ returns nes) × (Sat m nes ↔ All P ts)
  unfolding each_time and_then
  each_time_iff f P h [] = ([], refl, (λ h. h, λ h. h))
  each_time_iff f P h (t ∷ ts) =
      let (ne, e, here) = h t in
      let (nes, es, rest) = each_time_iff f P h ts in
      (ne ∷ nes, rw (e, es) refl, (λ h. (here.0 h.0, rest.0 h.1), λ h. (here.1 h.0, rest.1 h.1)))

  -- One round of `parse_cenq`.
  named_round :
      (c : Comparison) (op name : Text) (l r : z.IntExpr)
      → op ≡ spelling c
      → (ne : NamedExp) × (name_it name (binop l op r) ≡ returns ne)
        × (Holds m ne.e ↔ Compares c (z.value m l) (z.value m r))
  unfolding name_it
  named_round c op name l r e =
      let (x, ok, means) = binop_iff c l r in
      (named x name, ap (name_it name) (ap (λ o. binop l o r) e ∙ ok), means)

  -- What a right side asks of a sum at time `t`: to compare with the number, times `t` where the line
  -- has a factor `t`.
  abbrev pub ComparesAt : Extractor → Comparison → ℤ → ℕ → Type 0
  ComparesAt ex c sum t =
      (ex.rhs_linear ≡ true → Compares c sum (pos (ex.rhs * t)))
      × (ex.rhs_linear ≡ false → Compares c sum (pos ex.rhs))

  bound_at-Compares :
      (ex : Extractor) (c : Comparison) (sum : ℤ) (t : ℕ)
      → Compares c sum (z.value m (bound_at ex t)) ↔ ComparesAt ex c sum t
  unfolding bound_at
  bound_at-Compares ex c sum t = elim (Bool-cases ex.rhs_linear) [
    | inl linear ↦
        rw (linear, z.value-int_val m (pos (ex.rhs * t)))
          (λ h. (λ _. h, λ no. absurd cc), λ h. h.0 refl)
    | inr constant ↦
        rw (constant, z.value-int_val m (pos ex.rhs))
          (λ h. (λ no. absurd cc, λ _. h), λ h. h.1 refl)
  ]

  -- For a comparison of the workload language and an interval that begins after 0, `parse_cenq`
  -- returns constraints, and a model satisfies them exactly when at every time `t` of the
  -- interval the sum for the listed buffers compares so with the number on the right side, times
  -- `t` when the right side is linear.
  pub parse_cenq_iff :
      (ex : Extractor) (c : Comparison)
      → ex.op ≡ spelling c
      → 0 < ex.begin
      → (nes : List NamedExp) × (parse_cenq ex ≡ returns nes)
        × (Sat m nes ↔ (
            (t : ℕ)
            → ex.begin ≤ t
            → t ≤ ex.end
            → (ex.rhs_linear ≡ true
                → Compares c (z.value m (cenq_sum ex (t - 1))) (pos (ex.rhs * t)))
              × (ex.rhs_linear ≡ false
                  → Compares c (z.value m (cenq_sum ex (t - 1))) (pos ex.rhs))))
  unfolding parse_cenq over_interval name_it
  parse_cenq_iff ex c e b =
      let P = λ (t : ℕ). Compares c (z.value m (cenq_sum ex (t - 1))) (z.value m (bound_at ex t)) in
      let (nes, all, means) =
        each_time_iff
          (λ t. name_it (cenq_name ex t) (binop (cenq_sum ex (t - 1)) ex.op (bound_at ex t))) P
          (λ t. named_round c ex.op (cenq_name ex t) (cenq_sum ex (t - 1)) (bound_at ex t) e)
          (range ex.begin (ex.end + 1)) in
      let started : (ex.begin == 0) ≡ false = ground arith in
      let each = All-range_iff P ex.begin (ex.end + 1) in
      let right = λ (t : ℕ). bound_at-Compares ex c (z.value m (cenq_sum ex (t - 1))) t in
      (
        nes,
        rw started all,
        (
          λ h t lo hi. (right t).0 (each.0 (means.0 h) t lo (omega arith)),
          λ h. means.1 (each.1 (λ t lo hi. (right t).1 (h t lo (omega arith)))),
        ),
      )

  -- The packets that arrived at the listed buffers up to step `j`.
  abbrev pub arrivals : Ev2 → ℕ → List ℕ → ℤ
  arrivals it j [] = pos 0
  arrivals it j (i ∷ is) = total (suc j) (val m (row it i)) +ℤ arrivals it j is

  cenq_sum_from :
      (it : Ev2) (j : ℕ) (is : List ℕ) (s : z.IntExpr)
      → All (λ i. (i < length it) × (j < length (row it i))) is
      → z.value m (loop (λ s i. z.add s (at (row (map get_cenqs_for_buff it) i) j)) s is)
        ≡ z.value m s +ℤ arrivals it j is
  cenq_sum_from it j [] s h = sym (+ℤ-zero (z.value m s))
  cenq_sum_from it j (i ∷ is) s h =
      let here =
        ap (λ v. val m v j) (get_or-map_in get_cenqs_for_buff it i [] [] h.0.0)
        ∙ cenqs-total (row it i) j h.0.1 in
      cenq_sum_from it j is (z.add s (at (row (map get_cenqs_for_buff it) i) j)) h.1
      ∙ rw (z.value-add m s (at (row (map get_cenqs_for_buff it) i) j), here)
          (+ℤ_assoc (z.value m s) (total (suc j) (val m (row it i))) (arrivals it j is))

  -- The sum that a `cenq` constraint compares is the number of packets that arrived at the listed
  -- buffers up to that step, when the buffers and the step are in range and the table is the
  -- constructor's.
  pub cenq_sum-arrivals :
      (ex : Extractor) (j : ℕ)
      → ex.cenqs ≡ map get_cenqs_for_buff ex.it
      → All (λ i. (i < length ex.it) × (j < length (row ex.it i))) ex.tmp_ids
      → z.value m (cenq_sum ex j) ≡ arrivals ex.it j ex.tmp_ids
  unfolding cenq_sum
  cenq_sum-arrivals ex j e h =
      rw (e, cenq_sum_from ex.it j ex.tmp_ids (num 0) h, z.value-int_val m (pos 0))
        (zero-+ℤ (arrivals ex.it j ex.tmp_ids))
