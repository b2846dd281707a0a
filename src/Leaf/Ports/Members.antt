-- ===== src/Leaf/Ports/Members.antt =====
-- Membership in the lists of packet types, as `fix` and `update_ports` build them
-- (src/leaf_spine/leaf_utils.cpp).

use count_buffy.Prelude.{
  ℕ, zero, suc, ◌+◌, ◌≤◌, ◌<◌, ◌≡◌, refl, sym, ap, ◌∙◌, subst, ◌↔◌, ◌⊎◌, inl, inr, Bool, true,
  nat_key, List, [], ◌∷◌, ◌++◌, map, arith, Bool-cases, at_or_after, range_from, ◌==◌,
}
use count_buffy.Leaf.Ports.{add_types}
use count_buffy.Prelude.{contains_number, add_once, ==_iff}

abbrev pub Has : List ℕ → ℕ → Type 0
Has xs n = contains_number xs n ≡ true

pub Has-cons : (x n : ℕ) (xs : List ℕ) → Has (x ∷ xs) n ↔ ((x ≡ n) ⊎ Has xs n)
Has-cons x n xs = elim (Bool-cases (x == n)) [
  | inl same ↦ (λ _. inl ((==_iff x n).0 same), λ _. rw same refl)
  | inr other ↦ (
    λ h. inr (rw other at h),
    λ h. elim h [ inl e ↦ let same = (==_iff x n).1 e in cc | inr rest ↦ rw other rest ],
  )
]

pub Has-append : (xs ys : List ℕ) (n : ℕ) → Has (xs ++ ys) n ↔ (Has xs n ⊎ Has ys n)
Has-append [] ys n = (λ h. inr h, λ h. elim h [ inl none_ ↦ cc | inr rest ↦ rest ])
Has-append (x ∷ xs) ys n =
    let rest = Has-append xs ys n in
    let here = Has-cons x n (xs ++ ys) in
    let first = Has-cons x n xs in
    (
      λ h. elim (here.0 h) [
        | inl e ↦ inl (first.1 (inl e))
        | inr r ↦ elim (rest.0 r) [ inl l ↦ inl (first.1 (inr l)) | inr r ↦ inr r ]
      ],
      λ h. elim h [
        | inl l ↦ elim (first.0 l) [
          | inl e ↦ here.1 (inl e)
          | inr l ↦ here.1 (inr (rest.1 (inl l)))
        ]
        | inr r ↦ here.1 (inr (rest.1 (inr r)))
      ],
    )

pub Has-add_once : (xs : List ℕ) (k n : ℕ) → Has (add_once xs k) n ↔ (Has xs n ⊎ (k ≡ n))
Has-add_once xs k n = elim (Bool-cases (contains_number xs k)) [
  | inl old ↦ rw old (λ h. inl h, λ h. elim h [ inl h ↦ h | inr e ↦ subst (Has xs) e old ])
  | inr new ↦
      let both = Has-append xs (k ∷ []) n in
      let one = Has-cons k n [] in
      rw new (
        λ h. elim (both.0 h) [
          | inl l ↦ inl l
          | inr r ↦ elim (one.0 r) [ inl e ↦ inr e | inr none_ ↦ cc ]
        ],
        λ h. elim h [ inl l ↦ both.1 (inl l) | inr e ↦ both.1 (inr (one.1 (inl e))) ],
      )
]

pub Has-add_types :
    (test : ℕ → Bool) (ks p : List ℕ) (n : ℕ)
    → Has (add_types test p ks) n ↔ (Has p n ⊎ (Has ks n × (test n ≡ true)))
unfolding add_types
Has-add_types test [] p n = (λ h. inl h, λ h. elim h [ inl h ↦ h | inr (none_, t) ↦ cc ])
Has-add_types test (k ∷ ks) p n = elim (Bool-cases (test k)) [
  | inl on ↦
      let rest = Has-add_types test ks (add_once p k) n in
      let one = Has-add_once p k n in
      let cons = Has-cons k n ks in
      rw on (
        λ h. elim (rest.0 h) [
          | inl l ↦ elim (one.0 l) [
            | inl old ↦ inl old
            | inr e ↦ inr (cons.1 (inl e), subst (λ n. test n ≡ true) e on)
          ]
          | inr (r, t) ↦ inr (cons.1 (inr r), t)
        ],
        λ h. elim h [
          | inl old ↦ rest.1 (inl (one.1 (inl old)))
          | inr (r, t) ↦ elim (cons.0 r) [
            | inl e ↦ rest.1 (inl (one.1 (inr e)))
            | inr r ↦ rest.1 (inr (r, t))
          ]
        ],
      )
  | inr off ↦
      let rest = Has-add_types test ks p n in
      let cons = Has-cons k n ks in
      rw off (
        λ h. elim (rest.0 h) [ inl l ↦ inl l | inr (r, t) ↦ inr (cons.1 (inr r), t) ],
        λ h. elim h [
          | inl old ↦ rest.1 (inl old)
          | inr (r, t) ↦ elim (cons.0 r) [
            | inl e ↦ let t' = subst (λ n. test n ≡ true) (sym e) t in cc
            | inr r ↦ rest.1 (inr (r, t))
          ]
        ],
      )
]

pub Has-range_from : (a n k : ℕ) → Has (range_from a n) k ↔ ((a ≤ k) × (k < a + n))
Has-range_from a zero k = (λ h. cc, λ h. absurd (omega arith))
Has-range_from a (suc n) k =
    let rest = Has-range_from (suc a) n k in
    let cons = Has-cons a k (range_from (suc a) n) in
    (
      λ h. elim (cons.0 h) [
        | inl e ↦ (omega arith, omega arith)
        | inr r ↦ let both = rest.0 r in (omega arith, omega arith)
      ],
      λ (lo, hi). elim (at_or_after a k lo) [
        | inl same ↦ cons.1 (inl same)
        | inr more ↦ cons.1 (inr (rest.1 (more, omega arith)))
      ],
    )

-- Some number of a list.
abbrev pub Some : (ℕ → Type 0) → List ℕ → Type 0
Some P xs = (x : ℕ) × Has xs x × P x

pub Has-map : (f : ℕ → ℕ) (xs : List ℕ) (n : ℕ) → Has (map f xs) n ↔ Some (λ x. f x ≡ n) xs
Has-map f [] n = (λ h. cc, λ (x, h, e). cc)
Has-map f (x ∷ xs) n =
    let rest = Has-map f xs n in
    let cons = Has-cons (f x) n (map f xs) in
    (
      λ h. elim (cons.0 h) [
        | inl e ↦ (x, (Has-cons x x xs).1 (inl refl), e)
        | inr r ↦ let (y, h', e) = rest.0 r in (y, (Has-cons x y xs).1 (inr h'), e)
      ],
      λ (y, h, e). elim ((Has-cons x y xs).0 h) [
        | inl same ↦ cons.1 (inl (ap f same ∙ e))
        | inr r ↦ cons.1 (inr (rest.1 (y, r, e)))
      ],
    )
