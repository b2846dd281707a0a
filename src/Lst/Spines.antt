-- ===== src/Lst/Spines.antt =====
-- The ports of a spine carry the packet types that its next hops and the paths call for.

use count_buffy.Prelude.{
  ℕ, zero, suc, ◌+◌, ◌-◌, ◌*◌, ◌/◌, ◌%◌, ◌≤◌, ◌<◌, ◌≡◌, ◌≢◌, refl, sym, ap, ◌∙◌, ◌↔◌, ◌⊎◌, inl, inr,
  List, [], map, arith, Bool-cases, at_or_after, range, range_from, loop, ◌==◌, ==_iff,
  if◌then◌else◌, pair_key, find_or, assign, find_or-assign,
}
use count_buffy.Leaf.Ports.{PortTypes}
use count_buffy.Leaf.Ports.Members.{Has, Has-map, Has-range_from}
use count_buffy.Lst.Topology.{get_spine_port_map, spine_hop}
use native.Mathlib.Nat.{mod-lt, div-add-mod, le-div_iff_mul-le, div-lt_iff_lt-mul}

div_iff : {n : ℕ} → 0 < n → (x q : ℕ) → (x / n ≡ q) ↔ ((q * n ≤ x) × (x < (q + 1) * n))
div_iff {n} some x q =
    let low = le-div_iff_mul-le {x = q} {y = x} some in
    let high = div-lt_iff_lt-mul {x = x} {y = q + 1} some in
    (
      λ e. (low.0 (omega arith), high.0 (omega arith)),
      λ (a, b). let a' = low.1 a in let b' = high.1 b in omega arith,
    )

module _ (leafs hosts s : ℕ) where
  -- What `get_spine_port_map` writes for the second port `j`.
  abbrev types_to : ℕ → List ℕ
  types_to j = map (λ k. s * (hosts * leafs) + (hosts * j + k)) (range 0 hosts)

  abbrev write : ℕ → PortTypes → ℕ → PortTypes
  write i ports j = if i == j then ports else assign (i, j) (types_to j) ports

  abbrev read : PortTypes → ℕ → ℕ → List ℕ
  read ports p q = find_or ports (p, q) []

  read-write :
      (ports : PortTypes) (i j p q : ℕ)
      → ((p ≡ i) × (q ≡ j) × (i ≢ j) × (read (write i ports j) p q ≡ types_to q))
        ⊎ ((¬ ((p ≡ i) × (q ≡ j) × (i ≢ j))) × (read (write i ports j) p q ≡ read ports p q))
  read-write ports i j p q =
      let law = find_or-assign ports (i, j) (p, q) (types_to j) [] in
      elim (Bool-cases (i == j)) [
        | inl same ↦ inr (ground arith, rw same refl)
        | inr other ↦ elim (Bool-cases (p == i)) [
          | inl first ↦ elim (Bool-cases (q == j)) [
            | inl second ↦ inl (
              (==_iff p i).0 first,
              (==_iff q j).0 second,
              (λ e. let t = (==_iff i j).1 e in cc),
              rw other (rw (first, second) at law ∙ ap types_to (sym ((==_iff q j).0 second))),
            )
            | inr second ↦ inr (ground arith, rw other (rw (first, second) at law))
          ]
          | inr first ↦ inr (ground arith, rw other (rw first at law))
        ]
      ]

  abbrev row_of : ℕ → ℕ → ℕ → PortTypes → PortTypes
  row_of a n i ports = loop (write i) ports (range_from a n)

  read-row_of :
      (n a : ℕ) (ports : PortTypes) (i p q : ℕ)
      → (((p ≡ i) × (i ≢ q) × (a ≤ q) × (q < a + n)) × (read (row_of a n i ports) p q ≡ types_to q))
        ⊎ ((¬ ((p ≡ i) × (i ≢ q) × (a ≤ q) × (q < a + n)))
            × (read (row_of a n i ports) p q ≡ read ports p q))
  read-row_of zero a ports i p q = inr ((λ (e, o, lo, hi). absurd (omega arith)), refl)
  read-row_of (suc n) a ports i p q = elim (read-row_of n (suc a) (write i ports a) i p q) [
    | inl ((e, o, lo, hi), same) ↦ inl ((e, o, omega arith, omega arith), same)
    | inr (miss, same) ↦ elim (read-write ports i a p q) [
      | inl (e, here, o, wrote) ↦
          inl ((e, (λ e'. o (e' ∙ here)), omega arith, omega arith), same ∙ wrote)
      | inr (other, kept) ↦ inr (
        (λ (e, o, lo, hi). elim (at_or_after a q lo) [
          | inl first ↦ other (e, sym first, (λ e'. o (e' ∙ first)))
          | inr more ↦ miss (e, o, more, omega arith)
        ]),
        same ∙ kept,
      )
    ]
  ]

  abbrev rows_of : ℕ → ℕ → PortTypes → PortTypes
  rows_of a n ports = loop (λ ports i. row_of 0 (leafs - 0) i ports) ports (range_from a n)

  read-rows_of :
      (n a : ℕ) (ports : PortTypes) (p q : ℕ)
      → (((a ≤ p) × (p < a + n) × (p ≢ q) × (q < leafs))
          × (read (rows_of a n ports) p q ≡ types_to q))
        ⊎ ((¬ ((a ≤ p) × (p < a + n) × (p ≢ q) × (q < leafs)))
            × (read (rows_of a n ports) p q ≡ read ports p q))
  read-rows_of zero a ports p q = inr ((λ (lo, hi, o, b). absurd (omega arith)), refl)
  read-rows_of (suc n) a ports p q =
      elim (read-rows_of n (suc a) (row_of 0 (leafs - 0) a ports) p q) [
        | inl ((lo, hi, o, b), same) ↦ inl ((omega arith, omega arith, o, b), same)
        | inr (miss, same) ↦ elim (read-row_of (leafs - 0) 0 ports a p q) [
          | inl ((e, o, lo, hi), wrote) ↦
              inl ((omega arith, omega arith, (λ e'. o (sym e ∙ e')), omega arith), same ∙ wrote)
          | inr (other, kept) ↦ inr (
            (λ (lo, hi, o, b). elim (at_or_after a p lo) [
              | inl first ↦ other (sym first, (λ e'. o (sym first ∙ e')), omega arith, omega arith)
              | inr more ↦ miss (more, omega arith, o, b)
            ]),
            same ∙ kept,
          )
        ]
      ]

  module _ (some_host : 0 < hosts) where
    -- The types of the path `s` to the hosts of leaf `q`.
    types_to_iff :
        (q k : ℕ)
        → q < leafs
        → Has (types_to q) k ↔ ((k / (leafs * hosts) ≡ s) × (spine_hop leafs hosts k ≡ q))
    unfolding spine_hop
    types_to_iff q k b =
        let total = leafs * hosts in
        let some_total : 0 < total = grind arith in
        let written = Has-map (λ k. s * (hosts * leafs) + (hosts * q + k)) (range 0 hosts) k in
        let rest = k % total in
        let whole = div-add-mod k total in
        (
          λ h.
              let (r, r_in, e) = written.0 h in
              let few = (Has-range_from 0 (hosts - 0) r).0 r_in in
              let fits : hosts * q + r < total = grind arith in
              let path : k / total ≡ s = (div_iff some_total k s).1 (grind arith, grind arith) in
              let left : rest ≡ hosts * q + r = grind arith in
              (path, (div_iff some_host rest q).1 (grind arith, grind arith)),
          λ (path, hop).
              let inner = div-add-mod rest hosts in
              let r = rest % hosts in
              let few = mod-lt rest some_host in
              written.1 (
                r,
                (Has-range_from 0 (hosts - 0) r).1 (omega arith, omega arith),
                (let hop' : rest / hosts ≡ q = hop in
                    let whole' = rw path at whole in let inner' = rw hop' at inner in grind arith),
              ),
        )

-- For at least one host per leaf: between ports `p` and `q` a spine has exactly the packet types
-- whose path is the spine and whose next hop is `q`, when `p` and `q` are different leafs of the
-- spine, and none otherwise.
pub get_spine_port_map_iff :
    (leafs hosts s : ℕ)
    → 0 < hosts
    → (p q k : ℕ)
    → Has (find_or (get_spine_port_map leafs hosts s) (p, q) []) k ↔ (
        ((p < leafs) × (q < leafs) × (p ≢ q))
        × (k / (leafs * hosts) ≡ s)
        × (spine_hop leafs hosts k ≡ q))
unfolding get_spine_port_map find_or
get_spine_port_map_iff leafs hosts s some_host p q k =
    elim (read-rows_of leafs hosts s (leafs - 0) 0 [] p q) [
      | inl ((lo, hi, o, b), same) ↦
          let types = types_to_iff leafs hosts s some_host q k b in
          rw same
            (λ h. ((omega arith, b, o), (types.0 h).0, (types.0 h).1), λ h. types.1 (h.1, h.2))
      | inr (miss, same) ↦
          rw same
            (λ h. cc, λ ((a, b, o), path, hop). absurd (miss (omega arith, omega arith, o, b)))
    ]
