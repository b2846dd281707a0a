-- ===== src/Lst/Routing.antt =====
-- The tables of lst.cpp lead every packet to its destination: from any leaf over the spine of its
-- path to the leaf of its host, or to the host at once.

-- Where a packet is. `Place.host h` is the host with the input index `h`.
use count_buffy.Prelude.{
  inr, sym, Bool-cases, inl, ◌≢◌, ◌⊎◌, ℕ, zero, suc, ◌+◌, ◌-◌, ◌*◌, ◌/◌, ◌%◌, ◌≤◌, ◌<◌, ◌≡◌, refl,
  ap, ◌∙◌, ◌↔◌, true, Option, none, some, List, [], ◌∷◌, ◌++◌, map, arith, length, get_or, range,
  range_from, ltb, leb,
}
use count_buffy.Lst.Topology.{
  spine_hop, leaf_hop, get_pkt_type_to_next_hop_port, get_pkt_type_to_next_hop_port_spine,
  get_port_index_to_input_index,
}
use mathlib.Core.Bool.{◌&&◌}
use native.Mathlib.Nat.{mod-lt, div-add-mod, le-div_iff_mul-le, div-lt_iff_lt-mul}
use count_buffy.Vec.Meaning.{get_or-map_all}
use count_buffy.Solver.Arrays.{length-range}
use count_buffy.Prelude.{length-map}

pub data Place : Type 0 where
  leaf : ℕ → Place
  spine : ℕ → Place
  host : ℕ → Place

-- Port `p` of a leaf: a host's, or the link to a spine. Port `p` of a spine is the link to a leaf.
abbrev pub behind : ℕ → List (Option ℕ) → ℕ → Place
behind hosts_per_leaf port_to_input p = elim (get_or port_to_input p none) [
  | none ↦ Place.spine (p - hosts_per_leaf)
  | some h ↦ Place.host h
]

module _ (num_spines leafs_per_spine hosts_per_leaf : ℕ) where
  -- A packet of type `i` goes to the next place.
  unfoldable pub hop : ℕ → Place → Place
  hop i (leaf l) =
      behind hosts_per_leaf
        (get_port_index_to_input_index num_spines leafs_per_spine hosts_per_leaf l)
        (get_or (get_pkt_type_to_next_hop_port num_spines leafs_per_spine hosts_per_leaf l) i 0)
  hop i (spine s) =
      Place.leaf
        (get_or (get_pkt_type_to_next_hop_port_spine num_spines leafs_per_spine hosts_per_leaf) i 0)
  hop i (host h) = Place.host h

  abbrev total_hosts : ℕ
  total_hosts = leafs_per_spine * hosts_per_leaf

  abbrev pub dest : ℕ → ℕ
  dest i = i % total_hosts

get_or-append_left {ℓ} :
    {A : Type ℓ} (xs ys : List A) (i : ℕ) (d : A)
    → i < length xs
    → get_or (xs ++ ys) i d ≡ get_or xs i d
get_or-append_left [] ys i d b = absurd (omega arith)
get_or-append_left (x ∷ xs) ys zero d b = refl
get_or-append_left (x ∷ xs) ys (suc i) d b = get_or-append_left xs ys i d (omega arith)

abbrev no_input : ℕ → Option ℕ
no_input j = none

only_none : (n a i : ℕ) → get_or (map no_input (range_from a n)) i none ≡ none
only_none zero a i = refl
only_none (suc n) a zero = refl
only_none (suc n) a (suc i) = only_none n (suc a) i

none_behind :
    (xs : List (Option ℕ)) (n a i : ℕ)
    → length xs ≤ i
    → get_or (xs ++ map no_input (range_from a n)) i none ≡ none
none_behind [] n a i b = only_none n a i
none_behind (x ∷ xs) n a zero b = absurd (omega arith)
none_behind (x ∷ xs) n a (suc i) b = none_behind xs n a i (omega arith)

module _ (num_spines leafs_per_spine hosts_per_leaf : ℕ) (some_host : 0 < hosts_per_leaf) where
  host_at :
      (l p : ℕ)
      → p < hosts_per_leaf
      → behind hosts_per_leaf
          (get_port_index_to_input_index num_spines leafs_per_spine hosts_per_leaf l)
          p
        ≡ Place.host (hosts_per_leaf * l + p)
  unfolding get_port_index_to_input_index
  host_at l p b =
      let f = λ (i : ℕ). some (hosts_per_leaf * l + i) in
      let size = length-map f (range 0 hosts_per_leaf) ∙ length-range 0 (hosts_per_leaf - 0) in
      let e =
        get_or-append_left (map f (range 0 hosts_per_leaf)) (map (λ i. none) (range 0 num_spines)) p
          none (omega (arith, size))
        ∙ get_or-map_all f none hosts_per_leaf p b in
      rw (e, behind) refl

  spine_at :
      (l s : ℕ)
      → behind hosts_per_leaf
          (get_port_index_to_input_index num_spines leafs_per_spine hosts_per_leaf l)
          (hosts_per_leaf + s)
        ≡ Place.spine s
  unfolding get_port_index_to_input_index
  spine_at l s =
      let f = λ (i : ℕ). some (hosts_per_leaf * l + i) in
      let size = length-map f (range 0 hosts_per_leaf) ∙ length-range 0 (hosts_per_leaf - 0) in
      let e =
        none_behind (map f (range 0 hosts_per_leaf)) (num_spines - 0) 0 (hosts_per_leaf + s)
          (omega (arith, size)) in
      rw (e, behind) (ap Place.spine (omega arith))

  -- The test of `leaf_hop`.
  in_leaf :
      (l h : ℕ)
      → ((leb (l * hosts_per_leaf) h && ltb h ((l + 1) * hosts_per_leaf)) ≡ true)
        ↔ (h / hosts_per_leaf ≡ l)
  in_leaf l h =
      let low = le-div_iff_mul-le {x = l} {y = h} some_host in
      let high = div-lt_iff_lt-mul {x = h} {y = l + 1} some_host in
      (
        λ t.
            let a : l * hosts_per_leaf ≤ h = ground arith in
            let b : h < (l + 1) * hosts_per_leaf = ground arith in
            let a' = low.1 a in let b' = high.1 b in omega arith,
        λ e. let a = low.0 (omega arith) in let b = high.0 (omega arith) in ground arith,
      )

  same_or_other : (a b : ℕ) → (a ≡ b) ⊎ (a ≢ b)
  same_or_other a b = ground arith

  some_pair :
      (i : ℕ)
      → i < num_spines * (leafs_per_spine * hosts_per_leaf)
      → 0 < leafs_per_spine * hosts_per_leaf
  some_pair i b = grind arith

  -- A leaf hands a packet to its host, when the host is its own.
  own_host :
      (i : ℕ)
      → i < num_spines * (leafs_per_spine * hosts_per_leaf)
      → hop num_spines leafs_per_spine hosts_per_leaf i
          (Place.leaf (dest num_spines leafs_per_spine hosts_per_leaf i / hosts_per_leaf))
        ≡ Place.host (dest num_spines leafs_per_spine hosts_per_leaf i)
  unfolding hop get_pkt_type_to_next_hop_port leaf_hop
  own_host i b =
      let h = dest num_spines leafs_per_spine hosts_per_leaf i in
      let l = h / hosts_per_leaf in
      let n = num_spines * (leafs_per_spine * hosts_per_leaf) in
      let here = (in_leaf l h).1 refl in
      let e = get_or-map_all (leaf_hop leafs_per_spine hosts_per_leaf l) 0 n i b in
      let e' : leaf_hop leafs_per_spine hosts_per_leaf l i ≡ h % hosts_per_leaf =
        rw (leaf_hop, here) refl in
      ap
        (behind hosts_per_leaf
          (get_port_index_to_input_index num_spines leafs_per_spine hosts_per_leaf l))
        (e ∙ e')
      ∙ host_at l (h % hosts_per_leaf) (mod-lt h some_host)
      ∙ ap Place.host (div-add-mod h hosts_per_leaf)

  to_spine :
      (i l : ℕ)
      → i < num_spines * (leafs_per_spine * hosts_per_leaf)
      → dest num_spines leafs_per_spine hosts_per_leaf i / hosts_per_leaf ≢ l
      → hop num_spines leafs_per_spine hosts_per_leaf i (Place.leaf l)
        ≡ Place.spine (i / (leafs_per_spine * hosts_per_leaf))
  unfolding hop get_pkt_type_to_next_hop_port leaf_hop
  to_spine i l b other =
      let h = dest num_spines leafs_per_spine hosts_per_leaf i in
      let n = num_spines * (leafs_per_spine * hosts_per_leaf) in
      let s = i / (leafs_per_spine * hosts_per_leaf) in
      let e = get_or-map_all (leaf_hop leafs_per_spine hosts_per_leaf l) 0 n i b in
      elim (Bool-cases (leb (l * hosts_per_leaf) h && ltb h ((l + 1) * hosts_per_leaf))) [
        | inl here ↦ absurd (other ((in_leaf l h).0 here))
        | inr away ↦
            let e' : leaf_hop leafs_per_spine hosts_per_leaf l i ≡ hosts_per_leaf + s =
              rw (leaf_hop, away) refl in
            ap
              (behind hosts_per_leaf
                (get_port_index_to_input_index num_spines leafs_per_spine hosts_per_leaf l))
              (e ∙ e')
            ∙ spine_at l s
      ]

  from_spine :
      (i s : ℕ)
      → i < num_spines * (leafs_per_spine * hosts_per_leaf)
      → hop num_spines leafs_per_spine hosts_per_leaf i (Place.spine s)
        ≡ Place.leaf (dest num_spines leafs_per_spine hosts_per_leaf i / hosts_per_leaf)
  unfolding hop get_pkt_type_to_next_hop_port_spine spine_hop
  from_spine i s b = ap Place.leaf (
      get_or-map_all (spine_hop leafs_per_spine hosts_per_leaf) 0
        (num_spines * (leafs_per_spine * hosts_per_leaf)) i b)

  -- For any numbers of spines and leafs and at least one host per leaf, the tables of lst.cpp
  -- lead a packet of any type from any leaf to its destination: in one hop when the host is the
  -- leaf's own, and otherwise in three, over the spine that its type names.
  pub hop-delivers :
      (i l : ℕ)
      → i < num_spines * (leafs_per_spine * hosts_per_leaf)
      → ((dest num_spines leafs_per_spine hosts_per_leaf i / hosts_per_leaf ≡ l)
          × (hop num_spines leafs_per_spine hosts_per_leaf i (Place.leaf l)
              ≡ Place.host (dest num_spines leafs_per_spine hosts_per_leaf i)))
        ⊎ ((dest num_spines leafs_per_spine hosts_per_leaf i / hosts_per_leaf ≢ l)
            × (hop num_spines leafs_per_spine hosts_per_leaf i (Place.leaf l)
                ≡ Place.spine (i / (leafs_per_spine * hosts_per_leaf)))
            × (i / (leafs_per_spine * hosts_per_leaf) < num_spines)
            × (hop num_spines leafs_per_spine hosts_per_leaf i (
                  hop num_spines leafs_per_spine hosts_per_leaf i
                    (hop num_spines leafs_per_spine hosts_per_leaf i (Place.leaf l)))
                ≡ Place.host (dest num_spines leafs_per_spine hosts_per_leaf i)))
  hop-delivers i l b =
      let go = hop num_spines leafs_per_spine hosts_per_leaf i in
      let d = dest num_spines leafs_per_spine hosts_per_leaf i in
      let s = i / (leafs_per_spine * hosts_per_leaf) in
      elim (same_or_other (d / hosts_per_leaf) l) [
        | inl same ↦ inl (same, ap (λ l. go (Place.leaf l)) (sym same) ∙ own_host i b)
        | inr other ↦ inr (
          other,
          to_spine i l b other,
          (div-lt_iff_lt-mul {x = i} {y = num_spines} (some_pair i b)).1 b,
          ap (λ p. go (go p)) (to_spine i l b other) ∙ ap go (from_spine i s b) ∙ own_host i b,
        )
      ]
