-- ===== src/Leaf/Expansion.antt =====
-- The expanded matrices of a buffer: every packet type in use has its own entry, and the others are 0,
-- so that no packet is lost or counted twice.
use count_buffy.Solver.Arrays.{length-range}
use count_buffy.Prelude.{
  ℕ, zero, suc, ◌+◌, ◌-◌, ◌≤◌, ◌<◌, ◌≡◌, refl, sym, ap, ◌∙◌, ◌≢◌, inl, inr, Option, none, some,
  List, [], map, arith, ℤ, pos, ◌+ℤ◌, length, get_or, at_or_after, range, range_from, loop, total,
  total_congr,
}
use count_buffy.Z3.{Z3}
use count_buffy.Vec.{Ev, Ev2, row, sum}
use count_buffy.Leaf.Buffs.{LeafBuff, put, entry, expanded, get_pkt_type_to_local_vec_idx}
use count_buffy.Vec.Meaning.{val, value-sum, get_or-map_all}
use count_buffy.Prelude.{total_put, total_zeros, get_or-map_in, length-map}

-- No packet type is in use twice.
abbrev pub IsDistinct : List ℕ → Type 0
IsDistinct used =
    (i j : ℕ) → i < length used → j < length used → get_or used i 0 ≡ get_or used j 0 → i ≡ j

module _ (used : List ℕ) where
  abbrev rounds : (ℕ → Option ℕ) → List ℕ → ℕ → Option ℕ
  rounds f js = loop (λ result j. put result (get_or used j 0) j) f js

  put-same : (f : ℕ → Option ℕ) (k j i : ℕ) → i ≡ k → put f k j i ≡ some j
  put-same f k j i e = ground arith

  put-other : (f : ℕ → Option ℕ) (k j i : ℕ) → i ≢ k → put f k j i ≡ f i
  put-other f k j i h = ground arith

  rounds-unused :
      (f : ℕ → Option ℕ) (n a i : ℕ)
      → ((j : ℕ) → a ≤ j → j < a + n → get_or used j 0 ≢ i)
      → rounds f (range_from a n) i ≡ f i
  rounds-unused f zero a i h = refl
  rounds-unused f (suc n) a i h =
      rounds-unused (put f (get_or used a 0) a) n (suc a) i
        (λ j lo hi. h j (omega arith) (omega arith))
      ∙ put-other f (get_or used a 0) a i (λ e. h a (omega arith) (omega arith) (sym e))

  module _ (distinct : IsDistinct used) where
    rounds-used :
        (f : ℕ → Option ℕ) (n a j : ℕ)
        → a + n ≤ length used
        → a ≤ j
        → j < a + n
        → rounds f (range_from a n) (get_or used j 0) ≡ some j
    rounds-used f zero a j size lo hi = absurd (omega arith)
    rounds-used f (suc n) a j size lo hi = elim (at_or_after a j lo) [
      | inl same ↦
          rounds-unused (put f (get_or used a 0) a) n (suc a) (get_or used j 0) (λ i lo' hi' e.
            let q = distinct i j (omega arith) (omega arith) e in absurd (omega arith))
          ∙ put-same f (get_or used a 0) a (get_or used j 0) (ap (λ j. get_or used j 0) (sym same))
          ∙ ap some same
      | inr more ↦
          rounds-used (put f (get_or used a 0) a) n (suc a) j (omega arith) more (omega arith)
    ]

    pub idx-used :
        (j : ℕ) → j < length used → get_pkt_type_to_local_vec_idx used (get_or used j 0) ≡ some j
    unfolding get_pkt_type_to_local_vec_idx
    idx-used j b =
        rounds-used (λ i. none) (length used - 0) 0 j (omega arith) (omega arith) (omega arith)

    module _ ⦃z : Z3⦄ (m : z.Model) (v : Ev) (k : ℕ) where
      abbrev worth : (ℕ → Option ℕ) → ℕ → ℤ
      worth f i = z.value m (entry v (f i))

      rounds-total :
          (f : ℕ → Option ℕ) (n a : ℕ)
          → a + n ≤ length used
          → ((j : ℕ) → j < length used → get_or used j 0 < k)
          → ((j : ℕ) → a ≤ j → j < a + n → f (get_or used j 0) ≡ none)
          → total k (worth f) ≡ total a (val m v)
          → total k (worth (rounds f (range_from a n))) ≡ total (a + n) (val m v)
      unfolding total
      rounds-total f zero a size below free h =
          h ∙ ap (λ n. total n (val m v)) {y = a + zero} (omega arith)
      rounds-total f (suc n) a size below free h =
          let key = get_or used a 0 in
          let f' = put f key a in
          let no_value : worth f key ≡ pos 0 =
            ap (λ o. z.value m (entry v o)) (free a (omega arith) (omega arith))
            ∙ z.value-int_val m (pos 0) in
          let now : total k (worth f') ≡ total (suc a) (val m v) =
            total_put k key (worth f') (worth f) (val m v a) (below a (omega arith))
              (ap (λ o. z.value m (entry v o)) (put-same f key a key refl)) no_value
              (λ i b h. ap (λ o. z.value m (entry v o)) (put-other f key a i h))
            ∙ ap (λ t. t +ℤ val m v a) h in
          rounds-total f' n (suc a) (omega arith) below
            (λ j lo hi.
              put-other f key a (get_or used j 0)
                (λ e. let q = distinct j a (omega arith) (omega arith) e in absurd (omega arith))
              ∙ free j (omega arith) (omega arith))
            now
          ∙ ap (λ n. total n (val m v)) {y = a + suc n} (omega arith)

-- A buffer whose packet types in use are distinct types of the switch, and a time step at which a
-- matrix has an entry for each of them.
pub record IsLaidOut ⦃z : Z3⦄ (buff : LeafBuff) (vv : Ev2) (t : ℕ) : Type 0 where
  pub distinct : IsDistinct buff.used_pkt_types
  pub types :
      (j : ℕ) → j < length buff.used_pkt_types → get_or buff.used_pkt_types j 0 < buff.pkt_types
  pub time : t < length vv
  pub width : length (row vv t) ≡ length buff.used_pkt_types

module _ ⦃z : Z3⦄ (m : z.Model) (buff : LeafBuff) (vv : Ev2) (t : ℕ) (h : IsLaidOut buff vv t) where
  abbrev local_idx : ℕ → Option ℕ
  local_idx = get_pkt_type_to_local_vec_idx buff.used_pkt_types

  expanded-row :
      row (expanded buff vv) t ≡ map (λ i. entry (row vv t) (local_idx i)) (range 0 buff.pkt_types)
  unfolding expanded
  expanded-row = get_or-map_in _ vv t [] [] h.time

  -- For a buffer of a leaf switch whose packet types in use are distinct types of the switch, and
  -- a time step at which a matrix has an entry for each: the entry of the expanded matrix at the
  -- `j`-th type in use is the `j`-th entry of the matrix.
  pub expanded-at :
      (j : ℕ)
      → j < length buff.used_pkt_types
      → val m (row (expanded buff vv) t) (get_or buff.used_pkt_types j 0) ≡ val m (row vv t) j
  expanded-at j b =
      ap (λ v. val m v (get_or buff.used_pkt_types j 0)) expanded-row
      ∙ ap (z.value m) (
          get_or-map_all (λ i. entry (row vv t) (local_idx i)) z.undefined_int buff.pkt_types
            (get_or buff.used_pkt_types j 0) (h.types j b))
      ∙ ap (λ o. z.value m (entry (row vv t) o)) (idx-used buff.used_pkt_types h.distinct j b)

  expanded-total :
      total buff.pkt_types (val m (row (expanded buff vv) t))
      ≡ total (length buff.used_pkt_types) (val m (row vv t))
  unfolding get_pkt_type_to_local_vec_idx total
  expanded-total =
      let used = buff.used_pkt_types in
      let v = row vv t in
      total_congr buff.pkt_types (val m (row (expanded buff vv) t))
        (λ i. z.value m (entry v (local_idx i)))
        (λ i b.
          ap (λ v. val m v i) expanded-row
          ∙ ap (z.value m)
              (get_or-map_all (λ i. entry v (local_idx i)) z.undefined_int buff.pkt_types i b))
      ∙ rounds-total used h.distinct m v buff.pkt_types (λ i. none) (length used - 0) 0
          (omega arith) h.types (λ j lo hi. refl)
          (total_zeros buff.pkt_types _ (λ i b. z.value-int_val m (pos 0)))
      ∙ ap (λ n. total n (val m v)) {y = length used} (omega arith)

  -- For a buffer of a leaf switch with at least one packet type in use, all of them distinct
  -- types of the switch, and a time step at which a matrix has an entry for each: the expanded
  -- matrix has as many packets in this step as the matrix.
  pub expanded-sum :
      0 < length buff.used_pkt_types
      → z.value m (sum (row (expanded buff vv) t)) ≡ z.value m (sum (row vv t))
  expanded-sum some_used =
      let used = buff.used_pkt_types in
      let b = h.types 0 some_used in
      let n = buff.pkt_types - 1 in
      let l = length used - 1 in
      value-sum m (row (expanded buff vv) t) n (
        ap length expanded-row
        ∙ length-map (λ i. entry (row vv t) (local_idx i)) (range 0 buff.pkt_types)
        ∙ length-range 0 (buff.pkt_types - 0)
        ∙ omega arith)
      ∙ ap (λ n. total n (val m (row (expanded buff vv) t))) {x = suc n} {y = buff.pkt_types}
          (omega arith)
      ∙ expanded-total
      ∙ ap (λ n. total n (val m (row vv t))) {y = suc l} (omega arith)
      ∙ sym (value-sum m (row vv t) l (h.width ∙ omega arith))
