-- ===== src/Leaf/Ports/Exact.antt =====
-- Which packet types a port gets: those that it had, and exactly those that the routes send over it.

use count_buffy.Prelude.{
  ℕ, ◌+◌, ◌-◌, ◌*◌, ◌%◌, ◌<◌, ◌≡◌, refl, sym, ap, subst, ◌↔◌, ◌⊎◌, inl, inr, Bool, true, false,
  Option, nat_key, find_or, none, some, List, [], ◌∷◌, map, arith, Bool-cases, length, get_or,
  range, ltb, ◌==◌, if◌then◌else◌,
}
use mathlib.Core.Bool.{◌&&◌, not}
use count_buffy.Leaf.Ports.Members.{
  Has, Has-cons, Has-append, Has-add_types, Has-range_from, Some, Has-map,
}
use count_buffy.Leaf.Ports.{
  Routes, Values, goes, fix_port, types_of, ecmps_of, path_offset, update_port, is_number, is_in,
}
use count_buffy.Prelude.{contains_number, ==_iff, ltb_iff, ltb_fails}

and_iff : (a b : Bool) → (a && b ≡ true) ↔ ((a ≡ true) × (b ≡ true))
and_iff true b = (λ h. (refl, h), λ h. h.1)
and_iff false b = (λ h. cc, λ h. cc)

is_number_iff : (o : Option ℕ) (n : ℕ) → (is_number o n ≡ true) ↔ (o ≡ some n)
is_number_iff none n = (λ h. cc, λ h. cc)
is_number_iff (some k) n = (λ h. ap some ((==_iff k n).0 h), λ h. (==_iff k n).1 (cc))

not_in_iff :
    (o : Option ℕ) (ns : List ℕ) → (not (is_in o ns) ≡ true) ↔ ((i : ℕ) → o ≡ some i → ¬ Has ns i)
not_in_iff none ns = (λ h i e. cc, λ h. refl)
not_in_iff (some k) ns = elim (Bool-cases (contains_number ns k)) [
  | inl on ↦ rw on (λ h. cc, λ h. absurd (h k refl on))
  | inr off ↦ rw off (λ h i e on. let same : k ≡ i = cc in cc, λ h. refl)
]

-- Where packet type `k` goes: it is in use, its next hop is the second port, its path is the first
-- port's, and the first port's input, if it has one, is not idle.
abbrev pub IsRouted : Routes → ℕ × ℕ → ℕ → Type 0
IsRouted r key k =
    Has r.used_dsts (find_or r.pkt_type_to_dst k 0)
    × Has r.used_ecmps (find_or r.pkt_type_to_ecmp k 0)
    × (get_or r.pkt_type_to_nxt_hop k 0 ≡ key.1)
    × (get_or r.port_to_ecmp key.0 none ≡ some (find_or r.pkt_type_to_ecmp k 0))
    × ((i : ℕ) → get_or r.src_port_to_input key.0 none ≡ some i → ¬ Has r.zero_inputs i)

goes_iff : (r : Routes) (key : ℕ × ℕ) (k : ℕ) → (goes r key.0 key.1 k ≡ true) ↔ IsRouted r key k
unfolding goes
goes_iff r key k =
    let hop = ==_iff (get_or r.pkt_type_to_nxt_hop k 0) key.1 in
    let path = is_number_iff (get_or r.port_to_ecmp key.0 none) (find_or r.pkt_type_to_ecmp k 0) in
    let busy = not_in_iff (get_or r.src_port_to_input key.0 none) r.zero_inputs in
    (
      λ h.
          let (d, h) = (and_iff _ _).0 h in
          let (e, h) = (and_iff _ _).0 h in
          let (n, h) = (and_iff _ _).0 h in
          let (p, b) = (and_iff _ _).0 h in (d, e, hop.0 n, path.0 p, busy.0 b),
      λ (d, e, n, p, b).
          (and_iff _ _).1 (
            d,
            (and_iff _ _).1 (e, (and_iff _ _).1 (hop.1 n, (and_iff _ _).1 (path.1 p, busy.1 b))),
          ),
    )

-- After `fix` a port pair has exactly the packet types that it had and, unless it starts at port
-- 0 or 1, the types below the number of types whose destination and path are used, whose next hop
-- is the second port, whose path is the first port's, and for which the first port's input, if it
-- has one, is not idle.
pub fix_port_iff :
    (r : Routes) (key : ℕ × ℕ) (p : List ℕ) (k : ℕ)
    → Has (fix_port r key p) k
      ↔ (Has p k ⊎ ((1 < key.0) × (k < length r.pkt_type_to_dst) × IsRouted r key k))
unfolding fix_port
fix_port_iff r key p k = elim (Bool-cases (ltb key.0 2)) [
  | inl host ↦
      let b = (ltb_iff key.0 2).0 host in
      rw host (λ h. inl h, λ h. elim h [ inl h ↦ h | inr (lo, hi, t) ↦ absurd (omega arith) ])
  | inr spine ↦
      let b = ltb_fails key.0 2 spine in
      let n = length r.pkt_type_to_dst in
      let all = Has-add_types (goes r key.0 key.1) (range 0 n) p k in
      let nums = Has-range_from 0 (n - 0) k in
      let means = goes_iff r key k in
      rw spine (
        λ h. elim (all.0 h) [
          | inl old ↦ inl old
          | inr (r, t) ↦ let both = nums.0 r in inr (omega arith, omega arith, means.0 t)
        ],
        λ h. elim h [
          | inl old ↦ all.1 (inl old)
          | inr (lo, hi, t) ↦ all.1 (inr (nums.1 (omega arith, omega arith), means.1 t))
        ],
      )
]

-- The types of `types_of`, path by path.
abbrev pub Sends : Values → List ℕ → ℕ → Type 0
Sends used es k = Some (λ e. Has used.ecmp e × Some (λ d. e * path_offset + d ≡ k) used.dst) es

Has-types_of : (used : Values) (es : List ℕ) (k : ℕ) → Has (types_of used es) k ↔ Sends used es k
unfolding types_of
Has-types_of used [] k = (λ h. cc, λ (e, h, r). cc)
Has-types_of used (e ∷ es) k =
    let here =
      if contains_number used.ecmp e then map (λ d. e * path_offset + d) used.dst else [] in
    let both = Has-append here (types_of used es) k in
    let rest = Has-types_of used es k in
    let mapped = Has-map (λ d. e * path_offset + d) used.dst k in
    (
      λ h. elim (both.0 h) [
        | inl l ↦ elim (Bool-cases (contains_number used.ecmp e)) [
          | inl on ↦ (e, (Has-cons e e es).1 (inl refl), (on, mapped.0 (rw on at l)))
          | inr off ↦ let l' = rw off at l in cc
        ]
        | inr r ↦ let (e', h', s) = rest.0 r in (e', (Has-cons e e' es).1 (inr h'), s)
      ],
      λ (e', h, (on, s)). elim ((Has-cons e e' es).0 h) [
        | inl same ↦
            let on' = subst (Has used.ecmp) (sym same) on in
            let s' = subst (λ e. Some (λ d. e * path_offset + d ≡ k) used.dst) (sym same) s in
            both.1 (inl (rw on' (mapped.1 s')))
        | inr r ↦ both.1 (inr (rest.1 (e', r, (on, s))))
      ],
    )

-- The paths that may lead to a port: its own, if it has one, and else every path in use.
Has-ecmps_of :
    (path : Option ℕ) (used : List ℕ) (e : ℕ)
    → (Has (ecmps_of path used) e × Has used e)
      ↔ (Has used e × ((e' : ℕ) → path ≡ some e' → e ≡ e'))
Has-ecmps_of none used e = (λ h. (h.1, λ e' no. cc), λ h. (h.0, h.0))
Has-ecmps_of (some own) used e =
    let one = Has-cons own e [] in
    (
      λ (h, u). (u, λ e' same. elim (one.0 h) [ inl own_ ↦ cc | inr none_ ↦ cc ]),
      λ (u, own_). (one.1 (inl (sym (own_ own refl))), u),
    )

-- Packet type `k` is that of a used path and a used destination; the path is that of the second port,
-- if this has one; and the type's next hop is the second port.
abbrev pub IsUsed : Values → Option ℕ → List ℕ → ℕ → ℕ → Type 0
IsUsed used path hops dst_port k =
    (e : ℕ) × (d : ℕ) × Has used.ecmp e
    × Has used.dst d
    × (e * 6 + d ≡ k)
    × ((e' : ℕ) → path ≡ some e' → e ≡ e')
    × (get_or hops k 0 ≡ dst_port)

types_of-IsUsed :
    (used : Values) (path : Option ℕ) (hops : List ℕ) (dst_port k : ℕ)
    → (Sends used (ecmps_of path used.ecmp) k × (get_or hops k 0 ≡ dst_port))
      ↔ IsUsed used path hops dst_port k
types_of-IsUsed used path hops dst_port k = (
  λ ((e, h, (u, (d, v, same))), hop).
      let (u', own) = (Has-ecmps_of path used.ecmp e).0 (h, u) in (e, d, u', v, same, own, hop),
  λ (e, d, u, v, same, own, hop).
      let (h, u') = (Has-ecmps_of path used.ecmp e).1 (u, own) in ((e, h, (u', (d, v, same))), hop),
)

abbrev values_of : List Values → ℕ → Values
values_of vals n = get_or vals (n % length vals) (record { dst = []; ecmp = [] })

no_input-update_port :
    (vals : List Values) (inputs : List (Option ℕ)) (hops : List ℕ) (paths : List (Option ℕ))
    (key : ℕ × ℕ) (p : List ℕ)
    → get_or inputs key.0 none ≡ none
    → update_port vals inputs hops paths key p ≡ p
unfolding update_port
no_input-update_port vals inputs hops paths key p e = rw (e, update_port) refl

input-update_port :
    (vals : List Values) (inputs : List (Option ℕ)) (hops : List ℕ) (paths : List (Option ℕ))
    (key : ℕ × ℕ) (p : List ℕ) (k n : ℕ)
    → get_or inputs key.0 none ≡ some n
    → Has (update_port vals inputs hops paths key p) k
      ↔ (Has p k ⊎ IsUsed (values_of vals n) (get_or paths key.1 none) hops key.1 k)
unfolding update_port
input-update_port vals inputs hops paths key p k n e =
    let used = values_of vals n in
    let es = ecmps_of (get_or paths key.1 none) used.ecmp in
    let all = Has-add_types (λ k. get_or hops k 0 == key.1) (types_of used es) p k in
    let types = Has-types_of used es k in
    let hop = ==_iff (get_or hops k 0) key.1 in
    let means = types_of-IsUsed used (get_or paths key.1 none) hops key.1 k in
    rw (e, update_port)
      (
        λ h. elim (all.0 h) [ inl old ↦ inl old | inr (r, t) ↦ inr (means.0 (types.0 r, hop.0 t)) ],
        λ h. elim h [
          | inl old ↦ all.1 (inl old)
          | inr u ↦ let (r, t) = means.1 u in all.1 (inr (types.1 r, hop.1 t))
        ],
      )

none_or_some : (o : Option ℕ) → (o ≡ none) ⊎ ((n : ℕ) × (o ≡ some n))
none_or_some none = inl refl
none_or_some (some n) = inr (n, refl)

-- `update_ports` leaves a port pair exactly the packet types that it had and, when the first port
-- has an input, each type `path * 6 + destination` of a destination and a path that the workload
-- uses at this input, where the path is the second port's if that has one, and the type's next
-- hop is the second port.
pub update_port_iff :
    (vals : List Values) (inputs : List (Option ℕ)) (hops : List ℕ) (paths : List (Option ℕ))
    (key : ℕ × ℕ) (p : List ℕ) (k : ℕ)
    → Has (update_port vals inputs hops paths key p) k ↔ (
        Has p k
        ⊎ ((n : ℕ) × (get_or inputs key.0 none ≡ some n)
            × IsUsed
                (get_or vals (n % length vals) (record { dst = []; ecmp = [] }))
                (get_or paths key.1 none)
                hops
                key.1
                k))
update_port_iff vals inputs hops paths key p k =
    let path = get_or paths key.1 none in
    elim (none_or_some (get_or inputs key.0 none)) [
      | inl e ↦
          rw (no_input-update_port vals inputs hops paths key p e)
            (λ h. inl h, λ h. elim h [ inl old ↦ old | inr (n, same, u) ↦ cc ])
      | inr (n, e) ↦
          let means = input-update_port vals inputs hops paths key p k n e in
          (
            λ h. elim (means.0 h) [ inl old ↦ inl old | inr u ↦ inr (n, e, u) ],
            λ h. elim h [
              | inl old ↦ means.1 (inl old)
              | inr (n', e', u) ↦
                  let same : n' ≡ n = cc in
                  means.1 (inr (subst (λ n. IsUsed (values_of vals n) path hops key.1 k) same u))
            ],
          )
    ]
