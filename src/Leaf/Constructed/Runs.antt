-- ===== src/Leaf/Constructed/Runs.antt =====
-- What a model of the constraints of a constructed switch is: a run of each of its buffers.

use count_buffy.Prelude.{
  true, Bool, ℕ, suc, ◌<◌, ◌≡◌, refl, subst, inl, inr, false, List, [], ◌∷◌, length, All, Text,
  if◌then◌else◌, pair_key, Map, assign, values,
}
use count_buffy.Z3.{Z3, Holds, flatten}
use count_buffy.NamedExp.{NamedExp, Sat}
use count_buffy.NamedExp.Meaning.{Sat-append}
use count_buffy.Solver.{SmtSolver}
use count_buffy.Solver.Models.{Models}
use count_buffy.Buffer.Store.{IsStored}
use count_buffy.Leaf.Buffs.{LeafBuff, new_used, buff_vars}
use count_buffy.Prelude.{
  find, find-assign, none, some, sym, ◌∙◌, KeysDiffer, found_head, missing_head,
}
use count_buffy.Leaf.Switch.{Switch, get_buff_list, buff_of, used_buffs, new_switch_used, buff_name}
use count_buffy.Leaf.Inputs.{inputs}
use count_buffy.Leaf.Inputs.Steps.{buff_history}
use count_buffy.Leaf.Inputs.Exact.{leaf_inputs_iff}
use count_buffy.Leaf.Base.{Kind, buff_inputs, base_constrs}
use count_buffy.Leaf.Constructed.{
  IsSized-IsFull, IsBounded-IsCounted, new_empty-keeps, new_used-IsSized, new_used-IsBounded,
}

module _ ⦃z : Z3⦄ (var_prefix : Text) (steps pkt_types cap me md : ℕ) where
  abbrev made : ℕ × ℕ → List ℕ → SmtSolver → LeafBuff × SmtSolver
  made key used slv = buff_of var_prefix steps pkt_types cap me md key.0 key.1 used slv

  abbrev all_made :
      Map (ℕ × ℕ) (List ℕ) → Map (ℕ × ℕ) LeafBuff → SmtSolver → Map (ℕ × ℕ) LeafBuff × SmtSolver
  all_made ports buffs slv = used_buffs var_prefix steps pkt_types cap me md ports buffs slv

  -- A buffer that is not made keeps its place.
  used_buffs-other :
      (ports : Map (ℕ × ℕ) (List ℕ)) (buffs : Map (ℕ × ℕ) LeafBuff) (slv : SmtSolver) (key : ℕ × ℕ)
      → find ports key ≡ none
      → find (all_made ports buffs slv).0 key ≡ find buffs key
  unfolding used_buffs
  used_buffs-other [] buffs slv key h = refl
  used_buffs-other (((src, dst), used) ∷ ports) buffs slv key h =
      let (other, rest) = missing_head (src, dst) used ports key h in
      let (buff, slv') = made (src, dst) used slv in
      used_buffs-other ports (assign (src, dst) buff buffs) slv' key rest
      ∙ (find-assign buffs (src, dst) key buff ∙ rw other refl)

  module _ (m : z.Model) where
    buff_of-Models :
        (key : ℕ × ℕ) (used : List ℕ) (slv : SmtSolver)
        → Models m (made key used slv).1
        → Models m slv
    unfolding buff_of
    buff_of-Models key [] slv h =
        subst (λ s. All (Holds m) (flatten (z.frames s)))
          (new_empty-keeps slv steps pkt_types key.0 key.1) h
    buff_of-Models key (k ∷ ks) slv h =
        (new_used-IsBounded slv (buff_name var_prefix key.0 key.1) steps pkt_types me md cap key.0
          key.1 (k ∷ ks) m h).0

    used_buffs-Models :
        (ports : Map (ℕ × ℕ) (List ℕ)) (buffs : Map (ℕ × ℕ) LeafBuff) (slv : SmtSolver)
        → Models m (all_made ports buffs slv).1
        → Models m slv
    unfolding used_buffs
    used_buffs-Models [] buffs slv h = h
    used_buffs-Models (((src, dst), used) ∷ ports) buffs slv h =
        let (buff, slv') = made (src, dst) used slv in
        buff_of-Models (src, dst) used slv
          (used_buffs-Models ports (assign (src, dst) buff buffs) slv' h)

    -- Between two ports stands the buffer that was made from their packet types.
    abbrev IsMadeAt : Map (ℕ × ℕ) LeafBuff → ℕ × ℕ → List ℕ → Type 0
    IsMadeAt buffs key used =
        (slv : SmtSolver) × (find buffs key ≡ some (made key used slv).0)
        × Models m (made key used slv).1

    used_buffs-IsMadeAt :
        (ports : Map (ℕ × ℕ) (List ℕ)) (buffs : Map (ℕ × ℕ) LeafBuff) (slv : SmtSolver)
        (key : ℕ × ℕ) (used : List ℕ)
        → KeysDiffer ports
        → find ports key ≡ some used
        → Models m (all_made ports buffs slv).1
        → IsMadeAt (all_made ports buffs slv).0 key used
    unfolding used_buffs find
    used_buffs-IsMadeAt [] buffs slv key used d found h = cc
    used_buffs-IsMadeAt (((src, dst), types) ∷ ports) buffs slv key used d found h =
        let (buff, slv') = made (src, dst) types slv in
        let buffs' = assign (src, dst) buff buffs in
        elim (found_head (src, dst) types used ports key found) [
          | inl (same, same') ↦
              let now : IsMadeAt (all_made ports buffs' slv').0 (src, dst) types = (
                slv,
                used_buffs-other ports buffs' slv' (src, dst) d.0
                    ∙ (find-assign buffs (src, dst) (src, dst) buff
                        ∙ rw ((pair_key.same_iff (src, dst) (src, dst)).1 refl) refl),
                used_buffs-Models ports buffs' slv' h,
              ) in
              subst (IsMadeAt (all_made ports buffs' slv').0 key) same'
                (subst (λ k. IsMadeAt (all_made ports buffs' slv').0 k types) (sym same) now)
          | inr (other, later) ↦ used_buffs-IsMadeAt ports buffs' slv' key used d.1 later h
        ]

module _ ⦃z : Z3⦄ (m : z.Model) where
  unless_empty :
      (empty : Bool) (nes : List NamedExp)
      → Sat m (if empty then [] else nes)
      → empty ≡ false
      → Sat m nes
  unless_empty true nes h some_ = absurd cc
  unless_empty false nes h some_ = h

  -- The constraints of a buffer that is not an empty one.
  buff_inputs-at :
      (sw : Switch) (i : ℕ) (buffs : Map (ℕ × ℕ) LeafBuff)
      → Sat m (buff_inputs sw i (values buffs))
      → (key : ℕ × ℕ) (buff : LeafBuff) → find buffs key ≡ some buff
      → buff.empty ≡ false
      → (j : ℕ) × Sat m (inputs sw buff j)
  unfolding buff_inputs find
  buff_inputs-at sw i [] h key buff found some_ = absurd cc
  buff_inputs-at sw i ((k, b) ∷ buffs) h key buff found some_ =
      let parts = (Sat-append m (if b.empty then [] else inputs sw b i) _).0 h in
      elim (found_head k b buff buffs key found) [
        | inl (same, same') ↦ (
          i,
          subst (λ b. Sat m (inputs sw b i)) same'
              (unless_empty b.empty (inputs sw b i) parts.0
                (subst (λ b. b.empty ≡ false) (sym same') some_)),
        )
        | inr (other, later) ↦ buff_inputs-at sw (suc i) buffs parts.1 key buff later some_
      ]

  -- For a switch that the constructor has made from the packet types between its ports, a map
  -- with each pair of ports once, with at least one step and any kind of switch, in a model of
  -- what the constructor asserts and of the constraints that `base_constrs` gives: for every pair
  -- of ports with at least one packet type the switch has a buffer for exactly these types, and
  -- at every step the buffer behaves, with an entry for each of the types, as one of the given
  -- capacity that stores packets before it forwards them.
  pub new_switch_used-IsStored :
      {St : Type 0} (kind : Kind St) (st : St) (slv : SmtSolver) (var_prefix : Text)
      (ports : Map (ℕ × ℕ) (List ℕ)) (steps pkt_types cap me md : ℕ)
      → KeysDiffer ports
      → 0 < steps
      → Models m (new_switch_used slv var_prefix ports steps pkt_types cap me md).1
      → Sat m
          (base_constrs kind
            (new_switch_used slv var_prefix ports steps pkt_types cap me md).0
            st).0
      → (key : ℕ × ℕ) (k : ℕ) (ks : List ℕ) → find ports key ≡ some (k ∷ ks)
      → (buff : LeafBuff) × (find
            (new_switch_used slv var_prefix ports steps pkt_types cap me md).0.buffs
            key
          ≡ some buff)
        × (buff.used_pkt_types ≡ k ∷ ks)
        × ((t : ℕ) → t < steps → IsStored cap (suc (length ks)) (buff_history m buff) t)
  unfolding new_switch_used base_constrs buff_of new_used buff_vars
  new_switch_used-IsStored kind st slv var_prefix ports steps pkt_types cap me md d some_step h sat
        key k ks found =
      let sw = (new_switch_used slv var_prefix ports steps pkt_types cap me md).0 in
      let (slv', here, bounds) =
        used_buffs-IsMadeAt var_prefix steps pkt_types cap me md m ports [] slv key (k ∷ ks) d found
          h in
      let name = buff_name var_prefix key.0 key.1 in
      let buff = (new_used slv' name steps pkt_types me md cap key.0 key.1 (k ∷ ks)).0 in
      let parts = (Sat-append m (buff_inputs sw 0 (get_buff_list sw)) _).0 sat in
      let sized = new_used-IsSized slv' name steps pkt_types me md cap key.0 key.1 (k ∷ ks) in
      let bounded =
        (new_used-IsBounded slv' name steps pkt_types me md cap key.0 key.1 (k ∷ ks) m bounds).1 in
      let (i, holds) = buff_inputs-at sw 0 sw.buffs parts.0 key buff here refl in
      (
        buff,
        here,
        refl,
        (leaf_inputs_iff m sw buff (length ks) (IsSized-IsFull buff steps (length ks) sized)
              some_step (IsBounded-IsCounted m buff steps (suc (length ks)) cap me md sized bounded)
              i refl).0
            holds,
      )
