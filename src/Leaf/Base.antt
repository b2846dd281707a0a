-- ===== src/Leaf/Base.antt =====
-- What a kind of switch adds to the buffers, and the constraints that the base class collects
-- (`base_constrs`, `trs` and `out` of src/leaf_spine/leaf_base.cpp). A derived class may keep a state
-- of its own, `St`, which its methods may change.

use count_buffy.Prelude.{
  ℕ, suc, ◌-◌, List, [], ◌∷◌, ◌++◌, range, loop, if◌then◌else◌, codes, to_string,
}
use count_buffy.Z3.{Z3}
use count_buffy.NamedExp.{NamedExp}
use count_buffy.NamedExp.{merge_in, extend_suffixed}
use count_buffy.Leaf.Buffs.{LeafBuff}
use count_buffy.Leaf.Switch.{Switch, get_buff_list}
use count_buffy.Leaf.Inputs.{inputs}

pub record Kind ⦃z : Z3⦄ (St : Type 0) : Type 0 where
  pub init : Switch → St → List NamedExp × St
  pub trs : Switch → St → ℕ → List NamedExp × St
  pub out : Switch → St → ℕ → List NamedExp

module _ ⦃z : Z3⦄ where
  -- The inputs of the buffers from the `i`-th on; empty buffers are left out.
  unfoldable pub buff_inputs : Switch → ℕ → List LeafBuff → List NamedExp
  unfolding inputs
  buff_inputs sw i [] = []
  buff_inputs sw i (buff ∷ buffs) =
      (if buff.empty then [] else inputs sw buff i) ++ buff_inputs sw (suc i) buffs

  module _ {St : Type 0} (kind : Kind St) where
    unfoldable pub trs_steps : Switch → List ℕ → St → List NamedExp × St
    trs_steps sw [] st = ([], st)
    trs_steps sw (i ∷ is) st =
        let (nes, st₁) = kind.trs sw st i in
        let (more, st₂) = trs_steps sw is st₁ in (nes ++ more, st₂)

    unfoldable pub trs : Switch → St → List NamedExp × St
    unfolding trs_steps
    trs sw st =
        let (first, st₁) = kind.init sw st in
        let (more, st₂) = trs_steps sw (range 0 (sw.timesteps - 1)) st₁ in (first ++ more, st₂)

    -- All steps are merged to one constraint.
    unfoldable pub out : Switch → St → List NamedExp
    out sw st =
        merge_in
          (loop (λ res j. extend_suffixed res (kind.out sw st j) (codes "@" ++ to_string j)) []
            (range 0 sw.timesteps))
          (codes "out")
        ∷ []

    unfoldable pub base_constrs : Switch → St → List NamedExp × St
    unfolding buff_inputs trs out
    base_constrs sw st =
        let (trs_constrs, st₁) = trs sw st in
        (buff_inputs sw 0 (get_buff_list sw) ++ (trs_constrs ++ out sw st₁), st₁)
