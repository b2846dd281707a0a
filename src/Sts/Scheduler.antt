-- ===== src/Sts/Scheduler.antt =====
-- What a contention point adds to a checker: the methods that the derived classes override, and the
-- constraints that the base class collects from them (src/sts_checker.cpp). A derived class may keep
-- a state of its own, `St`, which `init`, `trs` and `out` may change.
pub mod Steps
use count_buffy.Prelude.{
  ℕ, ◌+◌, ◌-◌, List, [], ◌∷◌, ◌++◌, codes, to_string, gather, range, if◌then◌else◌,
}
use count_buffy.Z3.{Z3}
use count_buffy.Vec.{Ev, Ev2, Bv, get_buf_vec_at_i, get_bufs_at_i, get_bits_at_i}
use count_buffy.NamedExp.{NamedExp, extend_suffixed}
use count_buffy.Sts.{Sts}
use count_buffy.Sts.Inputs.{bl_size, enqs, drops, enq_deq_sum}
use count_buffy.Sts.Windows.{winds}

-- The overridden methods. `init` sees the first step, `trs` two steps in a row and the later one's
-- index, `out` one step and its index.
pub record Scheduler ⦃z : Z3⦄ (St : Type 0) : Type 0 where
  pub init : Sts → St → Bv → Ev → List NamedExp × St
  pub trs : Sts → St → Bv → Ev → Bv → Ev → ℕ → List NamedExp × St
  pub out : Sts → St → Bv → Ev → Ev2 → ℕ → List NamedExp × St
  pub workload : Sts → St → List NamedExp
  pub base_wl : Sts → St → List NamedExp
  pub query : Sts → St → List NamedExp
  pub get_state : Sts → St → Ev2

module _ ⦃z : Z3⦄ where
  unfoldable pub inputs : Sts → ℕ → List NamedExp
  inputs sts i =
      bl_size sts i
      ++ (enqs sts i
          ++ (drops sts i ++ (enq_deq_sum sts i ++ (if sts.use_win then winds sts i else []))))

  module _ {St : Type 0} (sch : Scheduler St) where
    unfoldable pub trs_steps : Sts → List ℕ → St → List NamedExp × St
    trs_steps sts [] st = ([], st)
    trs_steps sts (i ∷ is) st =
        let state = sch.get_state sts st in
        let (nes, st₁) =
          sch.trs sts st (get_bits_at_i sts.B i) (get_bufs_at_i state i)
            (get_bits_at_i sts.B (i + 1)) (get_bufs_at_i state (i + 1)) (i + 1) in
        let (more, st₂) = trs_steps sts is st₁ in
        (
          extend_suffixed [] nes
                (codes "Trs(" ++ to_string i ++ codes "," ++ to_string (i + 1) ++ codes ")")
              ++ more,
          st₂,
        )

    -- `STSChecker::trs`
    unfoldable pub trs : Sts → St → List NamedExp × St
    unfolding trs_steps
    trs sts st =
        let (first, st₁) =
          sch.init sts st (get_bits_at_i sts.B 0) (get_bufs_at_i (sch.get_state sts st) 0) in
        let (more, st₂) = trs_steps sts (range 0 (sts.timesteps - 1)) st₁ in (first ++ more, st₂)

    unfoldable pub out_steps : Sts → List ℕ → St → List NamedExp × St
    out_steps sts [] st = ([], st)
    out_steps sts (j ∷ js) st =
        let (nes, st₁) =
          sch.out sts st (get_bits_at_i sts.B j) (get_bufs_at_i (sch.get_state sts st) j)
            (get_buf_vec_at_i sts.O j) j in
        let (more, st₂) = out_steps sts js st₁ in
        (extend_suffixed [] nes (codes "@" ++ to_string j) ++ more, st₂)

    -- `STSChecker::out`
    unfoldable pub out : Sts → St → List NamedExp × St
    unfolding out_steps
    out sts st = out_steps sts (range 0 sts.timesteps) st

    unfoldable pub scheduler_constrs : Sts → St → List NamedExp × St
    unfolding trs out
    scheduler_constrs sts st =
        let (trs_constrs, st₁) = trs sts st in
        let (out_constrs, st₂) = out sts st₁ in (trs_constrs ++ out_constrs, st₂)

    unfoldable pub base_constrs : Sts → St → List NamedExp × St
    unfolding inputs trs out
    base_constrs sts st =
        let (trs_constrs, st₁) = trs sts st in
        let (out_constrs, st₂) = out sts st₁ in
        (gather (inputs sts) (range 0 sts.num_bufs) ++ (trs_constrs ++ out_constrs), st₂)
