-- ===== src/Leaf/Constructed.antt =====
-- A buffer of a switch as its constructor makes it: the sizes of its matrices and the bounds on their
-- entries.

pub mod Runs
use count_buffy.Prelude.{
  ℕ, suc, ◌<◌, ◌≡◌, ◌∙◌, List, [], length, All, All-get, arith, pos, ◌≤ℤ◌, Text, subst,
}
use count_buffy.Z3.{Z3, Holds, flatten}
use count_buffy.Vec.{Ev, Ev2, row}
use count_buffy.Vec.Meaning.{val}
use count_buffy.Solver.{SmtSolver, iv_used, ivv_used, add_bound_rows}
use count_buffy.Solver.Models.{Models}
use count_buffy.Solver.Bounds.{Within, add_bound_rows-Models}
use count_buffy.Solver.Arrays.{
  IsMatrix, ivv_used-shape, ivv_used-keeps, iv_used-keeps, bv-keeps, bv_const-keeps, iv_const-keeps,
  ivv_const-keeps,
}
use count_buffy.Sts.{max_i}
use count_buffy.Buffer.{IsCounted}
use count_buffy.Leaf.Buffs.{LeafBuff, buff_vars, buff_bounds, new_used, new_empty}
use count_buffy.Leaf.Inputs.Steps.{IsFull, buff_history}

-- The bounds that matter for a buffer's history.
pub record IsBounded ⦃z : Z3⦄ (m : z.Model) (buff : LeafBuff) (cap me md : ℕ) : Type 0 where
  pub bound_I : All (All (Within m (pos 0) (pos max_i))) buff.I
  pub bound_E : All (All (Within m (pos 0) (pos me))) buff.E
  pub bound_D : All (All (Within m (pos 0) (pos me))) buff.D
  pub bound_O : All (All (Within m (pos 0) (pos md))) buff.O
  pub bound_C : All (All (Within m (pos 0) (pos cap))) buff.C

-- The sizes of the matrices that a history reads.
pub record IsSized ⦃z : Z3⦄ (buff : LeafBuff) (steps k : ℕ) : Type 0 where
  pub size_I : IsMatrix steps k buff.I
  pub size_E : IsMatrix steps k buff.E
  pub size_D : IsMatrix steps k buff.D
  pub size_O : IsMatrix steps k buff.O
  pub size_C : IsMatrix steps k buff.C

module _ ⦃z : Z3⦄ where
  matrix_row :
      (steps k : ℕ) (vv : Ev2) (t : ℕ) → IsMatrix steps k vv → t < steps → length (row vv t) ≡ k
  matrix_row steps k vv t (rows, cols) b = All-get (λ v. length v ≡ k) vv t [] cols (omega arith)

  pub IsSized-IsFull :
      (buff : LeafBuff) (steps k : ℕ) → IsSized buff steps (suc k) → IsFull buff steps k
  IsSized-IsFull buff steps k sized = record {
    shape_I = λ t b. matrix_row steps (suc k) buff.I t sized.size_I b;
    shape_E = λ t b. matrix_row steps (suc k) buff.E t sized.size_E b;
    shape_D = λ t b. matrix_row steps (suc k) buff.D t sized.size_D b;
    shape_O = λ t b. matrix_row steps (suc k) buff.O t sized.size_O b;
    shape_C = λ t b. matrix_row steps (suc k) buff.C t sized.size_C b;
  }

  module _ (m : z.Model) where
    nonneg_in :
        (upper : ℕ) (vv : Ev2) (t p steps k : ℕ)
        → All (All (Within m (pos 0) (pos upper))) vv
        → IsMatrix steps k vv
        → t < steps
        → p < k
        → pos 0 ≤ℤ val m (row vv t) p
    nonneg_in upper vv t p steps k bounds sized tb pb =
        let size = matrix_row steps k vv t sized tb in
        (All-get (Within m (pos 0) (pos upper)) (row vv t) p z.undefined_int
          (All-get (All (Within m (pos 0) (pos upper))) vv t [] bounds (omega (arith, sized.0)))
          (omega arith)).0

    pub IsBounded-IsCounted :
        (buff : LeafBuff) (steps k cap me md : ℕ)
        → IsSized buff steps k
        → IsBounded m buff cap me md
        → IsCounted k steps (buff_history m buff)
    IsBounded-IsCounted buff steps k cap me md sized bounds = record {
      arrived_nonneg = λ t p. nonneg_in max_i buff.I t p steps k bounds.bound_I sized.size_I;
      enqueued_nonneg = λ t p. nonneg_in me buff.E t p steps k bounds.bound_E sized.size_E;
      dropped_nonneg = λ t p. nonneg_in me buff.D t p steps k bounds.bound_D sized.size_D;
      left_nonneg = λ t p. nonneg_in md buff.O t p steps k bounds.bound_O sized.size_O;
      held_nonneg = λ t p. nonneg_in cap buff.C t p steps k bounds.bound_C sized.size_C;
    }

    before_bound :
        (slv : SmtSolver) (vv : Ev2) (upper : ℕ)
        → Models m (add_bound_rows slv vv (pos 0) (pos upper))
        → Models m slv
    before_bound slv vv upper h = ((add_bound_rows-Models m (pos 0) (pos upper) vv slv).0 h).0

    in_bound :
        (slv : SmtSolver) (vv : Ev2) (upper : ℕ)
        → Models m (add_bound_rows slv vv (pos 0) (pos upper))
        → All (All (Within m (pos 0) (pos upper))) vv
    in_bound slv vv upper h = ((add_bound_rows-Models m (pos 0) (pos upper) vv slv).0 h).1

    pub buff_bounds-IsBounded :
        (slv : SmtSolver) (buff : LeafBuff) (me md cap : ℕ)
        → Models m (buff_bounds slv buff me md cap)
        → Models m slv × IsBounded m buff cap me md
    unfolding buff_bounds
    buff_bounds-IsBounded slv buff me md cap h =
        let h = before_bound _ _ _ h in
        let h = before_bound _ _ _ h in
        let h = before_bound _ _ _ h in
        let h = before_bound _ _ _ h in
        let h = before_bound _ _ _ h in
        let h = before_bound _ _ _ h in
        let c = in_bound _ _ _ h in
        let h = before_bound _ _ _ h in
        let o = in_bound _ _ _ h in
        let h = before_bound _ _ _ h in
        let d = in_bound _ _ _ h in
        let h = before_bound _ _ _ h in
        let e = in_bound _ _ _ h in
        let h = before_bound _ _ _ h in
        let i = in_bound _ _ _ h in
        (
          before_bound _ _ _ h,
          record { bound_I = i; bound_E = e; bound_D = d; bound_O = o; bound_C = c },
        )

  -- Declaring the variables asserts nothing.
  module _ (mat : Text → SmtSolver → Ev2 × SmtSolver) (vec : Text → SmtSolver → Ev × SmtSolver)
      (mat-keeps : (name : Text) (slv : SmtSolver) → (mat name slv).1.s ≡ slv.s)
      (vec-keeps : (name : Text) (slv : SmtSolver) → (vec name slv).1.s ≡ slv.s) where
    pub buff_vars-keeps :
        (slv : SmtSolver) (var_prefix : Text) (steps pkt_types src dst : ℕ) (used : List ℕ)
        → (buff_vars mat vec slv var_prefix steps pkt_types src dst used).1.s ≡ slv.s
    unfolding buff_vars
    buff_vars-keeps slv var_prefix steps pkt_types src dst used =
        bv-keeps _ _ _
        ∙ mat-keeps _ _
        ∙ mat-keeps _ _
        ∙ mat-keeps _ _
        ∙ mat-keeps _ _
        ∙ mat-keeps _ _
        ∙ mat-keeps _ _
        ∙ mat-keeps _ _
        ∙ mat-keeps _ _
        ∙ vec-keeps _ _
        ∙ bv-keeps _ _ _
        ∙ mat-keeps _ _
        ∙ mat-keeps _ _
        ∙ mat-keeps _ _

  pub new_empty-keeps :
      (slv : SmtSolver) (steps pkt_types src dst : ℕ)
      → (new_empty slv steps pkt_types src dst).1.s ≡ slv.s
  unfolding new_empty
  new_empty-keeps slv steps pkt_types src dst =
      bv_const-keeps _ _ _
      ∙ ivv_const-keeps _ _ _ _
      ∙ ivv_const-keeps _ _ _ _
      ∙ ivv_const-keeps _ _ _ _
      ∙ ivv_const-keeps _ _ _ _
      ∙ ivv_const-keeps _ _ _ _
      ∙ ivv_const-keeps _ _ _ _
      ∙ ivv_const-keeps _ _ _ _
      ∙ ivv_const-keeps _ _ _ _
      ∙ iv_const-keeps _ _ _
      ∙ bv_const-keeps _ _ _
      ∙ ivv_const-keeps _ _ _ _
      ∙ ivv_const-keeps _ _ _ _
      ∙ ivv_const-keeps _ _ _ _

  module _ (slv : SmtSolver) (var_prefix : Text) (steps pkt_types me md cap src dst : ℕ)
      (used : List ℕ) where
    abbrev made_buff : LeafBuff × SmtSolver
    made_buff = new_used slv var_prefix steps pkt_types me md cap src dst used

    pub new_used-IsSized : IsSized made_buff.0 steps (length used)
    unfolding new_used buff_vars
    new_used-IsSized = record {
      size_I = ivv_used-shape steps pkt_types _ used _;
      size_E = ivv_used-shape steps pkt_types _ used _;
      size_D = ivv_used-shape steps pkt_types _ used _;
      size_O = ivv_used-shape steps pkt_types _ used _;
      size_C = ivv_used-shape steps pkt_types _ used _;
    }

    pub new_used-IsBounded :
        (m : z.Model) → Models m made_buff.1 → Models m slv × IsBounded m made_buff.0 cap me md
    unfolding new_used
    new_used-IsBounded m h =
        let (declared, bounds) = buff_bounds-IsBounded m _ _ me md cap h in
        (
          subst (λ s. All (Holds m) (flatten (z.frames s)))
              (buff_vars-keeps (λ name. ivv_used steps pkt_types name used)
                (λ name. iv_used steps name used)
                (λ name slv. ivv_used-keeps steps pkt_types name used slv)
                (λ name slv. iv_used-keeps steps name used slv) slv var_prefix steps pkt_types src
                dst used)
              declared,
          bounds,
        )
