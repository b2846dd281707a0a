-- ===== src/Sts/Constructed.antt =====
-- A checker as its constructor makes it: the sizes of its arrays and the bounds on their entries, and
-- with them what a model of its constraints is.
use count_buffy.Prelude.{refl, ℕ, suc, ◌<◌, ◌≡◌, [], arith, pos, ◌≤ℤ◌, length, All-get, All, Text}
use count_buffy.Z3.{Z3}
use count_buffy.Vec.{Ev3, row}
use count_buffy.NamedExp.{Sat}
use count_buffy.Sts.{Sts}
use count_buffy.Solver.{SmtSolver, returns, ivvv, add_bound}
use count_buffy.Solver.Models.{Models}
use count_buffy.Solver.Arrays.{ivvv-shape, IsMatrix}
use count_buffy.Solver.Bounds.{Within, add_bound-Models}
use count_buffy.Sts.{new_sts, add_bounds, max_i}
use count_buffy.Sts.Inputs.Steps.{IsShaped, history}
use count_buffy.Sts.Inputs.Exact.{inputs-IsRun}
use count_buffy.Buffer.{IsRun, IsCounted}
use count_buffy.Sts.Scheduler.{Scheduler, base_constrs, inputs}
use count_buffy.Sts.Scheduler.Steps.{base-inputs}
use count_buffy.Sts.Checks.{check_wl_and_query_sat}
use count_buffy.Sts.Checks.Verdicts.{check_wl_and_query_sat-Models}
use count_buffy.Vec.Meaning.{val}

module _ ⦃z : Z3⦄ where
  pub ivvv-row :
      (n m k : ℕ) (name : Text) (slv : SmtSolver) (i t : ℕ)
      → i < n
      → t < m
      → length (row (row (ivvv n m k name slv).0 i) t) ≡ k
  ivvv-row n m k name slv i t ib tb =
      let (all, each) = ivvv-shape n m k name slv in
      let (rows, cols) = All-get (IsMatrix m k) (ivvv n m k name slv).0 i [] each (omega arith) in
      All-get (λ v. length v ≡ k) (row (ivvv n m k name slv).0 i) t [] cols (omega arith)

  module _ (m : z.Model) where
    -- The bounds that matter for a buffer's history.
    pub record InBounds (sts : Sts) : Type 0 where
      pub bound_I : All (All (All (Within m (pos 0) (pos max_i)))) sts.I
      pub bound_E : All (All (All (Within m (pos 0) (pos sts.me)))) sts.E
      pub bound_D : All (All (All (Within m (pos 0) (pos sts.me)))) sts.D
      pub bound_O : All (All (All (Within m (pos 0) (pos sts.md)))) sts.O
      pub bound_C : All (All (All (Within m (pos 0) (pos sts.c)))) sts.C

    -- Later bounds do not undo earlier ones.
    earlier :
        (slv : SmtSolver) (vvv : Ev3) (upper : ℕ)
        → Models m (add_bound slv vvv (pos 0) (pos upper))
        → Models m slv
    earlier slv vvv upper h = ((add_bound-Models m (pos 0) (pos upper) vvv slv).0 h).0

    bounded :
        (slv : SmtSolver) (vvv : Ev3) (upper : ℕ)
        → Models m (add_bound slv vvv (pos 0) (pos upper))
        → All (All (All (Within m (pos 0) (pos upper)))) vvv
    bounded slv vvv upper h = ((add_bound-Models m (pos 0) (pos upper) vvv slv).0 h).1

    pub add_bounds-InBounds :
        (slv : SmtSolver) (sts : Sts) → Models m (add_bounds slv sts) → Models m slv × InBounds sts
    unfolding add_bounds
    add_bounds-InBounds slv sts h =
        let h = earlier _ _ _ h in
        let h = earlier _ _ _ h in
        let h = earlier _ _ _ h in
        let h = earlier _ _ _ h in
        let h = earlier _ _ _ h in
        let h = earlier _ _ _ h in
        let c = bounded _ _ _ h in
        let h = earlier _ _ _ h in
        let o = bounded _ _ _ h in
        let h = earlier _ _ _ h in
        let d = bounded _ _ _ h in
        let h = earlier _ _ _ h in
        let e = bounded _ _ _ h in
        let h = earlier _ _ _ h in
        let i = bounded _ _ _ h in
        (
          earlier _ _ _ h,
          record { bound_I = i; bound_E = e; bound_D = d; bound_O = o; bound_C = c },
        )

    nonneg_at :
        (upper : ℕ) (vvv : Ev3) (i t p n steps k : ℕ)
        → All (All (All (Within m (pos 0) (pos upper)))) vvv
        → (length vvv ≡ n) × All (IsMatrix steps k) vvv
        → i < n
        → t < steps
        → p < k
        → pos 0 ≤ℤ val m (row (row vvv i) t) p
    nonneg_at upper vvv i t p n steps k bounds (all, each) ib tb pb =
        let (rows, cols) = All-get (IsMatrix steps k) vvv i [] each (omega arith) in
        let len = All-get (λ v. length v ≡ k) (row vvv i) t [] cols (omega arith) in
        (All-get (Within m (pos 0) (pos upper)) (row (row vvv i) t) p z.undefined_int
          (All-get (All (Within m (pos 0) (pos upper))) (row vvv i) t []
            (All-get (All (All (Within m (pos 0) (pos upper)))) vvv i [] bounds (omega arith))
            (omega arith))
          (omega arith)).0

  module _ (m : z.Model) (slv : SmtSolver) (var_prefix : Text) (n steps k c me md : ℕ) where
    abbrev pub made : Sts × SmtSolver
    made = new_sts slv var_prefix n steps (suc k) c me md

    pub new_sts-IsShaped : (i : ℕ) → i < n → IsShaped made.0 i k
    unfolding new_sts
    new_sts-IsShaped i ib = record {
      shape_I = λ t b. ivvv-row n steps (suc k) _ _ i t ib b;
      shape_E = λ t b. ivvv-row n steps (suc k) _ _ i t ib b;
      shape_D = λ t b. ivvv-row n steps (suc k) _ _ i t ib b;
      shape_O = λ t b. ivvv-row n steps (suc k) _ _ i t ib b;
      shape_C = λ t b. ivvv-row n steps (suc k) _ _ i t ib b;
    }

    pub new_sts-IsCounted :
        Models m made.1 → (i : ℕ) → i < n → IsCounted (suc k) steps (history m made.0 i)
    unfolding new_sts
    new_sts-IsCounted h i ib =
        let (old, bounds) = add_bounds-InBounds m _ made.0 h in
        record {
          arrived_nonneg = λ t p tb pb.
              nonneg_at m max_i _ i t p n steps (suc k) bounds.bound_I
                (ivvv-shape n steps (suc k) _ _) ib tb pb;
          enqueued_nonneg = λ t p tb pb.
              nonneg_at m me _ i t p n steps (suc k) bounds.bound_E (ivvv-shape n steps (suc k) _ _)
                ib tb pb;
          dropped_nonneg = λ t p tb pb.
              nonneg_at m me _ i t p n steps (suc k) bounds.bound_D (ivvv-shape n steps (suc k) _ _)
                ib tb pb;
          left_nonneg = λ t p tb pb.
              nonneg_at m md _ i t p n steps (suc k) bounds.bound_O (ivvv-shape n steps (suc k) _ _)
                ib tb pb;
          held_nonneg = λ t p tb pb.
              nonneg_at m c _ i t p n steps (suc k) bounds.bound_C (ivvv-shape n steps (suc k) _ _)
                ib tb pb;
        }

    made-num_bufs : made.0.num_bufs ≡ n
    unfolding new_sts
    made-num_bufs = refl

    -- Every model of a constructed checker's constraints is a run of each of its buffers.
    pub new_sts-IsRun :
        Models m made.1
        → (i : ℕ) → i < n
        → 0 < steps
        → Sat m (inputs made.0 i)
        → IsRun c (suc k) steps (history m made.0 i)
    unfolding new_sts
    new_sts-IsRun h i ib sb sat =
        inputs-IsRun m made.0 i k (new_sts-IsShaped i ib) sb (new_sts-IsCounted h i ib) sat

    -- For a checker that the constructor has made, with at least one step, one packet type and
    -- any scheduler: when `check_wl_and_query_sat` returns a model, every buffer's history in the
    -- model is a run of the buffer specification with the constructor's capacity, and the model
    -- satisfies the scheduler's workload and query.
    pub check_wl_and_query_sat-IsRun :
        {St : Type 0} (sch : Scheduler St) (st : St)
        → 0 < steps
        → (check_wl_and_query_sat sch made.0 st made.1).0 ≡ returns m
        → ((i : ℕ) → i < n → IsRun c (suc k) steps (history m made.0 i))
          × Sat m (sch.workload made.0 st)
          × Sat m (sch.query made.0 (base_constrs sch made.0 st).1)
    check_wl_and_query_sat-IsRun sch st sb h =
        let (old, workload, base, query) = check_wl_and_query_sat-Models sch made.0 st m made.1 h in
        (
          λ i ib.
              new_sts-IsRun old i ib sb (base-inputs m sch made.0 st base i (rw made-num_bufs ib)),
          workload,
          query,
        )
