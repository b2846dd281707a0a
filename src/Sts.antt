-- ===== src/Sts.antt =====
-- src/sts_checker.hpp and src/sts_checker.cpp: the state of a checker, its constructor, and, in the
-- modules below, the constraints on the buffers, on the windows, on the scheduler, and the checks.
pub mod Inputs
pub mod Windows
pub mod Scheduler
pub mod Checks
pub mod Constructed
use count_buffy.Prelude.{ℕ, Bool, true, ◌++◌, Text, codes, pos}
use count_buffy.Z3.{Z3}
use count_buffy.Vec.{Ev2, Ev3, Bv2}
use count_buffy.Solver.{SmtSolver, ivvv, ivv, bvv, add_bound}

pub record Sts ⦃z : Z3⦄ : Type 0 where
  pub I : Ev3
  pub E : Ev3
  pub D : Ev3
  pub B : Bv2
  pub S_int : Ev2
  pub O : Ev3
  pub C : Ev3
  pub wnd_enq : Ev3
  pub wnd_enq_nxt : Ev3
  pub wnd_out : Ev3
  pub tmp_wnd_enq : Ev3
  pub tmp_wnd_enq_nxt : Ev3
  pub tmp_wnd_out : Ev3
  pub match : Bv2
  pub num_bufs : ℕ
  pub timesteps : ℕ
  pub pkt_types : ℕ
  pub c : ℕ
  pub me : ℕ
  pub md : ℕ
  pub k : ℕ
  pub use_win : Bool

abbrev pub max_i : ℕ
max_i = 10

module _ ⦃z : Z3⦄ where
  -- The bounds that the constructor asserts, in its order.
  unfoldable pub add_bounds : SmtSolver → Sts → SmtSolver
  add_bounds slv sts =
      let slv = add_bound slv sts.I (pos 0) (pos max_i) in
      let slv = add_bound slv sts.E (pos 0) (pos sts.me) in
      let slv = add_bound slv sts.D (pos 0) (pos sts.me) in
      let slv = add_bound slv sts.O (pos 0) (pos sts.md) in
      let slv = add_bound slv sts.C (pos 0) (pos sts.c) in
      let slv = add_bound slv sts.wnd_enq (pos 0) (pos sts.c) in
      let slv = add_bound slv sts.wnd_enq_nxt (pos 0) (pos sts.c) in
      let slv = add_bound slv sts.wnd_out (pos 0) (pos sts.c) in
      let slv = add_bound slv sts.tmp_wnd_enq (pos 0) (pos sts.c) in
      let slv = add_bound slv sts.tmp_wnd_enq_nxt (pos 0) (pos sts.c) in
      add_bound slv sts.tmp_wnd_out (pos 0) (pos sts.c)

  -- `STSChecker::STSChecker`: `n` buffers, `m` time steps, `k` packet types, capacity `c`, and at most
  -- `me` packets in and `md` out of a buffer in a step.
  unfoldable pub new_sts : SmtSolver → Text → ℕ → ℕ → ℕ → ℕ → ℕ → ℕ → Sts × SmtSolver
  unfolding add_bounds
  new_sts slv var_prefix n m k c me md =
      let (i, slv) = ivvv n m k (codes "I_" ++ var_prefix) slv in
      let (e, slv) = ivvv n m k (codes "E_" ++ var_prefix) slv in
      let (d, slv) = ivvv n m k (codes "D_" ++ var_prefix) slv in
      let (b, slv) = bvv n m (codes "B_" ++ var_prefix) slv in
      let (s, slv) = ivv n m (codes "S_" ++ var_prefix) slv in
      let (o, slv) = ivvv n m k (codes "O_" ++ var_prefix) slv in
      let (cs, slv) = ivvv n m k (codes "C_" ++ var_prefix) slv in
      let (we, slv) = ivvv n m k (codes "WndEnq_" ++ var_prefix) slv in
      let (wn, slv) = ivvv n m k (codes "WndEnqNxt_" ++ var_prefix) slv in
      let (wo, slv) = ivvv n m k (codes "WndOut_" ++ var_prefix) slv in
      let (te, slv) = ivvv n m k (codes "TmpWndEnq_" ++ var_prefix) slv in
      let (tn, slv) = ivvv n m k (codes "TmpWndEnqNxt_" ++ var_prefix) slv in
      let (to, slv) = ivvv n m k (codes "TmpWndOut_" ++ var_prefix) slv in
      let (mt, slv) = bvv n m (codes "Match_" ++ var_prefix) slv in
      let sts : Sts = record {
        I = i;
        E = e;
        D = d;
        B = b;
        S_int = s;
        O = o;
        C = cs;
        wnd_enq = we;
        wnd_enq_nxt = wn;
        wnd_out = wo;
        tmp_wnd_enq = te;
        tmp_wnd_enq_nxt = tn;
        tmp_wnd_out = to;
        match = mt;
        num_bufs = n;
        timesteps = m;
        pkt_types = k;
        c = c;
        me = me;
        md = md;
        k = k;
        use_win = true;
      } in
      (sts, add_bounds slv sts)
