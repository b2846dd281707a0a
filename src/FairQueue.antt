-- ===== src/FairQueue.antt =====
-- src/FqChecker.hpp and src/FqChecker.cpp: the fair-queueing scheduler. Each buffer has a place in the
-- queue of new flows and one in that of old flows: 0 is the head, and -1 is outside.
pub mod Places
pub mod Activation
use count_buffy.Prelude.{
  ℕ, zero, suc, ◌+◌, ◌-◌, ◌*◌, ◌/◌, ◌%◌, ◌≤◌, ◌<◌, min, ◌≡◌, refl, sym, ap, ◌∙◌, subst, ◌≢◌, ◌↔◌,
  ◌⊎◌, inl, inr, Bool, true, false, Option, none, some, List, [], ◌∷◌, ◌++◌, map, arith, int_laws,
  parts, ℤ, pos, negsuc, ◌+ℤ◌, ◌-ℤ◌, ◌≤ℤ◌, neg_part_nonneg, Bool-cases, Bool_ext, length, get_or,
  set, replicate, All, at_or_after, range, range_from, loop, gather, total, total_congr,
  total_nonneg, zero-+ℤ, +ℤ-zero, ltb, leb, ◌==◌, if◌then◌else◌, Text, codes, to_string, zero_diff,
  pos_part, neg_part,
}
use count_buffy.Z3.{
  Z3, ◌&&◌, ◌||◌, num, Holds, true_holds, conj_iff, disj_iff, neg_iff, implies_iff, eq_iff,
  ite_true, ite_false,
}
use count_buffy.Vec.{Ev, Ev2, Ev3, Bv, Bv2, at, bit, row, sum, sum_eq}
use count_buffy.NamedExp.{NamedExp, of_expr, named, Sat}
use count_buffy.Sts.{Sts, new_sts}
use count_buffy.Sts.Scheduler.{Scheduler}
use count_buffy.Solver.{SmtSolver, ivv, bvv}
use count_buffy.Vec.{get_bufs_at_i, sum_rows_to}

-- What the class adds to the base class. `tmp` is declared with Boolean variables and then written
-- with integer expressions.
pub record FairQueue ⦃z : Z3⦄ : Type 0 where
  pub ss : Ev2
  pub nq : Ev2
  pub oq : Ev2
  pub tmp : List (List (z.BoolExpr ⊎ z.IntExpr))
  pub ipn : Bv2
  pub ipo : Bv2

module _ ⦃z : Z3⦄ where
  -- The constructor; the names of the variables do not have the prefix.
  unfoldable pub new_fair_queue :
      SmtSolver → Text → ℕ → ℕ → ℕ → ℕ → ℕ → ℕ → (Sts × FairQueue) × SmtSolver
  new_fair_queue slv var_prefix n m k c me md =
      let (sts, slv) = new_sts slv var_prefix n m k c me md in
      let (oq, slv) = ivv n m (codes "oq") slv in
      let (nq, slv) = ivv n m (codes "nq") slv in
      let (tmp, slv) = bvv n m (codes "tmp") slv in
      let (ipn, slv) = bvv n m (codes "ipn") slv in
      let (ipo, slv) = bvv n m (codes "ipo") slv in
      (
        (sts, record { ss = []; nq = nq; oq = oq; tmp = map (map inl) tmp; ipn = ipn; ipo = ipo }),
        slv,
      )

  -- `v[i][t] = e`
  abbrev pub set_at {ℓ} : {A : Type ℓ} → List (List A) → ℕ → ℕ → A → List (List A)
  set_at v i t e = set v i (set (row v i) t e)

  abbrev pub outside : z.IntExpr
  outside = z.int_val (negsuc 0)

  -- `max(a, b)`
  unfoldable pub max : z.IntExpr → z.IntExpr → z.IntExpr
  max a b = z.ite_int (z.le b a) a b

  unfoldable pub any_head : Ev → ℕ → z.BoolExpr
  any_head v n = loop (λ r i. r || z.eq (at v i) (num 0)) (z.bool_val false) (range 0 n)

  abbrev pub one_if : z.BoolExpr → Ev → z.BoolExpr
  one_if c o = z.ite c (sum_eq o (pos 1)) (sum_eq o (pos 0))

  unfoldable pub out : Sts → FairQueue → Bv → Ev → Ev2 → ℕ → List NamedExp × FairQueue
  unfolding any_head
  out sts fq bv sv ov t =
      let nq_t = get_bufs_at_i fq.nq t in
      let oq_t = get_bufs_at_i fq.oq t in
      let nq_select = any_head nq_t sts.num_bufs in
      (
        map
            (λ i.
              named
                (z.ite nq_select (one_if (z.eq (at nq_t i) (num 0)) (row ov i))
                  (one_if (z.eq (at oq_t i) (num 0)) (row ov i)))
                (codes "fq_out_NQ[" ++ to_string i ++ codes "]@" ++ to_string t))
            (range 0 sts.num_bufs),
        fq,
      )

  -- For each buffer that is no longer backlogged all places move up; its own place is changed on the
  -- way, and later rounds see that.
  unfoldable pub drop_idle : Bv → ℕ → Ev → Ev
  drop_idle bp n v =
      loop
        (λ v i.
          loop
            (λ v j. set v j (
              z.ite_int (z.neg (bit bp i) && z.le (num 0) (at v i)) (z.sub (at v j) (num 1))
                (at v j)))
            v (range 0 n))
        v (range 0 n)

  -- One step up for every buffer when the head is popped.
  unfoldable pub move_up : z.BoolExpr → ℕ → Ev → Ev
  move_up popped n v =
      loop (λ v i. set v i (z.ite_int popped (z.sub (at v i) (num 1)) (at v i))) v (range 0 n)

  unfoldable pub last_place : Ev → ℕ → z.IntExpr
  unfolding max
  last_place v n = loop (λ m i. max (at v i) m) outside (range 0 n)

  -- The buffers that became backlogged go behind the last place, in the order of their indices.
  unfoldable pub activate : Bv → Bv → Ev × z.IntExpr → ℕ → Ev × z.IntExpr
  activate b bp (v, m) i =
      let i_activated = z.neg (bit b i) && bit bp i in
      (
        set v i (z.ite_int i_activated (z.add m (num 1)) (at v i)),
        z.ite_int i_activated (z.add m (num 1)) m,
      )

  unfoldable pub push_activated : Bv → Bv → ℕ → Ev → Ev
  unfolding last_place activate
  push_activated b bp n v = (loop (activate b bp) (v, last_place v n) (range 0 n)).0

  -- `v[i] < 0` for every buffer.
  unfoldable pub all_outside : Ev → ℕ → z.BoolExpr
  all_outside v n = loop (λ r i. r && z.lt (at v i) (num 0)) (z.bool_val true) (range 0 n)

  unfoldable pub demote : Bv → Bv → Bv → ℕ → Ev → Ev
  unfolding last_place
  demote bp from_nq from_oq n v =
      let max_oq = last_place v n in
      loop
        (λ v i. set v i (
          z.ite_int (bit bp i && (bit from_nq i || bit from_oq i)) (z.add max_oq (num 1)) (at v i)))
        v (range 0 n)

  unfoldable pub trs : Sts → FairQueue → Bv → Ev → Bv → Ev → ℕ → List NamedExp × FairQueue
  unfolding drop_idle move_up push_activated all_outside demote
  trs sts fq b s bp sp tp =
      let n = sts.num_bufs in
      let nq_t = get_bufs_at_i fq.nq (tp - 1) in
      let oq_t = get_bufs_at_i fq.oq (tp - 1) in
      let nq_1 = drop_idle bp n (map (λ i. at nq_t i) (range 0 n)) in
      let oq_1 = drop_idle bp n (map (λ i. at oq_t i) (range 0 n)) in
      let from_nq = map (λ i. z.eq (at nq_1 i) (num 0)) (range 0 n) in
      let pop_from_nq = loop (λ r i. r || bit from_nq i) (z.bool_val false) (range 0 n) in
      let nq_2 = push_activated b bp n (move_up pop_from_nq n nq_1) in
      let empty = all_outside nq_2 n in
      let from_oq = map (λ i. empty && z.eq (at oq_1 i) (num 0)) (range 0 n) in
      let pop_from_oq = loop (λ r i. r || bit from_oq i) (z.bool_val false) (range 0 n) in
      let oq_2 = demote bp from_nq from_oq n (move_up pop_from_oq n oq_1) in
      let name = λ (p : Text) (i : ℕ). p ++ to_string i ++ codes "_" ++ to_string tp in
      (
        gather
            (λ i.
              named (z.eq (at (row fq.nq i) tp) (at nq_2 i)) (name (codes "nq_") i)
              ∷ named (z.eq (at (row fq.oq i) tp) (at oq_2 i)) (name (codes "oq_") i)
              ∷ named (z.iff (bit (row fq.ipn i) tp) (bit from_nq i)) (name (codes "isn_") i)
              ∷ named (z.iff (bit (row fq.ipo i) tp) (bit from_oq i)) (name (codes "iso_") i)
              ∷ [])
            (range 0 n),
        record fq { tmp = loop (λ tmp i. set_at tmp i tp (inr (at nq_2 i))) fq.tmp (range 0 n) },
      )

  -- The backlogged buffers enter the queue of new flows in the order of their indices.
  unfoldable pub init_places : Bv → List ℕ → z.IntExpr → Ev2 → Ev2
  init_places b0 [] max_idx nq = nq
  init_places b0 (i ∷ is) max_idx nq =
      let max_idx' = z.ite_int (bit b0 i) (z.add max_idx (num 1)) max_idx in
      init_places b0 is max_idx' (set_at nq i 0 (z.ite_int (bit b0 i) max_idx' outside))

  unfoldable pub init : Sts → FairQueue → Bv → Ev → List NamedExp × FairQueue
  unfolding init_places
  init sts fq b0 s0 =
      let n = sts.num_bufs in
      let oq = loop (λ oq i. set_at oq i 0 outside) fq.oq (range 0 n) in
      let nq = init_places b0 (range 0 n) outside fq.nq in
      (
        [],
        record fq {
          oq = oq;
          nq = nq;
          ipn = loop (λ ipn i. set_at ipn i 0 (z.eq (at (row nq i) 0) (num 0))) fq.ipn (range 0 n);
          ipo = loop (λ ipo i. set_at ipo i 0 (z.bool_val false)) fq.ipo (range 0 n);
        },
      )

  unfoldable pub workload : Sts → List NamedExp
  workload sts = []

  -- All buffers but the last get a packet a step on average.
  unfoldable pub base_wl : Sts → List NamedExp
  base_wl sts =
      gather
        (λ i.
          if ltb i (sts.num_bufs - 1)
          then map (λ t. of_expr (z.le (num (t + 1)) (sum_rows_to (row sts.I i) t)))
              (range 0 sts.timesteps)
          else [])
        (range 0 sts.num_bufs)

  unfoldable pub query : Sts → List NamedExp
  query sts =
      let query_thresh = sts.timesteps / sts.num_bufs + 3 in
      of_expr
        (z.le (num query_thresh) (sum_rows_to (row sts.O (sts.num_bufs - 1)) (sts.timesteps - 1)))
      ∷ []

  -- `get_state` gives a member that nothing writes.
  unfoldable pub get_state : FairQueue → Ev2
  get_state fq = fq.ss

  abbrev pub fair_queue : Scheduler FairQueue
  fair_queue = record {
    init = init;
    trs = trs;
    out = out;
    workload = λ sts fq. workload sts;
    base_wl = λ sts fq. base_wl sts;
    query = λ sts fq. query sts;
    get_state = λ sts fq. get_state fq;
  }
