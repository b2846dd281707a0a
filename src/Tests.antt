-- ===== src/Tests.antt =====
-- Small models on which the theorems are applied: two buffers over two steps, of one packet type.
pub mod Buffers
pub mod Schedulers
pub mod Solving
pub mod Workloads
pub mod Whole
pub mod Orders
pub mod Leaves
pub mod Switches
pub mod Composition
pub mod Switching
pub mod Networks
pub mod Stores
use count_buffy.Prelude.{
  ℕ, zero, suc, ◌+◌, ◌-◌, ◌*◌, ◌/◌, ◌%◌, ◌≤◌, ◌<◌, min, ◌≡◌, refl, sym, ap, ◌∙◌, subst, ◌≢◌, ◌↔◌,
  ◌⊎◌, inl, inr, Bool, true, false, Option, none, some, List, [], ◌∷◌, ◌++◌, map, arith, int_laws,
  parts, ℤ, pos, negsuc, ◌+ℤ◌, ◌-ℤ◌, ◌≤ℤ◌, neg_part_nonneg, Bool-cases, Bool_ext, length, get_or,
  set, replicate, All, at_or_after, range, range_from, loop, gather, total, total_congr,
  total_nonneg, zero-+ℤ, +ℤ-zero, ltb, leb, ◌==◌, if◌then◌else◌, Text, codes, to_string, zero_diff,
  pos_part, neg_part,
}
use count_buffy.Z3.{
  Z3, ◌&&◌, ◌||◌, num, Holds, true_holds, conj_iff, disj_iff, neg_iff, implies_iff, eq_iff,
  ite_true, ite_false,
}
use count_buffy.Vec.{Ev, Ev2, Ev3, Bv, Bv2, at, bit, row, sum, sum_eq}
use count_buffy.NamedExp.{NamedExp, of_expr, named, Sat}
use count_buffy.Sts.{Sts}
use mathlib.Core.Bool.{◌&&◌ as and_bool}
use count_buffy.Z3.Concrete.{Valuation, concrete}
use count_buffy.Sts.Inputs.Steps.{IsShaped, history}
use count_buffy.Buffer.{IsCounted}

-- All the expressions below are literals, so the valuation is not looked at.
abbrev pub nothing : Valuation
nothing = record { bools = λ x. false; ints = λ x. pos 0 }

instance abbrev pub tried : Z3
tried = concrete nothing

abbrev pub the_model : tried.Model
the_model = tt

abbrev pub lit : List ℕ → Ev
lit ns = map (λ n v. pos n) ns

abbrev pub flags : List Bool → Bv
flags bs = map (λ b v. b) bs

-- One packet type: each step's vector has one entry.
abbrev pub steps : List ℕ → Ev2
steps ns = map (λ n. lit (n ∷ [])) ns

abbrev pub all_true : List NamedExp → Bool
all_true [] = true
all_true (ne ∷ nes) = and_bool (ne.e nothing) (all_true nes)

pub all_true-Sat : (nes : List NamedExp) → all_true nes ≡ true → Sat the_model nes
all_true-Sat [] h = tt
all_true-Sat (ne ∷ nes) h = (ground arith, all_true-Sat nes (ground arith))

pub below_one {ℓ} : (P : ℕ → Type ℓ) → P 0 → (t : ℕ) → t < 1 → P t
below_one P a zero b = a
below_one P a (suc t) b = absurd (omega arith)

pub below_two {ℓ} : (P : ℕ → Type ℓ) → P 0 → P 1 → (t : ℕ) → t < 2 → P t
below_two P a b zero h = a
below_two P a b (suc t) h = below_one (λ t. P (suc t)) b t (omega arith)

-- A checker with the given input, served packets and turns; all packets enter.
abbrev pub checker : Ev3 → Ev3 → Bv2 → Ev3 → Ev3 → Ev2 → ℕ → Sts
checker entering none_ busy leaving held turns n = record {
  I = entering;
  E = entering;
  D = none_;
  B = busy;
  S_int = turns;
  O = leaving;
  C = held;
  wnd_enq = [];
  wnd_enq_nxt = [];
  wnd_out = [];
  tmp_wnd_enq = [];
  tmp_wnd_enq_nxt = [];
  tmp_wnd_out = [];
  match = [];
  num_bufs = n;
  timesteps = 2;
  pkt_types = 1;
  c = 3;
  me = 4;
  md = 1;
  k = 1;
  use_win = false;
}

-- Each of two buffers gets a packet in the first step; the second one's is served in the second step.
abbrev pub two_buffers : Sts
two_buffers =
    checker (steps (1 ∷ 0 ∷ []) ∷ steps (1 ∷ 0 ∷ []) ∷ [])
      (steps (0 ∷ 0 ∷ []) ∷ steps (0 ∷ 0 ∷ []) ∷ [])
      (flags (true ∷ false ∷ []) ∷ flags (true ∷ true ∷ []) ∷ [])
      (steps (1 ∷ 0 ∷ []) ∷ steps (0 ∷ 1 ∷ []) ∷ []) (steps (0 ∷ 0 ∷ []) ∷ steps (1 ∷ 0 ∷ []) ∷ [])
      (lit (0 ∷ 1 ∷ []) ∷ lit (0 ∷ 0 ∷ []) ∷ []) 2

-- Two packets come at once, and one of them is served.
abbrev pub one_buffer : Sts
one_buffer =
    checker (steps (2 ∷ 0 ∷ []) ∷ []) (steps (0 ∷ 0 ∷ []) ∷ []) (flags (true ∷ true ∷ []) ∷ [])
      (steps (1 ∷ 0 ∷ []) ∷ []) (steps (1 ∷ 1 ∷ []) ∷ []) (lit (1 ∷ 0 ∷ []) ∷ []) 1

pub two_buffers-IsShaped : (i : ℕ) → i < 2 → IsShaped two_buffers i 0
two_buffers-IsShaped =
    below_two (λ i. IsShaped two_buffers i 0)
      record {
        shape_I = below_two _ refl refl;
        shape_E = below_two _ refl refl;
        shape_D = below_two _ refl refl;
        shape_O = below_two _ refl refl;
        shape_C = below_two _ refl refl;
      }
      record {
        shape_I = below_two _ refl refl;
        shape_E = below_two _ refl refl;
        shape_D = below_two _ refl refl;
        shape_O = below_two _ refl refl;
        shape_C = below_two _ refl refl;
      }

pub one_buffer-IsShaped : IsShaped one_buffer 0 0
one_buffer-IsShaped = record {
  shape_I = below_two _ refl refl;
  shape_E = below_two _ refl refl;
  shape_D = below_two _ refl refl;
  shape_O = below_two _ refl refl;
  shape_C = below_two _ refl refl;
}

-- One packet type over two steps.
pub in_both {ℓ} : (P : ℕ → ℕ → Type ℓ) → P 0 0 → P 1 0 → (t p : ℕ) → t < 2 → p < 1 → P t p
in_both P a b t p tb pb =
    below_two (λ t. P t p) (below_one (P 0) a p pb) (below_one (P 1) b p pb) t tb

-- No literal is negative.
abbrev pub AllCounted : Sts → ℕ → Type 0
AllCounted sts i = IsCounted 1 2 (history the_model sts i)

pub one_buffer-IsCounted : AllCounted one_buffer 0
one_buffer-IsCounted = record {
  arrived_nonneg = in_both _ (omega arith) (omega arith);
  enqueued_nonneg = in_both _ (omega arith) (omega arith);
  dropped_nonneg = in_both _ (omega arith) (omega arith);
  left_nonneg = in_both _ (omega arith) (omega arith);
  held_nonneg = in_both _ (omega arith) (omega arith);
}

pub two_buffers-IsCounted : (i : ℕ) → i < 2 → AllCounted two_buffers i
two_buffers-IsCounted =
    below_two (AllCounted two_buffers)
      record {
        arrived_nonneg = in_both _ (omega arith) (omega arith);
        enqueued_nonneg = in_both _ (omega arith) (omega arith);
        dropped_nonneg = in_both _ (omega arith) (omega arith);
        left_nonneg = in_both _ (omega arith) (omega arith);
        held_nonneg = in_both _ (omega arith) (omega arith);
      }
      record {
        arrived_nonneg = in_both _ (omega arith) (omega arith);
        enqueued_nonneg = in_both _ (omega arith) (omega arith);
        dropped_nonneg = in_both _ (omega arith) (omega arith);
        left_nonneg = in_both _ (omega arith) (omega arith);
        held_nonneg = in_both _ (omega arith) (omega arith);
      }
