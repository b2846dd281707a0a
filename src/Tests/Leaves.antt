-- ===== src/Tests/Leaves.antt =====
-- The theorems on the buffers of leaf switches, applied to a buffer of a switch with four packet types.
-- Types 3 and 1 are in use, and one step brings a packet of type 1.
use count_buffy.Prelude.{ℕ, zero, suc, ◌<◌, ◌≡◌, refl, ◌↔◌, ◌⊎◌, true, false, [], ◌∷◌, arith, pos}
use count_buffy.Z3.{Holds}
use count_buffy.Vec.{row, sum}
use count_buffy.Workload.{valid_meta}
use count_buffy.Vec.Meaning.{val}
use count_buffy.Leaf.Buffs.{LeafBuff, expanded}
use count_buffy.Leaf.Expansion.{IsDistinct, IsLaidOut, expanded-sum}
use count_buffy.Leaf.OneType.{Arrives, OthersEmpty, valid_meta_iff}
use count_buffy.Tests.{lit, flags, tried, the_model, below_two}

abbrev two_types : LeafBuff
two_types = record {
  I = lit (0 ∷ 1 ∷ []) ∷ [];
  E = lit (0 ∷ 1 ∷ []) ∷ [];
  D = lit (0 ∷ 0 ∷ []) ∷ [];
  B = flags (true ∷ []);
  S = lit (0 ∷ []);
  O = lit (0 ∷ 1 ∷ []) ∷ [];
  C = lit (0 ∷ 0 ∷ []) ∷ [];
  wnd_enq = [];
  wnd_enq_nxt = [];
  wnd_out = [];
  tmp_wnd_enq = [];
  tmp_wnd_enq_nxt = [];
  tmp_wnd_out = [];
  match = flags (true ∷ []);
  src = 2;
  dst = 0;
  empty = false;
  used_pkt_types = 3 ∷ 1 ∷ [];
  pkt_types = 4;
}

two_types-IsDistinct : IsDistinct (3 ∷ 1 ∷ [])
two_types-IsDistinct zero zero b b' e = refl
two_types-IsDistinct zero (suc zero) b b' e = absurd (omega arith)
two_types-IsDistinct (suc zero) zero b b' e = absurd (omega arith)
two_types-IsDistinct (suc zero) (suc zero) b b' e = refl
two_types-IsDistinct i (suc (suc j)) b b' e = absurd (omega arith)
two_types-IsDistinct (suc (suc i)) j b b' e = absurd (omega arith)

two_types-IsLaidOut : IsLaidOut two_types two_types.I 0
two_types-IsLaidOut = record {
  distinct = two_types-IsDistinct;
  types = below_two _ (omega arith) (omega arith);
  time = omega arith;
  width = refl;
}

expanded-sum_example :
    tried.value the_model (sum (row (expanded two_types two_types.I) 0))
    ≡ tried.value the_model (sum (row two_types.I 0))
expanded-sum_example =
    expanded-sum the_model two_types two_types.I 0 two_types-IsLaidOut (omega arith)

valid_meta_iff_example : Holds the_model (valid_meta ((lit (0 ∷ 2 ∷ []) ∷ []) ∷ []) 0 0) ↔ (
    ((p : ℕ) × (p < 2)
      × Arrives the_model (lit (0 ∷ 2 ∷ [])) p
      × OthersEmpty the_model (lit (0 ∷ 2 ∷ [])) p)
    ⊎ ((j : ℕ) → j < 2 → val the_model (lit (0 ∷ 2 ∷ [])) j ≡ pos 0))
valid_meta_iff_example = valid_meta_iff the_model ((lit (0 ∷ 2 ∷ []) ∷ []) ∷ []) 0 0
