-- ===== src/Tests/Workloads.antt =====
-- The theorems on workloads, applied to a line and to a file.
use count_buffy.Workload.{Extractor, parse_cenq, cenq_sum, get_cenqs_for_buff}
use count_buffy.Workload.Metrics.{at_least, Compares, parse_cenq_iff, cenq_sum-arrivals, arrivals}
use count_buffy.Solver.{returns}
use count_buffy.Runner.Files.{read_wl_file, printed, read-printed}
use count_buffy.Tests.{lit, tried, the_model}
use count_buffy.Prelude.{
  ◌*◌, pos, ℕ, ◌-◌, ◌≤◌, ◌≡◌, refl, ◌↔◌, true, false, List, [], ◌∷◌, map, arith, codes,
}
use count_buffy.NamedExp.{NamedExp, Sat}

-- `cenq` of buffer 0 from step 1 to step 2 is at least `t`, for a buffer that gets 1 and then 2.
abbrev line : Extractor
line = record {
  tmp_ids = 0 ∷ [];
  begin = 1;
  end = 2;
  metric = codes "cenq";
  op = codes ">=";
  rhs = 1;
  rhs_linear = true;
  cenqs = map get_cenqs_for_buff (lit (1 ∷ 2 ∷ []) ∷ []);
  aipgs = [];
  constrs = [];
  it = lit (1 ∷ 2 ∷ []) ∷ [];
  I = [];
  dsts = [];
  ecmps = [];
}

parse_cenq_iff_example :
    (nes : List NamedExp) × (parse_cenq line ≡ returns nes)
    × (Sat the_model nes ↔ (
        (t : ℕ)
        → 1 ≤ t
        → t ≤ 2
        → (true ≡ true
            → Compares at_least (tried.value the_model (cenq_sum line (t - 1))) (pos (1 * t)))
          × (true ≡ false
              → Compares at_least (tried.value the_model (cenq_sum line (t - 1))) (pos 1))))
parse_cenq_iff_example = parse_cenq_iff the_model line at_least refl (omega arith)

cenq_sum-arrivals_example :
    tried.value the_model (cenq_sum line 1) ≡ arrivals the_model (lit (1 ∷ 2 ∷ []) ∷ []) 1 (0 ∷ [])
cenq_sum-arrivals_example = cenq_sum-arrivals the_model line 1 refl ((omega arith, omega arith), tt)

read-printed_example :
    read_wl_file (printed ((true, codes "cenq" ∷ []) ∷ (false, []) ∷ []))
    ≡ (codes "UNSAT" ∷ codes "cenq" ∷ []) ∷ (codes "SAT" ∷ []) ∷ []
read-printed_example =
    read-printed ((true, codes "cenq" ∷ []) ∷ (false, []) ∷ []) (((refl, refl), tt), (tt, tt))
