-- ===== src/Tests/Orders.antt =====
-- The theorems on starvation, places and runs, applied to the small models.
use count_buffy.Prio
use count_buffy.Prio.Starvation.{Starves, query-Starves}
use count_buffy.FairQueue.{last_place, push_activated}
use count_buffy.FairQueue.Activation.{moved, push_activated-moved}
use count_buffy.Workload.{get_aipgs_for_buf}
use count_buffy.Workload.Gaps.{IsGap, get_aipgs_for_buf-value}
use count_buffy.Runner.{after_sat, verdict, judged, run_one, continue, run_all}
use count_buffy.Runner.Frames.{run_all-frames}
use count_buffy.Workload.Lines.{parse, parse_from}
use count_buffy.Sts.Checks.{push, pop}
use count_buffy.Solver.{new_solver, check_sat, model_of}
use count_buffy.Vec.Meaning.{val}
use count_buffy.Prelude.{
  ℕ, ◌+◌, ◌-◌, ◌≤◌, ◌<◌, ◌≡◌, refl, ◌↔◌, true, false, [], ◌∷◌, arith, pos, ◌≤ℤ◌, codes, text_eq,
}
use count_buffy.Vec.{Ev, Bv}
use count_buffy.NamedExp.{Sat}
use count_buffy.Tests.{lit, flags, tried, the_model, two_buffers}

query-Starves_example :
    Sat the_model (Prio.query two_buffers)
    ↔ ((i : ℕ) × (i + Prio.query_tresh ≤ 2) × Starves the_model two_buffers i)
query-Starves_example = query-Starves the_model two_buffers

abbrev places : Ev
places = lit (4 ∷ 0 ∷ 7 ∷ [])

abbrev idle : Bv
idle = flags (false ∷ true ∷ false ∷ [])

abbrev busy : Bv
busy = flags (true ∷ true ∷ true ∷ [])

push_activated-moved_example :
    ((i : ℕ) → i < 3 → val the_model places i ≤ℤ tried.value the_model (last_place places 3))
    × ((i : ℕ)
        → i < 3
        → val the_model (push_activated idle busy 3 places) i
          ≡ moved the_model idle busy places (tried.value the_model (last_place places 3)) i)
push_activated-moved_example = push_activated-moved the_model idle busy 3 places (omega arith)

-- Packets come at the first and at the last step.
abbrev arriving : Ev
arriving = lit (2 ∷ 0 ∷ 0 ∷ 1 ∷ [])

get_aipgs_for_buf-value_example :
    (val the_model (get_aipgs_for_buf arriving) 0 ≡ pos 0)
    × (¬ (val the_model arriving 3 ≤ℤ pos 1) → val the_model (get_aipgs_for_buf arriving) 3 ≡ pos 0)
    × (val the_model arriving 3 ≤ℤ pos 0
        → val the_model (get_aipgs_for_buf arriving) 3
          ≡ val the_model (get_aipgs_for_buf arriving) (3 - 1))
    × (val the_model arriving 3 ≡ pos 1
        → IsGap the_model arriving 3 (val the_model (get_aipgs_for_buf arriving) 3))
get_aipgs_for_buf-value_example =
    get_aipgs_for_buf-value the_model arriving 3 (omega arith) (omega arith)

-- One workload without lines, which is to be satisfiable.
run_all-frames_example : tried.frames new_solver.s ≡ tried.frames new_solver.s
unfolding run_all run_one continue judged verdict after_sat check_sat model_of push pop parse
    parse_from new_solver text_eq
run_all-frames_example =
    run_all-frames (λ t. []) [] 0 0 ((codes "SAT" ∷ []) ∷ []) new_solver new_solver refl
