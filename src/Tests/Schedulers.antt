-- ===== src/Tests/Schedulers.antt =====
-- The theorems on the schedulers, applied to the small models.
use count_buffy.Prio.Service as PrioService
use count_buffy.RoundRobin.Service as TurnService
use count_buffy.FairQueue
use count_buffy.FairQueue.Places.{init-place}
use count_buffy.RoundRobin.Fairness.{served_in_round}
use count_buffy.Tests.{flags}
use count_buffy.Prelude.{
  ℕ, ◌+◌, ◌<◌, ◌≡◌, refl, ◌↔◌, true, false, [], ◌∷◌, arith, pos, ◌+ℤ◌, ◌-ℤ◌, ◌≤ℤ◌,
}
use count_buffy.Vec.{Ev2, Bv, at, bit, row, sum, sum_eq}
use count_buffy.NamedExp.{of_expr, Sat}
use count_buffy.Tests.{
  lit, tried, the_model, two_buffers, one_buffer, all_true-Sat, two_buffers-IsShaped,
  two_buffers-IsCounted, one_buffer-IsShaped, one_buffer-IsCounted, below_two,
}
use count_buffy.Prio
use count_buffy.RoundRobin
use count_buffy.RateLimiter
use count_buffy.Sts.Scheduler
use count_buffy.Sts.Inputs.{
  enq_deq_sum_first, enq_deq_sum_at, bl_size, bl_size_at, bl_size_first, enqs, enqs_at, enqs_first,
  drops, drops_at, drops_first, enq_deq_sum,
}
use count_buffy.Vec.{
  sum_to, sum_le, sum_gt, eq_vec, add_vec, sub_vec, get_buf_vec_at_i, get_bits_at_i, get_bufs_at_i,
}
use count_buffy.NamedExp.{extend_suffixed}
use count_buffy.Prio.Service.{out-total}
use count_buffy.Prio.Transition.{trs_redundant}
use count_buffy.RoundRobin.Turn.{trs-IsNext, IsNext}
use count_buffy.RateLimiter.Rate.{served_twice, served, service-busy}
use count_buffy.Prelude.{eqb_ℤ, leb_ℤ}

two_buffers-round_robin :
    Sat the_model (Scheduler.base_constrs RoundRobin.round_robin two_buffers tt).0
unfolding Scheduler.base_constrs Scheduler.inputs Scheduler.trs Scheduler.out Scheduler.trs_steps
    Scheduler.out_steps bl_size bl_size_at bl_size_first enqs enqs_at enqs_first drops drops_at
    drops_first enq_deq_sum sum sum_to sum_le sum_gt sum_eq eq_vec add_vec sub_vec get_buf_vec_at_i
    get_bits_at_i get_bufs_at_i extend_suffixed of_expr RoundRobin.init RoundRobin.init_rounds
    RoundRobin.trs RoundRobin.next_turn RoundRobin.out eqb_ℤ leb_ℤ ◌+ℤ◌ ◌-ℤ◌ enq_deq_sum_first
    enq_deq_sum_at
two_buffers-round_robin =
    all_true-Sat (Scheduler.base_constrs RoundRobin.round_robin two_buffers tt).0 refl

two_buffers-inputs : (i : ℕ) → i < 2 → Sat the_model (Scheduler.inputs two_buffers i)
unfolding Scheduler.inputs bl_size bl_size_at bl_size_first enqs enqs_at enqs_first drops drops_at
    drops_first enq_deq_sum sum sum_to sum_le sum_gt sum_eq eq_vec add_vec sub_vec of_expr eqb_ℤ
    leb_ℤ ◌+ℤ◌ ◌-ℤ◌ enq_deq_sum_first enq_deq_sum_at
two_buffers-inputs =
    below_two (λ i. Sat the_model (Scheduler.inputs two_buffers i))
      (all_true-Sat (Scheduler.inputs two_buffers 0) refl)
      (all_true-Sat (Scheduler.inputs two_buffers 1) refl)

one_buffer-rate_limiter :
    Sat the_model (Scheduler.base_constrs RateLimiter.rate_limiter one_buffer tt).0
unfolding Scheduler.base_constrs Scheduler.inputs Scheduler.trs Scheduler.out Scheduler.trs_steps
    Scheduler.out_steps bl_size bl_size_at bl_size_first enqs enqs_at enqs_first drops drops_at
    drops_first enq_deq_sum sum sum_to sum_le sum_gt sum_eq eq_vec add_vec sub_vec get_buf_vec_at_i
    get_bits_at_i get_bufs_at_i extend_suffixed of_expr RateLimiter.init RateLimiter.trs
    RateLimiter.out eqb_ℤ leb_ℤ ◌+ℤ◌ ◌-ℤ◌ enq_deq_sum_first enq_deq_sum_at
one_buffer-rate_limiter =
    all_true-Sat (Scheduler.base_constrs RateLimiter.rate_limiter one_buffer tt).0 refl

served_in_round_example :
    (s : ℕ) × (s < 2) × (tried.value the_model (sum (row (row two_buffers.O 1) (0 + s))) ≡ pos 1)
served_in_round_example =
    served_in_round the_model two_buffers two_buffers-round_robin (omega arith) 0 1 (omega arith)
      (omega arith)
      (λ s lo hi.
        below_two (λ s. tried.holds the_model (bit (row two_buffers.B 1) s) ≡ true) refl refl s hi)

served_twice_example :
    served the_model one_buffer one_buffer-rate_limiter 0
      +ℤ served the_model one_buffer one_buffer-rate_limiter 1
    ≤ℤ pos 1
served_twice_example =
    served_twice the_model one_buffer one_buffer-rate_limiter 0 one_buffer-IsShaped (omega arith)
      one_buffer-IsCounted 0 (omega arith)

trs-IsNext_example : IsNext the_model (get_bits_at_i two_buffers.B 1) 2 0 0 (pos 1)
unfolding RoundRobin.trs of_expr RoundRobin.next_turn get_bits_at_i eqb_ℤ leb_ℤ ◌+ℤ◌ ◌-ℤ◌
trs-IsNext_example =
    trs-IsNext the_model two_buffers (get_bits_at_i two_buffers.B 0) (lit (0 ∷ []))
      (get_bits_at_i two_buffers.B 1) (lit (1 ∷ [])) 1 0 (omega arith)
      (all_true-Sat
        (RoundRobin.trs two_buffers (get_bits_at_i two_buffers.B 0) (lit (0 ∷ []))
          (get_bits_at_i two_buffers.B 1) (lit (1 ∷ [])) 1)
        refl)
      refl

service-busy_example : tried.holds the_model (bit (row one_buffer.B 0) 1) ≡ true
unfolding sum sum_to ◌+ℤ◌
service-busy_example =
    service-busy the_model one_buffer one_buffer-rate_limiter 0 one_buffer-IsShaped (omega arith)
      one_buffer-IsCounted 0 (omega arith) refl

-- What the first step of the two buffers asks of the outputs.
two_buffers-out :
    Sat the_model
      (Prio.out two_buffers (get_bits_at_i two_buffers.B 0) [] (get_buf_vec_at_i two_buffers.O 0) 0)
unfolding Prio.out Prio.out_rounds get_bits_at_i get_buf_vec_at_i of_expr sum_eq sum sum_to eqb_ℤ
    leb_ℤ ◌+ℤ◌ ◌-ℤ◌
two_buffers-out =
    all_true-Sat
      (Prio.out two_buffers (get_bits_at_i two_buffers.B 0) [] (get_buf_vec_at_i two_buffers.O 0) 0)
      refl

trs_redundant_example :
    Sat the_model
      (Prio.trs two_buffers (get_bits_at_i two_buffers.B 0) [] (get_bits_at_i two_buffers.B 1) [] 1)
trs_redundant_example =
    trs_redundant the_model two_buffers 0 0 (omega arith) two_buffers-IsShaped two_buffers-IsCounted
      two_buffers-inputs [] [] [] two_buffers-out

-- The bits and the outputs of the second step.
abbrev second_bits : Bv
second_bits = flags (false ∷ true ∷ [])

abbrev second_out : Ev2
second_out = lit (0 ∷ []) ∷ lit (1 ∷ []) ∷ []

first_served_iff_example :
    Sat the_model (Prio.out two_buffers second_bits [] second_out 1)
    ↔ ((i : ℕ) → i < 2 → PrioService.Serves the_model second_bits second_out i)
first_served_iff_example =
    PrioService.first_served_iff the_model two_buffers second_bits [] second_out 1

turn_served_iff_example :
    Sat the_model (RoundRobin.out two_buffers second_bits (lit (1 ∷ [])) second_out 1)
    ↔ ((i : ℕ) → i < 2 → TurnService.Serves the_model second_bits second_out (pos 1) i)
turn_served_iff_example =
    TurnService.turn_served_iff the_model two_buffers second_bits (lit (1 ∷ [])) second_out 1

-- Places of two buffers over one step.
abbrev queues : FairQueue.FairQueue
queues = record {
  ss = [];
  nq = lit (9 ∷ []) ∷ lit (9 ∷ []) ∷ [];
  oq = lit (9 ∷ []) ∷ lit (9 ∷ []) ∷ [];
  tmp = [];
  ipn = [];
  ipo = [];
}

init-place_example :
    tried.value the_model (at (row (FairQueue.init two_buffers queues second_bits []).1.nq 1) 0)
    ≡ pos 0
init-place_example =
    init-place the_model second_bits two_buffers queues [] (omega arith)
      (below_two _ (omega arith) (omega arith)) 1 (omega arith)
