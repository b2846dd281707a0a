-- ===== src/Lib.antt =====
-- Count Buffy: a program that models network contention points (schedulers, rate limiters, switches)
-- as constraints on packet counts and asks an SMT solver about them. A checker declares variables for
-- each buffer, time step and packet type, collects constraints with a name from the buffers and from
-- the scheduler, adds those of a workload, and asks whether a query can be met or must be.
--
-- The parts and how they interact:
--   Prelude        shared names, integers over the native numbers, lists, loops, sums.
--   Z3             the solver library as an interface: expressions with their values in a model, and a
--                  stack of assertions. Concrete is an implementation for a theory with one model, on
--                  which the examples run.
--   Vec            src/lib.cpp: vectors of expressions, sums and comparisons (`operator==`, `sum`,
--                  `get_buf_vec_at_i`).
--   NamedExp       src/named_expr.cpp and the constraints' part of src/lib.cpp (`merge`, `extend`).
--   Solver         src/smt_solver.cpp: `ivvv`, `bvv`, `add`, `add_bound`, `capped`, `check_sat`,
--                  `check_unsat`. A call takes the solver object and gives the one that it leaves.
--   Buffer         a specification that is not in the sources: a bounded queue of counted packets, and in
--                  Buffer.Store the one of the switches, which stores packets before it forwards them.
--   Sts            src/sts_checker.cpp: the record Sts is the object's state, Inputs has `bl_size`,
--                  `enqs`, `drops` and `enq_deq_sum`, Windows `winds` and `winds_old`, Scheduler the
--                  virtual methods and what the base class collects from them, Checks the four checks.
--   Prio           src/prio_sts.cpp, RoundRobin src/rr_checker.cpp, FairQueue src/FqChecker.cpp,
--                  Merger src/merger.cpp with src/trivial_sts.cpp and src/classifier.cpp, RateLimiter
--                  examples/rate_limiter.cpp: each gives a Scheduler record to Sts.Scheduler.
--   Leaf           src/leaf_spine: the buffers in Buffs, the base class in Switch, Inputs, Windows and
--                  Base, the two kinds of switch in Fperf (fperf_leaf_sts.cpp) and Turns
--                  (leaf_sts.cpp), each a Kind record for Base, and Demux (demux_switch.cpp); Metadata
--                  and Ports have leaf_utils.cpp, Workload the extractor, Workload.Lines the parser,
--                  Workload.Used the values that a workload lets an input send.
--   Lst            lst.cpp, one of the programs: the tables of the
--                  topology, the network of switches and links, and its checks. Lsl is lsl.cpp, the
--                  same network with its tables written out; Programs has rr.cpp, fq.cpp and prio.cpp,
--                  and Programs.Composed the composition of loom.cpp.
--   Workload       src/gen/constr_extractor.cpp and src/gen/wl_parser.cpp.
--   Runner         src/sts_runner.cpp, src/loom_sts_runner.cpp and src/utils.cpp.
--   Tests          small models on which the theorems are applied.
--
-- How the code is read: an expression of the solver library is a value of a type for its sort; an
-- in-place change of a vector gives a new vector; `runtime_error`, a failed `assert` and
-- `invalid_argument` are results. A read outside a vector gives an undefined expression, of which
-- nothing is assumed, and a write there changes nothing. Sizes, times and indices are natural numbers;
-- where the sources count below 0 the definition says what becomes of it. Machine integers are not
-- bounded: the sizes are far below the limit. Loops run over lists of indices, so no fuel is used,
-- except for the digits of a number, which are fewer than the number plus one.
--
-- Not modelled: exceptions that the solver library throws when a constraint is added; the two asserts
-- of `RRChecker::trs` on the sizes of its vectors, which have an entry for each buffer; printing,
-- statistics, files, directories and the clock; the generated parser of the workload language, which
-- is a parameter that gives the nodes of a line, and the library that evaluates a comparison, a
-- parameter of Leaf.Workload.Used; the sequence variables (src/IntSeq.cpp, `sv`, `svv`), which no
-- checker uses; and leaf.cpp, which includes headers that the repository does not have.
pub mod Prelude
pub mod Z3
pub mod Vec
pub mod NamedExp
pub mod Buffer
pub mod Solver
pub mod Sts
pub mod Prio
pub mod RoundRobin
pub mod FairQueue
pub mod Merger
pub mod RateLimiter
pub mod Leaf
pub mod Workload
pub mod Runner
pub mod Programs
pub mod Lst
pub mod Lsl
pub mod Tests
