-- ===== src/Lib.antt =====
-- A model of the kernel that runs functions on virtual cpus, and its correctness.
--
-- The program. A monitor starts a pool of virtual cpus in this kernel. Each cpu fills its tables
-- and waits (main), then enters the scheduler (sched), which runs the functions of one graph in user
-- mode: a cpu that finishes a function releases the functions that wait for it, wakes halted cpus
-- for them, and takes the next runnable function; with none runnable it halts, and the cpu that
-- finds the whole graph finished starts it anew. The state is shared, without locks: the set of
-- runnable functions is a bitmap from which cpus claim bits with `lock btr`, and counters and
-- bitmaps of cpus are changed by atomic instructions.
--
-- The files.
--   Base: numbers of fixed width, Boolean tests, lists and arrays over the native numbers.
--   Bits: the bit instructions (bt, bts, btr, bsf, popcnt) on words as numbers; Bits/Laws,
--     Bits/Count and Bits/Scan are what they do to bits, to the number of bits and what is found.
--   Claim: the extraction of a bit that get_work (src/sched.c) and e_bsf (include/util.h) share, as
--     a machine of single steps; Claim/Word and Claim/Size see the words as a set of bits,
--     Claim/Effect is what a step does to it, Claim/Run is one cpu alone, Claim/Race many at once.
--   Util: CAS, DCAS, xadd, set_bit, reset_bit, lowest_set_bit, e_bsf and blog2 of include/util.h;
--     Util/Identity is get_pool_and_id, get_pool_sz and get_id.
--   Mutex: mutex_lock and mutex_unlock of include/util.h, as steps of many cpus.
--   Sched: src/sched.c. Sched/State is its static variables and what it uses of the graph's
--     metadata; Sched/Queue is add_runnable_fn and get_work, Sched/Dag process_sched_dag, Sched/Wake
--     wake_up_task, Sched/Init scheduler_init_pre, scheduler_init_post and wake_up_event, Sched/Loop
--     sched and jump2fn. Sched/Tally and Sched/Account are the invariants of the two counters
--     runnable_tasks and num_free_vcpu, Sched/Order the order in which the functions of a graph are
--     entered: what dag_in_count and bm_run_fn say about the functions that have finished.
--     Sched/Many is sched as steps of many cpus over dag_in_count, bm_run_fn and num_fin_fn:
--     Sched/Many/Sound is its invariant while a graph runs and Sched/Many/Reset the one while it
--     begins anew; Work, Release, Counted, Look and Reset have the steps, Rounds puts them together,
--     and Runs and Awake conclude; Sched/Many/Tasks adds the accesses to runnable_tasks.
--     Sched/Main is main of src/main.c from its start barrier to its first pass of sched.
--   Cond: cond_wait and cond_set of include/util.h, as steps of many cpus: Cond/Sound is their
--     invariant, with the steps in Cond/Waits and Cond/Sets; Cond/Wakeup is the end of cond_set;
--     Cond/Store adds the store buffer of the cpu that runs cond_set.
--   Barrier: barrier of include/util.h, as steps of many cpus over the value of its condition;
--     Barrier/Phases and Barrier/Rounds have the two phases of a round.
--   Stack: src/stack.c and include/stack.h, with its contract in Stack/Refine. Mm: src/mm.c. Libc: src/libc/util.c.
--   Pic: src/pic.c. Ipi: src/ipi.c and include/apic.h. Interrupt: src/interrupt.c.
--   Boot: the tables, the registers and the start barrier of src/main.c; Boot/Start is init_boot with
--     flush_tss of src/boot.S, Boot/Task and Boot/Loaded what it leaves.
--   Tests and the Tests of Sched, Sched/Order, Sched/Many, Sched/Many/Tasks, Cond, Cond/Store, Barrier
--     and Boot: runs on small inputs, and each theorem at work on one.
--
-- How the code is read. A C integer is a number with its wrap-around written out; int64_t values that
-- are compared with zero are read from their bits (positive64), and a -1 that stands for "nothing"
-- is `none`. A function that changes state takes the state and returns it; arrays and memories are
-- functions of the index. The scheduler's operations are run by one cpu with no other in between;
-- Claim/Race, Sched/Many, Mutex, Cond and Barrier interleave the steps of any number of cpus. Each
-- step is visible to all cpus at once, as that of a `lock` instruction is; the plain store of cond_set,
-- which loads follow without a full fence, is in a store buffer (Cond/Store). In mutex_lock the number
-- of a cpu is below 64, so that `1 << id` is 2 ^ id.
--
-- Fuel. The loops of wake_up_task take a bit out of a 64-bit word in each round, so 65 rounds are
-- given (Sched/Wake/Fuel). get_work alone needs nine steps for four words (Claim/Run). new_work
-- needs two rounds, since a restart leaves a runnable function (Sched/Loop/Work). blog2 needs 64
-- rounds (Util/Laws). The other loops are structural. The number of a cpu is a byte, so Sched/Many/Tasks
-- has at most 256 cpus; Sched/Many has any number.
--
-- Parameters. The end of a `hlt`, by a kick or an interrupt, and what `ltr` loads are the machine's.
-- The time-stamp counter and the type of the stored function times (Machine), the answers of the
-- interrupt controllers and of the local apic, the addresses of the system call entry and of the
-- task state segments, the memory below the stack and the number of the cpu are arguments. The
-- struct t_metadata is declared in another repository: the model has the fields that src/sched.c
-- names. Of the interrupt controllers the data sheet of the 8259A is assumed (IsMask in Pic/Laws): how
-- initialisation words are told from masks, and that a read gives the mask.
--
-- Not modelled. src/boot.S is assembly, of which only flush_tss is modelled; src/libc/printf.c is a
-- vendored library; src/global.c, linker.script and makefile hold addresses and the build; hexdump,
-- what the monitor does on an `out`, the prints and the test functions of src/main.c have no state; cr3, gs and rsp are not kept.
pub mod Base
pub mod Bits
pub mod Claim
pub mod Util
pub mod Sched
pub mod Stack
pub mod Mm
pub mod Libc
pub mod Pic
pub mod Ipi
pub mod Mutex
pub mod Cond
pub mod Barrier
pub mod Boot
pub mod Interrupt
pub mod Tests
