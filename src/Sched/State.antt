-- ===== src/Sched/State.antt =====
-- The state of src/sched.c: its static variables, the fields that it uses of `struct t_metadata`,
-- and what it sends to the machine. The declaration of `struct t_metadata` belongs to another
-- repository (kvm-start/runtime_if.h); here stand the fields that src/sched.c names, with arrays as
-- functions of the index. `dag` and `dag_in_count` hold bytes: `decb` works on a byte, and the
-- `memcpy` between them counts in elements of `dag_in_count`.
use bootcode.Base.{ℕ, ◌+◌, List, ◌∷◌}
use bootcode.Util.{Pair}

pub record FuncInfo : Type 0 where
  pub entry_addr : ℕ
  pub stack_load_addr : ℕ
  pub pt_addr : ℕ
  pub inp_off : ℕ
  pub out_off : ℕ

pub record Metadata : Type 0 where
  pub num_nodes : ℕ
  pub start_func : ℕ
  pub dag : ℕ → ℕ
  pub dag_in_count : ℕ → ℕ
  pub current : ℕ → ℕ
  pub func_info : ℕ → FuncInfo
  pub dag_func_time : ℕ → ℕ
  pub dag_ts : ℕ
  pub dag_n : ℕ
  pub dag_tot_tsc_time : ℕ
  pub dag_tot_proc_inp : ℕ

-- What leaves the program: a `vmmcall` that kicks a cpu, a message to the monitor, and the jump to
-- user mode with its three arguments.
pub data Event : Type 0 where
  kick : (cpu : ℕ) → Event
  message : (msg : ℕ) → Event
  jump : (rip stack : ℕ) (arg0 arg1 arg2 : ℕ) → Event

pub record State : Type 0 where
  pub metadata : Metadata
  pub bm_run_fn : List ℕ
  pub num_free_vcpu : ℕ
  pub runnable_tasks : ℕ
  pub vcpu_pool_sz : ℕ
  pub num_fin_fn : ℕ
  pub hlt_ts : ℕ → ℕ
  pub kick_ts : ℕ → ℕ
  pub wake_num_vcpu : ℕ
  pub sig_wake_num_vcpu_is_0 : ℕ
  pub bm_kicked_vcpus : ℕ
  pub bm_inactive_vcpus : ℕ
  pub ss_reflective_bm : Pair
  pub ss_reflective_bm1 : Pair
  pub func_times : ℕ → ℕ
  pub dag_start_tsc : ℕ
  pub pg_root : ℕ → ℕ  -- pg_tbls[id].tbl.e[0]
  pub reads : ℕ  -- how often `tsc` was read
  pub events : List Event  -- the last one first

-- What the machine supplies: the time-stamp counter at each reading, and the cast to the type of
-- the elements of `dag_func_time`.
pub record Machine : Type 0 where
  pub tsc : ℕ → ℕ
  pub to_func_time : ℕ → ℕ

-- The constants of include/globvar.h.
abbrev pub max_cpus : ℕ
max_cpus = 64

abbrev pub null_func : ℕ
null_func = 255

abbrev pub msg_booted : ℕ
msg_booted = 2

abbrev pub msg_waiting_for_work : ℕ
msg_waiting_for_work = 3

-- One more reading of the counter.
abbrev pub tick : State → State
tick s = record s { reads = s.reads + 1 }

abbrev pub emit : Event → State → State
emit e s = record s { events = e ∷ s.events }
