-- ===== src/Sched/Order.antt =====
-- The order of the functions of a graph: what `dag_in_count` and `bm_run_fn` say about which
-- functions have been started and finished since the graph was last started.
mod Owed
mod Finish
mod Enter
mod Work
mod Pass
mod Live
mod Run
pub mod Tests
use bootcode.Base.{ℕ, zero, suc, ◌+◌, ◌≤◌, ◌<◌, ◌≡◌, Bool, true, false, ◌||◌, if◌then◌else◌, u8}
use bootcode.Claim.Word.{has}
use bootcode.Sched.State.{State, Metadata}
use bootcode.Sched.Queue.Laws.{IsBitmap}
use bootcode.Sched.Dag.Laws.{uses, out_edges}

-- The edges into `j` from the functions below `n` that have not finished.
unfoldable pub owed : Metadata → (ℕ → Bool) → ℕ → ℕ → ℕ
owed g done zero j = 0
owed g done (suc n) j = owed g done n j + (if done n then 0 else uses j (out_edges g n))

abbrev pub nobody : ℕ → Bool
nobody f = false

-- What the scheduler relies on in the graph that the monitor has written: numbers below
-- `NULL_FUNC`, edges that end in the graph, in-degrees that count the edges, and a start function
-- that is the only one without an edge to it.
pub record IsGraph (g : Metadata) : Type 0 where
  pub nodes : g.num_nodes ≤ 255
  pub targets : (f j : ℕ) → f < g.num_nodes → g.num_nodes ≤ j → uses j (out_edges g f) ≡ 0
  pub degrees : (j : ℕ) → j < g.num_nodes → u8 (g.dag j) ≡ owed g nobody g.num_nodes j
  pub start : g.start_func < g.num_nodes
  pub source : owed g nobody g.num_nodes g.start_func ≡ 0
  pub only : (j : ℕ) → j < g.num_nodes → owed g nobody g.num_nodes j ≡ 0 → j ≡ g.start_func

-- The state has the graph `g`, a bitmap of four words and in-counts that are bytes.
pub record Carries (g : Metadata) (s : State) : Type 0 where
  pub dag : s.metadata.dag ≡ g.dag
  pub num_nodes : s.metadata.num_nodes ≡ g.num_nodes
  pub start_func : s.metadata.start_func ≡ g.start_func
  pub bitmap : IsBitmap s.bm_run_fn
  pub bytes : (j : ℕ) → s.metadata.dag_in_count j < 256

-- With `started` and `done` the functions entered and finished since the start of the graph `g`:
-- the in-count of a function is the number of its edges from unfinished functions, and runnable are
-- exactly those that have none and were not started.
pub record IsOrdered (g : Metadata) (done started : ℕ → Bool) (s : State) : Type 0 where
  pub carries : Carries g s
  pub counts : (j : ℕ) → j < g.num_nodes → s.metadata.dag_in_count j ≡ owed g done g.num_nodes j
  pub waiting :
      (j : ℕ)
      → has s.bm_run_fn j ≡ true
      → (j < g.num_nodes) × (owed g done g.num_nodes j ≡ 0) × (started j ≡ false)
  pub ready :
      (j : ℕ)
      → j < g.num_nodes
      → owed g done g.num_nodes j ≡ 0
      → (started j || has s.bm_run_fn j) ≡ true
  pub begun : (j : ℕ) → started j ≡ true → (j < g.num_nodes) × (owed g done g.num_nodes j ≡ 0)
  pub finished : (j : ℕ) → done j ≡ true → started j ≡ true
