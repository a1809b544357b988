-- ===== src/Sched/Dag.antt =====
-- `process_sched_dag`: a function has finished, and the functions that wait for it are released.
-- `dag` holds the in-degrees of the nodes, then the `num_nodes + 1` offsets of their out-edges,
-- then the out-edges.
pub mod Laws
use bootcode.Base.{ℕ, zero, suc, ◌+◌, ◌-◌, ◌*◌, ◌==◌, if◌then◌else◌, update, u8}
use bootcode.Sched.State.{State, Metadata}
use bootcode.Sched.Queue.{add_runnable_fn}

-- `lock decb` on the in-count of `out_fn`, and `add_runnable_fn` if that leaves zero.
unfoldable pub release_fn : ℕ → State → State
release_fn out_fn s =
    let c = u8 (s.metadata.dag_in_count out_fn + 255) in
    let m = record (s.metadata) { dag_in_count = update s.metadata.dag_in_count out_fn c } in
    let s' = record s { metadata = m } in if c == 0 then add_runnable_fn out_fn s' else s'

-- The `for` loop at index `i`, with `left` rounds to go.
unfoldable pub release_from : ℕ → ℕ → State → State
release_from zero i s = s
release_from (suc left) i s = release_from left (i + 1) (release_fn (u8 (s.metadata.dag i)) s)

-- `s` and `e` are `uint8_t`, so the sums are cut to a byte; the loop runs while `i < e`.
unfoldable pub edge_start : Metadata → ℕ → ℕ
edge_start m fn = let n = u8 m.num_nodes in u8 (m.dag (n + fn) + 2 * n + 1)

unfoldable pub edge_end : Metadata → ℕ → ℕ
edge_end m fn = let n = u8 m.num_nodes in u8 (m.dag (n + fn + 1) + 2 * n + 1)

unfoldable pub process_sched_dag : ℕ → State → State
process_sched_dag fn s =
    let from = edge_start s.metadata fn in
    let to = edge_end s.metadata fn in release_from (to - from) from s
