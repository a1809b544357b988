-- ===== src/Sched/Order/Run.antt =====
-- The passes of one cpu, from the initialisation on.
use native.Mathlib.Nat.{add-mod_left, mod-eq_of_lt}
use bootcode.Base.{
  ℕ, zero, suc, ◌+◌, ◌%◌, ◌<◌, ◌≡◌, refl, sym, ap, ◌∙◌, arith, ◌==◌, ==_iff, inl, inr, Bool-cases,
  Option, none, some,
}
use bootcode.Sched.State.{State, Machine, Metadata, null_func}
use bootcode.Sched.Dag.Laws.{uses, out_edges}
use bootcode.Sched.Init.{scheduler_init_pre, scheduler_init_post}
use bootcode.Sched.Loop.{Outcome, runs, halts, sched}
use bootcode.Sched.Loop.Work.{IsEmpty}
use bootcode.Sched.Order.{IsGraph, Carries}
use bootcode.Sched.Order.Live.{IsCycle, next, sched-Cycles, first-IsCycle}

-- The passes of one cpu, each beginning where the function of the last one has returned; `none` when
-- one of them halts.
module _ (mach : Machine) (id : ℕ) where
  abbrev returned : (State → Option State) → Option Outcome → Option State
  returned more (some (runs fn s)) = more s
  returned more (some (halts s)) = none
  returned more none = none

  unfoldable pub passes : ℕ → State → Option State
  passes zero s = some s
  passes (suc m) s = returned (passes m) (sched mach id s)

module _ (mach : Machine) (id : ℕ) (g : Metadata) (graph : IsGraph g) (rank : ℕ → ℕ)
    (acyclic : (f j : ℕ) → f < g.num_nodes → 0 < uses j (out_edges g f) → rank f < rank j) where
  next-mod :
      (k m : ℕ)
      → (next mach id g graph rank acyclic k + m) % g.num_nodes ≡ (k + suc m) % g.num_nodes
  unfolding next
  next-mod k m = elim (Bool-cases (k + 1 == g.num_nodes)) [
    | inl e ↦
        let full : k + suc m ≡ g.num_nodes + m = omega (arith, (==_iff (k + 1) g.num_nodes).0 e) in
        rw (e, full) (ap (λ i. i % g.num_nodes) (omega arith) ∙ sym (add-mod_left g.num_nodes m))
    | inr e ↦ let same : k + suc m ≡ k + 1 + m = omega arith in rw (e, same) refl
  ]

  next-lt : (k : ℕ) → k < g.num_nodes → next mach id g graph rank acyclic k < g.num_nodes
  unfolding next
  next-lt k h = ground (arith, h)

  passes-IsCycle :
      (m k : ℕ) (s : State)
      → k < g.num_nodes
      → IsCycle mach id g graph rank acyclic k s
      → (t : State) × (passes mach id m s ≡ some t)
        × IsCycle mach id g graph rank acyclic ((k + m) % g.num_nodes) t
  unfolding passes
  passes-IsCycle zero k s lt h =
      let same : (k + 0) % g.num_nodes ≡ k =
        ap (λ n. n % g.num_nodes) (omega arith) ∙ mod-eq_of_lt lt in
      (s, refl, rw same h)
  passes-IsCycle (suc m) k s lt h =
      let (fn, s', e, h') = sched-Cycles mach id g graph rank acyclic k s h in
      let (t, e', c) =
        passes-IsCycle m (next mach id g graph rank acyclic k) s' (next-lt k lt) h' in
      (t, ap (returned mach id (passes mach id m)) e ∙ e', rw (next-mod k m) at c)

  -- On a graph without cycles, given by a rank that grows along each edge, whose in-counts are its
  -- in-degrees and whose only root is the start function, cpu 0 alone never halts: from the initialisation with the graph in place, nothing runnable and no function under way,
  -- any number of passes of `sched` end in a function. With one pass for the start and `m` more, it
  -- is in the middle of its (m mod n)-th function of the `n` since the graph was last begun: each
  -- `n` passes run every function once, after its predecessors, and then the graph begins anew.
  pub passes_forever :
      (pool_sz m : ℕ) (s : State)
      → Carries g s
      → IsEmpty mach id s
      → s.metadata.current id ≡ null_func
      → (t : State) × (passes mach id
            (suc m)
            (scheduler_init_post mach pool_sz (scheduler_init_pre pool_sz s))
          ≡ some t)
        × IsCycle mach id g graph rank acyclic (m % g.num_nodes) t
  unfolding passes scheduler_init_pre scheduler_init_post
  passes_forever pool_sz m s c clear q =
      let s0 = scheduler_init_post mach pool_sz (scheduler_init_pre pool_sz s) in
      let (fn, s1, e, h) =
        first-IsCycle mach id g graph rank acyclic s0
          (record {
            dag = c.dag;
            num_nodes = c.num_nodes;
            start_func = c.start_func;
            bitmap = c.bitmap;
            bytes = c.bytes;
          })
          clear (omega (arith, c.num_nodes, graph.nodes)) q in
      let (t, e', k) = passes-IsCycle m 0 s1 (omega (arith, graph.start)) h in
      let at : (0 + m) % g.num_nodes ≡ m % g.num_nodes = ap (λ i. i % g.num_nodes) (omega arith) in
      (t, ap (returned mach id (passes mach id m)) e ∙ e', rw at at k)
