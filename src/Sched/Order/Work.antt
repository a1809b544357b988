-- ===== src/Sched/Order/Work.antt =====
-- What a pass of `sched` finds to do, and the order of the functions.
use bootcode.Base.{
  number, number-all, ℕ, suc, ◌<◌, ◌≡◌, ◌≢◌, refl, sym, ◌∙◌, arith, Bool, true, false, not, ◌&&◌,
  ◌==◌, update, inl, inr, Bool-cases, List, Option, none, some, dec64,
}
use native.Mathlib.Decide.{ℕ_discrete}
use bootcode.Claim.Word.{has}
use bootcode.Sched.State.{State, Machine, Metadata}
use bootcode.Sched.Queue.{take_bit}
use bootcode.Sched.Queue.Laws.{IsBitmap, Takes, idle, work, take_bit-Takes}
use bootcode.Sched.Dag.Laws.{uses, out_edges}
use bootcode.Sched.Loop.{Outcome, runs, halts, restart, go_idle, add_wait, on_work, new_work}
use bootcode.Sched.Loop.Work.{
  IsEmpty, restart-IsRestarted, current-dispatch, num_fin-dispatch, new_work-take_bit,
  on_work-halts, on_work-restarts,
}
use bootcode.Sched.Order.{nobody, IsGraph, Carries, IsOrdered}
use bootcode.Sched.Order.Owed.{uses_of_owed}
use bootcode.Sched.Order.Enter.{dispatch-IsOrdered, restart-IsOrdered}

module _ (mach : Machine) (id : ℕ) (g : Metadata) where
  -- How a pass may end, with `done` the functions finished before it looks for work: in a function
  -- that was not started and whose predecessors have all finished; in a halt, with nothing runnable
  -- and not all finished; or, all being finished, in the start function with the order anew.
  pub data Goes (done started : ℕ → Bool) : Option Outcome → Type 0 where
    to_next :
        {fn : ℕ} {t : State}
        → fn < g.num_nodes
        → started fn ≡ false
        → ((f : ℕ) → f < g.num_nodes → 0 < uses fn (out_edges g f) → done f ≡ true)
        → IsOrdered g done (update started fn true) t
        → t.num_fin_fn ≡ number done g.num_nodes
        → t.metadata.current id ≡ fn
        → Goes done started (some (runs fn t))
    to_wait :
        {t : State}
        → number done g.num_nodes ≢ g.num_nodes
        → ((i : ℕ) → i < 256 → has t.bm_run_fn i ≡ false)
        → IsOrdered g done started t
        → t.num_fin_fn ≡ number done g.num_nodes
        → Goes done started (some (halts t))
    to_start :
        {fn : ℕ} {t : State}
        → ((f : ℕ) → f < g.num_nodes → done f ≡ true)
        → fn ≡ g.start_func
        → IsOrdered g nobody (update nobody fn true) t
        → t.num_fin_fn ≡ 0
        → t.metadata.current id ≡ fn
        → Goes done started (some (runs fn t))

  abbrev pub IsCounted : (ℕ → Bool) → (ℕ → Bool) → State → Type 0
  IsCounted done started s = IsOrdered g done started s × (s.num_fin_fn ≡ number done g.num_nodes)

  -- The order looks at the graph and the bitmap alone.
  pub order_frame :
      (done started : ℕ → Bool) (s t : State)
      → IsOrdered g done started s
      → t.metadata.dag ≡ s.metadata.dag
      → t.metadata.num_nodes ≡ s.metadata.num_nodes
      → t.metadata.start_func ≡ s.metadata.start_func
      → t.metadata.dag_in_count ≡ s.metadata.dag_in_count
      → t.bm_run_fn ≡ s.bm_run_fn
      → IsOrdered g done started t
  order_frame done started s t h d n st c b = record {
    carries = record {
      dag = d ∙ h.carries.dag;
      num_nodes = n ∙ h.carries.num_nodes;
      start_func = st ∙ h.carries.start_func;
      bitmap = rw b (h.carries.bitmap);
      bytes = rw c (h.carries.bytes);
    };
    counts = rw c (h.counts);
    waiting = rw b (h.waiting);
    ready = rw b (h.ready);
    begun = h.begun;
    finished = h.finished;
  }

  -- The search after a restart finds the start function.
  found_start :
      (done started : ℕ → Bool)
      → IsGraph g
      → ((f : ℕ) → f < g.num_nodes → done f ≡ true)
      → (f t1 : ℕ) (r : State) → IsOrdered g nobody nobody r
      → r.num_fin_fn ≡ 0
      → Takes r.bm_run_fn (take_bit r.bm_run_fn)
      → Goes done started (new_work mach id (suc f) t1 r)
  unfolding on_work
  found_start done started graph all f t1 r o zero_fin (idle e nothing) = absurd (
      ground (
        arith,
        o.ready g.start_func graph.start graph.source,
        nothing g.start_func (omega (arith, graph.start, graph.nodes)),
      ))
  found_start done started graph all f t1 r o zero_fin (work ws fn e b lt is_set low rest n) =
      let (lt_n, z, fresh) = o.waiting fn is_set in
      let r' = record r { bm_run_fn = ws } in
      rw (new_work-take_bit mach id f t1 r e, on_work)
        (to_start all (graph.only fn lt_n z)
          (dispatch-IsOrdered mach id g nobody nobody r o fn t1 ws b is_set rest)
          (num_fin-dispatch mach id fn t1 r' ∙ zero_fin) (current-dispatch mach id fn t1 r' lt))

  -- With nothing runnable and as many finished as there are, the graph begins anew.
  pub restart-Goes :
      (done started : ℕ → Bool)
      → IsGraph g
      → ((f : ℕ) → f < g.num_nodes → done f ≡ true)
      → (f t1 : ℕ) (s : State) → Carries g s
      → s.num_fin_fn ≡ s.metadata.num_nodes
      → take_bit s.bm_run_fn ≡ (s.bm_run_fn, none)
      → IsEmpty mach id s
      → Goes done started (new_work mach id (suc (suc f)) t1 s)
  restart-Goes done started graph all f t1 s c fin e clear =
      let s2 = record s { num_free_vcpu = dec64 s.num_free_vcpu; num_fin_fn = 0 } in
      let o : IsOrdered g nobody nobody (restart mach id s2).0 =
        restart-IsOrdered mach id g s2 graph
          (record {
            dag = c.dag;
            num_nodes = c.num_nodes;
            start_func = c.start_func;
            bitmap = c.bitmap;
            bytes = c.bytes;
          })
          clear in
      rw
        (
          new_work-take_bit mach id (suc f) t1 s e,
          on_work-restarts mach id (new_work mach id (suc f)) t1 s fin,
        )
        (found_start done started graph all f (restart mach id s2).1 (restart mach id s2).0 o
          (restart-IsRestarted mach id s2).finished
          (take_bit-Takes (restart mach id s2).0.bm_run_fn o.carries.bitmap))

  pub empty-Goes :
      (done started : ℕ → Bool) (s : State)
      → IsGraph g
      → ((f : ℕ) → f < g.num_nodes → done f ≡ true)
      → Carries g s
      → IsEmpty mach id s
      → s.num_fin_fn ≡ s.metadata.num_nodes
      → (t1 : ℕ) → Goes done started (new_work mach id 2 t1 s)
  empty-Goes done started s graph all c clear fin t1 = go (take_bit-Takes s.bm_run_fn c.bitmap)
    where
      go : Takes s.bm_run_fn (take_bit s.bm_run_fn) → Goes done started (new_work mach id 2 t1 s)
      go (idle e nothing) = restart-Goes done started graph all 0 t1 s c fin e clear
      go (work ws fn e b lt is_set low rest n) = absurd (ground (arith, is_set, clear fn lt))

  module _ (graph : IsGraph g) (done started : ℕ → Bool) (s : State)
      (h : IsCounted done started s) where
    dispatch-Goes :
        (f t1 : ℕ) (ws : List ℕ) (fn : ℕ)
        → take_bit s.bm_run_fn ≡ (ws, some fn)
        → IsBitmap ws
        → fn < 256
        → has s.bm_run_fn fn ≡ true
        → ((i : ℕ) → has ws i ≡ (not (i == fn) && has s.bm_run_fn i))
        → Goes done started (new_work mach id (suc f) t1 s)
    unfolding on_work
    dispatch-Goes f t1 ws fn e b small is_set rest =
        let (lt, z, fresh) = h.0.waiting fn is_set in
        let s' = record s { bm_run_fn = ws } in
        rw (new_work-take_bit mach id f t1 s e, on_work)
          (to_next lt fresh
            (λ p small_p pos. elim (Bool-cases (done p)) [
              | inl yes_done ↦ yes_done
              | inr no_done ↦
                  absurd
                    (omega (arith, pos, uses_of_owed g done g.num_nodes p fn z small_p no_done))
            ])
            (dispatch-IsOrdered mach id g done started s h.0 fn t1 ws b is_set rest)
            (num_fin-dispatch mach id fn t1 s' ∙ h.1) (current-dispatch mach id fn t1 s' small))

    idle-Goes :
        (t1 : ℕ)
        → IsEmpty mach id s
        → s.num_fin_fn ≢ s.metadata.num_nodes
        → Goes done started
            (some (halts (go_idle mach id t1 (record s { num_free_vcpu = dec64 s.num_free_vcpu }))))
    unfolding go_idle add_wait
    idle-Goes t1 clear ne =
        to_wait (λ e. ne (h.1 ∙ e ∙ sym h.0.carries.num_nodes)) clear
          (order_frame done started s _ h.0 refl refl refl refl refl) h.1

    search-Goes :
        (f t1 : ℕ)
        → Takes s.bm_run_fn (take_bit s.bm_run_fn)
        → Goes done started (new_work mach id (suc (suc f)) t1 s)
    search-Goes f t1 (work ws fn e b lt is_set low rest n) =
        dispatch-Goes (suc f) t1 ws fn e b lt is_set rest
    search-Goes f t1 (idle e clear) = elim (ℕ_discrete s.num_fin_fn s.metadata.num_nodes) [
      | yes all ↦
          let full : number done g.num_nodes ≡ g.num_nodes =
            sym h.1 ∙ all ∙ h.0.carries.num_nodes in
          restart-Goes done started graph (λ p. number-all done g.num_nodes p full) f t1 s
            h.0.carries all e clear
      | no ne ↦
          rw
            (
              new_work-take_bit mach id (suc f) t1 s e,
              on_work-halts mach id (new_work mach id (suc f)) t1 s ne,
            )
            (idle-Goes t1 clear ne)
    ]

    pub new_work-Goes : (f t1 : ℕ) → Goes done started (new_work mach id (suc (suc f)) t1 s)
    new_work-Goes f t1 = search-Goes f t1 (take_bit-Takes s.bm_run_fn h.0.carries.bitmap)
