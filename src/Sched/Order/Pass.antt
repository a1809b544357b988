-- ===== src/Sched/Order/Pass.antt =====
-- A whole pass of `sched` and the order of the functions.
use bootcode.Base.{
  number, number-le, number-add, ℕ, ◌<◌, ◌≡◌, refl, sym, ap, ◌∙◌, arith, Bool, true, false, ◌==◌,
  if◌then◌else◌, update, inl, inr, ◌⊎◌, Bool-cases,
}
use bootcode.Sched.State.{State, Machine, Metadata, null_func, tick}
use bootcode.Sched.Dag.{process_sched_dag}
use bootcode.Sched.Wake.Frame.{kept, kept-wake_up_task}
use bootcode.Sched.Init.{wake_up_event}
use bootcode.Sched.Loop.{stop_clock, finish_fn, help_others, sched_start, sched, after_hlt}
use bootcode.Sched.Loop.Work.{IsEmpty}
use bootcode.Sched.Order.{IsGraph, Carries, IsOrdered}
use bootcode.Sched.Order.Finish.{process_sched_dag-IsReleased, process_sched_dag-IsOrdered}
use bootcode.Sched.Order.Work.{Goes, IsCounted, new_work-Goes, order_frame, empty-Goes}

module _ (mach : Machine) (id : ℕ) (g : Metadata) where
  order_kept :
      (done started : ℕ → Bool) (s t : State)
      → IsOrdered g done started s
      → kept t ≡ kept s
      → IsOrdered g done started t × (t.num_fin_fn ≡ s.num_fin_fn)
  order_kept done started s t h e =
      let meta : t.metadata ≡ s.metadata = ap (λ k. k.0) e in
      (
        order_frame mach id g done started s t h (ap (λ (m : Metadata). m.dag) meta)
            (ap (λ (m : Metadata). m.num_nodes) meta) (ap (λ (m : Metadata). m.start_func) meta)
            (ap (λ (m : Metadata). m.dag_in_count) meta) (ap (λ k. k.1.0) e),
        ap (λ k. k.1.1.0) e,
      )

  kept-help_others : (s : State) → kept (help_others mach id s) ≡ kept s
  unfolding help_others
  kept-help_others s = elim (Bool-cases (s.vcpu_pool_sz == 1)) [
    | inl e ↦ rw e refl
    | inr e ↦ rw e (kept-wake_up_task mach s)
  ]

  module _ (graph : IsGraph g) (done started : ℕ → Bool) (fn : ℕ) (s : State)
      (h : IsOrdered g done started s) (begun_fn : started fn ≡ true)
      (open_fn : done fn ≡ false) where
    finish_fn-IsOrdered : IsOrdered g (update done fn true) started (finish_fn mach id fn s)
    unfolding finish_fn stop_clock
    finish_fn-IsOrdered =
        let s1 = stop_clock mach id fn s in
        let before = order_frame mach id g done started s s1 h refl refl refl refl refl in
        order_frame mach id g (update done fn true) started (process_sched_dag fn s1) _
          (process_sched_dag-IsOrdered g graph done started fn s1 before begun_fn open_fn) refl refl
          refl refl refl

    num_fin-finish_fn : (finish_fn mach id fn s).num_fin_fn ≡ s.num_fin_fn
    unfolding finish_fn stop_clock
    num_fin-finish_fn = (process_sched_dag-IsReleased fn (stop_clock mach id fn s)).num_fin_fn

  -- The functions finished once the one that this cpu ran, if any, has been processed.
  abbrev pub done_now : (ℕ → Bool) → State → ℕ → Bool
  done_now done s =
      if s.metadata.current id == null_func then done else update done (s.metadata.current id) true

  -- The cpu comes from its halt, or from a function that was started and has not been processed.
  abbrev pub IsRunning : (ℕ → Bool) → (ℕ → Bool) → State → Type 0
  IsRunning done started s =
      (s.metadata.current id ≡ null_func)
      ⊎ ((started (s.metadata.current id) ≡ true) × (done (s.metadata.current id) ≡ false))

  sched_start-IsCounted :
      (done started : ℕ → Bool) (s : State)
      → IsGraph g
      → IsCounted mach id g done started s
      → IsRunning done started s
      → IsCounted mach id g (done_now done s) started (sched_start mach id s).0
  unfolding sched_start
  sched_start-IsCounted done started s graph h (inl q) =
      let idle_cpu : (s.metadata.current id == null_func) ≡ true = ground (arith, q) in
      let (o, n) =
        order_kept done started (tick s) (help_others mach id (tick s))
          (order_frame mach id g done started s (tick s) h.0 refl refl refl refl refl)
          (kept-help_others (tick s)) in
      rw idle_cpu (o, n ∙ h.1)
  sched_start-IsCounted done started s graph h (inr (b, open_fn)) =
      let fn = s.metadata.current id in
      let lt = (h.0.begun fn b).0 in
      let busy : (fn == null_func) ≡ false = ground (arith, lt, graph.nodes) in
      let t = finish_fn mach id fn (tick s) in
      let o =
        finish_fn-IsOrdered graph done started fn (tick s)
          (order_frame mach id g done started s (tick s) h.0 refl refl refl refl refl) b open_fn in
      let (o', n) =
        order_kept (update done fn true) started t (help_others mach id t) o (kept-help_others t) in
      let fin =
        num_fin-finish_fn graph done started fn (tick s)
          (order_frame mach id g done started s (tick s) h.0 refl refl refl refl refl) b open_fn in
      rw busy (
        order_frame mach id g (update done fn true) started (help_others mach id t) _ o' refl refl
            refl refl refl,
        omega (
          arith,
          n,
          fin,
          h.1,
          number-add done fn g.num_nodes lt open_fn,
          number-le done g.num_nodes,
          graph.nodes,
        ),
      )

  -- A pass of `sched`, from a state in which the cpu comes from a function that was started and not
  -- yet counted as finished, or from none: it ends, and the functions keep their order. It enters a
  -- function that was not entered before and all of whose predecessors have finished; or it halts,
  -- nothing being runnable, while some function has not finished; or all have finished, and the
  -- graph begins anew with the start function.
  pub sched-Goes :
      (done started : ℕ → Bool) (s : State)
      → IsGraph g
      → IsOrdered g done started s
      → s.num_fin_fn ≡ number done g.num_nodes
      → IsRunning done started s
      → Goes mach id g (done_now done s) started (sched mach id s)
  unfolding sched
  sched-Goes done started s graph h num run =
      new_work-Goes mach id g graph (done_now done s) started (sched_start mach id s).0
        (sched_start-IsCounted done started s graph (h, num) run) 0 (sched_start mach id s).1

  -- The first pass, on a state that carries the graph: with nothing runnable and the count of the
  -- finished functions at their number, the graph begins, whatever the in-counts hold.
  pub first-Goes :
      (done started : ℕ → Bool) (s : State)
      → IsGraph g
      → ((f : ℕ) → f < g.num_nodes → done f ≡ true)
      → Carries g s
      → IsEmpty mach id s
      → s.num_fin_fn ≡ s.metadata.num_nodes
      → s.metadata.current id ≡ null_func
      → Goes mach id g done started (sched mach id s)
  unfolding sched sched_start
  first-Goes done started s graph all c clear fin q =
      let idle_cpu : (s.metadata.current id == null_func) ≡ true = ground (arith, q) in
      let t = help_others mach id (tick s) in
      let e : kept t ≡ kept s = kept-help_others (tick s) in
      let meta : t.metadata ≡ s.metadata = ap (λ k. k.0) e in
      let queue : t.bm_run_fn ≡ s.bm_run_fn = ap (λ k. k.1.0) e in
      rw idle_cpu (
        empty-Goes mach id g done started t graph all
          (record {
            dag = ap (λ (m : Metadata). m.dag) meta ∙ c.dag;
            num_nodes = ap (λ (m : Metadata). m.num_nodes) meta ∙ c.num_nodes;
            start_func = ap (λ (m : Metadata). m.start_func) meta ∙ c.start_func;
            bitmap = rw queue (c.bitmap);
            bytes = rw meta (c.bytes);
          })
          (rw queue clear)
          (ap (λ k. k.1.1.0) e ∙ fin ∙ sym (ap (λ (m : Metadata). m.num_nodes) meta))
          (mach.tsc s.reads))

  -- A cpu that comes out of `hlt`, whoever has woken it, enters a function that was not entered
  -- before and all of whose predecessors have finished; or it halts again, nothing being runnable,
  -- while some function has not finished; or all have finished, and the graph begins anew with the
  -- start function. The functions keep their order.
  pub after_hlt-Goes :
      (done started : ℕ → Bool) (s : State)
      → IsGraph g
      → IsOrdered g done started s
      → s.num_fin_fn ≡ number done g.num_nodes
      → Goes mach id g done started (after_hlt mach id s)
  unfolding after_hlt wake_up_event
  after_hlt-Goes done started s graph h num =
      new_work-Goes mach id g graph done started _
        (order_frame mach id g done started s _ h refl refl refl refl refl, num) 0 _
