-- ===== src/Sched/Order/Finish.antt =====
-- A function finishes: `process_sched_dag` keeps the order, with the function among the finished.
use bootcode.Base.{
  ℕ, zero, suc, ◌+◌, ◌-◌, ◌≤◌, ◌<◌, ◌≡◌, refl, sym, ◌∙◌, arith, Bool, true, false, ◌||◌, ◌&&◌, ◌==◌,
  ltb, update, update_ne, inl, inr, Bool-cases, u8,
}
use native.Mathlib.Decide.{ℕ_discrete, dec_lt}
use bootcode.Claim.Word.{has}
use bootcode.Sched.State.{State, Metadata}
use bootcode.Sched.Queue.{add_runnable_fn}
use bootcode.Sched.Dag.{release_fn, release_from, edge_start, edge_end, process_sched_dag}
use bootcode.Sched.Dag.Laws.{uses, out_edges, IsAwaited, slice-AreBytes, process_sched_dag_lem}
use bootcode.Sched.Queue.Laws.{IsBitmap, add_bit-IsBitmap}
use bootcode.Sched.Order.{owed, IsGraph, IsOrdered}
use bootcode.Sched.Order.Owed.{out_edges-eq, owed-update}

-- What the release of functions leaves alone.
pub record IsReleased (s t : State) : Type 0 where
  pub dag : t.metadata.dag ≡ s.metadata.dag
  pub num_nodes : t.metadata.num_nodes ≡ s.metadata.num_nodes
  pub start_func : t.metadata.start_func ≡ s.metadata.start_func
  pub current : t.metadata.current ≡ s.metadata.current
  pub num_fin_fn : t.num_fin_fn ≡ s.num_fin_fn
  pub bitmap : IsBitmap s.bm_run_fn → IsBitmap t.bm_run_fn

release_fn-IsReleased : (e : ℕ) (s : State) → IsReleased s (release_fn e s)
unfolding release_fn add_runnable_fn
release_fn-IsReleased e s = record {
  dag = ground arith;
  num_nodes = ground arith;
  start_func = ground arith;
  current = ground arith;
  num_fin_fn = ground arith;
  bitmap = λ h. ground (arith, add_bit-IsBitmap s.bm_run_fn e h);
}

release_from-IsReleased : (n i : ℕ) (s : State) → IsReleased s (release_from n i s)
unfolding release_from
release_from-IsReleased zero i s = record {
  dag = refl;
  num_nodes = refl;
  start_func = refl;
  current = refl;
  num_fin_fn = refl;
  bitmap = λ h. h;
}
release_from-IsReleased (suc n) i s =
    let first = release_fn-IsReleased (u8 (s.metadata.dag i)) s in
    let rest = release_from-IsReleased n (i + 1) (release_fn (u8 (s.metadata.dag i)) s) in
    record {
      dag = rest.dag ∙ first.dag;
      num_nodes = rest.num_nodes ∙ first.num_nodes;
      start_func = rest.start_func ∙ first.start_func;
      current = rest.current ∙ first.current;
      num_fin_fn = rest.num_fin_fn ∙ first.num_fin_fn;
      bitmap = λ h. rest.bitmap (first.bitmap h);
    }

pub process_sched_dag-IsReleased : (fn : ℕ) (s : State) → IsReleased s (process_sched_dag fn s)
unfolding process_sched_dag
process_sched_dag-IsReleased fn s =
    release_from-IsReleased (edge_end s.metadata fn - edge_start s.metadata fn)
      (edge_start s.metadata fn) s

module _ (g : Metadata) (graph : IsGraph g) (done started : ℕ → Bool) (fn : ℕ) (s : State)
    (h : IsOrdered g done started s) (begun_fn : started fn ≡ true)
    (open_fn : done fn ≡ false) where
  small : fn < g.num_nodes
  small = (h.begun fn begun_fn).0

  same_edges : out_edges s.metadata fn ≡ out_edges g fn
  same_edges = out_edges-eq s.metadata g fn h.carries.dag h.carries.num_nodes

  uses-le : (j : ℕ) → uses j (out_edges s.metadata fn) ≤ s.metadata.dag_in_count j
  uses-le j = rw same_edges (elim (dec_lt j g.num_nodes) [
    | yes lt ↦ omega (arith, h.counts j lt, owed-update g done fn j g.num_nodes small open_fn)
    | no ge ↦ omega (arith, graph.targets fn j small (omega arith))
  ])

  awaited : IsAwaited (out_edges s.metadata fn) s
  unfolding out_edges
  awaited = record {
    edges = slice-AreBytes s.metadata.dag _ _;
    bytes = h.carries.bytes;
    enough = uses-le;
    bitmap = h.carries.bitmap;
  }

  count-after :
      (j : ℕ)
      → (process_sched_dag fn s).metadata.dag_in_count j
        ≡ s.metadata.dag_in_count j - uses j (out_edges g fn)
  count-after j = (process_sched_dag_lem fn s awaited j).0 ∙ rw same_edges refl

  has-after :
      (j : ℕ)
      → has (process_sched_dag fn s).bm_run_fn j ≡ (
          has s.bm_run_fn j
          || (ltb 0 (uses j (out_edges g fn))
              && (s.metadata.dag_in_count j == uses j (out_edges g fn))))
  has-after j = (process_sched_dag_lem fn s awaited j).1 ∙ rw same_edges refl

  -- A function that is released waits for nobody else, and was not started.
  released :
      (j : ℕ)
      → 0 < uses j (out_edges g fn)
      → s.metadata.dag_in_count j ≡ uses j (out_edges g fn)
      → (j < g.num_nodes) × (owed g (update done fn true) g.num_nodes j ≡ 0) × (started j ≡ false)
  released j pos eq =
      let lt : j < g.num_nodes = elim (dec_lt j g.num_nodes) [
        | yes lt ↦ lt
        | no ge ↦ absurd (omega (arith, graph.targets fn j small (omega arith)))
      ] in
      let sum = owed-update g done fn j g.num_nodes small open_fn in
      (
        lt,
        omega (arith, h.counts j lt, sum),
        elim (Bool-cases (started j)) [
          | inl e ↦ absurd (omega (arith, (h.begun j e).1, sum))
          | inr e ↦ e
        ],
      )

  -- When the function `fn`, started and not finished, finishes.
  pub process_sched_dag-IsOrdered :
      IsOrdered g (update done fn true) started (process_sched_dag fn s)
  process_sched_dag-IsOrdered =
      let kept = process_sched_dag-IsReleased fn s in
      let sum = λ (j : ℕ). owed-update g done fn j g.num_nodes small open_fn in
      record {
        carries = record {
          dag = kept.dag ∙ h.carries.dag;
          num_nodes = kept.num_nodes ∙ h.carries.num_nodes;
          start_func = kept.start_func ∙ h.carries.start_func;
          bitmap = kept.bitmap h.carries.bitmap;
          bytes = λ j. omega (arith, count-after j, h.carries.bytes j);
        };
        counts = λ j lt. omega (arith, count-after j, h.counts j lt, sum j);
        waiting = λ j e. elim (Bool-cases (has s.bm_run_fn j)) [
          | inl a ↦ let (lt, z, st) = h.waiting j a in (lt, omega (arith, z, sum j), st)
          | inr a ↦
              released j (ground (arith, has-after j, e, a)) (ground (arith, has-after j, e, a))
        ];
        ready = λ j lt z. elim (ℕ_discrete (owed g done g.num_nodes j) 0) [
          | yes q ↦ ground (arith, has-after j, h.ready j lt q)
          | no ne ↦ ground (arith, has-after j, h.counts j lt, sum j, ne, z)
        ];
        begun = λ j e. ((h.begun j e).0, omega (arith, (h.begun j e).1, sum j));
        finished = λ j e. elim (ℕ_discrete fn j) [
          | yes q ↦ rw (sym q) begun_fn
          | no ne ↦ h.finished j (sym (update_ne done fn j true ne) ∙ e)
        ];
      }
