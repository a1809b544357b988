-- ===== src/Sched/Order/Tests.antt =====
-- The graph of three functions in the order of its edges.
use bootcode.Base.{
  number, none-number, ℕ, zero, suc, ◌<◌, ◌%◌, ◌≡◌, refl, sym, arith, inr, Bool, true, ◌||◌, ◌==◌,
  u8, some, ◌∷◌, [],
}
use bootcode.Claim.Word.{has}
use bootcode.Sched.State.{State}
use bootcode.Sched.Dag.{edge_start, edge_end}
use bootcode.Sched.Dag.Laws.{uses, out_edges}
use bootcode.Sched.Init.{scheduler_init_pre, scheduler_init_post}
use bootcode.Sched.Loop.{sched}
use bootcode.Sched.Tests.{clock, metadata, state, out_edges_run}
use bootcode.Sched.Queue.Laws.{no_words, empty_queue}
use bootcode.Sched.Order.{owed, nobody, IsGraph, Carries, IsOrdered}
use bootcode.Sched.Order.Work.{Goes}
use bootcode.Sched.Order.Pass.{done_now, sched-Goes}
use bootcode.Sched.Order.Live.{IsCycle}
use bootcode.Sched.Order.Run.{passes, passes_forever}

three : (P : ℕ → Type 0) → P 0 → P 1 → P 2 → (f : ℕ) → f < 3 → P f
three P a b c zero lt = a
three P a b c (suc zero) lt = b
three P a b c (suc (suc zero)) lt = c
three P a b c (suc (suc (suc f))) lt = absurd (omega arith)

edges_1 : out_edges metadata 1 ≡ 2 ∷ []
unfolding out_edges edge_start edge_end
edges_1 = refl

edges_2 : out_edges metadata 2 ≡ []
unfolding out_edges edge_start edge_end
edges_2 = refl

-- Every edge ends in the graph and leads to a higher number.
pub edges_rise : (f : ℕ) → f < 3 → (j : ℕ) → 0 < uses j (out_edges metadata f) → (f < j) × (j < 3)
edges_rise =
    three (λ f. (j : ℕ) → 0 < uses j (out_edges metadata f) → (f < j) × (j < 3))
      (λ j. rw out_edges_run (ground arith)) (λ j. rw edges_1 (ground arith))
      (λ j. rw edges_2 (ground arith))

abbrev in_degrees : ℕ → ℕ
in_degrees j = owed metadata nobody 3 j

in_degrees_run : (in_degrees 0 ≡ 0) × (in_degrees 1 ≡ 1) × (in_degrees 2 ≡ 2)
unfolding owed out_edges edge_start edge_end
in_degrees_run = (refl, refl, refl)

pub metadata-IsGraph : IsGraph metadata
metadata-IsGraph = record {
  nodes = omega arith;
  targets = λ f j lt ge. ground (arith, edges_rise f lt j);
  degrees =
      three (λ j. u8 (metadata.dag j) ≡ in_degrees j) (sym in_degrees_run.0) (sym in_degrees_run.1)
        (sym in_degrees_run.2);
  start = omega arith;
  source = in_degrees_run.0;
  only =
      three (λ j. in_degrees j ≡ 0 → j ≡ 0) (λ e. refl)
        (λ e. absurd (omega (arith, e, in_degrees_run.1)))
        (λ e. absurd (omega (arith, e, in_degrees_run.2)));
}

state-Carries : Carries metadata (state 0 0)
state-Carries = record {
  dag = refl;
  num_nodes = refl;
  start_func = refl;
  bitmap = refl;
  bytes = λ j. ground arith;
}

passes_forever_example :
    (t : State) × (passes clock 0 6 (scheduler_init_post clock 2 (scheduler_init_pre 2 (state 0 0)))
      ≡ some t)
    × IsCycle clock 0 metadata metadata-IsGraph
        (λ j. j)
        (λ f j lt pos. (edges_rise f lt j pos).0)
        (5 % 3)
        t
passes_forever_example =
    passes_forever clock 0 metadata metadata-IsGraph (λ j. j)
      (λ f j lt pos. (edges_rise f lt j pos).0) 2 5 (state 0 0) state-Carries
      (λ i lt. empty_queue i) refl

-- Cpu 0 runs the start function, the first of the graph.
abbrev running : State
running = record (state 0 0) { num_fin_fn = 0; metadata = record metadata { current = λ i. 0 } }

abbrev only_start : ℕ → Bool
only_start j = j == 0

running-IsOrdered : IsOrdered metadata nobody only_start running
running-IsOrdered = record {
  carries = record {
    dag = refl;
    num_nodes = refl;
    start_func = refl;
    bitmap = refl;
    bytes = λ j. ground arith;
  };
  counts =
      three (λ j. running.metadata.dag_in_count j ≡ in_degrees j) (sym in_degrees_run.0)
        (sym in_degrees_run.1) (sym in_degrees_run.2);
  waiting = λ j e. absurd (ground (arith, e, empty_queue j));
  ready =
      three (λ j. in_degrees j ≡ 0 → (only_start j || has no_words j) ≡ true) (λ e. refl)
        (λ e. absurd (omega (arith, e, in_degrees_run.1)))
        (λ e. absurd (omega (arith, e, in_degrees_run.2)));
  begun = λ j e. let q : j ≡ 0 = ground (arith, e) in rw q (omega arith, in_degrees_run.0);
  finished = λ j e. absurd (ground (arith, e));
}

none_done : 0 ≡ number nobody 3
none_done = sym (none-number nobody 3 (λ f lt. refl))

sched-Goes_example :
    Goes clock 0 metadata
      (done_now clock 0 metadata nobody running)
      only_start
      (sched clock 0 running)
sched-Goes_example =
    sched-Goes clock 0 metadata nobody only_start running metadata-IsGraph running-IsOrdered
      none_done (inr (refl, refl))
