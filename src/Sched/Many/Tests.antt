-- ===== src/Sched/Many/Tests.antt =====
-- Two cpus on the graph of three functions.
use bootcode.Base.{ℕ, zero, suc, ◌<◌, ◌≡◌, ◌≢◌, refl, ap, arith, ◌+◌, false, [], ◌∷◌}
use bootcode.Sched.Dag.{edge_start, edge_end}
use bootcode.Sched.Dag.Laws.{uses, out_edges}
use bootcode.Sched.Tests.{metadata, out_edges_run}
use bootcode.Sched.Order.Tests.{metadata-IsGraph, edges_rise}
use bootcode.Sched.Many.{
  runs, releases, halts, resets, System, at_new_work, step, move, Reachable, start, moved,
}
use bootcode.Claim
use bootcode.Sched.Many.Sound.{works}
use bootcode.Sched.Many.Reset.{IsIdle}
use bootcode.Sched.Many.Runs.{works_alone, runs_in_order, resets_alone}
use bootcode.Sched.Many.Awake.{never_asleep}
use bootcode.Sched.Queue.{add_bit}
use bootcode.Base.{if◌then◌else◌, ◌==◌}
use bootcode.Bits.{bt, btr, bts, bsf}

abbrev first : System
first = record {
  dag_in_count = λ j. 0;
  bm_run_fn = 0 ∷ 0 ∷ 0 ∷ 0 ∷ [];
  num_fin_fn = 3;
  at = λ id. if id == 0 then at_new_work else halts;
  entries = λ fn. 0;
  exits = λ fn. 0;
}

-- Steps of the cpu `id`.
steps : ℕ → ℕ → System → System
steps id zero s = s
steps id (suc n) s = move metadata id (steps id n s)

steps-Reachable : (id n : ℕ) (s : System) → Reachable metadata s → Reachable metadata (steps id n s)
unfolding steps
steps-Reachable id zero s r = r
steps-Reachable id (suc n) s r = moved id (steps-Reachable id n s r)

-- Cpu 0 has found nothing, and begins the graph.
abbrev beginning : System
beginning = steps 0 5 first

beginning-Reachable : Reachable metadata beginning
beginning-Reachable = steps-Reachable 0 5 first (start (λ j. 0))

-- Cpu 1 has left `hlt` and runs the function 1, while cpu 0 still releases the others after 0.
abbrev both : System
both = steps 1 3 (steps 0 12 first)

both-Reachable : Reachable metadata both
both-Reachable =
    steps-Reachable 1 3 (steps 0 12 first) (steps-Reachable 0 12 first (start (λ j. 0)))

copies : beginning.at 0 ≡ resets
unfolding steps move step Claim.step Claim.step_scan btr bsf
copies = refl

at_work : (both.at 0 ≡ releases 0 (2 ∷ [])) × (both.at 1 ≡ runs 1)
unfolding steps move step out_edges edge_start edge_end Claim.step Claim.step_scan btr bsf bts bt
    add_bit
at_work = (refl, refl)

edge_0_1 : 0 < uses 1 (out_edges metadata 0)
edge_0_1 = rw out_edges_run (omega arith)

works_alone_example : works (both.at 0) 1 ≡ false
works_alone_example =
    works_alone metadata metadata-IsGraph both 1 0 1 both-Reachable (omega arith)
      (ap (λ p. works p 1) at_work.1)

runs_in_order_example :
    (both.entries 0 ≡ both.entries 1)
    × (both.exits 0 ≡ both.entries 1)
    × (both.exits 1 + 1 ≡ both.entries 1)
runs_in_order_example =
    runs_in_order metadata metadata-IsGraph both 1 1 0 both-Reachable at_work.1 (omega arith)
      edge_0_1

resets_alone_example :
    IsIdle (beginning.at 1)
    × (beginning.entries 0 ≡ beginning.entries 2)
    × (beginning.exits 0 ≡ beginning.entries 0)
resets_alone_example =
    resets_alone metadata metadata-IsGraph beginning 0 1 0 2 beginning-Reachable copies
      (omega arith) (omega arith) (omega arith)

never_asleep_example : (id : ℕ) × (both.at id ≢ halts)
never_asleep_example =
    never_asleep metadata metadata-IsGraph (λ j. j) (λ f j lt pos. (edges_rise f lt j pos).0) both
      both-Reachable
