-- ===== src/Barrier/Tests.antt =====
-- Two cpus at the barrier, of which the second comes last and returns first.
use bootcode.Base.{◌≤◌, ◌≡◌, refl, arith}
use bootcode.Barrier.{arrives, waits, System, step, move, Reachable, start, moved}
use bootcode.Barrier.Rounds.{barrier_lem}

abbrev fresh : System
fresh = record {
  barrier_word = 0;
  barrier_cond = 0;
  at = λ id. arrives;
  entries = λ id. 0;
  exits = λ id. 0;
}

-- Cpu 0 waits; cpu 1 has opened the barrier and returned.
abbrev one_back : System
one_back =
    move 2 1
      (move 2 1 (move 2 1 (move 2 1 (move 2 1 (move 2 1 (move 2 0 (move 2 0 (move 2 0 fresh))))))))

one_back-Reachable : Reachable 2 one_back
one_back-Reachable = moved 1 (omega arith) (
    moved 1 (omega arith) (
      moved 1 (omega arith) (
        moved 1 (omega arith) (
          moved 1 (omega arith) (
            moved 1 (omega arith)
              (moved 0 (omega arith) (moved 0 (omega arith) (moved 0 (omega arith) start))))))))

returned_run : (one_back.at 0 ≡ waits) × (one_back.at 1 ≡ arrives) × (one_back.exits 1 ≡ 1)
unfolding move step
returned_run = (refl, refl, refl)

barrier_lem_example : one_back.exits 1 ≤ one_back.entries 0
barrier_lem_example =
    barrier_lem 2 (omega arith) one_back 1 0 one_back-Reachable (omega arith) (omega arith)
