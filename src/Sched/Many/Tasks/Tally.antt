-- ===== src/Sched/Many/Tasks/Tally.antt =====
-- What `runnable_tasks` counts.
use bootcode.Base.{
  ℕ, ◌+◌, ◌≤◌, ◌<◌, ◌≡◌, refl, sym, ap, ◌∙◌, arith, inl, inr, Bool, true, false, if◌then◌else◌,
  ◌==◌, Bool-cases, [], ◌∷◌, update, update_eq, update_ne, one, number, number-le, none-number,
  inc64, dec64,
}
use mathlib.Core.Path.{subst, fun_ext}
use native.Mathlib.Decide.{ℕ_discrete}
use bootcode.Claim.Word.{has}
use bootcode.Sched.State.{Metadata}
use bootcode.Sched.Queue.Laws.{empty_queue}
use bootcode.Sched.Order.{IsGraph}
use bootcode.Sched.Many.{
  Place, looks, stops, resets, begins, halts, runs, releases, adds, counts, at_new_work, move,
  Reachable, start, moved,
}
use bootcode.Sched.Many.Sound.{PlaceFits}
use bootcode.Sched.Many.Reset.{IsIdle}
use bootcode.Sched.Many.Rounds.{Phase, plays, again, Reachable-Phase}
use bootcode.Sched.Many.Tasks.{Tasks, pass, task_step, task_move, TasksReachable, boots, steps}
use bootcode.Sched.Many.Tasks.Count.{is_pending, has_access, tasks, pending-update}
use bootcode.Sched.Many.Tasks.Shift.{step_shifts}

module _ (g : Metadata) (graph : IsGraph g) where
  system_of :
      (recover : Bool) (id : ℕ) (p : Place) (s : Tasks)
      → Reachable g s.system
      → Reachable g (task_step g recover id p s).system
  unfolding task_step
  system_of recover id (adds fn j es) s r = elim (Bool-cases (s.counted id)) [
    | inl q ↦ rw q (moved id r)
    | inr q ↦ rw q r
  ]
  system_of recover id begins s r = elim (Bool-cases (s.counted id)) [
    | inl q ↦ rw q (moved id r)
    | inr q ↦ rw q r
  ]
  system_of recover id (runs fn) s r = elim (Bool-cases (s.counted id)) [
    | inl q ↦ rw q (moved id r)
    | inr q ↦ rw q r
  ]
  system_of recover id resets s r = moved id r
  system_of recover id (looks pc) s r = moved id r
  system_of recover id stops s r = moved id r
  system_of recover id halts s r = moved id r
  system_of recover id (releases fn es) s r = moved id r
  system_of recover id (counts fn) s r = moved id r

  system-Reachable : {ncpus : ℕ} {s : Tasks} → TasksReachable g ncpus s → Reachable g s.system
  unfolding task_move
  system-Reachable (boots in_counts) = start in_counts
  system-Reachable (steps {s} recover id lt r) =
      system_of recover id (s.system.at id) s (system-Reachable r)

  IsIdle-is_pending : (p : Place) (c : Bool) → IsIdle p → is_pending p c ≡ false
  IsIdle-is_pending (looks pc) c i = refl
  IsIdle-is_pending stops c i = refl
  IsIdle-is_pending halts c i = refl
  IsIdle-is_pending resets c i = refl
  IsIdle-is_pending begins c i = absurd (ground (arith, i))
  IsIdle-is_pending (runs fn) c i = absurd (ground (arith, i))
  IsIdle-is_pending (releases fn es) c i = refl
  IsIdle-is_pending (adds fn j es) c i = absurd (ground (arith, i))
  IsIdle-is_pending (counts fn) c i = refl

  module _ (ncpus : ℕ) (few : ncpus ≤ 256) where
    pending : Tasks → ℕ
    pending s = number (λ id. is_pending (s.system.at id) (s.counted id)) ncpus

    IsTallied : Tasks → Type 0
    IsTallied s = s.runnable_tasks ≡ tasks s.system.bm_run_fn + pending s

    pass-IsTallied :
        (id : ℕ) (s : Tasks)
        → id < ncpus
        → Reachable g s.system
        → (has_access (s.system.at id) ≡ true → s.counted id ≡ true)
        → IsTallied s
        → IsTallied (pass g id s)
    unfolding IsTallied pending move
    pass-IsTallied id s lt r u h =
        let (p, e, shift) =
          step_shifts g graph s.system id (s.counted id) (s.system.at id) refl
            (Reachable-Phase g graph r) u in
        let now = pending-update s.system.at s.counted id ncpus p false lt in
        rw e (omega (arith, shift, now, h))

    count-pending :
        (id : ℕ) (s : Tasks)
        → id < ncpus
        → s.counted id ≡ false
        → pending (record s { counted = update s.counted id true })
            + one (is_pending (s.system.at id) false)
          ≡ pending s + one (is_pending (s.system.at id) true)
    unfolding pending
    count-pending id s lt e =
        let at = s.system.at in
        let same : (k : ℕ) → update at id (at id) k ≡ at k = λ k. elim (ℕ_discrete id k) [
          | yes q ↦ update_eq at id k (at id) q ∙ ap at q
          | no ne ↦ update_ne at id k (at id) ne
        ] in
        let n =
          λ (f : ℕ → Place). number (λ k. is_pending (f k) (update s.counted id true k)) ncpus in
        let now =
          subst
            (λ f.
              n f + one (is_pending (at id) (s.counted id))
              ≡ pending s + one (is_pending (at id) true))
            (fun_ext same) (pending-update at s.counted id ncpus (at id) true lt) in
        subst (λ c. n at + one (is_pending (at id) c) ≡ pending s + one (is_pending (at id) true)) e
          now

    below : (s : Tasks) → tasks s.system.bm_run_fn + pending s ≤ 512
    unfolding pending
    below s = omega (
      arith,
      number-le (has s.system.bm_run_fn) 256,
      number-le (λ id. is_pending (s.system.at id) (s.counted id)) ncpus,
    )

    adds_task :
        (id : ℕ) (s : Tasks)
        → id < ncpus
        → s.counted id ≡ false
        → is_pending (s.system.at id) false ≡ false
        → is_pending (s.system.at id) true ≡ true
        → IsTallied s
        → IsTallied (record s {
          runnable_tasks = inc64 s.runnable_tasks;
          counted = update s.counted id true;
        })
    unfolding IsTallied pending
    adds_task id s lt e q q' h =
        let now = count-pending id s lt e in omega (arith, below s, now, ap one q, ap one q', h)

    drops_task :
        (id : ℕ) (s : Tasks)
        → id < ncpus
        → s.counted id ≡ false
        → is_pending (s.system.at id) false ≡ true
        → is_pending (s.system.at id) true ≡ false
        → IsTallied s
        → IsTallied (record s {
          runnable_tasks = dec64 s.runnable_tasks;
          counted = update s.counted id true;
        })
    unfolding IsTallied pending
    drops_task id s lt e q q' h =
        let now = count-pending id s lt e in omega (arith, below s, now, ap one q, ap one q', h)

    -- When the graph begins anew there is no task.
    no_task :
        (id : ℕ) (s : Tasks)
        → s.system.at id ≡ resets
        → Phase g graph s.system
        → tasks s.system.bm_run_fn + pending s ≡ 0
    unfolding pending
    no_task id s e (plays h) =
        absurd (ground (arith, subst (PlaceFits g id h.status h.left) e (h.places id)))
    no_task id s e (again w h) =
        let idle : (k : ℕ) → is_pending (s.system.at k) (s.counted k) ≡ false = λ k.
          elim (ℕ_discrete w id) [
            | no ne ↦ absurd (ground (arith, subst IsIdle e (h.others id ne)))
            | yes q ↦ elim (ℕ_discrete w k) [
              | yes q' ↦ ap (λ p. is_pending p (s.counted k)) (ap s.system.at (sym q' ∙ q) ∙ e)
              | no ne ↦ IsIdle-is_pending (s.system.at k) (s.counted k) (h.others k ne)
            ]
          ] in
        omega (
          arith,
          none-number (has s.system.bm_run_fn) 256 h.clear,
          none-number (λ k. is_pending (s.system.at k) (s.counted k)) ncpus (λ k lt. idle k),
        )

    task_step-IsTallied :
        (recover : Bool) (id : ℕ) (p : Place) (s : Tasks)
        → s.system.at id ≡ p
        → id < ncpus
        → Reachable g s.system
        → IsTallied s
        → IsTallied (task_step g recover id p s)
    unfolding task_step IsTallied pending
    task_step-IsTallied recover id (adds fn j es) s e lt r h = elim (Bool-cases (s.counted id)) [
      | inl q ↦ rw q (pass-IsTallied id s lt r (λ a. q) h)
      | inr q ↦
          rw q
            (adds_task id s lt q (ap (λ p. is_pending p false) e) (ap (λ p. is_pending p true) e) h)
    ]
    task_step-IsTallied recover id begins s e lt r h = elim (Bool-cases (s.counted id)) [
      | inl q ↦ rw q (pass-IsTallied id s lt r (λ a. q) h)
      | inr q ↦
          rw q
            (adds_task id s lt q (ap (λ p. is_pending p false) e) (ap (λ p. is_pending p true) e) h)
    ]
    task_step-IsTallied recover id (runs fn) s e lt r h = elim (Bool-cases (s.counted id)) [
      | inl q ↦ rw q (pass-IsTallied id s lt r (λ a. q) h)
      | inr q ↦
          rw q (
            drops_task id s lt q (ap (λ p. is_pending p false) e) (ap (λ p. is_pending p true) e) h)
    ]
    task_step-IsTallied recover id resets s e lt r h =
        let now = pass-IsTallied id s lt r (λ a. absurd (ground (arith, a, ap has_access e))) h in
        let none_left = no_task id s e (Reachable-Phase g graph r) in
        let same : (if recover then 0 else s.runnable_tasks) ≡ s.runnable_tasks =
          elim (Bool-cases recover) [ inl q ↦ rw q (sym (h ∙ none_left)) | inr q ↦ rw q refl ] in
        same ∙ now
    task_step-IsTallied recover id (looks pc) s e lt r h =
        pass-IsTallied id s lt r (λ a. absurd (ground (arith, sym a ∙ ap has_access e))) h
    task_step-IsTallied recover id stops s e lt r h =
        pass-IsTallied id s lt r (λ a. absurd (ground (arith, sym a ∙ ap has_access e))) h
    task_step-IsTallied recover id halts s e lt r h =
        pass-IsTallied id s lt r (λ a. absurd (ground (arith, sym a ∙ ap has_access e))) h
    task_step-IsTallied recover id (releases fn es) s e lt r h =
        pass-IsTallied id s lt r (λ a. absurd (ground (arith, sym a ∙ ap has_access e))) h
    task_step-IsTallied recover id (counts fn) s e lt r h =
        pass-IsTallied id s lt r (λ a. absurd (ground (arith, sym a ∙ ap has_access e))) h

    -- The counter is the number of bits and of pending cpus.
    TasksReachable-IsTallied : {s : Tasks} → TasksReachable g ncpus s → IsTallied s
    unfolding task_move IsTallied pending
    TasksReachable-IsTallied (boots in_counts) =
        let idle : (id : ℕ) → is_pending (if id == 0 then at_new_work else halts) false ≡ false =
          λ id. elim (Bool-cases (id == 0)) [ inl q ↦ rw q refl | inr q ↦ rw q refl ] in
        omega (
          arith,
          none-number (has (0 ∷ 0 ∷ 0 ∷ 0 ∷ [])) 256 (λ j lt. empty_queue j),
          none-number (λ id. is_pending (if id == 0 then at_new_work else halts) false) ncpus
              (λ id lt. idle id),
        )
    TasksReachable-IsTallied (steps {s} recover id lt r) =
        task_step-IsTallied recover id (s.system.at id) s refl lt (system-Reachable r)
          (TasksReachable-IsTallied r)

  -- On up to 256 cpus, in every order of their steps, on a graph whose in-counts are its in-degrees and
  -- with no root but the start function: `runnable_tasks` is the number of the bits that are set in
  -- `bm_run_fn` and of the cpus that have counted a function and are about to set its bit, or have
  -- taken a bit and not yet counted it off. In this the recovery code may run or not.
  pub tasks_counted :
      (ncpus : ℕ) (s : Tasks)
      → ncpus ≤ 256
      → TasksReachable g ncpus s
      → s.runnable_tasks
        ≡ number (has s.system.bm_run_fn) 256
          + number (λ id. is_pending (s.system.at id) (s.counted id)) ncpus
  unfolding IsTallied pending
  tasks_counted ncpus s few r = TasksReachable-IsTallied ncpus few r
