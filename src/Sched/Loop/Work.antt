-- ===== src/Sched/Loop/Work.antt =====
-- `new_work` on every branch: it ends, in the function or the halt that the state calls for.
use bootcode.Base.{ℕ, suc, ◌<◌, ◌≡◌, ◌≢◌, refl, arith, ◌∙◌, ◌&&◌, ◌||◌, ◌==◌}
use bootcode.Base.{true, false, not, List, u8, dec64, ap, Option, none, some}
use native.Mathlib.Decide.{ℕ_discrete}
use bootcode.Bits.{bt}
use bootcode.Bits.Laws.{bt-bts}
use bootcode.Claim.Word.{has}
use bootcode.Util.{cas}
use bootcode.Sched.State.{State, Machine}
use bootcode.Sched.Queue.{add_bit, add_runnable_fn, take_bit}
use bootcode.Sched.Queue.Laws.{
  IsBitmap, has-add_bit, add_bit-IsBitmap, Takes, idle, work, take_bit-Takes, get_work-take_bit,
}
use bootcode.Sched.Loop.{
  Outcome, runs, halts, jump2fn, add_wait, load_in_counts, recover, restart, go_idle, dispatch,
  restart_or_halt, on_work, new_work,
}

module _ (mach : Machine) (id : ℕ) where
  -- What `restart` leaves: the start function is runnable, and the in-counts are loaded.
  pub record IsRestarted (s r : State) : Type 0 where
    pub bm : r.bm_run_fn ≡ add_bit s.bm_run_fn s.metadata.start_func
    pub start : r.metadata.start_func ≡ s.metadata.start_func
    pub finished : r.num_fin_fn ≡ s.num_fin_fn
    pub counts :
        (j : ℕ) → j < s.metadata.num_nodes → r.metadata.dag_in_count j ≡ u8 (s.metadata.dag j)

  pub restart-IsRestarted : (s : State) → IsRestarted s (restart mach id s).0
  unfolding restart recover load_in_counts add_runnable_fn
  restart-IsRestarted s = record {
    bm = ground arith;
    start = ground arith;
    finished = ground arith;
    counts = λ j h. ground arith;
  }

  pub current-dispatch :
      (fn t1 : ℕ) (s : State) → fn < 256 → (dispatch mach id fn t1 s).metadata.current id ≡ fn
  unfolding dispatch jump2fn add_wait
  current-dispatch fn t1 s h = ground arith

  module _ (fn t1 : ℕ) (s : State) where
    pub bm-dispatch : (dispatch mach id fn t1 s).bm_run_fn ≡ s.bm_run_fn
    unfolding dispatch jump2fn add_wait
    bm-dispatch = refl

    pub num_fin-dispatch : (dispatch mach id fn t1 s).num_fin_fn ≡ s.num_fin_fn
    unfolding dispatch jump2fn add_wait
    num_fin-dispatch = refl

    counts-dispatch : (dispatch mach id fn t1 s).metadata.dag_in_count ≡ s.metadata.dag_in_count
    unfolding dispatch jump2fn add_wait
    counts-dispatch = refl

  -- No function is runnable.
  abbrev pub IsEmpty : State → Type 0
  IsEmpty s = (i : ℕ) → i < 256 → has s.bm_run_fn i ≡ false

  -- What `new_work` may end in, from the state `s`.
  pub data Leaves (s : State) : Option Outcome → Type 0 where
    -- The lowest runnable function is taken out and entered.
    to_fn :
        {fn : ℕ} {s' : State}
        → has s.bm_run_fn fn ≡ true
        → ((i : ℕ) → i < fn → has s.bm_run_fn i ≡ false)
        → ((i : ℕ) → has s'.bm_run_fn i ≡ (not (i == fn) && has s.bm_run_fn i))
        → s'.metadata.current id ≡ fn
        → Leaves s (some (runs fn s'))
    -- Nothing is runnable, and functions are still running elsewhere: the cpu halts as inactive.
    to_halt :
        {s' : State}
        → IsEmpty s
        → s.num_fin_fn ≢ s.metadata.num_nodes
        → ((i : ℕ) → bt i s'.bm_inactive_vcpus ≡ ((i == id) || bt i s.bm_inactive_vcpus))
        → s'.bm_run_fn ≡ s.bm_run_fn
        → s'.num_fin_fn ≡ s.num_fin_fn
        → Leaves s (some (halts s'))
    -- Nothing is runnable, and all functions have finished: the graph starts anew.
    to_start :
        {s' : State}
        → IsEmpty s
        → s.num_fin_fn ≡ s.metadata.num_nodes
        → s'.num_fin_fn ≡ 0
        → IsEmpty s'
        → s'.metadata.current id ≡ s.metadata.start_func
        → ((j : ℕ) → j < s.metadata.num_nodes → s'.metadata.dag_in_count j ≡ u8 (s.metadata.dag j))
        → Leaves s (some (runs s.metadata.start_func s'))

  module _ (again : ℕ → State → Option Outcome) (t1 : ℕ) (s : State) where
    pub on_work-halts :
        s.num_fin_fn ≢ s.metadata.num_nodes
        → on_work mach id again t1 (s, none)
          ≡ some (halts (go_idle mach id t1 (record s { num_free_vcpu = dec64 s.num_free_vcpu })))
    unfolding on_work cas restart_or_halt
    on_work-halts ne = let e : (s.num_fin_fn == s.metadata.num_nodes) ≡ false = ground arith in rw e

    pub on_work-restarts :
        s.num_fin_fn ≡ s.metadata.num_nodes
        → let s2 = record s { num_free_vcpu = dec64 s.num_free_vcpu; num_fin_fn = 0 } in
          on_work mach id again t1 (s, none) ≡ again (restart mach id s2).1 (restart mach id s2).0
    unfolding on_work cas restart_or_halt
    on_work-restarts eq =
        let e : (s.num_fin_fn == s.metadata.num_nodes) ≡ true = ground arith in rw e

  pub new_work-take_bit :
      (f t1 : ℕ) (s : State) {ws : List ℕ} {o : Option ℕ}
      → take_bit s.bm_run_fn ≡ (ws, o)
      → new_work mach id (suc f) t1 s
        ≡ on_work mach id (new_work mach id f) t1 (record s { bm_run_fn = ws }, o)
  unfolding new_work
  new_work-take_bit f t1 s e = ap (on_work mach id (new_work mach id f) t1) (get_work-take_bit s e)

  dispatch-Leaves :
      (f t1 : ℕ) (s : State) (ws : List ℕ) (fn : ℕ)
      → take_bit s.bm_run_fn ≡ (ws, some fn)
      → fn < 256
      → has s.bm_run_fn fn ≡ true
      → ((i : ℕ) → i < fn → has s.bm_run_fn i ≡ false)
      → ((i : ℕ) → has ws i ≡ (not (i == fn) && has s.bm_run_fn i))
      → Leaves s (new_work mach id (suc f) t1 s)
  unfolding on_work
  dispatch-Leaves f t1 s ws fn e small is_set low rest =
      rw (new_work-take_bit f t1 s e, on_work)
        (to_fn is_set low (λ i. rw (bm-dispatch fn t1 (record s { bm_run_fn = ws })) (rest i))
          (current-dispatch fn t1 (record s { bm_run_fn = ws }) small))

  idle-Leaves :
      (t1 : ℕ) (s : State)
      → IsEmpty s
      → s.num_fin_fn ≢ s.metadata.num_nodes
      → Leaves s
          (some (halts (go_idle mach id t1 (record s { num_free_vcpu = dec64 s.num_free_vcpu }))))
  unfolding go_idle add_wait
  idle-Leaves t1 s clear ne = to_halt clear ne (λ i. bt-bts i id s.bm_inactive_vcpus) refl refl

  module _ (s r : State) (clear : IsEmpty s) (done : s.num_fin_fn ≡ s.metadata.num_nodes)
      (small : s.metadata.start_func < 256) (h : IsBitmap s.bm_run_fn)
      (rs : IsRestarted
        (record s { num_free_vcpu = dec64 s.num_free_vcpu; num_fin_fn = 0 })
        r) where
    -- After the restart only the start function is runnable.
    has-restart : (i : ℕ) → i < 256 → has r.bm_run_fn i ≡ (i == s.metadata.start_func)
    has-restart i lt =
        rw rs.bm
          (ground (arith, has-add_bit s.bm_run_fn s.metadata.start_func i h small, clear i lt))

    -- The second round after a restart finds it.
    start-Leaves :
        (f t1 : ℕ)
        → Takes r.bm_run_fn (take_bit r.bm_run_fn)
        → Leaves s (new_work mach id (suc f) t1 r)
    unfolding on_work
    start-Leaves f t1 (idle e nothing) = absurd (
        ground
          (arith, has-restart s.metadata.start_func small, nothing s.metadata.start_func small))
    start-Leaves f t1 (work ws fn e b lt is_set low rest n) =
        let at : fn ≡ s.metadata.start_func = ground (arith, has-restart fn lt) in
        let r' = record r { bm_run_fn = ws } in
        rw (new_work-take_bit f t1 r e, on_work, at)
          (to_start clear done (num_fin-dispatch s.metadata.start_func t1 r' ∙ rs.finished)
            (λ i lt'.
              rw (bm-dispatch s.metadata.start_func t1 r', rest i, has-restart i lt')
                (ground arith))
            (current-dispatch s.metadata.start_func t1 r' small)
            (λ j lt'. rw (counts-dispatch s.metadata.start_func t1 r') (rs.counts j lt')))

  -- From a state with the four words of the bitmap and a start function below 256, two rounds of
  -- `new_work` are enough. It enters the lowest runnable function and takes it, and no other, out of
  -- the set; with none runnable it marks the cpu as inactive and halts while functions are still
  -- running, and once all have finished it loads the in-counts, clears the count of finished
  -- functions and enters the start function with nothing else runnable.
  pub new_work-Leaves :
      (f t1 : ℕ) (s : State)
      → IsBitmap s.bm_run_fn
      → s.metadata.start_func < 256
      → Leaves s (new_work mach id (suc (suc f)) t1 s)
  new_work-Leaves f t1 s h small = go (take_bit-Takes s.bm_run_fn h)
    where
      s2 : State
      s2 = record s { num_free_vcpu = dec64 s.num_free_vcpu; num_fin_fn = 0 }

      r : State
      r = (restart mach id s2).0

      go : Takes s.bm_run_fn (take_bit s.bm_run_fn) → Leaves s (new_work mach id (suc (suc f)) t1 s)
      go (idle e clear) =
          rw (new_work-take_bit (suc f) t1 s e)
            (elim (ℕ_discrete s.num_fin_fn s.metadata.num_nodes) [
              | yes done ↦ rw (on_work-restarts (new_work mach id (suc f)) t1 s done) (
                  start-Leaves s r clear done small h (restart-IsRestarted s2) f
                    (restart mach id s2).1
                    (take_bit-Takes r.bm_run_fn (
                      rw (restart-IsRestarted s2).bm
                        (add_bit-IsBitmap s.bm_run_fn s.metadata.start_func h))))
              | no ne ↦
                  rw (on_work-halts (new_work mach id (suc f)) t1 s ne) (idle-Leaves t1 s clear ne)
            ])
      go (work ws fn e b lt is_set low rest n) =
          dispatch-Leaves (suc f) t1 s ws fn e lt is_set low rest
