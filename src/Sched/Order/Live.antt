-- ===== src/Sched/Order/Live.antt =====
-- One cpu alone on a graph without cycles: a pass that follows a pass.
use bootcode.Base.{
  number, none-number, number-all, all-number, number-add, ℕ, zero, suc, ◌+◌, ◌<◌, ◌≡◌, refl, sym,
  ap, ◌∙◌, arith, Bool, true, false, ◌==◌, if◌then◌else◌, update, update_eq, update_ne, ==_iff, inl,
  inr, ◌⊎◌, Bool-cases, Option, some,
}
use native.Mathlib.Decide.{ℕ_discrete, dec_lt}
use bootcode.Claim.Word.{has}
use bootcode.Sched.State.{State, Machine, Metadata, null_func}
use bootcode.Sched.Dag.Laws.{uses, out_edges}
use bootcode.Sched.Loop.Work.{IsEmpty}
use bootcode.Sched.Loop.{Outcome, runs, sched}
use bootcode.Sched.Order.{owed, nobody, IsGraph, Carries, IsOrdered}
use bootcode.Sched.Order.Owed.{owed_of_uses}
use bootcode.Sched.Order.Work.{Goes, to_next, to_wait, to_start}
use bootcode.Sched.Order.Pass.{sched-Goes, first-Goes}

number-nobody : (n : ℕ) → number nobody n ≡ 0
number-nobody n = none-number nobody n (λ f lt. refl)

module _ (mach : Machine) (id : ℕ) (g : Metadata) (graph : IsGraph g) (rank : ℕ → ℕ)
    (acyclic : (f j : ℕ) → f < g.num_nodes → 0 < uses j (out_edges g f) → rank f < rank j) where
  module _ (done started : ℕ → Bool) (s : State) (h : IsOrdered g done started s)
      (settled : (j : ℕ) → started j ≡ true → done j ≡ true)
      (clear : (i : ℕ) → i < 256 → has s.bm_run_fn i ≡ false) where
    done_below : (k j : ℕ) → rank j < k → j < g.num_nodes → done j ≡ true
    done_below zero j r lt = absurd (omega arith)
    done_below (suc k) j r lt =
        let free : owed g done g.num_nodes j ≡ 0 = owed_of_uses g done g.num_nodes j (λ f ltf e.
          elim (dec_lt 0 (uses j (out_edges g f))) [
            | yes pos ↦
                absurd (ground (arith, done_below k f (omega (arith, acyclic f j ltf pos)) ltf, e))
            | no z ↦ omega arith
          ]) in
        settled j (ground (arith, h.ready j lt free, clear j (omega (arith, graph.nodes))))

    -- With nothing runnable and nobody running, all have finished.
    all_done : (j : ℕ) → j < g.num_nodes → done j ≡ true
    all_done j = done_below (suc (rank j)) j (omega arith)

  -- The cpu runs a function, as the only one, after `k` others since the graph began.
  pub record IsCycle (k : ℕ) (s : State) : Type 0 where
    pub done : ℕ → Bool
    pub started : ℕ → Bool
    pub ordered : IsOrdered g done started s
    pub num_fin : s.num_fin_fn ≡ number done g.num_nodes
    pub finished : number done g.num_nodes ≡ k
    pub entered : started (s.metadata.current id) ≡ true
    pub unfinished : done (s.metadata.current id) ≡ false
    pub others : (j : ℕ) → started j ≡ true → (done j ≡ true) ⊎ (j ≡ s.metadata.current id)

  unfoldable pub next : ℕ → ℕ
  next k = if k + 1 == g.num_nodes then 0 else k + 1

  -- What a pass of that cpu ends in.
  abbrev pub Cycles : ℕ → Option Outcome → Type 0
  Cycles k o = (fn : ℕ) × (s : State) × (o ≡ some (runs fn s)) × IsCycle (next k) s

  -- After the start function has been entered, at the beginning of a cycle.
  start-IsCycle :
      (fn : ℕ) (t : State)
      → IsOrdered g nobody (update nobody fn true) t
      → t.num_fin_fn ≡ 0
      → t.metadata.current id ≡ fn
      → IsCycle 0 t
  start-IsCycle fn t ord fin cur = record {
    done = nobody;
    started = update nobody fn true;
    ordered = ord;
    num_fin = fin ∙ sym (number-nobody g.num_nodes);
    finished = number-nobody g.num_nodes;
    entered = rw cur (update_eq nobody fn fn true refl);
    unfinished = refl;
    others = λ j e. elim (ℕ_discrete fn j) [
      | yes q ↦ inr (sym q ∙ sym cur)
      | no ne ↦ absurd (ground (arith, update_ne nobody fn j true ne, e))
    ];
  }

  abbrev everybody : ℕ → Bool
  everybody f = true

  begins :
      (o : Option Outcome)
      → Goes mach id g everybody everybody o
      → (fn : ℕ) × (t : State) × (o ≡ some (runs fn t)) × IsCycle 0 t
  begins o (to_next {fn} {t} lt fresh preds ord fin cur) = absurd (ground (arith, fresh))
  begins o (to_wait {t} ne clear ord fin) =
      absurd (ne (all-number everybody g.num_nodes (λ f lt. refl)))
  begins o (to_start {fn} {t} all at ord fin cur) = (fn, t, refl, start-IsCycle fn t ord fin cur)

  module _ (k : ℕ) (s : State) (h : IsCycle k s) where
    done' : ℕ → Bool
    done' = update h.done (s.metadata.current id) true

    -- Whoever was started has finished, with the function that has just returned.
    settled_now : (j : ℕ) → h.started j ≡ true → done' j ≡ true
    unfolding done'
    settled_now j e = elim (ℕ_discrete (s.metadata.current id) j) [
      | yes q ↦ update_eq h.done (s.metadata.current id) j true q
      | no ne ↦ elim (h.others j e) [
        | inl d ↦ update_ne h.done (s.metadata.current id) j true ne ∙ d
        | inr q ↦ absurd (ne (sym q))
      ]
    ]

    number_now : number done' g.num_nodes ≡ k + 1
    unfolding done'
    number_now =
        let lt = (h.ordered.begun (s.metadata.current id) h.entered).0 in
        omega
          (arith, h.finished, number-add h.done (s.metadata.current id) g.num_nodes lt h.unfinished)

    fresh_undone : (fn : ℕ) → h.started fn ≡ false → done' fn ≡ false
    unfolding done'
    fresh_undone fn fresh = elim (ℕ_discrete (s.metadata.current id) fn) [
      | yes q ↦ absurd (ground (arith, h.entered, ap h.started q, fresh))
      | no ne ↦
          update_ne h.done (s.metadata.current id) fn true ne
          ∙ ground (arith, h.ordered.finished fn, fresh)
    ]

    Goes-Cycles : (o : Option Outcome) → Goes mach id g done' h.started o → Cycles k o
    unfolding next
    Goes-Cycles o (to_next {fn} {t} lt fresh preds ord fin cur) =
        let undone = fresh_undone fn fresh in
        let more : (k + 1 == g.num_nodes) ≡ false = elim (Bool-cases (k + 1 == g.num_nodes)) [
          | inl e ↦ absurd (
              ground (
                arith,
                number-all done' g.num_nodes fn
                    (omega (arith, number_now, (==_iff (k + 1) g.num_nodes).0 e)) lt,
                undone,
              ))
          | inr e ↦ e
        ] in
        (
          fn,
          t,
          refl,
          rw more (record {
            done = done';
            started = update h.started fn true;
            ordered = ord;
            num_fin = fin;
            finished = number_now;
            entered = rw cur (update_eq h.started fn fn true refl);
            unfinished = rw cur undone;
            others = λ j e. elim (ℕ_discrete fn j) [
              | yes q ↦ inr (sym q ∙ sym cur)
              | no ne ↦ inl (settled_now j (sym (update_ne h.started fn j true ne) ∙ e))
            ];
          }),
        )
    Goes-Cycles o (to_wait {t} ne clear ord fin) =
        absurd
          (ne (all-number done' g.num_nodes (all_done done' h.started t ord settled_now clear)))
    Goes-Cycles o (to_start {fn} {t} all at ord fin cur) =
        let full : (k + 1 == g.num_nodes) ≡ true =
          ground (arith, number_now, all-number done' g.num_nodes all) in
        (fn, t, refl, rw full (start-IsCycle fn t ord fin cur))

  -- One pass further in the cycle.
  pub sched-Cycles : (k : ℕ) (s : State) → IsCycle k s → Cycles k (sched mach id s)
  unfolding done'
  sched-Cycles k s h =
      let lt = (h.ordered.begun (s.metadata.current id) h.entered).0 in
      let busy : (s.metadata.current id == null_func) ≡ false = ground (arith, lt, graph.nodes) in
      let goes =
        sched-Goes mach id g h.done h.started s graph h.ordered h.num_fin
          (inr (h.entered, h.unfinished)) in
      Goes-Cycles k s h (sched mach id s) (rw busy at goes)

  -- The first pass, on a state that carries the graph with nothing runnable, begins the cycle.
  pub first-IsCycle :
      (s : State)
      → Carries g s
      → IsEmpty mach id s
      → s.num_fin_fn ≡ s.metadata.num_nodes
      → s.metadata.current id ≡ null_func
      → (fn : ℕ) × (t : State) × (sched mach id s ≡ some (runs fn t)) × IsCycle 0 t
  first-IsCycle s c clear fin q =
      begins (sched mach id s)
        (first-Goes mach id g everybody everybody s graph (λ f lt. refl) c clear fin q)
