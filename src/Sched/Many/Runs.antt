-- ===== src/Sched/Many/Runs.antt =====
-- Which functions run at one time, and what has run when a function runs.
use bootcode.Base.{
  ℕ, ◌+◌, ◌<◌, ◌≡◌, ◌≢◌, refl, sym, ap, ◌∙◌, arith, inl, inr, true, false, ==_iff, Bool-cases, List,
  one,
}
use mathlib.Core.Path.{subst}
use native.Mathlib.Decide.{ℕ_discrete}
use bootcode.Sched.State.{Metadata}
use bootcode.Sched.Dag.Laws.{uses, out_edges}
use bootcode.Sched.Order.{IsGraph}
use bootcode.Sched.Many.{
  Place, looks, stops, resets, begins, halts, runs, releases, adds, counts, System,
}
use bootcode.Sched.Many.Owing.{uses-le_owing}
use bootcode.Sched.Many.Sound.{
  Status, waits, ready, runnable, running, finished, works, has_run, PlaceFits, FnFits, IsLive,
  IsRound, running_by,
}
use bootcode.Sched.Many.{Reachable}
use bootcode.Sched.Many.Work.{running-IsLive, lt}
use bootcode.Sched.Many.Reset.{IsIdle, IsReset}
use bootcode.Sched.Many.Rounds.{plays, again, Reachable-Phase}

module _ (g : Metadata) (graph : IsGraph g) where
  -- A cpu that works on a function has it.
  pub has_function :
      (id : ℕ) (status : ℕ → Status) (left : ℕ → List ℕ) (p : Place) (f : ℕ)
      → PlaceFits g id status left p
      → works p f ≡ true
      → status f ≡ running id
  has_function id status left (looks pc) f h w = absurd (ground (arith, w))
  has_function id status left stops f h w = absurd (ground (arith, w))
  has_function id status left halts f h w = absurd (ground (arith, w))
  has_function id status left resets f h w = absurd (ground (arith, w))
  has_function id status left begins f h w = absurd (ground (arith, w))
  has_function id status left (runs fn) f h w = sym (ap status (ground (arith, w))) ∙ h.0
  has_function id status left (releases fn es) f h w = sym (ap status (ground (arith, w))) ∙ h.0
  has_function id status left (adds fn j es) f h w = sym (ap status (ground (arith, w))) ∙ h.0
  has_function id status left (counts fn) f h w = sym (ap status (ground (arith, w))) ∙ h.0

  IsIdle-works : (p : Place) (f : ℕ) → IsIdle p → works p f ≡ false
  IsIdle-works (looks pc) f i = refl
  IsIdle-works stops f i = refl
  IsIdle-works halts f i = refl
  IsIdle-works resets f i = refl
  IsIdle-works begins f i = refl
  IsIdle-works (runs fn) f i = absurd (ground (arith, i))
  IsIdle-works (releases fn es) f i = absurd (ground (arith, i))
  IsIdle-works (adds fn j es) f i = absurd (ground (arith, i))
  IsIdle-works (counts fn) f i = absurd (ground (arith, i))

  -- While the graph begins anew nobody works.
  pub nobody_works : (s : System) (who id f : ℕ) → IsReset g who s → works (s.at id) f ≡ false
  nobody_works s who id f h = elim (ℕ_discrete who id) [
    | no ne ↦ IsIdle-works (s.at id) f (h.others id ne)
    | yes q ↦ elim h.winner [
      | inl r ↦ ap (λ p. works p f) (ap s.at (sym q) ∙ r)
      | inr (r, l) ↦ ap (λ p. works p f) (ap s.at (sym q) ∙ r)
    ]
  ]

  -- On a graph whose in-counts are its in-degrees, with no root but the start function, and on any
  -- number of cpus, in every order of their steps: while one works on a function, from the moment it
  -- has taken it out of the bitmap until it has counted it as finished, no other does.
  pub works_alone :
      (s : System) (id id' f : ℕ)
      → Reachable g s
      → id ≢ id'
      → works (s.at id) f ≡ true
      → works (s.at id') f ≡ false
  works_alone s id id' f r ne w = elim (Reachable-Phase g graph r) [
    | plays h ↦ elim (Bool-cases (works (s.at id') f)) [
      | inl w' ↦
          let a = has_function id h.status h.left (s.at id) f (h.places id) w in
          let b = has_function id' h.status h.left (s.at id') f (h.places id') w' in
          absurd (ground (arith, sym a ∙ b, ne))
      | inr e ↦ e
    ]
    | again who h ↦ nobody_works s who id' f h
  ]

  -- A function that runs, and one with an edge to it.
  module _ (s : System) (h : IsRound g s) (id j f : ℕ) (e : s.at id ≡ runs j)
      (edge : 0 < uses j (out_edges g f)) (ltf : f < g.num_nodes) where
    mine : (h.status j ≡ running id) × (h.left j ≡ out_edges g j)
    mine = subst (PlaceFits g id h.status h.left) e (h.places id)

    fits_j :
        FnFits g
          (IsLive g s)
          h.round
          j
          (h.left j)
          (s.dag_in_count j)
          (s.entries j)
          (s.exits j)
          s.at
          (running id)
    fits_j = running_by g s h j id (lt g graph s h id j mine.0) mine.0

    -- All edges into `j` are gone.
    none_left : uses j (h.left f) ≡ 0
    none_left =
        let live = running-IsLive g graph s h j id mine.0 in
        let count = h.in_counts live j (lt g graph s h id j mine.0) in
        omega (arith, fits_j.3 live, count, uses-le_owing h.left f j g.num_nodes ltf)

    not_whole : h.left f ≢ out_edges g f
    not_whole q = absurd (omega (arith, ap (uses j) q, none_left, edge))

    -- A cpu that works on `f` has some of its edges behind it.
    back :
        (by : ℕ) (p : Place)
        → PlaceFits g by h.status h.left p
        → works p f ≡ true
        → has_run p ≡ true
    back by (runs fn) fits w =
        absurd (not_whole (subst (λ k. h.left k ≡ out_edges g k) ((==_iff fn f).0 w) fits.1))
    back by (looks pc) fits w = refl
    back by stops fits w = refl
    back by halts fits w = refl
    back by resets fits w = refl
    back by begins fits w = refl
    back by (releases fn es) fits w = refl
    back by (adds fn j es) fits w = refl
    back by (counts fn) fits w = refl

    -- So `f` was entered in this round, and has returned.
    has_returned :
        (st : Status)
        → h.status f ≡ st
        → FnFits g
            (IsLive g s)
            h.round
            f
            (h.left f)
            (s.dag_in_count f)
            (s.entries f)
            (s.exits f)
            s.at
            st
        → (s.entries f ≡ h.round) × (s.exits f ≡ h.round)
    has_returned waits q l = absurd (not_whole l.0)
    has_returned (ready by) q l = absurd (not_whole l.0)
    has_returned runnable q l = absurd (not_whole l.0)
    has_returned finished q l = (l.1, l.2)
    has_returned (running by) q l =
        (l.1, omega (arith, l.2, ap one (back by (s.at by) (h.places by) l.0)))

  -- On a graph whose in-counts are its in-degrees, with no root but the start function, and on any
  -- number of cpus, in every order of their steps: while a function runs, each
  -- function with an edge to it was entered as often, and has returned each time, and the function
  -- itself has returned each time but this.
  pub runs_in_order :
      (s : System) (id j f : ℕ)
      → Reachable g s
      → s.at id ≡ runs j
      → f < g.num_nodes
      → 0 < uses j (out_edges g f)
      → (s.entries f ≡ s.entries j) × (s.exits f ≡ s.entries j) × (s.exits j + 1 ≡ s.entries j)
  runs_in_order s id j f r e lt edge = elim (Reachable-Phase g graph r) [
    | plays h ↦
        let mine = fits_j s h id j f e edge lt in
        let other = has_returned s h id j f e edge lt (h.status f) refl (h.fns f lt) in
        let out = ap (λ p. one (has_run p)) e in
        (
          omega (arith, other.0, mine.1),
          omega (arith, other.1, mine.1),
          omega (arith, mine.1, mine.2, out),
        )
    | again who h ↦
        let idle = nobody_works s who id j h in
        absurd (ground (arith, sym idle ∙ ap (λ p. works p j) e))
  ]

  -- On a graph whose in-counts are its in-degrees, with no root but the start function, and on any
  -- number of cpus, in every order of their steps: when a cpu has won the `CAS`
  -- and copies the in-counts, no other has a function or copies them, and all functions were entered
  -- equally often and have returned each time.
  pub resets_alone :
      (s : System) (who id f f' : ℕ)
      → Reachable g s
      → s.at who ≡ resets
      → who ≢ id
      → f < g.num_nodes
      → f' < g.num_nodes
      → IsIdle (s.at id) × (s.entries f ≡ s.entries f') × (s.exits f ≡ s.entries f)
  resets_alone s who id f f' r e ne lt lt' = elim (Reachable-Phase g graph r) [
    | plays h ↦ absurd (ground (arith, subst (PlaceFits g who h.status h.left) e (h.places who)))
    | again w h ↦ elim (ℕ_discrete w who) [
      | no diff ↦ absurd (ground (arith, subst IsIdle e (h.others who diff)))
      | yes q ↦
          let (en, ex) = h.ran f lt in
          let (en', ex') = h.ran f' lt' in
          (h.others id (λ p. ne (sym q ∙ p)), omega (arith, en, en'), omega (arith, en, ex))
    ]
  ]
