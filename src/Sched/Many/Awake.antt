-- ===== src/Sched/Many/Awake.antt =====
-- Some cpu is awake at any time.
use bootcode.Base.{
  ℕ, zero, suc, ◌<◌, ◌≡◌, ◌≢◌, refl, sym, ap, ◌∙◌, arith, inl, inr, Bool, true, false, [],
  false_of_number,
}
use mathlib.Core.Path.{subst}
use native.Mathlib.Decide.{ℕ_discrete}
use bootcode.Sched.State.{Metadata}
use bootcode.Sched.Dag.Laws.{uses, out_edges}
use bootcode.Sched.Order.{IsGraph}
use bootcode.Sched.Many.{Place, halts, System, Reachable}
use bootcode.Sched.Many.Owing.{owing_from}
use bootcode.Sched.Many.Sound.{
  Status, waits, ready, runnable, running, finished, is_finished, works, is_adding, minds, is_up,
  FnFits, IsLive, IsRound,
}
use bootcode.Sched.Many.Rounds.{plays, again, Reachable-Phase}

-- A test that fails of a halted cpu.
awake_of :
    (t : Place → Bool) (s : System) (id : ℕ)
    → t halts ≡ false
    → t (s.at id) ≡ true
    → (i : ℕ) × (s.at i ≢ halts)
awake_of t s id f e = (id, λ q. ground (arith, ap t q, f, e))

module _ (g : Metadata) (graph : IsGraph g) (rank : ℕ → ℕ)
    (acyclic : (f j : ℕ) → f < g.num_nodes → 0 < uses j (out_edges g f) → rank f < rank j) where
  module _ (s : System) (h : IsRound g s) (live : IsLive g s) where
    abbrev FitsAt : ℕ → Status → Type 0
    FitsAt f st =
        FnFits g (IsLive g s) h.round f (h.left f) (s.dag_in_count f) (s.entries f) (s.exits f) s.at
          st

    -- A function that is owed an edge, by one that is not finished and comes before it.
    debtor :
        (j : ℕ)
        → j < g.num_nodes
        → FitsAt j waits
        → (f : ℕ) × (f < g.num_nodes) × (rank f < rank j) × (h.status f ≢ finished)
    debtor j lt fits =
        let owed = h.in_counts live j lt in
        let (f, ltf, pos) = owing_from h.left j g.num_nodes (omega (arith, owed, fits.3 live)) in
        (
          f,
          ltf,
          acyclic f j ltf (omega (arith, h.edges f j, pos)),
          λ q.
              let none_left : h.left f ≡ [] = (subst (FitsAt f) q (h.fns f ltf)).0 in
              ground (arith, ap (uses j) none_left, pos),
        )

    -- Behind a function that is not finished is a cpu, when this is so for those before it.
    up_by :
        (f : ℕ)
        → f < g.num_nodes
        → ((i : ℕ)
            → rank i < rank f
            → i < g.num_nodes
            → h.status i ≢ finished
            → (id : ℕ) × (s.at id ≢ halts))
        → (st : Status) → h.status f ≡ st
        → st ≢ finished
        → FitsAt f st
        → (id : ℕ) × (s.at id ≢ halts)
    up_by f lt before waits q u fits =
        let (i, lti, less, v) = debtor f lt fits in before i less lti v
    up_by f lt before (ready by) q u fits = awake_of (λ p. is_adding p f) s by refl fits.4
    up_by f lt before runnable q u fits =
        let (id, e) = h.minded f lt q in awake_of (λ p. minds p f) s id refl e
    up_by f lt before (running by) q u fits = awake_of (λ p. works p f) s by refl fits.0
    up_by f lt before finished q u fits = absurd (u refl)

    up_below :
        (k f : ℕ)
        → rank f < k
        → f < g.num_nodes
        → h.status f ≢ finished
        → (id : ℕ) × (s.at id ≢ halts)
    up_below zero f r lt u = absurd (omega arith)
    up_below (suc k) f r lt u =
        up_by f lt (λ i less lti v. up_below k i (omega arith) lti v) (h.status f) refl u
          (h.fns f lt)

  round_awake : (s : System) → IsRound g s → (id : ℕ) × (s.at id ≢ halts)
  round_awake s h = elim (ℕ_discrete s.num_fin_fn g.num_nodes) [
    | yes full ↦ let (id, e) = h.awake full in awake_of is_up s id refl e
    | no live ↦
        let (f, lt, u) =
          false_of_number (λ f. is_finished (h.status f)) g.num_nodes (λ q. live (h.fin ∙ q)) in
        up_below s h live (suc (rank f)) f (omega arith) lt
          (λ q. ground (arith, ap is_finished q, u))
  ]

  -- On a graph without cycles, given by a rank that grows along each edge, with no root but the start
  -- function and in-counts that are its in-degrees: some cpu is not in `hlt`, at any time and whatever
  -- the order of the steps of all cpus.
  pub never_asleep : (s : System) → Reachable g s → (id : ℕ) × (s.at id ≢ halts)
  never_asleep s r = elim (Reachable-Phase g graph r) [
    | plays h ↦ round_awake s h
    | again who h ↦ (
      who,
      λ q. elim h.winner [
        | inl e ↦ ground (arith, sym e ∙ q)
        | inr (e, c) ↦ ground (arith, sym e ∙ q)
      ],
    )
  ]
