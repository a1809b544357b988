-- ===== src/Sched/Many/Work.antt =====
-- The steps of a cpu that has a function.
use bootcode.Base.{
  ℕ, ◌+◌, ◌≤◌, ◌<◌, ◌≡◌, ◌≢◌, refl, sym, ap, ◌∙◌, arith, inr, true, false, ◌==◌, List, [], update,
  update_eq, update_ne, one, number, number-all, number-update_value,
}
use mathlib.Core.Path.{subst}
use native.Mathlib.Decide.{ℕ_discrete, dec_lt}
use bootcode.Claim.Word.{has}
use bootcode.Sched.State.{Metadata}
use bootcode.Sched.Dag.Laws.{out_edges}
use bootcode.Sched.Queue.{add_bit}
use bootcode.Sched.Queue.Laws.{has-add_bit, add_bit-IsBitmap}
use bootcode.Sched.Order.{IsGraph}
use bootcode.Sched.Many.{Place, runs, releases, adds, counts, System}
use bootcode.Sched.Many.Sound.{
  Status, ready, runnable, running, finished, is_runnable, is_finished, works, is_adding, has_run,
  minds, PlaceFits, FnFits, IsLive, IsRound, FnFits-other, running_by, ready_by,
}
use bootcode.Sched.Many.Change.{after, same_functions}

module _ (g : Metadata) (graph : IsGraph g) (s : System) (h : IsRound g s) where
  inside : (f i : ℕ) → h.status f ≡ running i → f < g.num_nodes
  inside f i e = elim (dec_lt f g.num_nodes) [
    | yes lt ↦ lt
    | no ge ↦ absurd (ground (arith, sym e ∙ h.outside f (omega arith)))
  ]

  -- With an unfinished function the round is not over.
  pub unfinished-IsLive : (f : ℕ) → f < g.num_nodes → is_finished (h.status f) ≡ false → IsLive g s
  unfinished-IsLive f lt no_end e = absurd (
      ground (
        arith,
        number-all (λ f. is_finished (h.status f)) g.num_nodes f (sym h.fin ∙ e) lt,
        no_end,
      ))

  pub running-IsLive : (f i : ℕ) → h.status f ≡ running i → IsLive g s
  running-IsLive f i e = unfinished-IsLive f (inside f i e) (ap is_finished e)

  ready_inside : (f i : ℕ) → h.status f ≡ ready i → f < g.num_nodes
  ready_inside f i e = elim (dec_lt f g.num_nodes) [
    | yes lt ↦ lt
    | no ge ↦ absurd (ground (arith, sym e ∙ h.outside f (omega arith)))
  ]

  module _ (x : ℕ) (v : Status) where
    pub unchanged :
        (f : ℕ) (st : Status) → h.status x ≢ st → h.status f ≡ st → update h.status x v f ≡ st
    unchanged f st ne q = elim (ℕ_discrete x f) [
      | yes same ↦ absurd (ne (ap h.status same ∙ q))
      | no other ↦ update_ne h.status x f v other ∙ q
    ]

    pub outside-update :
        x < g.num_nodes → (f : ℕ) → g.num_nodes ≤ f → update h.status x v f ≡ finished
    outside-update lt f ge =
        update_ne h.status x f v (λ q. absurd (omega (arith, q, lt, ge))) ∙ h.outside f ge

    pub fin-update :
        x < g.num_nodes
        → number (λ f. is_finished (update h.status x v f)) g.num_nodes
            + one (is_finished (h.status x))
          ≡ s.num_fin_fn + one (is_finished v)
    fin-update lt =
        omega (arith, number-update_value is_finished h.status x v g.num_nodes lt, h.fin)

    -- The bitmap in which the bit of `x`, at least, fits its new status.
    pub listed-update :
        (ws : List ℕ)
        → (has ws x ≡ is_runnable v)
        → ((j : ℕ) → x ≢ j → has ws j ≡ has s.bm_run_fn j)
        → (j : ℕ) → j < 256
        → has ws j ≡ is_runnable (update h.status x v j)
    listed-update ws now rest j lt = elim (ℕ_discrete x j) [
      | yes q ↦ ap (has ws) (sym q) ∙ now ∙ sym (ap is_runnable (update_eq h.status x j v q))
      | no ne ↦ rest j ne ∙ h.listed j lt ∙ sym (ap is_runnable (update_ne h.status x j v ne))
    ]

  module _ (me fn : ℕ) (e : h.status fn ≡ running me) where
    pub lt : fn < g.num_nodes
    lt = inside fn me e

    -- The function that the cpu has is the only one.
    pub mine :
        ((f : ℕ) → works (s.at me) f ≡ (fn == f))
        → (f : ℕ) → f < g.num_nodes
        → h.status f ≡ running me
        → fn ≡ f
    mine only f ltf q = ground (arith, sym (only f) ∙ (running_by g s h f me ltf q).0)

    pub FnFits-mine :
        (live : Type 0) (round c n x : ℕ) (l : List ℕ) (p : Place)
        → works p fn ≡ true
        → n ≡ round
        → x + 1 ≡ round + one (has_run p)
        → (live → c ≡ 0)
        → FnFits g live round fn l c n x (update s.at me p) (running me)
    FnFits-mine live round c n x l p w en ex z =
        let now = update_eq s.at me me p refl in
        (ap (λ k. works k fn) now ∙ w, en, ex ∙ sym (ap (λ k. round + one (has_run k)) now), z)

    -- The function that the cpu goes on with, and those that it does not have.
    pub FnFits-stay :
        (live : Type 0) (f : ℕ) (p : Place)
        → f < g.num_nodes
        → (live → IsLive g s)
        → ((k : ℕ) → works (s.at me) k ≡ (fn == k))
        → (fn ≡ f → (works p fn ≡ true) × (has_run p ≡ has_run (s.at me)))
        → is_adding (s.at me) f ≡ false
        → FnFits g live h.round f
            (h.left f)
            (s.dag_in_count f)
            (s.entries f)
            (s.exits f)
            (update s.at me p)
            (h.status f)
    FnFits-stay live f p ltf w only stay idle =
        FnFits-other g (IsLive g s) live h.round f (s.dag_in_count f) (s.entries f) (s.exits f)
          (h.left f) s.at me p (h.status f) w
          (λ q.
            let same = mine only f ltf q in
            (ap (works p) (sym same) ∙ (stay same).0, (stay same).1))
          (λ q. absurd (ground (arith, ready_by g s h f me ltf q, idle))) (h.fns f ltf)

    pub runs-IsRound :
        s.at me ≡ runs fn
        → IsRound g (record s {
          at = update s.at me (releases fn (out_edges g fn));
          exits = update s.exits fn (s.exits fn + 1);
        })
    runs-IsRound at_fn =
        let p = releases fn (out_edges g fn) in
        let xs = update s.exits fn (s.exits fn + 1) in
        let place = subst (PlaceFits g me h.status h.left) at_fn (h.places me) in
        let r = running_by g s h fn me lt e in
        let self : works p fn ≡ true = ground arith in
        let left_now = update_eq s.exits fn fn (s.exits fn + 1) refl in
        let left_then = r.2 ∙ ap (λ k. h.round + one (has_run k)) at_fn in
        after g s me p h h.status h.left s.dag_in_count s.bm_run_fn s.num_fin_fn s.entries xs h.size
          h.listed h.outside h.fin h.in_counts h.edges (λ i f ne q. (q, refl)) (λ i f ne q. q)
          (e, place.1)
          (λ f ltf. elim (ℕ_discrete fn f) [
            | yes q ↦
                rw (sym q, e)
                  (FnFits-mine (IsLive g s) h.round (s.dag_in_count fn) (s.entries fn) (xs fn)
                    (h.left fn) p self r.1 (omega (arith, left_now, left_then)) r.3)
            | no ne ↦ rw (update_ne s.exits fn f (s.exits fn + 1) ne) (
                FnFits-stay (IsLive g s) f p ltf (λ v. v) (λ k. ap (λ p. works p k) at_fn)
                  (λ q. absurd (ne q)) (ap (λ p. is_adding p f) at_fn))
          ])
          (λ j l q. inr refl) (λ q. absurd (running-IsLive fn me e q))

    -- The functions stay; the new place is one of the same function.
    goes_on :
        (p : Place)
        → ((k : ℕ) → works (s.at me) k ≡ (fn == k))
        → ((f : ℕ) → is_adding (s.at me) f ≡ false)
        → has_run p ≡ has_run (s.at me)
        → works p fn ≡ true
        → PlaceFits g me h.status h.left p
        → ((j : ℕ) → minds p j ≡ true)
        → IsRound g (record s { at = update s.at me p })
    goes_on p only idle run w own mind =
        same_functions g s me p h
          (λ f ltf q. absurd (ground (arith, ready_by g s h f me ltf q, idle f))) own
          (λ f ltf q. (ap (works p) (sym (mine only f ltf q)) ∙ w, run)) (λ j q m. mind j)
          (λ q. absurd (running-IsLive fn me e q))

    pub releases_none :
        s.at me ≡ releases fn [] → IsRound g (record s { at = update s.at me (counts fn) })
    releases_none at_fn =
        let place = subst (PlaceFits g me h.status h.left) at_fn (h.places me) in
        goes_on (counts fn) (λ k. ap (λ p. works p k) at_fn) (λ f. ap (λ p. is_adding p f) at_fn)
          (sym (ap has_run at_fn)) (ground arith) place (λ j. refl)

    -- `add_runnable_fn`
    pub adds-IsRound :
        (j : ℕ) (es : List ℕ)
        → s.at me ≡ adds fn j es
        → IsRound g
            (record s { bm_run_fn = add_bit s.bm_run_fn j; at = update s.at me (releases fn es) })
    adds-IsRound j es at_fn =
        let place = subst (PlaceFits g me h.status h.left) at_fn (h.places me) in
        let p = releases fn es in
        let only = λ (k : ℕ). ap (λ p. works p k) at_fn in
        let status = update h.status j runnable in
        let ltj : j < g.num_nodes = ready_inside j me place.2 in
        let was =
          subst
            (FnFits g (IsLive g s) h.round j (h.left j) (s.dag_in_count j) (s.entries j) (s.exits j)
              s.at)
            place.2 (h.fns j ltj) in
        let bit = λ (k : ℕ). has-add_bit s.bm_run_fn j k h.size (omega (arith, ltj, graph.nodes)) in
        let self : works p fn ≡ true = ground arith in
        let not_it : (i : ℕ) → h.status j ≢ running i =
          λ i q. absurd (ground (arith, sym place.2 ∙ q)) in
        after g s me p h status h.left s.dag_in_count (add_bit s.bm_run_fn j) s.num_fin_fn s.entries
          s.exits (add_bit-IsBitmap s.bm_run_fn j h.size)
          (listed-update j runnable (add_bit s.bm_run_fn j) (ground (arith, bit j))
            (λ k ne. ground (arith, bit k, ne)))
          (outside-update j runnable ltj)
          (omega (arith, fin-update j runnable ltj, ap (λ st. one (is_finished st)) place.2))
          h.in_counts h.edges (λ i f ne q. (unchanged j runnable f (running i) (not_it i) q, refl))
          (λ i f ne q.
            unchanged j runnable f (ready i) (λ r. absurd (ground (arith, sym place.2 ∙ r, ne))) q)
          (unchanged j runnable fn (running me) (not_it me) e, place.1)
          (λ f ltf. elim (ℕ_discrete j f) [
            | yes q ↦ rw (update_eq h.status j f runnable q, sym q) (was.0, was.1, was.2, was.3)
            | no ne ↦ rw (update_ne h.status j f runnable ne) (
                FnFits-stay (IsLive g s) f p ltf (λ v. v) only (λ q. (self, sym (ap has_run at_fn)))
                  (ap (λ p. is_adding p f) at_fn ∙ ground (arith, ne)))
          ])
          (λ j l q. inr refl) (λ q. absurd (running-IsLive fn me e q))
