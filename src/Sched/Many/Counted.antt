-- ===== src/Sched/Many/Counted.antt =====
-- The step that counts a function as finished.
use bootcode.Base.{
  ℕ, ◌≡◌, ◌≢◌, refl, sym, ap, ◌∙◌, arith, inr, update, update_eq, update_ne, one, number-le, inc64,
}
use mathlib.Core.Path.{subst}
use native.Mathlib.Decide.{ℕ_discrete}
use bootcode.Sched.State.{Metadata}
use bootcode.Sched.Order.{IsGraph}
use bootcode.Sched.Many.{counts, System, at_new_work}
use bootcode.Sched.Many.Sound.{
  ready, running, finished, is_runnable, is_finished, works, is_adding, has_run, PlaceFits, IsRound,
  running_by,
}
use bootcode.Sched.Many.Change.{after}
use bootcode.Sched.Many.Work.{
  running-IsLive, unchanged, outside-update, fin-update, listed-update, lt, FnFits-stay,
}

module _ (g : Metadata) (graph : IsGraph g) (s : System) (h : IsRound g s) (me fn : ℕ)
    (e : h.status fn ≡ running me) where
  pub counts-IsRound :
      s.at me ≡ counts fn
      → IsRound g (record s { num_fin_fn = inc64 s.num_fin_fn; at = update s.at me at_new_work })
  counts-IsRound at_fn =
      let place = subst (PlaceFits g me h.status h.left) at_fn (h.places me) in
      let only = λ (k : ℕ). ap (λ p. works p k) at_fn in
      let status = update h.status fn finished in
      let ltf = lt g graph s h me fn e in
      let r = running_by g s h fn me ltf e in
      let live = running-IsLive g graph s h fn me e in
      let not_it : (i : ℕ) → me ≢ i → h.status fn ≢ running i =
        λ i ne q. absurd (ground (arith, sym e ∙ q, ne)) in
      let not_ready : (i : ℕ) → h.status fn ≢ ready i = λ i q. absurd (ground (arith, sym e ∙ q)) in
      let more = fin-update g graph s h fn finished ltf in
      let le = number-le (λ f. is_finished (status f)) g.num_nodes in
      let was = ap (λ st. one (is_finished st)) e in
      after g s me at_new_work h status h.left s.dag_in_count s.bm_run_fn (inc64 s.num_fin_fn)
        s.entries s.exits h.size
        (listed-update g graph s h fn finished s.bm_run_fn
          (h.listed fn (omega (arith, ltf, graph.nodes)) ∙ ap is_runnable e) (λ j ne. refl))
        (outside-update g graph s h fn finished ltf) (omega (arith, more, le, was, graph.nodes))
        (λ v. h.in_counts live) h.edges
        (λ i f ne q. (unchanged g graph s h fn finished f (running i) (not_it i ne) q, refl))
        (λ i f ne q. unchanged g graph s h fn finished f (ready i) (not_ready i) q)
        (omega arith, refl)
        (λ f l. elim (ℕ_discrete fn f) [
          | yes q ↦
              rw (update_eq h.status fn f finished q, sym q)
                (place.1, r.1, omega (arith, r.2, ap (λ p. one (has_run p)) at_fn), λ v. r.3 live)
          | no ne ↦ rw (update_ne h.status fn f finished ne) (
              FnFits-stay g graph s h me fn e (inc64 s.num_fin_fn ≢ g.num_nodes) f at_new_work l
                (λ v. live) only (λ q. absurd (ne q)) (ap (λ p. is_adding p f) at_fn))
        ])
        (λ j l q. inr (ground arith)) (λ q. inr refl)
