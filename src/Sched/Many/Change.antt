-- ===== src/Sched/Many/Change.antt =====
-- A step of one cpu, and what it must keep of the invariant.
use bootcode.Base.{
  ℕ, ◌≤◌, ◌<◌, ◌≡◌, ◌≢◌, ◌⊎◌, refl, sym, ap, ◌∙◌, inl, inr, true, List, update, update_eq,
  update_ne, number,
}
use native.Mathlib.Decide.{ℕ_discrete}
use bootcode.Claim.Word.{has}
use bootcode.Sched.State.{Metadata}
use bootcode.Sched.Queue.Laws.{IsBitmap}
use bootcode.Sched.Dag.Laws.{uses, out_edges}
use bootcode.Sched.Many.{Place, System}
use bootcode.Sched.Many.Sound.{
  Status, ready, runnable, running, finished, is_runnable, is_finished, works, has_run, minds,
  is_up, owing, PlaceFits, FnFits, IsLive, IsRound, PlaceFits-other, FnFits-other,
}

module _ (g : Metadata) (s : System) (me : ℕ) (p : Place) (h : IsRound g s) where
  -- The new values beside the place.
  pub after :
      (status : ℕ → Status) (left : ℕ → List ℕ) (cs : ℕ → ℕ) (ws : List ℕ) (fin : ℕ) (es xs : ℕ → ℕ)
      → IsBitmap ws
      → ((j : ℕ) → j < 256 → has ws j ≡ is_runnable (status j))
      → ((f : ℕ) → g.num_nodes ≤ f → status f ≡ finished)
      → fin ≡ number (λ f. is_finished (status f)) g.num_nodes
      → (fin ≢ g.num_nodes → (j : ℕ) → j < g.num_nodes → cs j ≡ owing left g.num_nodes j)
      → ((f j : ℕ) → uses j (left f) ≤ uses j (out_edges g f))
      → ((i f : ℕ) → me ≢ i → h.status f ≡ running i → (status f ≡ running i) × (left f ≡ h.left f))
      → ((i f : ℕ) → me ≢ i → h.status f ≡ ready i → status f ≡ ready i)
      → PlaceFits g me status left p
      → ((f : ℕ)
          → f < g.num_nodes
          → FnFits g
              (fin ≢ g.num_nodes)
              h.round
              f
              (left f)
              (cs f)
              (es f)
              (xs f)
              (update s.at me p)
              (status f))
      → ((j : ℕ)
          → j < g.num_nodes
          → status j ≡ runnable
          → ((h.status j ≡ runnable) × (minds (s.at me) j ≡ true → minds p j ≡ true))
            ⊎ (minds p j ≡ true))
      → (fin ≡ g.num_nodes
          → ((s.num_fin_fn ≡ g.num_nodes) × (is_up (s.at me) ≡ true → is_up p ≡ true))
            ⊎ (is_up p ≡ true))
      → IsRound g (record {
        dag_in_count = cs;
        bm_run_fn = ws;
        num_fin_fn = fin;
        at = update s.at me p;
        entries = es;
        exits = xs;
      })
  after status left cs ws fin es xs size listed outside count in_counts edges other_running
        other_ready own fns mind over =
      let now = update_eq s.at me me p refl in
      record {
        round = h.round;
        status = status;
        left = left;
        size = size;
        listed = listed;
        outside = outside;
        fin = count;
        in_counts = in_counts;
        edges = edges;
        places = λ id. elim (ℕ_discrete me id) [
          | yes q ↦ rw (update_eq s.at me id p q, sym q) own
          | no ne ↦ rw (update_ne s.at me id p ne) (
              PlaceFits-other g id h.status status h.left left (s.at id)
                (λ f. other_running id f ne) (λ f. other_ready id f ne) (h.places id))
        ];
        fns = fns;
        minded = λ j lt q. elim (mind j lt q) [
          | inr m ↦ (me, ap (λ k. minds k j) now ∙ m)
          | inl (old, keep) ↦
              let (id, m) = h.minded j lt old in
              elim (ℕ_discrete me id) [
                | yes e ↦ (me, ap (λ k. minds k j) now ∙ keep (ap (λ i. minds (s.at i) j) e ∙ m))
                | no ne ↦ (id, ap (λ k. minds k j) (update_ne s.at me id p ne) ∙ m)
              ]
        ];
        awake = λ q. elim (over q) [
          | inr m ↦ (me, ap is_up now ∙ m)
          | inl (old, keep) ↦
              let (id, m) = h.awake old in
              elim (ℕ_discrete me id) [
                | yes e ↦ (me, ap is_up now ∙ keep (ap (λ i. is_up (s.at i)) e ∙ m))
                | no ne ↦ (id, ap is_up (update_ne s.at me id p ne) ∙ m)
              ]
        ];
      }

  -- Only the place changes: the functions that the cpu has are the same and not to be added.
  pub same_functions :
      ((f : ℕ) → f < g.num_nodes → h.status f ≢ ready me)
      → PlaceFits g me h.status h.left p
      → ((f : ℕ)
          → f < g.num_nodes
          → h.status f ≡ running me
          → (works p f ≡ true) × (has_run p ≡ has_run (s.at me)))
      → ((j : ℕ) → h.status j ≡ runnable → minds (s.at me) j ≡ true → minds p j ≡ true)
      → (s.num_fin_fn ≡ g.num_nodes → is_up (s.at me) ≡ true → is_up p ≡ true)
      → IsRound g (record s { at = update s.at me p })
  same_functions not_ready own has keep up =
      after h.status h.left s.dag_in_count s.bm_run_fn s.num_fin_fn s.entries s.exits h.size
        h.listed h.outside h.fin h.in_counts h.edges (λ i f ne e. (e, refl)) (λ i f ne e. e) own
        (λ f lt.
          FnFits-other g (IsLive g s) (IsLive g s) h.round f (s.dag_in_count f) (s.entries f)
            (s.exits f) (h.left f) s.at me p (h.status f) (λ v. v) (has f lt) (not_ready f lt)
            (h.fns f lt))
        (λ j lt e. inl (e, keep j e)) (λ e. inl (e, up e))
