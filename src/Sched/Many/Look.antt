-- ===== src/Sched/Many/Look.antt =====
-- The steps of a cpu that looks for work, or goes to sleep.
use bootcode.Base.{
  ℕ, ◌+◌, ◌*◌, ◌<◌, ◌≡◌, ◌≢◌, refl, sym, ap, ◌∙◌, arith, inl, inr, true, false, not, ◌&&◌, ◌==◌,
  List, none, update, update_eq, update_ne, one, u8,
}
use mathlib.Core.Path.{subst}
use native.Mathlib.Decide.{ℕ_discrete, dec_lt}
use bootcode.Claim.{Pc, scan, claim, found, empty}
use bootcode.Claim.Effect.{Fits, got, is_ahead, quiet, takes, step-Effect}
use bootcode.Claim.Word.{has}
use bootcode.Sched.State.{Metadata}
use bootcode.Sched.Queue.Laws.{IsBitmap}
use bootcode.Sched.Order.{IsGraph}
use bootcode.Sched.Many.{Place, looks, stops, halts, runs, System, at_new_work}
use bootcode.Sched.Many.Sound.{
  Status, waits, ready, runnable, running, finished, is_runnable, is_finished, works, is_adding,
  has_run, minds, is_up, PlaceFits, FnFits, IsLive, IsRound, FnFits-other, running_by, ready_by,
}
use bootcode.Sched.Many.Change.{after, same_functions}
use bootcode.Sched.Many.{after_scan, step}
use bootcode.Sched.Many.Work.{
  unchanged, outside-update, fin-update, listed-update, unfinished-IsLive,
}

module _ (g : Metadata) (graph : IsGraph g) (s : System) (h : IsRound g s) (me : ℕ) where
  -- The cpu has no function.
  abbrev pub IsFree : Type 0
  IsFree = (f : ℕ) → (works (s.at me) f ≡ false) × (is_adding (s.at me) f ≡ false)

  not_running : IsFree → (f : ℕ) → f < g.num_nodes → h.status f ≢ running me
  not_running free f lt q = absurd (ground (arith, (running_by g s h f me lt q).0, (free f).0))

  not_ready : IsFree → (f : ℕ) → f < g.num_nodes → h.status f ≢ ready me
  not_ready free f lt q = absurd (ground (arith, ready_by g s h f me lt q, (free f).1))

  -- To another place without a function.
  pub idles :
      (p : Place)
      → IsFree
      → PlaceFits g me h.status h.left p
      → ((j : ℕ) → h.status j ≡ runnable → minds (s.at me) j ≡ true → minds p j ≡ true)
      → (s.num_fin_fn ≡ g.num_nodes → is_up (s.at me) ≡ true → is_up p ≡ true)
      → IsRound g (record s { at = update s.at me p })
  idles p free own mind up =
      same_functions g s me p h (not_ready free) own (λ f lt q. absurd (not_running free f lt q))
        mind up

  pub halts-IsRound : s.at me ≡ halts → IsRound g (record s { at = update s.at me at_new_work })
  halts-IsRound e =
      idles at_new_work (λ f. (ap (λ p. works p f) e, ap (λ p. is_adding p f) e))
        (omega arith, refl) (λ j q m. ground arith) (λ q u. refl)

  pub stops-IsRound :
      s.at me ≡ stops → IsLive g s → IsRound g (record s { at = update s.at me halts })
  stops-IsRound e live =
      idles halts (λ f. (ap (λ p. works p f) e, ap (λ p. is_adding p f) e)) tt
        (λ j q m. absurd (ground (arith, sym m ∙ ap (λ p. minds p j) e))) (λ q. absurd (live q))

  runnable_of : (st : Status) → is_runnable st ≡ true → st ≡ runnable
  runnable_of runnable e = refl
  runnable_of waits e = absurd (ground (arith, e))
  runnable_of (ready by) e = absurd (ground (arith, e))
  runnable_of (running by) e = absurd (ground (arith, e))
  runnable_of finished e = absurd (ground (arith, e))

  module _ (pc : Pc) (at_pc : s.at me ≡ looks pc) where
    -- No bit changes.
    looks_on :
        (ws : List ℕ) (pc' : Pc) (p : Place)
        → IsBitmap ws
        → ((j : ℕ) → has ws j ≡ has s.bm_run_fn j)
        → ((j : ℕ)
            → j < 256
            → has s.bm_run_fn j ≡ true
            → is_ahead pc j ≡ true
            → is_ahead pc' j ≡ true)
        → PlaceFits g me h.status h.left p
        → ((j : ℕ) → minds p j ≡ is_ahead pc' j)
        → is_up p ≡ true
        → IsRound g (record s { bm_run_fn = ws; at = update s.at me p })
    looks_on ws pc' p size bits ahead own mind up =
        let free : IsFree = λ f. (ap (λ p. works p f) at_pc, ap (λ p. is_adding p f) at_pc) in
        after g s me p h h.status h.left s.dag_in_count ws s.num_fin_fn s.entries s.exits size
          (λ j lt. bits j ∙ h.listed j lt) h.outside h.fin h.in_counts h.edges
          (λ i f ne q. (q, refl)) (λ i f ne q. q) own
          (λ f lt.
            FnFits-other g (IsLive g s) (IsLive g s) h.round f (s.dag_in_count f) (s.entries f)
              (s.exits f) (h.left f) s.at me p (h.status f) (λ v. v)
              (λ q. absurd (not_running free f lt q)) (not_ready free f lt) (h.fns f lt))
          (λ j lt q. inl (
            q,
            λ m.
                mind j
                ∙ ahead j (omega (arith, lt, graph.nodes))
                    (h.listed j (omega (arith, lt, graph.nodes)) ∙ ap is_runnable q)
                    (sym (ap (λ p. minds p j) at_pc) ∙ m),
          ))
          (λ q. inr up)

    -- The bit of a function is taken, and the function entered.
    enters :
        (ws : List ℕ) (j : ℕ)
        → IsBitmap ws
        → j < 256
        → has s.bm_run_fn j ≡ true
        → ((k : ℕ) → has ws k ≡ (not (k == j) && has s.bm_run_fn k))
        → IsRound g (record s {
          bm_run_fn = ws;
          at = update s.at me (runs j);
          entries = update s.entries j (s.entries j + 1);
        })
    enters ws j size small was bits =
        let free : IsFree = λ f. (ap (λ p. works p f) at_pc, ap (λ p. is_adding p f) at_pc) in
        let p = runs j in
        let st = runnable_of (h.status j) (sym (h.listed j small) ∙ was) in
        let status = update h.status j (running me) in
        let es = update s.entries j (s.entries j + 1) in
        let ltj : j < g.num_nodes = elim (dec_lt j g.num_nodes) [
          | yes lt ↦ lt
          | no ge ↦ absurd (ground (arith, sym st ∙ h.outside j (omega arith)))
        ] in
        let fits =
          subst
            (FnFits g (IsLive g s) h.round j (h.left j) (s.dag_in_count j) (s.entries j) (s.exits j)
              s.at)
            st (h.fns j ltj) in
        let live = unfinished-IsLive g graph s h j ltj (ap is_finished st) in
        let not_it : (v : Status) → v ≢ runnable → h.status j ≢ v = λ v ne q. ne (sym q ∙ st) in
        let now = update_eq s.at me me p refl in
        let left_now = update_eq s.entries j j (s.entries j + 1) refl in
        let self : works p j ≡ true = ground arith in
        after g s me p h status h.left s.dag_in_count ws s.num_fin_fn es s.exits size
          (listed-update g graph s h j (running me) ws (ground (arith, bits j))
            (λ k ne. ground (arith, bits k, ne)))
          (outside-update g graph s h j (running me) ltj)
          (omega
            (arith, fin-update g graph s h j (running me) ltj, ap (λ v. one (is_finished v)) st))
          h.in_counts h.edges
          (λ i f ne q. (
            unchanged g graph s h j (running me) f (running i)
                (not_it (running i) (λ r. absurd (ground (arith, r)))) q,
            refl,
          ))
          (λ i f ne q.
            unchanged g graph s h j (running me) f (ready i)
              (not_it (ready i) (λ r. absurd (ground (arith, r)))) q)
          (update_eq h.status j j (running me) refl, fits.0)
          (λ f lt. elim (ℕ_discrete j f) [
            | yes q ↦
                rw (update_eq h.status j f (running me) q, sym q)
                  (
                    ap (λ k. works k j) now ∙ self,
                    left_now ∙ fits.1,
                    omega (arith, fits.2, ap (λ k. one (has_run k)) now),
                    fits.3,
                  )
            | no ne ↦
                rw
                  (
                    update_ne h.status j f (running me) ne,
                    update_ne s.entries j f (s.entries j + 1) ne,
                  )
                  (FnFits-other g (IsLive g s) (IsLive g s) h.round f (s.dag_in_count f)
                    (s.entries f) (s.exits f) (h.left f) s.at me p (h.status f) (λ v. v)
                    (λ q. absurd (not_running free f lt q)) (not_ready free f lt) (h.fns f lt))
          ])
          (λ k l q. inr refl) (λ q. absurd (live q))

    looks_after :
        (ws : List ℕ) (pc' : Pc)
        → IsBitmap ws
        → ((j : ℕ) → has ws j ≡ has s.bm_run_fn j)
        → Fits 3 pc'
        → got pc' ≡ none
        → ((j : ℕ)
            → j < 256
            → has s.bm_run_fn j ≡ true
            → is_ahead pc j ≡ true
            → is_ahead pc' j ≡ true)
        → IsRound g (after_scan me ws pc' s)
    looks_after ws (scan k) size bits f gt ahead =
        looks_on ws (scan k) (looks (scan k)) size bits ahead (f, refl) (λ j. refl) refl
    looks_after ws (claim k n) size bits f gt ahead =
        looks_on ws (claim k n) (looks (claim k n)) size bits ahead (f, refl) (λ j. refl) refl
    looks_after ws (found k n) size bits f gt ahead = absurd (ground (arith, gt))
    looks_after ws empty size bits f gt ahead =
        looks_on ws empty stops size bits ahead tt (λ j. refl) refl

    pub looks-IsRound : IsRound g (step g me (looks pc) s)
    unfolding step
    looks-IsRound =
        let (f, gt) = subst (PlaceFits g me h.status h.left) at_pc (h.places me) in
        elim (step-Effect 3 s.bm_run_fn pc h.size f) [
          | quiet ws pc' q len bits f' g' ahead ↦
              rw q (looks_after ws pc' (len ∙ h.size) bits f' (g' ∙ gt) ahead)
          | takes ws k n q idle len was bits hk hn ↦
              let small : u8 (64 * k + n) ≡ 64 * k + n = omega arith in
              rw (q, small) (enters ws (64 * k + n) (len ∙ h.size) (omega arith) was bits)
        ]
