-- ===== src/Sched/Many/Reset.antt =====
-- The graph begins anew: one cpu has won the `CAS`, and the others have no function.
use bootcode.Base.{
  ℕ, ◌+◌, ◌*◌, ◌<◌, ◌≡◌, ◌≢◌, ◌⊎◌, refl, sym, ap, ◌∙◌, arith, inl, inr, true, false, ◌==◌, List,
  none, update, update_eq, update_ne, number-all, u8,
}
use mathlib.Core.Path.{subst}
use native.Mathlib.Decide.{ℕ_discrete, dec_lt}
use bootcode.Claim.{Pc, scan, claim, found, empty}
use bootcode.Claim.Effect.{Fits, got, quiet, takes, step-Effect}
use bootcode.Claim.Word.{has}
use bootcode.Sched.State.{Metadata}
use bootcode.Sched.Queue.Laws.{IsBitmap}
use bootcode.Sched.Order.{IsGraph}
use bootcode.Sched.Many.{
  Place, looks, stops, resets, begins, halts, runs, releases, adds, counts, System, at_new_work,
}
use bootcode.Sched.Many.Sound.{
  Status, waits, ready, runnable, running, finished, is_runnable, is_finished, PlaceFits, FnFits,
  IsLive, IsRound,
}
use bootcode.Sched.Many.{after_scan, step}

-- A cpu without a function.
abbrev pub IsIdle : Place → Type 0
IsIdle (looks pc) = (Fits 3 pc) × (got pc ≡ none)
IsIdle stops = Unit
IsIdle halts = Unit
IsIdle _ = false ≡ true

module _ (g : Metadata) where
  pub record IsReset (who : ℕ) (s : System) : Type 0 where
    pub round : ℕ
    pub size : IsBitmap s.bm_run_fn
    pub clear : (j : ℕ) → j < 256 → has s.bm_run_fn j ≡ false
    pub fin : s.num_fin_fn ≡ 0
    pub ran : (f : ℕ) → f < g.num_nodes → (s.entries f ≡ round) × (s.exits f ≡ round)
    pub winner :
        (s.at who ≡ resets)
        ⊎ ((s.at who ≡ begins) × ((j : ℕ) → j < g.num_nodes → s.dag_in_count j ≡ u8 (g.dag j)))
    pub others : (id : ℕ) → who ≢ id → IsIdle (s.at id)

  PlaceFits-IsIdle :
      (id : ℕ) (status : ℕ → Status) (left : ℕ → List ℕ) (p : Place)
      → ((f : ℕ) → status f ≢ running id)
      → PlaceFits g id status left p
      → IsIdle p
  PlaceFits-IsIdle id status left (looks pc) no_fn h = h
  PlaceFits-IsIdle id status left stops no_fn h = tt
  PlaceFits-IsIdle id status left halts no_fn h = tt
  PlaceFits-IsIdle id status left resets no_fn h = h
  PlaceFits-IsIdle id status left begins no_fn h = h
  PlaceFits-IsIdle id status left (runs fn) no_fn h = absurd (no_fn fn h.0)
  PlaceFits-IsIdle id status left (releases fn es) no_fn h = absurd (no_fn fn h.0)
  PlaceFits-IsIdle id status left (adds fn j es) no_fn h = absurd (no_fn fn h.0)
  PlaceFits-IsIdle id status left (counts fn) no_fn h = absurd (no_fn fn h.0)

  finished_of : (st : Status) → is_finished st ≡ true → st ≡ finished
  finished_of finished e = refl
  finished_of waits e = absurd (ground (arith, e))
  finished_of (ready by) e = absurd (ground (arith, e))
  finished_of (running by) e = absurd (ground (arith, e))
  finished_of runnable e = absurd (ground (arith, e))

  module _ (graph : IsGraph g) (s : System) where
    -- The `CAS` is won.
    pub stops-IsReset :
        (me : ℕ)
        → IsRound g s
        → s.num_fin_fn ≡ g.num_nodes
        → IsReset me (record s { num_fin_fn = 0; at = update s.at me resets })
    stops-IsReset me h full =
        let all : (f : ℕ) → h.status f ≡ finished = λ f. elim (dec_lt f g.num_nodes) [
          | yes lt ↦
              finished_of (h.status f)
                (number-all (λ f. is_finished (h.status f)) g.num_nodes f (sym h.fin ∙ full) lt)
          | no ge ↦ h.outside f (omega arith)
        ] in
        record {
          round = h.round;
          size = h.size;
          clear = λ j lt. h.listed j lt ∙ ap is_runnable (all j);
          fin = refl;
          ran = λ f lt.
              let fits =
                subst
                  (FnFits g (IsLive g s) h.round f (h.left f) (s.dag_in_count f) (s.entries f)
                    (s.exits f) s.at)
                  (all f) (h.fns f lt) in
              (fits.1, fits.2);
          winner = inl (update_eq s.at me me resets refl);
          others = λ id ne. rw (update_ne s.at me id resets ne) (
              PlaceFits-IsIdle id h.status h.left (s.at id)
                (λ f q. absurd (ground (arith, sym (all f) ∙ q))) (h.places id));
        }

    module _ (who : ℕ) (h : IsReset who s) where
      -- Another cpu goes to another place without a function.
      idles :
          (me : ℕ) (p : Place) (ws : List ℕ)
          → who ≢ me
          → IsBitmap ws
          → ((j : ℕ) → has ws j ≡ has s.bm_run_fn j)
          → IsIdle p
          → IsReset who (record s { bm_run_fn = ws; at = update s.at me p })
      idles me p ws ne size bits idle =
          let same = update_ne s.at me who p (λ q. ne (sym q)) in
          record {
            round = h.round;
            size = size;
            clear = λ j lt. bits j ∙ h.clear j lt;
            fin = h.fin;
            ran = h.ran;
            winner = elim h.winner [ inl q ↦ inl (same ∙ q) | inr (q, c) ↦ inr (same ∙ q, c) ];
            others = λ id other. elim (ℕ_discrete me id) [
              | yes q ↦ rw (update_eq s.at me id p q) idle
              | no diff ↦ rw (update_ne s.at me id p diff) (h.others id other)
            ];
          }

      looks_after :
          (me : ℕ) (ws : List ℕ) (pc : Pc)
          → who ≢ me
          → IsBitmap ws
          → ((j : ℕ) → has ws j ≡ has s.bm_run_fn j)
          → Fits 3 pc
          → got pc ≡ none
          → IsReset who (after_scan me ws pc s)
      looks_after me ws (scan k) ne size bits f gt =
          idles me (looks (scan k)) ws ne size bits (f, refl)
      looks_after me ws (claim k n) ne size bits f gt =
          idles me (looks (claim k n)) ws ne size bits (f, refl)
      looks_after me ws (found k n) ne size bits f gt = absurd (ground (arith, gt))
      looks_after me ws empty ne size bits f gt = idles me stops ws ne size bits tt

      -- Another cpu finds nothing, and loses the `CAS`.
      pub other-IsReset : (me : ℕ) (p : Place) → who ≢ me → IsIdle p → IsReset who (step g me p s)
      unfolding step
      other-IsReset me (looks pc) ne (f, gt) = elim (step-Effect 3 s.bm_run_fn pc h.size f) [
        | quiet ws pc' q len bits f' g' ahead ↦
            rw q (looks_after me ws pc' ne (len ∙ h.size) bits f' (g' ∙ gt))
        | takes ws k n q idle len was bits hk hn ↦
            absurd (ground (arith, was, h.clear (64 * k + n) (omega arith)))
      ]
      other-IsReset me stops ne i =
          let lost : (s.num_fin_fn == g.num_nodes) ≡ false = ground (arith, h.fin, graph.start) in
          rw lost (idles me halts s.bm_run_fn ne h.size (λ j. refl) tt)
      other-IsReset me halts ne i =
          idles me at_new_work s.bm_run_fn ne h.size (λ j. refl) (omega arith, refl)
      other-IsReset me resets ne i = absurd (ground (arith, i))
      other-IsReset me begins ne i = absurd (ground (arith, i))
      other-IsReset me (runs fn) ne i = absurd (ground (arith, i))
      other-IsReset me (releases fn es) ne i = absurd (ground (arith, i))
      other-IsReset me (adds fn j es) ne i = absurd (ground (arith, i))
      other-IsReset me (counts fn) ne i = absurd (ground (arith, i))

      -- The in-counts are copied.
      pub resets-IsReset : IsReset who (step g who resets s)
      unfolding step
      resets-IsReset = record {
        round = h.round;
        size = h.size;
        clear = h.clear;
        fin = h.fin;
        ran = h.ran;
        winner = inr (update_eq s.at who who begins refl, λ j lt. ground (arith, lt));
        others = λ id ne. rw (update_ne s.at who id begins ne) (h.others id ne);
      }
