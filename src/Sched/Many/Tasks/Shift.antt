-- ===== src/Sched/Many/Tasks/Shift.antt =====
-- What a step of Sched/Many does to the bits and to its cpu.
use bootcode.Base.{
  ℕ, ◌+◌, ◌*◌, ◌<◌, ◌≡◌, refl, sym, ap, ◌∙◌, arith, inl, inr, Bool, true, false, not, ◌==◌,
  Bool-cases, List, [], ◌∷◌, none, update, one, u8,
}
use mathlib.Core.Path.{subst}
use native.Mathlib.Decide.{ℕ_discrete, dec_lt}
use bootcode.Claim.{Pc, scan, claim, found, empty}
use bootcode.Claim.Effect.{Fits, got, quiet, takes, step-Effect}
use bootcode.Claim.Word.{has}
use bootcode.Sched.State.{Metadata}
use bootcode.Sched.Dag.Laws.{out_edges}
use bootcode.Sched.Queue.Laws.{IsBitmap}
use bootcode.Sched.Order.{IsGraph}
use bootcode.Sched.Many.{
  Place, looks, stops, resets, begins, halts, runs, releases, adds, counts, System, at_new_work,
  after_scan, step,
}
use bootcode.Sched.Many.Sound.{is_runnable, works, PlaceFits}
use bootcode.Sched.Many.Reset.{IsIdle}
use bootcode.Sched.Many.Runs.{nobody_works}
use bootcode.Sched.Many.Rounds.{Phase, plays, again}
use bootcode.Sched.Many.Tasks.Count.{
  is_pending, has_access, tasks, tasks-same, tasks-add_bit, tasks-take,
}

module _ (g : Metadata) (graph : IsGraph g) where
  -- What a step of Sched/Many does to the bits and to its cpu.
  abbrev pub Shifts : ℕ → System → Bool → System → Type 0
  Shifts id s c t =
      (p : Place) × (t.at ≡ update s.at id p)
      × (tasks t.bm_run_fn + one (is_pending p false)
          ≡ tasks s.bm_run_fn + one (is_pending (s.at id) c))

  module _ (s : System) (id : ℕ) where
    bitmap_of : Phase g graph s → IsBitmap s.bm_run_fn
    bitmap_of (plays h) = h.size
    bitmap_of (again w h) = h.size

    looks_of : (pc : Pc) → s.at id ≡ looks pc → Phase g graph s → (Fits 3 pc) × (got pc ≡ none)
    looks_of pc e (plays h) = subst (PlaceFits g id h.status h.left) e (h.places id)
    looks_of pc e (again w h) = elim (ℕ_discrete w id) [
      | no ne ↦ subst IsIdle e (h.others id ne)
      | yes q ↦ elim h.winner [
        | inl r ↦ absurd (ground (arith, sym e ∙ ap s.at (sym q) ∙ r))
        | inr (r, c) ↦ absurd (ground (arith, sym e ∙ ap s.at (sym q) ∙ r))
      ]
    ]

    begins_of :
        s.at id ≡ begins
        → Phase g graph s
        → (g.start_func < 256) × (has s.bm_run_fn g.start_func ≡ false)
    begins_of e (plays h) =
        absurd (ground (arith, subst (PlaceFits g id h.status h.left) e (h.places id)))
    begins_of e (again w h) =
        let lt : g.start_func < 256 = omega (arith, graph.start, graph.nodes) in
        (lt, h.clear g.start_func lt)

    adds_of :
        (fn j : ℕ) (es : List ℕ)
        → s.at id ≡ adds fn j es
        → Phase g graph s
        → (j < 256) × (has s.bm_run_fn j ≡ false)
    adds_of fn j es e (plays h) =
        let by = (subst (PlaceFits g id h.status h.left) e (h.places id)).2 in
        elim (dec_lt j g.num_nodes) [
          | no ge ↦ absurd (ground (arith, sym by ∙ h.outside j (omega (arith, ge))))
          | yes lt ↦
              let small : j < 256 = omega (arith, lt, graph.nodes) in
              (small, h.listed j small ∙ ap is_runnable by)
        ]
    adds_of fn j es e (again w h) =
        let idle = nobody_works g graph s w id fn h in
        absurd (ground (arith, sym idle ∙ ap (λ p. works p fn) e))

    module _ (c : Bool) where
      -- The cpu was not counted, and is not at its new place.
      kept :
          (t : System) (p : Place)
          → t.at ≡ update s.at id p
          → is_pending p false ≡ false
          → is_pending (s.at id) c ≡ false
          → tasks t.bm_run_fn ≡ tasks s.bm_run_fn
          → Shifts id s c t
      kept t p e q q' same = (p, e, omega (arith, ap one q, ap one q', same))

      scanned :
          (ws : List ℕ) (pc : Pc)
          → got pc ≡ none
          → is_pending (s.at id) c ≡ false
          → tasks ws ≡ tasks s.bm_run_fn
          → Shifts id s c (after_scan id ws pc s)
      scanned ws (scan k) gt q same =
          kept (after_scan id ws (scan k) s) (looks (scan k)) refl refl q same
      scanned ws (claim k n) gt q same =
          kept (after_scan id ws (claim k n) s) (looks (claim k n)) refl refl q same
      scanned ws (found k n) gt q same = absurd (ground (arith, gt))
      scanned ws empty gt q same = kept (after_scan id ws empty s) stops refl refl q same

      pub step_shifts :
          (p : Place)
          → s.at id ≡ p
          → Phase g graph s
          → (has_access p ≡ true → c ≡ true)
          → Shifts id s c (step g id p s)
      unfolding step
      step_shifts (looks pc) e h u =
          let (f, gt) = looks_of pc e h in
          let q0 : is_pending (s.at id) c ≡ false = ap (λ k. is_pending k c) e in
          elim (step-Effect 3 s.bm_run_fn pc (bitmap_of h) f) [
            | quiet ws pc' q len bits f' g' ahead ↦
                rw q (scanned ws pc' (g' ∙ gt) q0 (tasks-same s.bm_run_fn ws bits))
            | takes ws k n q idle len was bits hk hn ↦ rw q (
              runs (u8 (64 * k + n)),
              refl,
              omega
                  (arith, tasks-take s.bm_run_fn ws (64 * k + n) (omega arith) was bits, ap one q0),
            )
          ]
      step_shifts stops e h u =
          let q0 : is_pending (s.at id) c ≡ false = ap (λ k. is_pending k c) e in
          elim (Bool-cases (s.num_fin_fn == g.num_nodes)) [
            | inl q ↦ rw q (resets, refl, omega (arith, ap one q0))
            | inr q ↦ rw q (halts, refl, omega (arith, ap one q0))
          ]
      step_shifts halts e h u =
          kept (step g id halts s) at_new_work refl refl (ap (λ k. is_pending k c) e) refl
      step_shifts resets e h u =
          kept (step g id resets s) begins refl refl (ap (λ k. is_pending k c) e) refl
      step_shifts begins e h u =
          let q0 : is_pending (s.at id) c ≡ true = ap (λ k. is_pending k c) e ∙ u refl in
          let (lt, clear) = begins_of e h in
          (
            at_new_work,
            refl,
            omega (arith, tasks-add_bit s.bm_run_fn g.start_func (bitmap_of h) lt clear, ap one q0),
          )
      step_shifts (runs fn) e h u =
          let q0 : is_pending (s.at id) c ≡ false = ap (λ k. is_pending k c) e ∙ ap not (u refl) in
          (releases fn (out_edges g fn), refl, omega (arith, ap one q0))
      step_shifts (releases fn []) e h u =
          kept (step g id (releases fn []) s) (counts fn) refl refl (ap (λ k. is_pending k c) e)
            refl
      step_shifts (releases fn (j ∷ es)) e h u =
          let q0 : is_pending (s.at id) c ≡ false = ap (λ k. is_pending k c) e in
          elim (Bool-cases (u8 (s.dag_in_count j + 255) == 0)) [
            | inl q ↦ rw q (adds fn j es, refl, omega (arith, ap one q0))
            | inr q ↦ rw q (releases fn es, refl, omega (arith, ap one q0))
          ]
      step_shifts (adds fn j es) e h u =
          let q0 : is_pending (s.at id) c ≡ true = ap (λ k. is_pending k c) e ∙ u refl in
          let (lt, clear) = adds_of fn j es e h in
          (
            releases fn es,
            refl,
            omega (arith, tasks-add_bit s.bm_run_fn j (bitmap_of h) lt clear, ap one q0),
          )
      step_shifts (counts fn) e h u =
          kept (step g id (counts fn) s) at_new_work refl refl (ap (λ k. is_pending k c) e) refl
