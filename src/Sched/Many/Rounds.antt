-- ===== src/Sched/Many/Rounds.antt =====
-- Rounds follow each other, in every order of the steps; when a function runs, and what has run then.
use bootcode.Base.{
  ℕ, zero, suc, ◌+◌, ◌<◌, ◌≡◌, refl, sym, ap, ◌∙◌, arith, inl, inr, true, false, if◌then◌else◌,
  ◌==◌, ==_iff, Bool-cases, List, [], ◌∷◌, update_eq, update_ne, number, none-number, all-number,
  ltb, u8,
}
use mathlib.Core.Path.{subst}
use native.Mathlib.Decide.{ℕ_discrete}
use bootcode.Sched.State.{Metadata}
use bootcode.Sched.Queue.Laws.{empty_queue}
use bootcode.Sched.Dag.Laws.{out_edges}
use bootcode.Sched.Queue.Laws.{empty_queue, has-add_bit, add_bit-IsBitmap}
use bootcode.Sched.Order.{IsGraph, owed, nobody}
use bootcode.Sched.Many.{
  Place, looks, stops, resets, begins, halts, runs, releases, adds, counts, System, at_new_work,
}
use bootcode.Sched.Many.Owing.{owing-degrees}
use bootcode.Sched.Many.Sound.{
  Status, waits, runnable, finished, is_finished, minds, PlaceFits, IsRound,
}
use bootcode.Sched.Many.{step, move, Reachable, start, moved}
use bootcode.Sched.Many.Work.{lt, runs-IsRound, releases_none, adds-IsRound}
use bootcode.Sched.Many.Counted.{counts-IsRound}
use bootcode.Sched.Many.Release.{release_more, release_last}
use bootcode.Sched.Many.Look.{halts-IsRound, stops-IsRound, looks-IsRound}
use bootcode.Sched.Many.Reset.{IsIdle, IsReset, stops-IsReset, other-IsReset, resets-IsReset}

module _ (g : Metadata) (graph : IsGraph g) where
  IsIdle-PlaceFits :
      (id : ℕ) (status : ℕ → Status) (left : ℕ → List ℕ) (p : Place)
      → IsIdle p
      → PlaceFits g id status left p
  IsIdle-PlaceFits id status left (looks pc) i = i
  IsIdle-PlaceFits id status left stops i = tt
  IsIdle-PlaceFits id status left halts i = tt
  IsIdle-PlaceFits id status left resets i = i
  IsIdle-PlaceFits id status left begins i = i
  IsIdle-PlaceFits id status left (runs fn) i = absurd (ground (arith, i))
  IsIdle-PlaceFits id status left (releases fn es) i = absurd (ground (arith, i))
  IsIdle-PlaceFits id status left (adds fn j es) i = absurd (ground (arith, i))
  IsIdle-PlaceFits id status left (counts fn) i = absurd (ground (arith, i))

  -- The status of the functions at the beginning of a round.
  first_status : ℕ → Status
  first_status f =
      if ltb f g.num_nodes then (if f == g.start_func then runnable else waits) else finished

  -- Another function than the start function waits.
  positive :
      (f : ℕ)
      → f < g.num_nodes
      → (c : ℕ) → c ≡ owed g nobody g.num_nodes f
      → (f == g.start_func) ≡ false
      → 0 < c
  positive f lt zero e ne = absurd (ground (arith, graph.only f lt (sym e), ne))
  positive f lt (suc c) e ne = omega arith

  -- The start function is added.
  begins-IsRound :
      (who : ℕ) (s : System)
      → IsReset g who s
      → ((j : ℕ) → j < g.num_nodes → s.dag_in_count j ≡ u8 (g.dag j))
      → IsRound g (step g who begins s)
  unfolding step first_status
  begins-IsRound who s h loaded =
      let a = g.start_func in
      let bit =
        λ (j : ℕ). has-add_bit s.bm_run_fn a j h.size (omega (arith, graph.start, graph.nodes)) in
      let now = update_eq s.at who who at_new_work refl in
      let none_yet : number (λ f. is_finished (first_status f)) g.num_nodes ≡ 0 =
        none-number (λ f. is_finished (first_status f)) g.num_nodes (λ f lt. ground (arith, lt)) in
      record {
        round = h.round + 1;
        status = first_status;
        left = out_edges g;
        size = add_bit-IsBitmap s.bm_run_fn a h.size;
        listed = λ j lt. elim (Bool-cases (j == a)) [
          | inl e ↦
              let in_graph : ltb j g.num_nodes ≡ true = ground (arith, e, graph.start) in
              rw (bit j, e, in_graph) refl
          | inr e ↦
              rw (bit j, e, h.clear j lt)
                (elim (Bool-cases (ltb j g.num_nodes)) [ inl q ↦ rw q refl | inr q ↦ rw q refl ])
        ];
        outside = λ f ge. ground (arith, ge);
        fin = h.fin ∙ sym none_yet;
        in_counts = λ live j lt. loaded j lt ∙ sym (owing-degrees g j graph lt);
        edges = λ f j. omega arith;
        places = λ id. elim (ℕ_discrete who id) [
          | yes q ↦ rw (update_eq s.at who id at_new_work q) (omega arith, refl)
          | no ne ↦
              rw (update_ne s.at who id at_new_work ne)
                (IsIdle-PlaceFits id first_status (out_edges g) (s.at id) (h.others id ne))
        ];
        fns = λ f lt.
            let in_graph : ltb f g.num_nodes ≡ true = ground (arith, lt) in
            let (en, ex) = h.ran f lt in
            let degree = loaded f lt ∙ graph.degrees f lt in
            elim (Bool-cases (f == a)) [
              | inl e ↦
                  rw (in_graph, e)
                    (
                      refl,
                      omega (arith, en),
                      omega (arith, ex),
                      λ v.
                          degree ∙ ap (owed g nobody g.num_nodes) ((==_iff f a).0 e) ∙ graph.source,
                    )
              | inr e ↦
                  rw (in_graph, e)
                    (
                      refl,
                      omega (arith, en),
                      omega (arith, ex),
                      λ v. positive f lt (s.dag_in_count f) degree e,
                    )
            ];
        minded = λ j lt q. (who, ap (λ p. minds p j) now ∙ ground arith);
        awake = λ q. absurd (omega (arith, h.fin, q, graph.start));
      }

  pub data Phase (s : System) : Type 0 where
    plays : IsRound g s → Phase s
    again : (who : ℕ) → IsReset g who s → Phase s

  move-Phase : (id : ℕ) (s : System) (p : Place) → s.at id ≡ p → Phase s → Phase (step g id p s)
  unfolding step
  move-Phase id s (looks pc) e (plays h) = plays (looks-IsRound g graph s h id pc e)
  move-Phase id s stops e (plays h) = elim (ℕ_discrete s.num_fin_fn g.num_nodes) [
    | yes q ↦
        let won : (s.num_fin_fn == g.num_nodes) ≡ true = ground (arith, q) in
        rw won (again id (stops-IsReset g graph s id h q))
    | no ne ↦
        let lost : (s.num_fin_fn == g.num_nodes) ≡ false = ground (arith, ne) in
        rw lost (plays (stops-IsRound g graph s h id e ne))
  ]
  move-Phase id s halts e (plays h) = plays (halts-IsRound g graph s h id e)
  move-Phase id s resets e (plays h) =
      absurd (ground (arith, subst (PlaceFits g id h.status h.left) e (h.places id)))
  move-Phase id s begins e (plays h) =
      absurd (ground (arith, subst (PlaceFits g id h.status h.left) e (h.places id)))
  move-Phase id s (runs fn) e (plays h) =
      let f = subst (PlaceFits g id h.status h.left) e (h.places id) in
      plays (runs-IsRound g graph s h id fn f.0 e)
  move-Phase id s (releases fn []) e (plays h) =
      let f = subst (PlaceFits g id h.status h.left) e (h.places id) in
      plays (releases_none g graph s h id fn f.0 e)
  move-Phase id s (releases fn (j ∷ es)) e (plays h) =
      let f = subst (PlaceFits g id h.status h.left) e (h.places id) in
      elim (ℕ_discrete (u8 (s.dag_in_count j + 255)) 0) [
        | yes z ↦
            let last : (u8 (s.dag_in_count j + 255) == 0) ≡ true = ground (arith, z) in
            rw last (plays (release_last g graph s h id fn f.0 j es e z))
        | no ne ↦
            let more : (u8 (s.dag_in_count j + 255) == 0) ≡ false = ground (arith, ne) in
            rw more (plays (release_more g graph s h id fn f.0 j es e ne))
      ]
  move-Phase id s (adds fn j es) e (plays h) =
      let f = subst (PlaceFits g id h.status h.left) e (h.places id) in
      plays (adds-IsRound g graph s h id fn f.0 j es e)
  move-Phase id s (counts fn) e (plays h) =
      let f = subst (PlaceFits g id h.status h.left) e (h.places id) in
      plays (counts-IsRound g graph s h id fn f.0 e)
  move-Phase id s p e (again who h) = elim (ℕ_discrete who id) [
    | no ne ↦ again who (other-IsReset g graph s who h id p ne (subst IsIdle e (h.others id ne)))
    | yes q ↦ elim h.winner [
      | inl r ↦
          let place : p ≡ resets = sym e ∙ ap s.at (sym q) ∙ r in
          subst (λ k. Phase (step g id k s)) (sym place)
            (again who
              (subst (λ k. IsReset g who (step g k resets s)) q (resets-IsReset g graph s who h)))
      | inr (r, loaded) ↦
          let place : p ≡ begins = sym e ∙ ap s.at (sym q) ∙ r in
          subst (λ k. Phase (step g id k s)) (sym place)
            (plays (subst (λ k. IsRound g (step g k begins s)) q (begins-IsRound who s h loaded)))
    ]
  ]

  pub Reachable-Phase : {s : System} → Reachable g s → Phase s
  unfolding move
  Reachable-Phase (start in_counts) = plays (record {
    round = 0;
    status = λ f. finished;
    left = λ f. [];
    size = refl;
    listed = λ j lt. empty_queue j;
    outside = λ f ge. refl;
    fin = sym (all-number (λ f. true) g.num_nodes (λ f lt. refl));
    in_counts = λ live j lt. absurd (live refl);
    edges = λ f j. omega arith;
    places =
        λ id. elim (Bool-cases (id == 0)) [ inl e ↦ rw e (omega arith, refl) | inr e ↦ rw e tt ];
    fns = λ f lt. (refl, refl, refl, λ live. absurd (live refl));
    minded = λ j lt q. absurd (ground (arith, q));
    awake = λ q. (0, refl);
  })
  Reachable-Phase (moved {s} id r) = move-Phase id s (s.at id) refl (Reachable-Phase r)
