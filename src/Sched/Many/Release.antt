-- ===== src/Sched/Many/Release.antt =====
-- The steps that release a function.
use bootcode.Base.{
  ℕ, ◌+◌, ◌-◌, ◌≤◌, ◌<◌, ◌≡◌, ◌≢◌, refl, sym, ap, ◌∙◌, arith, inr, true, if◌then◌else◌, ◌==◌, List,
  ◌∷◌, update, update_eq, update_ne, one, u8,
}
use mathlib.Core.Path.{subst}
use native.Mathlib.Decide.{ℕ_discrete, dec_lt}
use bootcode.Sched.State.{Metadata}
use bootcode.Sched.Dag.Laws.{uses, out_edges}
use bootcode.Sched.Order.{IsGraph}
use bootcode.Sched.Many.{Place, releases, adds, System}
use bootcode.Sched.Many.Owing.{owing-update, uses-le_owing, owing-le, owing-degrees}
use bootcode.Sched.Many.Sound.{
  Status, waits, ready, runnable, running, finished, is_runnable, is_finished, works, is_adding,
  has_run, owing, PlaceFits, FnFits, IsLive, IsRound, running_by,
}
use bootcode.Sched.Many.Change.{after}
use bootcode.Sched.Many.Work.{
  running-IsLive, unchanged, outside-update, fin-update, listed-update, lt, FnFits-mine,
  FnFits-stay,
}

module _ (g : Metadata) (graph : IsGraph g) (s : System) (h : IsRound g s) (me fn : ℕ)
    (e : h.status fn ≡ running me) where
  module _ (j : ℕ) (es : List ℕ) (at_fn : s.at me ≡ releases fn (j ∷ es)) where
    place : PlaceFits g me h.status h.left (releases fn (j ∷ es))
    place = subst (PlaceFits g me h.status h.left) at_fn (h.places me)

    live : IsLive g s
    live = running-IsLive g graph s h fn me e

    ltf : fn < g.num_nodes
    ltf = lt g graph s h me fn e

    left_edges : (k : ℕ) → uses k (h.left fn) ≡ (if j == k then 1 else 0) + uses k es
    left_edges k = ap (uses k) place.1

    one_left : 0 < uses j (h.left fn)
    one_left = ground (arith, left_edges j)

    ltj : j < g.num_nodes
    ltj = elim (dec_lt j g.num_nodes) [
      | yes l ↦ l
      | no ge ↦ absurd (omega (arith, one_left, h.edges fn j, graph.targets fn j ltf (omega arith)))
    ]

    positive : 0 < s.dag_in_count j
    positive =
        omega (arith, one_left, uses-le_owing h.left fn j g.num_nodes ltf, h.in_counts live j ltj)

    small : s.dag_in_count j < 256
    small =
        let le = owing-le h.left (out_edges g) j g.num_nodes (λ f. h.edges f j) in
        omega (arith, le, owing-degrees g j graph ltj, h.in_counts live j ltj)

    waits_of :
        (l : List ℕ) (n x : ℕ) (st : Status)
        → FnFits g (IsLive g s) h.round j l (s.dag_in_count j) n x s.at st
        → st ≡ waits
    waits_of l n x waits f = refl
    waits_of l n x (ready by) f = absurd (omega (arith, f.3 live, positive))
    waits_of l n x runnable f = absurd (omega (arith, f.3 live, positive))
    waits_of l n x (running by) f = absurd (omega (arith, f.3 live, positive))
    waits_of l n x finished f = absurd (omega (arith, f.3 live, positive))

    waiting : h.status j ≡ waits
    waiting = waits_of (h.left j) (s.entries j) (s.exits j) (h.status j) (h.fns j ltj)

    apart : fn ≢ j
    apart q = absurd (ground (arith, sym e ∙ ap h.status q ∙ waiting))

    less : u8 (s.dag_in_count j + 255) ≡ s.dag_in_count j - 1
    less = omega (arith, positive, small)

    left' : ℕ → List ℕ
    left' = update h.left fn es

    cs' : ℕ → ℕ
    cs' = update s.dag_in_count j (u8 (s.dag_in_count j + 255))

    in_counts' : (k : ℕ) → k < g.num_nodes → cs' k ≡ owing left' g.num_nodes k
    unfolding left' cs'
    in_counts' k l =
        let o = owing-update h.left fn es k g.num_nodes ltf in
        elim (ℕ_discrete j k) [
          | yes q ↦
              let now = update_eq s.dag_in_count j k (u8 (s.dag_in_count j + 255)) q in
              let c = h.in_counts live k l in
              let c' = ap s.dag_in_count q in
              let u : uses k (h.left fn) ≡ 1 + uses k es = ground (arith, left_edges k, q) in
              omega (arith, now, o, less, c, c', u, positive)
          | no ne ↦
              let now = update_ne s.dag_in_count j k (u8 (s.dag_in_count j + 255)) ne in
              let u : uses k (h.left fn) ≡ uses k es = ground (arith, left_edges k, ne) in
              omega (arith, now, o, h.in_counts live k l, u)
        ]

    edges' : (f k : ℕ) → uses k (left' f) ≤ uses k (out_edges g f)
    unfolding left'
    edges' f k = elim (ℕ_discrete fn f) [
      | yes q ↦
          let now = ap (uses k) (update_eq h.left fn f es q) in
          let old = ap (λ i. uses k (h.left i)) q in
          omega (arith, now, old, h.edges f k, left_edges k)
      | no ne ↦ omega (arith, ap (uses k) (update_ne h.left fn f es ne), h.edges f k)
    ]

    -- The functions that the cpu has and that it does not touch, in either case.
    fn_own :
        (p : Place)
        → works p fn ≡ true
        → has_run p ≡ true
        → FnFits g
            (IsLive g s)
            h.round
            fn
            (left' fn)
            (cs' fn)
            (s.entries fn)
            (s.exits fn)
            (update s.at me p)
            (running me)
    unfolding cs' left'
    fn_own p w run =
        let r = running_by g s h fn me ltf e in
        let same =
          update_ne s.dag_in_count j fn (u8 (s.dag_in_count j + 255)) (λ q. apart (sym q)) in
        FnFits-mine g graph s h me fn e (IsLive g s) h.round (cs' fn) (s.entries fn) (s.exits fn)
          (left' fn) p w r.1 (r.2 ∙ ap (λ b. h.round + one b) (ap has_run at_fn ∙ sym run))
          (λ v. same ∙ r.3 v)

    fn_other :
        (p : Place) (f : ℕ)
        → f < g.num_nodes
        → fn ≢ f
        → j ≢ f
        → FnFits g
            (IsLive g s)
            h.round
            f
            (left' f)
            (cs' f)
            (s.entries f)
            (s.exits f)
            (update s.at me p)
            (h.status f)
    unfolding cs' left'
    fn_other p f l ne other =
        rw
          (
            update_ne h.left fn f es ne,
            update_ne s.dag_in_count j f (u8 (s.dag_in_count j + 255)) other,
          )
          (FnFits-stay g graph s h me fn e (IsLive g s) f p l (λ v. v)
            (λ k. ap (λ p. works p k) at_fn) (λ q. absurd (ne q)) (ap (λ p. is_adding p f) at_fn))

    fn_waiting :
        (left' j ≡ out_edges g j)
        × (s.entries j + 1 ≡ h.round)
        × (s.exits j + 1 ≡ h.round)
        × (cs' j ≡ s.dag_in_count j - 1)
    unfolding cs' left'
    fn_waiting =
        let was =
          subst
            (FnFits g (IsLive g s) h.round j (h.left j) (s.dag_in_count j) (s.entries j) (s.exits j)
              s.at)
            waiting (h.fns j ltj) in
        (
          update_ne h.left fn j es apart ∙ was.0,
          was.1,
          was.2,
          update_eq s.dag_in_count j j (u8 (s.dag_in_count j + 255)) refl ∙ less,
        )

    same_left : (i f : ℕ) → me ≢ i → h.status f ≡ running i → left' f ≡ h.left f
    unfolding left'
    same_left i f ne q =
        update_ne h.left fn f es (λ r. ne (ground (arith, sym e ∙ ap h.status r ∙ q)))

    now_left : left' fn ≡ es
    unfolding left'
    now_left = update_eq h.left fn fn es refl

    -- `j` has other edges left.
    pub release_more :
        u8 (s.dag_in_count j + 255) ≢ 0
        → IsRound g (record s {
          dag_in_count = update s.dag_in_count j (u8 (s.dag_in_count j + 255));
          at = update s.at me (releases fn es);
        })
    unfolding cs'
    release_more more =
        let p = releases fn es in
        after g s me p h h.status left' cs' s.bm_run_fn s.num_fin_fn s.entries s.exits h.size
          h.listed h.outside h.fin (λ v. in_counts') edges' (λ i f ne q. (q, same_left i f ne q))
          (λ i f ne q. q) (e, now_left)
          (λ f l. elim (ℕ_discrete fn f) [
            | yes q ↦ rw (sym q, e) (fn_own p (ground arith) refl)
            | no ne ↦ elim (ℕ_discrete j f) [
              | yes q ↦
                  let (a, b, c, d) = fn_waiting in
                  rw (sym q, waiting) (a, b, c, λ v. omega (arith, d, less, more))
              | no other ↦ fn_other p f l ne other
            ]
          ])
          (λ k l q. inr refl) (λ q. absurd (live q))

    -- It was the last edge into `j`.
    pub release_last :
        u8 (s.dag_in_count j + 255) ≡ 0
        → IsRound g (record s {
          dag_in_count = update s.dag_in_count j (u8 (s.dag_in_count j + 255));
          at = update s.at me (adds fn j es);
        })
    unfolding cs'
    release_last none_left =
        let p = adds fn j es in
        let status = update h.status j (ready me) in
        let not_it : (st : Status) → st ≢ waits → h.status j ≢ st =
          λ st ne q. ne (sym q ∙ waiting) in
        after g s me p h status left' cs' s.bm_run_fn s.num_fin_fn s.entries s.exits h.size
          (listed-update g graph s h j (ready me) s.bm_run_fn
            (h.listed j (omega (arith, ltj, graph.nodes)) ∙ ap is_runnable waiting) (λ k ne. refl))
          (outside-update g graph s h j (ready me) ltj)
          (omega (
            arith,
            fin-update g graph s h j (ready me) ltj,
            ap (λ st. one (is_finished st)) waiting,
          ))
          (λ v. in_counts') edges'
          (λ i f ne q. (
            unchanged g graph s h j (ready me) f (running i)
                (not_it (running i) (λ r. absurd (ground (arith, r)))) q,
            same_left i f ne q,
          ))
          (λ i f ne q.
            unchanged g graph s h j (ready me) f (ready i)
              (not_it (ready i) (λ r. absurd (ground (arith, r)))) q)
          (
            unchanged g graph s h j (ready me) fn (running me)
                (not_it (running me) (λ r. absurd (ground (arith, r)))) e,
            now_left,
            update_eq h.status j j (ready me) refl,
          )
          (λ f l. elim (ℕ_discrete j f) [
            | yes q ↦
                let (a, b, c, d) = fn_waiting in
                rw (update_eq h.status j f (ready me) q, sym q)
                  (
                    a,
                    b,
                    c,
                    λ v. omega (arith, d, less, none_left),
                    ap (λ k. is_adding k j) (update_eq s.at me me p refl) ∙ ground arith,
                  )
            | no other ↦ rw (update_ne h.status j f (ready me) other) (elim (ℕ_discrete fn f) [
              | yes q ↦ rw (sym q, e) (fn_own p (ground arith) refl)
              | no ne ↦ fn_other p f l ne other
            ])
          ])
          (λ k l q. inr refl) (λ q. absurd (live q))
