-- ===== src/Sched/Many/Sound.antt =====
-- The invariant of the shared variables while a graph runs, and the lemma that all steps use.
use bootcode.Base.{
  ℕ, zero, suc, ◌+◌, ◌≤◌, ◌<◌, ◌≡◌, ◌≢◌, sym, ap, ◌∙◌, Bool, true, false, ◌==◌, List, [], none,
  update, update_eq, update_ne, one, number,
}
use mathlib.Core.Path.{subst}
use native.Mathlib.Decide.{ℕ_discrete}
use bootcode.Claim.Effect.{Fits, got, is_ahead}
use bootcode.Claim.Word.{has}
use bootcode.Sched.State.{Metadata}
use bootcode.Sched.Queue.Laws.{IsBitmap}
use bootcode.Sched.Dag.Laws.{uses, out_edges}
use bootcode.Sched.Many.{
  Place, looks, stops, resets, begins, halts, runs, releases, adds, counts, System,
}

-- What has become of a function in this round: it waits for others; a cpu is about to make it
-- runnable; it is in the bitmap; a cpu has it; it is counted as finished.
pub data Status : Type 0 where
  waits : Status
  ready : (by : ℕ) → Status
  runnable : Status
  running : (by : ℕ) → Status
  finished : Status

abbrev pub is_runnable : Status → Bool
is_runnable runnable = true
is_runnable _ = false

abbrev pub is_finished : Status → Bool
is_finished finished = true
is_finished _ = false

-- The cpu has the function `f`, and is about to make it runnable.
abbrev pub works : Place → ℕ → Bool
works (runs fn) f = fn == f
works (releases fn es) f = fn == f
works (adds fn j es) f = fn == f
works (counts fn) f = fn == f
works _ f = false

abbrev pub is_adding : Place → ℕ → Bool
is_adding (adds fn j es) f = j == f
is_adding _ f = false

abbrev pub has_run : Place → Bool
has_run (runs fn) = false
has_run _ = true

-- The cpu will come by the bit `j` in its search for work.
abbrev pub minds : Place → ℕ → Bool
minds (looks pc) j = is_ahead pc j
minds (runs fn) j = true
minds (releases fn es) j = true
minds (adds fn out_fn es) j = true
minds (counts fn) j = true
minds _ j = false

abbrev pub is_up : Place → Bool
is_up (looks pc) = true
is_up stops = true
is_up _ = false

-- The edges that are left of all functions below `n` into `j`.
unfoldable pub owing : (ℕ → List ℕ) → ℕ → ℕ → ℕ
owing left zero j = 0
owing left (suc n) j = owing left n j + uses j (left n)

module _ (g : Metadata) where
  -- What the place of a cpu says of the functions that it has.
  abbrev pub PlaceFits : ℕ → (ℕ → Status) → (ℕ → List ℕ) → Place → Type 0
  PlaceFits id status left (looks pc) = (Fits 3 pc) × (got pc ≡ none)
  PlaceFits id status left stops = Unit
  PlaceFits id status left halts = Unit
  PlaceFits id status left resets = false ≡ true
  PlaceFits id status left begins = false ≡ true
  PlaceFits id status left (runs fn) = (status fn ≡ running id) × (left fn ≡ out_edges g fn)
  PlaceFits id status left (releases fn es) = (status fn ≡ running id) × (left fn ≡ es)
  PlaceFits id status left (adds fn j es) =
      (status fn ≡ running id) × (left fn ≡ es) × (status j ≡ ready id)
  PlaceFits id status left (counts fn) = (status fn ≡ running id) × (left fn ≡ [])

  -- What the status of the function `f` says of its in-count `c`, of its edges left, and of how often
  -- it was entered and has returned in rounds up to `round`. `live` says that not all have finished.
  abbrev pub FnFits : Type 0 → ℕ → ℕ → List ℕ → ℕ → ℕ → ℕ → (ℕ → Place) → Status → Type 0
  FnFits live round f left c e x at waits =
      (left ≡ out_edges g f) × (e + 1 ≡ round) × (x + 1 ≡ round) × (live → 0 < c)
  FnFits live round f left c e x at (ready by) =
      (left ≡ out_edges g f)
      × (e + 1 ≡ round)
      × (x + 1 ≡ round)
      × (live → c ≡ 0)
      × (is_adding (at by) f ≡ true)
  FnFits live round f left c e x at runnable =
      (left ≡ out_edges g f) × (e + 1 ≡ round) × (x + 1 ≡ round) × (live → c ≡ 0)
  FnFits live round f left c e x at (running by) =
      (works (at by) f ≡ true)
      × (e ≡ round)
      × (x + 1 ≡ round + one (has_run (at by)))
      × (live → c ≡ 0)
  FnFits live round f left c e x at finished =
      (left ≡ []) × (e ≡ round) × (x ≡ round) × (live → c ≡ 0)

  abbrev pub IsLive : System → Type 0
  IsLive s = s.num_fin_fn ≢ g.num_nodes

  pub record IsRound (s : System) : Type 0 where
    pub round : ℕ
    pub status : ℕ → Status
    pub left : ℕ → List ℕ
    pub size : IsBitmap s.bm_run_fn
    pub listed : (j : ℕ) → j < 256 → has s.bm_run_fn j ≡ is_runnable (status j)
    pub outside : (f : ℕ) → g.num_nodes ≤ f → status f ≡ finished
    pub fin : s.num_fin_fn ≡ number (λ f. is_finished (status f)) g.num_nodes
    pub in_counts :
        IsLive s → (j : ℕ) → j < g.num_nodes → s.dag_in_count j ≡ owing left g.num_nodes j
    pub edges : (f j : ℕ) → uses j (left f) ≤ uses j (out_edges g f)
    pub places : (id : ℕ) → PlaceFits id status left (s.at id)
    pub fns :
        (f : ℕ)
        → f < g.num_nodes
        → FnFits
            (IsLive s)
            round
            f
            (left f)
            (s.dag_in_count f)
            (s.entries f)
            (s.exits f)
            s.at
            (status f)
    pub minded :
        (j : ℕ) → j < g.num_nodes → status j ≡ runnable → (id : ℕ) × (minds (s.at id) j ≡ true)
    pub awake : s.num_fin_fn ≡ g.num_nodes → (id : ℕ) × (is_up (s.at id) ≡ true)

  -- Another cpu keeps its place when the functions that it has keep their status.
  pub PlaceFits-other :
      (id : ℕ) (status status' : ℕ → Status) (left left' : ℕ → List ℕ) (p : Place)
      → ((f : ℕ) → status f ≡ running id → (status' f ≡ running id) × (left' f ≡ left f))
      → ((f : ℕ) → status f ≡ ready id → status' f ≡ ready id)
      → PlaceFits id status left p
      → PlaceFits id status' left' p
  PlaceFits-other id status status' left left' (looks pc) r a h = h
  PlaceFits-other id status status' left left' stops r a h = tt
  PlaceFits-other id status status' left left' halts r a h = tt
  PlaceFits-other id status status' left left' resets r a h = h
  PlaceFits-other id status status' left left' begins r a h = h
  PlaceFits-other id status status' left left' (runs fn) r a h = ((r fn h.0).0, (r fn h.0).1 ∙ h.1)
  PlaceFits-other id status status' left left' (releases fn es) r a h =
      ((r fn h.0).0, (r fn h.0).1 ∙ h.1)
  PlaceFits-other id status status' left left' (adds fn j es) r a h =
      ((r fn h.0).0, (r fn h.0).1 ∙ h.1, a j h.2)
  PlaceFits-other id status status' left left' (counts fn) r a h =
      ((r fn h.0).0, (r fn h.0).1 ∙ h.1)

  -- A function when the cpu `me` goes to another place: one that it has stays with it, and is not about
  -- to be made runnable by it.
  pub FnFits-other :
      (live live' : Type 0) (round f c e x : ℕ) (l : List ℕ) (at : ℕ → Place) (me : ℕ) (p : Place)
      (st : Status)
      → (live' → live)
      → (st ≡ running me → (works p f ≡ true) × (has_run p ≡ has_run (at me)))
      → st ≢ ready me
      → FnFits live round f l c e x at st
      → FnFits live' round f l c e x (update at me p) st
  FnFits-other live live' round f c e x l at me p waits w r a h = (h.0, h.1, h.2, λ v. h.3 (w v))
  FnFits-other live live' round f c e x l at me p (ready by) w r a h =
      let q = update_ne at me by p (λ e. a (ap ready (sym e))) in
      (h.0, h.1, h.2, λ v. h.3 (w v), ap (λ k. is_adding k f) q ∙ h.4)
  FnFits-other live live' round f c e x l at me p runnable w r a h = (h.0, h.1, h.2, λ v. h.3 (w v))
  FnFits-other live live' round f c e x l at me p (running by) w r a h = elim (ℕ_discrete me by) [
    | yes q ↦
        let now = update_eq at me by p q in
        let (mine, same) = r (ap running (sym q)) in
        (
          ap (λ k. works k f) now ∙ mine,
          h.1,
          h.2
              ∙ sym (
                  ap (λ k. round + one (has_run k)) now
                  ∙ ap (λ b. round + one b) (same ∙ ap (λ i. has_run (at i)) q)),
          λ v. h.3 (w v),
        )
    | no ne ↦
        let other = update_ne at me by p ne in
        (
          ap (λ k. works k f) other ∙ h.0,
          h.1,
          h.2 ∙ sym (ap (λ k. round + one (has_run k)) other),
          λ v. h.3 (w v),
        )
  ]
  FnFits-other live live' round f c e x l at me p finished w r a h = (h.0, h.1, h.2, λ v. h.3 (w v))

  -- The cpu that has a function stands where it works on it.
  pub running_by :
      (s : System) (h : IsRound s) (f i : ℕ)
      → f < g.num_nodes
      → h.status f ≡ running i
      → FnFits
          (IsLive s)
          h.round
          f
          (h.left f)
          (s.dag_in_count f)
          (s.entries f)
          (s.exits f)
          s.at
          (running i)
  running_by s h f i lt e =
      subst
        (FnFits (IsLive s) h.round f (h.left f) (s.dag_in_count f) (s.entries f) (s.exits f) s.at) e
        (h.fns f lt)

  pub ready_by :
      (s : System) (h : IsRound s) (f i : ℕ)
      → f < g.num_nodes
      → h.status f ≡ ready i
      → is_adding (s.at i) f ≡ true
  ready_by s h f i lt e =
      (subst
        (FnFits (IsLive s) h.round f (h.left f) (s.dag_in_count f) (s.entries f) (s.exits f) s.at) e
        (h.fns f lt)).4
