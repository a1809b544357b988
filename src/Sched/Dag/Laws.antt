-- ===== src/Sched/Dag/Laws.antt =====
-- `process_sched_dag` against its description: the out-edges of the finished function as a list,
-- how often each function occurs in it, and who has thereby been released.
use bootcode.Base.{ℕ, zero, suc, ◌+◌, ◌-◌, ◌≤◌, ◌<◌, ◌≡◌, refl, arith, ◌∙◌, ◌&&◌}
use bootcode.Base.{◌||◌, ◌==◌, ltb, if◌then◌else◌, List, [], ◌∷◌, u8, ap, inl, inr, Bool-cases}
use bootcode.Claim.Word.{has}
use bootcode.Sched.State.{State, Metadata}
use bootcode.Sched.Queue.{add_runnable_fn}
use bootcode.Sched.Queue.Laws.{IsBitmap, has-add_bit, add_bit-IsBitmap}
use bootcode.Sched.Dag.{release_fn, release_from, edge_start, edge_end, process_sched_dag}

-- The `n` bytes of the graph from index `i` on.
abbrev pub slice : (ℕ → ℕ) → ℕ → ℕ → List ℕ
slice dag zero i = []
slice dag (suc n) i = u8 (dag i) ∷ slice dag n (i + 1)

abbrev pub uses : ℕ → List ℕ → ℕ
uses j [] = 0
uses j (e ∷ es) = (if e == j then 1 else 0) + uses j es

abbrev pub release_all : List ℕ → State → State
release_all [] s = s
release_all (e ∷ es) s = release_all es (release_fn e s)

dag-release_fn : (e : ℕ) (s : State) → (release_fn e s).metadata.dag ≡ s.metadata.dag
unfolding release_fn add_runnable_fn
dag-release_fn e s = ground arith

release_from-slice :
    (n i : ℕ) (s : State) → release_from n i s ≡ release_all (slice s.metadata.dag n i) s
unfolding release_from
release_from-slice zero i s = refl
release_from-slice (suc n) i s =
    let e = u8 (s.metadata.dag i) in
    release_from-slice n (i + 1) (release_fn e s)
    ∙ ap (λ d. release_all (slice d n (i + 1)) (release_fn e s)) (dag-release_fn e s)

abbrev pub AreBytes : List ℕ → Type 0
AreBytes [] = Unit
AreBytes (e ∷ es) = (e < 256) × AreBytes es

pub slice-AreBytes : (dag : ℕ → ℕ) (n i : ℕ) → AreBytes (slice dag n i)
slice-AreBytes dag zero i = tt
slice-AreBytes dag (suc n) i = (omega arith, slice-AreBytes dag n (i + 1))

module _ (e : ℕ) (s : State) where
  pub count-release_fn :
      (j : ℕ)
      → (release_fn e s).metadata.dag_in_count j
        ≡ (if e == j then u8 (s.metadata.dag_in_count e + 255) else s.metadata.dag_in_count j)
  unfolding release_fn add_runnable_fn
  count-release_fn j = ground arith

  pub release_fn-IsBitmap : IsBitmap s.bm_run_fn → IsBitmap (release_fn e s).bm_run_fn
  unfolding release_fn add_runnable_fn
  release_fn-IsBitmap h = ground (arith, add_bit-IsBitmap s.bm_run_fn e h)

  pub has-release_fn :
      (j : ℕ)
      → e < 256
      → s.metadata.dag_in_count e < 256
      → IsBitmap s.bm_run_fn
      → has (release_fn e s).bm_run_fn j
        ≡ (has s.bm_run_fn j || ((e == j) && (s.metadata.dag_in_count e == 1)))
  unfolding release_fn add_runnable_fn
  has-release_fn j small byte h = elim (Bool-cases (u8 (s.metadata.dag_in_count e + 255) == 0)) [
    | inl z ↦ rw (z, has-add_bit s.bm_run_fn e j h small) (ground arith)
    | inr nz ↦ rw nz (ground arith)
  ]

-- Every edge of the list still has its count at its end.
pub record IsAwaited (es : List ℕ) (s : State) : Type 0 where
  pub edges : AreBytes es
  pub bytes : (j : ℕ) → s.metadata.dag_in_count j < 256
  pub enough : (j : ℕ) → uses j es ≤ s.metadata.dag_in_count j
  pub bitmap : IsBitmap s.bm_run_fn

pub release_fn-IsAwaited :
    (e : ℕ) (es : List ℕ) (s : State) → IsAwaited (e ∷ es) s → IsAwaited es (release_fn e s)
release_fn-IsAwaited e es s h = record {
  edges = h.edges.1;
  bytes = λ j. ground (arith, count-release_fn e s j, h.bytes j);
  enough = λ j. ground (arith, count-release_fn e s j, h.bytes j, h.enough j);
  bitmap = release_fn-IsBitmap e s h.bitmap;
}

-- The in-count goes down by the number of edges.
count-release_all :
    (es : List ℕ) (s : State) (j : ℕ)
    → IsAwaited es s
    → (release_all es s).metadata.dag_in_count j ≡ s.metadata.dag_in_count j - uses j es
count-release_all [] s j h = omega arith
count-release_all (e ∷ es) s j h = ground (
  arith,
  count-release_all es (release_fn e s) j (release_fn-IsAwaited e es s h),
  count-release_fn e s j,
  h.bytes j,
  h.enough j,
)

-- Runnable becomes who had edges, and has all of them behind it.
has-release_all :
    (es : List ℕ) (s : State) (j : ℕ)
    → IsAwaited es s
    → has (release_all es s).bm_run_fn j
      ≡ (has s.bm_run_fn j || (ltb 0 (uses j es) && (s.metadata.dag_in_count j == uses j es)))
has-release_all [] s j h = ground arith
has-release_all (e ∷ es) s j h =
    has-release_all es (release_fn e s) j (release_fn-IsAwaited e es s h)
    ∙ rw (has-release_fn e s j h.edges.0 (h.bytes e) h.bitmap, count-release_fn e s j)
        (ground (arith, h.bytes j, h.enough j))

-- The out-edges of `fn`, as `process_sched_dag` reads them.
unfoldable pub out_edges : Metadata → ℕ → List ℕ
out_edges m fn = slice m.dag (edge_end m fn - edge_start m fn) (edge_start m fn)

module _ (fn : ℕ) (s : State) (h : IsAwaited (out_edges s.metadata fn) s) where
  pub process_sched_dag-release_all :
      process_sched_dag fn s ≡ release_all (out_edges s.metadata fn) s
  unfolding process_sched_dag out_edges
  process_sched_dag-release_all =
      release_from-slice (edge_end s.metadata fn - edge_start s.metadata fn)
        (edge_start s.metadata fn) s

  -- Where no function has more edges from `fn` than its in-count, the in-counts are bytes and the
  -- bitmap has its four words, `process_sched_dag fn` lowers the in-count of each function by the
  -- number of its edges from `fn`, and makes exactly those runnable whose in-count it takes to zero.
  pub process_sched_dag_lem :
      (j : ℕ)
      → let n = uses j (out_edges s.metadata fn) in
        let c = s.metadata.dag_in_count j in
        ((process_sched_dag fn s).metadata.dag_in_count j ≡ c - n)
        × (has (process_sched_dag fn s).bm_run_fn j ≡ (has s.bm_run_fn j || (ltb 0 n && (c == n))))
  process_sched_dag_lem j = rw process_sched_dag-release_all (
    count-release_all (out_edges s.metadata fn) s j h,
    has-release_all (out_edges s.metadata fn) s j h,
  )
