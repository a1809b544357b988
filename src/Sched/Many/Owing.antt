-- ===== src/Sched/Many/Owing.antt =====
-- The edges that are left into a function.
use bootcode.Base.{
  ℕ, zero, suc, ◌+◌, ◌≤◌, ◌<◌, ◌≡◌, refl, sym, ap, ◌∙◌, arith, List, update, update_eq, update_ne,
  u8,
}
use native.Mathlib.Decide.{ℕ_discrete}
use bootcode.Sched.State.{Metadata}
use bootcode.Sched.Dag.Laws.{uses, out_edges}
use bootcode.Sched.Order.{owed, nobody, IsGraph}
use bootcode.Sched.Many.Sound.{owing}

owing-update_ge :
    (left : ℕ → List ℕ) (fn : ℕ) (es : List ℕ) (j n : ℕ)
    → n ≤ fn
    → owing (update left fn es) n j ≡ owing left n j
unfolding owing
owing-update_ge left fn es j zero h = refl
owing-update_ge left fn es j (suc n) h =
    rw (update_ne left fn n es (omega arith), owing-update_ge left fn es j n (omega arith)) refl

-- Other edges are left of `fn`.
pub owing-update :
    (left : ℕ → List ℕ) (fn : ℕ) (es : List ℕ) (j n : ℕ)
    → fn < n
    → owing (update left fn es) n j + uses j (left fn) ≡ owing left n j + uses j es
unfolding owing
owing-update left fn es j zero h = absurd (omega arith)
owing-update left fn es j (suc n) h = elim (ℕ_discrete fn n) [
  | yes q ↦
      let now = ap (uses j) (update_eq left fn n es q) in
      let old = ap (λ k. uses j (left k)) q in
      omega (arith, now, old, owing-update_ge left fn es j n (omega arith))
  | no ne ↦
      let other = ap (uses j) (update_ne left fn n es ne) in
      omega (arith, other, owing-update left fn es j n (omega arith))
]

pub uses-le_owing : (left : ℕ → List ℕ) (f j n : ℕ) → f < n → uses j (left f) ≤ owing left n j
unfolding owing
uses-le_owing left f j zero h = absurd (omega arith)
uses-le_owing left f j (suc n) h = elim (ℕ_discrete f n) [
  | yes q ↦ omega (arith, ap (λ k. uses j (left k)) q)
  | no ne ↦ omega (arith, uses-le_owing left f j n (omega arith))
]

pub owing-le :
    (left more : ℕ → List ℕ) (j n : ℕ)
    → ((f : ℕ) → uses j (left f) ≤ uses j (more f))
    → owing left n j ≤ owing more n j
unfolding owing
owing-le left more j zero h = omega arith
owing-le left more j (suc n) h = omega (arith, owing-le left more j n h, h n)

-- Some function has an edge left if one is owed.
pub owing_from :
    (left : ℕ → List ℕ) (j n : ℕ) → 0 < owing left n j → (f : ℕ) × (f < n) × (0 < uses j (left f))
unfolding owing
owing_from left j zero h = absurd (omega arith)
owing_from left j (suc n) h = elim (ℕ_discrete (uses j (left n)) 0) [
  | yes z ↦ let (f, lt, u) = owing_from left j n (omega (arith, h, z)) in (f, omega arith, u)
  | no ne ↦ (n, omega arith, omega (arith, ne))
]

owing-out_edges : (g : Metadata) (j n : ℕ) → owing (out_edges g) n j ≡ owed g nobody n j
unfolding owing owed
owing-out_edges g j zero = refl
owing-out_edges g j (suc n) = rw (owing-out_edges g j n) refl

-- At the beginning of a round the in-degrees are owed.
pub owing-degrees :
    (g : Metadata) (j : ℕ)
    → IsGraph g
    → j < g.num_nodes
    → owing (out_edges g) g.num_nodes j ≡ u8 (g.dag j)
owing-degrees g j graph lt = owing-out_edges g j g.num_nodes ∙ sym (graph.degrees j lt)
