-- ===== src/Sched/Order/Owed.antt =====
-- The edges that are owed to a function, when a function finishes and when all have.
use bootcode.Base.{
  ℕ, zero, suc, ◌+◌, ◌≤◌, ◌<◌, ◌≡◌, refl, sym, ap, arith, Bool, true, false, update, update_eq,
  update_ne, inl, inr, Bool-cases,
}
use native.Mathlib.Decide.{ℕ_discrete}
use bootcode.Sched.State.{Metadata}
use bootcode.Sched.Dag.{edge_start, edge_end}
use bootcode.Sched.Dag.Laws.{uses, out_edges}
use bootcode.Sched.Order.{owed}

-- The out-edges are read from `dag` and `num_nodes` alone.
pub out_edges-eq :
    (m g : Metadata) (fn : ℕ)
    → m.dag ≡ g.dag
    → m.num_nodes ≡ g.num_nodes
    → out_edges m fn ≡ out_edges g fn
unfolding out_edges edge_start edge_end
out_edges-eq m g fn d n = rw (d, n) refl

module _ (g : Metadata) (done : ℕ → Bool) (fn j : ℕ) where
  owed-update_ge : (n : ℕ) → n ≤ fn → owed g (update done fn true) n j ≡ owed g done n j
  unfolding owed
  owed-update_ge zero h = refl
  owed-update_ge (suc n) h =
      let same = update_ne done fn n true (omega arith) in
      rw (same, owed-update_ge n (omega arith)) refl

  -- When `fn` finishes, its edges are no longer owed.
  pub owed-update :
      (n : ℕ)
      → fn < n
      → done fn ≡ false
      → owed g (update done fn true) n j + uses j (out_edges g fn) ≡ owed g done n j
  unfolding owed
  owed-update zero h e = absurd (omega arith)
  owed-update (suc n) h e = elim (ℕ_discrete fn n) [
    | yes q ↦
        let now = update_eq done fn n true q in
        let before : done n ≡ false = rw (sym q) e in
        let out : uses j (out_edges g n) ≡ uses j (out_edges g fn) =
          ap (λ k. uses j (out_edges g k)) (sym q) in
        rw (now, before) (omega (arith, owed-update_ge n (omega arith), out))
    | no ne ↦
        let same = update_ne done fn n true ne in
        rw same (omega (arith, owed-update n (omega arith) e))
  ]

module _ (g : Metadata) (done : ℕ → Bool) where
  -- With nothing owed to `j`, an unfinished function has no edge to it.
  pub uses_of_owed :
      (n f j : ℕ) → owed g done n j ≡ 0 → f < n → done f ≡ false → uses j (out_edges g f) ≡ 0
  unfolding owed
  uses_of_owed zero f j z h e = absurd (omega arith)
  uses_of_owed (suc n) f j z h e = elim (ℕ_discrete f n) [
    | yes q ↦
        let now : done n ≡ false = rw (sym q) e in
        let z' : owed g done n j + uses j (out_edges g n) ≡ 0 = rw now at z in
        rw q (omega (arith, z'))
    | no ne ↦ uses_of_owed n f j (omega (arith, z)) (omega arith) e
  ]

  pub owed_of_uses :
      (n j : ℕ)
      → ((f : ℕ) → f < n → done f ≡ false → uses j (out_edges g f) ≡ 0)
      → owed g done n j ≡ 0
  unfolding owed
  owed_of_uses zero j h = refl
  owed_of_uses (suc n) j h =
      let below = owed_of_uses n j (λ f lt e. h f (omega arith) e) in
      elim (Bool-cases (done n)) [
        | inl e ↦ rw (e, below) refl
        | inr e ↦ rw (e, below, h n (omega arith) e) refl
      ]
