-- ===== src/Barrier/Phases.antt =====
-- The two phases of a round, and the steps in them.
use bootcode.Base.{
  ℕ, zero, suc, ◌+◌, ◌≤◌, ◌<◌, ◌≡◌, ◌≢◌, refl, sym, ap, ◌∙◌, arith, inl, inr, Bool, true, false,
  not, ◌&&◌, ◌==◌, ==_iff, Bool-cases, one, number,
}
use bootcode.Barrier.{
  Place, arrives, enters, counted, opens, waits, leaves, uncounted, closes, System, step, is_inside,
}

-- Between the increment and the decrement.
abbrev pub is_in : Place → Bool
is_in counted = true
is_in opens = true
is_in waits = true
is_in leaves = true
is_in _ = false

-- What the place and the entries of a cpu are in round `k`, with the word and the value of the
-- condition. While cpus come in the value is 0, and none leaves; one that is about to open has seen
-- all inside. While they go the value is 1, and none enters; one about to close has seen all gone.
abbrev pub Fits : ℕ → ℕ → ℕ → ℕ → Place → ℕ → Type 0
Fits ncpus k w zero p e = (e ≡ k + one (is_in p)) × (p ≢ leaves) × (p ≡ opens → w ≡ ncpus)
Fits ncpus k w (suc c) p e = (c ≡ 0) × (e ≡ k + 1) × (p ≢ enters) × (p ≡ closes → w ≡ 0)

pub record IsPhased (ncpus k : ℕ) (s : System) : Type 0 where
  pub word : s.barrier_word ≡ number (λ i. is_in (s.at i)) ncpus
  pub fits : (i : ℕ) → i < ncpus → Fits ncpus k s.barrier_word s.barrier_cond (s.at i) (s.entries i)
  pub exits : (i : ℕ) → i < ncpus → s.entries i ≡ s.exits i + one (is_inside (s.at i))

-- What a step does to the cpu that takes it, and to what the others are.
pub record Keeps (ncpus k w c : ℕ) (p : Place) (e : ℕ) (r : ℕ × ℕ × Place) : Type 0 where
  pub round : ℕ
  pub counts : r.0 + one (is_in p) ≡ w + one (is_in r.2)
  pub own : Fits ncpus round r.0 r.1 r.2 (e + one (is_inside r.2 && not (is_inside p)))
  pub others :
      (q : Place) (f : ℕ)
      → (w ≡ ncpus → is_in q ≡ true)
      → (w ≡ 0 → is_in q ≡ false)
      → Fits ncpus k w c q f
      → Fits ncpus round r.0 r.1 q f

module _ (ncpus k w : ℕ) (small : ncpus < 256) (bound : w ≤ ncpus) where
  stays_in :
      (p p' : Place) (e : ℕ)
      → is_in p' ≡ is_in p
      → e + one (is_inside p' && not (is_inside p)) ≡ e
      → p' ≢ leaves
      → (p' ≡ opens → w ≡ ncpus)
      → Fits ncpus k w 0 p e
      → Keeps ncpus k w 0 p e (w, 0, p')
  stays_in p p' e i n nl op h = record {
    round = k;
    counts = ap (λ b. w + one b) (sym i);
    own = (n ∙ h.0 ∙ ap (λ b. k + one b) (sym i), nl, op);
    others = λ q f u d g. g;
  }

  pub step_in :
      (p : Place) (e : ℕ)
      → (w ≡ ncpus → is_in p ≡ true)
      → Fits ncpus k w 0 p e
      → Keeps ncpus k w 0 p e (step ncpus w 0 p)
  unfolding step
  step_in arrives e full h =
      stays_in arrives enters e refl (omega arith) (λ q. absurd (ground (arith, q)))
        (λ q. absurd (ground (arith, q))) h
  step_in enters e full h = record {
    round = k;
    counts = omega arith;
    own = (omega (arith, h.0), λ q. absurd (ground (arith, q)), λ q. absurd (ground (arith, q)));
    others = λ q f u d g. (g.0, g.1, λ o. absurd (ground (arith, full (g.2 o))));
  }
  step_in counted e full h = elim (Bool-cases (w == ncpus)) [
    | inl q ↦ rw q (
        stays_in counted opens e refl (omega arith) (λ q. absurd (ground (arith, q)))
          (λ _. (==_iff w ncpus).0 q) h)
    | inr q ↦ rw q (
        stays_in counted waits e refl (omega arith) (λ q. absurd (ground (arith, q)))
          (λ q. absurd (ground (arith, q))) h)
  ]
  step_in opens e full h = record {
    round = k;
    counts = refl;
    own = (
      refl,
      omega (arith, h.0),
      λ q. absurd (ground (arith, q)),
      λ q. absurd (ground (arith, q)),
    );
    others = λ q f u d g.
        let i = u (h.2 refl) in
        (
          refl,
          g.0 ∙ ap (λ b. k + one b) i,
          λ r. absurd (ground (arith, sym i ∙ ap is_in r)),
          λ r. absurd (ground (arith, sym i ∙ ap is_in r)),
        );
  }
  step_in waits e full h =
      stays_in waits waits e refl (omega arith) (λ q. absurd (ground (arith, q)))
        (λ q. absurd (ground (arith, q))) h
  step_in leaves e full h = absurd (h.1 refl)
  step_in uncounted e full h = elim (Bool-cases (w == 0)) [
    | inl q ↦ rw q (
        stays_in uncounted closes e refl (omega arith) (λ q. absurd (ground (arith, q)))
          (λ q. absurd (ground (arith, q))) h)
    | inr q ↦ rw q (
        stays_in uncounted arrives e refl (omega arith) (λ q. absurd (ground (arith, q)))
          (λ q. absurd (ground (arith, q))) h)
  ]
  step_in closes e full h =
      stays_in closes arrives e refl (omega arith) (λ q. absurd (ground (arith, q)))
        (λ q. absurd (ground (arith, q))) h

  stays_out :
      (p p' : Place) (e : ℕ)
      → is_in p' ≡ is_in p
      → e + one (is_inside p' && not (is_inside p)) ≡ e
      → p' ≢ enters
      → (p' ≡ closes → w ≡ 0)
      → Fits ncpus k w 1 p e
      → Keeps ncpus k w 1 p e (w, 1, p')
  stays_out p p' e i n ne cl h = record {
    round = k;
    counts = ap (λ b. w + one b) (sym i);
    own = (refl, n ∙ h.1, ne, cl);
    others = λ q f u d g. g;
  }

  pub step_out :
      (p : Place) (e : ℕ)
      → (w ≡ 0 → is_in p ≡ false)
      → Fits ncpus k w 1 p e
      → Keeps ncpus k w 1 p e (step ncpus w 1 p)
  unfolding step
  step_out arrives e some h =
      stays_out arrives arrives e refl (omega arith) (λ q. absurd (ground (arith, q)))
        (λ q. absurd (ground (arith, q))) h
  step_out enters e some h = absurd (h.2 refl)
  step_out counted e some h = elim (Bool-cases (w == ncpus)) [
    | inl q ↦ rw q (
        stays_out counted opens e refl (omega arith) (λ q. absurd (ground (arith, q)))
          (λ q. absurd (ground (arith, q))) h)
    | inr q ↦ rw q (
        stays_out counted waits e refl (omega arith) (λ q. absurd (ground (arith, q)))
          (λ q. absurd (ground (arith, q))) h)
  ]
  step_out opens e some h =
      stays_out opens leaves e refl (omega arith) (λ q. absurd (ground (arith, q)))
        (λ q. absurd (ground (arith, q))) h
  step_out waits e some h =
      stays_out waits leaves e refl (omega arith) (λ q. absurd (ground (arith, q)))
        (λ q. absurd (ground (arith, q))) h
  step_out leaves e some h =
      let pos : 0 < w = elim (Bool-cases (w == 0)) [
        | inl q ↦ absurd (ground (arith, some ((==_iff w 0).0 q)))
        | inr q ↦ ground (arith, q)
      ] in
      record {
        round = k;
        counts = omega arith;
        own = (
          refl,
          omega (arith, h.1),
          λ q. absurd (ground (arith, q)),
          λ q. absurd (ground (arith, q)),
        );
        others = λ q f u d g. (refl, g.1, g.2, λ r. absurd (omega (arith, g.3 r)));
      }
  step_out uncounted e some h = elim (Bool-cases (w == 0)) [
    | inl q ↦ rw q (
        stays_out uncounted closes e refl (omega arith) (λ q. absurd (ground (arith, q)))
          (λ _. (==_iff w 0).0 q) h)
    | inr q ↦ rw q (
        stays_out uncounted arrives e refl (omega arith) (λ q. absurd (ground (arith, q)))
          (λ q. absurd (ground (arith, q))) h)
  ]
  step_out closes e some h = record {
    round = k + 1;
    counts = refl;
    own = (omega (arith, h.1), λ q. absurd (ground (arith, q)), λ q. absurd (ground (arith, q)));
    others = λ q f u d g.
        let o = d (h.3 refl) in
        (
          g.1 ∙ sym (ap (λ b. k + 1 + one b) o ∙ omega arith),
          λ r. absurd (ground (arith, sym o ∙ ap is_in r)),
          λ r. absurd (ground (arith, sym o ∙ ap is_in r)),
        );
  }
