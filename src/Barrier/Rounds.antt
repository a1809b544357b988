-- ===== src/Barrier/Rounds.antt =====
-- The phases of the reachable states, and the rounds of the cpus.
use bootcode.Base.{
  ℕ, zero, suc, ◌+◌, ◌≤◌, ◌<◌, ◌≡◌, refl, sym, ◌∙◌, arith, Bool, true, false, not, ◌&&◌, update_eq,
  update_ne, one, number-le, number-all, number-none, none-number, number-update_value,
}
use native.Mathlib.Decide.{ℕ_discrete}
use bootcode.Barrier.{
  Place, arrives, enters, counted, opens, waits, leaves, uncounted, closes, System, step, is_inside,
  move, Reachable, start, moved,
}
use bootcode.Barrier.Phases.{is_in, Fits, IsPhased, Keeps, step_in, step_out}

module _ (ncpus : ℕ) (small : ncpus < 256) where
  step-Keeps :
      (k w c : ℕ) (p : Place) (e : ℕ)
      → w ≤ ncpus
      → (w ≡ ncpus → is_in p ≡ true)
      → (w ≡ 0 → is_in p ≡ false)
      → Fits ncpus k w c p e
      → Keeps ncpus k w c p e (step ncpus w c p)
  step-Keeps k w zero p e b full none h = step_in ncpus k w small b p e full h
  step-Keeps k w (suc zero) p e b full none h = step_out ncpus k w small b p e none h
  step-Keeps k w (suc (suc c)) p e b full none h = absurd (omega (arith, h.0))

  -- The entries and the exits after a step.
  balance :
      (a b : Bool) (e x : ℕ) → e ≡ x + one a → e + one (b && not a) ≡ x + one (a && not b) + one b
  balance a b e x h = ground (arith, h)

  move-IsPhased :
      (k me : ℕ) (s : System)
      → me < ncpus
      → IsPhased ncpus k s
      → (k' : ℕ) × IsPhased ncpus k' (move ncpus me s)
  unfolding move
  move-IsPhased k me s lt h =
      let tests = λ (i : ℕ). is_in (s.at i) in
      let all : (i : ℕ) → i < ncpus → s.barrier_word ≡ ncpus → tests i ≡ true =
        λ i l e. number-all tests ncpus i (sym h.word ∙ e) l in
      let nobody_in : (i : ℕ) → i < ncpus → s.barrier_word ≡ 0 → tests i ≡ false =
        λ i l e. number-none tests ncpus i (sym h.word ∙ e) l in
      let m =
        step-Keeps k s.barrier_word s.barrier_cond (s.at me) (s.entries me)
          (omega (arith, h.word, number-le tests ncpus)) (all me lt) (nobody_in me lt)
          (h.fits me lt) in
      let p = (step ncpus s.barrier_word s.barrier_cond (s.at me)).2 in
      let e = s.entries me + one (is_inside p && not (is_inside (s.at me))) in
      let x = s.exits me + one (is_inside (s.at me) && not (is_inside p)) in
      (
        m.round,
        record {
          word = omega (arith, m.counts, number-update_value is_in s.at me p ncpus lt, h.word);
          fits = λ i l. elim (ℕ_discrete me i) [
            | yes q ↦ rw (update_eq s.at me i p q, update_eq s.entries me i e q) m.own
            | no ne ↦
                rw (update_ne s.at me i p ne, update_ne s.entries me i e ne)
                  (m.others (s.at i) (s.entries i) (all i l) (nobody_in i l) (h.fits i l))
          ];
          exits = λ i l. elim (ℕ_discrete me i) [
            | yes q ↦
                rw
                  (
                    update_eq s.at me i p q,
                    update_eq s.entries me i e q,
                    update_eq s.exits me i x q,
                  )
                  (balance (is_inside (s.at me)) (is_inside p) (s.entries me) (s.exits me)
                    (h.exits me lt))
            | no ne ↦
                rw
                  (
                    update_ne s.at me i p ne,
                    update_ne s.entries me i e ne,
                    update_ne s.exits me i x ne,
                  )
                  (h.exits i l)
          ];
        },
      )

  pub Reachable-IsPhased : {s : System} → Reachable ncpus s → (k : ℕ) × IsPhased ncpus k s
  Reachable-IsPhased start = (
    0,
    record {
      word = sym (none-number (λ i. false) ncpus (λ i lt. refl));
      fits = λ i lt. (refl, λ q. absurd (ground (arith, q)), λ q. absurd (ground (arith, q)));
      exits = λ i lt. refl;
    },
  )
  Reachable-IsPhased (moved {s} id lt r) =
      let (k, h) = Reachable-IsPhased r in move-IsPhased k id s lt h

  exits-le :
      (k w c : ℕ) (p p' : Place) (e e' x : ℕ)
      → Fits ncpus k w c p e
      → Fits ncpus k w c p' e'
      → e ≡ x + one (is_inside p)
      → x ≤ e'
  exits-le k w zero arrives p' e e' x f f' b = omega (arith, f.0, f'.0, b)
  exits-le k w zero enters p' e e' x f f' b = omega (arith, f.0, f'.0, b)
  exits-le k w zero counted p' e e' x f f' b = omega (arith, f.0, f'.0, b)
  exits-le k w zero opens p' e e' x f f' b = omega (arith, f.0, f'.0, b)
  exits-le k w zero waits p' e e' x f f' b = omega (arith, f.0, f'.0, b)
  exits-le k w zero leaves p' e e' x f f' b = absurd (f.1 refl)
  exits-le k w zero uncounted p' e e' x f f' b = omega (arith, f.0, f'.0, b)
  exits-le k w zero closes p' e e' x f f' b = omega (arith, f.0, f'.0, b)
  exits-le k w (suc c) p p' e e' x f f' b = omega (arith, f.1, f'.1, b)

  -- Among fewer than 256 cpus that call `barrier` over and over, in any order of their steps: no
  -- cpu has returned from it more often than any other has come to it and been counted.
  pub barrier_lem :
      (s : System) (i j : ℕ) → Reachable ncpus s → i < ncpus → j < ncpus → s.exits i ≤ s.entries j
  barrier_lem s i j r li lj =
      let (k, h) = Reachable-IsPhased r in
      exits-le k s.barrier_word s.barrier_cond (s.at i) (s.at j) (s.entries i) (s.entries j)
        (s.exits i) (h.fits i li) (h.fits j lj) (h.exits i li)
