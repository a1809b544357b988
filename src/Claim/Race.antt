-- ===== src/Claim/Race.antt =====
-- Many cpus in the extraction at once: any of them takes the next step.
use bootcode.Base.{
  ℕ, ◌+◌, ◌*◌, ◌<◌, ◌≤◌, ◌≡◌, ◌≢◌, ◌⊎◌, refl, sym, ap, ◌∙◌, arith, inl, inr, true, false, not, ◌&&◌,
  ◌==◌, none, some, List, length, update, update_eq, update_ne,
}
use native.Mathlib.Decide.{ℕ_discrete}
use bootcode.Claim.{Pc, scan, found, step}
use bootcode.Claim.Effect.{Fits, got, quiet, takes, step-Effect}
use bootcode.Claim.Word.{has}

-- The shared words and where every cpu stands.
pub record System : Type 0 where
  pub words : List ℕ
  pub at : ℕ → Pc

module _ (last : ℕ) where
  unfoldable pub move : ℕ → System → System
  unfolding step
  move id s =
      let (ws, pc) = step last s.words (s.at id) in record { words = ws; at = update s.at id pc }

  -- The systems that steps lead to when every cpu begins before the first word. While they run no
  -- bit is set.
  pub data Reachable (words : List ℕ) : System → Type 0 where
    start : Reachable words (record { words = words; at = λ id. scan 0 })
    moved : {s : System} (id : ℕ) → Reachable words s → Reachable words (move id s)

module _ (last : ℕ) (begin : List ℕ) where
  -- Of the bits set at the beginning, each is still set or got by one cpu.
  record IsFair (s : System) : Type 0 where
    size : length s.words ≡ last + 1
    fits : (i : ℕ) → Fits last (s.at i)
    taken : (i b : ℕ) → got (s.at i) ≡ some b → (has s.words b ≡ false) × (has begin b ≡ true)
    one : (i j b : ℕ) → got (s.at i) ≡ some b → got (s.at j) ≡ some b → i ≡ j
    kept : (b : ℕ) → (has s.words b ≡ has begin b) ⊎ ((i : ℕ) × (got (s.at i) ≡ some b))

  Fits-after :
      (s : System) (id : ℕ) (pc : Pc)
      → IsFair s
      → Fits last pc
      → (i : ℕ) → Fits last (update s.at id pc i)
  Fits-after s id pc h f i = elim (ℕ_discrete id i) [
    | yes e ↦ rw (update_eq s.at id i pc e) f
    | no ne ↦ rw (update_ne s.at id i pc ne) (h.fits i)
  ]

  -- A step that leaves the bits and what its cpu has got.
  keeps :
      (s : System) (ws : List ℕ) (id : ℕ) (pc : Pc)
      → IsFair s
      → length ws ≡ length s.words
      → ((b : ℕ) → has ws b ≡ has s.words b)
      → Fits last pc
      → got pc ≡ got (s.at id)
      → IsFair (record { words = ws; at = update s.at id pc })
  keeps s ws id pc h len bits f g =
      let same : (i : ℕ) → got (update s.at id pc i) ≡ got (s.at i) = λ i. elim (ℕ_discrete id i) [
        | yes e ↦ ap got (update_eq s.at id i pc e) ∙ g ∙ ap (λ k. got (s.at k)) e
        | no ne ↦ ap got (update_ne s.at id i pc ne)
      ] in
      record {
        size = len ∙ h.size;
        fits = Fits-after s id pc h f;
        taken = λ i b q. let (a, c) = h.taken i b (sym (same i) ∙ q) in (bits b ∙ a, c);
        one = λ i j b p q. h.one i j b (sym (same i) ∙ p) (sym (same j) ∙ q);
        kept = λ b. elim (h.kept b) [ inl e ↦ inl (bits b ∙ e) | inr (i, q) ↦ inr (i, same i ∙ q) ];
      }

  -- A step that clears a set bit, which its cpu has got after it.
  taking :
      (s : System) (ws : List ℕ) (id k n : ℕ)
      → IsFair s
      → got (s.at id) ≡ none
      → length ws ≡ length s.words
      → has s.words (64 * k + n) ≡ true
      → ((b : ℕ) → has ws b ≡ (not (b == 64 * k + n) && has s.words b))
      → k ≤ last
      → n < 64
      → IsFair (record { words = ws; at = update s.at id (found k n) })
  taking s ws id k n h idle len was bits hk hn =
      let pc = found k n in
      let free : (i : ℕ) → got (s.at i) ≢ some (64 * k + n) =
        λ i q. absurd (ground (arith, (h.taken i (64 * k + n) q).0, was)) in
      let who : (i b : ℕ)
          → got (update s.at id pc i) ≡ some b
          → ((id ≡ i) × (b ≡ 64 * k + n)) ⊎ (got (s.at i) ≡ some b) =
        λ i b q. elim (ℕ_discrete id i) [
          | yes e ↦
              let v : some (64 * k + n) ≡ some b = sym (ap got (update_eq s.at id i pc e)) ∙ q in
              inl (e, ground (arith, v))
          | no ne ↦ inr (sym (ap got (update_ne s.at id i pc ne)) ∙ q)
        ] in
      let at_first : has begin (64 * k + n) ≡ true = elim (h.kept (64 * k + n)) [
        | inl e ↦ sym e ∙ was
        | inr (i, q) ↦ absurd (free i q)
      ] in
      record {
        size = len ∙ h.size;
        fits = Fits-after s id pc h (hk, hn);
        taken = λ i b q. elim (who i b q) [
          | inl (e, v) ↦ (ground (arith, bits b, v), ap (has begin) v ∙ at_first)
          | inr q' ↦ let (a, c) = h.taken i b q' in (ground (arith, bits b, a), c)
        ];
        one = λ i j b p q. elim (who i b p) [
          | inl (e, v) ↦ elim (who j b q) [
            | inl (e', v') ↦ sym e ∙ e'
            | inr q' ↦ absurd (free j (q' ∙ ap some v))
          ]
          | inr p' ↦ elim (who j b q) [
            | inl (e', v') ↦ absurd (free i (p' ∙ ap some v'))
            | inr q' ↦ h.one i j b p' q'
          ]
        ];
        kept = λ b. elim (ℕ_discrete b (64 * k + n)) [
          | yes v ↦ inr (id, ap got (update_eq s.at id id pc refl) ∙ ap some (sym v))
          | no ne ↦ elim (h.kept b) [
            | inl e ↦ inl (ground (arith, bits b, ne, e))
            | inr (i, q) ↦ inr (
              i,
              elim (ℕ_discrete id i) [
                | yes e ↦ absurd (ground (arith, idle, ap (λ j. got (s.at j)) e, q))
                | no other ↦ ap got (update_ne s.at id i pc other) ∙ q
              ],
            )
          ]
        ];
      }

  move_at :
      (s : System) (id : ℕ) (pc : Pc)
      → s.at id ≡ pc
      → Fits last pc
      → IsFair s
      → IsFair (record {
        words = (step last s.words pc).0;
        at = update s.at id (step last s.words pc).1;
      })
  move_at s id pc e f h = elim (step-Effect last s.words pc h.size f) [
    | quiet ws pc' q len bits f' g ahead ↦
        rw q (keeps s ws id pc' h len bits f' (g ∙ ap got (sym e)))
    | takes ws k n q idle len was bits hk hn ↦
        rw q (taking s ws id k n h (ap got e ∙ idle) len was bits hk hn)
  ]

  Reachable-IsFair : length begin ≡ last + 1 → {s : System} → Reachable last begin s → IsFair s
  unfolding move
  Reachable-IsFair len start = record {
    size = len;
    fits = λ i. omega arith;
    taken = λ i b q. absurd (ground (arith, q));
    one = λ i j b p q. absurd (ground (arith, p));
    kept = λ b. inl refl;
  }
  Reachable-IsFair len (moved {s} id r) =
      let h = Reachable-IsFair len r in move_at s id (s.at id) refl (h.fits id) h

  -- In every order of the steps of any number of cpus that extract from `last + 1` words, with no
  -- bit set meanwhile: a bit that a cpu has got was set at the beginning and is gone from the words,
  -- and no other cpu has got it; a bit set at the beginning that is gone has been got by some cpu.
  pub Reachable-fair :
      length begin ≡ last + 1
      → (s : System) → Reachable last begin s
      → ((i b : ℕ) → got (s.at i) ≡ some b → (has s.words b ≡ false) × (has begin b ≡ true))
        × ((i j b : ℕ) → got (s.at i) ≡ some b → got (s.at j) ≡ some b → i ≡ j)
        × ((b : ℕ)
            → has begin b ≡ true
            → (has s.words b ≡ true) ⊎ ((i : ℕ) × (got (s.at i) ≡ some b)))
  Reachable-fair len s r =
      let h = Reachable-IsFair len r in
      (
        h.taken,
        h.one,
        λ b set_first. elim (h.kept b) [ inl e ↦ inl (e ∙ set_first) | inr got_it ↦ inr got_it ],
      )
