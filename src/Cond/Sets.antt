-- ===== src/Cond/Sets.antt =====
-- The invariant of the condition through the steps of `cond_set`, and in the reachable systems.
use bootcode.Base.{
  ℕ, ◌<◌, ◌≡◌, refl, sym, ap, ◌∙◌, arith, true, false, ◌==◌, ==_iff, inl, inr, Bool-cases, Option,
  none, some,
}
use mathlib.Core.Path.{subst}
use bootcode.Bits.{bt, bsf}
use bootcode.Bits.Laws.{bt-btr, bt-zero}
use bootcode.Bits.Scan.{bsf-none}
use bootcode.Cond.{
  next_kick, Waiter, outside, check_v, hlt_path, halted, woken, skip_hlt, Setter, idle, test,
  compare, hint, copy, kicks, done, System, wait_move, set_step, set_move, Reachable, start, waited,
  disturbed, set,
}
use bootcode.Cond.Sound.{is_intent, is_marked, is_early, is_halted, is_stored, Ensures, IsSound}
use bootcode.Cond.Waits.{wait_step-IsSound, interrupt-IsSound}

module _ (v : ℕ) where
  -- A step of the setter that leaves the condition.
  advances :
      (s : System) (st : Setter)
      → IsSound v s
      → (is_stored st ≡ true → s.cond.c ≡ v)
      → ((id : ℕ) → id < 64 → Ensures st id (s.at id) (s.kicked id))
      → IsSound v (record s { setter = st })
  advances s st h val en = record {
    stored = val;
    intent = h.intent;
    waiting = h.waiting;
    ensured = en;
  }

  ensured_at :
      (s : System) (st : Setter) (id : ℕ)
      → s.setter ≡ st
      → id < 64
      → IsSound v s
      → Ensures st id (s.at id) (s.kicked id)
  ensured_at s st id e lt h =
      subst (λ st. Ensures st id (s.at id) (s.kicked id)) e (h.ensured id lt)

  intent_of_early : (w : Waiter) → is_early w ≡ true → is_intent w ≡ true × is_marked w ≡ false
  intent_of_early hlt_path q = (refl, refl)
  intent_of_early outside q = absurd (ground (arith, q))
  intent_of_early (check_v n) q = absurd (ground (arith, q))
  intent_of_early halted q = absurd (ground (arith, q))
  intent_of_early woken q = absurd (ground (arith, q))
  intent_of_early skip_hlt q = absurd (ground (arith, q))

  marked_of_halted : (w : Waiter) → is_halted w ≡ true → is_marked w ≡ true
  marked_of_halted halted q = refl
  marked_of_halted hlt_path q = absurd (ground (arith, q))
  marked_of_halted outside q = absurd (ground (arith, q))
  marked_of_halted (check_v n) q = absurd (ground (arith, q))
  marked_of_halted woken q = absurd (ground (arith, q))
  marked_of_halted skip_hlt q = absurd (ground (arith, q))

  next_kick-IsSound :
      (s : System) (left : ℕ) (n : Option ℕ)
      → s.setter ≡ kicks left
      → bsf 64 left ≡ n
      → IsSound v s
      → IsSound v (next_kick s left n)
  next_kick-IsSound s left none e b h =
      advances s done h (λ q. h.stored (ap is_stored e))
        (λ id lt.
          let en = ensured_at s (kicks left) id e lt h in
          (en.0, λ q. ground (arith, en.1 q, bsf-none 64 left id b lt)))
  next_kick-IsSound s left (some n) e b h = record {
    stored = λ q. h.stored (ap is_stored e);
    intent = h.intent;
    waiting = h.waiting;
    ensured = λ id lt.
        let en = ensured_at s (kicks left) id e lt h in
        (en.0, λ q. ground (arith, en.1 q, bt-btr id n left));
  }

  set_step-IsSound :
      (s : System) (st : Setter) → s.setter ≡ st → IsSound v s → IsSound v (set_step v s st)
  unfolding set_step
  set_step-IsSound s idle e h = record {
    stored = λ q. refl;
    intent = h.intent;
    waiting = h.waiting;
    ensured = λ id lt. tt;
  }
  set_step-IsSound s test e h =
      advances s (compare s.cond.intent_cpus) h (λ q. h.stored (ap is_stored e))
        (λ id lt q. h.intent id lt ∙ (intent_of_early (s.at id) q).0)
  set_step-IsSound s (compare intent) e h = elim (Bool-cases (intent == s.cond.waiting_cpus)) [
    | inr q ↦ rw q (advances s hint h (λ _. h.stored (ap is_stored e)) (λ id lt. tt))
    | inl q ↦ rw q (
        advances s copy h (λ _. h.stored (ap is_stored e))
          (λ id lt.
            let eq = (==_iff intent s.cond.waiting_cpus).0 q in
            let en = ensured_at s (compare intent) id e lt h in
            elim (Bool-cases (is_early (s.at id))) [
              | inl f ↦ absurd (
                  ground (
                    arith,
                    sym (en f) ∙ ap (bt id) eq ∙ h.waiting id lt ∙ (intent_of_early (s.at id) f).1,
                  ))
              | inr f ↦ f
            ]))
  ]
  set_step-IsSound s hint e h = advances s test h (λ q. h.stored (ap is_stored e)) (λ id lt. tt)
  set_step-IsSound s copy e h =
      advances s (kicks s.cond.waiting_cpus) h (λ q. h.stored (ap is_stored e))
        (λ id lt. (
          ensured_at s copy id e lt h,
          λ q. ground (arith, h.waiting id lt, marked_of_halted (s.at id) q),
        ))
  set_step-IsSound s (kicks left) e h = next_kick-IsSound s left (bsf 64 left) e refl h
  set_step-IsSound s done e h = h

  pub Reachable-IsSound : {s : System} → Reachable v s → IsSound v s
  unfolding wait_move set_move
  Reachable-IsSound (start old) = record {
    stored = λ q. absurd (ground (arith, q));
    intent = λ id lt. bt-zero id;
    waiting = λ id lt. bt-zero id;
    ensured = λ id lt. tt;
  }
  Reachable-IsSound (waited {s} id lt r) =
      wait_step-IsSound v s id (s.at id) lt refl (Reachable-IsSound r)
  Reachable-IsSound (disturbed {s} id lt r) = interrupt-IsSound v s id lt (Reachable-IsSound r)
  Reachable-IsSound (set {s} r) = set_step-IsSound s s.setter refl (Reachable-IsSound r)
