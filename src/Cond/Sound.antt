-- ===== src/Cond/Sound.antt =====
-- The invariant of the condition, and how the steps of one waiter keep it.
use bootcode.Base.{
  ℕ, ◌<◌, ◌≡◌, ◌≢◌, refl, sym, ap, ◌∙◌, Bool, true, false, ◌||◌, update, update_eq, update_ne,
}
use native.Mathlib.Decide.{ℕ_discrete}
use bootcode.Bits.{bt}
use bootcode.Cond.{
  CondT, Waiter, outside, hlt_path, halted, woken, Setter, idle, compare, copy, kicks, done, System,
}

-- The two words name the cpus inside, and those at or just behind their `hlt`.
abbrev pub is_intent : Waiter → Bool
is_intent outside = false
is_intent _ = true

abbrev pub is_marked : Waiter → Bool
is_marked halted = true
is_marked woken = true
is_marked _ = false

abbrev pub is_early : Waiter → Bool
is_early hlt_path = true
is_early _ = false

abbrev pub is_halted : Waiter → Bool
is_halted halted = true
is_halted _ = false

-- The value is stored.
abbrev pub is_stored : Setter → Bool
is_stored idle = false
is_stored _ = true

-- What `cond_set` has made sure of, cpu by cpu: once it has read `intent_cpus`, the cpus that are
-- on their way to `hlt` are in what it read; once the words agreed, there are none on their way; in
-- the kicks, a halted cpu is still to be kicked or has been.
abbrev pub Ensures : Setter → ℕ → Waiter → Bool → Type 0
Ensures (compare intent) id w kick = is_early w ≡ true → bt id intent ≡ true
Ensures copy id w kick = is_early w ≡ false
Ensures (kicks left) id w kick =
    (is_early w ≡ false) × (is_halted w ≡ true → (bt id left || kick) ≡ true)
Ensures done id w kick = (is_early w ≡ false) × (is_halted w ≡ true → kick ≡ true)
Ensures _ id w kick = Unit

pub record IsSound (v : ℕ) (s : System) : Type 0 where
  pub stored : is_stored s.setter ≡ true → s.cond.c ≡ v
  pub intent : (id : ℕ) → id < 64 → bt id s.cond.intent_cpus ≡ is_intent (s.at id)
  pub waiting : (id : ℕ) → id < 64 → bt id s.cond.waiting_cpus ≡ is_marked (s.at id)
  pub ensured : (id : ℕ) → id < 64 → Ensures s.setter id (s.at id) (s.kicked id)

module _ (v : ℕ) where
  -- A step of the waiter `me` to the place `w`.
  pub moved :
      (s : System) (me : ℕ) (c : CondT) (w : Waiter) (kick : Bool)
      → IsSound v s
      → c.c ≡ s.cond.c
      → ((id : ℕ) → id < 64 → me ≢ id → bt id c.intent_cpus ≡ bt id s.cond.intent_cpus)
      → ((id : ℕ) → id < 64 → me ≢ id → bt id c.waiting_cpus ≡ bt id s.cond.waiting_cpus)
      → bt me c.intent_cpus ≡ is_intent w
      → bt me c.waiting_cpus ≡ is_marked w
      → Ensures s.setter me w kick
      → IsSound v (record s { cond = c; at = update s.at me w; kicked = update s.kicked me kick })
  moved s me c w kick h val oi ow mi mw en = record {
    stored = λ e. val ∙ h.stored e;
    intent = λ id lt. elim (ℕ_discrete me id) [
      | yes q ↦ rw (update_eq s.at me id w q) (ap (λ k. bt k c.intent_cpus) (sym q) ∙ mi)
      | no ne ↦ rw (update_ne s.at me id w ne) (oi id lt ne ∙ h.intent id lt)
    ];
    waiting = λ id lt. elim (ℕ_discrete me id) [
      | yes q ↦ rw (update_eq s.at me id w q) (ap (λ k. bt k c.waiting_cpus) (sym q) ∙ mw)
      | no ne ↦ rw (update_ne s.at me id w ne) (ow id lt ne ∙ h.waiting id lt)
    ];
    ensured = λ id lt. elim (ℕ_discrete me id) [
      | yes q ↦ rw (update_eq s.at me id w q, update_eq s.kicked me id kick q, sym q) en
      | no ne ↦ rw (update_ne s.at me id w ne, update_ne s.kicked me id kick ne) (h.ensured id lt)
    ];
  }

  -- A step that leaves the two words.
  pub stays :
      (s : System) (me : ℕ) (w : Waiter) (kick : Bool)
      → me < 64
      → IsSound v s
      → is_intent (s.at me) ≡ is_intent w
      → is_marked (s.at me) ≡ is_marked w
      → Ensures s.setter me w kick
      → IsSound v (record s { at = update s.at me w; kicked = update s.kicked me kick })
  stays s me w kick lt h ei ew en =
      moved s me s.cond w kick h refl (λ id l ne. refl) (λ id l ne. refl) (h.intent me lt ∙ ei)
        (h.waiting me lt ∙ ew) en
