-- ===== src/Cond/Store.antt =====
-- `cond_set` on a processor with a store buffer, as x86 has it: the plain store of the value waits in
-- the buffer of its cpu, `sfence` orders it with other stores only, and the loads after it may be made
-- before it is visible to the other cpus. A `lock` instruction of the cpu empties its buffer. The
-- accesses of `cond_wait` are `lock` instructions and loads.
mod Tests
use bootcode.Base.{
  ℕ, ◌<◌, ◌≡◌, ◌≢◌, ◌≤◌, refl, sym, ap, ◌∙◌, arith, Bool, true, false, List, Option, none, some,
}
use mathlib.Core.Path.{subst}
use bootcode.Bits.{bsf}
use bootcode.Cond.{
  CondT, outside, hlt_path, halted, Setter, idle, test, compare, hint, copy, kicks, done, System,
  wait_move, interrupt, set_step, set_move, Reachable, start, waited, disturbed, set,
}
use bootcode.Cond.Wakeup.{steps_left, all_moves, turns, set-wakes, wait-leaves}

-- The store is made while `setter` is `idle` and `buffered`; `early` says that a load after it was
-- made before it was visible.
pub record Buffered : Type 0 where
  pub system : System
  pub buffered : Bool
  pub early : Bool

-- The store becomes visible.
abbrev pub visible : ℕ → System → System
visible v s = record s { cond = record (s.cond) { c = v } }

abbrev pub drained : ℕ → Setter → System → System
drained v idle s = set_step v s idle
drained v _ s = visible v s

-- A kick with the store in the buffer: `reset_bit` after it is a `lock` instruction.
abbrev early_kick : ℕ → ℕ → Option ℕ → Buffered → Buffered
early_kick v left none s = record s { system = set_step v s.system (kicks left); early = true }
early_kick v left (some n) s = record {
  system = visible v (set_step v s.system (kicks left));
  buffered = false;
  early = true;
}

-- A step of `cond_set c v`, with the store in the buffer or not.
unfoldable pub buffer_step : ℕ → Bool → Setter → Buffered → Buffered
buffer_step v false idle s = record s { buffered = true }
buffer_step v false st s = record s { system = set_step v s.system st }
buffer_step v true idle s = record s { system = set_step v s.system test; early = true }
buffer_step v true (kicks left) s = early_kick v left (bsf 64 left) s
buffer_step v true st s = record s { system = set_step v s.system st; early = true }

unfoldable pub buffer_move : ℕ → Buffered → Buffered
buffer_move v s = buffer_step v s.buffered s.system.setter s

-- The buffer is emptied, at any time.
unfoldable pub drain : ℕ → Bool → Buffered → Buffered
drain v true s = record s { system = drained v s.system.setter s.system; buffered = false }
drain v false s = s

pub data BufferReachable (v : ℕ) : Buffered → Type 0 where
  begins :
      (old : ℕ)
      → BufferReachable v (record {
        system = record {
          cond = record { intent_cpus = 0; waiting_cpus = 0; c = old };
          kicked = λ id. false;
          at = λ id. outside;
          setter = idle;
        };
        buffered = false;
        early = false;
      })
  waits :
      {s : Buffered} (id : ℕ)
      → id < 64
      → BufferReachable v s
      → BufferReachable v (record s { system = wait_move v id s.system })
  ends_hlt :
      {s : Buffered} (id : ℕ)
      → id < 64
      → BufferReachable v s
      → BufferReachable v (record s { system = interrupt id s.system })
  sets : {s : Buffered} → BufferReachable v s → BufferReachable v (buffer_move v s)
  drains : {s : Buffered} → BufferReachable v s → BufferReachable v (drain v s.buffered s)

module _ (v : ℕ) where
  -- With no early load, the steps are those of a store that is visible at once.
  record IsInOrder (s : Buffered) : Type 0 where
    steps : Reachable v s.system
    waiting : s.buffered ≡ true → s.system.setter ≡ idle

  early-early_kick : (left : ℕ) (n : Option ℕ) (s : Buffered) → (early_kick v left n s).early ≡ true
  early-early_kick left none s = refl
  early-early_kick left (some n) s = refl

  -- A step of `cond_set` with the buffer empty.
  follows :
      (st : Setter) (s : Buffered)
      → s.buffered ≡ false
      → s.system.setter ≡ st
      → IsInOrder s
      → IsInOrder (record s { system = set_step v s.system st })
  unfolding set_move
  follows st s e q h = record {
    steps = subst (λ st. Reachable v (set_step v s.system st)) q (set h.steps);
    waiting = λ b. absurd (ground (arith, e, b));
  }

  in_step :
      (b : Bool) (st : Setter) (s : Buffered)
      → s.buffered ≡ b
      → s.system.setter ≡ st
      → (s.early ≡ false → IsInOrder s)
      → (buffer_step v b st s).early ≡ false
      → IsInOrder (buffer_step v b st s)
  unfolding buffer_step
  in_step false idle s e q h f = record { steps = (h f).steps; waiting = λ b. q }
  in_step false test s e q h f = follows test s e q (h f)
  in_step false (compare intent) s e q h f = follows (compare intent) s e q (h f)
  in_step false hint s e q h f = follows hint s e q (h f)
  in_step false copy s e q h f = follows copy s e q (h f)
  in_step false (kicks left) s e q h f = follows (kicks left) s e q (h f)
  in_step false done s e q h f = follows done s e q (h f)
  in_step true idle s e q h f = absurd (ground (arith, f))
  in_step true test s e q h f = absurd (ground (arith, f))
  in_step true (compare intent) s e q h f = absurd (ground (arith, f))
  in_step true hint s e q h f = absurd (ground (arith, f))
  in_step true copy s e q h f = absurd (ground (arith, f))
  in_step true done s e q h f = absurd (ground (arith, f))
  in_step true (kicks left) s e q h f =
      absurd (ground (arith, sym (early-early_kick left (bsf 64 left) s) ∙ f))

  in_drain :
      (b : Bool) (s : Buffered)
      → s.buffered ≡ b
      → (s.early ≡ false → IsInOrder s)
      → (drain v b s).early ≡ false
      → IsInOrder (drain v b s)
  unfolding drain set_move set_step
  in_drain false s e h f = h f
  in_drain true s e h f =
      let before = (h f).waiting e in
      record {
        steps =
            rw before (subst (λ st. Reachable v (set_step v s.system st)) before (set (h f).steps));
        waiting = λ b. absurd (ground (arith, b));
      }

  in_order : {s : Buffered} → BufferReachable v s → s.early ≡ false → IsInOrder s
  unfolding buffer_move wait_move interrupt
  in_order (begins old) f = record { steps = start old; waiting = λ e. refl }
  in_order (waits {s} id lt r) f =
      let h = in_order r f in record { steps = waited id lt h.steps; waiting = h.waiting }
  in_order (ends_hlt {s} id lt r) f =
      let h = in_order r f in record { steps = disturbed id lt h.steps; waiting = h.waiting }
  in_order (sets {s} r) f = in_step s.buffered s.system.setter s refl refl (in_order r) f
  in_order (drains {s} r) f = in_drain s.buffered s refl (in_order r) f

-- With a store buffer, in any order of the steps of `cond_wait` on up to 64 cpus, of interrupts that
-- end a `hlt`, of one `cond_set c v` and of the emptying of its buffer, nobody waiting at the
-- beginning: when `cond_set` is at its end, and none of its loads was made before its store was
-- visible, the value is stored, no cpu is on its way to `hlt`, and one that halts has a kick
-- pending. The `sfence` of the code does not see to that condition.
pub cond_set-wakes :
    (v id : ℕ) (s : Buffered)
    → BufferReachable v s
    → s.early ≡ false
    → s.system.setter ≡ done
    → id < 64
    → s.system.cond.c ≡ v
      × s.system.at id ≢ hlt_path
      × (s.system.at id ≡ halted → s.system.kicked id ≡ true)
cond_set-wakes v id s r f d lt = set-wakes v id s.system (in_order v r f).steps d lt

-- With a store buffer, in any order of the steps of `cond_wait` on up to 64 cpus, of interrupts that
-- end a `hlt`, of one `cond_set c v` and of the emptying of its buffer, nobody waiting at the
-- beginning: when `cond_set` is at its end, and none of its
-- loads was made before its store was visible, a cpu needs at most four more steps to leave
-- `cond_wait`, and has left it after exactly that many of its own steps, whatever steps other cpus
-- take in between. The `sfence` of the code does not see to that condition.
pub cond_wait-leaves :
    (v id : ℕ) (ids : List ℕ) (s : Buffered)
    → BufferReachable v s
    → s.early ≡ false
    → s.system.setter ≡ done
    → id < 64
    → turns id ids ≡ steps_left (s.system.at id)
    → steps_left (s.system.at id) ≤ 4 × (all_moves v ids s.system).at id ≡ outside
cond_wait-leaves v id ids s r f d lt e = wait-leaves v id ids s.system (in_order v r f).steps d lt e
