-- ===== src/Sched/Many/Tasks/Count.antt =====
-- The bits of the bitmap and the pending cpus as numbers.
use bootcode.Base.{
  ℕ, ◌+◌, ◌<◌, ◌≡◌, refl, ap, arith, Bool, true, false, not, ◌&&◌, ◌==◌, List, update, update_eq,
  update_ne, one, number, number-update,
}
use mathlib.Core.Path.{subst, fun_ext}
use native.Mathlib.Decide.{ℕ_discrete}
use bootcode.Claim.Word.{has}
use bootcode.Sched.Queue.{add_bit}
use bootcode.Sched.Queue.Laws.{IsBitmap, has-add_bit}
use bootcode.Sched.Many.{Place, begins, runs, adds}
use bootcode.Sched.Many.Sound.{}

-- A cpu that the counter counts besides the bits: it has incremented it, and is about to set a bit;
-- or it has taken a bit, and not yet decremented it.
abbrev pub is_pending : Place → Bool → Bool
is_pending (adds fn j es) c = c
is_pending begins c = c
is_pending (runs fn) c = not c
is_pending p c = false

-- Such an access belongs to the place.
abbrev pub has_access : Place → Bool
has_access (adds fn j es) = true
has_access begins = true
has_access (runs fn) = true
has_access p = false

abbrev pub tasks : List ℕ → ℕ
tasks ws = number (has ws) 256

pub tasks-same : (ws ws' : List ℕ) → ((b : ℕ) → has ws' b ≡ has ws b) → tasks ws' ≡ tasks ws
tasks-same ws ws' h = ap (λ p. number p 256) (fun_ext h)

-- One bit more.
pub tasks-add_bit :
    (ws : List ℕ) (j : ℕ)
    → IsBitmap ws
    → j < 256
    → has ws j ≡ false
    → tasks (add_bit ws j) ≡ tasks ws + 1
tasks-add_bit ws j size lt clear =
    let same : (b : ℕ) → has (add_bit ws j) b ≡ update (has ws) j true b = λ b.
      elim (ℕ_discrete j b) [
        | yes q ↦ ground (arith, has-add_bit ws j b size lt, update_eq (has ws) j b true q, q)
        | no ne ↦ ground (arith, has-add_bit ws j b size lt, update_ne (has ws) j b true ne, ne)
      ] in
    omega (
      arith,
      ap (λ p. number p 256) (fun_ext same),
      number-update (has ws) j true 256 lt,
      ap one clear,
    )

-- One bit less.
pub tasks-take :
    (ws ws' : List ℕ) (j : ℕ)
    → j < 256
    → has ws j ≡ true
    → ((b : ℕ) → has ws' b ≡ (not (b == j) && has ws b))
    → tasks ws' + 1 ≡ tasks ws
tasks-take ws ws' j lt was bits =
    let same : (b : ℕ) → has ws' b ≡ update (has ws) j false b = λ b. elim (ℕ_discrete j b) [
      | yes q ↦ ground (arith, bits b, update_eq (has ws) j b false q, q)
      | no ne ↦ ground (arith, bits b, update_ne (has ws) j b false ne, ne)
    ] in
    omega (
      arith,
      ap (λ p. number p 256) (fun_ext same),
      number-update (has ws) j false 256 lt,
      ap one was,
    )

-- The pending cpus, when one is at another place or has made its access.
pub pending-update :
    (at : ℕ → Place) (counted : ℕ → Bool) (id n : ℕ) (p : Place) (c : Bool)
    → id < n
    → number (λ k. is_pending (update at id p k) (update counted id c k)) n
        + one (is_pending (at id) (counted id))
      ≡ number (λ k. is_pending (at k) (counted k)) n + one (is_pending p c)
pending-update at counted id n p c lt =
    let was = λ (k : ℕ). is_pending (at k) (counted k) in
    let same : (k : ℕ)
        → update was id (is_pending p c) k ≡ is_pending (update at id p k) (update counted id c k) =
      λ k. elim (ℕ_discrete id k) [
        | yes q ↦
            rw
              (
                update_eq was id k (is_pending p c) q,
                update_eq at id k p q,
                update_eq counted id k c q,
              )
              refl
        | no ne ↦
            rw
              (
                update_ne was id k (is_pending p c) ne,
                update_ne at id k p ne,
                update_ne counted id k c ne,
              )
              refl
      ] in
    subst (λ t. number t n + one (was id) ≡ number was n + one (is_pending p c)) (fun_ext same)
      (number-update was id (is_pending p c) n lt)
