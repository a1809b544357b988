-- ===== src/Sched/Queue/Laws.antt =====
-- `bm_run_fn` as the set of the runnable functions: what `add_runnable_fn` and `get_work` do to it.
use bootcode.Base.{ℕ, ◌+◌, ◌*◌, ◌/◌, ◌%◌, ◌<◌, ◌≡◌, refl, arith, ◌∙◌, true, false, not, ◌&&◌}
use bootcode.Base.{◌||◌, ◌==◌, Option, none, some, List, length, get_or, set, length-set, inc64}
use bootcode.Bits.{btr}
use bootcode.Claim.{Pc, scan, run, claimed}
use bootcode.Claim.Word.{has, has-clear, has-set, has_at}
use bootcode.Claim.Run.{Extracts, nothing, lowest, run-Extracts}
use bootcode.Claim.Size.{size, size-clear, size_set_bit, size_of_clear}
use bootcode.Base.{if◌then◌else◌, zero, suc, ap, [], ◌∷◌}
use bootcode.Bits.Laws.{bt-zero}
use bootcode.Sched.State.{State}
use bootcode.Sched.Queue.{add_bit, add_runnable_fn, take_bit, get_work}

-- The bitmap has its four words.
abbrev pub IsBitmap : List ℕ → Type 0
IsBitmap ws = length ws ≡ 4

pub add_bit-IsBitmap : (ws : List ℕ) (fn : ℕ) → IsBitmap ws → IsBitmap (add_bit ws fn)
unfolding add_bit
add_bit-IsBitmap ws fn h = length-set ws (fn / 64) _ ∙ h

pub has-add_bit :
    (ws : List ℕ) (fn i : ℕ)
    → IsBitmap ws
    → fn < 256
    → has (add_bit ws fn) i ≡ ((i == fn) || has ws i)
unfolding add_bit
has-add_bit ws fn i h small =
    let e : 64 * (fn / 64) + fn % 64 ≡ fn = omega arith in
    rw (has-set ws (fn / 64) (fn % 64) i (omega arith) (omega arith), e)

pub size-add_bit :
    (ws : List ℕ) (fn : ℕ)
    → IsBitmap ws
    → fn < 256
    → size (add_bit ws fn) ≡ size ws + (if has ws fn then 0 else 1)
unfolding add_bit
size-add_bit ws fn h small = size_set_bit ws (fn / 64) (fn % 64) (omega arith) (omega arith)

-- What an extraction from the bitmap `ws` gives: nothing from an empty one, and otherwise the
-- lowest function in it, which is the only one to leave.
pub data Takes (ws : List ℕ) (r : List ℕ × Option ℕ) : Type 0 where
  idle : r ≡ (ws, none) → ((i : ℕ) → i < 256 → has ws i ≡ false) → Takes ws r
  work :
      (ws' : List ℕ) (fn : ℕ)
      → r ≡ (ws', some fn)
      → IsBitmap ws'
      → fn < 256
      → has ws fn ≡ true
      → ((i : ℕ) → i < fn → has ws i ≡ false)
      → ((i : ℕ) → has ws' i ≡ (not (i == fn) && has ws i))
      → size ws ≡ suc (size ws')
      → Takes ws r

Extracts-Takes :
    (ws : List ℕ) (r : List ℕ × Pc) → IsBitmap ws → Extracts 3 ws 0 r → Takes ws (r.0, claimed r.1)
Extracts-Takes ws r h (nothing e clear) =
    rw e (idle refl (λ i lt. clear i (omega arith) (omega arith)))
Extracts-Takes ws r h (lowest j n e from to small is_set clear) = rw e (
    work (set ws j (btr n (get_or ws j 0))) (64 * j + n) refl
      (length-set ws j (btr n (get_or ws j 0)) ∙ h) (omega arith) (has_at ws j n small ∙ is_set)
      (λ i lt. clear i (omega arith) lt) (λ i. has-clear ws j n i small (omega arith))
      (size-clear ws j n small (omega arith) is_set))

pub take_bit-Takes : (ws : List ℕ) → IsBitmap ws → Takes ws (take_bit ws)
unfolding take_bit
take_bit-Takes ws h =
    Extracts-Takes ws (run 3 9 ws (scan 0)) h (run-Extracts 3 ws 3 9 0 (omega arith) (omega arith))

pub get_work-take_bit :
    (s : State) {ws : List ℕ} {o : Option ℕ}
    → take_bit s.bm_run_fn ≡ (ws, o)
    → get_work s ≡ (record s { bm_run_fn = ws }, o)
unfolding get_work
get_work-take_bit s e = ap {B = State × Option ℕ} (λ r. (record s { bm_run_fn = r.0 }, r.1)) e

abbrev pub Dispatches : State → State × Option ℕ → Type 0
Dispatches s r =
    Takes s.bm_run_fn (r.0.bm_run_fn, r.1) × (r.0 ≡ record s { bm_run_fn = r.0.bm_run_fn })

-- `get_work`: on a state with the four words it takes the lowest runnable function and no other,
-- says -1 only if none of the 256 is runnable, and leaves all other state alone.
pub get_work-Dispatches : (s : State) → IsBitmap s.bm_run_fn → Dispatches s (get_work s)
unfolding get_work
get_work-Dispatches s h = (take_bit-Takes s.bm_run_fn h, refl)

-- On a bitmap of four words, `add_runnable_fn` makes `fn`, below 256, runnable and no other function,
-- keeps the four words, and counts one more runnable task, modulo 2^64.
pub add_runnable_fn_lem :
    (fn : ℕ) (s : State)
    → IsBitmap s.bm_run_fn
    → fn < 256
    → ((i : ℕ) → has (add_runnable_fn fn s).bm_run_fn i ≡ ((i == fn) || has s.bm_run_fn i))
      × ((add_runnable_fn fn s).runnable_tasks ≡ inc64 s.runnable_tasks)
      × IsBitmap (add_runnable_fn fn s).bm_run_fn
unfolding add_runnable_fn
add_runnable_fn_lem fn s h small =
    (λ i. has-add_bit s.bm_run_fn fn i h small, refl, add_bit-IsBitmap s.bm_run_fn fn h)

-- After -1 the bitmap is empty.
pub size-none : (ws : List ℕ) → IsBitmap ws → ((i : ℕ) → i < 256 → has ws i ≡ false) → size ws ≡ 0
size-none ws h clear = size_of_clear ws (λ i lt. clear i (omega arith))

-- The bitmap without a function.
abbrev pub no_words : List ℕ
no_words = 0 ∷ 0 ∷ 0 ∷ 0 ∷ []

no_word : (k : ℕ) → get_or no_words k 0 ≡ zero
no_word zero = refl
no_word (suc zero) = refl
no_word (suc (suc zero)) = refl
no_word (suc (suc (suc zero))) = refl
no_word (suc (suc (suc (suc k)))) = refl

pub empty_queue : (i : ℕ) → has no_words i ≡ false
empty_queue i = rw (no_word (i / 64)) (bt-zero (i % 64))
