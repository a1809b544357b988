-- ===== src/Bits.antt =====
-- The bit instructions of x86 that the program issues through inline assembly, on one word: the
-- test of a bit (the carry flag of `bts` and `btr`), `bts`, `btr`, `bsf` and `popcnt`. A word is a
-- number; the recursion on the bit's index follows its binary digits.
pub mod Laws
pub mod Count
pub mod Scan
use bootcode.Base.{ℕ, zero, suc, ◌+◌, ◌*◌, ◌/◌, ◌%◌, Bool, ◌==◌, if◌then◌else◌, Option, none, some}

-- The carry flag that `bt`, `bts` and `btr` leave: bit `n` of `x` before the operation.
unfoldable pub bt : ℕ → ℕ → Bool
bt zero x = x % 2 == 1
bt (suc n) x = bt n (x / 2)

-- The word that `bts n` leaves.
unfoldable pub bts : ℕ → ℕ → ℕ
bts zero x = x / 2 * 2 + 1
bts (suc n) x = bts n (x / 2) * 2 + x % 2

-- The word that `btr n` leaves.
unfoldable pub btr : ℕ → ℕ → ℕ
btr zero x = x / 2 * 2
btr (suc n) x = btr n (x / 2) * 2 + x % 2

abbrev pub next_bit : Option ℕ → Option ℕ
next_bit none = none
next_bit (some n) = some (suc n)

-- `bsf` on a word of `w` bits: the lowest set bit; `none` stands for the zero flag.
unfoldable pub bsf : ℕ → ℕ → Option ℕ
bsf zero x = none
bsf (suc w) x = if x % 2 == 1 then some 0 else next_bit (bsf w (x / 2))

-- `popcnt` on a word of `w` bits.
unfoldable pub popcnt : ℕ → ℕ → ℕ
popcnt zero x = 0
popcnt (suc w) x = x % 2 + popcnt w (x / 2)
