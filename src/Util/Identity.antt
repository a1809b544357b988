-- ===== src/Util/Identity.antt =====
-- `get_pool_and_id`, `get_pool_sz` and `get_id` of include/util.h, and how `main` of src/main.c
-- splits the word: the number of the cpu and the size of its pool, which src/boot.S leaves in the
-- last 8 bytes of the 4096-byte page of the stack. `mem` is the memory by 8-byte words.
use bootcode.Base.{
  ℕ, ◌+◌, ◌-◌, ◌*◌, ◌/◌, ◌%◌, ◌^◌, ◌≤◌, ◌<◌, ◌≡◌, refl, arith, u8, u16, u64, ◌>>>◌, ◌<<<◌,
}

-- The address that the first four instructions make of `rsp`, less 8.
unfoldable pub last_word : ℕ → ℕ
last_word rsp = u64 (u64 (u64 ((rsp >>> 12) + 1) <<< 12) + (2 ^ 64 - 8))

unfoldable pub get_pool_and_id : (ℕ → ℕ) → ℕ → ℕ
get_pool_and_id mem rsp = u16 (mem (last_word rsp))

unfoldable pub get_pool_sz : (ℕ → ℕ) → ℕ → ℕ
get_pool_sz mem rsp = u8 (mem (last_word rsp) % 2 ^ 16 / 2 ^ 8)

unfoldable pub get_id : (ℕ → ℕ) → ℕ → ℕ
get_id mem rsp = u8 (mem (last_word (u64 (rsp + (2 ^ 64 - 1)))) % 2 ^ 8)

-- `my_id` and `pool_sz` in `main`.
unfoldable pub main_ids : (ℕ → ℕ) → ℕ → ℕ × ℕ
main_ids mem rsp =
    let my_id_pool_sz = get_pool_and_id mem rsp in
    (my_id_pool_sz % 2 ^ 8, u8 (my_id_pool_sz % 2 ^ 16 / 2 ^ 8))

last_word_inside :
    (page rsp : ℕ)
    → page < 2 ^ 52 - 1
    → page * 4096 ≤ rsp
    → rsp < page * 4096 + 4096
    → last_word rsp ≡ page * 4096 + 4088
unfolding last_word
last_word_inside page rsp h lo hi = let q : rsp / 4096 ≡ page = omega arith in omega (arith, q)

last_word_end : (page : ℕ) → page < 2 ^ 52 - 2 → last_word (page * 4096 + 4096) ≡ page * 4096 + 8184
unfolding last_word
last_word_end page h =
    let q : (page * 4096 + 4096) / 4096 ≡ page + 1 = omega arith in omega (arith, q)

-- With the cpu's number and the size of its pool in the last 8 bytes of the page of its stack:
-- everywhere in the page after its first byte, `main` and the getters find the two; `get_id` finds
-- the number also with an empty stack, `rsp` at the end of the page, where `get_pool_sz` looks at
-- the end of the next page instead.
pub get_id_lem :
    (mem : ℕ → ℕ) (page id pool_sz rsp : ℕ)
    → page < 2 ^ 52 - 2
    → id < 256
    → pool_sz < 256
    → mem (page * 4096 + 4088) ≡ pool_sz * 2 ^ 8 + id
    → page * 4096 < rsp
    → rsp < page * 4096 + 4096
    → (main_ids mem rsp ≡ (id, pool_sz))
      × (get_id mem rsp ≡ id)
      × (get_pool_sz mem rsp ≡ pool_sz)
      × (get_id mem (page * 4096 + 4096) ≡ id)
      × (get_pool_sz mem (page * 4096 + 4096) ≡ u8 (mem (page * 4096 + 8184) / 2 ^ 8))
unfolding get_pool_and_id get_pool_sz get_id main_ids
get_id_lem mem page id pool_sz rsp h hid hp word lo hi =
    let here = last_word_inside page rsp (omega arith) (omega arith) hi in
    let before : last_word (u64 (rsp + (2 ^ 64 - 1))) ≡ page * 4096 + 4088 =
      let q : u64 (rsp + (2 ^ 64 - 1)) ≡ rsp - 1 = omega arith in
      rw q (last_word_inside page (rsp - 1) (omega arith) (omega arith) (omega arith)) in
    let full : last_word (u64 (page * 4096 + 4096 + (2 ^ 64 - 1))) ≡ page * 4096 + 4088 =
      let q : u64 (page * 4096 + 4096 + (2 ^ 64 - 1)) ≡ page * 4096 + 4095 = omega arith in
      rw q (last_word_inside page (page * 4096 + 4095) (omega arith) (omega arith) (omega arith)) in
    let w = pool_sz * 2 ^ 8 + id in
    let low : w % 2 ^ 16 % 2 ^ 8 ≡ id = omega arith in
    let high : u8 (w % 2 ^ 16 % 2 ^ 16 / 2 ^ 8) ≡ pool_sz = omega arith in
    (
      rw (here, word, low, high) refl,
      rw (before, word) (omega arith),
      rw (here, word) (omega arith),
      rw (full, word) (omega arith),
      rw (last_word_end page h) (omega arith),
    )
