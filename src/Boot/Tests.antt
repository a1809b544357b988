-- ===== src/Boot/Tests.antt =====
-- Two cpus with neighbouring descriptors, and the number of a cpu in a page of its stack.
use bootcode.Base.{
  ℕ, ◌+◌, ◌*◌, ◌/◌, ◌^◌, ◌≡◌, ◌≢◌, refl, arith, List, [], ◌∷◌, ◌==◌, if◌then◌else◌, u8,
}
use bootcode.Boot.{sizeof_tss, fill_tss, raw}
use bootcode.Boot.Start.{Tables, flush_tss, fill_own_tss, init_boot, Part, loads, fills, boot}
use bootcode.Boot.Task.{task_base}
use bootcode.Util.Identity.{get_id, get_pool_sz, main_ids, get_id_lem}

abbrev stacks : ℕ → ℕ
stacks id = 0x900000 + id * 8

abbrev empty : Tables
empty = record {
  gdt64_start = λ i. raw 0;
  tss_seg = λ id. (fill_tss 0 0).0;
  task = λ id. (raw 0, raw 0);
  msrs = λ id. [];
}

abbrev two_cpus : List Part
two_cpus = loads 3 ∷ loads 4 ∷ fills 4 ∷ fills 3 ∷ []

-- The two parts, one after the other, are `init_boot`.
parts-init_boot :
    (id : ℕ) (s : Tables)
    → boot 0x123400000 0x100200300 stacks (loads id ∷ fills id ∷ []) s
      ≡ init_boot 0x123400000 0x100200300 stacks id s
unfolding boot init_boot
parts-init_boot id s = refl

-- Without the mutex, a neighbour's descriptor can come between the two steps of `load_tss`.
unlocked_overlap :
    task_base (
      (flush_tss 3 (
          fill_own_tss 0x123400000 0x100200300 stacks 4
            (fill_own_tss 0x123400000 0x100200300 stacks 3 empty))).task
        3)
    ≢ 0x123400000 + 3 * sizeof_tss
unfolding flush_tss fill_own_tss fill_tss
unlocked_overlap e = absurd (omega (arith, e))

-- Cpu 2 of a pool of 4, in a page that begins at 0x5000.
abbrev stack_words : ℕ → ℕ
stack_words a = if a == 0x5ff8 then 0x402 else 0

get_id_lem_example :
    (main_ids stack_words 0x5fe0 ≡ (2, 4))
    × (get_id stack_words 0x5fe0 ≡ 2)
    × (get_pool_sz stack_words 0x5fe0 ≡ 4)
    × (get_id stack_words (5 * 4096 + 4096) ≡ 2)
    × (get_pool_sz stack_words (5 * 4096 + 4096) ≡ u8 (stack_words (5 * 4096 + 8184) / 2 ^ 8))
get_id_lem_example =
    get_id_lem stack_words 5 2 4 0x5fe0 (omega arith) (omega arith) (omega arith) refl (omega arith)
      (omega arith)
