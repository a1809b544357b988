-- ===== src/Tests.antt =====
-- Runs of the components beside the scheduler on small inputs, and their theorems at work there.
use bootcode.Base.{
  ℕ, ◌+◌, ◌-◌, ◌/◌, ◌%◌, ◌^◌, ◌<◌, ◌≡◌, ◌↔◌, ◌⊎◌, refl, inl, arith, true, false, not, ◌&&◌, ◌||◌,
  ◌==◌, if◌then◌else◌, List, [], ◌∷◌, some,
}
use bootcode.Claim.{step, step_scan}
use bootcode.Claim.Effect.{got}
use bootcode.Claim.Word.{has}
use bootcode.Claim
use bootcode.Claim.Race
use bootcode.Mutex
use bootcode.Mutex.Exclusion.{Reachable-exclusive, lock-unlock}
use bootcode.Boot.{GdtEntry, raw}
use bootcode.Boot.Barrier.{barrier_bm, has_arrived, barrier_bm_lem}
use bootcode.Stack.{TStack, Store, stack_init, calls, Call, push, pop, minus_one}
use bootcode.Stack.{call, stack_push}
use bootcode.Stack.Error.{is_refused, given, call_error}
use bootcode.Stack.Refine.{list_calls, calls-Refines, stack_init-Holds}
use bootcode.Mm.{addr_to_pde, Pe}
use bootcode.Mm.Walk.{pml4_entry, pdpt_entry, pd_entry, words_with, addr_to_pde_lem}
use bootcode.Pic.{
  out_b, in_b, Log, Device, irq_set_mask, irq_clear_mask, pic_remap, pic1_data, pic2_data,
}
use bootcode.Pic.Laws.{init_of, is_icw1, IsMask, IsPic, is_masked, irq_masks_lem, pic_remap_lem}
use bootcode.Base.{ltb, u8}
use bootcode.Ipi.{Apic, read_apic_bit_pack, set_apic_bit_pack, reset_apic_bit_pack}
use bootcode.Ipi.Send.{set_apic_bit_pack_lem}
use bootcode.Base.{ltb, leb}
use bootcode.Bits.{bt}
use bootcode.Interrupt.{StackFrame, high_interrupt_handler, fault_lines}
use bootcode.Interrupt.Laws.{
  apic_eois, pic_eois, hlts, ends_in_halt, reports, high_interrupt_handler_lem, fault_lines_lem,
}
use bootcode.Libc.{memcpy}
use bootcode.Libc.Laws.{within, memcpy_lem}

-- The stack of two bytes at address 100.
abbrev uninitialised : TStack
uninitialised = record { arr = 0; head = 0; m = 0; n = 0; tsz = 0 }

abbrev two_bytes : Store
two_bytes = record { q = stack_init uninitialised 100 2; mem = λ a. 0 }

abbrev some_calls : List Call
some_calls = pop 0 9 ∷ push 0 5 ∷ push 1 6 ∷ push 0 7 ∷ pop 1 0 ∷ pop 0 0 ∷ []

calls-Refines_example : calls two_bytes some_calls ≡ list_calls 2 [] some_calls
calls-Refines_example =
    calls-Refines 2 [] two_bytes some_calls (stack_init-Holds uninitialised (λ a. 0) 100 2)

-- A stack of two bytes that is full.
abbrev full_stack : Store
full_stack = record { q = record { arr = 100; head = 102; m = 0; n = 2; tsz = 2 }; mem = λ a. 6 }

fails : (call full_stack (push 0 7)).1.0 ≡ minus_one
unfolding call stack_push
fails = refl

call_error_example :
    (call full_stack (push 0 7) ≡ (full_stack, (minus_one, given (push 0 7))))
    × (is_refused full_stack (push 0 7) ≡ true)
call_error_example = call_error full_stack (push 0 7) refl (λ e. absurd (omega (arith, fails, e)))

some_calls_run :
    list_calls 2 [] some_calls
    ≡ (minus_one, 9) ∷ (0, 5) ∷ (0, 6) ∷ (minus_one, 7) ∷ (0, 6) ∷ (0, 5) ∷ []
some_calls_run = refl

-- Every word of the tables refers to the table at 65536.
abbrev tables : ℕ → ℕ
tables a = 65536 + 3

abbrev three_slots : Pe
three_slots = some (λ i. some 0)

addr_to_pde_lem_example : addr_to_pde tables 65536 0x40200000 three_slots ≡ (
  pd_entry tables 65536 0x40200000,
  words_with
      (pml4_entry tables 65536 0x40200000)
      (pdpt_entry tables 65536 0x40200000)
      (pd_entry tables 65536 0x40200000)
      three_slots,
)
addr_to_pde_lem_example =
    addr_to_pde_lem tables 65536 0x40200000 three_slots (refl, refl) (refl, refl) (refl, refl)

memcpy_lem_example : memcpy (λ a. a) 10 11 3 12 ≡ (if within 10 3 12 then 13 else 12)
memcpy_lem_example = memcpy_lem (λ a. a) 10 11 3 12 (inl (omega arith))

set_apic_bit_pack_lem_example :
    (read_apic_bit_pack (set_apic_bit_pack (λ i. 0) 0x41) 0x40
      ≡ (if 0x40 == 0x41 then 1 else read_apic_bit_pack (λ i. 0) 0x40))
    × (read_apic_bit_pack (reset_apic_bit_pack (λ i. 0) 0x41) 0x40 ≡ (
        if ((0x40 / 32) == (0x41 / 32)) && not (0x40 == 0x41)
        then 1 - read_apic_bit_pack (λ i. 0) 0x40
        else read_apic_bit_pack (λ i. 0) 0x40))
set_apic_bit_pack_lem_example = set_apic_bit_pack_lem (λ i. 0) 0x41 0x40

-- An apic whose `icrl` reads as the vector written.
abbrev icrl_reads : ℕ → ℕ
icrl_reads t = 0x40

abbrev apic : Apic
apic = record { esr = 1; icrh = 0; icrl = 0 }

abbrev raw_gdt : ℕ → GdtEntry
raw_gdt i = raw 0

barrier_bm_lem_example :
    (barrier_bm 3 (2 ∷ []) (0 ∷ 1 ∷ []) ≡ 0)
    ↔ ((i : ℕ) → i < 3 % 64 → (has_arrived i (2 ∷ []) || has_arrived i (0 ∷ 1 ∷ [])) ≡ true)
barrier_bm_lem_example = barrier_bm_lem 3 (2 ∷ []) (0 ∷ 1 ∷ [])

-- Controllers whose masks are as the data sheet says.
mask_of : ℕ → ℕ → Log → ℕ
mask_of cmd port [] = 0
mask_of cmd port (out_b p v ∷ log) =
    let older = mask_of cmd port log in
    if (p == cmd) && is_icw1 v
    then 0
    else (if (p == port) && not (ltb 0 (init_of cmd port log).left) then v else older)
mask_of cmd port (in_b p v ∷ log) = mask_of cmd port log

controllers : Device
controllers log p = if p == 0x21 then mask_of 0x20 0x21 log else mask_of 0xA0 0xA1 log

first-IsMask : IsMask controllers 0x20 0x21
unfolding mask_of controllers
first-IsMask = record {
  set = λ log v z. ground (arith, z);
  due = λ log v z. ground (arith, z);
  cleared = λ log v e. ground (arith, e);
  command = λ log v e. ground (arith, e);
  other = λ log p v nc np. ground (arith, nc, np);
  reads = λ log p v. refl;
}

second-IsMask : IsMask controllers 0xA0 0xA1
unfolding mask_of controllers
second-IsMask = record {
  set = λ log v z. ground (arith, z);
  due = λ log v z. ground (arith, z);
  cleared = λ log v e. ground (arith, e);
  command = λ log v e. ground (arith, e);
  other = λ log p v nc np. ground (arith, nc, np);
  reads = λ log p v. refl;
}

controllers-IsPic : IsPic controllers
controllers-IsPic = record { first = first-IsMask; second = second-IsMask }

abbrev masks : Log
masks = out_b pic1_data 0xFB ∷ out_b pic2_data 0x0F ∷ []

irq_masks_lem_example :
    (is_masked controllers (irq_set_mask controllers 12 masks) 4
      ≡ ((4 == 12) || is_masked controllers masks 4))
    × (is_masked controllers (irq_clear_mask controllers 12 masks) 4
        ≡ (not (4 == 12) && is_masked controllers masks 4))
irq_masks_lem_example =
    irq_masks_lem controllers controllers-IsPic masks refl refl 12 4 (omega arith) (omega arith)

pic_remap_lem_example :
    let after = pic_remap controllers 0x20 0x28 masks in
    (init_of 0x20 0x21 after ≡ record { left = 0; words = 0x01 ∷ 4 ∷ u8 0x20 ∷ 0x11 ∷ [] })
    × (init_of 0xA0 0xA1 after ≡ record { left = 0; words = 0x01 ∷ 2 ∷ u8 0x28 ∷ 0x11 ∷ [] })
    × (is_masked controllers after 9 ≡ is_masked controllers masks 9)
pic_remap_lem_example = pic_remap_lem controllers controllers-IsPic masks 0x20 0x28 9

-- Cpu 1 takes the free lock.
abbrev free_lock : Mutex.System
free_lock = record { m = 0; at = λ id. Mutex.outside }

abbrev locked : Mutex.System
locked = Mutex.move 1 (Mutex.move 1 free_lock)

lock-unlock_example :
    (locked.at 1 ≡ Mutex.inside)
    × (locked.m ≡ 2 ^ 1)
    × ((Mutex.move 1 locked).at 1 ≡ Mutex.outside)
    × ((Mutex.move 1 locked).m ≡ 0)
lock-unlock_example = lock-unlock free_lock 1 refl refl

inside_1 : locked.at 1 ≡ Mutex.inside
inside_1 = (lock-unlock free_lock 1 refl refl).0

abbrev cpu_1 : ℕ
cpu_1 = 1

Reachable-exclusive_example : (cpu_1 ≡ cpu_1) × (locked.m ≡ 2 ^ 1)
Reachable-exclusive_example =
    Reachable-exclusive (Mutex.moved 1 (Mutex.moved 1 Mutex.start)) 1 1 inside_1 inside_1

-- Two cpus at a word with two bits: both have looked at it, cpu 1 has got its bit.
abbrev raced : Race.System
raced =
    Race.move 0 1
      (Race.move 0 1 (Race.move 0 0 (record { words = 6 ∷ []; at = λ id. Claim.scan 0 })))

Reachable-fair_example :
    ((i b : ℕ) → got (raced.at i) ≡ some b → (has raced.words b ≡ false) × (has (6 ∷ []) b ≡ true))
    × ((i j b : ℕ) → got (raced.at i) ≡ some b → got (raced.at j) ≡ some b → i ≡ j)
    × ((b : ℕ)
        → has (6 ∷ []) b ≡ true
        → (has raced.words b ≡ true) ⊎ ((i : ℕ) × (got (raced.at i) ≡ some b)))
Reachable-fair_example =
    Race.Reachable-fair 0 (6 ∷ []) refl raced
      (Race.moved 1 (Race.moved 1 (Race.moved 0 Race.start)))

-- A write to a page that is there, from ring 3.
abbrev fault : StackFrame
fault = record {
  int_num = 0x0e;
  error_code = 7;
  rip = 0;
  cs = 0x23;
  rflags = 2;
  rsp = 0;
  ss = 0x1b;
}

high_interrupt_handler_lem_example :
    (apic_eois (high_interrupt_handler fault) ≡ 0)
    × (pic_eois (high_interrupt_handler fault) ≡ 0)
    × (hlts (high_interrupt_handler fault) ≡ 0)
    × (ends_in_halt (high_interrupt_handler fault) ≡ true)
high_interrupt_handler_lem_example = high_interrupt_handler_lem fault (omega arith)

fault_lines_lem_example :
    (reports 2 0 (fault_lines 8 0 7) ≡ ((2 == 0) && leb 0 2 && ltb 2 (0 + 8) && not (bt 0 7)))
    × (reports 2 1 (fault_lines 8 0 7) ≡ (not (2 == 0) && leb 0 2 && ltb 2 (0 + 8) && bt 2 7))
fault_lines_lem_example = fault_lines_lem 8 0 7 2
