-- ===== src/Mm/Walk.antt =====
-- The entry that the walk arrives at.
use bootcode.Base.{
  ℕ, zero, suc, ◌+◌, ◌*◌, ◌/◌, ◌%◌, ◌^◌, ◌<◌, ◌≡◌, refl, sym, ap, ◌∙◌, arith, bit_and,
  if◌then◌else◌, ◌==◌, Option, none, some, update, update_ne, false, Option-cases, inl, inr,
}
use mathlib.Core.Path.{fun_ext}
use bootcode.Mm.{emask, Pe, entry_num, store_pe, store_slot, addr_to_pde}
use bootcode.Mm.Mask.{bit_and-emask}

-- The table that an entry (or cr3) refers to: the address is in its bits 12 to 51.
abbrev pub frame : ℕ → ℕ
frame entry = entry % 2 ^ 52 / 2 ^ 12 * 2 ^ 12

-- An entry whose bits 10, 11 and 52 to 55 are clear, which the processor leaves to the system.
abbrev pub IsPlain : ℕ → Type 0
IsPlain entry = (entry / 2 ^ 10 % 4 ≡ 0) × (entry / 2 ^ 52 % 16 ≡ 0)

-- The entry for `addr` in the table that the entry `base` refers to, where an entry of the table
-- stands for `size` bytes.
abbrev entry_of : ℕ → ℕ → ℕ → ℕ
entry_of base addr size = frame base + addr / size % 512 * 8

module _ (mem : ℕ → ℕ) (cr3 addr : ℕ) where
  abbrev pub pml4_entry : ℕ
  pml4_entry = entry_of cr3 addr (2 ^ 39)

  abbrev pub pdpt_entry : ℕ
  pdpt_entry = entry_of (mem pml4_entry) addr (2 ^ 30)

  abbrev pub pd_entry : ℕ
  pd_entry = entry_of (mem pdpt_entry) addr (2 ^ 21)

-- What a caller's word holds after the call: the first three get the entries.
abbrev new_word : ℕ → ℕ → ℕ → ℕ → ℕ → ℕ
new_word a b c i old = if i == 0 then a else (if i == 1 then b else (if i == 2 then c else old))

abbrev word_with : ℕ → ℕ → ℕ → ℕ → Option ℕ → Option ℕ
word_with a b c i none = none
word_with a b c i (some old) = some (new_word a b c i old)

abbrev pub words_with : ℕ → ℕ → ℕ → Pe → Pe
words_with a b c none = none
words_with a b c (some slots) = some (λ i. word_with a b c i (slots i))

-- The three indices, of the address without its low 21 bits as the walk takes them.
digits :
    (addr : ℕ)
    → (entry_num (addr / 2 ^ 21) 0 ≡ addr / 2 ^ 39 % 512)
      × (entry_num (addr / 2 ^ 21) 1 ≡ addr / 2 ^ 30 % 512)
      × (entry_num (addr / 2 ^ 21) 2 ≡ addr / 2 ^ 21 % 512)
digits addr = (omega arith, omega arith, omega arith)

-- `& EMASK` gives the frame of a plain entry.
frame_lem : (entry : ℕ) → IsPlain entry → bit_and entry emask ≡ frame entry
frame_lem entry (low, high) = bit_and-emask entry ∙ omega (arith, low, high)

stored_at :
    (a b c : ℕ) (slots : ℕ → Option ℕ) (i : ℕ)
    → update
        (update (update slots 0 (store_slot (slots 0) a)) 1 (store_slot (slots 1) b))
        2
        (store_slot (slots 2) c)
        i
      ≡ word_with a b c i (slots i)
stored_at a b c slots zero = elim (Option-cases (slots 0)) [
  | inl e ↦ rw e refl
  | inr (old, e) ↦ rw e refl
]
stored_at a b c slots (suc zero) = elim (Option-cases (slots 1)) [
  | inl e ↦ rw e refl
  | inr (old, e) ↦ rw e refl
]
stored_at a b c slots (suc (suc zero)) = elim (Option-cases (slots 2)) [
  | inl e ↦ rw e refl
  | inr (old, e) ↦ rw e refl
]
stored_at a b c slots (suc (suc (suc i))) =
    let n = suc (suc (suc i)) in
    let s0 = update slots 0 (store_slot (slots 0) a) in
    let s1 = update s0 1 (store_slot (slots 1) b) in
    let not_0 : (n == 0) ≡ false = ground arith in
    let not_1 : (n == 1) ≡ false = ground arith in
    let not_2 : (n == 2) ≡ false = ground arith in
    let same : word_with a b c n (slots n) ≡ slots n = elim (Option-cases (slots n)) [
      | inl e ↦ rw e refl
      | inr (old, e) ↦ rw (e, not_0, not_1, not_2) refl
    ] in
    update_ne s1 2 n (store_slot (slots 2) c) (omega arith)
    ∙ update_ne s0 1 n (store_slot (slots 1) b) (omega arith)
    ∙ update_ne slots 0 n (store_slot (slots 0) a) (omega arith)
    ∙ sym same

stored : (a b c : ℕ) (pe : Pe) → store_pe (store_pe (store_pe pe 0 a) 1 b) 2 c ≡ words_with a b c pe
stored a b c none = refl
stored a b c (some slots) = ap some (fun_ext (stored_at a b c slots))

-- Where cr3 and the two entries on the way have their bits 10, 11 and 52 to 55 clear, `addr_to_pde`
-- returns the entry of the page directory, found as the processor finds it: each entry has the
-- address of the next table in its bits 12 to 51, and the tables are indexed by nine bits of the
-- address each (39 to 47, 30 to 38, 21 to 29). The words that the first three slots of `pe` point to
-- get the addresses of the three entries; a slot without a word, and the others, stay as they are.
pub addr_to_pde_lem :
    (mem : ℕ → ℕ) (cr3 addr : ℕ) (pe : Pe)
    → IsPlain cr3
    → IsPlain (mem (pml4_entry mem cr3 addr))
    → IsPlain (mem (pdpt_entry mem cr3 addr))
    → addr_to_pde mem cr3 addr pe ≡ (
      pd_entry mem cr3 addr,
      words_with (pml4_entry mem cr3 addr) (pdpt_entry mem cr3 addr) (pd_entry mem cr3 addr) pe,
    )
unfolding addr_to_pde
addr_to_pde_lem mem cr3 addr pe p0 p1 p2 =
    let (a, b, c) = digits addr in
    rw
      (
        a,
        b,
        c,
        frame_lem cr3 p0,
        frame_lem (mem (pml4_entry mem cr3 addr)) p1,
        frame_lem (mem (pdpt_entry mem cr3 addr)) p2,
      )
      (ap (λ w. (pd_entry mem cr3 addr, w))
        (stored (pml4_entry mem cr3 addr) (pdpt_entry mem cr3 addr) (pd_entry mem cr3 addr) pe))

-- Two addresses in one region of 2 MB have the same entries on every level, whatever the tables
-- hold.
pub addr_to_pde-region :
    (mem : ℕ → ℕ) (cr3 n off : ℕ) (pe : Pe)
    → off < 2 ^ 21
    → addr_to_pde mem cr3 (n * 2 ^ 21 + off) pe ≡ addr_to_pde mem cr3 (n * 2 ^ 21) pe
unfolding addr_to_pde
addr_to_pde-region mem cr3 n off pe h =
    let e : (n * 2 ^ 21 + off) / 2 ^ 21 ≡ n * 2 ^ 21 / 2 ^ 21 = omega arith in rw e refl
