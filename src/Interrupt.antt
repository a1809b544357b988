-- ===== src/Interrupt.antt =====
-- src/interrupt.c: the dispatch of an interrupt to its handler, and the report of a page fault. What
-- the handlers print counts as one action a message, without its text.
pub mod Laws
use bootcode.Base.{
  ℕ, zero, suc, ◌+◌, ◌-◌, Bool, true, false, ◌==◌, if◌then◌else◌, List, [], ◌∷◌, ◌++◌, u8, sub64,
  ltb,
}
use bootcode.Bits.{bt}
use bootcode.Pic.{Log, pic_send_eoi}

-- `struct stack_frame_err_t`
pub record StackFrame : Type 0 where
  pub int_num : ℕ
  pub error_code : ℕ
  pub rip : ℕ
  pub cs : ℕ
  pub rflags : ℕ
  pub rsp : ℕ
  pub ss : ℕ

-- The functions that `int_func` names.
pub data Handler : Type 0 where
  null_func : Handler
  page_fault_handler : Handler
  pic_handler : Handler
  test_ipi : Handler
  handler_0x80 : Handler
  handler_0x81 : Handler
  handler_0x82 : Handler

-- The table `int_func`, its lower and its upper half.
abbrev pub low_int_func : ℕ → Handler
low_int_func v =
    if v == 0x0e
    then page_fault_handler
    else (if v == 0x20
        then pic_handler
        else (if v == 0x21 then pic_handler else (if v == 0x40 then test_ipi else null_func)))

abbrev pub high_int_func : ℕ → Handler
high_int_func v =
    if v == 0x80
    then handler_0x80
    else (if v == 0x81 then handler_0x81 else (if v == 0x82 then handler_0x82 else null_func))

unfoldable pub int_func : ℕ → Handler
int_func v = if ltb v 0x80 then low_int_func v else high_int_func v

-- What a handler does: a message, a line on bit `i` of the error code of a page fault, a write to
-- the end-of-interrupt register of the apic, `PIC_sendEOI`, or a halt.
pub data Action : Type 0 where
  print : Action
  bit_line : (i value : ℕ) → Action
  apic_eoi : Action
  pic_eoi : (irq : ℕ) → Action
  hlt : Action
  halt : Action

-- `pf_err_code[i][0] == '0'`: the text of bit 0 is for a cleared bit, the others for a set one.
abbrev pub begins_with_0 : ℕ → Bool
begins_with_0 i = i == 0

-- The `for` over the bits of the error code, with `left` rounds to go.
unfoldable pub fault_lines : ℕ → ℕ → ℕ → List Action
fault_lines zero i error_code = []
fault_lines (suc left) i error_code =
    let rest = fault_lines left (i + 1) error_code in
    if bt i error_code
    then (if begins_with_0 i then rest else bit_line i 1 ∷ rest)
    else (if begins_with_0 i then bit_line i 0 ∷ rest else rest)

unfoldable pub run_handler : Handler → StackFrame → List Action
run_handler null_func sf = print ∷ []
run_handler page_fault_handler sf = print ∷ fault_lines 8 0 sf.error_code ++ (print ∷ print ∷ [])
run_handler pic_handler sf = pic_eoi (u8 (sub64 sf.int_num 0x20)) ∷ []
run_handler test_ipi sf = apic_eoi ∷ []
run_handler handler_0x80 sf = print ∷ []
run_handler handler_0x81 sf = print ∷ hlt ∷ []
run_handler handler_0x82 sf = []

-- The eight lines on the frame, and the line on the stacks before them.
abbrev frame_lines : List Action
frame_lines = print ∷ print ∷ print ∷ print ∷ print ∷ print ∷ print ∷ print ∷ print ∷ []

-- A kick, vector 0x40, is only acknowledged; after any other handler comes `halt`, and the return.
unfoldable pub high_interrupt_handler : StackFrame → List Action
high_interrupt_handler sf =
    if sf.int_num == 0x40
    then apic_eoi ∷ []
    else frame_lines ++ (run_handler (int_func sf.int_num) sf ++ (halt ∷ []))
