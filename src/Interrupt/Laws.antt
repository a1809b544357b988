-- ===== src/Interrupt/Laws.antt =====
-- Which interrupts are acknowledged, and what a page fault reports.
use bootcode.Base.{
  ℕ, zero, suc, ◌+◌, ◌<◌, ◌≡◌, refl, sym, ap, ◌∙◌, arith, inl, inr, Bool, Bool-cases, true, false,
  not, ◌&&◌, ◌||◌, ◌==◌, ltb, leb, if◌then◌else◌, List, [], ◌∷◌, ◌++◌,
}
use bootcode.Bits.{bt}
use bootcode.Interrupt.{
  StackFrame, Handler, null_func, page_fault_handler, pic_handler, test_ipi, handler_0x80,
  handler_0x81, handler_0x82, int_func, Action, print, bit_line, apic_eoi, pic_eoi, hlt, halt,
  fault_lines, run_handler, high_interrupt_handler,
}

-- How often the apic, and how often the cascaded controllers, are told of the end.
abbrev pub apic_eois : List Action → ℕ
apic_eois [] = 0
apic_eois (apic_eoi ∷ l) = apic_eois l + 1
apic_eois (_ ∷ l) = apic_eois l

abbrev pub pic_eois : List Action → ℕ
pic_eois [] = 0
pic_eois (pic_eoi irq ∷ l) = pic_eois l + 1
pic_eois (_ ∷ l) = pic_eois l

-- How often the cpu executes `hlt`.
abbrev pub hlts : List Action → ℕ
hlts [] = 0
hlts (hlt ∷ l) = hlts l + 1
hlts (_ ∷ l) = hlts l

-- The last action is the `out` of `halt`.
abbrev pub ends_in_halt : List Action → Bool
ends_in_halt [] = false
ends_in_halt (halt ∷ []) = true
ends_in_halt (_ ∷ l) = ends_in_halt l

-- The line on bit `j` with the value `v` is among the actions.
abbrev pub reports : ℕ → ℕ → List Action → Bool
reports j v [] = false
reports j v (bit_line i w ∷ l) = ((i == j) && (w == v)) || reports j v l
reports j v (_ ∷ l) = reports j v l

same_bit : (i j error_code : ℕ) → (i == j) ≡ true → bt i error_code ≡ bt j error_code
same_bit i j error_code e = ap (λ k. bt k error_code) (ground arith)

-- Over `left` bits of the error code from bit `i` on, the loop reports bit `j` as 0 exactly if `j` is
-- 0, is one of these bits and is clear, and as 1 exactly if `j` is another of these bits and is set.
pub fault_lines_lem :
    (left i error_code j : ℕ)
    → (reports j 0 (fault_lines left i error_code)
        ≡ ((j == 0) && leb i j && ltb j (i + left) && not (bt 0 error_code)))
      × (reports j 1 (fault_lines left i error_code)
          ≡ (not (j == 0) && leb i j && ltb j (i + left) && bt j error_code))
unfolding fault_lines
fault_lines_lem zero i error_code j = (ground arith, ground arith)
fault_lines_lem (suc left) i error_code j =
    let (r0, r1) = fault_lines_lem left (i + 1) error_code j in
    elim (Bool-cases (bt i error_code)) [
      | inl b ↦ elim (Bool-cases (i == 0)) [
        | inl z ↦
            rw (b, z)
              (
                ground (arith, r0, r1, z, b, same_bit i j error_code, same_bit i 0 error_code),
                ground (arith, r1, z, b, same_bit i j error_code),
              )
        | inr z ↦
            rw (b, z) (ground (arith, r0, z, b), ground (arith, r1, z, b, same_bit i j error_code))
      ]
      | inr b ↦ elim (Bool-cases (i == 0)) [
        | inl z ↦
            rw (b, z)
              (
                ground (arith, r0, z, b, same_bit i 0 error_code),
                ground (arith, r1, z, b, same_bit i j error_code),
              )
        | inr z ↦
            rw (b, z) (ground (arith, r0, z, b), ground (arith, r1, z, b, same_bit i j error_code))
      ]
    ]

no_eoi :
    (left i error_code : ℕ) (l k : List Action)
    → (apic_eois ((fault_lines left i error_code ++ l) ++ k) ≡ apic_eois (l ++ k))
      × (pic_eois ((fault_lines left i error_code ++ l) ++ k) ≡ pic_eois (l ++ k))
      × (hlts ((fault_lines left i error_code ++ l) ++ k) ≡ hlts (l ++ k))
unfolding fault_lines
no_eoi zero i error_code l k = (refl, refl, refl)
no_eoi (suc left) i error_code l k =
    let rest = no_eoi left (i + 1) error_code l k in
    elim (Bool-cases (bt i error_code)) [
      | inl b ↦ elim (Bool-cases (i == 0)) [ inl z ↦ rw (b, z) rest | inr z ↦ rw (b, z) rest ]
      | inr b ↦ elim (Bool-cases (i == 0)) [ inl z ↦ rw (b, z) rest | inr z ↦ rw (b, z) rest ]
    ]

abbrev is_test_ipi : Handler → Bool
is_test_ipi test_ipi = true
is_test_ipi _ = false

abbrev is_pic_handler : Handler → Bool
is_pic_handler pic_handler = true
is_pic_handler _ = false

abbrev is_handler_0x81 : Handler → Bool
is_handler_0x81 handler_0x81 = true
is_handler_0x81 _ = false

eois-run_handler :
    (h : Handler) (sf : StackFrame)
    → (apic_eois (run_handler h sf ++ (halt ∷ [])) ≡ (if is_test_ipi h then 1 else 0))
      × (pic_eois (run_handler h sf ++ (halt ∷ [])) ≡ (if is_pic_handler h then 1 else 0))
      × (hlts (run_handler h sf ++ (halt ∷ [])) ≡ (if is_handler_0x81 h then 1 else 0))
unfolding run_handler
eois-run_handler null_func sf = (refl, refl, refl)
eois-run_handler page_fault_handler sf = no_eoi 8 0 sf.error_code (print ∷ print ∷ []) (halt ∷ [])
eois-run_handler pic_handler sf = (refl, refl, refl)
eois-run_handler test_ipi sf = (refl, refl, refl)
eois-run_handler handler_0x80 sf = (refl, refl, refl)
eois-run_handler handler_0x81 sf = (refl, refl, refl)
eois-run_handler handler_0x82 sf = (refl, refl, refl)

int_func_pic : (v : ℕ) → is_pic_handler (int_func v) ≡ ((v == 0x20) || (v == 0x21))
unfolding int_func
int_func_pic v = ground arith

int_func_ipi : (v : ℕ) → is_test_ipi (int_func v) ≡ (v == 0x40)
unfolding int_func
int_func_ipi v = ground arith

int_func_0x81 : (v : ℕ) → is_handler_0x81 (int_func v) ≡ (v == 0x81)
unfolding int_func
int_func_0x81 v = ground arith

ends_in_halt-append : (l : List Action) → ends_in_halt (l ++ (halt ∷ [])) ≡ true
ends_in_halt-append [] = refl
ends_in_halt-append (print ∷ l) = ends_in_halt-append l
ends_in_halt-append (bit_line i v ∷ l) = ends_in_halt-append l
ends_in_halt-append (apic_eoi ∷ l) = ends_in_halt-append l
ends_in_halt-append (pic_eoi irq ∷ l) = ends_in_halt-append l
ends_in_halt-append (hlt ∷ l) = ends_in_halt-append l
ends_in_halt-append (halt ∷ []) = refl
ends_in_halt-append (halt ∷ (x ∷ l)) = ends_in_halt-append (x ∷ l)

-- For every vector of the table: the apic is told of the end of the interrupt exactly for the kick,
-- vector 0x40; only 0x20 and 0x21 acknowledge the cascaded controllers; only 0x81 executes `hlt`; and
-- for every vector but the kick, the last action before the handler returns is the `out` to the
-- port 0x3fa of `halt`.
pub high_interrupt_handler_lem :
    (sf : StackFrame)
    → sf.int_num < 256
    → (apic_eois (high_interrupt_handler sf) ≡ (if sf.int_num == 0x40 then 1 else 0))
      × (pic_eois (high_interrupt_handler sf)
          ≡ (if (sf.int_num == 0x20) || (sf.int_num == 0x21) then 1 else 0))
      × (hlts (high_interrupt_handler sf) ≡ (if sf.int_num == 0x81 then 1 else 0))
      × (ends_in_halt (high_interrupt_handler sf) ≡ not (sf.int_num == 0x40))
unfolding high_interrupt_handler
high_interrupt_handler_lem sf small = elim (Bool-cases (sf.int_num == 0x40)) [
  | inl e ↦
      let other : ((sf.int_num == 0x20) || (sf.int_num == 0x21)) ≡ false = ground (arith, e) in
      let runs_on : (sf.int_num == 0x81) ≡ false = ground (arith, e) in
      rw (e, other, runs_on) (refl, refl, refl, refl)
  | inr e ↦
      let (a, p, q) = eois-run_handler (int_func sf.int_num) sf in
      let none_ipi : is_test_ipi (int_func sf.int_num) ≡ false = int_func_ipi sf.int_num ∙ e in
      rw (e, sym (int_func_pic sf.int_num), sym (int_func_0x81 sf.int_num))
        (
          a ∙ ap (λ b. if b then 1 else 0) none_ipi,
          p,
          q,
          ends_in_halt-append (run_handler (int_func sf.int_num) sf),
        )
]
