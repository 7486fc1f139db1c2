-- ===== src/Interrupts/Tests.antt =====
-- The theorem about the numbers of interrupts with the first 32 in use.
use borfos.Common.{◌+◌, ◌*◌, ◌%◌, ◌≡◌, refl, arith, true, ltb, if◌then◌else◌, [], ◌∷◌, some}
use borfos.Interrupts.{Interrupts}
use borfos.Interrupts.Entry.{
  Registers, has_error_code, int_regs, isr_restore, saved, isr_save-restore, idt_constructor,
}
use borfos.Interrupts.Gates.{IsGate, idt_constructor-gates}

abbrev pub exceptions : Interrupts
exceptions = record {
  offset_1 = λ i. 0;
  selector = λ i. 0;
  type_attr = λ i. 0;
  offset_2 = λ i. 0;
  handlers = λ i. 0;
  used_interrupts = λ i. ltb i 0x20;
}

abbrev registers : Registers
registers = record {
  eax = 1;
  ecx = 2;
  edx = 3;
  ebx = 4;
  ebp = 5;
  esi = 6;
  edi = 7;
  ds = 16;
  es = 16;
  fs = 16;
  gs = 16;
}

-- A page fault.
isr_save-restore_example :
    (int_regs (saved has_error_code 14 2 9000 4096 8 0x202 registers [])
      ≡ some (
        record {
          regs = registers;
          esp = 9000;
          int_no = 14;
          err_code = 2;
          eip = 4096;
          cs = 8;
          eflags = 0x202;
        },
        [],
      ))
    × (isr_restore (saved has_error_code 14 2 9000 4096 8 0x202 registers [])
        ≡ some (registers, 4096 ∷ 8 ∷ 0x202 ∷ []))
unfolding has_error_code
isr_save-restore_example = isr_save-restore has_error_code 14 2 9000 4096 8 0x202 registers [] refl

idt_constructor-gates_example :
    IsGate (idt_constructor (λ n. 4096 + n % 256 * 16) exceptions) 33 4624
    × ((idt_constructor (λ n. 4096 + n % 256 * 16) exceptions).handlers 33 ≡ 0)
    × ((idt_constructor (λ n. 4096 + n % 256 * 16) exceptions).used_interrupts 33
        ≡ (if ltb 33 0x20 then true else ltb 33 0x20))
idt_constructor-gates_example =
    idt_constructor-gates (λ n. 4096 + n % 256 * 16) exceptions 33 (λ i. omega arith) (omega arith)
