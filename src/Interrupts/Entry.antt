-- ===== src/Interrupts/Entry.antt =====
-- kernel/drivers/cpu/isr.h and idt.c: the entries of the 256 interrupts, the common code that they
-- jump to, and the constructor that fills the table. The stack is the list of its words, the top first.
use borfos.Common.{
  ℕ, zero, suc, ◌+◌, ◌≡◌, refl, ◌∙◌, inl, inr, Bool, true, false, List, ◌∷◌, ◌==◌, ◌||◌, ◌&&◌, leb,
  Option, some, none, Bool-cases, if◌then◌else◌,
}
use borfos.Interrupts.{Interrupts, set_gate, mark_used}

-- The registers that the code saves, and the stack. `esp` is not among them: `popa` passes over it.
pub record Registers : Type 0 where
  pub eax : ℕ
  pub ecx : ℕ
  pub edx : ℕ
  pub ebx : ℕ
  pub ebp : ℕ
  pub esi : ℕ
  pub edi : ℕ
  pub ds : ℕ
  pub es : ℕ
  pub fs : ℕ
  pub gs : ℕ

-- `int_regs_t`, the words from the top of the stack on; `esp` is what `pusha` stores of it.
pub record IntRegs : Type 0 where
  pub regs : Registers
  pub esp : ℕ
  pub int_no : ℕ
  pub err_code : ℕ
  pub eip : ℕ
  pub cs : ℕ
  pub eflags : ℕ

-- Whether isr.h has `ISRE(n)`, for an exception of which the processor pushes an error code, or `ISR(n)`.
unfoldable pub has_error_code : ℕ → Bool
has_error_code n = n == 8 || (leb 10 n && leb n 14)

-- `_isr` and the number: `ISR` pushes 0 in place of the error code.
unfoldable pub isr_entry : ℕ → List ℕ → List ℕ
isr_entry n stack = if has_error_code n then n ∷ stack else n ∷ 0 ∷ stack

-- `pusha` and the pushes of the segment registers; `esp` is the stack pointer before.
unfoldable pub isr_save : ℕ → Registers → List ℕ → List ℕ
isr_save esp r stack =
    r.gs ∷ r.fs ∷ r.es ∷ r.ds ∷ r.edi ∷ r.esi ∷ r.ebp ∷ esp ∷ r.ebx ∷ r.edx ∷ r.ecx ∷ r.eax ∷ stack

-- What `isr_handler` sees at the stack pointer, and the rest of the stack.
unfoldable pub int_regs : List ℕ → Option (IntRegs × List ℕ)
int_regs
      (gs ∷ fs ∷ es ∷ ds ∷ edi ∷ esi ∷ ebp ∷ esp ∷ ebx ∷ edx ∷ ecx ∷ eax ∷ n ∷ err ∷ eip ∷ cs
        ∷ eflags ∷ stack) =
    some (
      record {
        regs = record {
          eax = eax;
          ecx = ecx;
          edx = edx;
          ebx = ebx;
          ebp = ebp;
          esi = esi;
          edi = edi;
          ds = ds;
          es = es;
          fs = fs;
          gs = gs;
        };
        esp = esp;
        int_no = n;
        err_code = err;
        eip = eip;
        cs = cs;
        eflags = eflags;
      },
      stack,
    )
int_regs stack = none

-- The pops behind the call, `add $8, %esp`, and what `iret` finds.
unfoldable pub isr_restore : List ℕ → Option (Registers × List ℕ)
isr_restore (gs ∷ fs ∷ es ∷ ds ∷ edi ∷ esi ∷ ebp ∷ esp ∷ ebx ∷ edx ∷ ecx ∷ eax ∷ n ∷ err ∷ stack) =
    some (
      record {
        eax = eax;
        ecx = ecx;
        edx = edx;
        ebx = ebx;
        ebp = ebp;
        esi = esi;
        edi = edi;
        ds = ds;
        es = es;
        fs = fs;
        gs = gs;
      },
      stack,
    )
isr_restore stack = none

-- The words that the processor pushes: the frame of `iret`, and an error code where it has one.
abbrev pub pushed : Bool → ℕ → List ℕ → List ℕ
pushed codes err frame = if codes then err ∷ frame else frame

module _ (codes : ℕ → Bool) (n err esp eip cs eflags : ℕ) (r : Registers) (stack : List ℕ) where
  abbrev pub saved : List ℕ
  saved = isr_save esp r (isr_entry n (pushed (codes n) err (eip ∷ cs ∷ eflags ∷ stack)))

  -- For an interrupt of which the processor pushes an error code if and only if isr.h says so, the handler
  -- sees the number, the error code or 0, the registers and the frame in the fields of `int_regs_t`,
  -- and if it leaves them alone, the code behind it restores the registers and leaves the frame for
  -- `iret`.
  pub isr_save-restore :
      codes n ≡ has_error_code n
      → (int_regs saved
          ≡ some (
            record {
              regs = r;
              esp = esp;
              int_no = n;
              err_code = if has_error_code n then err else 0;
              eip = eip;
              cs = cs;
              eflags = eflags;
            },
            stack,
          ))
        × (isr_restore saved ≡ some (r, eip ∷ cs ∷ eflags ∷ stack))
  unfolding int_regs isr_restore isr_save isr_entry
  isr_save-restore h = elim (Bool-cases (has_error_code n)) [
    | inl e ↦ let c : codes n ≡ true = h ∙ e in rw (c, e) (refl, refl)
    | inr e ↦ let c : codes n ≡ false = h ∙ e in rw (c, e) (refl, refl)
  ]

-- `set_gate` for the numbers from `n` on, of which there are `rounds`; `isr n` is the address of `_isr` and `n`.
unfoldable pub set_gates : (ℕ → ℕ) → ℕ → ℕ → Interrupts → Interrupts
set_gates isr zero n s = s
set_gates isr (suc rounds) n s = set_gates isr rounds (n + 1) (set_gate n (isr n) s)

-- `CONSTRUCTOR(idt)`
unfoldable pub idt_constructor : (ℕ → ℕ) → Interrupts → Interrupts
idt_constructor isr s =
    let s1 = set_gates isr 256 0 s in
    record s1 { used_interrupts = mark_used 0 0x20 s1.used_interrupts }
