-- ===== src/Interrupts.antt =====
-- kernel/drivers/cpu/idt.c and kernel/include/idt.h: the gates, the handlers, and the numbers in use. A handler is
-- an address, and its effect on the state `S` of the kernel a parameter.
pub mod Entry
pub mod Gates
pub mod Allocate
pub mod Tests
use borfos.Common.{
  ℕ, zero, suc, ◌+◌, ◌-◌, ◌*◌, ◌/◌, ◌%◌, ◌^◌, Bool, true, false, not, Option, none, some, leb, ltb,
  ◌==◌, ◌&&◌, if◌then◌else◌, u16,
}
use borfos.System.{Result, ok, panic, write}

-- The arrays `idt`, `handlers` and `used_interrupts`.
pub record Interrupts : Type 0 where
  pub offset_1 : ℕ → ℕ
  pub selector : ℕ → ℕ
  pub type_attr : ℕ → ℕ
  pub offset_2 : ℕ → ℕ
  pub handlers : ℕ → ℕ
  pub used_interrupts : ℕ → Bool

unfoldable pub set_gate : ℕ → ℕ → Interrupts → Interrupts
set_gate index offset s = record s {
  offset_1 = write s.offset_1 index (u16 offset);
  selector = write s.selector index 0x8;
  type_attr = write s.type_attr index 0x8e;
  offset_2 = write s.offset_2 index (u16 (offset / 2 ^ 16));
}

unfoldable pub set_interrupt_handler : ℕ → ℕ → ℕ → Interrupts → Interrupts
set_interrupt_handler int_no handler type_attr s = record s {
  type_attr = write s.type_attr int_no type_attr;
  handlers = write s.handlers int_no handler;
}

unfoldable pub set_kernel_interrupt_handler : ℕ → ℕ → Interrupts → Interrupts
set_kernel_interrupt_handler int_no handler s = set_interrupt_handler int_no handler 0x8e s

-- `isr_handler`: `call h s` is what the handler at `h` does; without one the kernel prints and stops.
unfoldable pub isr_handler {ℓ} : {S : Type ℓ} → (ℕ → S → S) → Interrupts → ℕ → S → Result S
isr_handler call i int_no s =
    if not (i.handlers int_no == 0) then ok (call (i.handlers int_no) s) else panic

-- `for(i = 0; i < count && !used_interrupts[base+i]; ++i);` with the rounds that are left.
unfoldable pub used_loop : ℕ → ℕ → ℕ → (ℕ → Bool) → ℕ
used_loop zero i base used = i
used_loop (suc rounds) i base used =
    let rest = used_loop rounds (i + 1) base used in if used (base + i) then i else rest

-- `memset(used_interrupts + base, 1, count)`
unfoldable pub mark_used : ℕ → ℕ → (ℕ → Bool) → ℕ → Bool
mark_used base count used x = if leb base x && ltb x (base + count) then true else used x

-- `for (; base < 0x100; base += count)`, for at most `rounds` rounds; -1 is `none`.
unfoldable pub base_loop : ℕ → ℕ → ℕ → Interrupts → Option ℕ × Interrupts
base_loop zero count base s = (none, s)
base_loop (suc rounds) count base s =
    let rest = base_loop rounds count (base + count) s in
    if ltb base 0x100
    then (if used_loop count 0 base s.used_interrupts == count
        then (some base, record s { used_interrupts = mark_used base count s.used_interrupts })
        else rest)
    else (none, s)

unfoldable pub allocate_interrupts : ℕ → Interrupts → Option ℕ × Interrupts
allocate_interrupts order s = if leb 0x8 order then (none, s) else base_loop 0x100 (2 ^ order) 0 s
