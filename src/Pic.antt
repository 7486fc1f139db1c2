-- ===== src/Pic.antt =====
-- kernel/drivers/pic.c: the masks and handlers of the two interrupt controllers. A handler is an
-- address, and its effect on the state `S` of the kernel a parameter.
pub mod Start
pub mod Lines
pub mod Changes
mod Tests
use Prim.Native.Nat.{bit_and, bit_or}
use borfos.Common.{
  zero, suc, ◌+◌, Option, none, some, ℕ, ◌-◌, ◌%◌, ◌^◌, not, List, ◌∷◌, leb, ltb, ◌==◌,
  if◌then◌else◌, u8, sub32,
}
use borfos.Interrupts.{Interrupts, set_kernel_interrupt_handler, allocate_interrupts}
use borfos.System.{Result, ok, panic, write}

-- `irq_mask`, `handlers`, and the writes to the ports, the last one first.
pub record Pic : Type 0 where
  pub irq_mask_0 : ℕ
  pub irq_mask_1 : ℕ
  pub handlers : ℕ → ℕ
  pub ports : List (ℕ × ℕ)

abbrev out : ℕ → ℕ → Pic → Pic
out port value s = record s { ports = (port, value) ∷ s.ports }

-- The number of the line.
abbrev irq_of : ℕ → ℕ
irq_of int_no = u8 (sub32 int_no 0x20)

-- The ends of interrupt.
unfoldable pub acknowledge : ℕ → Pic → Pic
acknowledge irq s = out 0x20 0x20 (if leb 8 irq then out 0xA0 0x20 s else s)

-- `pic_handler`; without a handler the kernel prints and stops.
unfoldable pub pic_handler {ℓ} : {S : Type ℓ} → (ℕ → S → S) → ℕ → Pic → S → Result (Pic × S)
pic_handler call int_no p s =
    let irq = irq_of int_no in
    if not (p.handlers irq == 0) then ok (acknowledge irq p, call (p.handlers irq) s) else panic

unfoldable pub set_mask : Pic → Pic
set_mask s = out 0xA1 s.irq_mask_1 (out 0x21 s.irq_mask_0 s)

unfoldable pub pic_set_handler : ℕ → ℕ → Pic → Pic
pic_set_handler irq handler s = record s { handlers = write s.handlers irq handler }

-- `mask &= ~(1 << bit)` and `mask |= 1 << bit` on a byte.
abbrev clear_bit : ℕ → ℕ → ℕ
clear_bit mask bit = bit_and mask (0xFF - 2 ^ bit)

abbrev set_bit : ℕ → ℕ → ℕ
set_bit mask bit = bit_or mask (2 ^ bit)

unfoldable pub pic_unmask : ℕ → Pic → Pic
pic_unmask irq s =
    if ltb irq 8
    then set_mask (record s { irq_mask_0 = clear_bit s.irq_mask_0 (irq % 8) })
    else (let mask = clear_bit s.irq_mask_1 (irq % 8) in
        set_mask (record s {
          irq_mask_1 = mask;
          irq_mask_0 = if not (mask == 0xFF) then clear_bit s.irq_mask_0 2 else s.irq_mask_0;
        }))

unfoldable pub pic_mask : ℕ → Pic → Pic
pic_mask irq s =
    if ltb irq 8
    then set_mask (record s { irq_mask_0 = set_bit s.irq_mask_0 (irq % 8) })
    else (let mask = set_bit s.irq_mask_1 (irq % 8) in
        set_mask (record s {
          irq_mask_1 = mask;
          irq_mask_0 = if mask == 0xFF then set_bit s.irq_mask_0 2 else s.irq_mask_0;
        }))

-- The port writes of CONSTRUCTOR(pic), its first lines.
unfoldable pub pic_setup : Pic → Pic
pic_setup s =
    let s1 = out 0xA0 0x11 (out 0x20 0x11 s) in
    let s2 = out 0xA1 0x28 (out 0x21 0x20 s1) in
    let s3 = out 0xA1 0x02 (out 0x21 0x04 s2) in
    let s4 = out 0xA1 0x01 (out 0x21 0x01 s3) in set_mask s4

-- The loop of CONSTRUCTOR(pic) over the numbers of the lines.
unfoldable pub install_loop : ℕ → ℕ → ℕ → Interrupts → Interrupts
install_loop zero int_no handler s = s
install_loop (suc rounds) int_no handler s =
    install_loop rounds (int_no + 1) handler (set_kernel_interrupt_handler int_no handler s)

-- What the constructor does with the result of `allocate_interrupts`; `handler` is the address of
-- `pic_handler`. The first number is not used.
unfoldable pub install_handlers : ℕ → Pic → Option ℕ × Interrupts → Result (Pic × Interrupts)
install_handlers handler p (none, s) = panic
install_handlers handler p (some base, s) = ok (p, install_loop 16 0x20 handler s)

-- CONSTRUCTOR(pic)
unfoldable pub pic_constructor : ℕ → Pic → Interrupts → Result (Pic × Interrupts)
pic_constructor handler p s = install_handlers handler (pic_setup p) (allocate_interrupts 4 s)
