-- ===== src/Cpu/Lapic.antt =====
-- kernel/drivers/cpu/lapic.c, kernel/include/lapic.h and kernel/drivers/timers/apic.c: the local
-- APIC and its timer. A handler is an address; the text that is logged is left out.
use Prim.Native.Nat.{bit_and, bit_or}
use borfos.Common.{ℕ, ◌+◌, ◌-◌, ◌^◌, true, not, Option, none, some, ◌∷◌, ◌==◌, if◌then◌else◌, u32}
use borfos.System.{Result, ok, panic}
use borfos.Memory.Kernel.{map_phaddr_in_kernel}
use borfos.Interrupts.{Interrupts, allocate_interrupts, set_kernel_interrupt_handler}
use borfos.Cpu.{Machine, has_bit, rdmsr32, wrmsr32, wrmsr64}

unfoldable pub lapic_write : ℕ → ℕ → Machine → Machine
lapic_write reg value s = record s {
  lapic_writes = (u32 (s.lapic_base + reg), value) ∷ s.lapic_writes;
}

-- `_lapic_eoi`
unfoldable pub end_of_interrupt : Machine → Machine
end_of_interrupt s = lapic_write 0xB0 0 s

unfoldable pub allocate_interrupt : Interrupts → Option ℕ × Interrupts
allocate_interrupt s = allocate_interrupts 0 s

-- What the constructor does with the result of `allocate_interrupt`.
unfoldable pub place_spurious : ℕ → Machine → Option ℕ × Interrupts → Result Machine
place_spurious handler s (none, i) = panic
place_spurious handler s (some spurious_intno, i) =
    let s1 = record s { interrupts = i } in
    let s2 = lapic_write 0x80 0 (lapic_write 0xF0 (bit_or spurious_intno 0x100) s1) in
    ok
      (record s2 { interrupts = set_kernel_interrupt_handler spurious_intno handler s2.interrupts })

-- The part of the constructor behind the test for an APIC; `v` is what it reads from the register 0x1B.
unfoldable pub enable_lapic : ℕ → ℕ → Machine → Result Machine
enable_lapic spurious_handler v s =
    let s1 = if not (has_bit v 11) then wrmsr32 0x1B (bit_or v (2 ^ 11)) s else s in
    let lapic_phaddr = bit_and v (2 ^ 32 - 4096) in
    let (base, memory) = map_phaddr_in_kernel lapic_phaddr 0 s1.memory in
    let s2 = record s1 { lapic_base = base; memory = memory } in
    let s3 = lapic_write 0xE0 0xFFFFFFFF s2 in
    place_spurious spurious_handler s3 (allocate_interrupt s3.interrupts)

unfoldable pub lapic_constructor : ℕ → Machine → Result Machine
lapic_constructor spurious_handler s =
    if not (has_bit s.features_edx 9)
    then ok s
    else enable_lapic spurious_handler (rdmsr32 0x1B s) s

unfoldable pub apic_set_timer : ℕ → Machine → Machine
apic_set_timer value s = wrmsr64 0x6E0 value s

-- What the constructor of the timer does with the result of `allocate_interrupt`.
unfoldable pub place_timer : ℕ → Machine → Option ℕ × Interrupts → Result Machine
place_timer handler s (none, i) = panic
place_timer handler s (some timer_intno, i) =
    let s1 = record s { interrupts = set_kernel_interrupt_handler timer_intno handler i } in
    let s2 = lapic_write 0x320 (bit_or 0x40000 timer_intno) s1 in
    ok (record s2 { timer_backend = true })

unfoldable pub apictimer_constructor : ℕ → Machine → Result Machine
apictimer_constructor apic_timer_handler s =
    if s.lapic_base == 0
    then panic
    else if not (has_bit s.features_ecx 24)
    then panic
    else place_timer apic_timer_handler s (allocate_interrupt s.interrupts)
