-- ===== src/Cpu/Handlers.antt =====
-- kernel/drivers/cpu/lapic.c and kernel/drivers/timers/apic.c: the handlers of the two interrupts.
use borfos.Common.{ℕ}
use borfos.System.{System, Result, ok, panic, ◌>>=◌}
use borfos.Timers.{timer_interrupt}
use borfos.Cpu.{Machine}
use borfos.Cpu.Kvm.{call_lapic_eoi}

-- It prints the registers, and PANIC.
unfoldable pub spurious_handler : ℕ → Machine → Result Machine
spurious_handler eoi m = panic

-- The end of the interrupt is told to the APIC before the timers are looked at.
unfoldable pub apic_timer_handler :
    (ℕ → ℕ) → (ℕ → ℕ → System → System) → ℕ → ℕ → Machine × System → Result (Machine × System)
apic_timer_handler tsc call fuel eoi (m, s) =
    let m1 = call_lapic_eoi eoi m in timer_interrupt tsc call fuel s >>= λ s1. ok (m1, s1)
