-- ===== src/Cpu.antt =====
-- kernel/drivers/cpu/cpuid.c, kernel/include/cpuid.h and kernel/include/asm.h: the features of the
-- processor, and the state of the machine that the drivers of this folder share. What the
-- instruction `cpuid` returns, and what `popf` makes of the flags, are parameters.
pub mod Lapic
pub mod Kvm
pub mod Handlers
pub mod Support
pub mod Numbers
pub mod Vectors
pub mod Time
mod Tests
use Prim.Native.Nat.{bit_and, bit_xor}
use borfos.Common.{
  ℕ, ◌+◌, ◌*◌, ◌^◌, Bool, true, false, not, List, ◌∷◌, ◌==◌, ◌||◌, if◌then◌else◌, u32,
}
use borfos.System.{Result, ok, panic, write}
use borfos.Memory.Kernel.{Memory}
use borfos.Interrupts.{Interrupts}

-- What `lapic_eoi` points to.
pub data EoiHandler : Type 0 where
  default_lapic_eoi : EoiHandler
  kvm_lapic_eoi : EoiHandler

-- The flags, `cpuid`, `lapic_base`, `lapic_eoi`, the model-specific registers, the writes to the
-- registers of the APIC, the last one first, whether `timer_backend_set` is set, and the state of
-- idt.c and of mem.c.
pub record Machine : Type 0 where
  pub flags : ℕ
  pub features_ecx : ℕ
  pub features_edx : ℕ
  pub lapic_base : ℕ
  pub lapic_eoi : EoiHandler
  pub msr : ℕ → ℕ
  pub lapic_writes : List (ℕ × ℕ)
  pub timer_backend : Bool
  pub interrupts : Interrupts
  pub memory : Memory

-- What `CPUID(i, eax, ebx, ecx, edx)` reads.
pub record Leaf : Type 0 where
  pub eax : ℕ
  pub ebx : ℕ
  pub ecx : ℕ
  pub edx : ℕ

-- `v & (1 << n)`, as a condition.
abbrev pub has_bit : ℕ → ℕ → Bool
has_bit v n = not (bit_and v (2 ^ n) == 0)

unfoldable pub get_flags : Machine → ℕ
get_flags s = s.flags

-- `popf flags r`: the flags behind a `popf` of `r`.
unfoldable pub set_flags : (ℕ → ℕ → ℕ) → ℕ → Machine → Machine
set_flags popf r s = record s { flags = popf s.flags r }

unfoldable pub rdmsr32 : ℕ → Machine → ℕ
rdmsr32 msr s = u32 (s.msr msr)

unfoldable pub wrmsr32 : ℕ → ℕ → Machine → Machine
wrmsr32 msr v s = record s { msr = write s.msr msr v }

unfoldable pub wrmsr64 : ℕ → ℕ → Machine → Machine
wrmsr64 msr v s = record s { msr = write s.msr msr v }

-- The result of the test, and the state after it.
unfoldable pub has_cpuid : (ℕ → ℕ → ℕ) → Machine → Bool × Machine
has_cpuid popf s =
    let orig_flags = get_flags s in
    let s1 = set_flags popf (bit_xor orig_flags 0x200000) s in
    let new_flags = get_flags s1 in
    (not (bit_and new_flags 0x200000 == bit_and orig_flags 0x200000), s1)

unfoldable pub cpuid_constructor : (ℕ → ℕ → ℕ) → (ℕ → Leaf) → Machine → Result Machine
cpuid_constructor popf cpuid s =
    let (has, s1) = has_cpuid popf s in
    let vendor = cpuid 0 in
    let f = cpuid 1 in
    let s2 = record s1 { features_ecx = f.ecx; features_edx = f.edx } in
    if not has
    then panic
    else if not (vendor.ebx == 0x756e6547)
        || (not (vendor.edx == 0x49656e69) || not (vendor.ecx == 0x6c65746e))
    then panic
    else if not (has_bit f.edx 4)
    then panic
    else if not (has_bit f.edx 5)
    then panic
    else if not (has_bit f.ecx 31)
    then panic
    else ok s2
