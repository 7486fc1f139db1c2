-- ===== src/Cpu/Tests.antt =====
-- The theorems about the processor at a machine with the first 32 interrupt numbers in use.
use borfos.Common.{
  ℕ, ◌+◌, ◌*◌, ◌^◌, ◌<◌, ◌≤◌, ◌≡◌, ◌≢◌, ◌↔◌, false, refl, arith, some, [], ◌==◌, if◌then◌else◌,
}
use borfos.System.{ok, panic, ◌>>=◌}
use borfos.Memory.Tests.{memory}
use borfos.Memory.Kernel.{map_phaddr_in_kernel}
use borfos.Interrupts.Tests.{exceptions}
use borfos.Cpu.{Machine, kvm_lapic_eoi, Leaf, cpuid_constructor}
use borfos.Cpu.Lapic.{lapic_constructor, apictimer_constructor, end_of_interrupt}
use borfos.Cpu.Kvm.{VcpuTime, tsc_to_nanoseconds, nanoseconds_to_tsc, call_lapic_eoi}
use borfos.Cpu.Support.{IsSupported, accepted, cpuid_constructor_iff, call_lapic_eoi-default}
use borfos.Cpu.Vectors.{IsServed, lapic_address, constructors-IsServed}
use borfos.Cpu.Time.{grain, nanoseconds_to_tsc-back}

abbrev machine : Machine
machine = record {
  flags = 0x202;
  features_ecx = 2 ^ 31 + 2 ^ 24;
  features_edx = 0x230;
  lapic_base = 0;
  lapic_eoi = kvm_lapic_eoi;
  msr = λ m. 0xFEE00900;
  lapic_writes = [];
  timer_backend = false;
  interrupts = exceptions;
  memory = memory;
}

abbrev leaves : ℕ → Leaf
leaves i =
    if i == 0
    then record { eax = 13; ebx = 0x756e6547; ecx = 0x6c65746e; edx = 0x49656e69 }
    else if i == 1
    then record { eax = 0; ebx = 0; ecx = 2 ^ 31 + 2 ^ 24; edx = 0x230 }
    else if i == 0x40000000
    then record { eax = 0x40000001; ebx = 0x4b4d564b; ecx = 0x564b4d56; edx = 0x4d }
    else record { eax = 0x49; ebx = 0; ecx = 0; edx = 0 }

-- Every bit of the flags can be set.
abbrev popf : ℕ → ℕ → ℕ
popf old new = new

cpuid_constructor_iff_example :
    ((cpuid_constructor popf leaves machine ≡ ok (accepted popf leaves machine))
      ↔ IsSupported popf leaves machine)
    × ((cpuid_constructor popf leaves machine ≡ panic) ↔ (IsSupported popf leaves machine → ⊥))
cpuid_constructor_iff_example = cpuid_constructor_iff popf leaves machine

call_lapic_eoi-default_example : call_lapic_eoi 0xc0100030 machine ≡ end_of_interrupt machine
call_lapic_eoi-default_example = call_lapic_eoi-default 0xc0100030 machine (omega arith)

-- A time stamp counter of 500 MHz.
abbrev clock : VcpuTime
clock = record { tsc_timestamp = 0; system_time = 0; tsc_to_system_mul = 2 ^ 31; tsc_shift = 2 }

nanoseconds_to_tsc-back_example :
    (t : ℕ) × (nanoseconds_to_tsc clock 1000 ≡ some t)
    × (tsc_to_nanoseconds clock t ≤ 1000)
    × (1000 * 2 ^ 32 < (tsc_to_nanoseconds clock t + 1) * 2 ^ 32 + grain clock * 2 ^ 31)
nanoseconds_to_tsc-back_example =
    nanoseconds_to_tsc-back clock 1000 (omega arith) (omega arith) (omega arith)

-- At 2.5 GHz the shift is -1.
abbrev fast_clock : VcpuTime
fast_clock = record clock { tsc_to_system_mul = 3435973837; tsc_shift = 255 }

back_negative :
    (t : ℕ) × (nanoseconds_to_tsc fast_clock 1000 ≡ some t)
    × (tsc_to_nanoseconds fast_clock t ≤ 1000)
    × (1000 * 2 ^ 32
        < (tsc_to_nanoseconds fast_clock t + 1) * 2 ^ 32 + grain fast_clock * 3435973837)
back_negative = nanoseconds_to_tsc-back fast_clock 1000 (omega arith) (omega arith) (omega arith)

mapped : (map_phaddr_in_kernel (lapic_address machine) 0 memory).0 ≢ 0
unfolding map_phaddr_in_kernel borfos.Memory.Pool.vaddr_allocate borfos.Memory.Pool.allocate
    borfos.Memory.Kernel.place_mapping borfos.Memory.Pool.find_order borfos.Links.list_is_empty
    borfos.Memory.Pool.split_loop borfos.Memory.Pool.split borfos.Links.list_insert_before
    borfos.Links.list_remove
mapped z =
    let e : (map_phaddr_in_kernel 0xFEE00000 0 memory).0 ≡ 3221241856 = refl in
    absurd (omega (arith, z, e))

constructors-IsServed_example :
    (s' : Machine) × (spurious timer : ℕ) × ((lapic_constructor 5000 machine
        >>= apictimer_constructor 6000)
      ≡ ok s')
    × IsServed 5000 6000 machine s' spurious timer
constructors-IsServed_example =
    constructors-IsServed 5000 6000 0x20 0x21 machine refl refl mapped (omega arith) (omega arith)
      refl refl
