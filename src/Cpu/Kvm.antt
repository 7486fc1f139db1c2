-- ===== src/Cpu/Kvm.antt =====
-- kernel/drivers/cpu/kvm.c and kernel/include/pvclock-abi.h: the clock of the hypervisor. What it
-- writes to `wall_clock` and `system_time` is a parameter; `int8_t tsc_shift` is its byte.
use Prim.Native.Nat.{bit_or}
use borfos.Common.{
  ℕ, ◌+◌, ◌-◌, ◌*◌, ◌/◌, ◌^◌, Bool, not, Option, none, some, ltb, ◌==◌, ◌||◌, if◌then◌else◌, u32,
  u64,
}
use borfos.System.{Result, ok, panic, ◌>>=◌}
use borfos.Memory.{pa}
use borfos.Cpu.{Machine, default_lapic_eoi, kvm_lapic_eoi, Leaf, has_bit, wrmsr32}
use borfos.Cpu.Lapic.{end_of_interrupt}

-- `pvclock_vcpu_time_info_t`, but for the version, the flags and the padding.
pub record VcpuTime : Type 0 where
  pub tsc_timestamp : ℕ
  pub system_time : ℕ
  pub tsc_to_system_mul : ℕ
  pub tsc_shift : ℕ

-- `pvclock_wall_clock_t`
pub record WallClock : Type 0 where
  pub sec : ℕ
  pub nsec : ℕ

-- `tsc_shift >= 0`, and `-tsc_shift` of a negative one.
abbrev pub shifts_left : VcpuTime → Bool
shifts_left c = ltb c.tsc_shift 128

abbrev pub negated_shift : VcpuTime → ℕ
negated_shift c = 256 - c.tsc_shift

unfoldable pub tsc_to_nanoseconds : VcpuTime → ℕ → ℕ
tsc_to_nanoseconds c tsc =
    let r = if shifts_left c then u64 (tsc * 2 ^ c.tsc_shift) else tsc / 2 ^ negated_shift c in
    u64 (r * c.tsc_to_system_mul) / 2 ^ 32

-- `tsc` is what `rdtsc` returns.
unfoldable pub now_in_nanoseconds : VcpuTime → ℕ → ℕ → ℕ
now_in_nanoseconds c wall_clock_nsecs tsc =
    let b = u64 (wall_clock_nsecs + c.system_time) in
    u64 (b + tsc_to_nanoseconds c (u64 (tsc + 2 ^ 64 - c.tsc_timestamp)))

-- `none` is the exception of a division by 0.
unfoldable pub nanoseconds_to_tsc : VcpuTime → ℕ → Option ℕ
nanoseconds_to_tsc c ns =
    let r = u64 (ns * 2 ^ 32) / c.tsc_to_system_mul in
    if c.tsc_to_system_mul == 0
    then none
    else some (if shifts_left c then r / 2 ^ c.tsc_shift else u64 (r * 2 ^ negated_shift c))

-- The bit that `btr` takes out of its operand, and what it leaves there. The operand is the
-- variable `addr`, not the word that it points to.
unfoldable pub test_and_clear_bit : ℕ → ℕ → Bool × ℕ
test_and_clear_bit nr addr = (has_bit addr nr, if has_bit addr nr then addr - 2 ^ nr else addr)

-- `eoi` is the address of the variable `kvm_apic_eoi`.
unfoldable pub kvm_end_of_interrupt : ℕ → Machine → Machine
kvm_end_of_interrupt eoi s = if (test_and_clear_bit 0 eoi).0 then s else end_of_interrupt s

-- A call of `lapic_eoi`.
unfoldable pub call_lapic_eoi : ℕ → Machine → Machine
call_lapic_eoi eoi s = elim s.lapic_eoi [
  | default_lapic_eoi ↦ end_of_interrupt s
  | kvm_lapic_eoi ↦ kvm_end_of_interrupt eoi s
]

-- The registers for the two clocks that the features of the hypervisor offer.
unfoldable pub clock_registers : ℕ → Result (ℕ × ℕ)
clock_registers features =
    if has_bit features 3
    then ok (0x4b564d00, 0x4b564d01)
    else if has_bit features 0
    then ok (0x11, 0x12)
    else panic

-- The constructor from the choice of the registers on: `wall_clock_nsecs`, and the state.
unfoldable pub start_clock : ℕ → ℕ → ℕ → WallClock → ℕ → Machine → ℕ × ℕ → ℕ × Machine
start_clock wall_clock system_time eoi wall features s (wall_clock_msr, system_time_msr) =
    let s1 = wrmsr32 wall_clock_msr (pa wall_clock) s in
    let wall_clock_nsecs = u64 (wall.sec * 1000000000 + wall.nsec) in
    let s2 = wrmsr32 system_time_msr (u32 (pa system_time + 1)) s1 in
    let s3 = record (wrmsr32 0x4b564d04 (bit_or (pa eoi) 1) s2) { lapic_eoi = kvm_lapic_eoi } in
    (wall_clock_nsecs, if has_bit features 6 then s3 else s2)

-- The addresses are those of the variables `wall_clock`, `system_time` and `kvm_apic_eoi`.
unfoldable pub kvm_constructor : (ℕ → Leaf) → ℕ → ℕ → ℕ → WallClock → Machine → Result (ℕ × Machine)
kvm_constructor cpuid wall_clock system_time eoi wall s =
    let signature = cpuid 0x40000000 in
    let features = (cpuid (0x40000000 + 1)).eax in
    if not (0x4b4d564b == signature.ebx)
      || (not (0x564b4d56 == signature.ecx) || not (0x0000004d == signature.edx))
    then panic
    else (clock_registers features >>= λ registers.
        ok (start_clock wall_clock system_time eoi wall features s registers))
