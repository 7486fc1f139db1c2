-- ===== src/Cpu/Support.antt =====
-- When the constructors of cpuid.c and kvm.c accept the processor.
use Prim.Native.Nat.{bit_and, bit_xor}
use borfos.Common.{
  ℕ, ◌^◌, ◌%◌, ◌≡◌, ◌≢◌, ◌↔◌, ◌⊎◌, inl, inr, refl, sym, ◌∙◌, true, false, not, ◌==◌, ◌||◌, arith,
  Bool-cases, if◌then◌else◌,
}
use borfos.Common.Bits.{bit_and-one}
use borfos.System.{Result, ok, panic}
use borfos.Cpu.{
  Machine, EoiHandler, default_lapic_eoi, kvm_lapic_eoi, Leaf, has_bit, has_cpuid, get_flags,
  set_flags, cpuid_constructor,
}
use borfos.Cpu.Lapic.{end_of_interrupt}
use borfos.Cpu.Kvm.{
  WallClock, clock_registers, start_clock, kvm_constructor, test_and_clear_bit,
  kvm_end_of_interrupt, call_lapic_eoi,
}

-- A processor with `cpuid`, by Intel, with a time stamp counter, MSRs and a hypervisor.
pub record IsSupported (popf : ℕ → ℕ → ℕ) (cpuid : ℕ → Leaf) (s : Machine) : Type 0 where
  pub toggles :
      bit_and (popf s.flags (bit_xor s.flags (2 ^ 21))) (2 ^ 21) ≢ bit_and s.flags (2 ^ 21)
  pub genu : (cpuid 0).ebx ≡ 0x756e6547
  pub inei : (cpuid 0).edx ≡ 0x49656e69
  pub ntel : (cpuid 0).ecx ≡ 0x6c65746e
  pub tsc : has_bit (cpuid 1).edx 4 ≡ true
  pub msrs : has_bit (cpuid 1).edx 5 ≡ true
  pub hypervisor : has_bit (cpuid 1).ecx 31 ≡ true

-- A call that returns `x` when `P` holds, and otherwise panics.
outcomes :
    {A : Type 0} {P : Type 0} {r : Result A} {x : A}
    → (P → r ≡ ok x)
    → P ⊎ (r ≡ panic)
    → ((r ≡ ok x) ↔ P) × ((r ≡ panic) ↔ (P → ⊥))
outcomes f (inl p) = ((λ e. p, f), (λ e. absurd (differ (sym (f p) ∙ e)), λ n. absurd (n p)))
  where
    differ : {A : Type 0} {x : A} → ok x ≡ panic → ⊥
    differ e = cc
outcomes f (inr q) =
    ((λ e. absurd (differ (sym e ∙ q)), f), (λ e p. differ (sym (f p) ∙ q), λ n. q))
  where
    differ : {A : Type 0} {x : A} → ok x ≡ panic → ⊥
    differ e = cc

module _ (popf : ℕ → ℕ → ℕ) (cpuid : ℕ → Leaf) (s : Machine) where
  -- The state with the features, behind the test of the flag.
  abbrev pub accepted : Machine
  accepted = record s {
    flags = popf s.flags (bit_xor s.flags (2 ^ 21));
    features_ecx = (cpuid 1).ecx;
    features_edx = (cpuid 1).edx;
  }

  accepts : IsSupported popf cpuid s → cpuid_constructor popf cpuid s ≡ ok accepted
  unfolding cpuid_constructor has_cpuid get_flags set_flags
  accepts i =
      let t : (bit_and (popf s.flags (bit_xor s.flags (2 ^ 21))) (2 ^ 21)
            == bit_and s.flags (2 ^ 21))
          ≡ false =
        ground (arith, i.toggles) in
      rw (t, i.genu, i.inei, i.ntel, i.tsc, i.msrs, i.hypervisor) refl

  tested :
      (has_cpuid popf s).0 ≡ true
      → bit_and (popf s.flags (bit_xor s.flags (2 ^ 21))) (2 ^ 21) ≢ bit_and s.flags (2 ^ 21)
  unfolding has_cpuid get_flags set_flags
  tested h z = ground (arith, h, z)

  either : IsSupported popf cpuid s ⊎ (cpuid_constructor popf cpuid s ≡ panic)
  unfolding cpuid_constructor
  either = elim (Bool-cases (has_cpuid popf s).0) [
    | inr a ↦ inr (rw a refl)
    | inl a ↦
        elim (Bool-cases (
          not ((cpuid 0).ebx == 0x756e6547)
          || (not ((cpuid 0).edx == 0x49656e69) || not ((cpuid 0).ecx == 0x6c65746e)))) [
            | inl b ↦ inr (rw (a, b) refl)
            | inr b ↦ elim (Bool-cases (has_bit (cpuid 1).edx 4)) [
              | inr c ↦ inr (rw (a, b, c) refl)
              | inl c ↦ elim (Bool-cases (has_bit (cpuid 1).edx 5)) [
                | inr d ↦ inr (rw (a, b, c, d) refl)
                | inl d ↦ elim (Bool-cases (has_bit (cpuid 1).ecx 31)) [
                  | inr e ↦ inr (rw (a, b, c, d, e) refl)
                  | inl e ↦ inl (record {
                    toggles = tested a;
                    genu = ground (arith, b);
                    inei = ground (arith, b);
                    ntel = ground (arith, b);
                    tsc = c;
                    msrs = d;
                    hypervisor = e;
                  })
                ]
              ]
            ]
          ]
  ]

  -- The constructor returns, with the features of the processor kept, for a processor that is
  -- supported and for no other one; for every other one it panics.
  pub cpuid_constructor_iff :
      ((cpuid_constructor popf cpuid s ≡ ok accepted) ↔ IsSupported popf cpuid s)
      × ((cpuid_constructor popf cpuid s ≡ panic) ↔ (IsSupported popf cpuid s → ⊥))
  cpuid_constructor_iff = outcomes accepts either

-- `kvm_constructor` accepts KVM with one of the two versions of its clock.
pub record IsKvm (cpuid : ℕ → Leaf) : Type 0 where
  pub kvmk : (cpuid 0x40000000).ebx ≡ 0x4b4d564b
  pub vmkv : (cpuid 0x40000000).ecx ≡ 0x564b4d56
  pub m : (cpuid 0x40000000).edx ≡ 0x4d
  pub clock : (has_bit (cpuid 0x40000001).eax 3 || has_bit (cpuid 0x40000001).eax 0) ≡ true

module _ (cpuid : ℕ → Leaf) (wall_clock system_time eoi : ℕ) (wall : WallClock) (s : Machine) where
  -- The clock is started at the registers of the newer version, where there is one.
  abbrev pub clocked : ℕ × Machine
  clocked =
      start_clock wall_clock system_time eoi wall (cpuid 0x40000001).eax s
        (if has_bit (cpuid 0x40000001).eax 3 then (0x4b564d00, 0x4b564d01) else (0x11, 0x12))

  kvm_accepts : IsKvm cpuid → kvm_constructor cpuid wall_clock system_time eoi wall s ≡ ok clocked
  unfolding kvm_constructor clock_registers
  kvm_accepts i = elim (Bool-cases (has_bit (cpuid 0x40000001).eax 3)) [
    | inl b ↦ rw (i.kvmk, i.vmkv, i.m, b) refl
    | inr b ↦
        let c : has_bit (cpuid 0x40000001).eax 0 ≡ true = ground (arith, i.clock, b) in
        rw (i.kvmk, i.vmkv, i.m, b, c) refl
  ]

  IsKvm-either : IsKvm cpuid ⊎ (kvm_constructor cpuid wall_clock system_time eoi wall s ≡ panic)
  unfolding kvm_constructor clock_registers
  IsKvm-either =
      elim (Bool-cases (
        not (0x4b4d564b == (cpuid 0x40000000).ebx)
        || (not (0x564b4d56 == (cpuid 0x40000000).ecx) || not (0x4d == (cpuid 0x40000000).edx)))) [
          | inl a ↦ inr (rw a refl)
          | inr a ↦ elim (Bool-cases (has_bit (cpuid 0x40000001).eax 3)) [
            | inl b ↦ inl (record {
              kvmk = ground (arith, a);
              vmkv = ground (arith, a);
              m = ground (arith, a);
              clock = ground (arith, b);
            })
            | inr b ↦ elim (Bool-cases (has_bit (cpuid 0x40000001).eax 0)) [
              | inl c ↦ inl (record {
                kvmk = ground (arith, a);
                vmkv = ground (arith, a);
                m = ground (arith, a);
                clock = ground (arith, b, c);
              })
              | inr c ↦ inr (rw (a, b, c) refl)
            ]
          ]
        ]

  -- The constructor starts the clock on KVM with one of the two versions of its clock, at the
  -- registers of the newer one if it is offered, and panics otherwise.
  pub kvm_constructor_iff :
      ((kvm_constructor cpuid wall_clock system_time eoi wall s ≡ ok clocked) ↔ IsKvm cpuid)
      × ((kvm_constructor cpuid wall_clock system_time eoi wall s ≡ panic) ↔ (IsKvm cpuid → ⊥))
  kvm_constructor_iff = outcomes kvm_accepts IsKvm-either

-- The handler of KVM for the end of an interrupt tests the address of `kvm_apic_eoi` and not the
-- word at it: the address of a variable that is aligned to 2 or more has its lowest bit clear, so that the APIC is
-- written to each time, as by the default handler, whatever the hypervisor has stored.
pub call_lapic_eoi-default :
    (eoi : ℕ) (s : Machine) → eoi % 2 ≡ 0 → call_lapic_eoi eoi s ≡ end_of_interrupt s
unfolding call_lapic_eoi kvm_end_of_interrupt test_and_clear_bit
call_lapic_eoi-default eoi s even = elim (handlers s.lapic_eoi) [
  | inl e ↦ rw e refl
  | inr e ↦ let b : has_bit eoi 0 ≡ false = ground (arith, bit_and-one eoi, even) in rw (e, b) refl
]
  where
    handlers : (h : EoiHandler) → (h ≡ default_lapic_eoi) ⊎ (h ≡ kvm_lapic_eoi)
    handlers default_lapic_eoi = inl refl
    handlers kvm_lapic_eoi = inr refl
