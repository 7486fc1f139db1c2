-- ===== src/Cpu/Vectors.antt =====
-- kernel/drivers/cpu/lapic.c and kernel/drivers/timers/apic.c behind kernel/drivers/cpu/idt.c: the
-- interrupt numbers that the local APIC and its timer take.
use Prim.Native.Nat.{bit_and, bit_or}
use borfos.Common.{
  ℕ, ◌-◌, ◌^◌, ◌<◌, ◌≡◌, ◌≢◌, inl, inr, refl, sym, ap, ◌∙◌, Bool, true, false, not, ◌==◌, ==_self,
  ==_iff, ◌||◌, arith, Bool-cases, if◌then◌else◌,
}
use borfos.System.{ok, ◌>>=◌, write}
use borfos.Memory.Kernel.{map_phaddr_in_kernel}
use borfos.Interrupts.{Interrupts, mark_used, set_kernel_interrupt_handler, set_interrupt_handler}
use borfos.Cpu.{Machine, has_bit, rdmsr32, wrmsr32}
use borfos.Cpu.Lapic.{
  lapic_write, allocate_interrupt, place_spurious, enable_lapic, lapic_constructor, place_timer,
  apictimer_constructor,
}
use borfos.Cpu.Numbers.{IsTaken, allocate_interrupt-IsTaken}

-- What the two constructors leave: `spurious` and `timer` are two numbers that were free, they are
-- taken, and their handlers are set; the backend of the timers is set.
pub record IsServed (spurious_handler timer_handler : ℕ) (s s' : Machine) (spurious timer : ℕ)
    : Type 0 where
  pub differ : spurious ≢ timer
  pub spurious_free : s.interrupts.used_interrupts spurious ≡ false
  pub timer_free : s.interrupts.used_interrupts timer ≡ false
  pub spurious_taken : s'.interrupts.used_interrupts spurious ≡ true
  pub timer_taken : s'.interrupts.used_interrupts timer ≡ true
  pub spurious_set : s'.interrupts.handlers spurious ≡ spurious_handler
  pub timer_set : s'.interrupts.handlers timer ≡ timer_handler
  pub backend : s'.timer_backend ≡ true

-- The address that the constructor of the APIC maps.
abbrev pub lapic_address : Machine → ℕ
lapic_address s = bit_and (rdmsr32 0x1B s) (2 ^ 32 - 4096)

-- The state of the constructor of the APIC before it takes a number.
abbrev enabled : Machine → Machine
enabled s =
    let v = rdmsr32 0x1B s in
    let s1 = if not (has_bit v 11) then wrmsr32 0x1B (bit_or v (2 ^ 11)) s else s in
    let m = map_phaddr_in_kernel (lapic_address s) 0 s1.memory in
    lapic_write 0xE0 0xFFFFFFFF (record s1 { lapic_base = m.0; memory = m.1 })

enabled-same :
    (s : Machine)
    → ((enabled s).interrupts ≡ s.interrupts)
      × ((enabled s).lapic_base ≡ (map_phaddr_in_kernel (lapic_address s) 0 s.memory).0)
      × ((enabled s).features_ecx ≡ s.features_ecx)
unfolding lapic_write wrmsr32
enabled-same s = elim (Bool-cases (has_bit (rdmsr32 0x1B s) 11)) [
  | inl e ↦ rw e (refl, refl, refl)
  | inr e ↦ rw e (refl, refl, refl)
]

abbrev taken : Interrupts → ℕ → Interrupts
taken i n = record i { used_interrupts = mark_used n 1 i.used_interrupts }

abbrev served : ℕ → Machine → ℕ → Machine
served handler s n =
    let s1 =
      lapic_write 0x80 0
        (lapic_write 0xF0 (bit_or n 0x100) (record s { interrupts = taken s.interrupts n })) in
    record s1 { interrupts = set_kernel_interrupt_handler n handler s1.interrupts }

abbrev timed : ℕ → Machine → ℕ → Machine
timed handler s n =
    let s1 = record s {
      interrupts = set_kernel_interrupt_handler n handler (taken s.interrupts n);
    } in
    let s2 = lapic_write 0x320 (bit_or 0x40000 n) s1 in record s2 { timer_backend = true }

-- A table of interrupts in which the number `n` is taken and has a handler.
record IsHandled (handler n : ℕ) (i j : Interrupts) : Type 0 where
  used : j.used_interrupts ≡ mark_used n 1 i.used_interrupts
  handled : j.handlers ≡ write i.handlers n handler

served-IsHandled :
    (handler n : ℕ) (s : Machine) → IsHandled handler n s.interrupts (served handler s n).interrupts
unfolding lapic_write set_kernel_interrupt_handler set_interrupt_handler
served-IsHandled handler n s = record { used = refl; handled = refl }

served-same :
    (handler n : ℕ) (s : Machine)
    → ((served handler s n).lapic_base ≡ s.lapic_base)
      × ((served handler s n).features_ecx ≡ s.features_ecx)
unfolding lapic_write
served-same handler n s = (refl, refl)

timed-IsHandled :
    (handler n : ℕ) (s : Machine) → IsHandled handler n s.interrupts (timed handler s n).interrupts
unfolding lapic_write set_kernel_interrupt_handler set_interrupt_handler
timed-IsHandled handler n s = record { used = refl; handled = refl }

mark_used-one : (n x : ℕ) (used : ℕ → Bool) → mark_used n 1 used x ≡ ((x == n) || used x)
unfolding mark_used
mark_used-one n x used = elim (Bool-cases (x == n)) [
  | inl e ↦ let z : x ≡ n = ground (arith, e) in rw z (ground (arith, ==_self n))
  | inr e ↦ ground (arith, e)
]

-- Two numbers taken from one table.
both-IsServed :
    (f g n m : ℕ) (s s' : Machine) (i j : Interrupts)
    → i.used_interrupts ≡ s.interrupts.used_interrupts
    → IsHandled f n i j
    → IsHandled g m j s'.interrupts
    → i.used_interrupts n ≡ false
    → j.used_interrupts m ≡ false
    → s'.timer_backend ≡ true
    → IsServed f g s s' n m
both-IsServed f g n m s s' i j same a b free_n free_m backend =
    let at_m : ((m == n) || i.used_interrupts m) ≡ false =
      sym (mark_used-one n m i.used_interrupts) ∙ sym (ap (λ u. u m) a.used) ∙ free_m in
    let other : m == n ≡ false = ground (arith, at_m) in
    let at_n : j.used_interrupts n ≡ true =
      ap (λ u. u n) a.used ∙ mark_used-one n n i.used_interrupts ∙ ground (arith, ==_self n) in
    record {
      differ = λ z. absurd (ground (arith, z, other, ==_self m));
      spurious_free = ap (λ u. u n) (sym same) ∙ free_n;
      timer_free = ap (λ u. u m) (sym same) ∙ ground (arith, at_m);
      spurious_taken =
          ap (λ u. u n) b.used ∙ mark_used-one m n j.used_interrupts ∙ ground (arith, at_n);
      timer_taken =
          ap (λ u. u m) b.used ∙ mark_used-one m m j.used_interrupts ∙ ground (arith, ==_self m);
      spurious_set =
          ap (λ h. h n) b.handled
          ∙ ground (arith, other, ==_iff n m, ==_iff m n)
          ∙ ap (λ h. h n) a.handled
          ∙ ground (arith, ==_self n);
      timer_set = ap (λ h. h m) b.handled ∙ ground (arith, ==_self m);
      backend = backend;
    }

lapic_constructor-served :
    (handler n : ℕ) (s : Machine)
    → has_bit s.features_edx 9 ≡ true
    → IsTaken (enabled s).interrupts (allocate_interrupt (enabled s).interrupts) n
    → lapic_constructor handler s ≡ ok (served handler (enabled s) n)
unfolding lapic_constructor enable_lapic
lapic_constructor-served handler n s apic t =
    rw apic
      (ap (λ r. place_spurious handler (enabled s) r) t.result ∙ unfold place_spurious in refl)

apictimer_constructor-timed :
    (handler n : ℕ) (s : Machine)
    → has_bit s.features_ecx 24 ≡ true
    → s.lapic_base ≢ 0
    → IsTaken s.interrupts (allocate_interrupt s.interrupts) n
    → apictimer_constructor handler s ≡ ok (timed handler s n)
unfolding apictimer_constructor
apictimer_constructor-timed handler n s deadline base t =
    let z : (s.lapic_base == 0) ≡ false = ground (arith, base) in
    rw (z, deadline) (ap (λ r. place_timer handler s r) t.result ∙ unfold place_timer in refl)

module _ (spurious_handler timer_handler x y : ℕ) (s : Machine) where
  -- On a processor with an APIC whose timer has a deadline, with room to map it and two numbers
  -- free, the two constructors, one behind the other, return: they take two different numbers that
  -- were free, set the handlers of both, and set the backend of the timers.
  pub constructors-IsServed :
      has_bit s.features_edx 9 ≡ true
      → has_bit s.features_ecx 24 ≡ true
      → (map_phaddr_in_kernel (lapic_address s) 0 s.memory).0 ≢ 0
      → x < y
      → y < 0x100
      → s.interrupts.used_interrupts x ≡ false
      → s.interrupts.used_interrupts y ≡ false
      → (s' : Machine) × (spurious timer : ℕ) × ((lapic_constructor spurious_handler s
            >>= apictimer_constructor timer_handler)
          ≡ ok s')
        × IsServed spurious_handler timer_handler s s' spurious timer
  constructors-IsServed apic deadline mapped lt below fx fy =
      let (same, base, features) = enabled-same s in
      let e = enabled s in
      let ex : e.interrupts.used_interrupts x ≡ false = rw same fx in
      let (n, low, t) = allocate_interrupt-IsTaken x e.interrupts (omega (arith, lt, below)) ex in
      let s1 = served spurious_handler e n in
      let ey : s1.interrupts.used_interrupts y ≡ false =
        ap (λ u. u y) (served-IsHandled spurious_handler n e).used
        ∙ mark_used-one n y e.interrupts.used_interrupts
        ∙ (let g : e.interrupts.used_interrupts y ≡ false = rw same fy in
            ground (arith, g, low, lt)) in
      let (m, high, u) = allocate_interrupt-IsTaken y s1.interrupts below ey in
      let (base1, features1) = served-same spurious_handler n e in
      let first = lapic_constructor-served spurious_handler n s apic t in
      let second =
        apictimer_constructor-timed timer_handler m s1 (rw (features1, features) deadline)
          (λ z. mapped (sym (base1 ∙ base) ∙ z)) u in
      (
        timed timer_handler s1 m,
        n,
        m,
        ap (λ r. r >>= apictimer_constructor timer_handler) first ∙ second,
        both-IsServed spurious_handler timer_handler n m s (timed timer_handler s1 m) e.interrupts
            s1.interrupts (ap (λ i. i.used_interrupts) same) (served-IsHandled spurious_handler n e)
            (timed-IsHandled timer_handler m s1) t.was_free u.was_free refl,
      )
