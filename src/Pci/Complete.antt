-- ===== src/Pci/Complete.antt =====
-- kernel/drivers/pci.c: `pci_check_bus` on buses whose bridges lead to higher numbers.
use Prim.Native.Nat.{bit_and}
use borfos.Common.{
  Bool, not, if◌then◌else◌, ℕ, zero, suc, ◌+◌, ◌/◌, ◌^◌, ◌<◌, ◌≤◌, ◌≡◌, ◌≢◌, refl, ap, ◌∙◌, inl,
  inr, true, false, ◌==◌, arith, Bool-cases, u16, u32,
}
use borfos.Common.Bits.{bit_and-bound}
use borfos.System.{Result, ◌>>=◌}
use borfos.Pci.{config_address, pciread32, pci_set_offset}
use borfos.Pci.Scan.{PciState, function_loop, pci_check_device, slot_loop, pci_check_bus}
use borfos.Pci.Found.{
  reg, is_there, is_bridge, bus_behind, functions_of, on_bus, behind, Found, IsFound, IsFound-stays,
}
use borfos.Pci.Function.{
  IsKept-refl, addressed, IsFound-eq, after, Returns, Scans, pci_check_function-Returns,
}

module _ (calloc : ℕ → ℕ) (memory : (i : ℕ) → calloc i ≢ 0) (regs : ℕ → ℕ) where
  -- The functions from `f` on, of which there are `rounds`.
  function_loop-Returns :
      (check : ℕ → PciState → Result PciState) (rounds f b t : ℕ) (s : PciState)
      → ((f : ℕ)
          → f < 8
          → is_there regs b t f ≡ true
          → is_bridge regs b t f ≡ true
          → Scans calloc memory regs check (bus_behind regs b t f))
      → f + rounds ≤ 8
      → s.ports.registers ≡ regs
      → Returns calloc memory regs s
          (function_loop calloc check rounds f b t s)
          (λ s'. (g : ℕ) → f ≤ g → g < f + rounds → IsFound regs b t g s')
  unfolding function_loop
  function_loop-Returns check zero f b t s deeper few e =
      (s, refl, IsKept-refl regs s e, λ g l h. absurd (omega (arith, l, h)))
  function_loop-Returns check (suc rounds) f b t s deeper few e =
      let (s1, a, k, found) =
        pci_check_function-Returns calloc memory regs check b t f s (deeper f (omega (arith, few)))
          e in
      let (s2, c, m, more) =
        function_loop-Returns check rounds (f + 1) b t s1 deeper (omega (arith, few)) k.same in
      (
        s2,
        ap (λ r. r >>= function_loop calloc check rounds (f + 1) b t) a ∙ c,
        after calloc memory regs s s1 s2 k m,
        λ g l h. elim (Bool-cases (f == g)) [
          | inl x ↦
              let z : f ≡ g = ground (arith, x) in
              IsFound-stays regs b t g s1 s2 m (IsFound-eq regs b t f g s1 z found)
          | inr x ↦ more g (ground (arith, l, x)) (omega (arith, h))
        ],
      )

  eight : (c : Bool) → 0 + (if c then 8 else 1) ≤ 8
  eight c = ground arith

  -- The functions of a device that is there are found.
  abbrev FoundAt : ℕ → ℕ → PciState → Type 0
  FoundAt b t s' =
      u16 (reg regs b t 0 0) == 0xFFFF ≡ false
      → (f : ℕ) → f < functions_of regs b t
      → IsFound regs b t f s'

  FoundAt-eq : (b t u : ℕ) (s : PciState) → t ≡ u → FoundAt b t s → FoundAt b u s
  FoundAt-eq b t u s e g = rw e at g

  pci_check_device-Returns :
      (check : ℕ → PciState → Result PciState) (b t : ℕ) (s : PciState)
      → ((f : ℕ)
          → f < 8
          → is_there regs b t f ≡ true
          → is_bridge regs b t f ≡ true
          → Scans calloc memory regs check (bus_behind regs b t f))
      → s.ports.registers ≡ regs
      → Returns calloc memory regs s (pci_check_device calloc check b t s) (λ s'. FoundAt b t s')
  unfolding pci_check_device pciread32 pci_set_offset
  pci_check_device-Returns check b t s deeper e =
      let s1 = record s {
        ports = record { address = u32 (config_address b t 0 0); registers = regs };
      } in
      let s2 = record s {
        ports = record { address = u32 (config_address b t 0 0xC); registers = regs };
      } in
      elim (Bool-cases (u16 (reg regs b t 0 0) == 0xFFFF)) [
        | inl n ↦ (
          s1,
          rw (e, n) refl,
          addressed regs s (u32 (config_address b t 0 0)),
          λ p f h. absurd (ground (arith, n, p)),
        )
        | inr n ↦
            let (s', a, k, g) =
              function_loop-Returns check (functions_of regs b t) 0 b t s2 deeper
                (eight (not (bit_and (reg regs b t 0 0xC) 0x800000 == 0))) refl in
            (
              s',
              rw (e, n) a,
              after calloc memory regs s s2 s' (addressed regs s (u32 (config_address b t 0 0xC)))
                  k,
              λ p f h. g f (omega arith) (omega (arith, h)),
            )
      ]

  slot_loop-Returns :
      (check : ℕ → PciState → Result PciState) (rounds t b : ℕ) (s : PciState)
      → ((t f : ℕ)
          → t < 32
          → f < 8
          → is_there regs b t f ≡ true
          → is_bridge regs b t f ≡ true
          → Scans calloc memory regs check (bus_behind regs b t f))
      → t + rounds ≤ 32
      → s.ports.registers ≡ regs
      → Returns calloc memory regs s
          (slot_loop calloc check rounds t b s)
          (λ s'. (u : ℕ) → t ≤ u → u < t + rounds → FoundAt b u s')
  unfolding slot_loop
  slot_loop-Returns check zero t b s deeper few e =
      (s, refl, IsKept-refl regs s e, λ u l h. absurd (omega (arith, l, h)))
  slot_loop-Returns check (suc rounds) t b s deeper few e =
      let (s1, a, k, found) =
        pci_check_device-Returns check b t s (λ f. deeper t f (omega (arith, few))) e in
      let (s2, c, m, more) =
        slot_loop-Returns check rounds (t + 1) b s1 deeper (omega (arith, few)) k.same in
      (
        s2,
        ap (λ r. r >>= slot_loop calloc check rounds (t + 1) b) a ∙ c,
        after calloc memory regs s s1 s2 k m,
        λ u l h. elim (Bool-cases (t == u)) [
          | inl x ↦
              let z : t ≡ u = ground (arith, x) in
              λ p f i. IsFound-stays regs b u f s1 s2 m (FoundAt-eq b t u s1 z found p f i)
          | inr x ↦ more u (ground (arith, l, x)) (omega (arith, h))
        ],
      )

  Found-slots : (b : ℕ) (s : PciState) → ((u : ℕ) → u < 32 → FoundAt b u s) → Found regs b s
  Found-slots b s g b' t' f' (on_bus lt lf first there plain) =
      (g t' lt first f' lf).itself there plain
  Found-slots b s g b' t' f' (behind {t} {f} lt lf first there bridge r) =
      (g t lt first f lf).beyond there bridge b' t' f' r

  -- With bridges that lead to buses of higher numbers, `256 - bus` levels are enough.
  pub check_bus-Scans :
      (fuel bus : ℕ)
      → ((b t f : ℕ)
          → b < 256
          → t < 32
          → f < 8
          → is_there regs b t f ≡ true
          → is_bridge regs b t f ≡ true
          → b < bus_behind regs b t f)
      → 256 ≤ fuel + bus
      → bus < 256
      → Scans calloc memory regs (pci_check_bus calloc fuel) bus
  unfolding pci_check_bus
  check_bus-Scans zero bus up enough below s e = absurd (omega (arith, enough, below))
  check_bus-Scans (suc fuel) bus up enough below s e =
      let deeper =
        λ (t f : ℕ) (lt : t < 32) (lf : f < 8) (p : is_there regs bus t f ≡ true)
            (q : is_bridge regs bus t f ≡ true).
          check_bus-Scans fuel (bus_behind regs bus t f) up
            (omega (arith, enough, up bus t f below lt lf p q))
            (omega (arith, bit_and-bound (reg regs bus t f 0x18 / 2 ^ 8) 0xFF)) in
      let (s', a, k, g) =
        slot_loop-Returns (pci_check_bus calloc fuel) 32 0 bus s deeper (omega arith) e in
      (s', a, k, Found-slots bus s' (λ u h. g u (omega arith) (omega (arith, h))))
