-- ===== src/Pci/Start.antt =====
-- kernel/drivers/pci.c: the constructor, from the host bridges on.
use Prim.Native.Nat.{bit_and}
use borfos.Common.{
  ℕ, zero, suc, ◌+◌, ◌<◌, ◌≤◌, ◌≡◌, ◌≢◌, refl, ap, ◌∙◌, inl, inr, Bool, true, false, not, ◌==◌,
  ◌&&◌, arith, Bool-cases, if◌then◌else◌, ltb, u16, u32,
}
use borfos.System.{ok, ◌>>=◌}
use borfos.Pci.{config_address, pciread32, pciread16, pci_set_offset}
use borfos.Pci.Tables.{pci_get_by_location}
use borfos.Pci.Scan.{PciState, pci_check_bus, host_loop, pci_constructor}
use borfos.Pci.Found.{reg, is_there, is_bridge, bus_behind, Reached, Found, stays-Found}
use borfos.Pci.Function.{IsKept-refl, addressed, after, Returns}
use borfos.Pci.Complete.{check_bus-Scans}

-- Whether the scan starts at a bus: bus 0, or, with several host bridges, those of the functions that are there.
abbrev pub is_start : (ℕ → ℕ) → ℕ → Bool
is_start regs bus =
    if not (bit_and (reg regs 0 0 0 0xC) 0x800000 == 0)
    then ltb bus 8 && not (u16 (reg regs 0 0 bus 0) == 0xFFFF)
    else bus == 0

module _ (calloc : ℕ → ℕ) (memory : (i : ℕ) → calloc i ≢ 0) (regs : ℕ → ℕ) (fuel : ℕ)
    (enough : 256 ≤ fuel)
    (up : (b t f : ℕ)
      → b < 256
      → t < 32
      → f < 8
      → is_there regs b t f ≡ true
      → is_bridge regs b t f ≡ true
      → b < bus_behind regs b t f) where
  one_bus :
      (bus : ℕ) (s : PciState)
      → bus < 256
      → s.ports.registers ≡ regs
      → Returns calloc memory regs s (pci_check_bus calloc fuel bus s) (λ s'. Found regs bus s')
  one_bus bus s below e =
      check_bus-Scans calloc memory regs fuel bus up (omega (arith, enough)) below s e

  host_loop-Returns :
      (rounds function : ℕ) (s : PciState)
      → function + rounds ≤ 8
      → s.ports.registers ≡ regs
      → Returns calloc memory regs s (host_loop calloc fuel rounds function s) (λ s'.
        (bus : ℕ)
        → function ≤ bus
        → bus < function + rounds
        → u16 (reg regs 0 0 bus 0) == 0xFFFF ≡ false
        → Found regs bus s')
  unfolding host_loop pciread16 pciread32 pci_set_offset
  host_loop-Returns zero function s h e =
      (s, refl, IsKept-refl regs s e, λ bus l g. absurd (omega (arith, l, g)))
  host_loop-Returns (suc rounds) function s h e =
      let s1 = record s {
        ports = record { address = u32 (config_address 0 0 function 0); registers = regs };
      } in
      let k1 = addressed regs s (u32 (config_address 0 0 function 0)) in
      elim (Bool-cases (u16 (reg regs 0 0 function 0) == 0xFFFF)) [
        | inl n ↦
            let (s2, a, k, more) =
              host_loop-Returns rounds (function + 1) s1 (omega (arith, h)) refl in
            (
              s2,
              rw (e, n) a,
              after calloc memory regs s s1 s2 k1 k,
              λ bus l g p. elim (Bool-cases (function == bus)) [
                | inl x ↦
                    let z : function ≡ bus = ground (arith, x) in
                    absurd (ground (arith, rw z at n, p))
                | inr x ↦ more bus (ground (arith, l, x)) (omega (arith, g)) p
              ],
            )
        | inr n ↦
            let (s2, a, k, found) = one_bus function s1 (omega (arith, h)) refl in
            let (s3, c, m, more) =
              host_loop-Returns rounds (function + 1) s2 (omega (arith, h)) k.same in
            (
              s3,
              rw (e, n) (ap (λ r. r >>= host_loop calloc fuel rounds (function + 1)) a ∙ c),
              after calloc memory regs s s2 s3 (after calloc memory regs s s1 s2 k1 k) m,
              λ bus l g p. elim (Bool-cases (function == bus)) [
                | inl x ↦
                    let z : function ≡ bus = ground (arith, x) in
                    stays-Found regs bus s2 s3 m (Found-eq function bus s2 z found)
                | inr x ↦ more bus (ground (arith, l, x)) (omega (arith, g)) p
              ],
            )
      ]
    where
      Found-eq : (b c : ℕ) (s : PciState) → b ≡ c → Found regs b s → Found regs c s
      Found-eq b c s z g = rw z at g

  -- If the allocations succeed and every bridge leads to a bus of a higher number, the scan returns, with
  -- 256 levels of bridges, and every function of a device on a bus that it starts at, or behind the bridges there,
  -- is at its location in the tables, unless it is a bridge itself.
  pub pci_constructor-finds :
      (start b t f : ℕ) (s : PciState)
      → s.ports.registers ≡ regs
      → is_start regs start ≡ true
      → Reached regs start b t f
      → (s' : PciState) × (pci_constructor calloc fuel s ≡ ok s')
        × (pci_get_by_location b t f s'.tables ≢ 0)
  unfolding pci_constructor pciread32 pci_set_offset
  pci_constructor-finds start b t f s e first r =
      let s1 = record s {
        ports = record { address = u32 (config_address 0 0 0 0xC); registers = regs };
      } in
      elim (Bool-cases (bit_and (reg regs 0 0 0 0xC) 0x800000 == 0)) [
        | inl n ↦
            let z : start ≡ 0 = ground (arith, n, first) in
            let (s', a, k, g) = one_bus 0 s1 (omega arith) refl in
            (s', rw (e, n) a, g b t f (rw z at r))
        | inr n ↦
            let (s', a, k, g) = host_loop-Returns 8 0 s1 (omega arith) refl in
            (
              s',
              rw (e, n) a,
              g start (omega arith) (ground (arith, n, first)) (ground (arith, n, first)) b t f r,
            )
      ]
