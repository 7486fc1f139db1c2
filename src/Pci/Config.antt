-- ===== src/Pci/Config.antt =====
-- kernel/drivers/pci.c: what is written to a register is what is read from it.
use borfos.Common.{ℕ, ◌^◌, ◌%◌, ◌<◌, ◌≡◌, ◌≢◌, refl, arith, ==_self, ==_ne, u32}
use borfos.Pci.{
  PciDevice, PciPorts, config_address, pci_set_offset, pciread32, pci_read32, pci_write32,
}

-- A read of a register behind a write to it returns the value, a read of a register at another
-- address returns what it had, and the reads change no register.
pub pci_write32-read :
    (dev other : PciDevice) (offset offset' value : ℕ) (s : PciPorts)
    → value < 2 ^ 32
    → u32 (config_address other.bus other.slot other.function offset')
      ≢ u32 (config_address dev.bus dev.slot dev.function offset)
    → ((pci_read32 dev offset (pci_write32 dev offset value s)).0 ≡ value)
      × ((pci_read32 other offset' (pci_write32 dev offset value s)).0
          ≡ (pci_read32 other offset' s).0)
      × ((pci_read32 other offset' s).1.registers ≡ s.registers)
unfolding pci_read32 pciread32 pci_write32 pci_set_offset
pci_write32-read dev other offset offset' value s h n =
    let e : value % 2 ^ 32 ≡ value = omega (arith, h) in
    let d =
      ==_ne (u32 (config_address other.bus other.slot other.function offset'))
        (u32 (config_address dev.bus dev.slot dev.function offset)) n in
    (simp (==_self, e), simp d, refl)
