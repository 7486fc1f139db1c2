-- ===== src/Pci.antt =====
-- kernel/drivers/pci.c and kernel/include/pci.h: the configuration space, and the command register.
-- `registers` gives the 32 bits that the address selects; the address is what is written to 0xCF8.
pub mod Config
pub mod Tables
pub mod Scan
pub mod Lookup
pub mod Found
pub mod Function
pub mod Complete
pub mod Start
mod Tests
use Prim.Native.Nat.{bit_and, bit_or}
use borfos.Common.{ℕ, ◌+◌, ◌-◌, ◌*◌, ◌/◌, ◌%◌, ◌^◌, ◌==◌, not, if◌then◌else◌, u8, u16, u32}
use borfos.System.{write}

-- `pci_device_t`, but for `by_class`.
pub record PciDevice : Type 0 where
  pub bus : ℕ
  pub slot : ℕ
  pub function : ℕ
  pub reg00 : ℕ
  pub reg08 : ℕ
  pub bar : ℕ → ℕ
  pub reg3c : ℕ

-- The value at port 0xCF8, and the registers.
pub record PciPorts : Type 0 where
  pub address : ℕ
  pub registers : ℕ → ℕ

unfoldable pub config_address : ℕ → ℕ → ℕ → ℕ → ℕ
config_address bus slot func offset =
    bit_or
      (bit_or (bit_or (bit_or (bus * 2 ^ 16) (slot * 2 ^ 11)) (func * 2 ^ 8)) (bit_and offset 0xfc))
      0x80000000

unfoldable pub pci_set_offset : ℕ → ℕ → ℕ → ℕ → PciPorts → PciPorts
pci_set_offset bus slot func offset s = record s {
  address = u32 (config_address bus slot func offset);
}

-- The value read at port 0xCFC, and the state after the call.
unfoldable pub pciread32 : ℕ → ℕ → ℕ → ℕ → PciPorts → ℕ × PciPorts
pciread32 bus slot func offset s =
    let s1 = pci_set_offset bus slot func offset s in (u32 (s1.registers s1.address), s1)

unfoldable pub pci_read32 : PciDevice → ℕ → PciPorts → ℕ × PciPorts
pci_read32 dev offset s = pciread32 dev.bus dev.slot dev.function offset s

unfoldable pub pci_write32 : PciDevice → ℕ → ℕ → PciPorts → PciPorts
pci_write32 dev offset value s =
    let s1 = pci_set_offset dev.bus dev.slot dev.function offset s in
    record s1 { registers = write s1.registers s1.address value }

unfoldable pub pciread16 : ℕ → ℕ → ℕ → ℕ → PciPorts → ℕ × PciPorts
pciread16 bus slot func offset s =
    let (r, s1) = pciread32 bus slot func offset s in
    (if not (bit_and offset 2 == 0) then u16 (r / 2 ^ 16) else u16 r, s1)

-- The original value of the command register, and the state after the call. `~unset` is taken of
-- an `int`, so that only its low 16 bits count.
unfoldable pub pci_command : PciDevice → ℕ → ℕ → PciPorts → ℕ × PciPorts
pci_command dev set unset s =
    let (v, s1) = pci_read32 dev 0x4 s in
    let orig_value = u16 v in
    let new_value = bit_and (bit_or orig_value set) (2 ^ 16 - 1 - unset) in
    (
      orig_value,
      if not (new_value == orig_value)
          then pci_write32 dev 4 (bit_or (v / 2 ^ 16 * 2 ^ 16) new_value) s1
          else s1,
    )

unfoldable pub pci_vendor_id : PciDevice → ℕ
pci_vendor_id pci = u16 pci.reg00

unfoldable pub pci_device_id : PciDevice → ℕ
pci_device_id pci = u16 (pci.reg00 / 2 ^ 16)

unfoldable pub pci_class_code : PciDevice → ℕ
pci_class_code pci = u8 (pci.reg08 / 2 ^ 24)

unfoldable pub pci_subclass : PciDevice → ℕ
pci_subclass pci = u8 (pci.reg08 / 2 ^ 16)

unfoldable pub pci_progif : PciDevice → ℕ
pci_progif pci = u8 (pci.reg08 / 2 ^ 8)
