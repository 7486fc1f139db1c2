-- ===== src/Pci/Found.antt =====
-- kernel/drivers/pci.c: the scan returns, and finds every function that it can reach.
use Prim.Native.Nat.{bit_and}
use borfos.Common.{
  ℕ, zero, suc, ◌+◌, ◌*◌, ◌/◌, ◌^◌, ◌<◌, ◌≡◌, ◌≢◌, refl, sym, ap, ◌∙◌, Bool, true, false, not, ◌==◌,
  if◌then◌else◌, u16, u32,
}
use borfos.Pci.{config_address, pciread32, pci_set_offset}
use borfos.Pci.Tables.{PciTables, put, pci_get_by_location}
use borfos.Pci.Scan.{PciState, read_bars, fill_device}

-- The register of a function at an offset.
abbrev pub reg : (ℕ → ℕ) → ℕ → ℕ → ℕ → ℕ → ℕ
reg regs b t f offset = u32 (regs (u32 (config_address b t f offset)))

-- Whether the function is there, and is a bridge, and the bus behind it; the number of functions that a
-- device says to have.
abbrev pub is_there : (ℕ → ℕ) → ℕ → ℕ → ℕ → Bool
is_there regs b t f = not (bit_and (reg regs b t f 0) 0xFFFF == 0xFFFF)

abbrev pub is_bridge : (ℕ → ℕ) → ℕ → ℕ → ℕ → Bool
is_bridge regs b t f = reg regs b t f 0x8 / 2 ^ 16 == 0x604

abbrev pub bus_behind : (ℕ → ℕ) → ℕ → ℕ → ℕ → ℕ
bus_behind regs b t f = bit_and (reg regs b t f 0x18 / 2 ^ 8) 0xFF

abbrev pub functions_of : (ℕ → ℕ) → ℕ → ℕ → ℕ
functions_of regs b t = if not (bit_and (reg regs b t 0 0xC) 0x800000 == 0) then 8 else 1

-- The functions on a bus, and behind its bridges, other than the bridges: those of a device whose
-- first function is there, up to its number of functions.
pub data Reached (regs : ℕ → ℕ) : ℕ → ℕ → ℕ → ℕ → Type 0 where
  on_bus :
      {b t f : ℕ}
      → t < 32
      → f < functions_of regs b t
      → u16 (reg regs b t 0 0) == 0xFFFF ≡ false
      → is_there regs b t f ≡ true
      → is_bridge regs b t f ≡ false
      → Reached regs b b t f
  behind :
      {b t f b' t' f' : ℕ}
      → t < 32
      → f < functions_of regs b t
      → u16 (reg regs b t 0 0) == 0xFFFF ≡ false
      → is_there regs b t f ≡ true
      → is_bridge regs b t f ≡ true
      → Reached regs (bus_behind regs b t f) b' t' f'
      → Reached regs b b' t' f'

-- The registers are `regs`, and the devices that were found stay where they are.
pub record IsKept (regs : ℕ → ℕ) (s s' : PciState) : Type 0 where
  pub same : s'.ports.registers ≡ regs
  pub stays :
      (b t f : ℕ)
      → pci_get_by_location b t f s.tables ≢ 0
      → pci_get_by_location b t f s'.tables ≡ pci_get_by_location b t f s.tables

pub IsKept-trans :
    (regs : ℕ → ℕ) (s s' s2 : PciState) → IsKept regs s s' → IsKept regs s' s2 → IsKept regs s s2
IsKept-trans regs s s' s2 i j = record {
  same = j.same;
  stays = λ b t f n. let e = i.stays b t f n in j.stays b t f (λ z. n (sym e ∙ z)) ∙ e;
}

-- Everything on the bus, and behind it, is found.
abbrev pub Found : (ℕ → ℕ) → ℕ → PciState → Type 0
Found regs bus s = (b t f : ℕ) → Reached regs bus b t f → pci_get_by_location b t f s.tables ≢ 0

-- The function is found, and if it is a bridge, so is everything behind it.
pub record IsFound (regs : ℕ → ℕ) (b t f : ℕ) (s : PciState) : Type 0 where
  pub itself :
      is_there regs b t f ≡ true
      → is_bridge regs b t f ≡ false
      → pci_get_by_location b t f s.tables ≢ 0
  pub beyond :
      is_there regs b t f ≡ true
      → is_bridge regs b t f ≡ true
      → Found regs (bus_behind regs b t f) s

pub stays-Found :
    (regs : ℕ → ℕ) (bus : ℕ) (s s' : PciState)
    → IsKept regs s s'
    → Found regs bus s
    → Found regs bus s'
stays-Found regs bus s s' k g b t f r = let n = g b t f r in λ z. n (sym (k.stays b t f n) ∙ z)

pub IsFound-stays :
    (regs : ℕ → ℕ) (b t f : ℕ) (s s' : PciState)
    → IsKept regs s s'
    → IsFound regs b t f s
    → IsFound regs b t f s'
IsFound-stays regs b t f s s' k i = record {
  itself = λ p q. let n = i.itself p q in λ z. n (sym (k.stays b t f n) ∙ z);
  beyond = λ p q. stays-Found regs (bus_behind regs b t f) s s' k (i.beyond p q);
}

-- Reading the registers of a device changes neither them nor the tables.
read_bars-same :
    (rounds i b t f : ℕ) (bar : ℕ → ℕ) (s : PciState)
    → ((read_bars rounds i b t f bar s).1.ports.registers ≡ s.ports.registers)
      × ((read_bars rounds i b t f bar s).1.tables ≡ s.tables)
unfolding read_bars pciread32 pci_set_offset
read_bars-same zero i b t f bar s = (refl, refl)
read_bars-same (suc rounds) i b t f bar s =
    let v = reg s.ports.registers b t f (0x10 + i * 4) in
    let p = record s.ports { address = u32 (config_address b t f (0x10 + i * 4)) } in
    read_bars-same rounds (i + 1) b t f (put bar i v) (record s { ports = p })

pub fill_device-same :
    (d c b t f dv category : ℕ) (s : PciState)
    → ((fill_device d c b t f dv category s).ports.registers ≡ s.ports.registers)
      × ((fill_device d c b t f dv category s).tables.buses ≡ s.tables.buses)
unfolding fill_device pciread32 pci_set_offset
fill_device-same d c b t f dv category s =
    let (x, y) = read_bars-same 6 0 b t f (s.tables.device d).bar s in
    (x, ap (λ (z : PciTables). z.buses) y)
