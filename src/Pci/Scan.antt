-- ===== src/Pci/Scan.antt =====
-- kernel/drivers/pci.c: the scan of the buses. `fuel` bounds the depth of the bridges.
use Prim.Native.Nat.{bit_and}
use borfos.Common.{ℕ, zero, suc, ◌+◌, ◌*◌, ◌/◌, ◌^◌, not, ◌==◌, if◌then◌else◌, u8, u16}
use borfos.System.{Result, ok, panic, out_of_fuel, ◌>>=◌}
use borfos.Links.{list_insert_before}
use borfos.Pci.{PciPorts, pciread32, pciread16}
use borfos.Pci.Tables.{PciTables, put, allocate_device, allocate_subclass}

pub record PciState : Type 0 where
  pub ports : PciPorts
  pub tables : PciTables

-- `pciread32`, and the state behind it.
abbrev pub read : ℕ → ℕ → ℕ → ℕ → PciState → ℕ × PciState
read bus slot func offset s =
    let (v, p) = pciread32 bus slot func offset s.ports in (v, record s { ports = p })

-- `for (int i = 0; i <=5; ++i) device->bar[i] = ...`
unfoldable pub read_bars : ℕ → ℕ → ℕ → ℕ → ℕ → (ℕ → ℕ) → PciState → (ℕ → ℕ) × PciState
read_bars zero i bus slot func bar s = (bar, s)
read_bars (suc rounds) i bus slot func bar s =
    let (v, s1) = read bus slot func (0x10 + i * 4) s in
    read_bars rounds (i + 1) bus slot func (put bar i v) s1

-- The device's entry in the list of its subclass, and its fields.
unfoldable pub fill_device : ℕ → ℕ → ℕ → ℕ → ℕ → ℕ → ℕ → PciState → PciState
fill_device device subclass bus slot func dv category s =
    let (bar, s1) = read_bars 6 0 bus slot func (s.tables.device device).bar s in
    let (reg3c, s2) = read bus slot func 0x3c s1 in
    record s2 {
      tables = record s2.tables {
        links = list_insert_before s2.tables.links subclass (device + 40);
        device = put s2.tables.device device (record {
          bus = u8 bus;
          slot = u8 slot;
          function = u8 func;
          reg00 = dv;
          reg08 = category;
          bar = bar;
          reg3c = reg3c;
        });
      };
    }

module _ (calloc : ℕ → ℕ) where
  unfoldable pub add_device : ℕ → ℕ → ℕ → ℕ → ℕ → PciState → Result PciState
  add_device bus slot func dv category s =
      let (device, t1) = allocate_device calloc bus slot func s.tables in
      let (subclass, t2) =
        allocate_subclass calloc (category / 2 ^ 24) (bit_and (category / 2 ^ 16) 0xFF) t1 in
      if device == 0
      then panic
      else if subclass == 0
      then panic
      else ok (fill_device device subclass bus slot func dv category (record s { tables = t2 }))

  -- `check_bus` is what `pci_check_bus` does behind a bridge.
  unfoldable pub pci_check_function :
      (ℕ → PciState → Result PciState) → ℕ → ℕ → ℕ → PciState → Result PciState
  pci_check_function check_bus bus slot func s =
      let (dv, s1) = read bus slot func 0 s in
      let (category, s2) = read bus slot func 0x8 s1 in
      let (reg18, s3) = read bus slot func 0x18 s2 in
      if bit_and dv 0xFFFF == 0xFFFF
      then ok s1
      else if category / 2 ^ 16 == 0x604
      then check_bus (bit_and (reg18 / 2 ^ 8) 0xFF) s3
      else add_device bus slot func dv category s2

  -- `for(function = 0; function < functions; ++function)`
  unfoldable pub function_loop :
      (ℕ → PciState → Result PciState) → ℕ → ℕ → ℕ → ℕ → PciState → Result PciState
  function_loop check_bus zero function bus slot s = ok s
  function_loop check_bus (suc rounds) function bus slot s =
      pci_check_function check_bus bus slot function s
      >>= function_loop check_bus rounds (function + 1) bus slot

  unfoldable pub pci_check_device :
      (ℕ → PciState → Result PciState) → ℕ → ℕ → PciState → Result PciState
  pci_check_device check_bus bus slot s =
      let (dv, s1) = read bus slot 0 0 s in
      let (header, s2) = read bus slot 0 0xC s1 in
      let functions = if not (bit_and header 0x800000 == 0) then 8 else 1 in
      if u16 dv == 0xFFFF then ok s1 else function_loop check_bus functions 0 bus slot s2

  -- `for(slot = 0; slot < 32; ++slot)`
  unfoldable pub slot_loop :
      (ℕ → PciState → Result PciState) → ℕ → ℕ → ℕ → PciState → Result PciState
  slot_loop check_bus zero slot bus s = ok s
  slot_loop check_bus (suc rounds) slot bus s =
      pci_check_device check_bus bus slot s >>= slot_loop check_bus rounds (slot + 1) bus

  unfoldable pub pci_check_bus : ℕ → ℕ → PciState → Result PciState
  pci_check_bus zero bus s = out_of_fuel
  pci_check_bus (suc fuel) bus s = slot_loop (pci_check_bus fuel) 32 0 bus s

  -- The loop of the constructor, over the functions of the host bridge.
  unfoldable pub host_loop : ℕ → ℕ → ℕ → PciState → Result PciState
  host_loop fuel zero function s = ok s
  host_loop fuel (suc rounds) function s =
      let (v, p) = pciread16 0 0 function 0 s.ports in
      let s1 = record s { ports = p } in
      (if not (v == 0xFFFF) then pci_check_bus fuel function s1 else ok s1)
      >>= host_loop fuel rounds (function + 1)

  -- `CONSTRUCTOR(pci)`
  unfoldable pub pci_constructor : ℕ → PciState → Result PciState
  pci_constructor fuel s =
      let (header, s1) = read 0 0 0 0xC s in
      if not (bit_and header 0x800000 == 0) then host_loop fuel 8 0 s1 else pci_check_bus fuel 0 s1
