-- ===== src/Pci/Tests.antt =====
-- The theorems about the configuration space at a device, and about the scan at two buses.
use Prim.Native.Nat.{bit_or}
use borfos.Common.{
  ℕ, ◌+◌, ◌*◌, ◌%◌, ◌/◌, ◌^◌, ◌<◌, ◌≡◌, ◌≢◌, refl, ◌∙◌, true, none, arith, ◌==◌, if◌then◌else◌, u32,
}
use borfos.Common.Bits.{bit_or-low, bit_or_comm}
use borfos.System.{ok}
use borfos.Pci.{PciDevice, PciPorts, config_address}
use borfos.Pci.Tables.{PciTables, pci_get_by_location}
use borfos.Pci.Scan.{PciState, pci_constructor}
use borfos.Pci.Found.{is_there, is_bridge, bus_behind, on_bus, behind}
use borfos.Pci.Start.{pci_constructor-finds}

abbrev device : PciDevice
device = record { bus = 0; slot = 3; function = 1; reg00 = 0; reg08 = 0; bar = λ i. 0; reg3c = 0 }

abbrev ports : PciPorts
ports = record { address = 0; registers = λ a. 7 }

-- A bridge in slot 1 of bus 0, and a device in slot 2 of bus 1, behind it.
abbrev machine : ℕ → ℕ
machine a =
    if a == 0x80000800
    then 0x12341234
    else if a == 0x80000808
    then 0x6040000
    else if a == 0x80000818
    then 0x100
    else if a == 0x80011000
    then 0x11112222
    else if a == 0x80011008
    then 0x2000000
    else if a % 256 == 0
    then 0xFFFFFFFF
    else 0

abbrev tables : PciTables
tables = record {
  buses = λ b. none;
  classes = λ c. 0;
  links = record { prev = λ a. a; next = λ a. a };
  device = λ a. device;
  allocations = 0;
}

abbrev start : PciState
start = record { ports = record { address = 0; registers = machine }; tables = tables }

-- The fields of the address do not overlap.
address_sum :
    (b t f : ℕ)
    → b < 256
    → t < 32
    → f < 8
    → config_address b t f 8 ≡ 0x80000000 + b * 2 ^ 16 + t * 2 ^ 11 + f * 2 ^ 8 + 8
unfolding config_address
address_sum b t f hb ht hf =
    let e1 : bit_or (b * 2 ^ 16) (t * 2 ^ 11) ≡ (b * 32 + t) * 2 ^ 11 =
      bit_or-low 16 b (t * 2 ^ 11) (omega (arith, ht)) ∙ omega arith in
    let e2 : bit_or ((b * 32 + t) * 2 ^ 11) (f * 2 ^ 8) ≡ (b * 256 + t * 8 + f) * 2 ^ 8 =
      bit_or-low 11 (b * 32 + t) (f * 2 ^ 8) (omega (arith, hf)) ∙ omega arith in
    let e3 : bit_or ((b * 256 + t * 8 + f) * 2 ^ 8) 8 ≡ b * 2 ^ 16 + t * 2 ^ 11 + f * 2 ^ 8 + 8 =
      bit_or-low 8 (b * 256 + t * 8 + f) 8 (omega arith) ∙ omega arith in
    let x = b * 2 ^ 16 + t * 2 ^ 11 + f * 2 ^ 8 + 8 in
    let e4 : bit_or x 0x80000000 ≡ 0x80000000 + x =
      bit_or_comm x 0x80000000 ∙ bit_or-low 31 1 x (omega (arith, hb, ht, hf)) in
    rw (e1, e2, e3) (e4 ∙ omega arith)

only_bridge : (a : ℕ) → (u32 (machine a) / 2 ^ 16 == 0x604) ≡ true → a ≡ 0x80000808
only_bridge a h = ground (arith, h)

first_bus : 0 < bus_behind machine 0 1 0
unfolding config_address
first_bus = omega arith

upwards :
    (b t f : ℕ)
    → b < 256
    → t < 32
    → f < 8
    → is_there machine b t f ≡ true
    → is_bridge machine b t f ≡ true
    → b < bus_behind machine b t f
upwards b t f hb ht hf p q =
    let e : u32 (config_address b t f 8) ≡ 0x80000808 =
      only_bridge (u32 (config_address b t f 8)) q in
    let s = address_sum b t f hb ht hf in
    let zb : b ≡ 0 = omega (arith, e, s, hb, ht, hf) in
    let zt : t ≡ 1 = omega (arith, e, s, hb, ht, hf) in
    let zf : f ≡ 0 = omega (arith, e, s, hb, ht, hf) in rw (zb, zt, zf) first_bus

pci_constructor-finds_example :
    (s' : PciState) × (pci_constructor (λ i. 4096 + i) 256 start ≡ ok s')
    × (pci_get_by_location 1 2 0 s'.tables ≢ 0)
unfolding config_address
pci_constructor-finds_example =
    pci_constructor-finds (λ i. 4096 + i) (λ i z. absurd (omega (arith, z))) machine 256
      (omega arith) upwards 0 1 2 0 start refl refl
      (behind {t = 1} {f = 0} (omega arith) (omega arith) refl refl refl
        (on_bus (omega arith) (omega arith) refl refl refl))
