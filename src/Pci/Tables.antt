-- ===== src/Pci/Tables.antt =====
-- kernel/drivers/pci.c: the tables of the devices by location and by class. What the calls of
-- `calloc` and `malloc` return, one after the other, is a parameter, with 0 for NULL; a table has
-- one owner, so that its contents stand in place of the pointer to it.
use borfos.Common.{ℕ, zero, suc, ◌+◌, ◌*◌, Option, none, some, ◌==◌, if◌then◌else◌}
use borfos.Links.{Links, list_init}
use borfos.Pci.{PciDevice}
use borfos.System.{write}

-- `pci_slot_t` and `pci_bus_t`
abbrev pub PciSlot : Type 0
PciSlot = ℕ → ℕ

abbrev pub PciBus : Type 0
PciBus = ℕ → Option PciSlot

-- `buses`, `classes`, the nodes of the lists, the devices at their addresses, and the number of
-- allocations so far.
pub record PciTables : Type 0 where
  pub buses : ℕ → Option PciBus
  pub classes : ℕ → ℕ
  pub links : Links
  pub device : ℕ → PciDevice
  pub allocations : ℕ

abbrev pub function_in : ℕ → Option PciSlot → ℕ
function_in function none = 0
function_in function (some slot) = slot function

abbrev pub slot_in : ℕ → Option PciBus → Option PciSlot
slot_in slot none = none
slot_in slot (some bus) = bus slot

unfoldable pub pci_get_by_location : ℕ → ℕ → ℕ → PciTables → ℕ
pci_get_by_location bus slot function s = function_in function (slot_in slot (s.buses bus))

abbrev pub put {ℓ} : {A : Type ℓ} → (ℕ → A) → ℕ → A → ℕ → A
put f a v b = if b == a then v else f b

module _ (calloc : ℕ → ℕ) where
  abbrev counted : PciTables → PciTables
  counted s = record s { allocations = s.allocations + 1 }

  -- `if (!buses[bus])`: the bus, or `none` for NULL, and the state.
  unfoldable pub need_bus : ℕ → Option PciBus → PciTables → Option PciBus × PciTables
  need_bus bus (some b) s = (some b, s)
  need_bus bus none s =
      if calloc s.allocations == 0
      then (none, counted s)
      else (some (λ i. none), record (counted s) { buses = put s.buses bus (some (λ i. none)) })

  -- `if (!pci_bus->slots[slot])`
  unfoldable pub need_slot :
      ℕ → ℕ → PciBus → Option PciSlot → PciTables → Option PciSlot × PciTables
  need_slot bus slot b (some t) s = (some t, s)
  need_slot bus slot b none s = if calloc s.allocations == 0 then (none, counted s) else (
    some (λ i. 0),
    record (counted s) { buses = put s.buses bus (some (put b slot (some (λ i. 0)))) },
  )

  -- `if (!pci_slot->functions[func])`, and the function.
  unfoldable pub need_function : ℕ → ℕ → ℕ → PciBus → PciSlot → PciTables → ℕ × PciTables
  need_function bus slot func b t s =
      let d = calloc s.allocations in
      if t func == 0
      then (
        d,
        record (counted s) { buses = put s.buses bus (some (put b slot (some (put t func d)))) },
      )
      else (t func, s)

  -- The steps behind the first, and behind the second allocation.
  unfoldable pub in_slot : ℕ → ℕ → ℕ → PciBus → Option PciSlot × PciTables → ℕ × PciTables
  in_slot bus slot func b (none, s) = (0, s)
  in_slot bus slot func b (some t, s) = need_function bus slot func b t s

  unfoldable pub in_bus : ℕ → ℕ → ℕ → Option PciBus × PciTables → ℕ × PciTables
  in_bus bus slot func (none, s) = (0, s)
  in_bus bus slot func (some b, s) = in_slot bus slot func b (need_slot bus slot b (b slot) s)

  unfoldable pub allocate_device : ℕ → ℕ → ℕ → PciTables → ℕ × PciTables
  allocate_device bus slot func s = in_bus bus slot func (need_bus bus (s.buses bus) s)

  -- `ARRAY_FOREACH(pci_subclass, ...)`: the lists at `head` and behind it, of 8 bytes each.
  unfoldable pub init_lists : ℕ → ℕ → Links → Links
  init_lists zero head l = l
  init_lists (suc n) head l = init_lists n (head + 8) (list_init l head)

  unfoldable pub allocate_subclass : ℕ → ℕ → PciTables → ℕ × PciTables
  allocate_subclass cl subclass s =
      let a = calloc s.allocations in
      let s1 = counted s in
      if s.classes cl == 0
      then (if a == 0 then (0, s1) else (
        a + 8 * subclass,
        record s1 { classes = write s.classes cl a; links = init_lists 256 a s.links },
      ))
      else (s.classes cl + 8 * subclass, s)

unfoldable pub pci_get_devices_by_class : ℕ → ℕ → PciTables → ℕ
pci_get_devices_by_class cl sb s = if s.classes cl == 0 then 0 else s.classes cl + 8 * sb
