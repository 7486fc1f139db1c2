-- ===== src/Pci/Function.antt =====
-- kernel/drivers/pci.c: the scan of one function returns and finds it.
use Prim.Native.Nat.{bit_and}
use borfos.Common.{
  ℕ, ◌/◌, ◌^◌, ◌≡◌, ◌≢◌, refl, sym, ap, ◌∙◌, inl, inr, true, false, ◌==◌, arith, Bool-cases, u32,
}
use borfos.System.{Result, ok}
use borfos.Pci.{config_address, pciread32, pci_set_offset}
use borfos.Pci.Tables.{PciTables, pci_get_by_location, allocate_device, allocate_subclass}
use borfos.Pci.Scan.{PciState, fill_device, add_device, pci_check_function}
use borfos.Pci.Lookup.{same_location, allocate_device-IsAllocated}
use borfos.Pci.Found.{
  reg, is_there, is_bridge, bus_behind, IsKept, IsKept-trans, Found, IsFound, fill_device-same,
}

lookup_eq :
    (b t f : ℕ) (s s' : PciTables)
    → s'.buses ≡ s.buses
    → pci_get_by_location b t f s' ≡ pci_get_by_location b t f s
unfolding pci_get_by_location
lookup_eq b t f s s' e = rw e refl

pub IsKept-refl : (regs : ℕ → ℕ) (s : PciState) → s.ports.registers ≡ regs → IsKept regs s s
IsKept-refl regs s e = record { same = e; stays = λ b t f n. refl }

-- A state with another address at the ports.
pub addressed :
    (regs : ℕ → ℕ) (s : PciState) (a : ℕ)
    → IsKept regs s (record s { ports = record { address = a; registers = regs } })
addressed regs s a = record { same = refl; stays = λ b t f n. refl }

pub IsFound-eq :
    (regs : ℕ → ℕ) (b t f g : ℕ) (s : PciState)
    → f ≡ g
    → IsFound regs b t f s
    → IsFound regs b t g s
IsFound-eq regs b t f g s e i = rw e at i

module _ (calloc : ℕ → ℕ) (memory : (i : ℕ) → calloc i ≢ 0) (regs : ℕ → ℕ) where
  allocate_subclass-same :
      (cl sb : ℕ) (s : PciTables)
      → ((allocate_subclass calloc cl sb s).1.buses ≡ s.buses)
        × ((allocate_subclass calloc cl sb s).0 ≢ 0)
  unfolding allocate_subclass
  allocate_subclass-same cl sb s = elim (Bool-cases (s.classes cl == 0)) [
    | inr e ↦ rw e (refl, λ z. absurd (ground (arith, e, z)))
    | inl e ↦
        let n = memory s.allocations in
        let f : (calloc s.allocations == 0) ≡ false = ground (arith, n) in
        rw (e, f) (refl, λ z. n (omega (arith, z)))
  ]

  pub after : (s s1 s2 : PciState) → IsKept regs s s1 → IsKept regs s1 s2 → IsKept regs s s2
  after s s1 s2 i j = IsKept-trans regs s s1 s2 i j

  -- A result that is a state, with what `G` says of it.
  abbrev pub Returns : PciState → Result PciState → (PciState → Type 0) → Type 0
  Returns s r G = (s' : PciState) × (r ≡ ok s') × IsKept regs s s' × G s'

  add_device-Returns :
      (b t f dv category : ℕ) (s : PciState)
      → s.ports.registers ≡ regs
      → Returns s
          (add_device calloc b t f dv category s)
          (λ s'. pci_get_by_location b t f s'.tables ≢ 0)
  unfolding add_device
  add_device-Returns b t f dv category s e =
      let r = allocate_device calloc b t f s.tables in
      let i = allocate_device-IsAllocated calloc b t f s.tables in
      let q = allocate_subclass calloc (category / 2 ^ 24) (bit_and (category / 2 ^ 16) 0xFF) r.1 in
      let (u, v) =
        allocate_subclass-same (category / 2 ^ 24) (bit_and (category / 2 ^ 16) 0xFF) r.1 in
      let n = i.enough memory in
      let x : (r.0 == 0) ≡ false = ground (arith, n) in
      let y : (q.0 == 0) ≡ false = ground (arith, v) in
      let s1 = record s { tables = q.1 } in
      let s2 = fill_device r.0 q.0 b t f dv category s1 in
      let (g, h) = fill_device-same r.0 q.0 b t f dv category s1 in
      let k : s2.tables.buses ≡ r.1.buses = h ∙ u in
      (
        s2,
        rw (x, y) refl,
        record {
          same = g ∙ e;
          stays = λ b' t' f' m.
              lookup_eq b' t' f' r.1 s2.tables k
              ∙ elim (Bool-cases (same_location b t f b' t' f')) [
                | inr d ↦ i.others b' t' f' d
                | inl d ↦ here b' t' f' d m
              ];
        },
        λ z. n (sym i.at ∙ sym (lookup_eq b t f r.1 s2.tables k) ∙ z),
      )
    where
      here :
          (b' t' f' : ℕ)
          → same_location b t f b' t' f' ≡ true
          → pci_get_by_location b' t' f' s.tables ≢ 0
          → pci_get_by_location b' t' f' (allocate_device calloc b t f s.tables).1
            ≡ pci_get_by_location b' t' f' s.tables
      here b' t' f' d m =
          let zb : b' ≡ b = ground (arith, d) in
          let zt : t' ≡ t = ground (arith, d) in
          let zf : f' ≡ f = ground (arith, d) in
          rw (zb, zt, zf)
            (ap (λ (r : ℕ × PciTables). pci_get_by_location b t f r.1)
              ((allocate_device-IsAllocated calloc b t f s.tables).kept (rw (zb, zt, zf) at m)))

  -- What a scan of a bus leaves.
  abbrev pub Scans : (ℕ → PciState → Result PciState) → ℕ → Type 0
  Scans check bus =
      (s : PciState) → s.ports.registers ≡ regs → Returns s (check bus s) (λ s'. Found regs bus s')

  pub pci_check_function-Returns :
      (check : ℕ → PciState → Result PciState) (b t f : ℕ) (s : PciState)
      → (is_there regs b t f ≡ true
          → is_bridge regs b t f ≡ true
          → Scans check (bus_behind regs b t f))
      → s.ports.registers ≡ regs
      → Returns s (pci_check_function calloc check b t f s) (λ s'. IsFound regs b t f s')
  unfolding pci_check_function pciread32 pci_set_offset
  pci_check_function-Returns check b t f s deeper e =
      let s1 = record s {
        ports = record { address = u32 (config_address b t f 0); registers = regs };
      } in
      let s2 = record s {
        ports = record { address = u32 (config_address b t f 0x8); registers = regs };
      } in
      let s3 = record s {
        ports = record { address = u32 (config_address b t f 0x18); registers = regs };
      } in
      let category = reg regs b t f 0x8 in
      elim (Bool-cases (bit_and (reg regs b t f 0) 0xFFFF == 0xFFFF)) [
        | inl n ↦ (
          s1,
          rw (e, n) refl,
          addressed regs s (u32 (config_address b t f 0)),
          record {
            itself = λ p q. absurd (ground (arith, n, p));
            beyond = λ p q. absurd (ground (arith, n, p));
          },
        )
        | inr n ↦ elim (Bool-cases (category / 2 ^ 16 == 0x604)) [
          | inl m ↦
              let (s', a, k, g) = deeper (ground (arith, n)) m s3 refl in
              (
                s',
                rw (e, n, m) a,
                after s s3 s' (addressed regs s (u32 (config_address b t f 0x18))) k,
                record { itself = λ p q. absurd (ground (arith, m, q)); beyond = λ p q. g },
              )
          | inr m ↦
              let (s', a, k, g) = add_device-Returns b t f (reg regs b t f 0) category s2 refl in
              (
                s',
                rw (e, n, m) a,
                after s s2 s' (addressed regs s (u32 (config_address b t f 0x8))) k,
                record { itself = λ p q. g; beyond = λ p q. absurd (ground (arith, m, q)) },
              )
        ]
      ]
