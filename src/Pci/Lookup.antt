-- ===== src/Pci/Lookup.antt =====
-- kernel/drivers/pci.c: what `allocate_device` does to the devices at all locations.
use borfos.Common.{
  ℕ, ◌+◌, ◌≡◌, ◌≢◌, ◌⊎◌, refl, ap, ◌∙◌, inl, inr, Bool, false, Option, some, none, ◌==◌, ==_self,
  ◌&&◌, arith, Bool-cases,
}
use borfos.Pci.Tables.{
  PciSlot, PciBus, PciTables, function_in, slot_in, put, pci_get_by_location, need_bus, need_slot,
  need_function, in_slot, in_bus, allocate_device,
}

-- Whether two locations are the same.
abbrev pub same_location : ℕ → ℕ → ℕ → ℕ → ℕ → ℕ → Bool
same_location b t f b' t' f' = b' == b && (t' == t && f' == f)

-- The result is at the location behind the call, the other locations have what they had, and so has
-- this one, unless it had nothing; with memory to allocate, the result is a device.
pub record IsAllocated (calloc : ℕ → ℕ) (b t f : ℕ) (s : PciTables) (r : ℕ × PciTables)
    : Type 0 where
  pub at : pci_get_by_location b t f r.1 ≡ r.0
  pub others :
      (b' t' f' : ℕ)
      → same_location b t f b' t' f' ≡ false
      → pci_get_by_location b' t' f' r.1 ≡ pci_get_by_location b' t' f' s
  pub kept : pci_get_by_location b t f s ≢ 0 → r ≡ (pci_get_by_location b t f s, s)
  pub enough : ((i : ℕ) → calloc i ≢ 0) → r.0 ≢ 0

split {ℓ} : {A : Type ℓ} → (x : Option A) → (x ≡ none) ⊎ ((a : A) × (x ≡ some a))
split none = inl refl
split (some a) = inr (a, refl)

module _ (calloc : ℕ → ℕ) (b t f : ℕ) where
  put_others :
      (buses : ℕ → Option PciBus) (bus bus' : PciBus) (slot : PciSlot) (d : ℕ)
      → buses b ≡ some bus'
      → bus' t ≡ some slot
      → ((t' : ℕ) → t' == t ≡ false → bus t' ≡ bus' t')
      → (b' t' f' : ℕ) → same_location b t f b' t' f' ≡ false
      → function_in f' (slot_in t' (put buses b (some (put bus t (some (put slot f d)))) b'))
        ≡ function_in f' (slot_in t' (buses b'))
  put_others buses bus bus' slot d e k same b' t' f' n = elim (Bool-cases (b' == b)) [
    | inr x ↦ rw x refl
    | inl x ↦
        let z : b' ≡ b = ground (arith, x) in
        let e' : buses b' ≡ some bus' = rw z e in
        elim (Bool-cases (t' == t)) [
          | inr y ↦ rw (x, e', y) (ap (λ o. function_in f' o) (same t' y))
          | inl y ↦
              let w : t' ≡ t = ground (arith, y) in
              let k' : bus' t' ≡ some slot = rw w k in
              let v : f' == f ≡ false = ground (arith, n, x, y) in rw (x, e', y, k', v) refl
        ]
  ]

  -- A state in which nothing but an empty table is new.
  from_empty :
      (s s1 : PciTables) (r : ℕ × PciTables)
      → ((b' t' f' : ℕ) → pci_get_by_location b' t' f' s1 ≡ pci_get_by_location b' t' f' s)
      → pci_get_by_location b t f s ≡ 0
      → IsAllocated calloc b t f s1 r
      → IsAllocated calloc b t f s r
  from_empty s s1 r same e i = record {
    at = i.at;
    others = λ b' t' f' n. i.others b' t' f' n ∙ same b' t' f';
    kept = λ n. absurd (n e);
    enough = i.enough;
  }

  -- A state with nothing new, for a call that allocates nothing.
  failed :
      (s s1 : PciTables)
      → ((b' t' f' : ℕ) → pci_get_by_location b' t' f' s1 ≡ pci_get_by_location b' t' f' s)
      → pci_get_by_location b t f s ≡ 0
      → (((i : ℕ) → calloc i ≢ 0) → ⊥)
      → IsAllocated calloc b t f s (0, s1)
  failed s s1 same e n = record {
    at = same b t f ∙ e;
    others = λ b' t' f' d. same b' t' f';
    kept = λ m. absurd (m e);
    enough = λ a. absurd (n a);
  }

  -- The last step, in a state that has the slot; `bus` is the bus but for it.
  need_function-IsAllocated :
      (s : PciTables) (bus bus' : PciBus) (slot : PciSlot)
      → s.buses b ≡ some bus'
      → bus' t ≡ some slot
      → ((t' : ℕ) → t' == t ≡ false → bus t' ≡ bus' t')
      → IsAllocated calloc b t f s (need_function calloc b t f bus slot s)
  unfolding need_function pci_get_by_location
  need_function-IsAllocated s bus bus' slot e k same = elim (Bool-cases (slot f == 0)) [
    | inr h ↦ rw h (record {
      at = rw (e, k) refl;
      others = λ b' t' f' n. refl;
      kept = λ n. rw (e, k) refl;
      enough = λ n z. absurd (ground (arith, h, z));
    })
    | inl h ↦ rw h (record {
      at = rw (==_self b, ==_self t, ==_self f) refl;
      others = put_others s.buses bus bus' slot (calloc s.allocations) e k same;
      kept = λ n. absurd (n (rw (e, k) (ground (arith, h))));
      enough = λ n. n s.allocations;
    })
  ]

  empty_slot :
      (buses : ℕ → Option PciBus) (bus : PciBus)
      → buses b ≡ some bus
      → bus t ≡ none
      → (b' t' f' : ℕ)
      → function_in f' (slot_in t' (put buses b (some (put bus t (some (λ i. 0)))) b'))
        ≡ function_in f' (slot_in t' (buses b'))
  empty_slot buses bus e k b' t' f' = elim (Bool-cases (b' == b)) [
    | inr x ↦ rw x refl
    | inl x ↦
        let z : b' ≡ b = ground (arith, x) in
        let e' : buses b' ≡ some bus = rw z e in
        elim (Bool-cases (t' == t)) [
          | inr y ↦ rw (x, e', y) refl
          | inl y ↦
              let w : t' ≡ t = ground (arith, y) in
              let k' : bus t' ≡ none = rw w k in rw (x, e', y, k') refl
        ]
  ]

  empty_bus :
      (buses : ℕ → Option PciBus)
      → buses b ≡ none
      → (b' t' f' : ℕ)
      → function_in f' (slot_in t' (put buses b (some (λ i. none)) b'))
        ≡ function_in f' (slot_in t' (buses b'))
  empty_bus buses e b' t' f' = elim (Bool-cases (b' == b)) [
    | inr x ↦ rw x refl
    | inl x ↦
        let z : b' ≡ b = ground (arith, x) in let e' : buses b' ≡ none = rw z e in rw (x, e') refl
  ]

  in_slot-IsAllocated :
      (s : PciTables) (bus : PciBus)
      → s.buses b ≡ some bus
      → IsAllocated calloc b t f s (in_slot calloc b t f bus (need_slot calloc b t bus (bus t) s))
  unfolding in_slot need_slot pci_get_by_location
  in_slot-IsAllocated s bus e = elim (split (bus t)) [
    | inr (slot, k) ↦ rw k (need_function-IsAllocated s bus bus slot e k (λ t' n. refl))
    | inl k ↦
        let s1 = record s {
          allocations = s.allocations + 1;
          buses = put s.buses b (some (put bus t (some (λ i. 0))));
        } in
        elim (Bool-cases (calloc s.allocations == 0)) [
          | inl h ↦
              rw (k, h)
                (failed s (record s { allocations = s.allocations + 1 }) (λ x y z. refl)
                  (rw (e, k) refl) (λ n. n s.allocations (ground (arith, h))))
          | inr h ↦
              rw (k, h)
                (from_empty s s1 (need_function calloc b t f bus (λ i. 0) s1)
                  (empty_slot s.buses bus e k) (rw (e, k) refl)
                  (need_function-IsAllocated s1 bus (put bus t (some (λ i. 0))) (λ i. 0)
                    (rw (==_self b) refl) (rw (==_self t) refl) (λ t' n. rw n refl)))
        ]
  ]

  -- `allocate_device` gives the device of its location, a new one if there was none, and changes
  -- no other location. It fails only if an allocation does.
  pub allocate_device-IsAllocated :
      (s : PciTables) → IsAllocated calloc b t f s (allocate_device calloc b t f s)
  unfolding allocate_device in_bus need_bus pci_get_by_location
  allocate_device-IsAllocated s = elim (split (s.buses b)) [
    | inr (bus, e) ↦ rw e (in_slot-IsAllocated s bus e)
    | inl e ↦
        let s1 = record s {
          allocations = s.allocations + 1;
          buses = put s.buses b (some (λ i. none));
        } in
        elim (Bool-cases (calloc s.allocations == 0)) [
          | inl h ↦
              rw (e, h)
                (failed s (record s { allocations = s.allocations + 1 }) (λ x y z. refl) (rw e refl)
                  (λ n. n s.allocations (ground (arith, h))))
          | inr h ↦
              rw (e, h)
                (from_empty s s1
                  (in_slot calloc b t f (λ i. none) (need_slot calloc b t (λ i. none) none s1))
                  (empty_bus s.buses e) (rw e refl)
                  (in_slot-IsAllocated s1 (λ i. none) (rw (==_self b) refl)))
        ]
  ]
