-- ===== src/Interrupts/Gates.antt =====
-- kernel/drivers/cpu/idt.c: the table that the constructor leaves.
use borfos.Common.{
  ℕ, zero, suc, ◌+◌, ◌*◌, ◌^◌, ◌<◌, ◌≤◌, ◌≡◌, refl, ap, ◌∙◌, inl, inr, true, ◌==◌, ltb, arith,
  Bool-cases, if◌then◌else◌,
}
use borfos.Interrupts.{Interrupts, set_gate, mark_used}
use borfos.Interrupts.Entry.{set_gates, idt_constructor}

-- The gate `n` leads to `address`, in the kernel's code segment, as an interrupt gate.
pub record IsGate (s : Interrupts) (n address : ℕ) : Type 0 where
  pub leads : s.offset_2 n * 2 ^ 16 + s.offset_1 n ≡ address
  pub selects : s.selector n ≡ 0x8
  pub kind : s.type_attr n ≡ 0x8e

set_gates-below :
    (isr : ℕ → ℕ) (rounds n m : ℕ) (s : Interrupts)
    → m < n
    → ((set_gates isr rounds n s).offset_1 m ≡ s.offset_1 m)
      × ((set_gates isr rounds n s).offset_2 m ≡ s.offset_2 m)
      × ((set_gates isr rounds n s).selector m ≡ s.selector m)
      × ((set_gates isr rounds n s).type_attr m ≡ s.type_attr m)
unfolding set_gates set_gate
set_gates-below isr zero n m s h = (refl, refl, refl, refl)
set_gates-below isr (suc rounds) n m s h =
    let (a, b, c, d) =
      set_gates-below isr rounds (n + 1) m (set_gate n (isr n) s) (omega (arith, h)) in
    (ground (arith, a, h), ground (arith, b, h), ground (arith, c, h), ground (arith, d, h))

set_gate-IsGate :
    (n address : ℕ) (s : Interrupts) → address < 2 ^ 32 → IsGate (set_gate n address s) n address
unfolding set_gate
set_gate-IsGate n address s h = record {
  leads = ground (arith, h);
  selects = ground arith;
  kind = ground arith;
}

set_gates-IsGate :
    (isr : ℕ → ℕ) (rounds n m : ℕ) (s : Interrupts)
    → ((i : ℕ) → isr i < 2 ^ 32)
    → n ≤ m
    → m < n + rounds
    → IsGate (set_gates isr rounds n s) m (isr m)
unfolding set_gates
set_gates-IsGate isr zero n m s w l h = absurd (omega (arith, l, h))
set_gates-IsGate isr (suc rounds) n m s w l h = elim (Bool-cases (n == m)) [
  | inr e ↦
      set_gates-IsGate isr rounds (n + 1) m (set_gate n (isr n) s) w (ground (arith, l, e))
        (omega (arith, h))
  | inl e ↦
      let z : n ≡ m = ground (arith, e) in
      let (a, b, c, d) =
        set_gates-below isr rounds (n + 1) m (set_gate n (isr n) s) (omega (arith, z)) in
      let g : IsGate (set_gate m (isr m) s) m (isr m) = set_gate-IsGate m (isr m) s (w m) in
      let g' : IsGate (set_gate n (isr n) s) m (isr m) = rw z g in
      record { leads = omega (arith, a, b, g'.leads); selects = c ∙ g'.selects; kind = d ∙ g'.kind }
]

pub set_gates-rest :
    (isr : ℕ → ℕ) (rounds n : ℕ) (s : Interrupts)
    → ((set_gates isr rounds n s).handlers ≡ s.handlers)
      × ((set_gates isr rounds n s).used_interrupts ≡ s.used_interrupts)
unfolding set_gates set_gate
set_gates-rest isr zero n s = (refl, refl)
set_gates-rest isr (suc rounds) n s = set_gates-rest isr rounds (n + 1) (set_gate n (isr n) s)

-- The constructor leads the gate of each of the 256 numbers to its entry, leaves the handlers alone,
-- and takes the numbers of the 32 exceptions and no other one.
pub idt_constructor-gates :
    (isr : ℕ → ℕ) (s : Interrupts) (m : ℕ)
    → ((i : ℕ) → isr i < 2 ^ 32)
    → m < 256
    → IsGate (idt_constructor isr s) m (isr m)
      × ((idt_constructor isr s).handlers m ≡ s.handlers m)
      × ((idt_constructor isr s).used_interrupts m
          ≡ (if ltb m 0x20 then true else s.used_interrupts m))
unfolding idt_constructor mark_used
idt_constructor-gates isr s m w h =
    let g = set_gates-IsGate isr 256 0 m s w (omega arith) (omega (arith, h)) in
    let (a, b) = set_gates-rest isr 256 0 s in
    let same : (set_gates isr 256 0 s).used_interrupts m ≡ s.used_interrupts m = ap (λ f. f m) b in
    (
      record { leads = g.leads; selects = g.selects; kind = g.kind },
      ap (λ f. f m) a,
      elim (Bool-cases (ltb m 0x20)) [
        | inl e ↦ ground (arith, e)
        | inr e ↦ ground (arith, e, same)
      ],
    )
