-- ===== src/Pic/Start.antt =====
-- kernel/drivers/pic.c: the constructor behind the one of the interrupt table.
use borfos.Common.{
  ◌&&◌, ◌⊎◌, ℕ, zero, suc, ◌+◌, ◌^◌, ◌<◌, ◌≤◌, ◌≡◌, refl, arith, true, false, some, leb, ltb, ap,
  if◌then◌else◌,
}
use borfos.System.{ok}
use borfos.Interrupts.{
  Interrupts, set_kernel_interrupt_handler, set_interrupt_handler, mark_used, allocate_interrupts,
}
use borfos.Interrupts.Allocate.{
  allocate_interrupts-finds, allocate_interrupts-ReservationOutcome, ReservationOutcome,
}
use borfos.Interrupts.Entry.{idt_constructor}
use borfos.Interrupts.Gates.{set_gates-rest}
use borfos.Pic.{Pic, pic_setup, install_loop, install_handlers, pic_constructor}

install_loop-handlers :
    (rounds n handler : ℕ) (s : Interrupts) (m : ℕ)
    → ((install_loop rounds n handler s).handlers m
        ≡ (if leb n m && ltb m (n + rounds) then handler else s.handlers m))
      × ((install_loop rounds n handler s).type_attr m
          ≡ (if leb n m && ltb m (n + rounds) then 0x8e else s.type_attr m))
      × ((install_loop rounds n handler s).used_interrupts ≡ s.used_interrupts)
unfolding install_loop set_kernel_interrupt_handler set_interrupt_handler
install_loop-handlers zero n handler s m = (ground arith, ground arith, refl)
install_loop-handlers (suc rounds) n handler s m =
    let (a, b, c) =
      install_loop-handlers rounds (n + 1) handler (set_kernel_interrupt_handler n handler s) m in
    (ground (arith, a), ground (arith, b), c)

-- The numbers from 0x20 to 0x2f lead to `handler` by interrupt gates and are in use; no other
-- handler has changed.
pub record IsInstalled (handler : ℕ) (s s' : Interrupts) : Type 0 where
  pub serves : (irq : ℕ) → irq < 16 → s'.handlers (0x20 + irq) ≡ handler
  pub kind : (irq : ℕ) → irq < 16 → s'.type_attr (0x20 + irq) ≡ 0x8e
  pub taken : (irq : ℕ) → irq < 16 → s'.used_interrupts (0x20 + irq) ≡ true
  pub others : (n : ℕ) → (n < 0x20) ⊎ (0x30 ≤ n) → s'.handlers n ≡ s.handlers n

-- The numbers that the constructor takes, when those of the exceptions are the ones in use.
pic_numbers :
    (s : Interrupts)
    → ((x : ℕ) → s.used_interrupts x ≡ ltb x 0x20)
    → (s' : Interrupts) × (allocate_interrupts 4 s ≡ (some 0x20, s'))
      × (s' ≡ record s { used_interrupts = mark_used 0x20 16 s.used_interrupts })
pic_numbers s u =
    let (base, s', r, l) =
      allocate_interrupts-finds 4 2 s (omega arith) (omega arith)
        (λ x a b. ground (arith, u x, a)) in
    let o : ReservationOutcome (2 ^ 4) s (some base, s') =
      rw r at (allocate_interrupts-ReservationOutcome 4 s) in
    let z : base ≡ 0x20 =
      ground (arith, o.aligned, o.unused base (omega arith) (omega arith), u base, l) in
    (s', rw z at r, rw z at o.after)

-- `CONSTRUCTOR(pic)` where just the numbers of the exceptions are in use, as behind
-- `CONSTRUCTOR(idt)` when none was in use before it: it does not panic, the controllers have been
-- set up, and the sixteen numbers from 0x20 on, which are those that the controllers raise, lead to
-- `handler`, by interrupt gates, and are taken. No other handler changes.
pub pic_constructor-IsInstalled :
    (isr : ℕ → ℕ) (handler : ℕ) (p : Pic) (s : Interrupts)
    → ((x : ℕ) → s.used_interrupts x ≡ false)
    → (s' : Interrupts) × (pic_constructor handler p (idt_constructor isr s) ≡ ok (pic_setup p, s'))
      × IsInstalled handler s s'
unfolding pic_constructor install_handlers idt_constructor mark_used
pic_constructor-IsInstalled isr handler p s u =
    let (a, b) = set_gates-rest isr 256 0 s in
    let s1 = idt_constructor isr s in
    let (s2, r, e) = pic_numbers s1 (λ x. ground (arith, u x, ap (λ f. f x) b)) in
    (
      install_loop 16 0x20 handler s2,
      rw r refl,
      record {
        serves =
            λ irq k. ground (arith, (install_loop-handlers 16 0x20 handler s2 (0x20 + irq)).0, k);
        kind =
            λ irq k. ground (arith, (install_loop-handlers 16 0x20 handler s2 (0x20 + irq)).1, k);
        taken = λ irq k.
            let t : mark_used 0x20 16 s1.used_interrupts (0x20 + irq) ≡ true = ground (arith, k) in
            rw ((install_loop-handlers 16 0x20 handler s2 0).2, e) t;
        others = λ n k.
            let same : s2.handlers n ≡ s.handlers n = rw e (ap (λ f. f n) a) in
            ground (arith, (install_loop-handlers 16 0x20 handler s2 n).0, k, same);
      },
    )
