-- ===== src/Pic/Tests.antt =====
-- The theorems about the interrupt controllers, at the state the kernel starts with.
use borfos.Common.{◌+◌, ◌*◌, ◌≡◌, refl, arith, false, [], ◌∷◌}
use borfos.System.{ok}
use borfos.Interrupts.{Interrupts}
use borfos.Interrupts.Entry.{idt_constructor}
use borfos.Pic.{Pic, pic_setup, pic_constructor}
use borfos.Pic.Start.{IsInstalled, pic_constructor-IsInstalled}
use borfos.Pic.Changes.{mask, unmask, apply_all, unmasked, IsShowing, apply_all-IsShowing}

abbrev start : Pic
start = record { irq_mask_0 = 0xFF; irq_mask_1 = 0xFF; handlers = λ irq. 0; ports = [] }

abbrev no_interrupts : Interrupts
no_interrupts = record {
  offset_1 = λ n. 0;
  selector = λ n. 0;
  type_attr = λ n. 0;
  offset_2 = λ n. 0;
  handlers = λ n. 0;
  used_interrupts = λ n. false;
}

pic_constructor-IsInstalled_example :
    (s' : Interrupts) × (pic_constructor 0xc0105000 start
        (idt_constructor (λ n. 0xc0100000 + 16 * n) no_interrupts)
      ≡ ok (pic_setup start, s'))
    × IsInstalled 0xc0105000 no_interrupts s'
pic_constructor-IsInstalled_example =
    pic_constructor-IsInstalled (λ n. 0xc0100000 + 16 * n) 0xc0105000 start no_interrupts
      (λ n. refl)

apply_all-IsShowing_example :
    IsShowing
      (apply_all (unmask 0 ∷ unmask 12 ∷ mask 12 ∷ unmask 14 ∷ []) (pic_setup start))
      (unmasked (unmask 0 ∷ unmask 12 ∷ mask 12 ∷ unmask 14 ∷ []) (λ l. false))
apply_all-IsShowing_example =
    apply_all-IsShowing (unmask 0 ∷ unmask 12 ∷ mask 12 ∷ unmask 14 ∷ []) start refl refl (
      (omega arith, λ e. omega (arith, e)),
      (
        (omega arith, λ e. omega (arith, e)),
        ((omega arith, λ e. omega (arith, e)), ((omega arith, λ e. omega (arith, e)), tt)),
      ),
    )
