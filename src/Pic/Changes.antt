-- ===== src/Pic/Changes.antt =====
-- kernel/drivers/pic.c: any sequence of calls of `pic_mask` and `pic_unmask` behind the constructor.
use borfos.Common.{
  ℕ, ◌<◌, ◌≡◌, ◌≢◌, refl, arith, Bool, false, not, ◌&&◌, ◌||◌, List, [], ◌∷◌, ◌==◌, ltb, Bool-cases,
  inl, inr, ◌∙◌,
}
use borfos.Pic.{Pic, pic_mask, pic_unmask, pic_setup, set_mask}
use borfos.Pic.Lines.{
  line_open, IsCascaded, pic_unmask-IsCascaded, pic_mask-IsCascaded, pic_unmask-opens,
  pic_mask-closes, ones_digit,
}

-- The calls.
pub data Change : Type 0 where
  mask : ℕ → Change
  unmask : ℕ → Change

abbrev pub line_of : Change → ℕ
line_of (mask irq) = irq
line_of (unmask irq) = irq

abbrev pub apply : Change → Pic → Pic
apply (mask irq) s = pic_mask irq s
apply (unmask irq) s = pic_unmask irq s

abbrev pub apply_all : List Change → Pic → Pic
apply_all [] s = s
apply_all (c ∷ changes) s = apply_all changes (apply c s)

-- The set of the lines that are unmasked, behind the calls.
abbrev pub unmasked : List Change → (ℕ → Bool) → ℕ → Bool
unmasked [] lines = lines
unmasked (mask irq ∷ changes) lines = unmasked changes (λ l. not (l == irq) && lines l)
unmasked (unmask irq ∷ changes) lines = unmasked changes (λ l. (l == irq) || lines l)

-- The calls are for lines that have a device: line 2 joins the two controllers.
abbrev pub IsDevice : ℕ → Type 0
IsDevice irq = (irq < 16) × (irq ≢ 2)

abbrev pub IsForDevices : List Change → Type 0
IsForDevices [] = Unit
IsForDevices (c ∷ changes) = IsDevice (line_of c) × IsForDevices changes

-- The masks are those of the lines, in the state and at the controllers.
pub record IsShowing (s : Pic) (lines : ℕ → Bool) : Type 0 where
  pub cascaded : IsCascaded s
  pub shown : (l : ℕ) → IsDevice l → line_open s l ≡ lines l

apply-IsShowing :
    (changes : List Change) (s : Pic) (lines : ℕ → Bool)
    → IsForDevices changes
    → IsShowing s lines
    → IsShowing (apply_all changes s) (unmasked changes lines)
apply-IsShowing [] s lines d h = h
apply-IsShowing (mask irq ∷ changes) s lines d h =
    apply-IsShowing changes (pic_mask irq s) (λ l. not (l == irq) && lines l) d.1
      (record {
        cascaded = pic_mask-IsCascaded irq s h.cascaded d.0.0 d.0.1;
        shown = λ l k.
            let e = h.shown l k in
            pic_mask-closes irq s h.cascaded d.0.0 d.0.1 l k.0 k.1 ∙ rw e refl;
      })
apply-IsShowing (unmask irq ∷ changes) s lines d h =
    apply-IsShowing changes (pic_unmask irq s) (λ l. (l == irq) || lines l) d.1
      (record {
        cascaded = pic_unmask-IsCascaded irq s h.cascaded d.0.0 d.0.1;
        shown = λ l k.
            let e = h.shown l k in
            pic_unmask-opens irq s h.cascaded d.0.0 d.0.1 l k.0 k.1 ∙ rw e refl;
      })

-- From the masks 0xFF that the kernel starts with, behind the constructor's port writes and any
-- calls of `pic_mask` and `pic_unmask` for lines below 16 other than 2, the lines that are open at
-- the controllers are those that the calls have unmasked last, the line between the controllers is
-- open just while one of the second controller's is, and the two masks are the last values written
-- to the data ports.
pub apply_all-IsShowing :
    (changes : List Change) (p : Pic)
    → p.irq_mask_0 ≡ 0xFF
    → p.irq_mask_1 ≡ 0xFF
    → IsForDevices changes
    → IsShowing (apply_all changes (pic_setup p)) (unmasked changes (λ l. false))
unfolding pic_setup set_mask
apply_all-IsShowing changes p a b d =
    apply-IsShowing changes _ (λ l. false) d
      (record {
        cascaded = record {
          closed = λ h. rw a refl;
          opened = λ h. absurd (h b);
          written = (_, refl);
        };
        shown = λ l k. elim (Bool-cases (ltb l 8)) [
          | inl e ↦ let one = ones_digit l (ground (arith, e)) in rw (e, a, one) refl
          | inr e ↦ rw (e, a) refl
        ];
      })
