-- ===== src/Pic/Lines.antt =====
-- kernel/drivers/pic.c: which lines are open, against the set of the lines that are unmasked.
use borfos.Common.{
  ◌/◌, ◌∙◌, sym, ℕ, zero, suc, ◌-◌, ◌%◌, ◌^◌, ◌<◌, ◌≡◌, ◌≢◌, refl, arith, Bool, true, false, not,
  ◌&&◌, ◌||◌, List, ◌∷◌, ◌==◌, ltb, if◌then◌else◌, Bool-cases, inl, inr,
}
use native.Mathlib.Nat.{pow-suc, one-le-pow}
use borfos.Common.Bits.Digits.{digit, digit-clear, digit-set}
use borfos.Pic.{Pic, pic_mask, pic_unmask, set_mask, clear_bit, set_bit}

-- A line raises interrupts if its bit is clear, and for the second controller also the bit of the
-- line between the two.
abbrev pub line_open : Pic → ℕ → Bool
line_open s irq =
    if ltb irq 8
    then digit irq s.irq_mask_0 == 0
    else (digit 2 s.irq_mask_0 == 0) && (digit (irq - 8) s.irq_mask_1 == 0)

-- The line between the controllers is open just while one of the second controller's is, and the
-- masks have been written to the controllers.
pub record IsCascaded (s : Pic) : Type 0 where
  pub closed : s.irq_mask_1 ≡ 0xFF → digit 2 s.irq_mask_0 ≡ 1
  pub opened : s.irq_mask_1 ≢ 0xFF → digit 2 s.irq_mask_0 ≡ 0
  pub written :
      (rest : List (ℕ × ℕ)) × (s.ports ≡ (0xA1, s.irq_mask_1) ∷ (0x21, s.irq_mask_0) ∷ rest)

digit-bound : (j x : ℕ) → digit j x < 2
digit-bound zero x = omega arith
digit-bound (suc j) x = digit-bound j (x / 2)

-- A line of a controller behind a change of its mask.
clear_iff :
    (x k j : ℕ) → k < 8 → j < 8 → (digit j (clear_bit x k) == 0) ≡ ((j == k) || (digit j x == 0))
clear_iff x k j h l = ground (arith, digit-clear k 8 j x h l)

set_iff : (x k j : ℕ) → (digit j (set_bit x k) == 0) ≡ (not (j == k) && (digit j x == 0))
set_iff x k j = ground (arith, digit-set k j x)

digit_all : (n j : ℕ) → j < n → digit j (2 ^ n - 1) ≡ 1
digit_all zero j h = absurd (omega (arith, h))
digit_all (suc n) zero h = omega (arith, pow-suc 2 n, one-le-pow n 2 (omega arith))
digit_all (suc n) (suc j) h =
    let half : (2 ^ suc n - 1) / 2 ≡ 2 ^ n - 1 = omega (arith, pow-suc 2 n) in
    rw half (digit_all n j (omega (arith, h)))

pub ones_digit : (j : ℕ) → j < 8 → digit j 0xFF ≡ 1
ones_digit j h = digit_all 8 j h

ones_set : (k : ℕ) → k < 8 → set_bit 0xFF k ≡ 0xFF
ones_set zero h = refl
ones_set (suc zero) h = refl
ones_set (suc (suc zero)) h = refl
ones_set (suc (suc (suc zero))) h = refl
ones_set (suc (suc (suc (suc zero)))) h = refl
ones_set (suc (suc (suc (suc (suc zero))))) h = refl
ones_set (suc (suc (suc (suc (suc (suc zero)))))) h = refl
ones_set (suc (suc (suc (suc (suc (suc (suc zero))))))) h = refl
ones_set (suc (suc (suc (suc (suc (suc (suc (suc j)))))))) h = absurd (omega (arith, h))

-- The state when line `irq` has been opened, and when it has been closed.
module _ (irq : ℕ) (s : Pic) (v : IsCascaded s) (small : irq < 16) (other : irq ≢ 2) where
  pub pic_unmask-IsCascaded : IsCascaded (pic_unmask irq s)
  unfolding pic_unmask set_mask
  pic_unmask-IsCascaded = elim (Bool-cases (ltb irq 8)) [
    | inl e ↦
        let same : digit 2 (clear_bit s.irq_mask_0 (irq % 8)) ≡ digit 2 s.irq_mask_0 =
          ground
            (arith, digit-clear (irq % 8) 8 2 s.irq_mask_0 (omega arith) (omega arith), e, other) in
        rw e (record {
          closed = λ h. same ∙ v.closed h;
          opened = λ h. same ∙ v.opened h;
          written = (_, refl);
        })
    | inr e ↦
        let zero_digit : digit (irq % 8) (clear_bit s.irq_mask_1 (irq % 8)) ≡ 0 =
          ground
            (arith, digit-clear (irq % 8) 8 (irq % 8) s.irq_mask_1 (omega arith) (omega arith)) in
        let not_full : clear_bit s.irq_mask_1 (irq % 8) ≢ 0xFF = λ z.
          let a : digit (irq % 8) 0xFF ≡ 0 = rw z at zero_digit in
          omega (arith, a, ones_digit (irq % 8) (omega arith)) in
        let test : not (clear_bit s.irq_mask_1 (irq % 8) == 0xFF) ≡ true =
          ground (arith, not_full) in
        rw (e, test)
          (record {
            closed = λ h. absurd (not_full h);
            opened =
                λ h. ground (arith, digit-clear 2 8 2 s.irq_mask_0 (omega arith) (omega arith));
            written = (_, refl);
          })
  ]

  pub pic_mask-IsCascaded : IsCascaded (pic_mask irq s)
  unfolding pic_mask set_mask
  pic_mask-IsCascaded = elim (Bool-cases (ltb irq 8)) [
    | inl e ↦
        let same : digit 2 (set_bit s.irq_mask_0 (irq % 8)) ≡ digit 2 s.irq_mask_0 =
          ground (arith, digit-set (irq % 8) 2 s.irq_mask_0, e, other) in
        rw e (record {
          closed = λ h. same ∙ v.closed h;
          opened = λ h. same ∙ v.opened h;
          written = (_, refl);
        })
    | inr e ↦ elim (Bool-cases (set_bit s.irq_mask_1 (irq % 8) == 0xFF)) [
      | inl t ↦
          rw (e, t)
            (record {
              closed = λ h. ground (arith, digit-set 2 2 s.irq_mask_0);
              opened = λ h. absurd (h (ground (arith, t)));
              written = (_, refl);
            })
      | inr t ↦
          let before : s.irq_mask_1 ≢ 0xFF = λ z.
            let a : (set_bit 0xFF (irq % 8) == 0xFF) ≡ false = rw z at t in
            ground (arith, a, ones_set (irq % 8) (omega arith)) in
          rw (e, t)
            (record {
              closed = λ h. ground (arith, h, t);
              opened = λ h. v.opened before;
              written = (_, refl);
            })
    ]
  ]

-- A line's own bit decides.
abbrev own_bit : Pic → ℕ → Bool
own_bit s l = digit (l % 8) (if ltb l 8 then s.irq_mask_0 else s.irq_mask_1) == 0

line_open-own_bit : (s : Pic) (l : ℕ) → IsCascaded s → l < 16 → line_open s l ≡ own_bit s l
line_open-own_bit s l v h = elim (Bool-cases (ltb l 8)) [
  | inl e ↦ let m : l % 8 ≡ l = ground (arith, e) in rw (e, m) refl
  | inr e ↦
      let m : l % 8 ≡ l - 8 = ground (arith, e, h) in
      rw (e, m)
        (elim (Bool-cases (digit (l - 8) s.irq_mask_1 == 0)) [
          | inr k ↦ ground (arith, k)
          | inl k ↦
              let not_full : s.irq_mask_1 ≢ 0xFF = λ z.
                let a : (digit (l - 8) 0xFF == 0) ≡ true = rw z at k in
                ground (arith, a, ones_digit (l - 8) (omega (arith, h))) in
              ground (arith, k, v.opened not_full)
        ])
]

-- Two lines of the same controller are told apart by their bits.
same_bit : (l irq : ℕ) → l < 16 → irq < 16 → ltb l 8 ≡ ltb irq 8 → (l % 8 == irq % 8) ≡ (l == irq)
same_bit l irq h k e = elim (Bool-cases (ltb irq 8)) [
  | inl t ↦ ground (arith, e, t)
  | inr t ↦ ground (arith, e, t)
]

clear_other : (x l : ℕ) → l < 8 → l ≢ 2 → digit l (clear_bit x 2) ≡ digit l x
clear_other x l h n = ground (arith, digit-clear 2 8 l x (omega arith) h, n)

set_other : (x l : ℕ) → l ≢ 2 → digit l (set_bit x 2) ≡ digit l x
set_other x l n = ground (arith, digit-set 2 l x, n)

module _ (irq : ℕ) (s : Pic) (v : IsCascaded s) (small : irq < 16) (other : irq ≢ 2) (l : ℕ)
    (below : l < 16) (own : l ≢ 2) where
  opened_bit : own_bit (pic_unmask irq s) l ≡ ((l == irq) || own_bit s l)
  unfolding pic_unmask set_mask
  opened_bit = elim (Bool-cases (ltb irq 8)) [
    | inl e ↦ elim (Bool-cases (ltb l 8)) [
      | inl f ↦
          let b = same_bit l irq below small (f ∙ sym e) in
          rw (e, f)
            (clear_iff s.irq_mask_0 (irq % 8) (l % 8) (omega arith) (omega arith) ∙ rw b refl)
      | inr f ↦ let n : (l == irq) ≡ false = ground (arith, e, f) in rw (e, f, n) refl
    ]
    | inr e ↦ elim (Bool-cases (ltb l 8)) [
      | inl f ↦
          let n : (l == irq) ≡ false = ground (arith, e, f) in
          let m : l % 8 ≡ l = ground (arith, f) in
          rw (e, f, n, m)
            (elim (Bool-cases (not (clear_bit s.irq_mask_1 (irq % 8) == 0xFF))) [
              | inl t ↦ rw (t, clear_other s.irq_mask_0 l (ground (arith, f)) own) refl
              | inr t ↦ rw t refl
            ])
      | inr f ↦
          let b = same_bit l irq below small (f ∙ sym e) in
          rw (e, f)
            (clear_iff s.irq_mask_1 (irq % 8) (l % 8) (omega arith) (omega arith) ∙ rw b refl)
    ]
  ]

  closed_bit : own_bit (pic_mask irq s) l ≡ (not (l == irq) && own_bit s l)
  unfolding pic_mask set_mask
  closed_bit = elim (Bool-cases (ltb irq 8)) [
    | inl e ↦ elim (Bool-cases (ltb l 8)) [
      | inl f ↦
          let b = same_bit l irq below small (f ∙ sym e) in
          rw (e, f) (set_iff s.irq_mask_0 (irq % 8) (l % 8) ∙ rw b refl)
      | inr f ↦ let n : (l == irq) ≡ false = ground (arith, e, f) in rw (e, f, n) refl
    ]
    | inr e ↦ elim (Bool-cases (ltb l 8)) [
      | inl f ↦
          let n : (l == irq) ≡ false = ground (arith, e, f) in
          let m : l % 8 ≡ l = ground (arith, f) in
          rw (e, f, n, m)
            (elim (Bool-cases (set_bit s.irq_mask_1 (irq % 8) == 0xFF)) [
              | inl t ↦ rw (t, set_other s.irq_mask_0 l own) refl
              | inr t ↦ rw t refl
            ])
      | inr f ↦
          let b = same_bit l irq below small (f ∙ sym e) in
          rw (e, f) (set_iff s.irq_mask_1 (irq % 8) (l % 8) ∙ rw b refl)
    ]
  ]

  pub pic_unmask-opens : line_open (pic_unmask irq s) l ≡ ((l == irq) || line_open s l)
  pic_unmask-opens =
      rw
        (
          line_open-own_bit (pic_unmask irq s) l (pic_unmask-IsCascaded irq s v small other) below,
          line_open-own_bit s l v below,
        )
        opened_bit

  pub pic_mask-closes : line_open (pic_mask irq s) l ≡ (not (l == irq) && line_open s l)
  pic_mask-closes =
      rw
        (
          line_open-own_bit (pic_mask irq s) l (pic_mask-IsCascaded irq s v small other) below,
          line_open-own_bit s l v below,
        )
        closed_bit
