-- ===== src/Common/Lists.antt =====
-- Lists over the native numbers: length, membership as a test, distinctness, filling.
use Prim.Native.Nat.{ℕ, zero, suc, ◌+◌}
use mathlib.Core.Path.{◌≡◌, refl}
use mathlib.Core.Bool.{Bool, true, false, ◌||◌}
use mathlib.Core.List.{List, [], ◌∷◌, ◌++◌}
use native.Mathlib.Omega.{arith}
use mathlib.Core.Bool.{false≢true}
use mathlib.Core.Logic.{inl, inr}
use borfos.Common.Tests.{◌==◌, Bool-cases, ==_iff}

module _ {ℓ} {A : Type ℓ} where
  abbrev pub length : List A → ℕ
  length [] = 0
  length (x ∷ xs) = suc (length xs)

  abbrev pub replicate : ℕ → A → List A
  replicate zero a = []
  replicate (suc n) a = a ∷ replicate n a

  pub length-append : (xs ys : List A) → length (xs ++ ys) ≡ length xs + length ys
  length-append [] ys = omega arith
  length-append (x ∷ xs) ys = omega (arith, length-append xs ys)

  pub length-replicate : (n : ℕ) (a : A) → length (replicate n a) ≡ n
  length-replicate zero a = refl
  length-replicate (suc n) a = omega (arith, length-replicate n a)

abbrev pub has : ℕ → List ℕ → Bool
has a [] = false
has a (x ∷ xs) = (a == x) || has a xs

abbrev pub IsDistinct : List ℕ → Type 0
IsDistinct [] = Unit
IsDistinct (x ∷ xs) = (has x xs ≡ false) × IsDistinct xs

pub has-append : (a : ℕ) (xs ys : List ℕ) → has a (xs ++ ys) ≡ (has a xs || has a ys)
has-append a [] ys = refl
has-append a (x ∷ xs) ys = ground (arith, has-append a xs ys)

pub not-has : (a : ℕ) (xs : List ℕ) → (has a xs ≡ true → ⊥) → has a xs ≡ false
not-has a xs h = elim (Bool-cases (has a xs)) [ inl e ↦ absurd (h e) | inr e ↦ e ]

-- Distinctness of a concatenation, both ways.
pub append-IsDistinct :
    (xs ys : List ℕ)
    → IsDistinct xs
    → IsDistinct ys
    → ((a : ℕ) → has a xs ≡ true → has a ys ≡ false)
    → IsDistinct (xs ++ ys)
append-IsDistinct [] ys d e f = e
append-IsDistinct (x ∷ xs) ys d e f = (
  rw (has-append x xs ys, d.0) (f x (ground arith)),
  append-IsDistinct xs ys d.1 e (λ a h. f a (ground arith)),
)

pub IsDistinct-append :
    (xs ys : List ℕ)
    → IsDistinct (xs ++ ys)
    → IsDistinct xs × IsDistinct ys × ((a : ℕ) → has a xs ≡ true → has a ys ≡ false)
IsDistinct-append [] ys d = (tt, d, λ a h. absurd (false≢true h))
IsDistinct-append (x ∷ xs) ys d =
    let (p, q, f) = IsDistinct-append xs ys d.1 in
    let e : (has x xs || has x ys) ≡ false = rw (← has-append x xs ys) d.0 in
    ((ground arith, p), q, λ a h. ground (arith, h, e, f a, ==_iff a x))

-- In a list of distinct numbers none of the others is the one in the middle.
pub IsDistinct-middle :
    (xs : List ℕ) (y : ℕ) (ys : List ℕ) → IsDistinct (xs ++ y ∷ ys) → has y (xs ++ ys) ≡ false
IsDistinct-middle [] y ys d = d.0
IsDistinct-middle (x ∷ xs) y ys d =
    ground
      (arith, IsDistinct-middle xs y ys d.1, d.0, has-append x xs (y ∷ ys), ==_iff y x, ==_iff x y)

-- A list that has a number, split at it.
pub has-split : (x : ℕ) (xs : List ℕ) → has x xs ≡ true → (us vs : List ℕ) × (xs ≡ us ++ x ∷ vs)
has-split x [] h = cc
has-split x (y ∷ ys) h = elim (Bool-cases (x == y)) [
  | inl e ↦ let z : x ≡ y = ground (arith, e) in ([], ys, rw z refl)
  | inr e ↦ let (us, vs, q) = has-split x ys (ground (arith, h, e)) in (y ∷ us, vs, rw q refl)
]
