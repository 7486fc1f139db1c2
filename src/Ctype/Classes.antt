-- ===== src/Ctype/Classes.antt =====
-- kernel/libc/ctype.c: the classes as ranges of characters.
use Prim.Native.Nat.{bit_and}
use borfos.Common.{
  ℕ, zero, suc, ◌+◌, ◌-◌, ◌<◌, ◌≡◌, refl, arith, sym, ◌∙◌, Bool, true, false, not, ◌&&◌, ◌||◌, leb,
  ltb, ◌==◌, if◌then◌else◌, Bool-cases, inl, inr,
}
use borfos.Ctype.{ctype_lookup, in_class, isalpha, isupper, islower, isdigit, toupper, tolower}

-- A test on all numbers below `n`.
abbrev below : ℕ → (ℕ → Bool) → Bool
below zero test = true
below (suc n) test = test n && below n test

below-all : (n : ℕ) (test : ℕ → Bool) → below n test ≡ true → (c : ℕ) → c < n → test c ≡ true
below-all zero test h c k = absurd (omega arith)
below-all (suc n) test h c k = elim (Bool-cases (c == n)) [
  | inl e ↦ let z : c ≡ n = ground (arith, e) in rw z (ground (arith, h))
  | inr e ↦ below-all n test (ground (arith, h)) c (ground (arith, e))
]

abbrev same : Bool → Bool → Bool
same true b = b
same false b = not b

same_iff : (a b : Bool) → same a b ≡ true → a ≡ b
same_iff true true h = refl
same_iff true false h = cc
same_iff false true h = cc
same_iff false false h = refl

abbrev pub within : ℕ → ℕ → ℕ → Bool
within a b c = leb a c && leb c b

above : (flags c : ℕ) → bit_and 0 flags ≡ 0 → ltb c 128 ≡ false → in_class flags c ≡ false
unfolding in_class ctype_lookup
above flags c z e = rw (e, z) refl

-- A class that is a range of the first 128 characters, if the table says so, is one of all numbers.
class-range :
    (flags : ℕ) (range : ℕ → Bool)
    → bit_and 0 flags ≡ 0
    → below 128 (λ c. same (in_class flags c) (range c)) ≡ true
    → ((c : ℕ) → 127 < c → range c ≡ false)
    → (c : ℕ) → in_class flags c ≡ range c
class-range flags range z h out c = elim (Bool-cases (ltb c 128)) [
  | inl e ↦
      same_iff (in_class flags c) (range c)
        (below-all 128 (λ x. same (in_class flags x) (range x)) h c (ground (arith, e)))
  | inr e ↦ above flags c z e ∙ sym (out c (ground (arith, e)))
]

-- The letters are the characters from A to Z and from a to z, the digits those from 0 to 9, and no
-- number from 128 on is one.
pub isalpha-within :
    (c : ℕ)
    → (isupper c ≡ within 65 90 c)
      × (islower c ≡ within 97 122 c)
      × (isdigit c ≡ within 48 57 c)
      × (isalpha c ≡ (within 65 90 c || within 97 122 c))
unfolding in_class ctype_lookup
isalpha-within c = (
  class-range 1 (within 65 90) refl refl (λ x h. ground arith) c,
  class-range 2 (within 97 122) refl refl (λ x h. ground arith) c,
  class-range 4 (within 48 57) refl refl (λ x h. ground arith) c,
  class-range 3 (λ x. within 65 90 x || within 97 122 x) refl refl (λ x h. ground arith) c,
)

-- `toupper` is the identity but on the letters from A to Z, which it turns into those from a to z, and
-- `tolower` but on those from a to z, which it turns into those from A to Z.
pub toupper-swaps :
    (c : ℕ)
    → (toupper c ≡ (if within 65 90 c then c + 32 else c))
      × (tolower c ≡ (if within 97 122 c then c - 32 else c))
unfolding toupper tolower
toupper-swaps c = let (u, l, d, a) = isalpha-within c in (ground (arith, u), ground (arith, l))
