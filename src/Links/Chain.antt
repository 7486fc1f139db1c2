-- ===== src/Links/Chain.antt =====
-- Stretches of a circular list: from `p` through `xs` to `q` the two pointers agree.
use borfos.Common.{ℕ, ◌≡◌, true, List, [], ◌∷◌, ◌++◌, arith, has}
use borfos.Links.{Links}

abbrev pub Chain : Links → ℕ → List ℕ → ℕ → Type 0
Chain l p [] q = (l.next p ≡ q) × (l.prev q ≡ p)
Chain l p (x ∷ xs) q = (l.next p ≡ x) × (l.prev x ≡ p) × Chain l x xs q

-- The last of `p` and `xs`.
abbrev pub last : ℕ → List ℕ → ℕ
last p [] = p
last p (x ∷ xs) = last x xs

pub has-last : (x : ℕ) (xs : List ℕ) → has (last x xs) (x ∷ xs) ≡ true
has-last x [] = ground arith
has-last x (y ∷ ys) = ground (arith, has-last y ys)

pub prev-Chain : (l : Links) (p q : ℕ) (xs : List ℕ) → Chain l p xs q → l.prev q ≡ last p xs
prev-Chain l p q [] c = c.1
prev-Chain l p q (x ∷ xs) c = prev-Chain l x q xs c.2

-- Two stretches that meet at `y` are one, and one splits at any of its nodes.
pub append-Chain :
    (l : Links) (p y q : ℕ) (xs ys : List ℕ)
    → Chain l p xs y
    → Chain l y ys q
    → Chain l p (xs ++ y ∷ ys) q
append-Chain l p y q [] ys c d = (c.0, c.1, d)
append-Chain l p y q (x ∷ xs) ys c d = (c.0, c.1, append-Chain l x y q xs ys c.2 d)

pub split-Chain :
    (l : Links) (p y q : ℕ) (xs ys : List ℕ)
    → Chain l p (xs ++ y ∷ ys) q
    → Chain l p xs y × Chain l y ys q
split-Chain l p y q [] ys c = ((c.0, c.1), c.2)
split-Chain l p y q (x ∷ xs) ys c =
    let rest = split-Chain l x y q xs ys c.2 in ((c.0, c.1, rest.0), rest.1)

-- A stretch survives a change that spares the fields that it reads.
pub frame-Chain :
    (l m : Links) (p q : ℕ) (xs : List ℕ)
    → ((a : ℕ) → has a (p ∷ xs) ≡ true → m.next a ≡ l.next a)
    → ((a : ℕ) → has a (q ∷ xs) ≡ true → m.prev a ≡ l.prev a)
    → Chain l p xs q
    → Chain m p xs q
frame-Chain l m p q [] n v c = (ground (arith, n p), ground (arith, v q))
frame-Chain l m p q (x ∷ xs) n v c = (
  ground (arith, n p),
  ground (arith, v x),
  frame-Chain l m x q xs (λ a h. n a (ground arith)) (λ a h. v a (ground arith)) c.2,
)
