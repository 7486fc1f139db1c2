-- ===== src/Links/Remove.antt =====
-- `list_remove` and `list_is_empty` on a whole circular list, and what they leave alone.
use mathlib.Core.List.{append-nil}
use borfos.Common.{
  ℕ, ◌≡◌, refl, true, false, List, [], ◌∷◌, ◌++◌, arith, ◌==◌, has, has-append, IsDistinct, ==_iff,
  ◌↔◌, append-IsDistinct, IsDistinct-append,
}
use borfos.Common.{Bool-cases, inl, inr}
use borfos.Links.{Links, list_remove, list_is_empty}
use borfos.Links.Chain.{Chain, last, has-last, prev-Chain, append-Chain, split-Chain}
use borfos.Links.Ring.{Ring, rotate-Ring}

-- The writes of a removal of `y` from between `z` and `c`, as equations.
record IsRemoved (l m : Links) (z y c : ℕ) : Type 0 where
  next_z : m.next z ≡ c
  prev_c : m.prev c ≡ z
  next_y : m.next y ≡ y
  prev_y : m.prev y ≡ y
  next_other : (a : ℕ) → (a == z) ≡ false → (a == y) ≡ false → m.next a ≡ l.next a
  prev_other : (a : ℕ) → (a == c) ≡ false → (a == y) ≡ false → m.prev a ≡ l.prev a

list_remove-IsRemoved :
    (l : Links) (y : ℕ)
    → (y == l.prev y) ≡ false
    → (y == l.next y) ≡ false
    → IsRemoved l (list_remove l y) (l.prev y) y (l.next y)
unfolding list_remove
list_remove-IsRemoved l y a b = record {
  next_z = ground arith;
  prev_c = ground arith;
  next_y = ground arith;
  prev_y = ground arith;
  next_other = λ x h k. ground arith;
  prev_other = λ x h k. ground arith;
}

remove-Chain :
    (l m : Links) (z y c p : ℕ) (cs : List ℕ)
    → IsRemoved l m z y c
    → z ≡ last p cs
    → has y (p ∷ cs) ≡ false
    → has c cs ≡ false
    → IsDistinct (p ∷ cs)
    → Chain l p cs y
    → Chain m p cs c
remove-Chain l m z y c p [] i e f g d k = (ground (arith, i.next_z), ground (arith, i.prev_c))
remove-Chain l m z y c p (x ∷ xs) i e f g d k = (
  ground (arith, i.next_other p, has-last x xs, ==_iff p z, ==_iff p y, ==_iff y p),
  ground (arith, i.prev_other x, ==_iff x y, ==_iff y x, ==_iff x c, ==_iff c x),
  remove-Chain l m z y c x xs i e (ground arith) (ground arith) d.1 k.2,
)

-- The ring read from the node to be removed: the other nodes close up.
remove-head :
    (l : Links) (y c : ℕ) (cs : List ℕ)
    → Ring l y (c ∷ cs)
    → Chain (list_remove l y) c cs c × Ring (list_remove l y) y []
remove-head l y c cs r =
    let z = last c cs in
    let e : l.prev y ≡ z = prev-Chain l y y (c ∷ cs) r.chain in
    let n : l.next y ≡ c = r.chain.0 in
    let i : IsRemoved l (list_remove l y) (l.prev y) y (l.next y) =
      list_remove-IsRemoved l y
        (ground (arith, e, r.distinct.0, has-last c cs, ==_iff y (last c cs)))
        (ground (arith, n, r.distinct.0)) in
    let i' : IsRemoved l (list_remove l y) z y c = rw e at (rw n at i) in
    (
      remove-Chain l (list_remove l y) z y c c cs i' refl r.distinct.0 r.distinct.1.0 r.distinct.1
          r.chain.2,
      record { chain = (i.next_y, i.prev_y); distinct = (refl, tt) },
    )

drop-IsDistinct :
    (h y : ℕ) (xs ys : List ℕ) → IsDistinct (h ∷ (xs ++ y ∷ ys)) → IsDistinct (h ∷ (xs ++ ys))
drop-IsDistinct h y xs ys d =
    let (a, b, f) = IsDistinct-append xs (y ∷ ys) d.1 in
    (
      ground (arith, d.0, has-append h xs ys, has-append h xs (y ∷ ys)),
      append-IsDistinct xs ys a b.1 (λ x i. ground (arith, f x i)),
    )

-- `list_remove` takes a node out of its list and leaves it alone with itself.
pub list_remove-Ring :
    (l : Links) (h y : ℕ) (xs ys : List ℕ)
    → Ring l h (xs ++ y ∷ ys)
    → Ring (list_remove l y) h (xs ++ ys) × Ring (list_remove l y) y []
list_remove-Ring l h y xs [] r =
    let m = list_remove l y in
    let (c, alone) = remove-head l y h xs (rotate-Ring l h y xs [] r) in
    (record { chain = rw append-nil c; distinct = drop-IsDistinct h y xs [] r.distinct }, alone)
list_remove-Ring l h y xs (d ∷ ys) r =
    let m = list_remove l y in
    let (c, alone) = remove-head l y d (ys ++ h ∷ xs) (rotate-Ring l h y xs (d ∷ ys) r) in
    let s = split-Chain m d h d ys xs c in
    (
      record {
        chain = append-Chain m h d h xs ys s.1 s.0;
        distinct = drop-IsDistinct h y xs (d ∷ ys) r.distinct;
      },
      alone,
    )

-- Removing a node that is alone changes no pointer.
pub list_remove-alone :
    (l : Links) (y : ℕ)
    → Ring l y []
    → ((a : ℕ) → (list_remove l y).next a ≡ l.next a)
      × ((a : ℕ) → (list_remove l y).prev a ≡ l.prev a)
unfolding list_remove
list_remove-alone l y r = (λ a. ground arith, λ a. ground arith)

-- `list_is_empty` tells whether a list has nodes.
pub list_is_empty_iff :
    (l : Links) (h : ℕ) (xs : List ℕ) → Ring l h xs → (list_is_empty l h ≡ true) ↔ (xs ≡ [])
unfolding list_is_empty
list_is_empty_iff l h [] r = (λ p. refl, λ p. ground (arith, r.chain))
list_is_empty_iff l h (x ∷ xs) r =
    let e : l.prev h ≡ last x xs = prev-Chain l h h (x ∷ xs) r.chain in
    (λ p. ground (arith, p, e, r.distinct.0, has-last x xs, ==_iff (l.prev h) h), λ p. cc)

-- A node of a list that it is not alone in is not empty.
pub list_is_empty-middle :
    (l : Links) (h y : ℕ) (xs ys : List ℕ) → Ring l h (xs ++ y ∷ ys) → list_is_empty l y ≡ false
list_is_empty-middle l h y xs ys r = elim (Bool-cases (list_is_empty l y)) [
  | inr e ↦ e
  | inl e ↦
      absurd (append-ne ys ((list_is_empty_iff l y (ys ++ h ∷ xs) (rotate-Ring l h y xs ys r)).0 e))
]
  where
    append-ne : (zs : List ℕ) → zs ++ h ∷ xs ≡ [] → ⊥
    append-ne [] z = cc
    append-ne (x ∷ zs) z = cc
