-- ===== src/Links/Frame.antt =====
-- What the list operations leave alone: a ring that holds neither the node that is named nor the
-- new one keeps its nodes and their order.
use borfos.Common.{ℕ, ◌≡◌, refl, true, false, List, [], ◌∷◌, arith, ◌==◌, has, ==_iff, not-has}
use borfos.Links.{Links, list_init, list_insert_before, list_insert_after, list_remove}
use borfos.Links.Chain.{Chain, frame-Chain}
use borfos.Links.Ring.{Ring, list_insert_before-append, list_insert_before-middle}

prev-closed :
    (l : Links) (p q y : ℕ) (xs : List ℕ)
    → Chain l p xs q
    → has y (q ∷ xs) ≡ true
    → (has (l.prev y) (p ∷ xs) ≡ true) × (l.next (l.prev y) ≡ y)
prev-closed l p q y [] c h = ground (arith, c.0, c.1, ==_iff y q)
prev-closed l p q y (x ∷ xs) c h = ground (arith, c.0, c.1, ==_iff y x, prev-closed l x q y xs c.2)

next-closed :
    (l : Links) (p q y : ℕ) (xs : List ℕ)
    → Chain l p xs q
    → has y (p ∷ xs) ≡ true
    → (has (l.next y) (q ∷ xs) ≡ true) × (l.prev (l.next y) ≡ y)
next-closed l p q y [] c h = ground (arith, c.0, c.1, ==_iff y p)
next-closed l p q y (x ∷ xs) c h = ground (arith, c.0, c.1, ==_iff y p, next-closed l x q y xs c.2)

-- The neighbours of `y` point back at it.
pub record IsLinked (l : Links) (y : ℕ) : Type 0 where
  pub next-prev : l.next (l.prev y) ≡ y
  pub prev-next : l.prev (l.next y) ≡ y

pub Ring-IsLinked :
    (l : Links) (h y : ℕ) (xs : List ℕ) → has y (h ∷ xs) ≡ true → Ring l h xs → IsLinked l y
Ring-IsLinked l h y xs i r = record {
  next-prev = (prev-closed l h h y xs r.chain i).1;
  prev-next = (next-closed l h h y xs r.chain i).1;
}

outside-prev :
    (l : Links) (k y : ℕ) (zs : List ℕ)
    → Ring l k zs
    → IsLinked l y
    → has y (k ∷ zs) ≡ false
    → has (l.prev y) (k ∷ zs) ≡ false
outside-prev l k y zs r i f =
    not-has (l.prev y) (k ∷ zs)
      λ h. ground (arith, next-closed l k k (l.prev y) zs r.chain h, i.next-prev, f)

outside-next :
    (l : Links) (k y : ℕ) (zs : List ℕ)
    → Ring l k zs
    → IsLinked l y
    → has y (k ∷ zs) ≡ false
    → has (l.next y) (k ∷ zs) ≡ false
outside-next l k y zs r i f =
    not-has (l.next y) (k ∷ zs)
      λ h. ground (arith, prev-closed l k k (l.next y) zs r.chain h, i.prev-next, f)

ne_of_has : (a b : ℕ) (zs : List ℕ) → has a zs ≡ true → has b zs ≡ false → (a == b) ≡ false
ne_of_has a b zs h k = ground (arith, ==_iff a b)

-- An insertion in front of a node of another list leaves a list as it was, if neither that node nor
-- the new one is in it.
pub list_insert_before-frame :
    (l : Links) (y n k : ℕ) (zs : List ℕ)
    → IsLinked l y
    → has y (k ∷ zs) ≡ false
    → has n (k ∷ zs) ≡ false
    → Ring l k zs
    → Ring (list_insert_before l y n) k zs
unfolding list_insert_before
list_insert_before-frame l y n k zs i f g r =
    let o = outside-prev l k y zs r i f in
    record {
      chain =
          frame-Chain l (list_insert_before l y n) k k zs
            (λ a h. ground (arith, ne_of_has a n (k ∷ zs) h g, ne_of_has a (l.prev y) (k ∷ zs) h o))
            (λ a h. ground (arith, ne_of_has a n (k ∷ zs) h g, ne_of_has a y (k ∷ zs) h f)) r.chain;
      distinct = r.distinct;
    }

-- A removal elsewhere.
pub list_remove-frame :
    (l : Links) (y k : ℕ) (zs : List ℕ)
    → IsLinked l y
    → has y (k ∷ zs) ≡ false
    → Ring l k zs
    → Ring (list_remove l y) k zs
unfolding list_remove
list_remove-frame l y k zs i f r =
    let o = outside-prev l k y zs r i f in
    let o' = outside-next l k y zs r i f in
    record {
      chain =
          frame-Chain l (list_remove l y) k k zs
            (λ a h. ground (arith, ne_of_has a y (k ∷ zs) h f, ne_of_has a (l.prev y) (k ∷ zs) h o))
            (λ a h.
              ground (arith, ne_of_has a y (k ∷ zs) h f, ne_of_has a (l.next y) (k ∷ zs) h o'))
            r.chain;
      distinct = r.distinct;
    }

-- An initialisation elsewhere.
pub list_init-frame :
    (l : Links) (n k : ℕ) (zs : List ℕ)
    → has n (k ∷ zs) ≡ false
    → Ring l k zs
    → Ring (list_init l n) k zs
unfolding list_init
list_init-frame l n k zs g r = record {
  chain =
      frame-Chain l (list_init l n) k k zs (λ a h. ground (arith, ne_of_has a n (k ∷ zs) h g))
        (λ a h. ground (arith, ne_of_has a n (k ∷ zs) h g)) r.chain;
  distinct = r.distinct;
}

-- `list_init` makes a list with no node.
pub list_init-Ring : (l : Links) (n : ℕ) → Ring (list_init l n) n []
unfolding list_init
list_init-Ring l n = record { chain = ground arith; distinct = (refl, tt) }

-- `list_insert_after` at the head puts a new node at the front of the list.
pub list_insert_after-cons :
    (l : Links) (h n : ℕ) (xs : List ℕ)
    → has n (h ∷ xs) ≡ false
    → Ring l h xs
    → Ring (list_insert_after l h n) h (n ∷ xs)
unfolding list_insert_after
list_insert_after-cons l h n [] f r =
    let e : l.prev (l.next h) ≡ h = ground (arith, r.chain) in
    let same : list_insert_after l h n ≡ list_insert_before l (l.next h) n =
      unfold list_insert_before in rw e refl in
    rw same (rw r.chain.0 (list_insert_before-append l h n [] f r))
list_insert_after-cons l h n (x ∷ xs) f r =
    let e : l.prev (l.next h) ≡ h = ground (arith, r.chain) in
    let same : list_insert_after l h n ≡ list_insert_before l (l.next h) n =
      unfold list_insert_before in rw e refl in
    rw same (rw r.chain.0 (list_insert_before-middle l h x n [] xs f r))
