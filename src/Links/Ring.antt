-- ===== src/Links/Ring.antt =====
-- What the operations of kernel/include/list.h do to a whole circular list.
use borfos.Common.{
  ℕ, ◌≡◌, refl, false, List, [], ◌∷◌, ◌++◌, arith, ◌==◌, has, has-append, IsDistinct, ==_iff,
  append-IsDistinct, false_of, IsDistinct-append, not-has,
}
use mathlib.Core.List.{append_assoc}
use borfos.Links.{Links, list_insert_before}
use borfos.Links.Chain.{Chain, last, has-last, prev-Chain, append-Chain, split-Chain}

-- A circular list with head `h` and, behind it, the nodes `xs`.
pub record Ring (l : Links) (h : ℕ) (xs : List ℕ) : Type 0 where
  pub chain : Chain l h xs h
  pub distinct : IsDistinct (h ∷ xs)

-- The writes of an insertion of `n` between `z` and `q`, as equations.
record IsInserted (l m : Links) (z n q : ℕ) : Type 0 where
  next_z : m.next z ≡ n
  prev_n : m.prev n ≡ z
  next_n : m.next n ≡ q
  prev_q : m.prev q ≡ n
  next_other : (a : ℕ) → (a == z) ≡ false → (a == n) ≡ false → m.next a ≡ l.next a
  prev_other : (a : ℕ) → (a == q) ≡ false → (a == n) ≡ false → m.prev a ≡ l.prev a

list_insert_before-IsInserted :
    (l : Links) (q n : ℕ)
    → (n == q) ≡ false
    → (n == l.prev q) ≡ false
    → IsInserted l (list_insert_before l q n) (l.prev q) n q
unfolding list_insert_before
list_insert_before-IsInserted l q n a b = record {
  next_z = ground arith;
  prev_n = ground arith;
  next_n = ground arith;
  prev_q = ground arith;
  next_other = λ x h k. ground arith;
  prev_other = λ x h k. ground arith;
}

insert-Chain :
    (l m : Links) (z n p q : ℕ) (xs : List ℕ)
    → IsInserted l m z n q
    → z ≡ last p xs
    → has q xs ≡ false
    → IsDistinct (p ∷ xs)
    → has n (p ∷ xs) ≡ false
    → Chain l p xs q
    → Chain m p (xs ++ n ∷ []) q
insert-Chain l m z n p q [] i e a d f c =
    (ground (arith, i.next_z), ground (arith, i.prev_n), (i.next_n, i.prev_q))
insert-Chain l m z n p q (x ∷ xs) i e a d f c = (
  ground (arith, i.next_other p, has-last x xs, ==_iff p z),
  ground (arith, i.prev_other x, ==_iff x q),
  insert-Chain l m z n x q xs i e (ground arith) d.1 (ground arith) c.2,
)

-- `list_insert_before` at the head puts a new node at the end of the list.
pub list_insert_before-append :
    (l : Links) (h n : ℕ) (xs : List ℕ)
    → has n (h ∷ xs) ≡ false
    → Ring l h xs
    → Ring (list_insert_before l h n) h (xs ++ n ∷ [])
list_insert_before-append l h n xs f r =
    let e : l.prev h ≡ last h xs = prev-Chain l h h xs r.chain in
    record {
      chain =
          insert-Chain l (list_insert_before l h n) (l.prev h) n h h xs
            (list_insert_before-IsInserted l h n (ground arith)
              (ground (arith, e, has-last h xs, ==_iff n (last h xs))))
            e r.distinct.0 r.distinct f r.chain;
      distinct =
          append-IsDistinct (h ∷ xs) (n ∷ []) r.distinct (refl, tt)
            (λ a i. ground (arith, i, f, ==_iff a n));
    }

-- A ring read from another of its nodes.
pub rotate-Ring :
    (l : Links) (h y : ℕ) (xs ys : List ℕ) → Ring l h (xs ++ y ∷ ys) → Ring l y (ys ++ h ∷ xs)
rotate-Ring l h y xs ys r =
    let s = split-Chain l h y h xs ys r.chain in
    let d = IsDistinct-append (h ∷ xs) (y ∷ ys) r.distinct in
    record {
      chain = append-Chain l y h y ys xs s.1 s.0;
      distinct =
          append-IsDistinct (y ∷ ys) (h ∷ xs) d.1 d.0
            (λ a i. not-has a (h ∷ xs) (λ k. false_of i (d.2 a k)));
    }

-- `list_insert_before` at a node puts the new node in front of it.
pub list_insert_before-middle :
    (l : Links) (h y n : ℕ) (xs ys : List ℕ)
    → has n (h ∷ xs ++ y ∷ ys) ≡ false
    → Ring l h (xs ++ y ∷ ys)
    → Ring (list_insert_before l y n) h (xs ++ n ∷ y ∷ ys)
list_insert_before-middle l h y n xs ys f r =
    let m = list_insert_before l y n in
    let a : Ring m y ((ys ++ h ∷ xs) ++ n ∷ []) =
      list_insert_before-append l y n (ys ++ h ∷ xs)
        (ground (arith, f, has-append n xs (y ∷ ys), has-append n ys (h ∷ xs)))
        (rotate-Ring l h y xs ys r) in
    let b : Ring m y (ys ++ h ∷ (xs ++ n ∷ [])) = rw append_assoc at a in
    rw (append_assoc xs (n ∷ []) (y ∷ ys)) at (rotate-Ring m y h ys (xs ++ n ∷ []) b)
