-- ===== src/Links/Find.antt =====
-- `list_find` walks the whole ring, in order.
use borfos.Common.{
  ℕ, zero, suc, ◌<◌, ◌≡◌, Bool, false, List, [], ◌∷◌, arith, has, length, if◌then◌else◌, ==_iff,
}
use borfos.Links.{Links, Walk, found, null, find_from, list_find}
use borfos.Links.Chain.{Chain}
use borfos.Links.Ring.{Ring}

-- The first node that the predicate accepts.
unfoldable pub first_match : (ℕ → Bool) → List ℕ → Walk
first_match func [] = null
first_match func (x ∷ xs) = if func x then found x else first_match func xs

find_from-first_match :
    (l : Links) (self p : ℕ) (func : ℕ → Bool) (fuel : ℕ) (xs : List ℕ)
    → Chain l p xs self
    → has self xs ≡ false
    → length xs < fuel
    → find_from l self func fuel (l.next p) ≡ first_match func xs
unfolding find_from first_match
find_from-first_match l self p func zero xs c d h = absurd (omega arith)
find_from-first_match l self p func (suc fuel) [] c d h = ground (arith, c.0)
find_from-first_match l self p func (suc fuel) (x ∷ xs) c d h = rw c.0 (
    ground (
      arith,
      ==_iff x self,
      ==_iff self x,
      find_from-first_match l self x func fuel xs c.2 (ground arith),
    ))

-- With more rounds than nodes `list_find` returns the first node that the predicate accepts, and
-- NULL where there is none.
pub list_find-first_match :
    (l : Links) (self : ℕ) (func : ℕ → Bool) (fuel : ℕ) (xs : List ℕ)
    → Ring l self xs
    → length xs < fuel
    → list_find l self func fuel ≡ first_match func xs
unfolding list_find
list_find-first_match l self func fuel xs r h =
    find_from-first_match l self self func fuel xs r.chain r.distinct.0 h
