-- ===== src/Hashtable/Buckets.antt =====
-- kernel/lib/hashtable.c and kernel/include/hashtable.h: the buckets as rings.
use borfos.Common.{
  ℕ, zero, suc, ◌+◌, ◌*◌, ◌<◌, ◌≡◌, arith, Bool, false, List, [], ◌∷◌, ◌++◌, length, length-append,
  has,
}
use borfos.Links.{Links, list_init, list_insert_before}
use borfos.Links.Ring.{Ring, list_insert_before-append}
use borfos.Links.Frame.{Ring-IsLinked, list_insert_before-frame, list_init-frame, list_init-Ring}
use borfos.Links.Find.{first_match, list_find-first_match}
use borfos.Hashtable.{
  init_buckets, hashtable_init, hashtable_get_bucket, hashtable_add_by_key, hashtable_find,
}

init_buckets-kept :
    (n bucket a : ℕ) (l : Links) → a < bucket → Ring l a [] → Ring (init_buckets n bucket l) a []
unfolding init_buckets
init_buckets-kept zero bucket a l h r = r
init_buckets-kept (suc n) bucket a l h r =
    init_buckets-kept n (bucket + 8) a (list_init l bucket) (omega arith)
      (list_init-frame l bucket a [] (ground arith) r)

at_address : (l : Links) (a b : ℕ) → a ≡ b → Ring l a [] → Ring l b []
at_address l a b e r = rw e at r

init_buckets-empty :
    (n bucket k : ℕ) (l : Links) → k < n → Ring (init_buckets n bucket l) (bucket + 8 * k) []
unfolding init_buckets
init_buckets-empty zero bucket k l h = absurd (omega arith)
init_buckets-empty (suc n) bucket zero l h =
    let e : bucket ≡ bucket + 8 * 0 = omega arith in
    let r =
      init_buckets-kept n (bucket + 8) bucket (list_init l bucket) (omega arith)
        (list_init-Ring l bucket) in
    at_address (init_buckets n (bucket + 8) (list_init l bucket)) bucket (bucket + 8 * 0) e r
init_buckets-empty (suc n) bucket (suc k) l h =
    let e : bucket + 8 + 8 * k ≡ bucket + 8 * suc k = omega arith in
    let r = init_buckets-empty n (bucket + 8) k (list_init l bucket) (omega arith) in
    at_address (init_buckets n (bucket + 8) (list_init l bucket)) (bucket + 8 + 8 * k)
      (bucket + 8 * suc k) e r

-- Behind `hashtable_init` each of the 256 buckets is an empty list.
pub hashtable_init-empty :
    (self key : ℕ) (l : Links)
    → key < 256
    → Ring (hashtable_init self l) (hashtable_get_bucket self key) []
unfolding hashtable_init hashtable_get_bucket
hashtable_init-empty self key l h = init_buckets-empty 256 self key l h

-- A node that is added to a bucket is at its end, every other bucket stays as it was, and a search
-- of the bucket returns the first node, the new one included, that the predicate accepts.
pub hashtable_add_by_key-find :
    (self node key key' : ℕ) (func : ℕ → Bool) (fuel : ℕ) (xs ys : List ℕ) (l : Links)
    → Ring l (hashtable_get_bucket self key) xs
    → Ring l (hashtable_get_bucket self key') ys
    → has node (hashtable_get_bucket self key ∷ xs) ≡ false
    → has node (hashtable_get_bucket self key' ∷ ys) ≡ false
    → has (hashtable_get_bucket self key) (hashtable_get_bucket self key' ∷ ys) ≡ false
    → length xs + 1 < fuel
    → Ring (hashtable_add_by_key self node key l) (hashtable_get_bucket self key) (xs ++ node ∷ [])
      × Ring (hashtable_add_by_key self node key l) (hashtable_get_bucket self key') ys
      × (hashtable_find self key func fuel (hashtable_add_by_key self node key l)
          ≡ first_match func (xs ++ node ∷ []))
unfolding hashtable_add_by_key hashtable_find
hashtable_add_by_key-find self node key key' func fuel xs ys l r r' f f' d h =
    let b = hashtable_get_bucket self key in
    let b' = hashtable_get_bucket self key' in
    let s = list_insert_before-append l b node xs f r in
    let i = Ring-IsLinked l b b xs (ground arith) r in
    (
      s,
      list_insert_before-frame l b node b' ys i d f' r',
      list_find-first_match (list_insert_before l b node) b func fuel (xs ++ node ∷ []) s
          (omega (arith, length-append xs (node ∷ []))),
    )
