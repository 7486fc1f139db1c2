-- ===== src/Hashtable/Tests.antt =====
-- The theorems about hash tables at a concrete table.
use borfos.Common.{◌≡◌, refl, arith, [], ◌∷◌, ◌==◌}
use borfos.Links.{Links, found}
use borfos.Links.Ring.{Ring}
use borfos.Links.Find.{first_match}
use borfos.Hashtable.{hashtable_init, hashtable_get_bucket, hashtable_add_by_key, hashtable_find}
use borfos.Hashtable.Buckets.{hashtable_init-empty, hashtable_add_by_key-find}
use borfos.Example.{rings}

abbrev table : Links
table = hashtable_init 1000 (rings [])

hashtable_add_by_key-find_example :
    Ring (hashtable_add_by_key 1000 5000 7 table) (hashtable_get_bucket 1000 7) (5000 ∷ [])
    × Ring (hashtable_add_by_key 1000 5000 7 table) (hashtable_get_bucket 1000 8) []
    × (hashtable_find 1000 7 (λ a. a == 5000) 2 (hashtable_add_by_key 1000 5000 7 table)
        ≡ found 5000)
unfolding first_match hashtable_get_bucket
hashtable_add_by_key-find_example =
    hashtable_add_by_key-find 1000 5000 7 8 (λ a. a == 5000) 2 [] [] table
      (hashtable_init-empty 1000 7 (rings []) (omega arith))
      (hashtable_init-empty 1000 8 (rings []) (omega arith)) refl refl refl (omega arith)
