-- ===== src/Hashtable.antt =====
-- kernel/lib/hash.c, kernel/include/hash.h, kernel/lib/hashtable.c and
-- kernel/include/hashtable.h: 256 lists, at the addresses from `self` on, 8 bytes each.
pub mod Buckets
mod Tests
use borfos.Common.{ℕ, zero, suc, ◌+◌, ◌*◌, ◌/◌, ◌%◌, ◌^◌, Bool, List, [], ◌∷◌, u32}
use borfos.Links.{Links, Walk, list_init, list_insert_before, list_remove, list_find}

-- The loop of `hashtable_init` over `n` buckets from `bucket` on.
unfoldable pub init_buckets : ℕ → ℕ → Links → Links
init_buckets zero bucket l = l
init_buckets (suc n) bucket l = init_buckets n (bucket + 8) (list_init l bucket)

unfoldable pub hashtable_init : ℕ → Links → Links
hashtable_init self l = init_buckets 256 self l

unfoldable pub hashtable_get_bucket : ℕ → ℕ → ℕ
hashtable_get_bucket self key = self + 8 * key

unfoldable pub hashtable_add_by_key : ℕ → ℕ → ℕ → Links → Links
hashtable_add_by_key self node key l = list_insert_before l (hashtable_get_bucket self key) node

unfoldable pub hashtable_remove : ℕ → Links → Links
hashtable_remove node l = list_remove l node

unfoldable pub hashtable_find : ℕ → ℕ → (ℕ → Bool) → ℕ → Links → Walk
hashtable_find self key func fuel l = list_find l (hashtable_get_bucket self key) func fuel
