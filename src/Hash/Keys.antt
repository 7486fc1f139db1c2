-- ===== src/Hash/Keys.antt =====
-- kernel/lib/hash.c with kernel/include/hashtable.h: the keys stay inside a hash table.
use borfos.Common.{ℕ, ◌+◌, ◌*◌, ◌≤◌, arith, List}
use borfos.Hash.{hash_32, hash_str}
use borfos.Hashtable.{hashtable_get_bucket}

-- Whatever is hashed, the bucket of its key is one of the 256 of the table.
pub hash-bucket :
    (self val : ℕ) (str : List ℕ)
    → (self ≤ hashtable_get_bucket self (hash_32 val))
      × (hashtable_get_bucket self (hash_32 val) + 8 ≤ self + 8 * 256)
      × (self ≤ hashtable_get_bucket self (hash_str str))
      × (hashtable_get_bucket self (hash_str str) + 8 ≤ self + 8 * 256)
unfolding hash_32 hash_str hashtable_get_bucket
hash-bucket self val str = (omega arith, omega arith, omega arith, omega arith)
