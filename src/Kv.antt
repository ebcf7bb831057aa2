-- ===== src/Kv.antt =====
-- What the program uses of the store, package pebble: point reads, snapshots read in key order, and
-- batches that are committed as a whole. The store is a parameter, with these operations and laws.
-- A batch is the list of its operations. Failures of the disk, which every caller passes on, are
-- not among the results.
pub mod Order
pub mod Settle
pub mod Memory
use flamedb.Base.{◌≡◌, true, false, Bool, Option, none, some, List, [], ◌∷◌, if◌then◌else◌, In}
use flamedb.Base.Bytes.{Bytes, bytes_eq}
use flamedb.Base.Words.{bytes_lt}

-- batch.Set and batch.Delete
pub data Op : Type 0 where
  put : Bytes → Bytes → Op
  del : Bytes → Op

abbrev pub Batch : Type 0
Batch = List Op

-- What a key holds after the operations; this is also what an indexed batch reads.
unfoldable pub settle : Batch → Bytes → Option Bytes → Option Bytes
settle [] k r = r
settle (put j v ∷ ops) k r = settle ops k (if bytes_eq j k then some v else r)
settle (del j ∷ ops) k r = settle ops k (if bytes_eq j k then none else r)

abbrev pub Row : Type 0
Row = Bytes × Bytes

-- The keys go up.
abbrev pub Ascending : List Row → Type 0
Ascending [] = Unit
Ascending (r ∷ []) = Unit
Ascending (r ∷ s ∷ rows) = (bytes_lt r.0 s.0 ≡ true) × Ascending (s ∷ rows)

pub record Kv (Db : Type 0) : Type 0 where
  pub find : Db → Bytes → Option Bytes
  pub commit : Db → Batch → Db
  -- The rows of the keys from the first bound on and before the second.
  pub scan : Db → Bytes → Bytes → List Row

-- The documented behaviour.
pub record IsStore {Db : Type 0} (kv : Kv Db) : Type 0 where
  pub find-commit :
      (db : Db) (ops : Batch) (k : Bytes)
      → kv.find (kv.commit db ops) k ≡ settle ops k (kv.find db k)
  pub In-scan :
      (db : Db) (low high : Bytes) (k v : Bytes)
      → In (k, v) (kv.scan db low high)
      → (kv.find db k ≡ some v) × (bytes_lt k low ≡ false) × (bytes_lt k high ≡ true)
  pub scan-In :
      (db : Db) (low high : Bytes) (k v : Bytes)
      → kv.find db k ≡ some v
      → bytes_lt k low ≡ false
      → bytes_lt k high ≡ true
      → In (k, v) (kv.scan db low high)
  pub scan-Ascending : (db : Db) (low high : Bytes) → Ascending (kv.scan db low high)
