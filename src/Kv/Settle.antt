-- ===== src/Kv/Settle.antt =====
-- What a batch leaves at a key.
use flamedb.Base.{◌≡◌, refl, Option, none, some, ◌∷◌, [], ◌++◌, Bool-cases, inl, inr}
use flamedb.Base.Bytes.{Bytes, bytes_eq}
use flamedb.Kv.{Batch, put, del, settle}

pub settle-append :
    (a b : Batch) (k : Bytes) (r : Option Bytes) → settle (a ++ b) k r ≡ settle b k (settle a k r)
unfolding settle
settle-append [] b k r = refl
settle-append (put j v ∷ a) b k r = settle-append a b k _
settle-append (del j ∷ a) b k r = settle-append a b k _

-- A batch that deletes nothing.
abbrev pub PutsOnly : Batch → Type 0
PutsOnly [] = Unit
PutsOnly (put j v ∷ ops) = PutsOnly ops
PutsOnly (del j ∷ ops) = ⊥

pub PutsOnly-append : (a b : Batch) → PutsOnly a → PutsOnly b → PutsOnly (a ++ b)
PutsOnly-append [] b p q = q
PutsOnly-append (put j v ∷ a) b p q = PutsOnly-append a b p q
PutsOnly-append (del j ∷ a) b p q = absurd p

abbrev pub Present : Option Bytes → Type 0
Present none = ⊥
Present (some v) = Unit

-- Such a batch leaves present what was present, and more so on more.
pub settle-Present :
    (ops : Batch) (k : Bytes) (r : Option Bytes)
    → PutsOnly ops
    → Present r
    → Present (settle ops k r)
unfolding settle
settle-Present [] k r p h = h
settle-Present (put j v ∷ ops) k r p h = elim (Bool-cases (bytes_eq j k)) [
  | inl same ↦ rw same (settle-Present ops k (some v) p tt)
  | inr other ↦ rw other (settle-Present ops k r p h)
]
settle-Present (del j ∷ ops) k r p h = absurd p

pub settle-Present_mono :
    (ops : Batch) (k : Bytes) (r s : Option Bytes)
    → PutsOnly ops
    → (Present r → Present s)
    → Present (settle ops k r)
    → Present (settle ops k s)
unfolding settle
settle-Present_mono [] k r s p f h = f h
settle-Present_mono (put j v ∷ ops) k r s p f h = elim (Bool-cases (bytes_eq j k)) [
  | inl same ↦ rw same (rw same at h)
  | inr other ↦ rw other (settle-Present_mono ops k r s p f (rw other at h))
]
settle-Present_mono (del j ∷ ops) k r s p f h = absurd p
