-- ===== src/Cluster/Ring/Taken.antt =====
-- One round of GetN's loop: a node that is not there yet goes to the end.
use flamedb.Base.{
  suc, ◌≤◌, ◌≡◌, refl, inl, inr, true, false, ◌||◌, List, [], ◌∷◌, ◌++◌, arith, if◌then◌else◌,
  Bool-cases, length, length-append,
}
use flamedb.Base.Bytes.{Bytes, bytes_eq, bytes_eq_refl, bytes_eq_iff}
use flamedb.Cluster.Ring.{Node, seen}

-- No two of the nodes have one identifier.
abbrev pub DistinctIds : List Node → Type 0
DistinctIds [] = Unit
DistinctIds (x ∷ xs) = (seen xs x.id ≡ false) × DistinctIds xs

seen-snoc :
    (xs : List Node) (node : Node) (id : Bytes)
    → seen (xs ++ node ∷ []) id ≡ (seen xs id || bytes_eq node.id id)
unfolding seen
seen-snoc [] node id = ground arith
seen-snoc (x ∷ xs) node id = ground (arith, seen-snoc xs node id)

DistinctIds-snoc :
    (xs : List Node) (node : Node)
    → DistinctIds xs
    → seen xs node.id ≡ false
    → DistinctIds (xs ++ node ∷ [])
unfolding seen
DistinctIds-snoc [] node d h = (refl, tt)
DistinctIds-snoc (x ∷ xs) node d h = (
  ground (arith, seen-snoc xs node x.id, bytes_eq_iff x.id node.id, bytes_eq_iff node.id x.id),
  DistinctIds-snoc xs node d.1 (ground arith),
)

-- One round of the loop.
abbrev pub taken : List Node → Node → List Node
taken found node = if seen found node.id then found else found ++ node ∷ []

pub taken-DistinctIds :
    (found : List Node) (node : Node) → DistinctIds found → DistinctIds (taken found node)
taken-DistinctIds found node d = elim (Bool-cases (seen found node.id)) [
  | inl old ↦ rw old d
  | inr new ↦ rw new (DistinctIds-snoc found node d new)
]

pub seen-taken_self : (found : List Node) (node : Node) → seen (taken found node) node.id ≡ true
seen-taken_self found node = elim (Bool-cases (seen found node.id)) [
  | inl old ↦ rw old old
  | inr new ↦ rw new (ground (arith, seen-snoc found node node.id, bytes_eq_refl node.id))
]

pub seen-taken :
    (found : List Node) (node : Node) (id : Bytes)
    → seen found id ≡ true
    → seen (taken found node) id ≡ true
seen-taken found node id h = elim (Bool-cases (seen found node.id)) [
  | inl old ↦ rw old h
  | inr new ↦ rw new (ground (arith, seen-snoc found node id))
]

pub length-taken :
    (found : List Node) (node : Node) → length (taken found node) ≤ suc (length found)
length-taken found node = elim (Bool-cases (seen found node.id)) [
  | inl old ↦ rw old (omega arith)
  | inr new ↦ rw new (omega (arith, length-append found (node ∷ [])))
]
