-- ===== src/Leaderboard/Keys.antt =====
-- The keys of the scores: which are equal, which lie between the bounds of one board.
use flamedb.Base.{refl, ◌≡◌, true, false, ℕ, ◌&&◌, ◌++◌, ◌<◌, arith, ◌^◌, ◌∷◌, [], ◌==◌, suc, ◌-◌}
use flamedb.Base.Bytes.{Bytes, bytes_eq, bytes_eq_iff, codes, append_left_cancel}
use flamedb.Base.Words.{bytes_lt, bytes_lt-append_left, put_uint}
use flamedb.Leaderboard.{lb_prefix, lb_upper, component, colon}
use flamedb.Storage.Keys.{lb_key, lb_entity_key}
use flamedb.Storage.Keys.Injective.{
  IsText, lb_key-injective, lb_entity_key-injective, component_cut,
}

pub bytes_eq-lb_key :
    (m n a b : Bytes) (v w : ℕ)
    → IsText m
    → IsText n
    → v < 2 ^ 64
    → w < 2 ^ 64
    → bytes_eq (lb_key m a v) (lb_key n b w) ≡ (bytes_eq m n && (bytes_eq a b && v == w))
bytes_eq-lb_key m n a b v w hm hn hv hw = ground (
  arith,
  bytes_eq_iff (lb_key m a v) (lb_key n b w),
  bytes_eq_iff m n,
  bytes_eq_iff a b,
  lb_key-injective m n a b v w hm hn hv hw,
)

pub bytes_eq-lb_entity_key :
    (m n a b : Bytes)
    → IsText m
    → IsText n
    → bytes_eq (lb_entity_key m a) (lb_entity_key n b) ≡ (bytes_eq m n && bytes_eq a b)
bytes_eq-lb_entity_key m n a b hm hn = ground (
  arith,
  bytes_eq_iff (lb_entity_key m a) (lb_entity_key n b),
  bytes_eq_iff m n,
  bytes_eq_iff a b,
  lb_entity_key-injective m n a b hm hn,
)

-- No row of the score order is an entry of the index by entity.
pub lb_entity_key_apart :
    (m n a b : Bytes) (v : ℕ) → bytes_eq (lb_entity_key m a) (lb_key n b v) ≡ false
unfolding bytes_eq lb_key lb_entity_key
lb_entity_key_apart m n a b v = refl

pub lb_entity_key_outside :
    (m a rest : Bytes) → bytes_eq (lb_entity_key m a) (codes "lb" ++ colon ∷ rest) ≡ false
unfolding bytes_eq lb_entity_key
lb_entity_key_outside m a rest = refl

pub lb_key_apart : (m n a b : Bytes) (v : ℕ) → bytes_eq (lb_key n b v) (lb_entity_key m a) ≡ false
unfolding bytes_eq lb_key lb_entity_key
lb_key_apart m n a b v = refl

-- What lies between a text with a byte and the text with the next byte begins with the first.
pub prefix_of_range :
    (p : Bytes) (c : ℕ) (key : Bytes)
    → bytes_lt key (p ++ c ∷ []) ≡ false
    → bytes_lt key (p ++ suc c ∷ []) ≡ true
    → (rest : Bytes) × (key ≡ p ++ c ∷ rest)
unfolding bytes_lt
prefix_of_range [] c [] low high = absurd (ground arith)
prefix_of_range [] c (x ∷ key) low high = (key, ground arith)
prefix_of_range (y ∷ p) c [] low high = absurd (ground arith)
prefix_of_range (y ∷ p) c (x ∷ key) low high =
    let (rest, e) = prefix_of_range p c key (ground arith) (ground arith) in (rest, ground arith)

-- A row between the bounds of a board is a row of that board.
pub board_of_range :
    (m n b : Bytes) (v : ℕ)
    → IsText m
    → IsText n
    → bytes_lt (lb_key n b v) (lb_prefix m) ≡ false
    → bytes_lt (lb_key n b v) (lb_upper m) ≡ true
    → n ≡ m
unfolding lb_prefix lb_upper lb_key
board_of_range m n b v hm hn low high =
    let (rest, e) = prefix_of_range (codes "lb:" ++ component m) colon (lb_key n b v) low high in
    (component_cut n m _ rest hn hm (append_left_cancel (codes "lb:") _ _ e)).0

-- A row of a board, and it alone among rows, lies between the bounds.
pub lb_key_above : (m b : Bytes) (v : ℕ) → bytes_lt (lb_key m b v) (lb_prefix m) ≡ false
unfolding lb_key lb_prefix bytes_lt
lb_key_above m b v =
    bytes_lt-append_left (component m) (colon ∷ (put_uint 8 (2 ^ 64 - 1 - v) ++ colon ∷ b))
      (colon ∷ [])

pub lb_key_below : (m b : Bytes) (v : ℕ) → bytes_lt (lb_key m b v) (lb_upper m) ≡ true
unfolding lb_key lb_upper bytes_lt
lb_key_below m b v =
    bytes_lt-append_left (component m) (colon ∷ (put_uint 8 (2 ^ 64 - 1 - v) ++ colon ∷ b))
      (b';' ∷ [])

-- Whatever lies between the bounds begins as the rows do.
pub row_of_range :
    (m key : Bytes)
    → bytes_lt key (lb_prefix m) ≡ false
    → bytes_lt key (lb_upper m) ≡ true
    → (rest : Bytes) × (key ≡ codes "lb" ++ colon ∷ rest)
unfolding lb_prefix lb_upper
row_of_range m key low high =
    let (rest, e) = prefix_of_range (codes "lb:" ++ component m) colon key low high in
    (component m ++ colon ∷ rest, e)
