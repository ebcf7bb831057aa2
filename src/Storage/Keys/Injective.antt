-- ===== src/Storage/Keys/Injective.antt =====
-- Every key names one event, one index entry, one score; the families of keys do not meet.
use flamedb.Base.{
  ℕ, ◌-◌, ◌^◌, ◌<◌, ◌≡◌, refl, ap, sym, ◌∙◌, ◌∷◌, ◌++◌, arith, All, append_suffix_unique,
  append_prefix_unique,
}
use flamedb.Base.Bytes.{Bytes, codes, IsByte, split_unique, append_left_cancel, contains_byte}
use flamedb.Base.Int.{ℤ, IsInt64, to_word64, to_word64-lt, of_word64, of_word64-to_word64}
use flamedb.Base.Words.{put_uint, put_uint-injective, length-put_uint}
use flamedb.Keyspace.{component, colon}
use flamedb.Keyspace.Roundtrip.{component-injective, component-Lacks}
use flamedb.Storage.Keys.{event_key, index_key, lb_key, lb_entity_key}

abbrev pub IsText : Bytes → Type 0
IsText = All IsByte

pub to_word64-injective : (s t : ℤ) → IsInt64 s → IsInt64 t → to_word64 s ≡ to_word64 t → s ≡ t
to_word64-injective s t hs ht e =
    sym (of_word64-to_word64 s hs) ∙ ap of_word64 e ∙ of_word64-to_word64 t ht

-- A component and its colon are read off the front of a key.
pub component_cut :
    (a b s t : Bytes)
    → IsText a
    → IsText b
    → component a ++ colon ∷ s ≡ component b ++ colon ∷ t
    → (a ≡ b) × (s ≡ t)
component_cut a b s t ha hb e =
    let r =
      split_unique colon (component a) (component b) s t (component-Lacks a ha)
        (component-Lacks b hb) e in
    (component-injective a b ha hb r.0, r.1)

timestamp_cut :
    (s t : ℤ) → IsInt64 s → IsInt64 t → put_uint 8 (to_word64 s) ≡ put_uint 8 (to_word64 t) → s ≡ t
timestamp_cut s t hs ht e = to_word64-injective s t hs ht (
    put_uint-injective 8 (to_word64 s) (to_word64 t) (omega (arith, to_word64-lt s hs))
      (omega (arith, to_word64-lt t ht)) e)

-- Two events with one primary key have the same metric and the same timestamp.
pub event_key-injective :
    (m n : Bytes) (s t : ℤ)
    → IsText m
    → IsText n
    → IsInt64 s
    → IsInt64 t
    → event_key m s ≡ event_key n t
    → (m ≡ n) × (s ≡ t)
unfolding event_key
event_key-injective m n s t hm hn hs ht e =
    let r = component_cut m n _ _ hm hn e in (r.0, timestamp_cut s t hs ht r.1)

-- Two index entries with one key agree in metric, tag, value and timestamp, whatever bytes the
-- value holds.
pub index_key-injective :
    (m n j k v w : Bytes) (s t : ℤ)
    → IsText m
    → IsText n
    → IsText j
    → IsText k
    → IsInt64 s
    → IsInt64 t
    → index_key m j v s ≡ index_key n k w t
    → (m ≡ n) × (j ≡ k) × (v ≡ w) × (s ≡ t)
unfolding index_key
index_key-injective m n j k v w s t hm hn hj hk hs ht e =
    let metric = component_cut m n _ _ hm hn (append_left_cancel (codes "idx:") _ _ e) in
    let tag = component_cut j k _ _ hj hk metric.1 in
    let value =
      append_suffix_unique v w (colon ∷ put_uint 8 (to_word64 s)) (colon ∷ put_uint 8 (to_word64 t))
        (omega (arith, length-put_uint 8 (to_word64 s), length-put_uint 8 (to_word64 t))) tag.1 in
    (metric.0, tag.0, value.0, timestamp_cut s t hs ht (ground (arith, value.1)))

-- The first words of the other families of keys, which validateQuery reserves.
pub data Family : Bytes → Type 0 where
  idx : Family (codes "idx")
  lb : Family (codes "lb")
  lb_entity : Family (codes "lb-entity")
  card : Family (codes "card")
  card_count : Family (codes "card-count")
  repl_applied : Family (codes "repl-applied")
  repl_outbox : Family (codes "repl-outbox")

-- A key that begins with a plain word and a colon is an event's only under that word as a metric.
event_key-family :
    (m w rest : Bytes) (t : ℤ)
    → IsText m
    → IsText w
    → component w ≡ w
    → event_key m t ≡ w ++ colon ∷ rest
    → m ≡ w
unfolding event_key
event_key-family m w rest t hm hw plain e =
    (component_cut m w _ rest hm hw (e ∙ ap (λ x. x ++ colon ∷ rest) (sym plain))).0

Family-plain : {w : Bytes} → Family w → IsText w × (component w ≡ w)
unfolding component contains_byte
Family-plain idx = (omega arith, refl)
Family-plain lb = (omega arith, refl)
Family-plain lb_entity = (omega arith, refl)
Family-plain card = (omega arith, refl)
Family-plain card_count = (omega arith, refl)
Family-plain repl_applied = (omega arith, refl)
Family-plain repl_outbox = (omega arith, refl)

-- An event's key lies in another family of keys only if its metric is that family's name.
pub event_key_disjoint :
    (m w rest : Bytes) (t : ℤ) → IsText m → Family w → event_key m t ≡ w ++ colon ∷ rest → m ≡ w
event_key_disjoint m w rest t hm f e =
    let (text, plain) = Family-plain f in event_key-family m w rest t hm text plain e

-- Two rows of score indexes with one key agree in board, entity and score.
pub lb_key-injective :
    (m n a b : Bytes) (v w : ℕ)
    → IsText m
    → IsText n
    → v < 2 ^ 64
    → w < 2 ^ 64
    → lb_key m a v ≡ lb_key n b w
    → (m ≡ n) × (a ≡ b) × (v ≡ w)
unfolding lb_key
lb_key-injective m n a b v w hm hn hv hw e =
    let board = component_cut m n _ _ hm hn (append_left_cancel (codes "lb:") _ _ e) in
    let score =
      append_prefix_unique (put_uint 8 (2 ^ 64 - 1 - v)) (put_uint 8 (2 ^ 64 - 1 - w)) (colon ∷ a)
        (colon ∷ b)
        (omega (arith, length-put_uint 8 (2 ^ 64 - 1 - v), length-put_uint 8 (2 ^ 64 - 1 - w)))
        board.1 in
    let inverted =
      put_uint-injective 8 (2 ^ 64 - 1 - v) (2 ^ 64 - 1 - w) (omega arith) (omega arith) score.0 in
    (board.0, ground (arith, score.1), omega arith)

pub lb_entity_key-injective :
    (m n a b : Bytes)
    → IsText m
    → IsText n
    → lb_entity_key m a ≡ lb_entity_key n b
    → (m ≡ n) × (a ≡ b)
unfolding lb_entity_key
lb_entity_key-injective m n a b hm hn e =
    component_cut m n _ _ hm hn (append_left_cancel (codes "lb-entity:") _ _ e)
