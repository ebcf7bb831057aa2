-- ===== src/Storage/Transfer/Moved.antt =====
-- A metric's events arrive at the other node as they were.
use flamedb.Base.{
  ◌≡◌, ◌≢◌, refl, arith, Option, some, List, ◌∷◌, [], ◌++◌, true, inl, inr, In, sym, ap, ◌∙◌, subst,
  In-append, append_assoc,
}
use flamedb.Base.Bytes.{Bytes, codes, bytes_eq, bytes_eq_ne, bytes_eq_refl}
use flamedb.Base.Int.{ℤ, to_word64}
use flamedb.Base.Words.{bytes_lt, bytes_lt-append_left, put_uint}
use flamedb.Keyspace.{component, colon, marker}
use flamedb.Kv.{Kv, IsStore, put, settle, Row}
use flamedb.Kv.Order.{Sorted, Ascending-Sorted, prefix_between, bytes_lt_irrefl}
use flamedb.Kv.Settle.{settle-append}
use flamedb.Storage.Codec.{Json, ok, bind-ok, ok_inj, decode_event_value}
use flamedb.Storage.Event.{Event}
use flamedb.Storage.Keys.{event_key, index_key}
use flamedb.Storage.Keys.Injective.{IsText, Family, idx, lb, lb_entity, event_key_disjoint}
use flamedb.Storage.Transfer.{
  raw_puts, owned_rows, index_rows, rebuilt_rows, export_metric, prefix_rows, export_leaderboard,
  import_raw_kvs, export_metric_data, import_rebalance_data, Map,
}

-- No row has the key.
abbrev Avoids : Bytes → List Row → Type 0
Avoids k rows = (r : Row) → In r rows → r.0 ≢ k

raw_puts-append : (a b : List Row) → raw_puts (a ++ b) ≡ raw_puts a ++ raw_puts b
unfolding raw_puts
raw_puts-append [] b = refl
raw_puts-append ((k, v) ∷ a) b = ap (λ ops. put k v ∷ ops) (raw_puts-append a b)

settle-raw_puts-Avoids :
    (rows : List Row) (k : Bytes) (r : Option Bytes)
    → Avoids k rows
    → settle (raw_puts rows) k r ≡ r
unfolding raw_puts settle
settle-raw_puts-Avoids [] k r h = refl
settle-raw_puts-Avoids ((j, v) ∷ rows) k r h =
    rw (settle, bytes_eq_ne j k (h (j, v) (inl refl)))
      (settle-raw_puts-Avoids rows k r (λ s i. h s (inr i)))

-- Of rows in key order each arrives.
settle-raw_puts_In :
    (rows : List Row) (k v : Bytes) (r : Option Bytes)
    → Sorted rows
    → In (k, v) rows
    → settle (raw_puts rows) k r ≡ some v
unfolding raw_puts settle
settle-raw_puts_In [] k v r sorted i = absurd i
settle-raw_puts_In ((j, w) ∷ rows) k v r (first, sorted) (inl e) =
    let same : bytes_eq j k ≡ true =
      subst (λ (q : Row). bytes_eq q.0 k ≡ true) e (bytes_eq_refl k) in
    let value : w ≡ v = sym (ap (λ (q : Row). q.1) e) in
    let later : Avoids k rows = λ s i at_k. cc (
      bytes_lt_irrefl k,
      subst (λ x. bytes_lt x s.0 ≡ true) (sym (ap (λ (q : Row). q.0) e)) (first s i),
      at_k,
    ) in
    rw (settle, same) (settle-raw_puts-Avoids rows k (some w) later ∙ ap some value)
settle-raw_puts_In ((j, w) ∷ rows) k v r (first, sorted) (inr i) =
    settle-raw_puts_In rows k v _ sorted i

-- The keys of the other families, which no event of the metric has.
abbrev Reserved : Bytes → Type 0
Reserved k = (w : Bytes) × (rest : Bytes) × Family w × (k ≡ w ++ colon ∷ rest)

abbrev AllReserved : List Row → Type 0
AllReserved rows = (r : Row) → In r rows → Reserved r.0

Reserved-append : (a b : List Row) → AllReserved a → AllReserved b → AllReserved (a ++ b)
Reserved-append a b p q r i = elim (In-append r a b i) [ inl j ↦ p r j | inr j ↦ q r j ]

owned_rows-In :
    (kind metric : Bytes) (rows : List Row) (r : Row)
    → In r (owned_rows kind metric rows)
    → In r rows
unfolding owned_rows
owned_rows-In kind metric [] r i = i
owned_rows-In kind metric ((k, v) ∷ rows) r i = ground (arith, owned_rows-In kind metric rows r, i)

index_rows-Reserved :
    (primary : Bytes) (e : Event) (tags : Map Bytes) → AllReserved (index_rows primary e tags)
unfolding index_rows index_key
index_rows-Reserved primary e [] r i = absurd i
index_rows-Reserved primary e ((k, v) ∷ tags) r (inl same) =
    (codes "idx", _, idx, ap (λ (q : Row). q.0) same)
index_rows-Reserved primary e ((k, v) ∷ tags) r (inr i) = index_rows-Reserved primary e tags r i

rebuilt_rows-Reserved :
    (json : Json) (m : Bytes) (rows made : List Row)
    → rebuilt_rows json m rows ≡ ok made
    → AllReserved made
unfolding rebuilt_rows
rebuilt_rows-Reserved json m [] made h = subst AllReserved (ok_inj h) (λ r i. absurd i)
rebuilt_rows-Reserved json m ((k, bytes) ∷ rows) made h =
    let (e, _, h1) = bind-ok (decode_event_value json bytes m) _ made h in
    let (rest, at_rest, h2) = bind-ok (rebuilt_rows json m rows) _ made h1 in
    subst AllReserved (ok_inj h2) (
      Reserved-append (index_rows k e e.tags) rest (index_rows-Reserved k e e.tags)
        (rebuilt_rows-Reserved json m rows rest at_rest))

-- The rows of boards.
prefix_rows-Reserved :
    {Db : Type 0} (kv : Kv Db)
    → IsStore kv
    → (db : Db) (w rest : Bytes) → Family w
    → AllReserved (prefix_rows kv db (w ++ colon ∷ rest))
prefix_rows-Reserved kv store db w rest family (k, v) i =
    let prefix = w ++ colon ∷ rest in
    let (_, above, below) = store.In-scan db prefix (prefix ++ 0xFF ∷ []) k v i in
    let (more, e) = prefix_between prefix 0xFF k above below in
    (w, rest ++ more, family, e ∙ append_assoc w (colon ∷ rest) more)

module _ {Db : Type 0} {kv : Kv Db} (json : Json) (store : IsStore kv) where
  export_leaderboard-Reserved : (db : Db) (m : Bytes) → AllReserved (export_leaderboard kv db m)
  unfolding export_leaderboard
  export_leaderboard-Reserved db m =
      let name = component m in
      let a = prefix_rows kv db (codes "lb:" ++ name ++ colon ∷ []) in
      let b = prefix_rows kv db (codes "lb-entity:" ++ name ++ colon ∷ []) in
      let c = prefix_rows kv db (codes "lb:" ++ marker ∷ []) in
      let d = prefix_rows kv db (codes "lb-entity:" ++ marker ∷ []) in
      let c' = owned_rows (codes "lb:") name c in
      let d' = owned_rows (codes "lb-entity:") name d in
      Reserved-append a (b ++ (c' ++ d'))
        (prefix_rows-Reserved kv store db (codes "lb") (name ++ colon ∷ []) lb)
        (Reserved-append b (c' ++ d')
          (prefix_rows-Reserved kv store db (codes "lb-entity") (name ++ colon ∷ []) lb_entity)
          (Reserved-append c' d'
            (λ r i.
              prefix_rows-Reserved kv store db (codes "lb") (marker ∷ []) lb r
                (owned_rows-In (codes "lb:") name c r i))
            (λ r i.
              prefix_rows-Reserved kv store db (codes "lb-entity") (marker ∷ []) lb_entity r
                (owned_rows-In (codes "lb-entity:") name d r i))))

  event_key-In :
      (db : Db) (m : Bytes) (t : ℤ) (v : Bytes)
      → kv.find db (event_key m t) ≡ some v
      → In (event_key m t, v) (export_metric kv db m)
  unfolding event_key export_metric bytes_lt
  event_key-In db m t v h =
      store.scan-In db (component m ++ colon ∷ []) (component m ++ b';' ∷ []) (event_key m t) v h
        (bytes_lt-append_left (component m) (colon ∷ put_uint 8 (to_word64 t)) (colon ∷ []))
        (bytes_lt-append_left (component m) (colon ∷ put_uint 8 (to_word64 t)) (b';' ∷ []))

  Reserved-Avoids :
      (rows : List Row) (m : Bytes) (t : ℤ)
      → IsText m
      → (Family m → ⊥)
      → AllReserved rows
      → Avoids (event_key m t) rows
  Reserved-Avoids rows m t hm free reserved r i e =
      let (w, rest, family, at_w) = reserved r i in
      free (subst Family (sym (event_key_disjoint m w rest t hm family (sym e ∙ at_w))) family)

  -- Where the exported data of a metric, whose name is not that of another family of keys, is
  -- imported at another node, each of its events is there what it was here, whatever that node
  -- held.
  pub import-export_metric_data :
      (db target moved : Db) (m : Bytes) (t : ℤ) (v : Bytes)
      → IsText m
      → (Family m → ⊥)
      → import_rebalance_data kv json target (export_metric_data kv db m) ≡ ok moved
      → kv.find db (event_key m t) ≡ some v
      → kv.find moved (event_key m t) ≡ some v
  unfolding import_rebalance_data export_metric_data import_raw_kvs export_metric
  import-export_metric_data db target moved m t v hm free h stored =
      let events = export_metric kv db m in
      let boards = export_leaderboard kv db m in
      let (made, at_made, h1) = bind-ok (rebuilt_rows json m events) _ moved h in
      let key = event_key m t in
      let old = kv.find target key in
      let others = boards ++ made in
      let avoids = Reserved-Avoids others m t hm free (
        Reserved-append boards made (export_leaderboard-Reserved db m)
          (rebuilt_rows-Reserved json m events made at_made)) in
      let at_moved : kv.commit target (raw_puts (events ++ others)) ≡ moved = ok_inj h1 in
      let sorted : Sorted events =
        Ascending-Sorted events
          (store.scan-Ascending db (component m ++ colon ∷ []) (component m ++ b';' ∷ [])) in
      ap (λ d. kv.find d key) (sym at_moved)
      ∙ store.find-commit target (raw_puts (events ++ others)) key
      ∙ ap (λ ops. settle ops key old) (raw_puts-append events others)
      ∙ settle-append (raw_puts events) (raw_puts others) key old
      ∙ settle-raw_puts-Avoids others key _ avoids
      ∙ settle-raw_puts_In events key v old sorted (event_key-In db m t v stored)
