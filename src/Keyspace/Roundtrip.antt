-- ===== src/Keyspace/Roundtrip.antt =====
-- A component stands for one identifier, holds no ':', and is decoded to that identifier.
use flamedb.Base.{◌≡◌, refl, ap, ◌∙◌, sym, false, [], ◌∷◌, arith, All, Bool-cases, inl, inr}
use flamedb.Base.Bytes.{Bytes, IsByte, Lacks, has_prefix, contains_any, contains_byte}
use flamedb.Keyspace.{component, decode_component, hex-hex_encode, hex_encode-Lacks, colon, marker}

contains_any-Lacks :
    (s : Bytes) → contains_any s (colon ∷ marker ∷ []) ≡ false → Lacks colon s × Lacks marker s
unfolding contains_any contains_byte
contains_any-Lacks [] h = (tt, tt)
contains_any-Lacks (x ∷ s) h =
    let r = contains_any-Lacks s (ground arith) in ((ground arith, r.0), (ground arith, r.1))

plain_prefix : (s : Bytes) → Lacks marker s → has_prefix s (marker ∷ []) ≡ false
unfolding has_prefix
plain_prefix [] h = refl
plain_prefix (x ∷ s) h = ground arith

-- Every byte string comes back from its key component.
pub decode-component : (name : Bytes) → All IsByte name → decode_component (component name) ≡ name
unfolding component
decode-component name h = elim (Bool-cases (contains_any name (colon ∷ marker ∷ []))) [
  | inl e ↦ rw e (unfold decode_component has_prefix in rw (hex-hex_encode name h))
  | inr e ↦ rw e (unfold decode_component in rw (plain_prefix name (contains_any-Lacks name e).1))
]

-- Two identifiers with one component are equal.
pub component-injective :
    (a b : Bytes) → All IsByte a → All IsByte b → component a ≡ component b → a ≡ b
component-injective a b ha hb e =
    sym (decode-component a ha) ∙ ap decode_component e ∙ decode-component b hb

-- No key component holds the delimiter.
pub component-Lacks : (name : Bytes) → All IsByte name → Lacks colon (component name)
unfolding component
component-Lacks name h = elim (Bool-cases (contains_any name (colon ∷ marker ∷ []))) [
  | inl e ↦ rw e (omega arith, hex_encode-Lacks colon name h (inr (omega arith)))
  | inr e ↦ rw e (contains_any-Lacks name e).0
]
