-- ===== src/Keyspace.antt =====
-- internal/keyspace/component.go: identifiers as delimiter-free components of database keys.
mod Hex
pub mod Roundtrip
unfoldable pub use Hex.{hex_encode, hex_decode}
pub use Hex.{hex-hex_encode, hex_encode-Lacks}
use flamedb.Base.{ℕ, Bool, Option, none, some, [], ◌∷◌, if◌then◌else◌, drop}
use flamedb.Base.Bytes.{Bytes, has_prefix, contains_any}

abbrev pub colon : ℕ
colon = b':'

-- "\x1f", the marker of an escaped component
abbrev pub marker : ℕ
marker = 0x1f

unfoldable pub component : Bytes → Bytes
unfolding contains_any
component name = if contains_any name (colon ∷ marker ∷ []) then marker ∷ hex_encode name else name

abbrev decoded_or : Bytes → Option Bytes → Bytes
decoded_or name none = name
decoded_or name (some decoded) = decoded

unfoldable pub decode_component : Bytes → Bytes
unfolding has_prefix hex_decode
decode_component name =
    if has_prefix name (marker ∷ []) then decoded_or name (hex_decode (drop 1 name)) else name
