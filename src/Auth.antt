-- ===== src/Auth.antt =====
-- internal/auth/auth.go, and the checks of Load in internal/config/config.go that it relies on.
pub mod Access
use flamedb.Base.{
  ℕ, Bool, true, false, ◌&&◌, ◌||◌, not, Option, none, some, List, [], ◌∷◌, if◌then◌else◌,
}
use flamedb.Base.Bytes.{Bytes, codes, bytes_eq, contains_any}
use flamedb.Base.Map.{Map, get, set}

pub record ApiKey : Type 0 where
  pub name : Bytes
  pub key : Bytes
  pub permissions : List Bytes

pub record AuthConfig : Type 0 where
  pub enabled : Option Bool
  pub environment_internal_key : Bytes
  pub internal_key : Bytes
  pub keys : List ApiKey

abbrev pub is_text : Bytes → Bool
is_text [] = false
is_text (c ∷ s) = true

unfoldable pub is_enabled : AuthConfig → Bool
is_enabled cfg = elim cfg.enabled [ none ↦ true | some b ↦ b ]

unfoldable pub effective_internal_key : AuthConfig → Bytes
effective_internal_key cfg =
    if is_text cfg.environment_internal_key then cfg.environment_internal_key else cfg.internal_key

-- A missing key of a map[…]bool reads as false.
abbrev pub flag : Option Bool → Bool
flag none = false
flag (some b) = b

-- strings.TrimSpace is the parameter.
module _ (trim_space : Bytes → Bytes) where
  abbrev pub bad_key : Bytes → Map Bool → ApiKey → Bool
  bad_key internal seen k =
      not (is_text (trim_space k.key))
      || contains_any k.key (0x0d ∷ 0x0a ∷ [])
      || flag (get seen k.key)
      || bytes_eq k.key internal

  unfoldable pub any_bad_key : Bytes → Map Bool → List ApiKey → Bool
  any_bad_key internal seen [] = false
  any_bad_key internal seen (k ∷ ks) =
      let rest = any_bad_key internal (set seen k.key true) ks in
      if bad_key internal seen k then true else rest

  abbrev no_keys : List ApiKey → Bool
  no_keys [] = true
  no_keys (k ∷ ks) = false

  -- The three checks of Load on the auth section; the message, where one fails.
  unfoldable pub auth_error : AuthConfig → Option Bytes
  unfolding any_bad_key is_enabled effective_internal_key
  auth_error cfg =
      let internal = effective_internal_key cfg in
      if is_enabled cfg && no_keys cfg.keys && not (is_text internal)
      then some (codes "at least one auth key is required")
      else if any_bad_key internal [] cfg.keys
      then some (codes "empty, duplicate or conflicting auth key")
      else if contains_any internal (0x0d ∷ 0x0a ∷ [])
      then some (codes "invalid internal key")
      else none

abbrev pub perm_internal : Bytes
perm_internal = codes "internal"

abbrev pub perm_read : Bytes
perm_read = codes "read"

abbrev pub perm_write : Bytes
perm_write = codes "write"

pub record Session : Type 0 where
  pub name : Bytes
  pub permissions : Map Bool

pub record Auth : Type 0 where
  pub disabled : Bool
  pub keys : Map Session

unfoldable pub grant : Map Bool → List Bytes → Map Bool
grant perms [] = perms
grant perms (p ∷ ps) = grant (set perms p true) ps

unfoldable pub session_of : ApiKey → Session
unfolding grant
session_of k = record { name = k.name; permissions = grant [] k.permissions }

unfoldable pub load : Map Session → List ApiKey → Map Session
unfolding session_of
load sessions [] = sessions
load sessions (k ∷ ks) = load (set sessions k.key (session_of k)) ks

abbrev pub cluster_session : Session
cluster_session = record {
  name = codes "cluster";
  permissions = (perm_read, true) ∷ (perm_write, true) ∷ (perm_internal, true) ∷ [];
}

abbrev pub anonymous : Session
anonymous = record {
  name = codes "anonymous";
  permissions = (perm_read, true) ∷ (perm_write, true) ∷ [];
}

unfoldable pub new : AuthConfig → Auth
unfolding is_enabled effective_internal_key load
new cfg =
    let internal = effective_internal_key cfg in
    let sessions = load [] cfg.keys in
    record {
      disabled = not (is_enabled cfg);
      keys = if is_text internal then set sessions internal cluster_session else sessions;
    }

unfoldable pub validate : Auth → Bytes → Option Session
validate a key = if a.disabled then some anonymous else get a.keys key

unfoldable pub can : Session → Bytes → Bool
can s p = flag (get s.permissions p)
