-- ===== src/Examples/AuthRuns.antt =====
-- The theorems on keys at a configuration with one read-only key and an internal key.
use flamedb.Auth.{
  ApiKey, AuthConfig, is_enabled, effective_internal_key, auth_error, any_bad_key, new, validate,
  is_text,
}
use flamedb.Auth.Access.{validate_unknown}
use flamedb.Base.{inr, ◌≡◌, ◌≢◌, refl, true, false, none, [], ◌∷◌}
use flamedb.Base.Bytes.{codes, bytes_eq, contains_any, contains_byte}
use flamedb.Base.Map.{get}

abbrev reader : ApiKey
reader = record { name = codes "dash"; key = codes "r-1"; permissions = codes "read" ∷ [] }

abbrev config : AuthConfig
config = record {
  enabled = none;
  environment_internal_key = [];
  internal_key = codes "secret";
  keys = reader ∷ [];
}

config_checked : auth_error (λ s. s) config ≡ none
unfolding auth_error any_bad_key is_enabled effective_internal_key bytes_eq contains_any
    contains_byte get
config_checked = refl

config_enabled : is_enabled config ≡ true
unfolding is_enabled
config_enabled = refl

other_key : bytes_eq (codes "r-1") (codes "guess") ≡ false
unfolding bytes_eq
other_key = refl

other_than_internal : codes "guess" ≢ effective_internal_key config
unfolding effective_internal_key
other_than_internal = λ e. cc

validate_unknown_example : validate (new config) (codes "guess") ≡ none
validate_unknown_example =
    validate_unknown config (codes "guess") config_enabled (other_key, tt) (inr other_than_internal)

internal_named : is_text (effective_internal_key config) ≡ true
unfolding effective_internal_key
internal_named = refl
