-- ===== src/Auth/Access.antt =====
-- Which key opens which session, and what a session may do.
use flamedb.Auth.{
  ApiKey, AuthConfig, is_enabled, effective_internal_key, flag, any_bad_key, auth_error, Session,
  session_of, load, cluster_session, new, validate, can, grant, is_text,
}
use flamedb.Base.{
  ◌⊎◌, ◌≡◌, ◌≢◌, refl, ◌∙◌, Bool, true, false, ◌||◌, Option, none, some, List, [], ◌∷◌, arith,
  Bool-cases, inl, inr, subst, if◌then◌else◌, All, In, ap, sym,
}
use flamedb.Base.Bytes.{bytes_eq_sym, Bytes, bytes_eq, bytes_eq_sound, bytes_eq_refl, bytes_eq_ne}
use flamedb.Base.Map.{Map, get, set, get-set}

abbrev Unkeyed : Bytes → List ApiKey → Type 0
Unkeyed x = All (λ k. bytes_eq k.key x ≡ false)

get-set_other :
    {V : Type 0} (m : Map V) (k x : Bytes) (v : V)
    → bytes_eq k x ≡ false
    → get (set m k v) x ≡ get m x
get-set_other m k x v h = get-set m k x v ∙ ap (λ b. if b then some v else get m x) h

get-set_same : {V : Type 0} (m : Map V) (k : Bytes) (v : V) → get (set m k v) k ≡ some v
get-set_same m k v = get-set m k k v ∙ ap (λ b. if b then some v else get m k) (bytes_eq_refl k)

get-load_other :
    (ks : List ApiKey) (m : Map Session) (x : Bytes) → Unkeyed x ks → get (load m ks) x ≡ get m x
unfolding load
get-load_other [] m x h = refl
get-load_other (k ∷ ks) m x (other, h) =
    get-load_other ks (set m k.key (session_of k)) x h
    ∙ get-set_other m k.key x (session_of k) other

abbrev with_internal : Map Session → Bytes → Map Session
with_internal sessions internal =
    if is_text internal then set sessions internal cluster_session else sessions

with_internal-get :
    (sessions : Map Session) (internal x : Bytes)
    → bytes_eq internal x ≡ false
    → get (with_internal sessions internal) x ≡ get sessions x
with_internal-get sessions internal x h = elim (Bool-cases (is_text internal)) [
  | inl named ↦ rw named (get-set_other sessions internal x cluster_session h)
  | inr empty ↦ rw empty refl
]

validate_enabled :
    (cfg : AuthConfig) (x : Bytes)
    → is_enabled cfg ≡ true
    → validate (new cfg) x ≡ get (with_internal (load [] cfg.keys) (effective_internal_key cfg)) x
unfolding validate new effective_internal_key
validate_enabled cfg x on = rw on refl

nothing : (x : Bytes) → get {V = Session} [] x ≡ none
unfolding get
nothing x = refl

module _ (trim_space : Bytes → Bytes) where
  -- What the checks leave.
  unseen :
      (internal : Bytes) (k : ApiKey) (ks : List ApiKey) (seen : Map Bool)
      → any_bad_key trim_space internal seen (k ∷ ks) ≡ false
      → (flag (get seen k.key) ≡ false)
        × (bytes_eq k.key internal ≡ false)
        × (any_bad_key trim_space internal (set seen k.key true) ks ≡ false)
  unfolding any_bad_key
  unseen internal k ks seen h = ground (arith, h)

  seen_once :
      (internal : Bytes) (ks : List ApiKey) (seen : Map Bool) (x : Bytes)
      → any_bad_key trim_space internal seen ks ≡ false
      → get seen x ≡ some true
      → Unkeyed x ks
  seen_once internal [] seen x h s = tt
  seen_once internal (k ∷ ks) seen x h s = elim (Bool-cases (bytes_eq k.key x)) [
    | inl same ↦
        let (new, _, _) = unseen internal k ks seen h in
        absurd (cc (ap (λ y. flag (get seen y)) (bytes_eq_sound k.key x same), ap flag s))
    | inr other ↦
        let (_, _, rest) = unseen internal k ks seen h in
        (
          other,
          seen_once internal ks (set seen k.key true) x rest
              (get-set_other seen k.key x true other ∙ s),
        )
  ]

  not_internal :
      (internal : Bytes) (ks : List ApiKey) (seen : Map Bool) (k : ApiKey)
      → any_bad_key trim_space internal seen ks ≡ false
      → In k ks
      → bytes_eq k.key internal ≡ false
  not_internal internal [] seen k h i = absurd i
  not_internal internal (j ∷ ks) seen k h (inl e) =
      ap (λ i. bytes_eq i.key internal) e ∙ (unseen internal j ks seen h).1
  not_internal internal (j ∷ ks) seen k h (inr i) =
      not_internal internal ks (set seen j.key true) k (unseen internal j ks seen h).2 i

  get-load_in :
      (internal : Bytes) (ks : List ApiKey) (seen : Map Bool) (m : Map Session) (k : ApiKey)
      → any_bad_key trim_space internal seen ks ≡ false
      → In k ks
      → get (load m ks) k.key ≡ some (session_of k)
  unfolding load
  get-load_in internal [] seen m k h i = absurd i
  get-load_in internal (j ∷ ks) seen m k h (inl e) =
      let (_, _, rest) = unseen internal j ks seen h in
      let once =
        seen_once internal ks (set seen j.key true) j.key rest (get-set_same seen j.key true) in
      subst (λ i. get (load m (j ∷ ks)) i.key ≡ some (session_of i)) (sym e)
        (get-load_other ks (set m j.key (session_of j)) j.key once
          ∙ get-set_same m j.key (session_of j))
  get-load_in internal (j ∷ ks) seen m k h (inr i) =
      let (_, _, rest) = unseen internal j ks seen h in
      get-load_in internal ks (set seen j.key true) (set m j.key (session_of j)) k rest i

  checked :
      (cfg : AuthConfig)
      → auth_error trim_space cfg ≡ none
      → any_bad_key trim_space (effective_internal_key cfg) [] cfg.keys ≡ false
  unfolding auth_error
  checked cfg h = ground (arith, h)

  -- Where authentication is on and Load accepted the configuration, each configured key opens the
  -- session that the configuration describes.
  pub validate_configured :
      (cfg : AuthConfig) (k : ApiKey)
      → auth_error trim_space cfg ≡ none
      → is_enabled cfg ≡ true
      → In k cfg.keys
      → validate (new cfg) k.key ≡ some (session_of k)
  validate_configured cfg k h on i =
      let fine = checked cfg h in
      let apart =
        bytes_eq_sym k.key (effective_internal_key cfg) (not_internal _ cfg.keys [] k fine i) in
      validate_enabled cfg k.key on
      ∙ with_internal-get (load [] cfg.keys) (effective_internal_key cfg) k.key apart
      ∙ get-load_in _ cfg.keys [] [] k fine i

-- A key that is not the internal key: a different one, or the empty one.
without_internal :
    (sessions : Map Session) (internal x : Bytes)
    → (x ≡ []) ⊎ (x ≢ internal)
    → get (with_internal sessions internal) x ≡ get sessions x
without_internal sessions internal x (inr ne) =
    with_internal-get sessions internal x (bytes_eq_ne internal x (λ e. ne (sym e)))
without_internal sessions [] x (inl e) = refl
without_internal sessions (c ∷ internal) x (inl e) =
    with_internal-get sessions (c ∷ internal) x (bytes_eq_ne (c ∷ internal) x (λ f. cc (e, f)))

-- With authentication on, a key that is not configured and is empty or another than the internal
-- key opens no session.
pub validate_unknown :
    (cfg : AuthConfig) (x : Bytes)
    → is_enabled cfg ≡ true
    → Unkeyed x cfg.keys
    → (x ≡ []) ⊎ (x ≢ effective_internal_key cfg)
    → validate (new cfg) x ≡ none
validate_unknown cfg x on h other =
    validate_enabled cfg x on
    ∙ without_internal (load [] cfg.keys) (effective_internal_key cfg) x other
    ∙ get-load_other cfg.keys [] x h
    ∙ nothing x

abbrev pub listed : List Bytes → Bytes → Bool
listed [] p = false
listed (q ∷ ps) p = bytes_eq q p || listed ps p

granted :
    (b l : Bool) (r : Option Bool) → (l || flag (if b then some true else r)) ≡ ((b || l) || flag r)
granted true true r = refl
granted true false r = refl
granted false l r = refl

can-grant :
    (ps : List Bytes) (perms : Map Bool) (p : Bytes)
    → flag (get (grant perms ps) p) ≡ (listed ps p || flag (get perms p))
unfolding grant
can-grant [] perms p = refl
can-grant (q ∷ ps) perms p =
    can-grant ps (set perms q true) p
    ∙ ap (λ r. listed ps p || flag r) (get-set perms q p true)
    ∙ granted (bytes_eq q p) (listed ps p) (get perms p)

or_none : (b : Bool) → (b || false) ≡ b
or_none true = refl
or_none false = refl

-- A session may do exactly what its key's permissions list.
pub can-session_of : (k : ApiKey) (p : Bytes) → can (session_of k) p ≡ listed k.permissions p
unfolding can session_of get
can-session_of k p = can-grant k.permissions [] p ∙ or_none (listed k.permissions p)

-- With authentication on, a nonempty internal key opens the cluster's session, whatever keys are
-- configured.
pub validate_internal :
    (cfg : AuthConfig)
    → is_enabled cfg ≡ true
    → is_text (effective_internal_key cfg) ≡ true
    → validate (new cfg) (effective_internal_key cfg) ≡ some cluster_session
validate_internal cfg on named =
    validate_enabled cfg (effective_internal_key cfg) on
    ∙ rw named (get-set_same (load [] cfg.keys) (effective_internal_key cfg) cluster_session)
