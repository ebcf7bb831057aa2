-- ===== src/Server/Connection.antt =====
-- A connection of handleConn from its first line on: the handshake, then the commands. Deadlines and
-- failures of the network end the lines.
use flamedb.Auth.{Session, validate}
use flamedb.Base.{
  leb, ◌≤◌, ℕ, zero, suc, length, take, Bool, true, Option, none, some, List, [], ◌∷◌,
  if◌then◌else◌, drop, ◌≡◌, refl, Bool-cases, inl, inr, arith, false,
}
use flamedb.Base.Bytes.{Bytes, codes, has_prefix}
use flamedb.Query.Types.{Std}
use flamedb.Server.Batch.{buffer_limit, Received, complete, exceeded, incomplete, receive}
use flamedb.Server.Dispatch.{answer}
use flamedb.Server.Permissions.{is_permitted}
use flamedb.Server.Sessions.{IsKept, answer-permitted}
use flamedb.Server.Types.{Server, DiscoveryMessage, Action, hung_up, write_batch, Fetch}

-- What a connection does: the handshake's answers, and actions, each with the server after it, a batch
-- with its lines.
pub data Step (R : Type 0) : Type 0 where
  unauthenticated : Step R
  invalid_key : Step R
  authenticated : Bytes → Step R
  acted : Server → Action R → Step R
  batched : Server → Bytes → Bool → List Bytes → Step R
  batch_refused : Server → Bytes → Bool → Step R

module _ (std : Std) (hash : Bytes → ℕ) (read_message : Bytes → Option DiscoveryMessage)
    {R : Type 0} (fetch : Fetch R) (fresh : ℕ → Bytes) (buffered : ℕ → ℕ) where
  abbrev pub after_batch :
      (Server → List Bytes → List (Step R)) → ℕ → Server → Bytes → Bool → Received → List (Step R)
  after_batch more fuel s header internal (complete lines rest) =
      batched s header internal lines ∷ more s rest
  after_batch more fuel s header internal (exceeded rest) =
      batch_refused s header internal ∷ more s (take (buffered fuel) rest)
  after_batch more fuel s header internal incomplete = batch_refused s header internal ∷ []

  abbrev pub after_action :
      (Server → List Bytes → List (Step R)) → ℕ → List Bytes → Server × Action R → List (Step R)
  after_action more fuel texts (s, hung_up e) = acted s (hung_up e) ∷ []
  after_action more fuel texts (s, write_batch header internal) =
      after_batch more fuel s header internal (receive std s.batch_limit s.request_limit [] 0 texts)
  after_action more fuel texts (s, other) = acted s other ∷ more s texts

  -- The lines after the handshake, with as much fuel as there are lines. A line that does not fit the
  -- scanner's buffer ends them. A batch takes the lines up to its end. Where a batch exceeds a limit
  -- the connection is closed, but the lines that the scanner holds in its buffer, the first `buffered`
  -- of the rest, are still read as commands.
  unfoldable pub commands : Session → ℕ → Server → List Bytes → List (Step R)
  unfolding answer receive
  commands session zero s texts = []
  commands session (suc fuel) s [] = []
  commands session (suc fuel) s (text ∷ texts) =
      let more = commands session fuel in
      if leb (buffer_limit s.request_limit) (length text)
      then []
      else after_action more fuel texts
          (answer std hash read_message fetch s session (std.trim_space text) (fresh fuel))

  abbrev pub on_key : Server → List Bytes → Option Session → List (Step R)
  on_key s texts none = invalid_key ∷ []
  on_key s texts (some session) =
      authenticated session.name ∷ commands session (length texts) s texts

  -- The handshake, and what follows it. A line that does not fit the reader's buffer of 4096 bytes ends
  -- the connection.
  unfoldable pub connection : Server → List Bytes → List (Step R)
  unfolding commands validate
  connection s [] = []
  connection s (text ∷ texts) =
      let line = std.trim_space text in
      let rest = connection s texts in
      if leb 4096 (length text)
      then []
      else if has_prefix (std.to_upper line) (codes "AUTH ")
      then on_key s texts (validate s.auth (std.trim_space (drop 5 line)))
      else unauthenticated ∷ rest

  -- Every step, and the change of the server with it, is within the permissions of the session.
  abbrev pub AllPermitted : Session → Server → List (Step R) → Type 0
  AllPermitted session s [] = Unit
  AllPermitted session s (acted s' a ∷ steps) =
      (is_permitted session a ≡ true)
      × IsKept hash session s (s', a)
      × AllPermitted session s' steps
  AllPermitted session s (batched s' header internal lines ∷ steps) =
      (is_permitted {R = R} session (write_batch header internal) ≡ true)
      × IsKept {R = R} hash session s (s', write_batch header internal)
      × AllPermitted session s' steps
  AllPermitted session s (batch_refused s' header internal ∷ steps) =
      (is_permitted {R = R} session (write_batch header internal) ≡ true)
      × IsKept {R = R} hash session s (s', write_batch header internal)
      × AllPermitted session s' steps
  AllPermitted session s (unauthenticated ∷ steps) = ⊥
  AllPermitted session s (invalid_key ∷ steps) = ⊥
  AllPermitted session s (authenticated name ∷ steps) = ⊥

  -- The line is AUTH, in whatever case, with this key.
  abbrev pub IsAuth : Bytes → Bytes → Type 0
  IsAuth text key =
      (has_prefix (std.to_upper (std.trim_space text)) (codes "AUTH ") ≡ true)
      × (key ≡ std.trim_space (drop 5 (std.trim_space text)))

  -- The steps of the lines: nothing is done before an AUTH line had a key that is accepted, and nothing
  -- after one had a key that is not; what is done after a key was accepted is within its session's
  -- permissions. A connection without a key ends with its lines or at a line that is too long.
  abbrev pub IsGuarded : Server → List Bytes → List (Step R) → Type 0
  IsGuarded s [] [] = Unit
  IsGuarded s (text ∷ texts) [] = 4096 ≤ length text
  IsGuarded s [] (step ∷ steps) = ⊥
  IsGuarded s (text ∷ texts) (unauthenticated ∷ steps) =
      (has_prefix (std.to_upper (std.trim_space text)) (codes "AUTH ") ≡ false)
      × IsGuarded s texts steps
  IsGuarded s (text ∷ texts) (invalid_key ∷ steps) =
      (key : Bytes) × IsAuth text key × (validate s.auth key ≡ none) × (steps ≡ [])
  IsGuarded s (text ∷ texts) (authenticated name ∷ steps) =
      (key : Bytes) × (session : Session) × IsAuth text key
      × (validate s.auth key ≡ some session)
      × (session.name ≡ name)
      × AllPermitted session s steps
  IsGuarded s (text ∷ texts) (acted s' a ∷ steps) = ⊥
  IsGuarded s (text ∷ texts) (batched s' header internal lines ∷ steps) = ⊥
  IsGuarded s (text ∷ texts) (batch_refused s' header internal ∷ steps) = ⊥

  after_batch-AllPermitted :
      (session : Session) (more : Server → List Bytes → List (Step R)) (fuel : ℕ) (s t : Server)
      (header : Bytes) (internal : Bool) (r : Received)
      → ((u : Server) (texts : List Bytes) → AllPermitted session u (more u texts))
      → is_permitted {R = R} session (write_batch header internal) ≡ true
      → IsKept {R = R} hash session s (t, write_batch header internal)
      → AllPermitted session s (after_batch more fuel t header internal r)
  after_batch-AllPermitted session more fuel s t header internal (complete lines rest) h p k =
      (p, k, h t rest)
  after_batch-AllPermitted session more fuel s t header internal (exceeded rest) h p k =
      (p, k, h t (take (buffered fuel) rest))
  after_batch-AllPermitted session more fuel s t header internal incomplete h p k = (p, k, tt)

  after_action-AllPermitted :
      (session : Session) (more : Server → List Bytes → List (Step R)) (fuel : ℕ)
      (texts : List Bytes) (s : Server) (r : Server × Action R)
      → ((u : Server) (rest : List Bytes) → AllPermitted session u (more u rest))
      → (is_permitted session r.1 ≡ true) × IsKept hash session s r
      → AllPermitted session s (after_action more fuel texts r)
  after_action-AllPermitted session more fuel texts s (t, hung_up e) h (p, k) = (p, k, tt)
  after_action-AllPermitted session more fuel texts s (t, write_batch header internal) h (p, k) =
      after_batch-AllPermitted session more fuel s t header internal
        (receive std t.batch_limit t.request_limit [] 0 texts) h p k
  after_action-AllPermitted session more fuel texts s (t, other) h (p, k) = (p, k, h t texts)

  commands-AllPermitted :
      (session : Session) (fuel : ℕ) (s : Server) (texts : List Bytes)
      → AllPermitted session s (commands session fuel s texts)
  unfolding commands
  commands-AllPermitted session zero s texts = tt
  commands-AllPermitted session (suc fuel) s [] = tt
  commands-AllPermitted session (suc fuel) s (text ∷ texts) =
      elim (Bool-cases (leb (buffer_limit s.request_limit) (length text))) [
        | inl long ↦ rw long tt
        | inr short ↦ rw short (
            after_action-AllPermitted session (commands session fuel) fuel texts s
              (answer std hash read_message fetch s session (std.trim_space text) (fresh fuel))
              (commands-AllPermitted session fuel)
              (answer-permitted hash std read_message fetch session s (std.trim_space text)
                (fresh fuel)))
      ]

  on_key-IsGuarded :
      (s : Server) (text : Bytes) (texts : List Bytes) (key : Bytes) (o : Option Session)
      → IsAuth text key
      → validate s.auth key ≡ o
      → IsGuarded s (text ∷ texts) (on_key s texts o)
  on_key-IsGuarded s text texts key none auth e = (key, auth, e, refl)
  on_key-IsGuarded s text texts key (some session) auth e =
      (key, session, auth, e, refl, commands-AllPermitted session (length texts) s texts)

  -- A connection does nothing before an AUTH line had a key that is accepted, and nothing after one
  -- had a key that is not. What it does after a key was accepted, and what this changes in the
  -- server, is within the permissions of the session that this key opens. Without a key it ends
  -- with its lines or at one of 4096 bytes or more.
  pub connection-IsGuarded :
      (s : Server) (texts : List Bytes) → IsGuarded s texts (connection s texts)
  unfolding connection
  connection-IsGuarded s [] = tt
  connection-IsGuarded s (text ∷ texts) =
      let line = std.trim_space text in
      elim (Bool-cases (leb 4096 (length text))) [
        | inl long ↦ rw long (ground (arith, long))
        | inr short ↦ elim (Bool-cases (has_prefix (std.to_upper line) (codes "AUTH "))) [
          | inl keyed ↦
              rw (short, keyed)
                (on_key-IsGuarded s text texts (std.trim_space (drop 5 line))
                  (validate s.auth (std.trim_space (drop 5 line))) (keyed, refl) refl)
          | inr other ↦ rw (short, other) (other, connection-IsGuarded s texts)
        ]
      ]
