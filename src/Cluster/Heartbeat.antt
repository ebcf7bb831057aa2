-- ===== src/Cluster/Heartbeat.antt =====
-- The heartbeat of internal/cluster/discovery.go: a node that does not answer three times in a row
-- leaves the ring.
use flamedb.Base.{
  ℕ, ◌+◌, ◌≡◌, refl, Bool, true, false, Option, none, some, List, [], ◌∷◌, if◌then◌else◌, leb,
  arith, Bool-cases, inl, inr, ◌∙◌, ap, subst, sym,
}
use flamedb.Base.Bytes.{Bytes, bytes_eq, bytes_eq_refl, bytes_eq_sound}
use flamedb.Base.Map.{Map, get, set, delete, get-set, get-delete}
use flamedb.Cluster.Ring.{Node, Ring, remove}
use flamedb.Cluster.Route.{all_nodes, others}

-- The part of Cluster that the heartbeat changes.
pub record Watch : Type 0 where
  pub ring : Ring
  pub failures : Map ℕ

abbrev pub count_of : Option ℕ → ℕ
count_of none = 0
count_of (some n) = n

abbrev pub failures_of : Watch → Bytes → ℕ
failures_of w id = count_of (get w.failures id)

-- clearFailure
abbrev pub clear_failure : Watch → Bytes → Watch
clear_failure w id = record w { failures = delete w.failures id }

module _ (hash : Bytes → ℕ) where
  -- recordFailure
  unfoldable pub record_failure : Watch → Bytes → Watch
  unfolding remove
  record_failure w id =
      let count = failures_of w id + 1 in
      if leb 3 count
      then record { ring = remove hash w.ring id; failures = delete w.failures id }
      else record w { failures = set w.failures id count }

  -- One ping, with whether the node answered.
  abbrev pub ping : Watch → Bytes × Bool → Watch
  ping w (id, answered) = if answered then clear_failure w id else record_failure w id

  unfoldable pub pings : Watch → List (Bytes × Bool) → Watch
  unfolding record_failure
  pings w [] = w
  pings w (p ∷ more) = pings (ping w p) more

  abbrev results : (Node → Bool) → List Node → List (Bytes × Bool)
  results answers [] = []
  results answers (n ∷ nodes) = (n.id, answers n) ∷ results answers nodes

  -- pingAll: the other nodes that were on the ring at its start.
  unfoldable pub ping_all : Bytes → (Node → Bool) → Watch → Watch
  unfolding pings others all_nodes
  ping_all self answers w = pings w (results answers (others self (all_nodes w.ring.nodes)))

-- How many pings of a node failed in a row; the third in a row starts anew.
unfoldable pub streak : Bytes → ℕ → List (Bytes × Bool) → ℕ
streak id n [] = n
streak id n ((other, answered) ∷ more) =
    streak id
      (if bytes_eq other id
        then (if answered then 0 else if leb 3 (n + 1) then 0 else n + 1)
        else n)
      more

two_before : (m n : ℕ) → n ≡ m → leb 3 (n + 1) ≡ true → leb 2 m ≡ true
two_before m n e h = ground arith

not_two_before : (m n : ℕ) → n ≡ m → leb 3 (n + 1) ≡ false → leb 2 m ≡ false
not_two_before m n e h = ground arith

module _ (hash : Bytes → ℕ) where
  other_failure :
      (w : Watch) (other id : Bytes)
      → bytes_eq other id ≡ false
      → failures_of (record_failure hash w other) id ≡ failures_of w id
  unfolding record_failure
  other_failure w other id apart = elim (Bool-cases (leb 3 (failures_of w other + 1))) [
    | inl third ↦ rw (third, get-delete w.failures other id, apart) refl
    | inr early ↦ rw (early, get-set w.failures other id (failures_of w other + 1), apart) refl
  ]

  own_failure :
      (w : Watch) (id : Bytes)
      → failures_of (record_failure hash w id) id
        ≡ (if leb 3 (failures_of w id + 1) then 0 else failures_of w id + 1)
  unfolding record_failure
  own_failure w id = elim (Bool-cases (leb 3 (failures_of w id + 1))) [
    | inl third ↦ rw (third, get-delete w.failures id id, bytes_eq_refl id) refl
    | inr early ↦ rw (early, get-set w.failures id id (failures_of w id + 1), bytes_eq_refl id) refl
  ]

  ping-failures :
      (w : Watch) (other id : Bytes) (answered : Bool)
      → failures_of (ping hash w (other, answered)) id ≡ (
          if bytes_eq other id
          then (if answered
              then 0
              else if leb 3 (failures_of w id + 1)
              then 0
              else failures_of w id + 1)
          else failures_of w id)
  ping-failures w other id true = rw (get-delete w.failures other id) (ground arith)
  ping-failures w other id false = elim (Bool-cases (bytes_eq other id)) [
    | inl same ↦ rw same (
        subst
          (λ x.
            failures_of (record_failure hash w x) id
            ≡ (if leb 3 (failures_of w id + 1) then 0 else failures_of w id + 1))
          (sym (bytes_eq_sound other id same)) (own_failure w id))
    | inr apart ↦ rw apart (other_failure w other id apart)
  ]

  pings-streak :
      (events : List (Bytes × Bool)) (w : Watch) (id : Bytes)
      → failures_of (pings hash w events) id ≡ streak id (failures_of w id) events
  unfolding pings streak
  pings-streak [] w id = refl
  pings-streak ((other, answered) ∷ events) w id =
      pings-streak events (ping hash w (other, answered)) id
      ∙ ap (λ n. streak id n events) (ping-failures w other id answered)

  -- After any pings of any nodes, one more that a node does not answer removes it from the ring if it
  -- did not answer the last two pings of its own either, and otherwise leaves the ring as it is.
  pub record_failure_lem :
      (events : List (Bytes × Bool)) (ring : Ring) (id : Bytes)
      → (record_failure hash (pings hash (record { ring = ring; failures = [] }) events) id).ring
        ≡ (if leb 2 (streak id 0 events)
            then remove hash (pings hash (record { ring = ring; failures = [] }) events).ring id
            else (pings hash (record { ring = ring; failures = [] }) events).ring)
  unfolding record_failure
  record_failure_lem events ring id =
      let w = pings hash (record { ring = ring; failures = [] }) events in
      let n : failures_of w id ≡ streak id 0 events =
        unfold get in pings-streak events (record { ring = ring; failures = [] }) id in
      elim (Bool-cases (leb 3 (failures_of w id + 1))) [
        | inl third ↦ rw (third, two_before (streak id 0 events) (failures_of w id) n third) refl
        | inr early ↦
            rw (early, not_two_before (streak id 0 events) (failures_of w id) n early) refl
      ]
