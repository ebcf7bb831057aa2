-- ===== src/Server/Admission.antt =====
-- The bounds of a server on connections and on requests to shared storage: Serve of
-- internal/server/server.go, startShared and executeShared of shared.go, and the closing.
use flamedb.Base.{
  ℕ, ◌+◌, ◌-◌, ◌≤◌, ◌<◌, ◌≡◌, Bool, true, false, ◌||◌, if◌then◌else◌, leb, arith, none, some,
  Option,
}
use flamedb.Base.Bytes.{codes}
use flamedb.Base.Int.{ℤ, pos, negsuc}
use flamedb.Config.Types.{Config}
use flamedb.Query.Types.{Result, ok, err}

pub record Limits : Type 0 where
  pub connections : ℕ
  pub requests : ℕ

abbrev or_default : ℤ → ℕ → ℕ
or_default (pos n) default = if leb 1 n then n else default
or_default (negsuc n) default = default

-- connectionLimit, and the slots that NewShared makes.
unfoldable pub limits_of : Option Config → Limits
limits_of none = record { connections = 1024; requests = 1024 }
limits_of (some cfg) = record {
  connections = or_default cfg.server.max_connections 1024;
  requests = or_default cfg.performance.max_inflight_requests 1024;
}

-- The part of Server that admits; the counters are those of MetricsSnapshot.
pub record Load : Type 0 where
  pub closed : Bool
  pub connections : ℕ
  pub inflight : ℕ
  pub completed : ℕ
  pub failed : ℕ
  pub busy : ℕ

abbrev pub idle : Load
idle = record { closed = false; connections = 0; inflight = 0; completed = 0; failed = 0; busy = 0 }

-- Serve's loop at a new connection: it is kept or closed at once.
unfoldable pub accept : Limits → Load → Load × Bool
accept l s =
    if s.closed || leb l.connections s.connections
    then (s, false)
    else (record s { connections = s.connections + 1 }, true)

-- startShared
unfoldable pub start_shared : Limits → Load → Load × Result (Unit {0})
start_shared l s =
    if s.closed
    then (s, err (codes "server shutting down"))
    else if leb l.requests s.inflight
    then (record s { busy = s.busy + 1 }, err (codes "server busy"))
    else (record s { inflight = s.inflight + 1 }, ok tt)

-- The end of executeShared, with the release of the slot.
unfoldable pub finish : Bool → Load → Load
finish failing s = record s {
  inflight = s.inflight - 1;
  completed = s.completed + 1;
  failed = if failing then s.failed + 1 else s.failed;
}

-- What connections and requests do, in any order.
pub data Move (l : Limits) : Load → Load → Type 0 where
  arrive : (s : Load) → Move l s (accept l s).0
  leave : (s : Load) → 0 < s.connections → Move l s (record s { connections = s.connections - 1 })
  begin : (s : Load) → Move l s (start_shared l s).0
  end : (s : Load) (failing : Bool) → 0 < s.inflight → Move l s (finish failing s)
  close : (s : Load) → Move l s (record s { closed = true })

pub data Moves (l : Limits) (s : Load) : Load → Type 0 where
  none_yet : Moves l s s
  then_one : {t u : Load} → Moves l s t → Move l t u → Moves l s u

-- The bounds are kept, no more requests fail than are completed, and a closed server takes nothing new.
pub record IsBounded (l : Limits) (s : Load) : Type 0 where
  pub connection_bound : s.connections ≤ l.connections
  pub request_bound : s.inflight ≤ l.requests
  pub failure_bound : s.failed ≤ s.completed

Move-IsBounded : (l : Limits) {s t : Load} → Move l s t → IsBounded l s → IsBounded l t
unfolding accept start_shared finish
Move-IsBounded l (arrive s) b = ground arith
Move-IsBounded l (leave s h) b = ground arith
Move-IsBounded l (begin s) b = ground arith
Move-IsBounded l (end s failing h) b = ground arith
Move-IsBounded l (close s) b = ground arith

-- Whatever connections and requests do, in whatever order, there are never more connections than
-- the limit and never more requests in flight than slots, and no more requests failed than
-- completed.
pub Moves-IsBounded : (l : Limits) {s : Load} → Moves l idle s → IsBounded l s
Moves-IsBounded l none_yet = omega arith
Moves-IsBounded l (then_one m one) = Move-IsBounded l one (Moves-IsBounded l m)

-- What a closed server still has.
pub record IsDraining (s t : Load) : Type 0 where
  pub still_closed : t.closed ≡ true
  pub fewer_connections : t.connections ≤ s.connections
  pub fewer_requests : t.inflight ≤ s.inflight

Move-IsDraining : (l : Limits) {s t : Load} → Move l s t → s.closed ≡ true → IsDraining s t
unfolding accept start_shared finish
Move-IsDraining l (arrive s) c = ground (arith, c)
Move-IsDraining l (leave s h) c = ground (arith, c)
Move-IsDraining l (begin s) c = ground (arith, c)
Move-IsDraining l (end s failing h) c = ground (arith, c)
Move-IsDraining l (close s) c = ground (arith, c)

-- A closed server stays closed, and neither its connections nor its requests in flight grow.
pub Moves-IsDraining : (l : Limits) {s t : Load} → s.closed ≡ true → Moves l s t → IsDraining s t
Moves-IsDraining l c none_yet = record {
  still_closed = c;
  fewer_connections = omega arith;
  fewer_requests = omega arith;
}
Moves-IsDraining l c (then_one m one) =
    let before = Moves-IsDraining l c m in
    let after = Move-IsDraining l one before.still_closed in
    record {
      still_closed = after.still_closed;
      fewer_connections = omega (arith, before.fewer_connections, after.fewer_connections);
      fewer_requests = omega (arith, before.fewer_requests, after.fewer_requests);
    }
