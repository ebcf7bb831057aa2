-- ===== src/Query/Clock.antt =====
-- nextTimestamp of internal/query/executor.go: the clock of the writes that bring no timestamp. A
-- successful compare-and-swap is one step, and a failed one changes nothing and tries again.
use flamedb.Base.{ℕ, suc, ◌<◌, List, [], ◌∷◌, leb, if◌then◌else◌, arith}

-- The stamp that is handed out, and the clock's new value; `now` is time.Now().UnixNano().
unfoldable pub next_timestamp : ℕ → ℕ → ℕ
next_timestamp previous now = if leb now previous then suc previous else now

-- The stamps handed out one after the other, while the wall clock shows `nows`.
unfoldable pub stamps : ℕ → List ℕ → List ℕ
unfolding next_timestamp
stamps previous [] = []
stamps previous (now ∷ nows) =
    next_timestamp previous now ∷ stamps (next_timestamp previous now) nows

abbrev pub Climbs : ℕ → List ℕ → Type 0
Climbs low [] = Unit
Climbs low (t ∷ ts) = (low < t) × Climbs t ts

-- Every stamp of nextTimestamp is later than the one before, also where the wall clock stands still
-- or goes back.
pub stamps-Climbs : (previous : ℕ) (nows : List ℕ) → Climbs previous (stamps previous nows)
unfolding stamps
stamps-Climbs previous [] = tt
stamps-Climbs previous (now ∷ nows) =
    (ground arith, stamps-Climbs (next_timestamp previous now) nows)
