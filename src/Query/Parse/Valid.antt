-- ===== src/Query/Parse/Valid.antt =====
-- What Parse of internal/query/parser.go gives out.
use flamedb.Base.{◌≡◌, refl, Option, none, some, subst}
use flamedb.Base.Bytes.{Bytes}
use flamedb.Query.Parse.{validated, parse_at, parse, parse_body}
use flamedb.Query.Types.{Query, Result, ok, err, ok_inj, Std}
use flamedb.Query.Validate.{validate_query}
use flamedb.Query.Validate.Valid.{IsValid, validate_query-IsValid}

validated-IsValid : (r : Result Query) (q : Query) → validated r ≡ ok q → IsValid q
validated-IsValid (err e) q h = absurd (cc)
validated-IsValid (ok p) q h = go (validate_query p) refl h
  where
    go : (v : Option Bytes) → validate_query p ≡ v → validated (ok p) ≡ ok q → IsValid q
    go none eq h =
        subst (λ r. IsValid r) (ok_inj (rw (validated, eq) at h)) (validate_query-IsValid p eq)
    go (some e) eq h = absurd (cc (rw (validated, eq) at h))

-- Every query that Parse returns has a limit, an offset and times in range, an end of the range
-- that is open or not before its start, a known order and a finite value. Unless it is METRICS, its
-- metrics are named, hold no delimiter and are not reserved. The keys of its tags and conditions
-- are named and plain, its boards and their entities are named, and its entity tag and board are
-- plain; with a board it has no range. A dry run is neither a replica's nor a quorum's, lb has an
-- entity, SET scores a board, and DELETE has no tags.
pub parse-IsValid : (std : Std) (input : Bytes) (q : Query) → parse std input ≡ ok q → IsValid q
unfolding parse parse_at
parse-IsValid std input q h = validated-IsValid (parse_body std (parse_at std 1) input) q h
