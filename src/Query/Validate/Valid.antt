-- ===== src/Query/Validate/Valid.antt =====
-- What a validated query satisfies.
use flamedb.Base.{
  ℕ, ◌≤◌, ◌≡◌, ◌≢◌, refl, ◌⊎◌, inl, inr, Bool, true, false, ◌&&◌, ◌||◌, not, Option, none, some,
  List, [], ◌∷◌, arith, Bool-cases, All, if◌then◌else◌, ap, ◌==◌,
}
use flamedb.Base.Bytes.{Bytes, codes, bytes_eq_sound, contains_any}
use flamedb.Base.Int.{ℤ, pos, negsuc, ltb_ℤ}
use flamedb.Query.Types.{Query, QueryType}
use flamedb.Query.Validate.{
  is_zero, validate_query, metric_error, first_bad_metric, not_finite, is_empty, is_type,
  first_error, metric_message, or_else, head_checks, tail_checks,
}
use flamedb.Query.Validate.Names.{
  FreeOf, IsMetricName, IsTagKey, IsBoard, Entity, contains_any-FreeOf, is_empty-named,
  first_bad_metric-names, any_bad_key-keys, any_bad_board-entities,
}

-- The properties that the executor relies on.
pub record IsValid (q : Query) : Type 0 where
  pub limit_range : (n : ℕ) × (q.limit ≡ pos n) × (n ≤ 1000000)
  pub offset_range : (n : ℕ) × (q.offset ≡ pos n)
  pub order_known : (q.order ≡ codes "ASC") ⊎ (q.order ≡ codes "DESC")
  pub value_finite : not_finite q.value ≡ false
  pub from_range : (n : ℕ) × (q.from ≡ pos n)
  pub to_range : (n : ℕ) × (q.to ≡ pos n)
  pub timestamp_range : (n : ℕ) × (q.timestamp ≡ pos n)
  pub times_ordered :
      (q.to ≡ pos 0) ⊎ ((n : ℕ) × (m : ℕ) × (q.from ≡ pos n) × (q.to ≡ pos m) × (n ≤ m))
  pub metrics_named : (q.type ≡ QueryType.metrics) ⊎ All IsMetricName (q.metric ∷ q.metrics)
  pub tag_keys : All (λ t. IsTagKey t.0) q.tags
  pub condition_keys : All (λ t. IsTagKey t.0) q.conditions
  pub entity_tag_plain : FreeOf (0x3d ∷ 0x22 ∷ 0x20 ∷ 0x09 ∷ []) q.entity_tag
  pub entities_named : All Entity q.lb_entities
  pub board_plain : IsBoard q.board
  pub board_timeless : (q.board ≡ []) ⊎ ((q.from ≡ pos 0) × (q.to ≡ pos 0))
  pub lb_named : (q.update_lb ≡ false) ⊎ (q.lb_entity_id ≢ [])
  pub dry_run_local : (q.dry_run ≡ false) ⊎ ((q.is_replica ≡ false) × (q.quorum ≡ false))
  pub set_scored : (q.type ≢ QueryType.set) ⊎ (q.update_lb ≡ true) ⊎ (q.lb_entities ≢ [])
  pub delete_untagged : (q.type ≢ QueryType.delete) ⊎ (q.tags ≡ [])

nonneg : (i : ℤ) → ltb_ℤ i (pos 0) ≡ false → (n : ℕ) × (i ≡ pos n)
nonneg (pos n) h = (n, refl)
nonneg (negsuc n) h = absurd (ground arith)

at_most :
    (i : ℤ) (m : ℕ)
    → ltb_ℤ i (pos 0) ≡ false
    → ltb_ℤ (pos m) i ≡ false
    → (n : ℕ) × (i ≡ pos n) × (n ≤ m)
at_most (pos n) m h k = (n, refl, ground arith)
at_most (negsuc n) m h k = absurd (ground arith)

-- No check of a row that passed held.
every_check :
    (checks : List (Bool × Bytes)) → first_error checks ≡ none → All (λ c. c.0 ≡ false) checks
unfolding first_error
every_check [] h = tt
every_check ((true, message) ∷ checks) h = absurd (cc)
every_check ((false, message) ∷ checks) h = (refl, every_check checks h)

both_none : (a b : Option Bytes) → or_else a b ≡ none → (a ≡ none) × (b ≡ none)
both_none none b h = (refl, h)
both_none (some e) b h = absurd (cc)

no_message : (m : Option Bytes) → metric_message m ≡ none → m ≡ none
no_message none h = refl
no_message (some m) h = absurd (cc)

or_false : (a b : Bool) → (a || b) ≡ false → (a ≡ false) × (b ≡ false)
or_false a b h = ground arith

named_or :
    (t : QueryType) (m : Bytes) (ms : List Bytes)
    → (if is_type t QueryType.metrics then none else first_bad_metric (m ∷ ms)) ≡ none
    → (t ≡ QueryType.metrics) ⊎ All IsMetricName (m ∷ ms)
named_or QueryType.metrics m ms h = inl refl
named_or QueryType.get m ms h = inr (first_bad_metric-names (m ∷ ms) h)
named_or QueryType.leaderboard m ms h = inr (first_bad_metric-names (m ∷ ms) h)
named_or QueryType.write m ms h = inr (first_bad_metric-names (m ∷ ms) h)
named_or QueryType.set m ms h = inr (first_bad_metric-names (m ∷ ms) h)
named_or QueryType.delete m ms h = inr (first_bad_metric-names (m ∷ ms) h)
named_or QueryType.stats m ms h = inr (first_bad_metric-names (m ∷ ms) h)
named_or QueryType.group_leaderboard m ms h = inr (first_bad_metric-names (m ∷ ms) h)
named_or QueryType.rank m ms h = inr (first_bad_metric-names (m ∷ ms) h)
named_or QueryType.score m ms h = inr (first_bad_metric-names (m ∷ ms) h)
named_or QueryType.around m ms h = inr (first_bad_metric-names (m ∷ ms) h)
named_or QueryType.leaderboard_count m ms h = inr (first_bad_metric-names (m ∷ ms) h)

nothing_in : {V : Type 0} (l : List V) → not (is_empty l) ≡ false → l ≡ []
nothing_in [] h = refl
nothing_in (x ∷ l) h = absurd (cc)

is_zero-pos : (i : ℤ) → not (is_zero i) ≡ false → i ≡ pos 0
is_zero-pos (pos n) h = ap pos (ground (arith, h))
is_zero-pos (negsuc n) h = absurd (cc)

-- The end of a range is open or not before its start.
end_after :
    (from to : ℤ) (n m : ℕ)
    → from ≡ pos n
    → to ≡ pos m
    → (not (is_zero to) && ltb_ℤ to from) ≡ false
    → (to ≡ pos 0) ⊎ ((n : ℕ) × (m : ℕ) × (from ≡ pos n) × (to ≡ pos m) × (n ≤ m))
end_after (pos n) (pos m) n' m' e f h = elim (Bool-cases (m == 0)) [
  | inl zeroed ↦ inl (ap pos (ground (arith, zeroed)))
  | inr closed ↦ inr (n, m, refl, refl, ground (arith, closed, h))
]
end_after (negsuc a) to n m e f h = absurd (cc)
end_after (pos a) (negsuc b) n m e f h = absurd (cc)

-- A text that may be missing is plain where it is there.
plain_or_empty : (s set : Bytes) → (not (is_empty s) && contains_any s set) ≡ false → FreeOf set s
plain_or_empty [] set h = tt
plain_or_empty (c ∷ s) set h = contains_any-FreeOf (c ∷ s) set h

timeless :
    (board : Bytes) (from to : ℤ)
    → (not (is_empty board) && (not (is_zero from) || not (is_zero to))) ≡ false
    → (board ≡ []) ⊎ ((from ≡ pos 0) × (to ≡ pos 0))
timeless [] from to h = inl refl
timeless (c ∷ board) from to h =
    let (f, t) = or_false (not (is_zero from)) (not (is_zero to)) h in
    inr (is_zero-pos from f, is_zero-pos to t)

with_entity : (u : Bool) (id : Bytes) → (u && is_empty id) ≡ false → (u ≡ false) ⊎ (id ≢ [])
with_entity false id h = inl refl
with_entity true id h = inr (is_empty-named id h)

untagged_delete :
    {V : Type 0} (t : QueryType) (l : List V)
    → (is_type t QueryType.delete && not (is_empty l)) ≡ false
    → (t ≢ QueryType.delete) ⊎ (l ≡ [])
untagged_delete QueryType.delete l h = inr (nothing_in l h)
untagged_delete QueryType.metrics l h = inl (λ e. cc)
untagged_delete QueryType.get l h = inl (λ e. cc)
untagged_delete QueryType.leaderboard l h = inl (λ e. cc)
untagged_delete QueryType.write l h = inl (λ e. cc)
untagged_delete QueryType.set l h = inl (λ e. cc)
untagged_delete QueryType.stats l h = inl (λ e. cc)
untagged_delete QueryType.group_leaderboard l h = inl (λ e. cc)
untagged_delete QueryType.rank l h = inl (λ e. cc)
untagged_delete QueryType.score l h = inl (λ e. cc)
untagged_delete QueryType.around l h = inl (λ e. cc)
untagged_delete QueryType.leaderboard_count l h = inl (λ e. cc)

ordered : (a b : Bool) → (not a && not b) ≡ false → (a ≡ true) ⊎ (b ≡ true)
ordered true b h = inl refl
ordered false true h = inr refl
ordered false false h = absurd (cc)

scored_or :
    {V : Type 0} (t : QueryType) (u : Bool) (l : List V)
    → (is_type t QueryType.set && not u && is_empty l) ≡ false
    → (t ≢ QueryType.set) ⊎ (u ≡ true) ⊎ (l ≢ [])
scored_or QueryType.set true l h = inr (inl refl)
scored_or QueryType.set false l h = inr (inr (is_empty-named l h))
scored_or QueryType.metrics u l h = inl (λ e. cc)
scored_or QueryType.get u l h = inl (λ e. cc)
scored_or QueryType.leaderboard u l h = inl (λ e. cc)
scored_or QueryType.write u l h = inl (λ e. cc)
scored_or QueryType.delete u l h = inl (λ e. cc)
scored_or QueryType.stats u l h = inl (λ e. cc)
scored_or QueryType.group_leaderboard u l h = inl (λ e. cc)
scored_or QueryType.rank u l h = inl (λ e. cc)
scored_or QueryType.score u l h = inl (λ e. cc)
scored_or QueryType.around u l h = inl (λ e. cc)
scored_or QueryType.leaderboard_count u l h = inl (λ e. cc)

dry_run_free : (d r u : Bool) → (d && (r || u)) ≡ false → (d ≡ false) ⊎ ((r ≡ false) × (u ≡ false))
dry_run_free false r u h = inl refl
dry_run_free true r u h = inr (or_false r u h)

-- A query that validateQuery accepts has a limit, an offset and times in range, a known order, a
-- finite value and, unless it is METRICS, a metric that is named and not reserved; a dry run is
-- neither a replica's nor a quorum's, SET scores a board, and DELETE has no tags.
pub validate_query-IsValid : (q : Query) → validate_query q ≡ none → IsValid q
unfolding validate_query
validate_query-IsValid q h =
    let (head, more) = both_none (first_error (head_checks q)) _ h in
    let (metric, tail) =
      both_none (metric_message (metric_error q)) (first_error (tail_checks q)) more in
    let (dry, (page, (order, (finite, (time, _))))) = every_check (head_checks q) head in
    let (keys, (etag, (untagged, (entities, (board, (timed, (lb, (scored, _)))))))) =
      every_check (tail_checks q) tail in
    let (below, above) = or_false _ _ page in
    let (low, off) = or_false _ _ below in
    let (times, after) = or_false _ _ time in
    let (times', to) = or_false _ _ times in
    let (ts, from) = or_false _ _ times' in
    record {
      limit_range = at_most q.limit 1000000 low above;
      offset_range = nonneg q.offset off;
      order_known = elim (ordered _ _ order) [
        | inl asc ↦ inl (bytes_eq_sound q.order (codes "ASC") asc)
        | inr desc ↦ inr (bytes_eq_sound q.order (codes "DESC") desc)
      ];
      value_finite = finite;
      from_range = nonneg q.from from;
      to_range = nonneg q.to to;
      timestamp_range = nonneg q.timestamp ts;
      times_ordered =
          (let (n, e) = nonneg q.from from in
            let (m, f) = nonneg q.to to in end_after q.from q.to n m e f after);
      metrics_named = named_or q.type q.metric q.metrics (no_message (metric_error q) metric);
      tag_keys = any_bad_key-keys q.tags (or_false _ _ keys).0;
      condition_keys = any_bad_key-keys q.conditions (or_false _ _ keys).1;
      entity_tag_plain = plain_or_empty q.entity_tag _ etag;
      entities_named = any_bad_board-entities q.lb_entities entities;
      board_plain = plain_or_empty q.board _ board;
      board_timeless = timeless q.board q.from q.to timed;
      lb_named = with_entity q.update_lb q.lb_entity_id lb;
      dry_run_local = dry_run_free q.dry_run q.is_replica q.quorum dry;
      set_scored = scored_or q.type q.update_lb q.lb_entities scored;
      delete_untagged = untagged_delete q.type q.tags untagged;
    }
