-- ===== src/Query/Types.antt =====
-- internal/query/query.go: the parsed query, and what the parser uses of packages strconv, strings
-- and time.
use flamedb.Base.{refl, ℕ, Bool, false, Option, none, some, List, [], ◌≡◌}
use flamedb.Base.Bytes.{Bytes, codes}
use flamedb.Base.Int.{ℤ, pos}
use flamedb.Base.Map.{Map}

pub data QueryType : Type 0 where
  metrics get leaderboard write set delete stats group_leaderboard : QueryType
  rank score around leaderboard_count : QueryType

pub data AggType : Type 0 where
  no_aggregate count sum avg : AggType

pub record GroupDef : Type 0 where
  pub name : Bytes
  pub members : List Bytes

-- A time.Duration that the parser makes is not negative.
pub record Query : Type 0 where
  pub entity_id : Bytes
  pub radius : ℤ
  pub dry_run : Bool
  pub operation_id : Bytes
  pub type : QueryType
  pub metric : Bytes
  pub metrics : List Bytes
  pub conditions : Map Bytes
  pub timestamp : ℤ
  pub from : ℤ
  pub to : ℤ
  pub limit : ℤ
  pub offset : ℤ
  pub order : Bytes
  pub value : ℕ
  pub tags : Map Bytes
  pub update_lb : Bool
  pub lb_entity_id : Bytes
  pub lb_entities : Map Bytes
  pub board : Bytes
  pub tag_keys : List Bytes
  pub quorum : Bool
  pub is_replica : Bool
  pub force_local : Bool
  pub groups : List GroupDef
  pub aggregate : AggType
  pub group_by : ℕ
  pub group_by_spec : Bytes
  pub entity_tag : Bytes

-- The query that Parse starts from.
abbrev pub new_query : Bytes → QueryType → Query
new_query operation_id type = record {
  entity_id = [];
  radius = pos 0;
  dry_run = false;
  operation_id = operation_id;
  type = type;
  metric = [];
  metrics = [];
  conditions = [];
  timestamp = pos 0;
  from = pos 0;
  to = pos 0;
  limit = pos 10;
  offset = pos 0;
  order = codes "DESC";
  value = 0;
  tags = [];
  update_lb = false;
  lb_entity_id = [];
  lb_entities = [];
  board = [];
  tag_keys = [];
  quorum = false;
  is_replica = false;
  force_local = false;
  groups = [];
  aggregate = AggType.no_aggregate;
  group_by = 0;
  group_by_spec = [];
  entity_tag = [];
}

-- The error is the message of fmt.Errorf.
pub data Result {ℓ} (A : Type ℓ) : Type ℓ where
  ok : A → Result A
  err : Bytes → Result A

infixl 5 ◌>>=◌
abbrev pub ◌>>=◌ {κ ℓ} :
    {B : Type κ} {A : Type ℓ} (step : Result A) (next : A → Result B) → Result B
err message >>= next = err message
ok got >>= next = next got

-- Inversion of a successful step.
pub >>=-eq-ok {ℓ κ} :
    {A : Type ℓ} {B : Type κ} (step : Result A) (next : A → Result B) {made : B}
    → (step >>= next) ≡ ok made
    → (got : A) × (step ≡ ok got) × (next got ≡ ok made)
>>=-eq-ok (err message) next e = cc
>>=-eq-ok (ok got) next e = (got, refl, e)

abbrev pub or_error {ℓ} : {A : Type ℓ} → Option A → Bytes → Result A
or_error none e = err e
or_error (some a) e = ok a

-- The functions of Go's library whose results depend on Unicode, on floating point or on the clock.
-- Times are nanoseconds since the epoch; a float64 is its bit pattern.
pub record Std : Type 0 where
  pub to_upper : Bytes → Bytes
  pub equal_fold : Bytes → Bytes → Bool
  pub trim_space : Bytes → Bytes
  pub unquote : Bytes → Option Bytes
  pub parse_float : Bytes → Option ℕ
  pub parse_rfc3339 : Bytes → Option ℤ
  pub parse_date : Bytes → Option ℤ
  pub now : ℤ
  -- base.AddDate(years, months, 0) and base.Add(duration), forward if the flag is set
  pub add_date : ℤ → Bool → ℕ → ℕ → ℤ
  pub add_duration : ℤ → Bool → ℕ → ℤ

pub ok_inj {ℓ} : {A : Type ℓ} {a b : A} → ok a ≡ ok b → a ≡ b
ok_inj p = cc
