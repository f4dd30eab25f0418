-- ===== src/Replication/Facts/Members.antt =====
-- pkg/replication/group_members.go, group_member_stats.go and group_replication.go.
use dbsgomysql.Prelude.{
  Bool, List, Option, Str, [], codes, if◌then◌else◌, is_empty, list_eq, nat_eq, ℕ, ◌∷◌,
}
use dbsgomysql.Golang.Sql.{Result, ok, fail, ◌>>=◌}
use dbsgomysql.Golang.Strconv.{ℤ}
use dbsgomysql.Replication.Decode.{
  DriverValue, decode_string, decode_bool, decode_uint64, decode_null_int64,
}
use dbsgomysql.Replication.Rows.{
  of_member, OpError, ResultSet, ColumnIndex, RowDecoder, decode_column, parse_rows, query_fact,
}

pub record GroupMember : Type 0 where
  pub channel_name : Str
  pub member_id : Str
  pub host : Str
  pub port : Option ℤ
  pub state : Str
  pub role : Str
  pub version : Str
  pub communication_stack : Str
  pub self : Bool

abbrev pub op_group_members : Str
op_group_members = codes "group_members"

-- nameMember
unfoldable pub name_member : {T : Type 0} → Str → Result OpError T → Result OpError T
name_member member_id (ok t) = ok t
name_member member_id (fail e) =
    if is_empty member_id then fail e else fail (record e { err = of_member member_id e.err })

unfoldable pub decode_member_columns : Str → Str → RowDecoder → Result OpError GroupMember
unfolding decode_column decode_string decode_null_int64 decode_bool
decode_member_columns name member_id r = do
  host ← decode_column r (codes "MEMBER_HOST") decode_string
  port ← decode_column r (codes "MEMBER_PORT") decode_null_int64
  state ← decode_column r (codes "MEMBER_STATE") decode_string
  role ← decode_column r (codes "MEMBER_ROLE") decode_string
  version ← decode_column r (codes "MEMBER_VERSION") decode_string
  stack ← decode_column r (codes "MEMBER_COMMUNICATION_STACK") decode_string
  self ← decode_column r (codes "IS_SELF") decode_bool
  ok (record {
    channel_name = name;
    member_id = member_id;
    host = host;
    port = port;
    state = state;
    role = role;
    version = version;
    communication_stack = stack;
    self = self;
  })

-- The channel and the member, which the errors behind them carry.
abbrev pub decode_attributed :
    {T : Type 0}
    → Str
    → (Str → Str → RowDecoder → Result OpError T)
    → ColumnIndex
    → List DriverValue
    → Result OpError T
decode_attributed op decode index values =
    let r : RowDecoder = record { op = op; channel = []; index = index; values = values } in
    decode_column r (codes "CHANNEL_NAME") decode_string >>= λ name.
    decode_column (record r { channel = name }) (codes "MEMBER_ID") decode_string >>= λ member_id.
    name_member member_id (decode name member_id (record r { channel = name }))

abbrev pub promised_group_members_columns : List Str
promised_group_members_columns =
    codes "CHANNEL_NAME"
    ∷ codes "MEMBER_ID"
    ∷ codes "MEMBER_HOST"
    ∷ codes "MEMBER_PORT"
    ∷ codes "MEMBER_STATE"
    ∷ codes "MEMBER_ROLE"
    ∷ codes "MEMBER_VERSION"
    ∷ codes "MEMBER_COMMUNICATION_STACK"
    ∷ codes "IS_SELF"
    ∷ []

unfoldable pub decode_group_member : ColumnIndex → List DriverValue → Result OpError GroupMember
unfolding decode_member_columns name_member decode_column decode_string
decode_group_member index values =
    decode_attributed op_group_members decode_member_columns index values

-- GroupMembers
unfoldable pub group_members : Bool → Result Str ResultSet → Result OpError (List GroupMember)
unfolding query_fact parse_rows decode_group_member
group_members nil_querier answer =
    query_fact op_group_members nil_querier answer
      (parse_rows op_group_members promised_group_members_columns decode_group_member)

pub record GroupMemberStats : Type 0 where
  pub channel_name : Str
  pub view_id : Str
  pub member_id : Str
  pub transactions_in_queue : ℕ
  pub transactions_checked : ℕ
  pub conflicts_detected : ℕ
  pub transactions_rows_validating : ℕ
  pub transactions_remote_in_applier_queue : ℕ
  pub transactions_remote_applied : ℕ
  pub self : Bool

abbrev pub op_group_member_stats : Str
op_group_member_stats = codes "group_member_stats"

unfoldable pub decode_stats_columns : Str → Str → RowDecoder → Result OpError GroupMemberStats
unfolding decode_column decode_string decode_uint64 decode_bool
decode_stats_columns name member_id r = do
  view_id ← decode_column r (codes "VIEW_ID") decode_string
  queue ← decode_column r (codes "COUNT_TRANSACTIONS_IN_QUEUE") decode_uint64
  checked ← decode_column r (codes "COUNT_TRANSACTIONS_CHECKED") decode_uint64
  conflicts ← decode_column r (codes "COUNT_CONFLICTS_DETECTED") decode_uint64
  validating ← decode_column r (codes "COUNT_TRANSACTIONS_ROWS_VALIDATING") decode_uint64
  applier ← decode_column r (codes "COUNT_TRANSACTIONS_REMOTE_IN_APPLIER_QUEUE") decode_uint64
  applied ← decode_column r (codes "COUNT_TRANSACTIONS_REMOTE_APPLIED") decode_uint64
  self ← decode_column r (codes "IS_SELF") decode_bool
  ok (record {
    channel_name = name;
    view_id = view_id;
    member_id = member_id;
    transactions_in_queue = queue;
    transactions_checked = checked;
    conflicts_detected = conflicts;
    transactions_rows_validating = validating;
    transactions_remote_in_applier_queue = applier;
    transactions_remote_applied = applied;
    self = self;
  })

abbrev pub promised_group_member_stats_columns : List Str
promised_group_member_stats_columns =
    codes "CHANNEL_NAME"
    ∷ codes "VIEW_ID"
    ∷ codes "MEMBER_ID"
    ∷ codes "COUNT_TRANSACTIONS_IN_QUEUE"
    ∷ codes "COUNT_TRANSACTIONS_CHECKED"
    ∷ codes "COUNT_CONFLICTS_DETECTED"
    ∷ codes "COUNT_TRANSACTIONS_ROWS_VALIDATING"
    ∷ codes "COUNT_TRANSACTIONS_REMOTE_IN_APPLIER_QUEUE"
    ∷ codes "COUNT_TRANSACTIONS_REMOTE_APPLIED"
    ∷ codes "IS_SELF"
    ∷ []

unfoldable pub decode_group_member_stats :
    ColumnIndex → List DriverValue → Result OpError GroupMemberStats
unfolding decode_stats_columns name_member decode_column decode_string
decode_group_member_stats index values =
    decode_attributed op_group_member_stats decode_stats_columns index values

-- GroupMemberStats
unfoldable pub group_member_stats :
    Bool → Result Str ResultSet → Result OpError (List GroupMemberStats)
unfolding query_fact parse_rows decode_group_member_stats
group_member_stats nil_querier answer =
    query_fact op_group_member_stats nil_querier answer (
      parse_rows op_group_member_stats promised_group_member_stats_columns
        decode_group_member_stats)
