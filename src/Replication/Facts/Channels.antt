-- ===== src/Replication/Facts/Channels.antt =====
-- pkg/replication/replica_status.go: the channels of SHOW REPLICA STATUS.
pub mod RoundTrip
use dbsgomysql.Prelude.{Bool, List, Option, Str, [], codes, list_eq, nat_eq, ℕ, ◌∷◌}
use dbsgomysql.Golang.Sql.{Result, ok, fail, ◌>>=◌}
use dbsgomysql.Golang.Strconv.{ℤ}
use dbsgomysql.Replication.Decode.{
  DriverValue, Platform, decode_string, decode_int, decode_null_int64, decode_uint16,
}
use dbsgomysql.Replication.Rows.{
  OpError, ResultSet, ColumnIndex, RowDecoder, decode_column, parse_rows, query_fact,
}

pub record ChannelStatus : Type 0 where
  pub channel_name : Str
  pub io_running : Str
  pub sql_running : Str
  pub seconds_behind_source : Option ℤ
  pub last_io_errno : ℤ
  pub last_io_error : Str
  pub last_sql_errno : ℤ
  pub last_sql_error : Str
  pub retrieved_gtid_set : Str
  pub executed_gtid_set : Str
  pub source_host : Str
  pub source_port : ℕ

abbrev pub op_replica_status : Str
op_replica_status = codes "replica_status"

abbrev pub promised_replica_status_columns : List Str
promised_replica_status_columns =
    codes "Channel_Name"
    ∷ codes "Replica_IO_Running"
    ∷ codes "Replica_SQL_Running"
    ∷ codes "Seconds_Behind_Source"
    ∷ codes "Last_IO_Errno"
    ∷ codes "Last_IO_Error"
    ∷ codes "Last_SQL_Errno"
    ∷ codes "Last_SQL_Error"
    ∷ codes "Retrieved_Gtid_Set"
    ∷ codes "Executed_Gtid_Set"
    ∷ codes "Source_Host"
    ∷ codes "Source_Port"
    ∷ []

module _ (platform : Platform) where
  -- The columns behind the name of the channel.
  unfoldable pub decode_channel : Str → RowDecoder → Result OpError ChannelStatus
  unfolding decode_column decode_string decode_int decode_null_int64 decode_uint16
  decode_channel name r = do
    io_running ← decode_column r (codes "Replica_IO_Running") decode_string
    sql_running ← decode_column r (codes "Replica_SQL_Running") decode_string
    seconds ← decode_column r (codes "Seconds_Behind_Source") decode_null_int64
    io_errno ← decode_column r (codes "Last_IO_Errno") (decode_int platform)
    io_error ← decode_column r (codes "Last_IO_Error") decode_string
    sql_errno ← decode_column r (codes "Last_SQL_Errno") (decode_int platform)
    sql_error ← decode_column r (codes "Last_SQL_Error") decode_string
    retrieved ← decode_column r (codes "Retrieved_Gtid_Set") decode_string
    executed ← decode_column r (codes "Executed_Gtid_Set") decode_string
    host ← decode_column r (codes "Source_Host") decode_string
    port ← decode_column r (codes "Source_Port") decode_uint16
    ok (record {
      channel_name = name;
      io_running = io_running;
      sql_running = sql_running;
      seconds_behind_source = seconds;
      last_io_errno = io_errno;
      last_io_error = io_error;
      last_sql_errno = sql_errno;
      last_sql_error = sql_error;
      retrieved_gtid_set = retrieved;
      executed_gtid_set = executed;
      source_host = host;
      source_port = port;
    })

  -- The name is decoded first: errors behind it carry the channel.
  unfoldable pub decode_channel_status :
      ColumnIndex → List DriverValue → Result OpError ChannelStatus
  unfolding decode_channel decode_column decode_string
  decode_channel_status index values =
      let r : RowDecoder = record {
        op = op_replica_status;
        channel = [];
        index = index;
        values = values;
      } in
      decode_column r (codes "Channel_Name") decode_string >>= λ name.
      decode_channel name (record r { channel = name })

  unfoldable pub parse_replica_status : ResultSet → Result OpError (List ChannelStatus)
  unfolding parse_rows decode_channel_status
  parse_replica_status result =
      parse_rows op_replica_status promised_replica_status_columns decode_channel_status result

  -- ReplicaStatus
  unfoldable pub replica_status : Bool → Result Str ResultSet → Result OpError (List ChannelStatus)
  unfolding query_fact parse_replica_status
  replica_status nil_querier answer =
      query_fact op_replica_status nil_querier answer parse_replica_status
