-- ===== src/Replication/Facts/Logs.antt =====
-- pkg/replication/binary_log_status.go, registered_replicas.go and group_replication.go.
use dbsgomysql.Prelude.{
  Bool, List, Option, Str, [], codes, false, if◌then◌else◌, list_eq, nat_eq, none, some, true, ℕ,
  ◌∷◌,
}
use dbsgomysql.Golang.Sql.{Result, ok, fail, ◌>>=◌}
use dbsgomysql.Golang.Sql.{Rows, end, row, bad_row}
use dbsgomysql.Replication.Decode.{
  DriverValue, decode_string, decode_uint64, decode_uint32, decode_uint16,
}
use dbsgomysql.Replication.Rows.{
  err_nil_querier, err_multiple_rows, driver_error, at_statement, joined, OpError, new_op_error,
  ResultSet, ColumnIndex, RowDecoder, decode_column, index_columns, closed, parse_rows, query_fact,
}

pub record BinaryLogStatus : Type 0 where
  pub file : Str
  pub position : ℕ
  pub binlog_do_db : Str
  pub binlog_ignore_db : Str
  pub executed_gtid_set : Str

abbrev pub op_binary_log_status : Str
op_binary_log_status = codes "binary_log_status"

unfoldable pub decode_binary_log_status :
    ColumnIndex → List DriverValue → Result OpError BinaryLogStatus
unfolding decode_column decode_string decode_uint64
decode_binary_log_status index values =
    let r : RowDecoder = record {
      op = op_binary_log_status;
      channel = [];
      index = index;
      values = values;
    } in
    do
      file ← decode_column r (codes "File") decode_string
      position ← decode_column r (codes "Position") decode_uint64
      do_db ← decode_column r (codes "Binlog_Do_DB") decode_string
      ignore_db ← decode_column r (codes "Binlog_Ignore_DB") decode_string
      executed ← decode_column r (codes "Executed_Gtid_Set") decode_string
      ok (record {
        file = file;
        position = position;
        binlog_do_db = do_db;
        binlog_ignore_db = ignore_db;
        executed_gtid_set = executed;
      })

-- The first row; `none` is a nil status, where binary logging is disabled. rows.Err() is nil behind a
-- row that was read, since nothing reads on.
unfoldable pub first_status :
    ColumnIndex → Rows (List DriverValue) → Result OpError (Option BinaryLogStatus)
unfolding decode_binary_log_status
first_status index (end none) = ok none
first_status index (end (some e)) = fail (new_op_error op_binary_log_status [] [] (driver_error e))
first_status index (bad_row e) = fail (new_op_error op_binary_log_status [] [] (driver_error e))
first_status index (row values rows) =
    decode_binary_log_status index values >>= λ status. ok (some status)

unfoldable pub parse_binary_log_status : ResultSet → Result OpError (Option BinaryLogStatus)
unfolding index_columns first_status closed
parse_binary_log_status result = closed op_binary_log_status result (
    index_columns op_binary_log_status result (
      codes "File"
      ∷ codes "Position"
      ∷ codes "Binlog_Do_DB"
      ∷ codes "Binlog_Ignore_DB"
      ∷ codes "Executed_Gtid_Set"
      ∷ [])
    >>= λ index. first_status index result.rows)

abbrev pub primary_statement : Str
primary_statement = codes "SHOW BINARY LOG STATUS"

abbrev pub fallback_statement : Str
fallback_statement = codes "SHOW MASTER STATUS"

-- BinaryLogStatus. `refused` is whether the context or the error of the primary statement is a
-- cancellation or a passed deadline.
unfoldable pub binary_log_status :
    Bool
    → (Str → Bool)
    → Result Str ResultSet
    → Result Str ResultSet
    → Result OpError (Option BinaryLogStatus)
unfolding parse_binary_log_status
binary_log_status true refused primary fallback =
    fail (new_op_error op_binary_log_status [] [] err_nil_querier)
binary_log_status false refused (ok result) fallback = parse_binary_log_status result
binary_log_status false refused (fail e) fallback =
    if refused e
    then fail (new_op_error op_binary_log_status [] [] (at_statement primary_statement e))
    else elim fallback [
      | ok result ↦ parse_binary_log_status result
      | fail f ↦ fail (
          new_op_error op_binary_log_status [] []
            (joined (at_statement primary_statement e) (at_statement fallback_statement f)))
    ]

pub record RegisteredReplica : Type 0 where
  pub server_id : ℕ
  pub host : Str
  pub port : ℕ
  pub source_id : ℕ
  pub replica_uuid : Str

abbrev pub op_registered_replicas : Str
op_registered_replicas = codes "registered_replicas"

unfoldable pub decode_registered_replica :
    ColumnIndex → List DriverValue → Result OpError RegisteredReplica
unfolding decode_column decode_string decode_uint32 decode_uint16
decode_registered_replica index values =
    let r : RowDecoder = record {
      op = op_registered_replicas;
      channel = [];
      index = index;
      values = values;
    } in
    do
      server_id ← decode_column r (codes "Server_Id") decode_uint32
      host ← decode_column r (codes "Host") decode_string
      port ← decode_column r (codes "Port") decode_uint16
      source_id ← decode_column r (codes "Source_Id") decode_uint32
      uuid ← decode_column r (codes "Replica_UUID") decode_string
      ok (record {
        server_id = server_id;
        host = host;
        port = port;
        source_id = source_id;
        replica_uuid = uuid;
      })

-- RegisteredReplicas
unfoldable pub registered_replicas :
    Bool → Result Str ResultSet → Result OpError (List RegisteredReplica)
unfolding query_fact parse_rows decode_registered_replica
registered_replicas nil_querier answer = query_fact op_registered_replicas nil_querier answer (
    parse_rows op_registered_replicas
      (codes "Server_Id"
        ∷ codes "Host"
        ∷ codes "Port"
        ∷ codes "Source_Id"
        ∷ codes "Replica_UUID"
        ∷ [])
      decode_registered_replica)

pub record GroupReplication : Type 0 where
  pub plugin_status : Str
  pub group_name : Str

abbrev pub op_group_replication : Str
op_group_replication = codes "group_replication"

-- The loop over the rows: a second one is an error, whether it scans or not.
unfoldable pub optional_row :
    ColumnIndex → Str → Bool → Str → Rows (List DriverValue) → Result OpError Str
unfolding decode_column decode_string
optional_row index column seen value (end none) = ok value
optional_row index column seen value (end (some e)) =
    fail (new_op_error op_group_replication [] [] (driver_error e))
optional_row index column true value (row values rows) =
    fail (new_op_error op_group_replication [] column err_multiple_rows)
optional_row index column true value (bad_row e) =
    fail (new_op_error op_group_replication [] column err_multiple_rows)
optional_row index column false value (bad_row e) =
    fail (new_op_error op_group_replication [] [] (driver_error e))
optional_row index column false value (row values rows) =
    decode_column
      (record { op = op_group_replication; channel = []; index = index; values = values }) column
      decode_string
    >>= λ decoded. optional_row index column true decoded rows

unfoldable pub read_optional_value : Str → ResultSet → Result OpError Str
unfolding index_columns optional_row closed
read_optional_value column result = closed op_group_replication result (
    index_columns op_group_replication result (column ∷ []) >>= λ index.
    optional_row index column false [] result.rows)

-- GroupReplication
unfoldable pub group_replication :
    Bool → Result Str ResultSet → Result Str ResultSet → Result OpError GroupReplication
unfolding query_fact read_optional_value
group_replication nil_querier plugin name = do
  status ←
      query_fact op_group_replication nil_querier plugin
        (read_optional_value (codes "PLUGIN_STATUS"))
  group_name ←
      query_fact op_group_replication nil_querier name
        (read_optional_value (codes "VARIABLE_VALUE"))
  ok (record { plugin_status = status; group_name = group_name })
