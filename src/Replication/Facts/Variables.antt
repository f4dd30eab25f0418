-- ===== src/Replication/Facts/Variables.antt =====
-- pkg/replication/variables.go: the row of system variables that each statement returns.
use dbsgomysql.Prelude.{Bool, Str, [], codes, false, list_eq, nat_eq, true, ℕ}
use dbsgomysql.Golang.Sql.{Result, ok, fail, ◌>>=◌}
use dbsgomysql.Golang.Strconv.{ℤ}
use dbsgomysql.Replication.Decode.{
  DriverValue, Platform, decode_string, decode_bool, decode_uint32, decode_int,
}
use dbsgomysql.Replication.Rows.{err_nil_querier, driver_error, OpError, new_op_error, decode_field}

pub record GtidStatus : Type 0 where
  pub mode : Str
  pub executed : Str
  pub purged : Str

pub record Config : Type 0 where
  pub read_only : Bool
  pub super_read_only : Bool
  pub server_id : ℕ
  pub log_replica_updates : Bool
  pub replica_parallel_workers : ℤ

-- The validation of the inspector, and QueryRowContext with Scan.
abbrev pub scanned_row : {R : Type 0} → Str → Bool → Result Str R → Result OpError R
scanned_row op true answer = fail (new_op_error op [] [] err_nil_querier)
scanned_row op false (fail e) = fail (new_op_error op [] [] (driver_error e))
scanned_row op false (ok r) = ok r

abbrev pub op_binary_log_enabled : Str
op_binary_log_enabled = codes "binary_log_enabled"

unfoldable pub binary_log_enabled : Bool → Result Str DriverValue → Result OpError Bool
unfolding decode_field decode_bool
binary_log_enabled nil_querier answer = do
  log_bin ← scanned_row op_binary_log_enabled nil_querier answer
  decode_field op_binary_log_enabled (codes "@@GLOBAL.log_bin") log_bin decode_bool

abbrev pub op_gtid_status : Str
op_gtid_status = codes "gtid_status"

unfoldable pub gtid_status :
    Bool → Result Str (DriverValue × DriverValue × DriverValue) → Result OpError GtidStatus
unfolding decode_field decode_string
gtid_status nil_querier answer = do
  (raw_mode, raw_executed, raw_purged) ← scanned_row op_gtid_status nil_querier answer
  mode ← decode_field op_gtid_status (codes "@@GLOBAL.gtid_mode") raw_mode decode_string
  executed ← decode_field op_gtid_status (codes "@@GLOBAL.gtid_executed") raw_executed decode_string
  purged ← decode_field op_gtid_status (codes "@@GLOBAL.gtid_purged") raw_purged decode_string
  ok (record { mode = mode; executed = executed; purged = purged })

-- The values of SELECT, in its order.
pub record ConfigRow : Type 0 where
  pub read_only : DriverValue
  pub super_read_only : DriverValue
  pub server_id : DriverValue
  pub log_replica_updates : DriverValue
  pub workers : DriverValue

abbrev pub op_replication_config : Str
op_replication_config = codes "replication_config"

unfoldable pub replication_config : Platform → Bool → Result Str ConfigRow → Result OpError Config
unfolding decode_field decode_bool decode_uint32 decode_int
replication_config platform nil_querier answer = do
  r ← scanned_row op_replication_config nil_querier answer
  read_only ←
      decode_field op_replication_config (codes "@@GLOBAL.read_only") r.read_only decode_bool
  super_read_only ←
      decode_field op_replication_config (codes "@@GLOBAL.super_read_only") r.super_read_only
        decode_bool
  server_id ←
      decode_field op_replication_config (codes "@@GLOBAL.server_id") r.server_id decode_uint32
  log_replica_updates ←
      decode_field op_replication_config (codes "@@GLOBAL.log_replica_updates")
        r.log_replica_updates decode_bool
  workers ←
      decode_field op_replication_config (codes "@@GLOBAL.replica_parallel_workers") r.workers
        (decode_int platform)
  ok (record {
    read_only = read_only;
    super_read_only = super_read_only;
    server_id = server_id;
    log_replica_updates = log_replica_updates;
    replica_parallel_workers = workers;
  })
