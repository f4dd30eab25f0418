-- ===== src/Replication/Tests.antt =====
-- Replication at concrete inputs.
use dbsgomysql.Prelude.{
  All, Any, List, Str, [], all, arith, codes, contains, false, is_empty, list_beq, list_eq, nat_eq,
  none, refl, some, true, ◌++◌, ◌↔◌, ◌∷◌, ◌≡◌,
}
use dbsgomysql.Golang.Sql.{end, row, ok}
use dbsgomysql.Golang.Strconv.{pos}
use dbsgomysql.Replication.Decode.{
  DriverValue, null, text, bytes, int64, uint64, bits_32, bits_64, decode_int, decode_int64,
}
use dbsgomysql.Replication.Decode.Laws.{IsInt, decode_int_iff}
use dbsgomysql.Replication.Facts.Channels.{
  ChannelStatus, promised_replica_status_columns, replica_status,
}
use dbsgomysql.Replication.Facts.Channels.RoundTrip.{Reports, replica_status-Lists}
use dbsgomysql.Replication.Facts.Members.{GroupMember, GroupMemberStats}
use dbsgomysql.Replication.Checks.{
  check_replication_configured, check_replication_channels_running,
  check_seconds_behind_source_within, check_group_replication_local_member_online,
  check_group_replication_members_online, check_group_replication_applier_queue_within,
  check_group_replication_certifier_queue_within, member_online,
}
use dbsgomysql.Replication.Checks.Gate.{IsHealthy, IsWithin, replication_gate_iff, group_gate_iff}

abbrev channel : ChannelStatus
channel = record {
  channel_name = [];
  io_running = codes "Yes";
  sql_running = codes "No";
  seconds_behind_source = none;
  last_io_errno = pos 0;
  last_io_error = [];
  last_sql_errno = pos 7;
  last_sql_error = codes "e";
  retrieved_gtid_set = [];
  executed_gtid_set = [];
  source_host = codes "h";
  source_port = 3306;
}

-- The columns in another order than promised, with one more.
abbrev names : List Str
names =
    codes "Source_Port"
    ∷ codes "New_Column"
    ∷ codes "Channel_Name"
    ∷ codes "Replica_IO_Running"
    ∷ codes "Replica_SQL_Running"
    ∷ codes "Seconds_Behind_Source"
    ∷ codes "Last_IO_Errno"
    ∷ codes "Last_IO_Error"
    ∷ codes "Last_SQL_Errno"
    ∷ codes "Last_SQL_Error"
    ∷ codes "Retrieved_Gtid_Set"
    ∷ codes "Executed_Gtid_Set"
    ∷ codes "Source_Host"
    ∷ []

abbrev values : List DriverValue
values =
    uint64 3306
    ∷ text (codes "x")
    ∷ bytes []
    ∷ text (codes "Yes")
    ∷ bytes (codes "No")
    ∷ null
    ∷ int64 (pos 0)
    ∷ text []
    ∷ uint64 7
    ∷ text (codes "e")
    ∷ text []
    ∷ text []
    ∷ text (codes "h")
    ∷ []

channel-Reports : Reports bits_64 names values channel
unfolding list_beq
channel-Reports = record {
  channel_name = (bytes [], refl, refl);
  io_running = (text (codes "Yes"), refl, refl);
  sql_running = (bytes (codes "No"), refl, refl);
  seconds = (null, refl, refl);
  io_errno = (int64 (pos 0), refl, (refl, omega arith, omega arith));
  io_error = (text [], refl, refl);
  sql_errno = (uint64 7, refl, (refl, omega arith, omega arith));
  sql_error = (text (codes "e"), refl, refl);
  retrieved = (text [], refl, refl);
  executed = (text [], refl, refl);
  host = (text (codes "h"), refl, refl);
  port = (uint64 3306, refl, (refl, omega arith));
}

promised : all (λ c. contains c names) promised_replica_status_columns ≡ true
unfolding contains list_beq
promised = refl

replica_status-Lists_example :
    replica_status bits_64 false
      (ok (record { columns = ok names; rows = row values (end none); close_error = none }))
    ≡ ok (channel ∷ [])
replica_status-Lists_example =
    replica_status-Lists bits_64 names (row values (end none)) (channel ∷ []) promised
      (channel-Reports, refl)

decode_int_iff_example : (decode_int bits_32 (text (codes "3000000000")) ≡ ok (pos 3000000000)) ↔ (
    (decode_int64 (text (codes "3000000000")) ≡ ok (pos 3000000000))
    × IsInt bits_32 (pos 3000000000))
decode_int_iff_example = decode_int_iff bits_32 (text (codes "3000000000")) (pos 3000000000)

abbrev quoted : Str → Str
quoted s = codes "'" ++ s ++ codes "'"

replication_gate_iff_example :
    ((check_replication_configured (channel ∷ []) ≡ [])
      × (check_replication_channels_running quoted (channel ∷ []) ≡ [])
      × (check_seconds_behind_source_within quoted (channel ∷ []) (pos 5) ≡ []))
    ↔ ((is_empty (channel ∷ []) ≡ false) × All (IsHealthy (pos 5)) (channel ∷ []))
replication_gate_iff_example = replication_gate_iff quoted (channel ∷ []) (pos 5)

abbrev member : GroupMember
member = record {
  channel_name = codes "group_replication_applier";
  member_id = codes "u";
  host = codes "h";
  port = some (pos 3306);
  state = member_online;
  role = codes "PRIMARY";
  version = codes "8.4.0";
  communication_stack = codes "XCom";
  self = true;
}

abbrev counters : GroupMemberStats
counters = record {
  channel_name = codes "group_replication_applier";
  view_id = codes "v";
  member_id = codes "u";
  transactions_in_queue = 0;
  transactions_checked = 9;
  conflicts_detected = 0;
  transactions_rows_validating = 3;
  transactions_remote_in_applier_queue = 5;
  transactions_remote_applied = 4;
  self = true;
}

group_gate_iff_example :
    ((check_group_replication_local_member_online quoted (member ∷ []) ≡ [])
      × (check_group_replication_members_online quoted (member ∷ []) ≡ [])
      × (check_group_replication_applier_queue_within quoted (counters ∷ []) (pos 5) ≡ [])
      × (check_group_replication_certifier_queue_within quoted (counters ∷ []) (pos 5) ≡ []))
    ↔ (Any (λ m. (m.self ≡ true) × (m.state ≡ member_online)) (member ∷ [])
        × All (λ m. m.state ≡ member_online) (member ∷ [])
        × All (λ s. IsWithin (pos s.transactions_remote_in_applier_queue) (pos 5)) (counters ∷ [])
        × All (λ s. IsWithin (pos s.transactions_in_queue) (pos 5)) (counters ∷ []))
group_gate_iff_example = group_gate_iff quoted (member ∷ []) (counters ∷ []) (pos 5)
