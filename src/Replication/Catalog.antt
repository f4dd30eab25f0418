-- ===== src/Replication/Catalog.antt =====
-- pkg/replication/catalog.go and finding.go: the checks with their rationale, and what they report.
use dbsgomysql.Prelude.{
  Bool, List, Str, [], codes, if◌then◌else◌, is_empty, list_eq, nat_eq, not, ◌++◌, ◌==◌, ◌∷◌,
}

abbrev pub id_binary_log_enabled : Str
id_binary_log_enabled = codes "BINARY_LOG_ENABLED"

abbrev pub id_group_replication_applier_queue_within : Str
id_group_replication_applier_queue_within = codes "GROUP_REPLICATION_APPLIER_QUEUE_WITHIN"

abbrev pub id_group_replication_certifier_queue_within : Str
id_group_replication_certifier_queue_within = codes "GROUP_REPLICATION_CERTIFIER_QUEUE_WITHIN"

abbrev pub id_group_replication_local_member_online : Str
id_group_replication_local_member_online = codes "GROUP_REPLICATION_LOCAL_MEMBER_ONLINE"

abbrev pub id_group_replication_members_online : Str
id_group_replication_members_online = codes "GROUP_REPLICATION_MEMBERS_ONLINE"

abbrev pub id_gtid_mode_on : Str
id_gtid_mode_on = codes "GTID_MODE_ON"

abbrev pub id_replication_channels_running : Str
id_replication_channels_running = codes "REPLICATION_CHANNELS_RUNNING"

abbrev pub id_replication_configured : Str
id_replication_configured = codes "REPLICATION_CONFIGURED"

abbrev pub id_seconds_behind_source_within : Str
id_seconds_behind_source_within = codes "SECONDS_BEHIND_SOURCE_WITHIN"

pub data CheckStatus : Type 0 where
  unpopulated implemented : CheckStatus

pub record CheckInfo : Type 0 where
  pub id : Str
  pub rationale : Str
  pub status : CheckStatus
  pub phase : Str

abbrev no_info : CheckInfo
no_info = record { id = []; rationale = []; status = unpopulated; phase = [] }

abbrev info : Str → Str → Str → CheckInfo
info id rationale phase = record {
  id = id;
  rationale = rationale;
  status = implemented;
  phase = phase;
}

unfoldable pub check_info : Str → CheckInfo
check_info id =
    if id == id_binary_log_enabled
    then info id
        (codes
          "A server without binary logging cannot serve as a replication source and supports no binlog-based capture or point-in-time recovery.")
        (codes "v1.1.0")
    else if id == id_group_replication_applier_queue_within
    then info id
        (codes
          "A remote-transaction applier queue beyond the caller's bound is an application backlog on that member; it is not an exact measure of how far the member's data trails the group, and a remote member's value is a periodic copy.")
        (codes "v1.3.0")
    else if id == id_group_replication_certifier_queue_within
    then info id
        (codes
          "A certification queue beyond the caller's bound is a backlog of transactions waiting for conflict detection; a remote member's value is a periodic copy.")
        (codes "v1.3.0")
    else if id == id_group_replication_local_member_online
    then info id
        (codes
          "A member is only fully synchronized with the group, and participating in it, when it is ONLINE, so any other own state leaves both unestablished; a server with no row of its own, including one without an active plugin, fails rather than passes.")
        (codes "v1.3.0")
    else if id == id_group_replication_members_online
    then info id
        (codes
          "This view does not report the member ONLINE, the only state in which a member is fully synchronized and participating; an UNREACHABLE row is a suspicion, and the queried member may be the one cut off in a partition.")
        (codes "v1.3.0")
    else if id == id_gtid_mode_on
    then info id
        (codes
          "Consumers that coordinate by GTID (resume, failover, CDC positioning) need ON; in other modes the GTID sets describe only part of the write history.")
        (codes "v1.1.0")
    else if id == id_replication_channels_running
    then info id
        (codes
            "A stopped channel accumulates lag and drift silently; the finding carries any recorded last errors, which may help diagnose the stop "
          ++ (226
              ∷ 128
              ∷ 148
              ∷ codes
                  " the server records none for a deliberate stop, and Connecting is a failing state that may carry no error."))
        (codes "v1.1.0")
    else if id == id_replication_configured
    then info id
        (codes
          "A consumer expecting to monitor asynchronous replication here is pointed at a server that has none; a Group Replication member's own channels are not counted (docs/COMPAT.md entry 29).")
        (codes "v1.1.0")
    else if id == id_seconds_behind_source_within
    then info id
        (codes
          "The server's reported lag estimate beyond the caller's bound means the replica trails the source; NULL means the estimate is unknowable because a replication thread is stopped, and a job that gates on lag must not proceed on an unknowable estimate.")
        (codes "v1.1.0")
    else no_info

unfoldable pub catalog : List CheckInfo
unfolding check_info
catalog =
    check_info id_binary_log_enabled
    ∷ check_info id_group_replication_applier_queue_within
    ∷ check_info id_group_replication_certifier_queue_within
    ∷ check_info id_group_replication_local_member_online
    ∷ check_info id_group_replication_members_online
    ∷ check_info id_gtid_mode_on
    ∷ check_info id_replication_channels_running
    ∷ check_info id_replication_configured
    ∷ check_info id_seconds_behind_source_within
    ∷ []

-- The entry, and whether the check exists.
unfoldable pub lookup_check : Str → CheckInfo × Bool
unfolding check_info
lookup_check id = (check_info id, not (is_empty (check_info id).id))

-- `Facts` is of any type; `channels` is nil for the checks of the server.
pub record Finding (F : Type 0) : Type 0 where
  pub check : Str
  pub message : Str
  pub channels : List Str
  pub facts : F

unfoldable pub finding_message : Str → Str → Str
unfolding lookup_check
finding_message id summary =
    let (found, is_known) = lookup_check id in
    if not is_known then summary else summary ++ codes ". " ++ found.rationale
