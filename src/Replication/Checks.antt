-- ===== src/Replication/Checks.antt =====
-- pkg/replication/checks.go and group_replication_checks.go. strconv.Quote, which `%q` applies, is a
-- parameter.
pub mod Gate
use dbsgomysql.Prelude.{
  Bool, List, Option, Str, [], codes, if◌then◌else◌, is_empty, list_eq, ltb, nat_eq, none, not,
  some, ℕ, ◌&&◌, ◌++◌, ◌==◌, ◌∷◌,
}
use dbsgomysql.Golang.Strconv.{ℤ, pos, negsuc, int_above, is_negative, format_int, itoa}
use dbsgomysql.Replication.Facts.Channels.{ChannelStatus}
use dbsgomysql.Replication.Facts.Members.{GroupMember, GroupMemberStats}
use dbsgomysql.Replication.Facts.Variables.{GtidStatus}
use dbsgomysql.Replication.Catalog.{
  Finding, finding_message, id_binary_log_enabled, id_group_replication_applier_queue_within,
  id_group_replication_certifier_queue_within, id_group_replication_local_member_online,
  id_group_replication_members_online, id_gtid_mode_on, id_replication_channels_running,
  id_replication_configured, id_seconds_behind_source_within,
}

abbrev pub running_yes : Str
running_yes = codes "Yes"

abbrev pub gtid_mode_on : Str
gtid_mode_on = codes "ON"

abbrev pub member_online : Str
member_online = codes "ONLINE"

-- summaryNoOwnRow
abbrev pub no_own_row : Str
no_own_row = codes "No row of this server's group view is identified as this server"

-- A finding of a check, with the rationale in its message.
abbrev pub finding : {F : Type 0} → Str → Str → List Str → F → Finding F
finding id summary channels facts = record {
  check = id;
  message = finding_message id summary;
  channels = channels;
  facts = facts;
}

-- The loops of the checks: the findings of the elements that have a summary, in order.
unfoldable pub each_finding :
    {F : Type 0} → Str → (F → Option Str) → (F → List Str) → List F → List (Finding F)
each_finding id summary channels [] = []
each_finding id summary channels (x ∷ xs) =
    let later = each_finding id summary channels xs in
    elim (summary x) [ none ↦ later | some s ↦ finding id s (channels x) x ∷ later ]

unfoldable pub check_binary_log_enabled : Bool → List (Finding Bool)
check_binary_log_enabled enabled =
    if enabled
    then []
    else finding id_binary_log_enabled (codes "Binary logging is disabled") [] enabled ∷ []

unfoldable pub check_replication_configured :
    List ChannelStatus → List (Finding (List ChannelStatus))
check_replication_configured channels =
    if not (is_empty channels)
    then []
    else finding id_replication_configured
        (codes "The server has no asynchronous replication channels") [] channels
      ∷ []

module _ (quote : Str → Str) where
  unfoldable pub running_summary : ChannelStatus → Option Str
  running_summary c =
      if c.io_running == running_yes && c.sql_running == running_yes
      then none
      else some (
          codes "Replication channel "
          ++ quote c.channel_name
          ++ codes " is not running: receiver "
          ++ c.io_running
          ++ codes ", applier "
          ++ c.sql_running)

  unfoldable pub check_replication_channels_running :
      List ChannelStatus → List (Finding ChannelStatus)
  unfolding each_finding running_summary
  check_replication_channels_running channels =
      each_finding id_replication_channels_running running_summary (λ c. c.channel_name ∷ [])
        channels

  -- The cases of a lag that is known; `none` is the default.
  unfoldable pub known_lag_summary : ℤ → Str → ℤ → Option Str
  known_lag_summary max_seconds name lag =
      if is_negative max_seconds
      then some (
          codes "Replication channel "
          ++ quote name
          ++ codes " reports Seconds_Behind_Source "
          ++ format_int lag
          ++ codes " against the negative bound "
          ++ format_int max_seconds
          ++ codes ", which no reported estimate can satisfy")
      else if int_above lag max_seconds
      then some (
          codes "Replication channel "
          ++ quote name
          ++ codes " reports Seconds_Behind_Source "
          ++ format_int lag
          ++ codes ", above the bound "
          ++ format_int max_seconds)
      else none

  unfoldable pub lag_summary : ℤ → ChannelStatus → Option Str
  unfolding known_lag_summary
  lag_summary max_seconds c = elim c.seconds_behind_source [
    | none ↦ some (
        codes "Replication channel "
        ++ quote c.channel_name
        ++ codes " reports an unknown Seconds_Behind_Source")
    | some lag ↦ known_lag_summary max_seconds c.channel_name lag
  ]

  unfoldable pub check_seconds_behind_source_within :
      List ChannelStatus → ℤ → List (Finding ChannelStatus)
  unfolding each_finding lag_summary
  check_seconds_behind_source_within channels max_seconds =
      each_finding id_seconds_behind_source_within (lag_summary max_seconds)
        (λ c. c.channel_name ∷ []) channels

  unfoldable pub check_gtid_mode_on : GtidStatus → List (Finding GtidStatus)
  check_gtid_mode_on status =
      if status.mode == gtid_mode_on
      then []
      else finding id_gtid_mode_on
          (codes "GTID mode is " ++ quote status.mode ++ codes " rather than ON") [] status
        ∷ []

  -- The loop: `none` is the early return at an own row that is ONLINE.
  unfoldable pub local_summary : Str → List GroupMember → Option Str
  local_summary summary [] = some summary
  local_summary summary (m ∷ members) =
      let passed = local_summary summary members in
      let replaced =
        local_summary
          (codes "This server's own member state is "
            ++ quote m.state
            ++ codes " rather than ONLINE")
          members in
      if not m.self then passed else if m.state == member_online then none else replaced

  unfoldable pub check_group_replication_local_member_online :
      List GroupMember → List (Finding (List GroupMember))
  unfolding local_summary
  check_group_replication_local_member_online members = elim (local_summary no_own_row members) [
    | none ↦ []
    | some s ↦ finding id_group_replication_local_member_online s [] members ∷ []
  ]

  unfoldable pub member_summary : GroupMember → Option Str
  member_summary m =
      if m.state == member_online
      then none
      else some (
          codes "Group member "
          ++ quote m.member_id
          ++ codes " on host "
          ++ quote m.host
          ++ codes " is "
          ++ quote m.state
          ++ codes " rather than ONLINE")

  unfoldable pub check_group_replication_members_online :
      List GroupMember → List (Finding GroupMember)
  unfolding each_finding member_summary
  check_group_replication_members_online members =
      each_finding id_group_replication_members_online member_summary (λ _. []) members

  -- The switch of queueFindings.
  unfoldable pub queue_summary : ℤ → Str → (GroupMemberStats → ℕ) → GroupMemberStats → Option Str
  queue_summary max_transactions queue pick s =
      let reports =
        codes "Group member "
        ++ quote s.member_id
        ++ codes " reports a "
        ++ queue
        ++ codes " queue of "
        ++ itoa (pick s) in
      elim max_transactions [
        | negsuc n ↦ some (
            reports
            ++ codes " against the negative bound "
            ++ format_int (negsuc n)
            ++ codes ", which no queue can satisfy")
        | pos n ↦
            if ltb n (pick s) then some (reports ++ codes ", above the bound " ++ itoa n) else none
      ]

  unfoldable pub queue_findings :
      List GroupMemberStats
      → ℤ
      → Str
      → Str
      → (GroupMemberStats → ℕ)
      → List (Finding GroupMemberStats)
  unfolding each_finding queue_summary
  queue_findings stats max_transactions id queue pick =
      each_finding id (queue_summary max_transactions queue pick) (λ _. []) stats

  unfoldable pub check_group_replication_applier_queue_within :
      List GroupMemberStats → ℤ → List (Finding GroupMemberStats)
  unfolding queue_findings
  check_group_replication_applier_queue_within stats max_transactions =
      queue_findings stats max_transactions id_group_replication_applier_queue_within
        (codes "applier") (λ s. s.transactions_remote_in_applier_queue)

  unfoldable pub check_group_replication_certifier_queue_within :
      List GroupMemberStats → ℤ → List (Finding GroupMemberStats)
  unfolding queue_findings
  check_group_replication_certifier_queue_within stats max_transactions =
      queue_findings stats max_transactions id_group_replication_certifier_queue_within
        (codes "certification") (λ s. s.transactions_in_queue)
