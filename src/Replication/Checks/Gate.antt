-- ===== src/Replication/Checks/Gate.antt =====
-- pkg/replication/checks.go and group_replication_checks.go: what the checks of a gate establish
-- together.
use dbsgomysql.Prelude.{
  All, Any, List, Option, Option-cases, Str, [], arith, codes, eq_iff, false, inl, inr, is_empty,
  list_eq, nat_eq, none, refl, some, true, ℕ, ◌++◌, ◌↔◌, ◌∷◌, ◌≡◌, ◌≤◌,
}
use dbsgomysql.Golang.Strconv.{ℤ, pos, negsuc}
use dbsgomysql.Replication.Facts.Channels.{ChannelStatus}
use dbsgomysql.Replication.Facts.Members.{GroupMember, GroupMemberStats}
use dbsgomysql.Replication.Checks.{
  no_own_row, known_lag_summary, running_yes, member_online, each_finding,
  check_replication_configured, running_summary, check_replication_channels_running, lag_summary,
  check_seconds_behind_source_within, local_summary, check_group_replication_local_member_online,
  member_summary, check_group_replication_members_online, queue_summary, queue_findings,
  check_group_replication_applier_queue_within, check_group_replication_certifier_queue_within,
}

-- The lag is at most the bound, and the bound is not negative.
abbrev pub IsWithin : ℤ → ℤ → Type 0
IsWithin (pos m) (pos n) = m ≤ n
IsWithin (negsuc m) (pos n) = Unit
IsWithin _ (negsuc n) = ⊥

-- Both threads run, and the lag is known and within the bound.
abbrev pub IsHealthy : ℤ → ChannelStatus → Type 0
IsHealthy max_seconds c =
    (c.io_running ≡ running_yes)
    × (c.sql_running ≡ running_yes)
    × ((lag : ℤ) × (c.seconds_behind_source ≡ some lag) × IsWithin lag max_seconds)

some≢none : {A : Type 0} {a : A} → ¬ Path (Option A) (some a) none
some≢none e = ground (arith, e)

cons≢nil : {A : Type 0} {x : A} {xs : List A} → ¬ Path (List A) (x ∷ xs) []
cons≢nil e = ground (arith, e)

each_finding-nil_iff :
    {F : Type 0} (id : Str) (summary : F → Option Str) (channels : F → List Str) (P : F → Type 0)
    → ((x : F) → (summary x ≡ none) ↔ P x)
    → (xs : List F) → (each_finding id summary channels xs ≡ []) ↔ All P xs
unfolding each_finding
each_finding-nil_iff id summary channels P h [] = (λ _. tt, λ _. refl)
each_finding-nil_iff id summary channels P h (x ∷ xs) =
    ground (arith, h x, each_finding-nil_iff id summary channels P h xs)

module _ (max_seconds : ℤ) where
  All-both :
      (cs : List ChannelStatus)
      → All (λ c. (c.io_running ≡ running_yes) × (c.sql_running ≡ running_yes)) cs
      → All (λ c. (lag : ℤ) × (c.seconds_behind_source ≡ some lag) × IsWithin lag max_seconds) cs
      → All (IsHealthy max_seconds) cs
  All-both [] r l = tt
  All-both (c ∷ cs) ((i, s), r) (h, l) = ((i, s, h), All-both cs r l)

  All-parts :
      (cs : List ChannelStatus)
      → All (IsHealthy max_seconds) cs
      → All (λ c. (c.io_running ≡ running_yes) × (c.sql_running ≡ running_yes)) cs
        × All (λ c. (lag : ℤ) × (c.seconds_behind_source ≡ some lag) × IsWithin lag max_seconds) cs
  All-parts [] h = (tt, tt)
  All-parts (c ∷ cs) ((i, s, l), h) = let (rs, ls) = All-parts cs h in (((i, s), rs), (l, ls))

module _ (quote : Str → Str) where
  running_summary-none_iff :
      (c : ChannelStatus)
      → (running_summary quote c ≡ none)
        ↔ ((c.io_running ≡ running_yes) × (c.sql_running ≡ running_yes))
  unfolding running_summary
  running_summary-none_iff c =
      ground (arith, eq_iff c.io_running running_yes, eq_iff c.sql_running running_yes)

  known_lag_summary-none_iff :
      (max_seconds : ℤ) (name : Str) (lag : ℤ)
      → (known_lag_summary quote max_seconds name lag ≡ none) ↔ IsWithin lag max_seconds
  unfolding known_lag_summary
  known_lag_summary-none_iff (pos n) name (pos m) = ground arith
  known_lag_summary-none_iff (pos n) name (negsuc m) = ground arith
  known_lag_summary-none_iff (negsuc n) name (pos m) = ground arith
  known_lag_summary-none_iff (negsuc n) name (negsuc m) = ground arith

  lag_summary-none_iff :
      (max_seconds : ℤ) (c : ChannelStatus)
      → (lag_summary quote max_seconds c ≡ none)
        ↔ ((lag : ℤ) × (c.seconds_behind_source ≡ some lag) × IsWithin lag max_seconds)
  unfolding lag_summary
  lag_summary-none_iff max_seconds c = (
    λ e. elim (Option-cases c.seconds_behind_source) [
      | inl unknown ↦ elim (some≢none (rw (unknown, lag_summary) at e)) [ ]
      | inr (lag, known) ↦ (
        lag,
        known,
        (known_lag_summary-none_iff max_seconds c.channel_name lag).0
            (rw (known, lag_summary) at e),
      )
    ],
    λ (lag, known, within).
        rw (known, lag_summary)
          ((known_lag_summary-none_iff max_seconds c.channel_name lag).1 within),
  )

  check_replication_channels_running-nil_iff :
      (channels : List ChannelStatus)
      → (check_replication_channels_running quote channels ≡ [])
        ↔ All (λ c. (c.io_running ≡ running_yes) × (c.sql_running ≡ running_yes)) channels
  unfolding check_replication_channels_running
  check_replication_channels_running-nil_iff channels =
      each_finding-nil_iff _ (running_summary quote) _ _ running_summary-none_iff channels

  check_seconds_behind_source_within-nil_iff :
      (channels : List ChannelStatus) (max_seconds : ℤ)
      → (check_seconds_behind_source_within quote channels max_seconds ≡ [])
        ↔ All
            (λ c. (lag : ℤ) × (c.seconds_behind_source ≡ some lag) × IsWithin lag max_seconds)
            channels
  unfolding check_seconds_behind_source_within
  check_seconds_behind_source_within-nil_iff channels max_seconds =
      each_finding-nil_iff _ (lag_summary quote max_seconds) _ _ (lag_summary-none_iff max_seconds)
        channels

  -- The checks of a gate on asynchronous replication report nothing together if and only if the
  -- snapshot has a channel, and each channel has both threads running and a known lag within the
  -- bound, which is then not negative.
  pub replication_gate_iff :
      (channels : List ChannelStatus) (max_seconds : ℤ)
      → ((check_replication_configured channels ≡ [])
          × (check_replication_channels_running quote channels ≡ [])
          × (check_seconds_behind_source_within quote channels max_seconds ≡ []))
        ↔ ((is_empty channels ≡ false) × All (IsHealthy max_seconds) channels)
  unfolding check_replication_configured
  replication_gate_iff channels max_seconds =
      let running = check_replication_channels_running-nil_iff channels in
      let lag = check_seconds_behind_source_within-nil_iff channels max_seconds in
      (
        λ (configured, r, l).
            (ground (arith, configured), All-both max_seconds channels (running.0 r) (lag.0 l)),
        λ (some_channel, h).
            let (r, l) = All-parts max_seconds channels h in
            (ground (arith, some_channel), running.1 r, lag.1 l),
      )

  local_summary-none_iff :
      (summary : Str) (members : List GroupMember)
      → (local_summary quote summary members ≡ none)
        ↔ Any (λ m. (m.self ≡ true) × (m.state ≡ member_online)) members
  unfolding local_summary
  local_summary-none_iff summary [] = ground arith
  local_summary-none_iff summary (m ∷ members) = ground (
    arith,
    eq_iff m.state member_online,
    local_summary-none_iff summary members,
    local_summary-none_iff
        (codes "This server's own member state is " ++ quote m.state ++ codes " rather than ONLINE")
        members,
  )

  member_summary-none_iff :
      (m : GroupMember) → (member_summary quote m ≡ none) ↔ (m.state ≡ member_online)
  unfolding member_summary
  member_summary-none_iff m = ground (arith, eq_iff m.state member_online)

  queue_summary-none_iff :
      (max : ℤ) (queue : Str) (pick : GroupMemberStats → ℕ) (s : GroupMemberStats)
      → (queue_summary quote max queue pick s ≡ none) ↔ IsWithin (pos (pick s)) max
  unfolding queue_summary
  queue_summary-none_iff (pos n) queue pick s = ground arith
  queue_summary-none_iff (negsuc n) queue pick s = ground arith

  queue_findings-nil_iff :
      (stats : List GroupMemberStats) (max : ℤ) (id queue : Str) (pick : GroupMemberStats → ℕ)
      → (queue_findings quote stats max id queue pick ≡ [])
        ↔ All (λ s. IsWithin (pos (pick s)) max) stats
  unfolding queue_findings
  queue_findings-nil_iff stats max id queue pick =
      each_finding-nil_iff id (queue_summary quote max queue pick) _ _
        (queue_summary-none_iff max queue pick) stats

  local_member-nil_iff :
      (members : List GroupMember)
      → (check_group_replication_local_member_online quote members ≡ [])
        ↔ Any (λ m. (m.self ≡ true) × (m.state ≡ member_online)) members
  unfolding check_group_replication_local_member_online
  local_member-nil_iff members = (
    λ e. elim (Option-cases (local_summary quote no_own_row members)) [
      | inl passed ↦ (local_summary-none_iff no_own_row members).0 passed
      | inr (s, found) ↦
          elim (cons≢nil (rw (found, check_group_replication_local_member_online) at e)) [ ]
    ],
    λ own.
        rw
          (
            (local_summary-none_iff no_own_row members).1 own,
            check_group_replication_local_member_online,
          )
          refl,
  )

  members_online-nil_iff :
      (members : List GroupMember)
      → (check_group_replication_members_online quote members ≡ [])
        ↔ All (λ m. m.state ≡ member_online) members
  unfolding check_group_replication_members_online
  members_online-nil_iff members =
      each_finding-nil_iff _ (member_summary quote) _ _ member_summary-none_iff members

  applier_queue-nil_iff :
      (stats : List GroupMemberStats) (max : ℤ)
      → (check_group_replication_applier_queue_within quote stats max ≡ [])
        ↔ All (λ s. IsWithin (pos s.transactions_remote_in_applier_queue) max) stats
  unfolding check_group_replication_applier_queue_within
  applier_queue-nil_iff stats max = queue_findings-nil_iff stats max _ _ _

  certifier_queue-nil_iff :
      (stats : List GroupMemberStats) (max : ℤ)
      → (check_group_replication_certifier_queue_within quote stats max ≡ [])
        ↔ All (λ s. IsWithin (pos s.transactions_in_queue) max) stats
  unfolding check_group_replication_certifier_queue_within
  certifier_queue-nil_iff stats max = queue_findings-nil_iff stats max _ _ _

  -- The checks of a gate on a group report nothing together if and only if some row of the view is
  -- the queried server and ONLINE, each member is ONLINE, and on each row of the counters both queues
  -- are within the bound, which is not negative if there is such a row.
  pub group_gate_iff :
      (members : List GroupMember) (stats : List GroupMemberStats) (max : ℤ)
      → ((check_group_replication_local_member_online quote members ≡ [])
          × (check_group_replication_members_online quote members ≡ [])
          × (check_group_replication_applier_queue_within quote stats max ≡ [])
          × (check_group_replication_certifier_queue_within quote stats max ≡ []))
        ↔ (Any (λ m. (m.self ≡ true) × (m.state ≡ member_online)) members
            × All (λ m. m.state ≡ member_online) members
            × All (λ s. IsWithin (pos s.transactions_remote_in_applier_queue) max) stats
            × All (λ s. IsWithin (pos s.transactions_in_queue) max) stats)
  group_gate_iff members stats max =
      let local = local_member-nil_iff members in
      let online = members_online-nil_iff members in
      let applier = applier_queue-nil_iff stats max in
      let certifier = certifier_queue-nil_iff stats max in
      (
        λ (l, o, a, c). (local.0 l, online.0 o, applier.0 a, certifier.0 c),
        λ (l, o, a, c). (local.1 l, online.1 o, applier.1 a, certifier.1 c),
      )
