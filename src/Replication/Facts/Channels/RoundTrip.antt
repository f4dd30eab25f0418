-- ===== src/Replication/Facts/Channels/RoundTrip.antt =====
-- pkg/replication/replica_status.go: a result set that shows some channels is read as these.
use dbsgomysql.Prelude.{
  List, Option, Str, [], all, ap, append-nil, append_assoc, codes, contains, false, list_eq, nat_eq,
  none, refl, some, sym, true, ◌++◌, ◌<◌, ◌∙◌, ◌∷◌, ◌≡◌,
}
use dbsgomysql.Golang.Sql.{bad_row, ◌>>=◌, fail≢ok, Result, ok, Rows, end, row}
use dbsgomysql.Golang.Strconv.{pos, ℤ}
use dbsgomysql.Golang.Strconv.Laws.{IsInt64}
use dbsgomysql.Replication.Decode.{
  int64, uint64, float64, boolean, other_type, DecodeError, DriverValue, null, text, bytes,
  Platform, decode_string, decode_int, decode_int64, decode_null_int64, decode_uint16,
}
use dbsgomysql.Replication.Decode.Laws.{
  Delivers, IsInt, decode_int64-Delivers, decode_uint16-Delivers, decode_int_iff,
}
use dbsgomysql.Replication.Rows.{closed, decode_column, read_rows, parse_rows, query_fact}
use dbsgomysql.Replication.Rows.Laws.{cell, index_of, decode_column-cell, index_columns-names}
use dbsgomysql.Replication.Facts.Channels.{
  ChannelStatus, op_replica_status, promised_replica_status_columns, decode_channel,
  decode_channel_status, parse_replica_status, replica_status,
}

-- Text comes as string or []byte, NULL for an unknown lag only.
abbrev pub IsText : Str → DriverValue → Type 0
IsText s (text t) = t ≡ s
IsText s (bytes t) = t ≡ s
IsText s _ = ⊥

abbrev pub IsLag : Option ℤ → DriverValue → Type 0
IsLag none v = v ≡ null
IsLag (some z) v = Delivers z v × IsInt64 z

-- The column of the name has a value that satisfies `P`.
abbrev pub Shows : List Str → List DriverValue → Str → (DriverValue → Type 0) → Type 0
Shows names values column P = (v : DriverValue) × (cell column names values ≡ some v) × P v

decode_string-IsText : (s : Str) (v : DriverValue) → IsText s v → decode_string v ≡ ok s
unfolding decode_string
decode_string-IsText s (text t) e = ap ok e
decode_string-IsText s (bytes t) e = ap ok e
decode_string-IsText s null e = elim e [ ]
decode_string-IsText s (int64 _) e = elim e [ ]
decode_string-IsText s (uint64 _) e = elim e [ ]
decode_string-IsText s (float64 _) e = elim e [ ]
decode_string-IsText s (boolean _) e = elim e [ ]
decode_string-IsText s (other_type _) e = elim e [ ]

-- A value that decodes as an integer is not NULL.
decode_null_int64-decode_int64 :
    (z : ℤ) (v : DriverValue) → decode_int64 v ≡ ok z → decode_null_int64 v ≡ ok (some z)
unfolding decode_null_int64
decode_null_int64-decode_int64 z null e = elim (fail≢ok e) [ ]
decode_null_int64-decode_int64 z (text _) e = ap (λ r. r >>= λ n. ok (some n)) e
decode_null_int64-decode_int64 z (bytes _) e = ap (λ r. r >>= λ n. ok (some n)) e
decode_null_int64-decode_int64 z (int64 _) e = ap (λ r. r >>= λ n. ok (some n)) e
decode_null_int64-decode_int64 z (uint64 _) e = ap (λ r. r >>= λ n. ok (some n)) e
decode_null_int64-decode_int64 z (float64 _) e = ap (λ r. r >>= λ n. ok (some n)) e
decode_null_int64-decode_int64 z (boolean _) e = ap (λ r. r >>= λ n. ok (some n)) e
decode_null_int64-decode_int64 z (other_type _) e = ap (λ r. r >>= λ n. ok (some n)) e

decode_null_int64-IsLag :
    (lag : Option ℤ) (v : DriverValue) → IsLag lag v → decode_null_int64 v ≡ ok lag
unfolding decode_null_int64
decode_null_int64-IsLag none v e = ap decode_null_int64 e
decode_null_int64-IsLag (some z) v (d, b) =
    decode_null_int64-decode_int64 z v (decode_int64-Delivers z v d b)

shown :
    {T : Type 0} {P : DriverValue → Type 0} (channel : Str) (names : List Str)
    (values : List DriverValue) (column : Str) (decode : DriverValue → Result DecodeError T) {t : T}
    → ((v : DriverValue) → P v → decode v ≡ ok t)
    → Shows names values column P
    → decode_column
        (record {
          op = op_replica_status;
          channel = channel;
          index = index_of names;
          values = values;
        })
        column
        decode
      ≡ ok t
shown channel names values column decode f (v, e, p) =
    decode_column-cell op_replica_status channel column names values v decode _ e (f v p)

module _ (platform : Platform) where
  -- A row of the result set shows the channel, in whatever order the columns stand.
  pub record Reports (names : List Str) (values : List DriverValue) (c : ChannelStatus)
      : Type 0 where
    pub channel_name : Shows names values (codes "Channel_Name") (IsText c.channel_name)
    pub io_running : Shows names values (codes "Replica_IO_Running") (IsText c.io_running)
    pub sql_running : Shows names values (codes "Replica_SQL_Running") (IsText c.sql_running)
    pub seconds : Shows names values (codes "Seconds_Behind_Source") (IsLag c.seconds_behind_source)
    pub io_errno :
        Shows names values (codes "Last_IO_Errno") (λ v.
          Delivers c.last_io_errno v × IsInt64 c.last_io_errno × IsInt platform c.last_io_errno)
    pub io_error : Shows names values (codes "Last_IO_Error") (IsText c.last_io_error)
    pub sql_errno : Shows names values (codes "Last_SQL_Errno") (λ v.
        Delivers c.last_sql_errno v × IsInt64 c.last_sql_errno × IsInt platform c.last_sql_errno)
    pub sql_error : Shows names values (codes "Last_SQL_Error") (IsText c.last_sql_error)
    pub retrieved : Shows names values (codes "Retrieved_Gtid_Set") (IsText c.retrieved_gtid_set)
    pub executed : Shows names values (codes "Executed_Gtid_Set") (IsText c.executed_gtid_set)
    pub host : Shows names values (codes "Source_Host") (IsText c.source_host)
    pub port :
        Shows names values
          (codes "Source_Port")
          (λ v. Delivers (pos c.source_port) v × (c.source_port < 65536))

  decode_int-errno :
      (z : ℤ) (v : DriverValue)
      → Delivers z v × IsInt64 z × IsInt platform z
      → decode_int platform v ≡ ok z
  decode_int-errno z v (d, b, i) =
      (decode_int_iff platform v z).1 (decode_int64-Delivers z v d b, i)

  decode_channel_status-Reports :
      (names : List Str) (values : List DriverValue) (c : ChannelStatus)
      → Reports names values c
      → decode_channel_status platform (index_of names) values ≡ ok c
  unfolding decode_channel_status decode_channel
  decode_channel_status-Reports names values c r =
      rw
        (
          shown [] names values (codes "Channel_Name") decode_string
              (decode_string-IsText c.channel_name) r.channel_name,
          shown c.channel_name names values (codes "Replica_IO_Running") decode_string
              (decode_string-IsText c.io_running) r.io_running,
          shown c.channel_name names values (codes "Replica_SQL_Running") decode_string
              (decode_string-IsText c.sql_running) r.sql_running,
          shown c.channel_name names values (codes "Seconds_Behind_Source") decode_null_int64
              (decode_null_int64-IsLag c.seconds_behind_source) r.seconds,
          shown c.channel_name names values (codes "Last_IO_Errno") (decode_int platform)
              (decode_int-errno c.last_io_errno) r.io_errno,
          shown c.channel_name names values (codes "Last_IO_Error") decode_string
              (decode_string-IsText c.last_io_error) r.io_error,
          shown c.channel_name names values (codes "Last_SQL_Errno") (decode_int platform)
              (decode_int-errno c.last_sql_errno) r.sql_errno,
          shown c.channel_name names values (codes "Last_SQL_Error") decode_string
              (decode_string-IsText c.last_sql_error) r.sql_error,
          shown c.channel_name names values (codes "Retrieved_Gtid_Set") decode_string
              (decode_string-IsText c.retrieved_gtid_set) r.retrieved,
          shown c.channel_name names values (codes "Executed_Gtid_Set") decode_string
              (decode_string-IsText c.executed_gtid_set) r.executed,
          shown c.channel_name names values (codes "Source_Host") decode_string
              (decode_string-IsText c.source_host) r.host,
          shown c.channel_name names values (codes "Source_Port") decode_uint16
              (λ v p. decode_uint16-Delivers c.source_port v p.0 p.1) r.port,
          decode_channel_status,
          decode_channel,
        )
        refl

  -- The rows show the channels, one by one, and end without an error.
  abbrev pub Lists : List Str → Rows (List DriverValue) → List ChannelStatus → Type 0
  Lists names (end e) [] = e ≡ none
  Lists names (row values rows) (c ∷ cs) = Reports names values c × Lists names rows cs
  Lists names _ _ = ⊥

  Lists-read_rows :
      (names : List Str) (rows : Rows (List DriverValue)) (cs before : List ChannelStatus)
      → Lists names rows cs
      → read_rows op_replica_status (decode_channel_status platform (index_of names)) before rows
        ≡ ok (before ++ cs)
  unfolding read_rows
  Lists-read_rows names (end e) [] before l = rw (l) (ap ok (sym (append-nil before)))
  Lists-read_rows names (row values rows) (c ∷ cs) before (r, l) =
      rw (decode_channel_status-Reports names values c r, read_rows)
        (Lists-read_rows names rows cs (before ++ c ∷ []) l
          ∙ ap ok (append_assoc before (c ∷ []) cs))
  Lists-read_rows names (end e) (c ∷ cs) before l = elim l [ ]
  Lists-read_rows names (row values rows) [] before l = elim l [ ]
  Lists-read_rows names (bad_row e) [] before l = elim l [ ]
  Lists-read_rows names (bad_row e) (c ∷ cs) before l = elim l [ ]

  -- A server that lists some channels is read as these channels: a result set that has every promised
  -- column, in any order and among any others, and whose rows show the channels, each number in any
  -- form that a driver may give it, gives exactly the channels, in their order.
  pub replica_status-Lists :
      (names : List Str) (rows : Rows (List DriverValue)) (cs : List ChannelStatus)
      → all (λ c. contains c names) promised_replica_status_columns ≡ true
      → Lists names rows cs
      → replica_status platform false
          (ok (record { columns = ok names; rows = rows; close_error = none }))
        ≡ ok cs
  unfolding replica_status parse_replica_status parse_rows
  replica_status-Lists names rows cs present l =
      rw
        (
          index_columns-names op_replica_status
              (record { columns = ok names; rows = rows; close_error = none })
              promised_replica_status_columns names refl present,
          Lists-read_rows names rows cs [] l,
          replica_status,
          parse_replica_status,
          parse_rows,
          query_fact,
          closed,
        )
        refl
