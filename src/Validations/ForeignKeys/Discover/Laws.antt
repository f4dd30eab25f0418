-- ===== src/Validations/ForeignKeys/Discover/Laws.antt =====
-- pkg/validations/foreign_keys.go: what a result of ForeignKeys says of the two sources.
use dbsgomysql.Prelude.{List, Str, false, is_empty, list_eq, nat_eq, none, some, true, ◌≡◌, ◌≢◌}
use dbsgomysql.Golang.Sql.{ok, fail}
use dbsgomysql.Validations.Inspector.{Inspector}
use dbsgomysql.Validations.ForeignKeys.Types.{
  visibility_unknown, visibility_complete, visibility_unconfirmed, downgrade_none,
  MetadataVisibility, ForeignKey, FkSelector, SourceError, ForeignKeyResult, zero_result,
}
use dbsgomysql.Validations.ForeignKeys.Select.{select_foreign_keys}
use dbsgomysql.Validations.ForeignKeys.Discover.{
  downgrade_none, FkServer, foreign_keys_innodb, foreign_keys_standard, downgrade_reason_of,
}

-- Each visibility with the reason and the error that belong to it, and with what the sources did.
abbrev pub Coherent : FkServer → Str → FkSelector → ForeignKeyResult → MetadataVisibility → Type 0
Coherent server schema sel r visibility_unknown = (r ≡ zero_result) × (is_empty sel.tables ≡ true)
Coherent server schema sel r visibility_complete =
    (r.downgrade_reason ≡ downgrade_none)
    × (r.primary_error ≡ none)
    × (is_empty sel.tables ≡ false)
    × ((keys : List ForeignKey) × (foreign_keys_innodb server schema sel ≡ ok keys)
        × (r.keys ≡ select_foreign_keys keys schema sel))
Coherent server schema sel r visibility_unconfirmed =
    (e : SourceError) × (foreign_keys_innodb server schema sel ≡ fail e)
    × (r.primary_error ≡ some e)
    × (r.downgrade_reason ≡ downgrade_reason_of e)
    × (r.downgrade_reason ≢ downgrade_none)
    × (is_empty sel.tables ≡ false)
    × ((keys : List ForeignKey) × (foreign_keys_standard server schema sel ≡ ok keys)
        × (r.keys ≡ select_foreign_keys keys schema sel))
