-- ===== src/Validations/Catalog.antt =====
-- pkg/validations/catalog.go and finding.go: the checks with their rationale, and what they report.
use dbsgomysql.Prelude.{
  Bool, List, Str, [], codes, if◌then◌else◌, list_eq, nat_eq, not, ◌++◌, ◌==◌, ◌∷◌,
}

abbrev pub id_cascade_rules : Str
id_cascade_rules = codes "CASCADE_RULES"

abbrev pub id_fk_closure : Str
id_fk_closure = codes "FK_CLOSURE"

abbrev pub id_fk_indexed : Str
id_fk_indexed = codes "FK_INDEXED"

abbrev pub id_fk_metadata_visibility : Str
id_fk_metadata_visibility = codes "FK_METADATA_VISIBILITY"

abbrev pub id_invisible_columns : Str
id_invisible_columns = codes "INVISIBLE_COLUMNS"

abbrev pub id_pk_exists : Str
id_pk_exists = codes "PK_EXISTS"

abbrev pub id_pk_integer_type : Str
id_pk_integer_type = codes "PK_INTEGER_TYPE"

abbrev pub id_pk_matches_expected : Str
id_pk_matches_expected = codes "PK_MATCHES_EXPECTED"

abbrev pub id_pk_name_case : Str
id_pk_name_case = codes "PK_NAME_CASE"

abbrev pub id_pk_single_column : Str
id_pk_single_column = codes "PK_SINGLE_COLUMN"

abbrev pub id_schema_privileges : Str
id_schema_privileges = codes "SCHEMA_PRIVILEGES"

abbrev pub id_storage_engine : Str
id_storage_engine = codes "STORAGE_ENGINE"

abbrev pub id_tables_exist : Str
id_tables_exist = codes "TABLES_EXIST"

abbrev pub id_table_privileges : Str
id_table_privileges = codes "TABLE_PRIVILEGES"

abbrev pub id_triggers_present : Str
id_triggers_present = codes "TRIGGERS_PRESENT"

abbrev pub id_trigger_metadata_visibility : Str
id_trigger_metadata_visibility = codes "TRIGGER_METADATA_VISIBILITY"

pub data CheckStatus : Type 0 where
  unset implemented deferred : CheckStatus

pub record CheckInfo : Type 0 where
  pub id : Str
  pub rationale : Str
  pub status : CheckStatus
  pub phase : Str

abbrev no_check : CheckInfo
no_check = record { id = []; rationale = []; status = unset; phase = [] }

abbrev entry : Str → Str → Str → CheckInfo
entry id rationale phase = record {
  id = id;
  rationale = rationale;
  status = implemented;
  phase = phase;
}

unfoldable pub check_info : Str → CheckInfo
check_info id =
    if id == id_cascade_rules
    then entry id (codes "ON DELETE CASCADE removes rows from tables the caller never named.")
        (codes "1c")
    else if id == id_fk_closure
    then entry id
        (codes
          "A foreign key pointing into the table set from outside it can block or cascade a delete the caller did not account for.")
        (codes "1c")
    else if id == id_fk_indexed
    then entry id
        (codes
          "MySQL guarantees a leftmost-prefix child index for every foreign key and refuses to drop it, so a finding means the fact did not come from a conforming InnoDB source.")
        (codes "1c")
    else if id == id_fk_metadata_visibility
    then entry id
        (codes
          "Without a successful PROCESS-gated InnoDB metadata query, the visibility-filtered fallback cannot prove incoming-key discovery complete.")
        (codes "1c")
    else if id == id_invisible_columns
    then entry id
        (codes
          "SELECT * omits invisible columns, so their values are dropped from any copy and from any verification hash, and then deleted from the source.")
        (codes "1b")
    else if id == id_pk_exists
    then entry id
        (codes
          "Without a primary key no column provably identifies one row, so any delete by key over-matches.")
        (codes "1b")
    else if id == id_pk_integer_type
    then entry id
        (codes
          "Checkpointing advances an ordered numeric high-water mark, which a UUID, varchar, decimal, or datetime key cannot be resumed from.")
        (codes "1b")
    else if id == id_pk_matches_expected
    then entry id
        (codes
          "A column that is not the primary key is probably not unique, so deleting by it over-matches.")
        (codes "1b")
    else if id == id_pk_name_case
    then entry id
        (codes
          "information_schema.COLUMNS.COLUMN_NAME collates case-insensitively, so a configured log_id silently finds an actual LOG_ID.")
        (codes "1b")
    else if id == id_pk_single_column
    then entry id
        (codes
          "A composite key cannot be filtered by one column without over-matching rows outside the intended set.")
        (codes "1b")
    else if id == id_schema_privileges
    then entry id
        (codes
          "Schema-level work fails partway through if the account lacks the privilege, after the operation has already begun.")
        (codes "1c")
    else if id == id_storage_engine
    then entry id
        (codes
          "Non-transactional engines cannot provide the integrity a copy-verify-delete cycle depends on; MyISAM discards the transaction silently.")
        (codes "1b")
    else if id == id_tables_exist
    then entry id
        (codes
          "A configured table that does not exist fails at execution time, after the operation has already begun.")
        (codes "1b")
    else if id == id_table_privileges
    then entry id
        (codes
          "An operation that discovers a missing table privilege at execution time fails after it has already begun.")
        (codes "1c")
    else if id == id_triggers_present
    then entry id
        (codes
          "A trigger's logic is invisible to the caller; one that touches other tables produces effects outside the operation's model and outside its verification.")
        (codes "1b")
    else if id == id_trigger_metadata_visibility
    then entry id
        (codes
          "Without an established TRIGGER privilege on a table, its visibility-filtered trigger list cannot show that no triggers exist, so trigger logic can run outside the caller's operation model.")
        (codes "v1.4.0")
    else no_check

unfoldable pub catalog : List CheckInfo
unfolding check_info
catalog =
    check_info id_cascade_rules
    ∷ check_info id_fk_closure
    ∷ check_info id_fk_indexed
    ∷ check_info id_fk_metadata_visibility
    ∷ check_info id_invisible_columns
    ∷ check_info id_pk_exists
    ∷ check_info id_pk_integer_type
    ∷ check_info id_pk_matches_expected
    ∷ check_info id_pk_name_case
    ∷ check_info id_pk_single_column
    ∷ check_info id_schema_privileges
    ∷ check_info id_storage_engine
    ∷ check_info id_tables_exist
    ∷ check_info id_table_privileges
    ∷ check_info id_triggers_present
    ∷ check_info id_trigger_metadata_visibility
    ∷ []

-- The entry, and whether the check exists.
unfoldable pub lookup_check : Str → CheckInfo × Bool
unfolding check_info
lookup_check id = let entry = check_info id in (entry, not (entry.id == []))

-- `Facts` is of any type; each check has its own.
pub record Finding (F : Type 0) : Type 0 where
  pub check : Str
  pub message : Str
  pub tables : List Str
  pub facts : F

unfoldable pub finding_message : Str → Str → Str
unfolding lookup_check
finding_message id summary =
    let (info, found) = lookup_check id in
    if not found then summary else summary ++ codes ". " ++ info.rationale
