-- ===== src/Validations/ForeignKeys/Checks.antt =====
-- pkg/validations/checks_foreign_keys.go
pub mod Closure
use dbsgomysql.Prelude.{
  Bool, List, Str, [], codes, contains, false, if◌then◌else◌, is_empty, list_eq, nat_eq, not, true,
  ◌&&◌, ◌++◌, ◌==◌, ◌∷◌,
}
use dbsgomysql.Validations.Catalog.{
  Finding, finding_message, id_cascade_rules, id_fk_closure, id_fk_indexed,
  id_fk_metadata_visibility,
}
use dbsgomysql.Validations.ForeignKeys.Types.{
  MetadataVisibility, visibility_complete, ForeignKey, ForeignKeyResult,
}
use dbsgomysql.Validations.ForeignKeys.Registry.{cascade_rule}

-- What the findings of these checks carry.
pub data FkFacts : Type 0 where
  edge : ForeignKey → FkFacts
  state : MetadataVisibility → FkFacts

unfoldable pub foreign_key_finding : Str → Str → ForeignKey → Finding FkFacts
foreign_key_finding id summary key = record {
  check = id;
  message = finding_message id summary;
  tables = key.child_table ∷ [];
  facts = edge key;
}

abbrev pub is_complete : MetadataVisibility → Bool
is_complete visibility_complete = true
is_complete _ = false

-- The loop of the checks: a finding for each key that is not skipped.
unfoldable pub edge_findings :
    (ForeignKey → Bool) → Str → Str → List ForeignKey → List (Finding FkFacts)
unfolding foreign_key_finding
edge_findings skip id summary [] = []
edge_findings skip id summary (key ∷ keys) =
    let later = edge_findings skip id summary keys in
    if skip key then later else foreign_key_finding id summary key ∷ later

unfoldable pub check_fk_indexed : List ForeignKey → List (Finding FkFacts)
unfolding edge_findings
check_fk_indexed fks =
    edge_findings (λ key. key.indexed) id_fk_indexed
      (codes "foreign key lacks the supporting leftmost-prefix child index MySQL guarantees") fks

-- The three `continue`s of CheckFKClosure.
abbrev pub closed_at : Str → List Str → ForeignKey → Bool
closed_at schema tables key =
    if not (key.parent_schema == schema)
    then true
    else if not (contains key.parent_table tables)
    then true
    else key.child_schema == schema && contains key.child_table tables

abbrev pub external_child : Str
external_child = codes "foreign key points into the target set from an external child"

abbrev pub unconfirmed_closure : MetadataVisibility → List Str → Finding FkFacts
unconfirmed_closure visibility tables = record {
  check = id_fk_closure;
  message =
      finding_message id_fk_closure
        (codes "foreign-key closure is unconfirmed because discovery was not complete");
  tables = tables;
  facts = state visibility;
}

unfoldable pub check_fk_closure : ForeignKeyResult → Str → List Str → List (Finding FkFacts)
unfolding edge_findings
check_fk_closure result schema tables =
    if is_empty tables
    then []
    else edge_findings (closed_at schema tables) id_fk_closure external_child result.keys
      ++ (if is_complete result.visibility
          then []
          else unconfirmed_closure result.visibility tables ∷ [])

unfoldable pub check_fk_metadata_visibility : MetadataVisibility → List (Finding FkFacts)
check_fk_metadata_visibility vis =
    if is_complete vis
    then []
    else record {
      check = id_fk_metadata_visibility;
      message =
          finding_message id_fk_metadata_visibility
            (codes "foreign-key metadata completeness is not established");
      tables = [];
      facts = state vis;
    }
      ∷ []

unfoldable pub check_cascade_rules : List ForeignKey → List (Finding FkFacts)
unfolding edge_findings
check_cascade_rules fks =
    edge_findings (λ key. not (key.on_delete == cascade_rule)) id_cascade_rules
      (codes "foreign key applies ON DELETE CASCADE") fks
