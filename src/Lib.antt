-- ===== src/Lib.antt =====
-- dbsgomysql inspects a MySQL server before data are moved or deleted. An inspector reads facts from
-- information_schema; checks turn facts into findings; DiffSpecs compares the tables of two servers;
-- sqlutil quotes and validates the identifiers that go into statements. The modules, with the Go
-- files they model:
--   Sqlutil                 pkg/sqlutil/sqlutil.go: QuoteIdentifier, QuoteQualified,
--                           IsSimpleIdentifier, ValidateIdentifier
--   Golang                  what the code calls of the packages strings, strconv and utf8,
--                           and what database/sql yields (Sql)
--   Validations.Catalog     pkg/validations/catalog.go and finding.go
--   Validations.Predicate   pkg/validations/predicate.go: narrowNames, requestedObjects
--   Validations.Grants      pkg/validations/grants.go: Types has the data, Like the wildcard matcher
--                           likePatternMatches, State the answers of Global, Schema and Table, Read
--                           the reads that build the fact, Checks the files checks_privileges.go
--                           and checks_trigger_visibility.go
--   Validations.Spec        pkg/validations/spec.go: the records. Fold has foldKey and
--                           asciiFoldEqual (of checks_pk.go), Index has foldedIndex
--   Validations.Diff        pkg/validations/spec_diff.go: Matching has the loops that match two
--                           sides, Columns, Indexes and Constraints the comparisons, Tables
--                           DiffSpecs
--   Validations.Keys        pkg/validations/checks_pk.go and pk.go
--   Validations.Tables      pkg/validations/tables.go
--   Validations.Inspector   pkg/validations/inspector.go and errors.go: the arguments of a read
--   Validations.ForeignKeys pkg/validations/foreign_keys.go: Registry reads INNODB_FOREIGN, Standard
--                           the fallback, Select the answer to a selector, Discover joins them;
--                           Checks has checks_foreign_keys.go
--   Replication             pkg/replication: Decode has decode.go, Rows the readers of a result set and
--                           errors.go, Facts the files named for the facts (Channels has
--                           replica_status.go), Catalog catalog.go and finding.go, Checks checks.go
--                           and group_replication_checks.go
--
-- A function keeps its name in snake case. A string is a list of bytes, a map an association list,
-- a bit set a record of Booleans. A loop is a recursion on its list, except for the loops on fuel.
-- The fuel `like_fuel` of the wildcard matcher is more than the number of pairs of suffixes of the
-- name and the pattern, and each round moves on among these; Like.Loop shows that it is enough.
-- `itoa` has one more than the number as fuel; Golang.Strconv.Laws shows that its digits parse back.
-- `batches` has as much fuel as there are pairs, and each round takes one or more of these.
--
-- Parameters: strings.EqualFold, strings.ToLower, strings.Fields and strconv.Quote, which read Unicode
-- tables; what the server answers to each statement of pkg/replication;
-- `Server`, what MySQL answers to each statement of `Grants`; the rows of the query for primary
-- keys; and `FkServer`, the answers to the three queries on foreign keys. The hypotheses on a server
-- are `FiltersAll`, that the privilege tables can be read and that a statement with a `WHERE` clause,
-- whose names can be converted and whose parameters are at most 65535, returns in any order the
-- rows for which its condition holds, and perhaps further ones of the table; and, for foreign keys,
-- that the registry answers with the rows of valid constraints ordered by identifier, at least
-- those whose parent is among the names bound, and the standard tables with the rows of constraints
-- whose neighbours differ in schema and name. Where both sources are compared, both answer with the
-- same constraints, each in an order of its own.
--
-- Not modelled: the texts of the statements; contexts, but for what `BinaryLogStatus` asks of an
-- error; the texts of errors, which are values with a constructor for each format, but for the words
-- `Grants` adds and ObjectError; undeclared values of the enums; and the packages and files that no
-- module above names. In Validations, an `int` that MySQL fills with a position or length is a
-- natural number; Replication has signed and unsigned integers with their ranges.
-- The order in which sort.Slice puts elements that it cannot tell apart is that of the list.
pub mod Prelude
pub mod Golang
pub mod Sqlutil
pub mod Validations
pub mod Replication
