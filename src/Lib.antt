-- ===== src/Lib.antt =====
-- Verification of ant-db, a relational database with multi-version transactions that speaks the
-- PostgreSQL wire protocol (Rust, src/).
--
-- The program. A connection (src/backend/core/pg_wire.rs) runs statements inside a transaction, its
-- own or one made for the statement. The database (src/backend/core/database.rs) holds the tables by
-- name and the one snapshot that all transactions share (src/backend/core/transaction.rs). A table
-- (src/backend/core/table.rs) keeps rows on pages, evicts pages to a page file under a memory limit,
-- and keeps columns with constraints and indexes (src/backend/core/column.rs). Rows and columns are
-- lists of versions, each with the transactions that created and deleted it
-- (src/backend/core/row.rs). Filters (src/backend/core/search.rs), joins
-- (src/backend/core/query.rs), the values of INSERT and UPDATE (src/backend/core/plan/dml.rs) and
-- the text format of COPY (src/backend/core/copy.rs) work on the entries of rows.
--
-- The files.
--   Common, Common/*   lists, maps in ascending order of their keys, Boolean tests, integers
--   Errors             src/backend/errors.rs: the error enum, and Result with `?` as >>=
--   Txn                transaction.rs: snapshots, `is_visible`; database.rs: what begin, commit and
--                      rollback do to the snapshot. Txn/Visibility says what counts as committed;
--                      Txn/Lifecycle has begin, commit and rollback as steps; Txn/Draining ends
--                      them all; Txn/Restart has load_from_snapshot
--   Versions           the loops of row.rs and column.rs over versions, written once: `remove_latest`
--                      is remove, `replace_latest` is update, `rollback` is rollback_transaction,
--                      `prune_versions` is prune. Versions/Isolation, /Undo, /LostDelete, /Vacuum and
--                      /Changes have their theorems
--   Row, Row/Entry     row.rs: Row and InternalRow; DataBaseDataEntry, its order and its index key
--   Column, Column/*   column.rs: InternalColumn and Column with constraints (Constraints), index entries
--                      (Entries), schema_validation (Validate) and index rollback (Rollback)
--   Pages, Pages/*     table.rs: Page (Defs), eviction and residency (Pages, Eviction), rows by id (Rows),
--                      insertion (Insertion, with its lemmas in Insertion/Registration, /Store and /Orphan)
--   Pages/Compaction, Pages/Compaction/*
--                      table.rs: compact, materialize_all_pages, flush_all_pages. Placing has the pages
--                      and locations that rows are packed into, Packed the rows that go in, Repacked what
--                      a compaction leaves at a row's id
--   PageStore, PageStore/*
--                      page_store.rs: bytes of a file (File), its header (Header), the store (Store), the
--                      compact writers (Compact). Laws has the loop that writes pages, Durability what a
--                      restart finds, Merging and Rewriting the two ways of writing, History both in turn,
--                      Faults the failures, Contract the page file as the table sees it
--   Copy, Copy/*       copy.rs: fields, values and lines of the text format; Payload has the whole
--                      payload, Payload/Reading its round trip
--   Database           database.rs: tables by name, transactions over all tables
--   Connection         pg_wire.rs: the transactions of connections, execute_transactional
--   Dml                plan/dml.rs: coercion and additive assignments
--   Search             search.rs: filter expressions and their evaluation
--   Table, Table/*     table.rs: insert_row and update_row with their validation (Table; Validity says what
--                      a valid row satisfies, Writes what the two do), the walk over visible rows and the
--                      lookups by value (Scan, Walk), and with them the foreign key check of database.rs
--                      (Lookup). Search is Table::search: its loops, sort and results; Search/Asked is the
--                      answer that a request asks for, Search/Reference the same by the functions of
--                      the search, Search/Reading says what its reads find,
--                      Search/Sequential compares the two. Queried is the table as a join sees it. Vacuum
--                      is Table::prune and the vacuum of database.rs; Vacuum/Unmoved says what the
--                      pruning of indexes leaves of the pages, Vacuum/Kept and Vacuum/Reads say
--                      which rows and versions it leaves. Indexes is the definition of columns, from
--                      create_column to drop_column; Indexes/Entered and Indexes/Building say what a built
--                      index holds, Indexes/Backed which columns have one, Indexes/Creation what CREATE
--                      INDEX and DROP INDEX do
--   Query, Query/*     query.rs: joined rows and the values a filter sees (Rows), joins (Joins), projection,
--                      order and limits (Results), the whole query (Query). Extension says what rows a join
--                      makes, Context which values qualified names have, Probe compares the index probe with
--                      the nested loop, Names has names without a table, Sorting has ORDER BY
--   Planner, Planner/* plan/optimize.rs: choose_filter_access_path, with column_is_indexed and
--                      get_visible_column_map of table.rs
--   Execute, Execute/* plan/execute.rs: `execute` and its four plans, with PhysicalPlan of plan/physical.rs and
--                      single_table of search.rs; Deletion says what DELETE leaves
--   ShowTables, ShowTables/*
--                      pg_wire.rs: sql_like_matches and show_tables_matches; Patterns compares with LIKE
--   Tests              runs on small data
--
-- Conventions. One call runs at a time: a lock is granted at once and never poisoned, so the error
-- returns for lock failures do not occur, except where a call waits for itself: update_row holds the
-- write lock of its row's page while the validation reads candidate rows, and a candidate on that page
-- ends the update with the error `self_lock`, where the program blocks or panics. The foreign key lookup
-- is a parameter of the validation, taken to come back. State is passed explicitly; a method that changes state
-- gives the new state, with its result or error. A BTreeMap is a list of pairs in ascending order of
-- the keys; a HashMap or a HashSet is one too where its order is not read. Machine integers are
-- natural numbers or integers of the model, with their range or wrap-around written out
-- (`fetch_add`, `fetch_sub`, `saturating_add`, `fits`); ids of transactions and tables do not wrap.
-- Parameters stand for what is not in the repository: hash functions and the order of floats
-- (`Primitives`), number texts (`Numerals`), serialized sizes (`Sizes`), bincode (`Codec`, with its
-- round trip as `IsCodec`), UTF-8 (`Utf8`, with `IsUtf8`), and the two lookups of the validation. In
-- the page store the operating system carries out every write; what fails there is bincode, a read behind the end of a file, and
-- a file without a header. A query (Query) sees a table as the rows that are visible to its
-- transaction, with the two lookups that a join asks of it (`VisibleTable`). The reads of a row's
-- validation and of a search's sort do not show in the residency of pages;
-- where the sort panics on an unreadable row, the model gives an error. A flush of all pages writes
-- the page map and cannot fail in the model. The table's pages (Pages) see the page file as
-- the map that PageStore keeps.
--
-- Fuel. The eviction loop runs on as many rounds as there are resident pages and one more: a round
-- takes one page out. The splitting of a COPY line runs on the length of the line: a round takes at
-- least one character.
--
-- Not modelled. The wire messages, SQL parsing and binding, which work on the syntax tree of
-- sqlparser, the sessions of COPY over the wire, the snapshot file and what a restart restores of a
-- table from it, configuration, logging and start-up.
pub mod Common
pub mod Errors
pub mod Txn
pub mod Versions
pub mod Row
pub mod Column
pub mod Pages
pub mod Copy
pub mod Database
pub mod Connection
pub mod Dml
pub mod Search
pub mod Planner
pub mod Table
pub mod PageStore
pub mod Query
pub mod Execute
pub mod ShowTables
mod Tests
