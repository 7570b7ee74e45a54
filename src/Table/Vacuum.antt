-- ===== src/Table/Vacuum.antt =====
-- src/backend/core/table.rs, `prune` and what it calls, and the vacuum of src/backend/core/database.rs
-- over all tables.
pub mod Unmoved
pub mod Kept
pub mod Reads
use ant_db.Common.{
  Bool, false, Option, none, some, List, [], ◌∷◌, if◌then◌else◌, NatMap, lookup, map_values, any,
}
use ant_db.Errors.{Result, ok, err}
use ant_db.Txn.{TransactionId}
use ant_db.Versions.{is_retained}
use ant_db.Row.Entry.{RowId}
use ant_db.Row.{Row, prune_row}
use ant_db.Column.{Column, prune_column}
use ant_db.Pages.Defs.{Page, Sizes}
use ant_db.Pages.{Space}
use ant_db.Pages.Rows.{page_for_row}
use ant_db.Pages.Compaction.{has_no_version, materialize_all_pages, compact, flush_all_pages}
use ant_db.Database.{Table, TableMap, Database}

-- `rows.retain(…)` of `prune_versions`, whose closure prunes the row
unfoldable pub prune_rows : TransactionId → NatMap Row → NatMap Row
unfolding prune_row
prune_rows oldest [] = []
prune_rows oldest ((row_id, row) ∷ rows) =
    let rest = prune_rows oldest rows in
    let pruned = prune_row oldest row in
    if has_no_version pruned then rest else (row_id, pruned) ∷ rest

abbrev pub prune_page : TransactionId → Page → Page
prune_page oldest page = record page { rows = prune_rows oldest page.rows }

-- The loop of `prune_versions` over the pages in memory
unfoldable pub prune_space : TransactionId → Space → Space
unfolding prune_rows
prune_space oldest t = record t { row_space = map_values (prune_page oldest) t.row_space }

module _ (sizes : Sizes) where
  -- `row_is_alive_for_prune`, with the pages that it may bring into memory and evict
  unfoldable pub row_is_alive_for_prune : TransactionId → RowId → Space → Bool × Space
  unfolding page_for_row
  row_is_alive_for_prune oldest row_id t = elim (page_for_row sizes row_id t) [
    | err e ↦ (false, t)
    | ok (id, page, u) ↦ elim (lookup row_id page.rows) [
      | none ↦ (false, u)
      | some row ↦ (
        any (λ version. is_retained oldest version.transaction_header.deleted_by) row.versions,
        u,
      )
    ]
  ]

  -- The loop of `prune_versions` over the columns
  unfoldable pub prune_columns : TransactionId → NatMap Column → Space → NatMap Column × Space
  unfolding row_is_alive_for_prune prune_column
  prune_columns oldest [] t = ([], t)
  prune_columns oldest ((id, c) ∷ columns) t =
      let (c', u) = prune_column (row_is_alive_for_prune oldest) oldest c t in
      let (columns', v) = prune_columns oldest columns u in ((id, c') ∷ columns', v)

  -- `Table::prune_versions`
  unfoldable pub prune_table_versions : TransactionId → Table → Table
  unfolding prune_space prune_columns
  prune_table_versions oldest t =
      let (columns, u) = prune_columns oldest t.columns (prune_space oldest t.space) in
      record t { space = u; columns = columns }

  -- `Table::prune`; where the pages cannot be loaded, at most their residency has changed.
  unfoldable pub vacuum_table : TransactionId → Table → Table
  unfolding materialize_all_pages prune_table_versions compact flush_all_pages
  vacuum_table oldest t = elim (materialize_all_pages sizes t.space) [
    | err e ↦ t
    | ok u ↦
        let pruned = prune_table_versions oldest (record t { space = u }) in
        record pruned { space = flush_all_pages (compact sizes pruned.space) }
  ]

  abbrev pub vacuum_tables : TransactionId → TableMap → TableMap
  unfolding vacuum_table
  vacuum_tables oldest [] = []
  vacuum_tables oldest ((name, t) ∷ tables) =
      (name, vacuum_table oldest t) ∷ vacuum_tables oldest tables

  -- `Database::remove_stray_tables`
  unfoldable pub remove_stray_tables : Database → Database
  remove_stray_tables db = record db {
    tables = vacuum_tables db.transactions.snapshot.smallest_active_transaction_id db.tables;
  }

  abbrev pub flush_tables : TableMap → TableMap
  unfolding flush_all_pages
  flush_tables [] = []
  flush_tables ((name, t) ∷ tables) =
      (name, record t { space = flush_all_pages t.space }) ∷ flush_tables tables

  -- `Database::auto_vacuum`
  unfoldable pub auto_vacuum : Database → Database
  unfolding remove_stray_tables
  auto_vacuum db =
      let vacuumed = remove_stray_tables db in
      record vacuumed { tables = flush_tables vacuumed.tables }
