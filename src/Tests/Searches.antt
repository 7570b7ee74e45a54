-- ===== src/Tests/Searches.antt =====
-- Queries and deletions on the table of two rows, one of them on an evicted page.
use ant_db.Common.{◌≡◌, refl, none, some, [], ◌∷◌, All, length}
use ant_db.Common.Int.{pos}
use ant_db.Errors.{ok, ◌>>=◌}
use ant_db.Row.Entry.{DataBaseDataEntry, RowId}
use ant_db.Row.{get_versioned_row}
use ant_db.Planner.{ColumnMap, seq_scan, get_visible_column_map, visible_columns}
use ant_db.Pages.{Space}
use ant_db.Pages.Eviction.{IsSynced}
use ant_db.Pages.Rows.{row_at}
use ant_db.Search.{evaluate, SearchExpression, comparison, literal, less_than}
use ant_db.Query.Results.{SortBy, OrderBy}
use ant_db.Query.{SearchRequest}
use ant_db.Database.{Database, get_table, find_table}
use ant_db.Txn.Lifecycle.{start}
use ant_db.Table.Scan.{visible_rows, page_set}
use ant_db.Table.Walk.{ArePresent}
use ant_db.Table.Search.{row_passes, search, path_lookup, filter_lookup}
use ant_db.Table.Search.Reference.{matching_rows}
use ant_db.Table.Search.Asked.{IsProjection, AreOrdering, asked}
use ant_db.Table.Search.Reading.{IsFound}
use ant_db.Table.Search.Sequential.{IsAnswered, search-answer, search_count-length}
use ant_db.Execute.{execute_delete, put_back}
use ant_db.Execute.Deletion.{removed_in, execute_delete-removed_in}
use ant_db.Column.{Column, index_lookup}
use ant_db.Query.Probe.{IsConsistent}
use ant_db.Table.Queried.{visible_table, visible_table-IsConsistent}
use ant_db.Tests.Columns.{numbers, no_keys}
use ant_db.Tests.{prims, data_at, old, new}
use ant_db.Tests.Storage.{sizes, space, space-IsSynced, page_0, page_1, old_row, new_row}
use ant_db.Tests.Tables.{txn, table}

there : ArePresent (page_set (1 ∷ 0 ∷ [])) space
there = ((page_0, refl), ((page_1, refl), tt))

found : All (IsFound prims sizes txn space) (visible_rows sizes txn space)
unfolding get_versioned_row ant_db.Versions.latest ant_db.Txn.is_visible row_at
found = ((old_row, old, refl, refl, refl), ((new_row, new, refl, refl, refl), tt))

-- n < 8
abbrev below_eight : SearchExpression
below_eight =
    comparison (SearchExpression.column (b'n' ∷ [])) less_than
      (literal (DataBaseDataEntry.integer_i32 (pos 8)))

abbrev by_n : SortBy
by_n = record { sort_alias = none; sort_column = b'n' ∷ []; order_by = OrderBy.desc }

-- SELECT * FROM t WHERE n < 8 ORDER BY n DESC LIMIT 1
abbrev ordered : SearchRequest
ordered = record {
  from = record { base = record { table_name = b't' ∷ []; table_alias = none }; joins = [] };
  projection = none;
  aggregate = none;
  filter = some below_eight;
  order_by = by_n ∷ [];
  limit = some 1;
  offset = none;
}

abbrev counted : SearchRequest
counted = record ordered { aggregate = some (b'c' ∷ []); order_by = []; limit = none }

abbrev columns : ColumnMap
columns = (b'n' ∷ [], 0) ∷ []

shown : IsProjection (get_visible_column_map txn table) none columns
unfolding ant_db.Table.Search.put_column get_visible_column_map visible_columns
    ant_db.Column.get_versioned_column ant_db.Versions.latest ant_db.Txn.is_visible
shown = refl

sorted : AreOrdering (get_visible_column_map txn table) (by_n ∷ []) ((0, by_n) ∷ [])
unfolding get_visible_column_map visible_columns ant_db.Column.get_versioned_column
    ant_db.Versions.latest ant_db.Txn.is_visible ant_db.Row.Entry.compare_list
sorted = (refl, refl, tt)

search-answer_example :
    IsAnswered prims sizes txn space (search prims sizes txn ordered (some seq_scan) table) (
      asked prims
        (get_visible_column_map txn table)
        columns
        ((0, by_n) ∷ [])
        ordered
        (visible_rows sizes txn space))
unfolding path_lookup
search-answer_example =
    search-answer prims sizes txn ordered (some seq_scan) table columns ((0, by_n) ∷ []) refl shown
      sorted refl space-IsSynced there found

-- SELECT COUNT(*) FROM t WHERE n < 8
search_count-length_example :
    IsAnswered prims sizes txn space (search prims sizes txn counted none table) (
      matching_rows prims
        (get_visible_column_map txn table)
        (some below_eight)
        (visible_rows sizes txn space)
      >>= λ ms. ok (
          record {
            row_id = 0;
            result_values = (b'c' ∷ [], DataBaseDataEntry.integer_i64 (pos (length ms))) ∷ [];
          }
          ∷ []))
unfolding filter_lookup
search_count-length_example =
    search_count-length prims sizes txn (b'c' ∷ []) counted none table refl refl refl space-IsSynced
      there

abbrev db : Database
db = record { tables = (b't' ∷ [], table) ∷ []; next_table_id = 1; transactions = start }

there_is : get_table (b't' ∷ []) db ≡ some table
unfolding get_table find_table ant_db.Row.Entry.compare_list
there_is = refl

below :
    matching_rows prims
      (get_visible_column_map txn table)
      (some below_eight)
      (visible_rows sizes txn space)
    ≡ ok ((1, data_at 7) ∷ [])
unfolding get_visible_column_map visible_columns ant_db.Column.get_versioned_column
    ant_db.Versions.latest ant_db.Txn.is_visible ant_db.Row.Entry.compare_list row_passes evaluate
    ant_db.Search.resolve_value ant_db.Search.resolve ant_db.Search.compare_values
    ant_db.Row.Entry.compare_entry get_versioned_row
below = refl

-- DELETE FROM t WHERE n < 8
execute_delete-removed_in_example :
    (u : Space) × (execute_delete prims sizes no_keys txn (b't' ∷ []) (some below_eight) seq_scan db
      ≡ (ok 1, put_back (b't' ∷ []) (record table { space = u }) db))
    × IsSynced u
    × ((j : RowId) → row_at j u ≡ removed_in txn (1 ∷ []) j (row_at j space))
unfolding get_versioned_row ant_db.Versions.latest ant_db.Txn.is_visible
execute_delete-removed_in_example =
    execute_delete-removed_in prims sizes no_keys txn (b't' ∷ []) (some below_eight) db table
      ((1, data_at 7) ∷ []) there_is space-IsSynced there found (refl, (refl, tt)) below

-- A column without an index
abbrev plain : Column
plain = record {
  versions = record numbers { index = none; index_added_by = []; constraints = [] } ∷ [];
}

visible_table-IsConsistent_example :
    ((visible_table prims sizes txn (record table { columns = (0, plain) ∷ [] })).walk
      ≡ visible_rows sizes txn space)
    × IsConsistent prims
        (visible_table prims sizes txn (record table { columns = (0, plain) ∷ [] }))
        0
unfolding index_lookup ant_db.Column.get_versioned_column ant_db.Column.version_index_lookup
    ant_db.Versions.latest ant_db.Txn.is_visible
visible_table-IsConsistent_example =
    visible_table-IsConsistent prims sizes txn 0 (record table { columns = (0, plain) ∷ [] }) plain
      refl (λ value. refl) space-IsSynced there found
