-- ===== src/Tests/Vacuums.antt =====
-- Vacuums of the table of two rows, with and without a limit on memory.
use ant_db.Common.{◌≡◌, refl, inl, none, [], ◌∷◌, arith, All}
use ant_db.Errors.{ok}
use mathlib.Core.Path.{subst}
use ant_db.Versions.Vacuum.{IsOwn}
use ant_db.Row.{Row, row_versioned}
use ant_db.Pages.{Space, touch_page, admit_page, maybe_evict_pages, ensure_page_resident}
use ant_db.Pages.Rows.{row_at}
use ant_db.Pages.Compaction.{materialize_all_pages, load_pages, compact}
use ant_db.Pages.Compaction.Repacked.{kept, resident_row, IsOnlyAt, some_injective, row_at-compact}
use ant_db.Table.Vacuum.{vacuum_table}
use ant_db.Table.Vacuum.Reads.{seen_at, vacuum_table-seen_at, vacuum_table-lost}
use ant_db.Database.{Table}
use ant_db.Tests.Columns.{numbers}
use ant_db.Tests.{snap}
use ant_db.Tests.Storage.{sizes, space, unlimited, page_0, page_1, new_row}
use ant_db.Tests.Tables.{txn, table, resident}

-- Both pages in memory
abbrev all_loaded : Space
all_loaded = record unlimited {
  row_space = (0, page_0) ∷ (1, page_1) ∷ [];
  evicted_pages = [];
  lru = (0, 1) ∷ (1, 2) ∷ [];
  lru_counter = 3;
  memory_used = 200;
}

loads_all : materialize_all_pages sizes unlimited ≡ ok all_loaded
unfolding materialize_all_pages load_pages ensure_page_resident touch_page admit_page
    maybe_evict_pages
loads_all = refl

-- Under the limit, page 0 has left memory when page 1 is loaded.
abbrev last_loaded : Space
last_loaded = record space {
  row_space = (1, page_1) ∷ [];
  evicted_pages = 0 ∷ [];
  on_disk_pages = 0 ∷ 1 ∷ [];
  lru = (1, 2) ∷ [];
  lru_counter = 3;
  page_store = (0, page_0) ∷ (1, page_1) ∷ [];
}

loads_last : materialize_all_pages sizes space ≡ ok last_loaded
unfolding materialize_all_pages load_pages ensure_page_resident touch_page admit_page
    maybe_evict_pages ant_db.Pages.evict_loop ant_db.Pages.pick_lru_victim ant_db.Pages.evict_page
    ant_db.Pages.flush_and_evict_page ant_db.Pages.write_page_to_disk ant_db.Pages.untrack_page
loads_last = refl

two_only : IsOnlyAt 2 all_loaded
two_only id page e held = ground arith

one_only : IsOnlyAt 1 last_loaded
one_only id page e held = ground arith

row_at-compact_example : row_at 2 (compact sizes all_loaded) ≡ kept (resident_row 2 all_loaded)
row_at-compact_example = row_at-compact sizes 2 all_loaded (omega arith) (omega arith) two_only

vacuum_table-seen_at_example :
    seen_at txn 2 (vacuum_table sizes 3 resident).space ≡ seen_at txn 2 unlimited
unfolding row_at
vacuum_table-seen_at_example =
    vacuum_table-seen_at sizes snap 3 2 resident all_loaded refl loads_all (omega arith)
      (omega arith) two_only (omega arith)
      (λ row e.
        subst (λ (r : Row). All (IsOwn row_versioned snap 3) r.versions)
          (some_injective new_row row e) ((λ c. inl refl), tt))

-- The table of two rows with one column, which has no index.
abbrev unindexed : Table
unindexed = record table {
  columns =
      (
        0,
        record {
          versions = record numbers { index = none; index_added_by = []; constraints = [] } ∷ [];
        },
      )
      ∷ [];
}

vacuum_table-lost_example : row_at 1 (vacuum_table sizes 3 unindexed).space ≡ none
vacuum_table-lost_example =
    vacuum_table-lost sizes 3 1 unindexed last_loaded 0 loads_last refl refl (omega arith)
      (omega arith) one_only ((refl, tt), tt)
