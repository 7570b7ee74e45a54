-- ===== src/Tests/Storage.antt =====
-- Rows on pages.
use ant_db.Common.{◌≡◌, refl, true, false, none, some, [], ◌∷◌, lookup, arith}
use ant_db.Row.{Row, rollback_row}
use ant_db.Pages.{Space, maybe_evict_pages}
use ant_db.Pages.Defs.{Page, Sizes, new_page}
use ant_db.Pages.Eviction.{
  IsSynced, Keeps, IsSettled, maybe_evict_pages-Keeps, maybe_evict_pages-IsSettled,
}
use ant_db.Pages.Rows.{row_at, rollback_pages, row_at-rollback_pages}
use ant_db.Pages.Insertion.{store_row}
use ant_db.Pages.Insertion.Store.{IsNumbered}
use ant_db.Pages.Insertion.Orphan.{IsTight, row_at-store_row-lost}
use ant_db.Tests.{no_pages, old, new}

-- Every row takes 10 bytes, and every page 100.
abbrev pub sizes : Sizes
sizes = record { row_bytes = λ _. 10; page_bytes = λ _. 100 }

abbrev pub old_row : Row
old_row = record { versions = old ∷ [] }

abbrev pub new_row : Row
new_row = record { versions = new ∷ [] }

abbrev pub page_0 : Page
page_0 = record {
  page_id = 0;
  capacity = 25;
  used_bytes = 10;
  rows = (1, old_row) ∷ [];
  next_page = none;
  is_overflow = false;
  is_dirty = true;
}

abbrev pub page_1 : Page
page_1 = record {
  page_id = 1;
  capacity = 25;
  used_bytes = 10;
  rows = (2, new_row) ∷ [];
  next_page = none;
  is_overflow = false;
  is_dirty = false;
}

-- Page 0 is in memory, and page 1 in the page file.
abbrev pub space : Space
space = record {
  row_space = (0, page_0) ∷ [];
  row_locations = (1, 0) ∷ (2, 1) ∷ [];
  next_page_id = 2;
  page_size = 25;
  evicted_pages = 1 ∷ [];
  on_disk_pages = 1 ∷ [];
  lru = (0, 0) ∷ [];
  lru_counter = 1;
  memory_used = 100;
  memory_limit = 50;
  page_store = (1, page_1) ∷ [];
}

-- The same with no limit on memory.
abbrev pub unlimited : Space
unlimited = record space { memory_limit = 0 }

pub space-IsSynced : IsSynced space
space-IsSynced id page found clean disk = ground arith

maybe_evict_pages-Keeps_example : Keeps sizes none space (maybe_evict_pages sizes none space)
maybe_evict_pages-Keeps_example = maybe_evict_pages-Keeps sizes none space space-IsSynced

maybe_evict_pages-IsSettled_example : IsSettled sizes none (maybe_evict_pages sizes none space)
maybe_evict_pages-IsSettled_example = maybe_evict_pages-IsSettled sizes none space (omega arith)

-- Transaction 3 rolls back while the page of its row is evicted.
row_at-rollback_pages_example :
    row_at 2 (rollback_pages 3 space)
    ≡ some (elim (lookup 1 space.row_space) [ none ↦ new_row | some _ ↦ rollback_row 3 new_row ])
unfolding row_at
row_at-rollback_pages_example = row_at-rollback_pages 3 2 space 1 new_row refl refl

pub unlimited-IsNumbered : IsNumbered unlimited
unlimited-IsNumbered = record { ascending = tt; located_issued = λ row_id id e. ground arith }

no_pages-IsTight : IsTight sizes no_pages
unfolding new_page
no_pages-IsTight = record { empty = refl; limited = omega arith; over = omega arith; fresh = refl }

row_at-store_row-lost_example :
    (row_at 3 (store_row sizes 3 new_row no_pages) ≡ none)
    × (lookup 3 (store_row sizes 3 new_row no_pages).row_locations ≡ some 0)
row_at-store_row-lost_example =
    row_at-store_row-lost sizes 3 new_row no_pages no_pages-IsTight (omega arith)
