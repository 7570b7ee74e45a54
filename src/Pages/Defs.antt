-- ===== src/Pages/Defs.antt =====
-- src/backend/core/table.rs, `Page`: a size-bounded container of rows.
use ant_db.Common.{
  ℕ, ◌+◌, ◌-◌, ◌^◌, Bool, true, false, not, ◌&&◌, Option, none, [], leb, if◌then◌else◌, NatMap,
  insert,
}
use ant_db.Row.Entry.{RowId}
use ant_db.Row.{Row}

abbrev pub PageId : Type 0
PageId = ℕ

abbrev pub u64_mod : ℕ
u64_mod = 2 ^ 64

-- `u64::saturating_add`
abbrev pub saturating_add : ℕ → ℕ → ℕ
saturating_add a b = if leb u64_mod (a + b) then u64_mod - 1 else a + b

pub record Page : Type 0 where
  pub page_id : PageId
  pub capacity : ℕ
  pub used_bytes : ℕ
  pub rows : NatMap Row
  pub next_page : Option PageId
  pub is_overflow : Bool
  pub is_dirty : Bool

-- What `bincode::serialized_size` gives for a row and for a page.
pub record Sizes : Type 0 where
  pub row_bytes : Row → ℕ
  pub page_bytes : Page → ℕ

-- `Page::new`
unfoldable pub new_page : PageId → ℕ → Page
new_page id capacity = record {
  page_id = id;
  capacity = capacity;
  used_bytes = 0;
  rows = [];
  next_page = none;
  is_overflow = false;
  is_dirty = false;
}

unfoldable pub has_room_for : ℕ → Page → Bool
has_room_for size page =
    not page.is_overflow && leb (saturating_add page.used_bytes size) page.capacity

-- `Page::append`
unfoldable pub append_row : RowId → Row → ℕ → Page → Page
append_row row_id row size page = record page {
  used_bytes = saturating_add page.used_bytes size;
  rows = insert row_id row page.rows;
  is_dirty = true;
}
