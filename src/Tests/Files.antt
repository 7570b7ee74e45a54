-- ===== src/Tests/Files.antt =====
-- Page files, with a small serialization of pages without rows.
use ant_db.Common.{
  ◌^◌, ◌<◌, ◌≡◌, refl, true, false, Option, none, some, List, [], ◌∷◌, ◌==◌, if◌then◌else◌, arith,
  length, lookup,
}
use ant_db.Errors.{ok, err, serialization_error}
use ant_db.Pages.Defs.{PageId, Page, new_page}
use ant_db.PageStore.File.{Bytes}
use ant_db.PageStore.Header.{read_from, write_to}
use ant_db.PageStore.Store.{
  Codec, DiskIndex, PageIndex, RowLocationIndex, PageStore, merge_page, merge_pages, read_page,
  load_state, append_pages, finish_merge, write_index, serialize_index, populate_state,
  read_header_and_index, initial_state, list_page_ids, read_row_locations,
}
use ant_db.PageStore.Compact.{write_all, write_compact_file, write_pages, finish_pages}
use ant_db.PageStore.Contract.{pages_of, merge_page-write_page_to_disk}
use ant_db.Pages.{write_page_to_disk}
use ant_db.Tests.{no_pages}
use ant_db.PageStore.Laws.{IsCodec, update_all}
use ant_db.PageStore.Durability.{Stores}
use ant_db.PageStore.Rewriting.{write_all-Stores}
use ant_db.PageStore.Faults.{corrupt, corrupt-refused, read_page-overwritten}
use ant_db.PageStore.History.{
  StoreStep, new_store, run_store, run_pages, store_step, CanRun, read_page-run_store,
  new_store-Stores,
}

-- A page without rows is written as its id and its capacity.
abbrev write_page : Page → Option Bytes
write_page page = elim page.rows [
  | _ ∷ _ ↦ none
  | [] ↦ elim page.next_page [
    | some _ ↦ none
    | none ↦ elim page.is_overflow [
      | true ↦ none
      | false ↦ elim page.is_dirty [
        | true ↦ none
        | false ↦ if page.used_bytes == 0 then some (page.page_id ∷ page.capacity ∷ []) else none
      ]
    ]
  ]
]

abbrev read_blank : Bytes → Option Page
read_blank (id ∷ capacity ∷ []) = some (new_page id capacity)
read_blank _ = none

-- Every entry of the index is written as four numbers, the first of which tells which map it is of.
abbrev write_rows : RowLocationIndex → Bytes
write_rows [] = []
write_rows ((row_id, id) ∷ rows) = 2 ∷ row_id ∷ id ∷ 0 ∷ write_rows rows

abbrev write_entries : PageIndex → RowLocationIndex → Bytes
write_entries [] rows = write_rows rows
write_entries ((id, at) ∷ pages) rows = 1 ∷ id ∷ at.offset ∷ at.length ∷ write_entries pages rows

abbrev read_entries : Bytes → PageIndex × RowLocationIndex
read_entries (tag ∷ a ∷ b ∷ c ∷ bs) =
    let rest = read_entries bs in
    if tag == 1
    then ((a, record { offset = b; length = c }) ∷ rest.0, rest.1)
    else (rest.0, (a, b) ∷ rest.1)
read_entries _ = ([], [])

abbrev read_disk_index : Bytes → Option DiskIndex
read_disk_index [] = none
read_disk_index (b ∷ bs) =
    some (record { pages = (read_entries bs).0; row_locations = (read_entries bs).1 })

abbrev codec : Codec
codec = record {
  serialize_page = write_page;
  deserialize_page = read_blank;
  serialize_disk_index = λ disk. some (0 ∷ write_entries disk.pages disk.row_locations);
  deserialize_disk_index = read_disk_index;
  deserialize_page_index = λ _. none;
}

read_entries-write_rows : (rows : RowLocationIndex) → read_entries (write_rows rows) ≡ ([], rows)
read_entries-write_rows [] = refl
read_entries-write_rows ((row_id, id) ∷ rows) = ground (arith, read_entries-write_rows rows)

read_entries-write_entries :
    (pages : PageIndex) (rows : RowLocationIndex)
    → read_entries (write_entries pages rows) ≡ (pages, rows)
read_entries-write_entries [] rows = read_entries-write_rows rows
read_entries-write_entries ((id, at) ∷ pages) rows =
    ground (arith, read_entries-write_entries pages rows)

read_blank-write_page :
    (page : Page) (bytes : Bytes) → write_page page ≡ some bytes → read_blank bytes ≡ some page
unfolding new_page
read_blank-write_page page bytes h = ground arith

codec-IsCodec : IsCodec codec
codec-IsCodec = record {
  page_trip = read_blank-write_page;
  index_trip = λ disk.
      (_, _, refl, ground (arith, read_entries-write_entries disk.pages disk.row_locations));
}

abbrev small : Page
unfolding new_page
small = new_page 1 100

abbrev large : Page
unfolding new_page
large = new_page 2 900

abbrev dirty : Page
unfolding new_page
dirty = record small { is_dirty = true }

-- Two pages are merged, the process ends, and one of them is replaced.
abbrev steps : List StoreStep
steps =
    StoreStep.merge ((1, small) ∷ (2, large) ∷ []) ((7, 1) ∷ [])
    ∷ StoreStep.restart
    ∷ StoreStep.merge ((2, small) ∷ []) ((7, 1) ∷ (8, 2) ∷ [])
    ∷ []

abbrev nothing : PageStore
unfolding new_store
nothing = new_store none none

steps-CanRun : CanRun codec steps (new_store none none)
unfolding new_page new_store run_store store_step merge_pages load_state append_pages finish_merge
    write_index serialize_index populate_state write_to read_header_and_index read_from
    ant_db.Row.Entry.compare_list
steps-CanRun = (
  (((_, refl, omega arith), ((_, refl, omega arith), tt)), omega arith),
  (tt, ((((_, refl, omega arith), tt), omega arith), tt)),
)

read_page-run_store_example :
    (t : PageStore) × (read_page codec 2 (run_store codec steps (new_store none none))
      ≡ ok (run_pages steps (λ _. none) 2, t))
read_page-run_store_example = read_page-run_store codec steps none 2 codec-IsCodec steps-CanRun

-- A store whose file is not a page file, with the rest of a temporary file.
abbrev broken : PageStore
broken = record {
  file = some (1 ∷ 2 ∷ 3 ∷ []);
  tmp_file = some (9 ∷ 9 ∷ 9 ∷ []);
  state = initial_state;
}

broken-fits : length (write_compact_file codec broken.tmp_file ((1, small) ∷ []) []).0 < 2 ^ 64
unfolding new_page write_compact_file write_pages finish_pages append_pages write_index
    serialize_index write_to
broken-fits = omega arith

write_all-Stores_example :
    ((write_all codec ((1, small) ∷ []) [] broken).1 ≡ ok tt)
    × Stores codec
        (write_all codec ((1, small) ∷ []) [] broken).0
        (update_all ((1, small) ∷ []) (λ _. none))
        []
unfolding new_page
write_all-Stores_example =
    write_all-Stores codec ((1, small) ∷ []) [] broken codec-IsCodec ((_, refl, omega arith), tt)
      broken-fits

corrupt-refused_example :
    (read_page codec 1 broken ≡ err corrupt)
    × (list_page_ids codec broken ≡ err corrupt)
    × (read_row_locations codec broken ≡ err corrupt)
    × (merge_pages codec ((1, small) ∷ []) [] broken ≡ (broken, err corrupt))
unfolding read_from
corrupt-refused_example =
    corrupt-refused codec 1 (2 ∷ 3 ∷ []) broken 1 (1, small) [] [] refl refl
      (λ e. absurd (ground arith))

-- The pages 1 and 2 are merged, the second cannot be serialized, and page 3 is merged next.
read_page-overwritten_example :
    let failed = merge_pages codec ((1, small) ∷ (2, dirty) ∷ []) [] (new_store none none) in
    let merged = merge_pages codec ((3, large) ∷ []) [] failed.0 in
    (t : PageStore) × (failed.1 ≡ err (serialization_error ""))
    × (merged.1 ≡ ok tt)
    × (read_page codec 1 merged.0 ≡ ok (some large, t))
unfolding new_page
read_page-overwritten_example =
    read_page-overwritten codec 1 2 3 small dirty large (1 ∷ 100 ∷ []) (2 ∷ 900 ∷ []) []
      (new_store none none) (λ _. none) codec-IsCodec (new_store-Stores codec none) refl refl refl
      refl (omega arith) refl

small-fits :
    (merge_page codec 1 small no_pages.row_locations (new_store none none)).0.state.append_offset
    < 2 ^ 64
unfolding new_page new_store merge_page merge_pages load_state append_pages finish_merge write_index
    serialize_index populate_state write_to
small-fits = omega arith

merge_page-write_page_to_disk_example :
    ((j : PageId)
      → (u : PageStore) × (read_page codec j (new_store none none)
          ≡ ok (lookup j no_pages.page_store, u)))
    × ((merge_page codec 1 small no_pages.row_locations (new_store none none)).1 ≡ ok tt)
    × Stores codec
        (merge_page codec 1 small no_pages.row_locations (new_store none none)).0
        (pages_of (write_page_to_disk 1 small no_pages))
        []
unfolding new_page
merge_page-write_page_to_disk_example =
    merge_page-write_page_to_disk codec 1 small no_pages (new_store none none) [] codec-IsCodec
      (new_store-Stores codec none) (_, refl, omega arith) small-fits
