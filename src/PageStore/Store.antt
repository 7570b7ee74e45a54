-- ===== src/PageStore/Store.antt =====
-- src/backend/core/page_store.rs, `PageStore`: reading and writing the pages of a table in its file.
-- One thread of execution: locks are always granted, and the operating system carries out every
-- write. What can fail is bincode, a read behind the end of a file, and a file without a header.
use ant_db.Common.{
  ℕ, ◌+◌, ◌%◌, ◌^◌, Bool, true, false, Option, none, some, List, [], ◌∷◌, ltb, ◌==◌, if◌then◌else◌,
  NatMap, lookup, insert, keys, length,
}
use ant_db.Errors.{deserialization_error, serialization_error, Result, ok, err, ◌>>=◌, ok_or}
use ant_db.Pages.Defs.{PageId, Page}
use ant_db.PageStore.File.{Bytes, write_at}
use ant_db.PageStore.Header.{
  header_size, PageFileHeader, header_at, write_to, read_from, read_or_fail,
}

pub record PageLocation : Type 0 where
  pub offset : ℕ
  pub length : ℕ

abbrev pub PageIndex : Type 0
PageIndex = NatMap PageLocation

abbrev pub RowLocationIndex : Type 0
RowLocationIndex = NatMap PageId

pub record DiskIndex : Type 0 where
  pub pages : PageIndex
  pub row_locations : RowLocationIndex

-- `bincode::serialize` and `bincode::deserialize` at the types of the page file.
pub record Codec : Type 0 where
  pub serialize_page : Page → Option Bytes
  pub deserialize_page : Bytes → Option Page
  pub serialize_disk_index : DiskIndex → Option Bytes
  pub deserialize_disk_index : Bytes → Option DiskIndex
  pub deserialize_page_index : Bytes → Option PageIndex

pub record PageStoreState : Type 0 where
  pub index : PageIndex
  pub row_locations : RowLocationIndex
  pub index_offset : ℕ
  pub index_length : ℕ
  pub append_offset : ℕ
  pub loaded : Bool

-- `PageStoreState::default`
abbrev pub initial_state : PageStoreState
initial_state = record {
  index = [];
  row_locations = [];
  index_offset = 0;
  index_length = 0;
  append_offset = 0;
  loaded = false;
}

-- A `PageStore`, with the file at its path and the temporary file beside it.
pub record PageStore : Type 0 where
  pub file : Option Bytes
  pub tmp_file : Option Bytes
  pub state : PageStoreState

-- `create(true)` without `truncate`
abbrev pub open_file : Option Bytes → Bytes
open_file none = []
open_file (some file) = file

-- `max`
abbrev pub max : ℕ → ℕ → ℕ
max a b = if ltb a b then b else a

-- `as u32`
abbrev pub as_u32 : ℕ → ℕ
as_u32 n = n % 2 ^ 32

abbrev pub location : ℕ → Bytes → PageLocation
location offset bytes = record { offset = offset; length = as_u32 (length bytes) }

-- `read_index_bytes`
unfoldable pub read_index_bytes : Bytes → PageFileHeader → Result Bytes
read_index_bytes file header =
    if header.index_length == 0
    then ok []
    else read_or_fail header.index_offset header.index_length file

-- `populate_state`
unfoldable pub populate_state :
    PageStoreState → PageFileHeader → PageIndex → RowLocationIndex → PageStoreState
populate_state state header index row_locations = record {
  index = index;
  row_locations = row_locations;
  index_offset = header.index_offset;
  index_length = header.index_length;
  append_offset = header.append_offset;
  loaded = true;
}

abbrev pub empty_state : PageStoreState → PageStoreState
empty_state state = record state {
  index_offset = header_size;
  append_offset = header_size;
  loaded = true;
}

-- The loop that writes pages one behind the other, in `write_compact_file`,
-- `write_compact_file_from_bytes` and `merge_pages`: the file and the index, also after an error, and
-- where the next byte goes.
pub record Written : Type 0 where
  pub bytes : Bytes
  pub index : PageIndex
  pub end : Result ℕ

unfoldable pub append_pages {ℓ} :
    {V : Type ℓ} → (V → Option Bytes) → List (PageId × V) → ℕ → Bytes → PageIndex → Written
append_pages encode [] offset file index = record { bytes = file; index = index; end = ok offset }
append_pages encode ((id, page) ∷ pages) offset file index = elim (encode page) [
  | none ↦ record { bytes = file; index = index; end = err (serialization_error "") }
  | some bytes ↦
      append_pages encode pages (offset + length bytes) (write_at offset bytes file)
        (insert id (location offset bytes) index)
]

module _ (codec : Codec) where
  open codec use {
    serialize_page, deserialize_page, serialize_disk_index, deserialize_disk_index,
    deserialize_page_index,
  }

  -- `serialize_index`
  unfoldable pub serialize_index : PageIndex → RowLocationIndex → Result Bytes
  serialize_index index row_locations =
      ok_or (serialize_disk_index (record { pages = index; row_locations = row_locations }))
        (serialization_error "")

  -- `deserialize_index`: an older file holds the page index alone.
  unfoldable pub deserialize_index : Bytes → Result (PageIndex × RowLocationIndex)
  deserialize_index [] = ok ([], [])
  deserialize_index (b ∷ bs) = elim (deserialize_disk_index (b ∷ bs)) [
    | some disk ↦ ok (disk.pages, disk.row_locations)
    | none ↦ elim (deserialize_page_index (b ∷ bs)) [
      | none ↦ err (deserialization_error "")
      | some pages ↦ ok (pages, [])
    ]
  ]

  -- `read_header_and_index`, for a file that exists.
  unfoldable pub read_header_and_index :
      Bytes → Result (Option (PageFileHeader × PageIndex × RowLocationIndex))
  unfolding read_index_bytes deserialize_index
  read_header_and_index file = elim (read_from file) [
    | err e ↦ err e
    | ok none ↦ ok none
    | ok (some header) ↦ do
      index_bytes ← read_index_bytes file header
      (index, row_locations) ← deserialize_index index_bytes
      ok (some (header, index, row_locations))
  ]

  load_file : Bytes → PageStoreState → Result PageStoreState
  unfolding read_header_and_index populate_state
  load_file [] state = ok (empty_state state)
  load_file (b ∷ bs) state = elim (read_header_and_index (b ∷ bs)) [
    | err e ↦ err e
    | ok none ↦ err (deserialization_error "Invalid page file: missing or corrupt ANTPG header")
    | ok (some (header, index, row_locations)) ↦
        ok (populate_state state header index row_locations)
  ]

  -- `load_state`: an error leaves the state as it was.
  unfoldable pub load_state : Option Bytes → PageStoreState → Result PageStoreState
  unfolding load_file
  load_state file state = if state.loaded then ok state else load_file (open_file file) state

  -- `with_state` before a function that only reads: the store whose state is loaded.
  unfoldable pub load : PageStore → Result PageStore
  unfolding load_state
  load s = do state ← load_state s.file s.state; ok (record s { state = state })

  -- `list_page_ids`
  unfoldable pub list_page_ids : PageStore → Result (List PageId × PageStore)
  unfolding load
  list_page_ids s = do t ← load s; ok (keys t.state.index, t)

  -- `read_row_locations`
  unfoldable pub read_row_locations : PageStore → Result (RowLocationIndex × PageStore)
  unfolding load
  read_row_locations s = do t ← load s; ok (t.state.row_locations, t)

  -- `read_page_bytes`
  unfoldable pub read_page_bytes : Bytes → PageLocation → Result Bytes
  read_page_bytes file location = read_or_fail location.offset location.length file

  -- `read_page`. The store after an error is not part of the result: at most its state is loaded.
  unfoldable pub read_page : PageId → PageStore → Result (Option Page × PageStore)
  unfolding load read_page_bytes
  read_page id s = elim (load s) [
    | err e ↦ err e
    | ok t ↦ elim (lookup id t.state.index) [
      | none ↦ ok (none, t)
      | some location ↦ do
        page_bytes ← read_page_bytes (open_file t.file) location
        page ← ok_or (deserialize_page page_bytes) (deserialization_error "")
        ok (some page, t)
    ]
  ]

  -- The end of `merge_pages` and of the compact writers: the index behind the pages, then the header.
  unfoldable pub write_index :
      Bytes → ℕ → PageIndex → RowLocationIndex → Result (Bytes × PageFileHeader)
  unfolding serialize_index
  write_index file offset index row_locations = do
    index_bytes ← serialize_index index row_locations
    let header = header_at offset (length index_bytes) (offset + length index_bytes)
    ok (write_to header (write_at offset index_bytes file), header)

  -- The end of `merge_pages`, with the store after an error too: what has been written and put into
  -- the index by then stays.
  unfoldable pub finish_merge :
      RowLocationIndex → PageStore → PageStoreState → Written → PageStore × Result (Unit {0})
  unfolding write_index
  finish_merge row_locations s state written = elim written.end [
    | err e ↦ (
      record s { file = some written.bytes; state = record state { index = written.index } },
      err e,
    )
    | ok offset ↦ elim (write_index written.bytes offset written.index row_locations) [
      | err e ↦ (
        record s {
          file = some written.bytes;
          state = record state { index = written.index; row_locations = row_locations };
        },
        err e,
      )
      | ok (bytes, header) ↦ (
        record s {
          file = some bytes;
          state = populate_state state header written.index row_locations;
        },
        ok tt,
      )
    ]
  ]

  -- `merge_pages`
  unfoldable pub merge_pages :
      NatMap Page → RowLocationIndex → PageStore → PageStore × Result (Unit {0})
  unfolding load_state append_pages finish_merge
  merge_pages [] row_locations s = (s, ok tt)
  merge_pages (u ∷ us) row_locations s =
      let file = open_file s.file in
      let opened = record s { file = some file } in
      elim (load_state (some file) s.state) [
        | err e ↦ (opened, err e)
        | ok state ↦
            let start = max state.append_offset header_size in
            finish_merge row_locations opened state
              (append_pages serialize_page (u ∷ us) start file state.index)
      ]

  -- `merge_page`
  unfoldable pub merge_page :
      PageId → Page → RowLocationIndex → PageStore → PageStore × Result (Unit {0})
  unfolding merge_pages
  merge_page id page = merge_pages (insert id page [])

  -- The loop of `read_all`
  read_pages : List PageId → PageStore → NatMap Page → Result (NatMap Page × PageStore)
  unfolding read_page
  read_pages [] s pages = ok (pages, s)
  read_pages (id ∷ ids) s pages = do
    (found, t) ← read_page id s
    read_pages ids t (elim found [ none ↦ pages | some page ↦ insert id page pages ])

  -- `read_all`
  unfoldable pub read_all : PageStore → Result (NatMap Page × PageStore)
  unfolding list_page_ids read_pages
  read_all s = do (ids, t) ← list_page_ids s; read_pages ids t []
