-- ===== src/PageStore/Compact.antt =====
-- src/backend/core/page_store.rs: writing a whole new page file beside the old one, and putting it in
-- its place.
use ant_db.Common.{Option, none, some, List, [], NatMap}
use ant_db.Errors.{Result, ok, err}
use ant_db.Pages.Defs.{PageId, Page}
use ant_db.PageStore.File.{Bytes}
use ant_db.PageStore.Header.{header_size, PageFileHeader, header_at, write_to}
use ant_db.PageStore.Store.{
  PageIndex, RowLocationIndex, Codec, PageStore, Written, open_file, populate_state, append_pages,
  load_state, write_index,
}

module _ (codec : Codec) where
  open codec use {serialize_page}

  -- The end of both writers, with the contents of the temporary file after an error too.
  unfoldable pub finish_pages :
      Written → RowLocationIndex → Bytes × Result (PageFileHeader × PageIndex × RowLocationIndex)
  unfolding write_index
  finish_pages written row_locations = elim written.end [
    | err e ↦ (written.bytes, err e)
    | ok offset ↦ elim (write_index codec written.bytes offset written.index row_locations) [
      | err e ↦ (written.bytes, err e)
      | ok (bytes, header) ↦ (bytes, ok (header, written.index, row_locations))
    ]
  ]

  -- What the two writers share. A temporary file that an earlier failure has left is opened, not
  -- emptied.
  unfoldable pub write_pages {ℓ} :
      {V : Type ℓ}
      → (V → Option Bytes)
      → Option Bytes
      → List (PageId × V)
      → RowLocationIndex
      → Bytes × Result (PageFileHeader × PageIndex × RowLocationIndex)
  unfolding append_pages finish_pages
  write_pages encode tmp_file pages =
      let start = write_to (header_at header_size 0 header_size) (open_file tmp_file) in
      finish_pages (append_pages encode pages header_size start [])

  -- `write_compact_file`, up to the renaming
  unfoldable pub write_compact_file :
      Option Bytes
      → NatMap Page
      → RowLocationIndex
      → Bytes × Result (PageFileHeader × PageIndex × RowLocationIndex)
  unfolding write_pages
  write_compact_file = write_pages serialize_page

  -- `write_compact_file_from_bytes`, up to the renaming
  unfoldable pub write_compact_file_from_bytes :
      Option Bytes
      → List (PageId × Bytes)
      → RowLocationIndex
      → Bytes × Result (PageFileHeader × PageIndex × RowLocationIndex)
  unfolding write_pages
  write_compact_file_from_bytes = write_pages some

  -- `fs::rename`, and the new state: after an error the old file stays, and the temporary file too.
  unfoldable pub install :
      PageStore
      → Bytes × Result (PageFileHeader × PageIndex × RowLocationIndex)
      → PageStore × Result (Unit {0})
  unfolding load_state populate_state
  install s (bytes, err e) = (record s { tmp_file = some bytes }, err e)
  install s (bytes, ok (header, index, row_locations)) =
      let renamed = record s { file = some bytes; tmp_file = none } in
      elim (load_state codec renamed.file renamed.state) [
        | err e ↦ (renamed, err e)
        | ok state ↦
            (record renamed { state = populate_state state header index row_locations }, ok tt)
      ]

  -- `write_all`
  unfoldable pub write_all :
      NatMap Page → RowLocationIndex → PageStore → PageStore × Result (Unit {0})
  unfolding write_compact_file install
  write_all pages row_locations s = install s (write_compact_file s.tmp_file pages row_locations)

  -- `write_all_serialized`
  unfoldable pub write_all_serialized :
      List (PageId × Bytes) → RowLocationIndex → PageStore → PageStore × Result (Unit {0})
  unfolding write_compact_file_from_bytes install
  write_all_serialized pages row_locations s =
      install s (write_compact_file_from_bytes s.tmp_file pages row_locations)
