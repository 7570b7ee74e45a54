-- ===== src/PageStore/Rewriting.antt =====
-- `write_all` and `write_all_serialized` of src/backend/core/page_store.rs replace the pages of a
-- store.
use ant_db.Common.{
  ℕ, ◌+◌, ◌^◌, ◌≤◌, ◌<◌, ◌≡◌, refl, ap, ◌∙◌, inl, inr, Option, none, some, List, [], ◌∷◌, NatMap,
  insert, length, arith, All, Option-cases, Bool-cases,
}
use ant_db.Errors.{ok}
use ant_db.Pages.Defs.{PageId, Page}
use ant_db.PageStore.File.{Bytes, write_at}
use ant_db.PageStore.Header.{header_size, header_at, write_to}
use ant_db.PageStore.Store.{
  PageIndex, RowLocationIndex, Codec, PageStore, open_file, populate_state, location, append_pages,
  load_state,
}
use ant_db.PageStore.Compact.{
  write_all, write_all_serialized, write_compact_file_from_bytes, install, write_compact_file,
  write_pages, finish_pages,
}
use ant_db.PageStore.Laws.{IsCodec, IsStorable, update_all, append_pages-Represents}
use ant_db.PageStore.Durability.{
  Stores, IsIndexed, write_index-IsIndexed, indexed_store, indexed_store-Stores,
}

module _ (codec : Codec) where
  -- The header that the temporary file starts with: no page and no index.
  abbrev start : Option Bytes → Bytes
  start tmp_file = write_to (header_at header_size 0 header_size) (open_file tmp_file)

  install-written :
      (s : PageStore) (file : Bytes) (offset : ℕ) (index : PageIndex) (rows : RowLocationIndex)
      (w : IsIndexed codec file offset index rows)
      → w.header.append_offset < 2 ^ 64
      → install codec s (w.bytes, ok (w.header, index, rows))
        ≡ (indexed_store codec s w.header w.bytes none index rows, ok tt)
  unfolding install load_state indexed_store populate_state
  install-written s file offset index rows w fits = elim (Bool-cases s.state.loaded) [
    | inl loaded ↦ ground (arith, loaded)
    | inr unloaded ↦ ground (arith, w.loads s.state unloaded fits)
  ]

  write_pages-written {ℓ} :
      {V : Type ℓ} (encode : V → Option Bytes) (pages : List (PageId × V)) (rows : RowLocationIndex)
      (tmp_file : Option Bytes) (end : ℕ)
      → let written = append_pages encode pages header_size (start tmp_file) [] in
        written.end ≡ ok end
        → (w : IsIndexed codec written.bytes end written.index rows)
        → write_pages codec encode tmp_file pages rows
          ≡ (w.bytes, ok (w.header, written.index, rows))
  unfolding write_pages finish_pages
  write_pages-written encode pages rows tmp_file end done w =
      rw (write_pages, finish_pages, done, w.written) refl

  -- Whatever a store and its files hold, also a temporary file that a failure has left, `write_all`
  -- goes through if every page can be stored and the file stays below 2^64 bytes. Then the store, and
  -- every process that opens the file later, holds the given pages and no other.
  pub write_all-Stores :
      (pages : NatMap Page) (rows : RowLocationIndex) (s : PageStore)
      → IsCodec codec
      → All (λ p. IsStorable codec p.1) pages
      → length (write_compact_file codec s.tmp_file pages rows).0 < 2 ^ 64
      → ((write_all codec pages rows s).1 ≡ ok tt)
        × Stores codec (write_all codec pages rows s).0 (update_all pages (λ _. none)) rows
  unfolding write_all write_compact_file
  write_all-Stores pages rows s w storable fits =
      let written = append_pages codec.serialize_page pages header_size (start s.tmp_file) [] in
      let (end, done, le, r) =
        append_pages-Represents codec pages header_size (start s.tmp_file) [] (λ _. none) w storable
          (omega arith) (λ id. refl) in
      let behind : header_size ≤ end = le in
      let indexed = write_index-IsIndexed codec written.bytes end written.index rows w behind in
      let e : write_compact_file codec s.tmp_file pages rows
          ≡ (indexed.bytes, ok (indexed.header, written.index, rows)) =
        write_pages-written codec.serialize_page pages rows s.tmp_file end done indexed in
      let bound : indexed.header.append_offset < 2 ^ 64 =
        ground (arith, ap (λ r. length r.0) e, fits, indexed.sized) in
      let r' =
        ap (install codec s) e
        ∙ install-written s written.bytes end written.index rows indexed bound in
      rw (write_all, r')
        (
          refl,
          indexed_store-Stores codec s none written.bytes end written.index rows
              (update_all pages (λ _. none)) indexed behind r bound,
        )

  -- The pages serialized ahead of the write, if each can be.
  abbrev pub encode_all : List (PageId × Page) → Option (List (PageId × Bytes))
  encode_all [] = some []
  encode_all ((id, page) ∷ pages) = elim (codec.serialize_page page) [
    | none ↦ none
    | some bytes ↦ elim (encode_all pages) [ none ↦ none | some rest ↦ some ((id, bytes) ∷ rest) ]
  ]

  append_pages-encode_all :
      (pages : List (PageId × Page)) (encoded : List (PageId × Bytes)) (offset : ℕ) (file : Bytes)
      (index : PageIndex)
      → encode_all pages ≡ some encoded
      → append_pages (λ b. some b) encoded offset file index
        ≡ append_pages codec.serialize_page pages offset file index
  unfolding append_pages
  append_pages-encode_all [] encoded offset file index h =
      let e : encoded ≡ [] = ground arith in rw (e) refl
  append_pages-encode_all ((id, page) ∷ pages) encoded offset file index h =
      elim (Option-cases (codec.serialize_page page)) [
        | inl failed ↦ absurd (ground arith)
        | inr (bytes, e) ↦ elim (Option-cases (encode_all pages)) [
          | inl failed ↦ absurd (ground arith)
          | inr (rest, r) ↦
              let same : encoded ≡ (id, bytes) ∷ rest = ground arith in
              let step =
                append_pages-encode_all pages rest (offset + length bytes)
                  (write_at offset bytes file) (insert id (location offset bytes) index) r in
              rw (same, e, append_pages, step) refl
        ]
      ]

  -- Writing pages that have been serialized before is the same as writing the pages: the same file,
  -- the same state and the same result.
  pub write_all_serialized-write_all :
      (pages : NatMap Page) (encoded : List (PageId × Bytes)) (rows : RowLocationIndex)
      (s : PageStore)
      → encode_all pages ≡ some encoded
      → write_all_serialized codec encoded rows s ≡ write_all codec pages rows s
  unfolding write_all_serialized write_all write_compact_file write_compact_file_from_bytes
      write_pages
  write_all_serialized-write_all pages encoded rows s h =
      let same = append_pages-encode_all pages encoded header_size (start s.tmp_file) [] h in
      ap (λ written. install codec s (finish_pages codec written rows)) same
