-- ===== src/PageStore/Merging.antt =====
-- `merge_pages` of src/backend/core/page_store.rs adds pages to a store.
use ant_db.Common.{ℕ, ◌^◌, ◌≤◌, ◌<◌, ◌≡◌, refl, ◌∙◌, some, ◌∷◌, NatMap, arith, All}
use ant_db.Errors.{ok}
use ant_db.Pages.Defs.{PageId, Page}
use ant_db.PageStore.Header.{header_size}
use ant_db.PageStore.Store.{
  RowLocationIndex, Codec, PageStore, PageStoreState, Written, open_file, max, populate_state,
  append_pages, load_state, merge_pages, finish_merge,
}
use ant_db.PageStore.Laws.{IsCodec, IsStorable, PageMap, update_all, append_pages-Represents}
use ant_db.PageStore.Durability.{
  Stores, IsIndexed, write_index-IsIndexed, indexed_store, indexed_store-Stores,
}

module _ (codec : Codec) where
  pub finish_merge-written :
      (rows : RowLocationIndex) (s : PageStore) (state : PageStoreState) (written : Written)
      (end : ℕ)
      → written.end ≡ ok end
      → (w : IsIndexed codec written.bytes end written.index rows)
      → finish_merge codec rows s state written
        ≡ (indexed_store codec s w.header w.bytes s.tmp_file written.index rows, ok tt)
  unfolding finish_merge indexed_store populate_state
  finish_merge-written rows s state written end done w = rw (finish_merge, done, w.written) refl

  -- A merge into a store whose state is known.
  pub merge_pages-loaded :
      (u : PageId × Page) (us : NatMap Page) (rows : RowLocationIndex) (s : PageStore)
      (state : PageStoreState)
      → load_state codec s.file s.state ≡ ok state
      → header_size ≤ state.append_offset
      → merge_pages codec (u ∷ us) rows s
        ≡ finish_merge codec rows
            (record s { file = some (open_file s.file) })
            state
            (append_pages codec.serialize_page
              (u ∷ us)
              state.append_offset
              (open_file s.file)
              state.index)
  unfolding merge_pages load_state
  merge_pages-loaded u us rows s state l behind =
      let file = open_file s.file in
      let opened = record s { file = some file } in
      let l' : load_state codec (some file) s.state ≡ ok state = l in
      let start : max state.append_offset header_size ≡ state.append_offset = ground arith in
      ground (arith, l', start)

  pub merge_pages-written :
      (u : PageId × Page) (us : NatMap Page) (rows : RowLocationIndex) (s : PageStore)
      (state : PageStoreState) (end : ℕ)
      → load_state codec s.file s.state ≡ ok state
      → header_size ≤ state.append_offset
      → let written =
          append_pages codec.serialize_page
            (u ∷ us)
            state.append_offset
            (open_file s.file)
            state.index in
        written.end ≡ ok end
        → (w : IsIndexed codec written.bytes end written.index rows)
        → merge_pages codec (u ∷ us) rows s
          ≡ (indexed_store codec s w.header w.bytes s.tmp_file written.index rows, ok tt)
  unfolding indexed_store
  merge_pages-written u us rows s state end l behind done w =
      let file = open_file s.file in
      let written =
        append_pages codec.serialize_page (u ∷ us) state.append_offset file state.index in
      merge_pages-loaded u us rows s state l behind
      ∙ finish_merge-written rows (record s { file = some file }) state written end done w

  -- Merging pages into a store that holds pages goes through, if every page can be stored and the
  -- file stays below 2^64 bytes. Then the store, and every process that opens the file later, holds
  -- the merged pages under their ids, all other pages as before, and the new row locations.
  pub merge_pages-Stores :
      (u : PageId × Page) (us : NatMap Page) (new_rows rows : RowLocationIndex) (s : PageStore)
      (m : PageMap)
      → IsCodec codec
      → Stores codec s m rows
      → All (λ p. IsStorable codec p.1) (u ∷ us)
      → (merge_pages codec (u ∷ us) new_rows s).0.state.append_offset < 2 ^ 64
      → ((merge_pages codec (u ∷ us) new_rows s).1 ≡ ok tt)
        × Stores codec (merge_pages codec (u ∷ us) new_rows s).0 (update_all (u ∷ us) m) new_rows
  unfolding merge_pages
  merge_pages-Stores u us new_rows rows s m w holds storable fits =
      let state = holds.loaded_state in
      let file = open_file s.file in
      let written =
        append_pages codec.serialize_page (u ∷ us) state.append_offset file state.index in
      let (end, done, le, r) =
        append_pages-Represents codec (u ∷ us) state.append_offset file state.index m w storable
          holds.behind_header holds.represents in
      let behind : header_size ≤ end = omega (arith, holds.behind_header) in
      let indexed = write_index-IsIndexed codec written.bytes end written.index new_rows w behind in
      let e =
        merge_pages-written u us new_rows s state end holds.current holds.behind_header done
          indexed in
      let bound : indexed.header.append_offset < 2 ^ 64 = ground (arith, e, fits) in
      rw (e) (
        refl,
        indexed_store-Stores codec s s.tmp_file written.bytes end written.index new_rows
            (update_all (u ∷ us) m) indexed behind r bound,
      )
