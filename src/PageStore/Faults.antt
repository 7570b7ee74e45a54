-- ===== src/PageStore/Faults.antt =====
-- The page store when something fails (src/backend/core/page_store.rs).
use ant_db.Copy.{text_eq}
use ant_db.Row.Entry.Order.{compare_list-eq}
use ant_db.Common.{
  ℕ, zero, suc, sym, take, ◌≢◌, inl, inr, Option-cases, Bool-cases, ◌+◌, ◌%◌, ◌^◌, ◌≤◌, ◌<◌, ◌≡◌,
  refl, ap, ◌∙◌, true, false, none, some, [], ◌∷◌, ◌==◌, NatMap, lookup, insert, lookup-insert,
  length, arith,
}
use ant_db.Errors.{deserialization_error, serialization_error, DataBaseErrors, ok, err}
use ant_db.Pages.Defs.{PageId, Page}
use ant_db.PageStore.File.{Bytes, read_exact, write_at, read_at, read_at-write_at}
use ant_db.PageStore.Header.{header_size, magic, read_from}
use ant_db.PageStore.Store.{
  PageLocation, RowLocationIndex, Codec, PageStore, PageStoreState, Written, open_file, location,
  populate_state, append_pages, read_header_and_index, load_state, finish_merge, merge_pages, load,
  list_page_ids, read_row_locations, read_page, read_page_bytes,
}
use ant_db.PageStore.Laws.{IsCodec, PageMap}
use ant_db.PageStore.Durability.{Stores, write_index-IsIndexed, indexed_store}
use ant_db.PageStore.Merging.{merge_pages-loaded, finish_merge-written}

abbrev pub corrupt : DataBaseErrors
corrupt = deserialization_error "Invalid page file: missing or corrupt ANTPG header"

-- What is read at the start of a file is what stands there.
read_exact-take : (n : ℕ) (bs start : Bytes) → read_exact n bs ≡ some start → start ≡ take n bs
read_exact-take zero bs start h = ground arith
read_exact-take (suc n) [] start h = absurd (ground arith)
read_exact-take (suc n) (b ∷ bs) start h = elim (Option-cases (read_exact n bs)) [
  | inl short ↦ absurd (ground arith)
  | inr (rest, e) ↦ ground (arith, read_exact-take n bs rest e)
]

-- A file that does not start with the magic bytes, or is shorter than they are, has no header.
read_from-other : (bs : Bytes) → take 5 bs ≢ magic → read_from bs ≡ ok none
unfolding read_from
read_from-other bs other = elim (Option-cases (read_at 0 5 bs)) [
  | inl short ↦ rw (read_from, short) refl
  | inr (start, e) ↦ elim (Bool-cases (text_eq start magic)) [
    | inl same ↦
        absurd
          (other (sym (read_exact-take 5 bs start e) ∙ compare_list-eq start magic (ground arith)))
    | inr differs ↦ rw (read_from, e, differs) refl
  ]
]

module _ (codec : Codec) where
  load_state-corrupt :
      (b : ℕ) (bs : Bytes) (state : PageStoreState)
      → state.loaded ≡ false
      → read_from (b ∷ bs) ≡ ok none
      → load_state codec (some (b ∷ bs)) state ≡ err corrupt
  unfolding load_state read_header_and_index
  load_state-corrupt b bs state unloaded h = ground arith

  -- A file that is not empty and whose first five bytes are not the magic bytes, as where it is shorter,
  -- is an error for every read and every merge of a store that opens it, and the merge changes neither
  -- the file nor the state.
  pub corrupt-refused :
      (b : ℕ) (bs : Bytes) (s : PageStore) (id : PageId) (u : PageId × Page) (us : NatMap Page)
      (rows : RowLocationIndex)
      → s.file ≡ some (b ∷ bs)
      → s.state.loaded ≡ false
      → take 5 (b ∷ bs) ≢ magic
      → (read_page codec id s ≡ err corrupt)
        × (list_page_ids codec s ≡ err corrupt)
        × (read_row_locations codec s ≡ err corrupt)
        × (merge_pages codec (u ∷ us) rows s ≡ (s, err corrupt))
  unfolding read_page list_page_ids read_row_locations merge_pages load load_state
  corrupt-refused b bs s id u us rows at unloaded other =
      let failed = load_state-corrupt b bs s.state unloaded (read_from-other (b ∷ bs) other) in
      (
        ground (arith, failed),
        ground (arith, failed),
        ground (arith, failed),
        ground (arith, failed),
      )

  -- What a merge leaves in the store when its first page is written and its second page fails.
  unfoldable half_merged : PageStore → PageStoreState → PageId → Bytes → PageStore
  half_merged s state i bytes = record s {
    file = some (write_at state.append_offset bytes (open_file s.file));
    state = record state { index = insert i (location state.append_offset bytes) state.index };
  }

  merge_pages-half_merged :
      (i j : PageId) (p q : Page) (bytes : Bytes) (rows : RowLocationIndex) (s : PageStore)
      (state : PageStoreState)
      → load_state codec s.file s.state ≡ ok state
      → header_size ≤ state.append_offset
      → codec.serialize_page p ≡ some bytes
      → codec.serialize_page q ≡ none
      → merge_pages codec ((i, p) ∷ (j, q) ∷ []) rows s
        ≡ (half_merged s state i bytes, err (serialization_error ""))
  unfolding finish_merge append_pages half_merged
  merge_pages-half_merged i j p q bytes rows s state l behind e f =
      let file = open_file s.file in
      let start = state.append_offset in
      let written : append_pages codec.serialize_page ((i, p) ∷ (j, q) ∷ []) start file state.index
          ≡ append_pages codec.serialize_page ((j, q) ∷ []) (start + length bytes)
              (write_at start bytes file) (insert i (location start bytes) state.index) =
        rw (append_pages, e) refl in
      let stopped : append_pages codec.serialize_page ((j, q) ∷ []) (start + length bytes)
            (write_at start bytes file) (insert i (location start bytes) state.index)
          ≡ record {
            bytes = write_at start bytes file;
            index = insert i (location start bytes) state.index;
            end = err (serialization_error "");
          } =
        rw (append_pages, f) refl in
      merge_pages-loaded codec (i, p) ((j, q) ∷ []) rows s state l behind
      ∙ ap (finish_merge codec rows (record s { file = some file }) state) (written ∙ stopped)

  -- The next merge writes where the failed one has written.
  half_merged-next :
      (s : PageStore) (state : PageStoreState) (i k : PageId) (p_bytes r_bytes : Bytes) (r : Page)
      (rows : RowLocationIndex)
      → IsCodec codec
      → state.loaded ≡ true
      → header_size ≤ state.append_offset
      → codec.serialize_page r ≡ some r_bytes
      → let half = half_merged s state i p_bytes in
        (t : PageStore) × (u : Bytes) × (merge_pages codec ((k, r) ∷ []) rows half ≡ (t, ok tt))
        × (t.file ≡ some u)
        × (t.state.loaded ≡ true)
        × (t.state.index ≡ insert k (location state.append_offset r_bytes) half.state.index)
        × (read_at state.append_offset (length r_bytes) u ≡ some r_bytes)
  unfolding half_merged append_pages indexed_store populate_state load_state
  half_merged-next s state i k p_bytes r_bytes r rows w loaded behind g =
      let half = half_merged s state i p_bytes in
      let start = state.append_offset in
      let file = write_at start r_bytes (open_file half.file) in
      let index = insert k (location start r_bytes) half.state.index in
      let written : Written = record {
        bytes = file;
        index = index;
        end = ok (start + length r_bytes);
      } in
      let e : append_pages codec.serialize_page ((k, r) ∷ []) start (open_file half.file)
            half.state.index
          ≡ written =
        rw (append_pages, g) refl in
      let indexed =
        write_index-IsIndexed codec file (start + length r_bytes) index rows w (omega arith) in
      let l : load_state codec half.file half.state ≡ ok half.state = ground (arith, loaded) in
      let opened = record half { file = some (open_file half.file) } in
      let merged =
        merge_pages-loaded codec (k, r) [] rows half half.state l behind
        ∙ ap (finish_merge codec rows opened half.state) e
        ∙ finish_merge-written codec rows opened half.state written (start + length r_bytes) refl
            indexed in
      (
        indexed_store codec opened indexed.header indexed.bytes half.tmp_file index rows,
        indexed.bytes,
        merged,
        refl,
        refl,
        refl,
        indexed.keeps start (length r_bytes) r_bytes behind (omega arith)
            (read_at-write_at start r_bytes (open_file half.file)),
      )

  read_page-at :
      (id : PageId) (t : PageStore) (u : Bytes) (at : PageLocation) (bytes : Bytes) (page : Page)
      → t.file ≡ some u
      → t.state.loaded ≡ true
      → lookup id t.state.index ≡ some at
      → read_at at.offset at.length u ≡ some bytes
      → codec.deserialize_page bytes ≡ some page
      → read_page codec id t ≡ ok (some page, t)
  unfolding read_page read_page_bytes load load_state
  read_page-at id t u at bytes page file loaded found held decoded = ground arith

  -- After a merge that failed on its second page, the next merge writes over the first page, which
  -- the state still finds: if the page merged next is serialized to as many bytes, reading the first
  -- id gives that page.
  pub read_page-overwritten :
      (i j k : PageId) (p q r : Page) (p_bytes r_bytes : Bytes) (rows : RowLocationIndex)
      (s : PageStore) (m : PageMap)
      → IsCodec codec
      → Stores codec s m rows
      → codec.serialize_page p ≡ some p_bytes
      → codec.serialize_page q ≡ none
      → codec.serialize_page r ≡ some r_bytes
      → length p_bytes ≡ length r_bytes
      → length r_bytes < 2 ^ 32
      → (k == i) ≡ false
      → let failed = merge_pages codec ((i, p) ∷ (j, q) ∷ []) rows s in
        let merged = merge_pages codec ((k, r) ∷ []) rows failed.0 in
        (t : PageStore) × (failed.1 ≡ err (serialization_error ""))
        × (merged.1 ≡ ok tt)
        × (read_page codec i merged.0 ≡ ok (some r, t))
  unfolding half_merged
  read_page-overwritten i j k p q r p_bytes r_bytes rows s m w holds e f g same fits other =
      let state = holds.loaded_state in
      let start = state.append_offset in
      let s₁ = half_merged s state i p_bytes in
      let e₁ =
        merge_pages-half_merged i j p q p_bytes rows s state holds.current holds.behind_header e
          f in
      let (t, u, merged, at, loaded, index, found) =
        half_merged-next s state i k p_bytes r_bytes r rows w holds.is_loaded holds.behind_header
          g in
      let sized : length p_bytes % 2 ^ 32 ≡ length r_bytes = omega (arith, same, fits) in
      let known : lookup i t.state.index ≡ some (location start p_bytes) = ground (
        arith,
        other,
        index,
        lookup-insert k i (location start r_bytes) s₁.state.index,
        lookup-insert i i (location start p_bytes) state.index,
      ) in
      rw (e₁, merged)
        (
          t,
          refl,
          refl,
          read_page-at i t u (location start p_bytes) r_bytes r at loaded known
              (ap (λ n. read_at start n u) sized ∙ found) (w.page_trip r r_bytes g),
        )
