-- ===== src/PageStore/Durability.antt =====
-- The page store keeps its pages over writes and restarts (src/backend/core/page_store.rs).
use ant_db.Common.{
  ℕ, ◌+◌, ◌^◌, ◌≤◌, ◌<◌, ◌≡◌, refl, true, false, Option, none, some, ◌∷◌, length, arith,
}
use ant_db.Errors.{ok}
use ant_db.Pages.Defs.{PageId, Page}
use ant_db.PageStore.File.{
  Bytes, write_at, read_at, read_at-write_at, read_at-write_before, length-write_at,
}
use ant_db.PageStore.Header.{
  header_size, PageFileHeader, header_at, write_to, read_from, read_from-write_to, write_to_after,
  length-write_to,
}
use ant_db.PageStore.Store.{
  PageIndex, RowLocationIndex, Codec, PageStore, PageStoreState, initial_state, open_file,
  populate_state, read_index_bytes, deserialize_index, read_header_and_index, load_state,
  write_index, serialize_index, load, read_page, read_page_bytes,
}
use ant_db.PageStore.Laws.{IsCodec, PageMap, Finds, Represents, Keeps, Represents-kept}

module _ (codec : Codec) where
  -- The store holds the pages and the row locations: its state finds them, and a new process that
  -- opens the file comes to the same state.
  pub record Stores (s : PageStore) (m : PageMap) (rows : RowLocationIndex) : Type 0 where
    pub loaded_state : PageStoreState
    pub current : load_state codec s.file s.state ≡ ok loaded_state
    pub durable : load_state codec s.file initial_state ≡ ok loaded_state
    pub is_loaded : loaded_state.loaded ≡ true
    pub behind_header : header_size ≤ loaded_state.append_offset
    pub represents :
        Represents codec (open_file s.file) loaded_state.append_offset loaded_state.index m
    pub same_rows : loaded_state.row_locations ≡ rows

  -- The file after the index and the header have been written behind `offset`.
  pub record IsIndexed (file : Bytes) (offset : ℕ) (index : PageIndex) (rows : RowLocationIndex)
      : Type 0 where
    pub bytes : Bytes
    pub header : PageFileHeader
    pub written : write_index codec file offset index rows ≡ ok (bytes, header)
    pub behind : offset ≤ header.append_offset
    pub sized : header.append_offset ≤ length bytes
    pub keeps : Keeps codec file bytes offset
    pub loads :
        (state : PageStoreState)
        → state.loaded ≡ false
        → header.append_offset < 2 ^ 64
        → load_state codec (some bytes) state ≡ ok (populate_state state header index rows)

  load_state-read :
      (b : ℕ) (bs : Bytes) (state : PageStoreState) (header : PageFileHeader) (index : PageIndex)
      (rows : RowLocationIndex)
      → state.loaded ≡ false
      → read_header_and_index codec (b ∷ bs) ≡ ok (some (header, index, rows))
      → load_state codec (some (b ∷ bs)) state ≡ ok (populate_state state header index rows)
  unfolding load_state
  load_state-read b bs state header index rows unloaded h = ground arith

  load_state-written :
      (header : PageFileHeader) (file : Bytes) (state : PageStoreState) (index : PageIndex)
      (rows : RowLocationIndex)
      → state.loaded ≡ false
      → read_header_and_index codec (write_to header file) ≡ ok (some (header, index, rows))
      → load_state codec (some (write_to header file)) state
        ≡ ok (populate_state state header index rows)
  unfolding write_to
  load_state-written header file state index rows unloaded h =
      load_state-read _ _ state header index rows unloaded h

  read_header_and_index-ok :
      (file : Bytes) (header : PageFileHeader) (b : ℕ) (bs : Bytes) (index : PageIndex)
      (rows : RowLocationIndex)
      → read_from file ≡ ok (some header)
      → header.index_length ≡ length (b ∷ bs)
      → read_at header.index_offset header.index_length file ≡ some (b ∷ bs)
      → codec.deserialize_disk_index (b ∷ bs)
        ≡ some (record { pages = index; row_locations = rows })
      → read_header_and_index codec file ≡ ok (some (header, index, rows))
  unfolding read_header_and_index read_index_bytes deserialize_index
  read_header_and_index-ok file header b bs index rows start sized found trip = ground arith

  read_header_and_index-written :
      (file : Bytes) (offset b : ℕ) (bs : Bytes) (index : PageIndex) (rows : RowLocationIndex)
      → header_size ≤ offset
      → offset + length (b ∷ bs) < 2 ^ 64
      → codec.deserialize_disk_index (b ∷ bs)
        ≡ some (record { pages = index; row_locations = rows })
      → read_header_and_index codec (
          write_to
            (header_at offset (length (b ∷ bs)) (offset + length (b ∷ bs)))
            (write_at offset (b ∷ bs) file))
        ≡ ok (some (header_at offset (length (b ∷ bs)) (offset + length (b ∷ bs)), index, rows))
  read_header_and_index-written file offset b bs index rows behind fits trip =
      let header = header_at offset (length (b ∷ bs)) (offset + length (b ∷ bs)) in
      let indexed = write_at offset (b ∷ bs) file in
      let start = read_from-write_to header indexed (record {
        offset_fits = omega arith;
        length_fits = omega arith;
        append_fits = omega arith;
      }) in
      let found =
        write_to_after header indexed (b ∷ bs) offset (length (b ∷ bs)) behind
          (read_at-write_at offset (b ∷ bs) file) in
      read_header_and_index-ok (write_to header indexed) header b bs index rows start refl found
        trip

  -- The index and the header are written behind the pages, change none of them, and are what a new
  -- process reads.
  pub write_index-IsIndexed :
      (file : Bytes) (offset : ℕ) (index : PageIndex) (rows : RowLocationIndex)
      → IsCodec codec
      → header_size ≤ offset
      → IsIndexed file offset index rows
  unfolding write_index serialize_index
  write_index-IsIndexed file offset index rows w behind =
      let (b, bs, e, trip) = w.index_trip (record { pages = index; row_locations = rows }) in
      let header = header_at offset (length (b ∷ bs)) (offset + length (b ∷ bs)) in
      let indexed = write_at offset (b ∷ bs) file in
      record {
        bytes = write_to header indexed;
        header = header;
        written = ground (arith, e);
        behind = omega arith;
        sized = omega (arith, (length-write_at offset b bs file).0, length-write_to header indexed);
        keeps = λ o n xs low high h.
            write_to_after header indexed xs o n low
              (read_at-write_before o n offset (b ∷ bs) file xs high h);
        loads = λ state unloaded fits.
            load_state-written header indexed state index rows unloaded
              (read_header_and_index-written file offset b bs index rows behind fits trip);
      }

  page_found :
      (id : PageId) (file : Bytes) (bound : ℕ) (s t : PageStore) (p : Option Page)
      → load codec s ≡ ok t
      → open_file t.file ≡ file
      → Finds codec file bound t.state.index id p
      → read_page codec id s ≡ ok (p, t)
  unfolding read_page read_page_bytes
  page_found id file bound s t none l same absent = ground arith
  page_found id file bound s t (some page) l same (at, e, w) = ground (arith, w.readable, w.decodes)

  -- A store that holds pages reads them, each under its id and nothing under any other, and holds
  -- the same pages afterwards.
  pub read_page-Stores :
      (id : PageId) (s : PageStore) (m : PageMap) (rows : RowLocationIndex)
      → Stores s m rows
      → (t : PageStore) × (read_page codec id s ≡ ok (m id, t)) × Stores t m rows
  unfolding load load_state
  read_page-Stores id s m rows w =
      let t = record s { state = w.loaded_state } in
      let l : load codec s ≡ ok t = ground (arith, w.current) in
      (
        t,
        page_found id (open_file s.file) w.loaded_state.append_offset s t (m id) l refl
            (w.represents id),
        record {
          loaded_state = w.loaded_state;
          current = ground (arith, w.is_loaded);
          durable = w.durable;
          is_loaded = w.is_loaded;
          behind_header = w.behind_header;
          represents = w.represents;
          same_rows = w.same_rows;
        },
      )

  -- A store whose file has just been indexed.
  unfoldable pub indexed_store :
      PageStore → PageFileHeader → Bytes → Option Bytes → PageIndex → RowLocationIndex → PageStore
  unfolding populate_state
  indexed_store s header bytes tmp_file index rows = record {
    file = some bytes;
    tmp_file = tmp_file;
    state = populate_state s.state header index rows;
  }

  pub indexed_store-Stores :
      (s : PageStore) (tmp_file : Option Bytes) (file : Bytes) (offset : ℕ) (index : PageIndex)
      (rows : RowLocationIndex) (m : PageMap) (w : IsIndexed file offset index rows)
      → header_size ≤ offset
      → Represents codec file offset index m
      → w.header.append_offset < 2 ^ 64
      → Stores (indexed_store s w.header w.bytes tmp_file index rows) m rows
  unfolding indexed_store populate_state load_state
  indexed_store-Stores s tmp_file file offset index rows m w behind r fits = record {
    loaded_state = populate_state s.state w.header index rows;
    current = refl;
    durable = w.loads initial_state refl fits;
    is_loaded = refl;
    behind_header = omega (arith, w.behind);
    represents =
        Represents-kept codec file w.bytes offset w.header.append_offset index m w.behind w.keeps r;
    same_rows = refl;
  }
