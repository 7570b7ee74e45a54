-- ===== src/PageStore/Laws.antt =====
-- What the loops of src/backend/core/page_store.rs do to the pages that a file holds.
use ant_db.Common.{
  ℕ, ◌+◌, ◌%◌, ◌^◌, ◌≤◌, ◌<◌, ◌≡◌, refl, inl, inr, Option, none, some, List, [], ◌∷◌, ◌==◌,
  if◌then◌else◌, lookup, insert, lookup-insert, length, arith, All, ap, ◌∙◌, false, Bool-cases,
}
use ant_db.Errors.{ok}
use ant_db.Pages.Defs.{PageId, Page}
use ant_db.PageStore.File.{Bytes, write_at, read_at, read_at-write_at, read_at-write_before}
use ant_db.PageStore.Header.{header_size}
use ant_db.PageStore.Store.{PageLocation, PageIndex, Codec, location, append_pages, DiskIndex}

-- What the page file relies on in bincode: what has been serialized is read back, an index can always
-- be serialized, and no serialized index is empty.
pub record IsCodec (codec : Codec) : Type 0 where
  pub page_trip :
      (page : Page) (bytes : Bytes)
      → codec.serialize_page page ≡ some bytes
      → codec.deserialize_page bytes ≡ some page
  pub index_trip :
      (disk : DiskIndex)
      → (b : ℕ) × (bs : Bytes) × (codec.serialize_disk_index disk ≡ some (b ∷ bs))
        × (codec.deserialize_disk_index (b ∷ bs) ≡ some disk)

-- A page that bincode serializes to fewer than 2^32 bytes, as its length in the index wants it.
abbrev pub IsStorable : Codec → Page → Type 0
IsStorable codec page =
    (bytes : Bytes) × (codec.serialize_page page ≡ some bytes) × (length bytes < 2 ^ 32)

-- The abstract page store: which page an id stands for.
abbrev pub PageMap : Type 0
PageMap = PageId → Option Page

abbrev pub update : PageId → Page → PageMap → PageMap
update id page m j = if id == j then some page else m j

-- Pages put into the store in turn.
abbrev pub update_all : List (PageId × Page) → PageMap → PageMap
update_all [] m = m
update_all ((id, page) ∷ pages) m = update_all pages (update id page m)

module _ (codec : Codec) where
  -- The bytes at a location, all of them between the header and `bound`, are those of a page.
  pub record IsPageAt (file : Bytes) (bound : ℕ) (page : Page) (at : PageLocation) : Type 0 where
    pub bytes : Bytes
    pub behind_header : header_size ≤ at.offset
    pub before_bound : at.offset + at.length ≤ bound
    pub readable : read_at at.offset at.length file ≡ some bytes
    pub decodes : codec.deserialize_page bytes ≡ some page

  -- What an index finds for an id.
  abbrev pub Finds : Bytes → ℕ → PageIndex → PageId → Option Page → Type 0
  Finds file bound index id none = lookup id index ≡ none
  Finds file bound index id (some page) =
      (at : PageLocation) × (lookup id index ≡ some at) × IsPageAt file bound page at

  -- An index finds the pages of the abstract store in a file, and no other.
  abbrev pub Represents : Bytes → ℕ → PageIndex → PageMap → Type 0
  Represents file bound index m = (id : PageId) → Finds file bound index id (m id)

  -- What a write keeps: every read between the header and `bound`.
  abbrev pub Keeps : Bytes → Bytes → ℕ → Type 0
  Keeps file changed bound =
      (offset n : ℕ) (xs : Bytes)
      → header_size ≤ offset
      → offset + n ≤ bound
      → read_at offset n file ≡ some xs
      → read_at offset n changed ≡ some xs

  IsPageAt-kept :
      (file changed : Bytes) (bound end : ℕ) (page : Page) (at : PageLocation)
      → bound ≤ end
      → Keeps file changed bound
      → IsPageAt file bound page at
      → IsPageAt changed end page at
  IsPageAt-kept file changed bound end page at le keeps w = record {
    bytes = w.bytes;
    behind_header = w.behind_header;
    before_bound = omega (arith, w.before_bound);
    readable = keeps at.offset at.length w.bytes w.behind_header w.before_bound w.readable;
    decodes = w.decodes;
  }

  Finds-kept :
      (file changed : Bytes) (bound end : ℕ) (index : PageIndex) (id : PageId) (p : Option Page)
      → bound ≤ end
      → Keeps file changed bound
      → Finds file bound index id p
      → Finds changed end index id p
  Finds-kept file changed bound end index id none le keeps w = w
  Finds-kept file changed bound end index id (some page) le keeps (at, e, w) =
      (at, e, IsPageAt-kept file changed bound end page at le keeps w)

  -- A file that keeps what it held below the bound still holds the pages.
  pub Represents-kept :
      (file changed : Bytes) (bound end : ℕ) (index : PageIndex) (m : PageMap)
      → bound ≤ end
      → Keeps file changed bound
      → Represents file bound index m
      → Represents changed end index m
  Represents-kept file changed bound end index m le keeps r id =
      Finds-kept file changed bound end index id (m id) le keeps (r id)

  -- The index changes at one id only.
  Finds-other :
      (file : Bytes) (bound : ℕ) (index : PageIndex) (id j : PageId) (at : PageLocation)
      (p : Option Page)
      → (id == j) ≡ false
      → Finds file bound index j p
      → Finds file bound (insert id at index) j p
  Finds-other file bound index id j at none other w = ground (arith, lookup-insert id j at index)
  Finds-other file bound index id j at (some page) other (found, e, w) =
      (found, ground (arith, lookup-insert id j at index), w)

  write_at-Keeps :
      (file bytes : Bytes) (offset : ℕ) → Keeps file (write_at offset bytes file) offset
  write_at-Keeps file bytes offset o n xs behind before h =
      read_at-write_before o n offset bytes file xs before h

  -- A page that has been written behind the others is found.
  written_IsPageAt :
      (file bytes : Bytes) (offset : ℕ) (page : Page)
      → codec.deserialize_page bytes ≡ some page
      → length bytes < 2 ^ 32
      → header_size ≤ offset
      → IsPageAt (write_at offset bytes file) (offset + length bytes) page (location offset bytes)
  written_IsPageAt file bytes offset page d fits behind =
      let same : length bytes % 2 ^ 32 ≡ length bytes = omega arith in
      record {
        bytes = bytes;
        behind_header = behind;
        before_bound = omega (arith, same);
        readable =
            ap (λ n. read_at offset n (write_at offset bytes file)) same
            ∙ read_at-write_at offset bytes file;
        decodes = d;
      }

  -- One round of the loop: the page is found under its id, and every other page as before.
  pub Represents-written :
      (file bytes : Bytes) (offset : ℕ) (index : PageIndex) (m : PageMap) (id : PageId)
      (page : Page)
      → codec.deserialize_page bytes ≡ some page
      → length bytes < 2 ^ 32
      → header_size ≤ offset
      → Represents file offset index m
      → Represents
          (write_at offset bytes file)
          (offset + length bytes)
          (insert id (location offset bytes) index)
          (update id page m)
  Represents-written file bytes offset index m id page d fits behind r j =
      elim (Bool-cases (id == j)) [
        | inl same ↦ rw (same) (
          location offset bytes,
          ground (arith, lookup-insert id j (location offset bytes) index),
          written_IsPageAt file bytes offset page d fits behind,
        )
        | inr other ↦ rw (other) (
            Finds-other (write_at offset bytes file) (offset + length bytes) index id j
              (location offset bytes) (m j) other
              (Finds-kept file (write_at offset bytes file) offset (offset + length bytes) index j
                (m j) (omega arith) (write_at-Keeps file bytes offset) (r j)))
      ]

  -- The loop writes every page, if each can be stored: afterwards the index finds them all, and what
  -- it found before under other ids.
  pub append_pages-Represents :
      (pages : List (PageId × Page)) (offset : ℕ) (file : Bytes) (index : PageIndex) (m : PageMap)
      → IsCodec codec
      → All (λ p. IsStorable codec p.1) pages
      → header_size ≤ offset
      → Represents file offset index m
      → (end : ℕ) × ((append_pages codec.serialize_page pages offset file index).end ≡ ok end)
        × (offset ≤ end)
        × Represents
            (append_pages codec.serialize_page pages offset file index).bytes
            end
            (append_pages codec.serialize_page pages offset file index).index
            (update_all pages m)
  unfolding append_pages
  append_pages-Represents [] offset file index m w storable behind r =
      (offset, refl, omega arith, r)
  append_pages-Represents ((id, page) ∷ pages) offset file index m w ((bytes, e, fits), storable)
        behind r =
      rw (e, append_pages)
        let (end, done, le, rest) =
            append_pages-Represents pages (offset + length bytes) (write_at offset bytes file)
              (insert id (location offset bytes) index) (update id page m) w storable (omega arith)
              (Represents-written file bytes offset index m id page (w.page_trip page bytes e) fits
                behind r) in
          (end, done, omega arith, rest)
