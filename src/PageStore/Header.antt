-- ===== src/PageStore/Header.antt =====
-- src/backend/core/page_store.rs, `PageFileHeader`: the 33 bytes at the start of a page file.
use ant_db.Common.{
  ℕ, ◌^◌, ◌≤◌, ◌<◌, ◌≡◌, not, Option, none, some, [], ◌∷◌, ◌==◌, arith, ap, length, if◌then◌else◌,
}
use ant_db.Errors.{deserialization_error, io_error, Result, ok, ◌>>=◌, ◌>>◌, fail_if, ok_or}
use ant_db.Copy.{text_eq}
use ant_db.PageStore.File.{
  Bytes, write_at, read_at, to_le_bytes, from_le_bytes, from_le_bytes-to_le_bytes,
  read_at-write_after, write_at_grows,
}

-- "ANTPG"
abbrev pub magic : Bytes
magic = 65 ∷ 78 ∷ 84 ∷ 80 ∷ 71 ∷ []

abbrev pub version : ℕ
version = 1

abbrev pub header_size : ℕ
header_size = 33

pub record PageFileHeader : Type 0 where
  pub index_offset : ℕ
  pub index_length : ℕ
  pub append_offset : ℕ

abbrev pub header_at : ℕ → ℕ → ℕ → PageFileHeader
header_at offset size append = record {
  index_offset = offset;
  index_length = size;
  append_offset = append;
}

-- `PageFileHeader::write_to`
unfoldable pub write_to : PageFileHeader → Bytes → Bytes
write_to header file =
    let with_magic = write_at 0 magic file in
    let with_version = write_at 5 (to_le_bytes 4 version) with_magic in
    let with_offset = write_at 9 (to_le_bytes 8 header.index_offset) with_version in
    let with_length = write_at 17 (to_le_bytes 8 header.index_length) with_offset in
    write_at 25 (to_le_bytes 8 header.append_offset) with_length

-- `read_exact(&mut buf).map_err(…)?`
abbrev pub read_or_fail : ℕ → ℕ → Bytes → Result Bytes
read_or_fail offset n file = ok_or (read_at offset n file) (io_error "failed to fill whole buffer")

read_fields : Bytes → Result (Option PageFileHeader)
read_fields file = do
  version_bytes ← read_or_fail 5 4 file
  fail_if (not (from_le_bytes version_bytes == version))
      (deserialization_error "Unsupported page file version ")
  index_offset ← read_or_fail 9 8 file
  index_length ← read_or_fail 17 8 file
  append_offset ← read_or_fail 25 8 file
  ok (
      some (
        header_at (from_le_bytes index_offset) (from_le_bytes index_length)
          (from_le_bytes append_offset)))

-- `PageFileHeader::read_from`: a file that does not start with the magic bytes has no header.
unfoldable pub read_from : Bytes → Result (Option PageFileHeader)
unfolding read_fields
read_from file = elim (read_at 0 5 file) [
  | none ↦ ok none
  | some start ↦ if text_eq start magic then read_fields file else ok none
]

-- The fields of a header fit in 64 bits.
pub record IsEncodable (header : PageFileHeader) : Type 0 where
  pub offset_fits : header.index_offset < 2 ^ 64
  pub length_fits : header.index_length < 2 ^ 64
  pub append_fits : header.append_offset < 2 ^ 64

header_congr : {a b c x y z : ℕ} → a ≡ x → b ≡ y → c ≡ z → header_at a b c ≡ header_at x y z
header_congr p q r = cc

-- A header whose fields fit in 64 bits is read back from any file that it has been written to,
-- whatever the file held.
pub read_from-write_to :
    (header : PageFileHeader) (file : Bytes)
    → IsEncodable header
    → read_from (write_to header file) ≡ ok (some header)
unfolding read_from write_to read_fields ant_db.Row.Entry.compare_list
read_from-write_to header file w =
    ap (λ x. ok (some x))
      (header_congr (from_le_bytes-to_le_bytes 8 header.index_offset w.offset_fits)
        (from_le_bytes-to_le_bytes 8 header.index_length w.length_fits)
        (from_le_bytes-to_le_bytes 8 header.append_offset w.append_fits))

-- Writing a header changes no byte behind it.
pub write_to_after :
    (header : PageFileHeader) (file xs : Bytes) (offset n : ℕ)
    → header_size ≤ offset
    → read_at offset n file ≡ some xs
    → read_at offset n (write_to header file) ≡ some xs
unfolding write_to
write_to_after header file xs offset n le h =
    let with_magic = write_at 0 magic file in
    let with_version = write_at 5 (to_le_bytes 4 version) with_magic in
    let with_offset = write_at 9 (to_le_bytes 8 header.index_offset) with_version in
    let with_length = write_at 17 (to_le_bytes 8 header.index_length) with_offset in
    let h₁ = read_at-write_after offset n 0 magic file xs (omega arith) h in
    let h₂ =
      read_at-write_after offset n 5 (to_le_bytes 4 version) with_magic xs (omega arith) h₁ in
    let h₃ =
      read_at-write_after offset n 9 (to_le_bytes 8 header.index_offset) with_version xs
        (omega arith) h₂ in
    let h₄ =
      read_at-write_after offset n 17 (to_le_bytes 8 header.index_length) with_offset xs
        (omega arith) h₃ in
    read_at-write_after offset n 25 (to_le_bytes 8 header.append_offset) with_length xs
      (omega arith) h₄

-- Writing a header does not shorten a file.
pub length-write_to :
    (header : PageFileHeader) (file : Bytes) → length file ≤ length (write_to header file)
unfolding write_to
length-write_to header file =
    let with_magic = write_at 0 magic file in
    let with_version = write_at 5 (to_le_bytes 4 version) with_magic in
    let with_offset = write_at 9 (to_le_bytes 8 header.index_offset) with_version in
    let with_length = write_at 17 (to_le_bytes 8 header.index_length) with_offset in
    omega (
      arith,
      write_at_grows 0 magic file,
      write_at_grows 5 (to_le_bytes 4 version) with_magic,
      write_at_grows 9 (to_le_bytes 8 header.index_offset) with_version,
      write_at_grows 17 (to_le_bytes 8 header.index_length) with_offset,
      write_at_grows 25 (to_le_bytes 8 header.append_offset) with_length,
    )
