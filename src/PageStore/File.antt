-- ===== src/PageStore/File.antt =====
-- The bytes of a file, with `seek` before `write_all` and `read_exact` (used throughout
-- src/backend/core/page_store.rs), and numbers as little-endian bytes.
use ant_db.Common.{
  ℕ, zero, suc, ◌+◌, ◌*◌, ◌/◌, ◌%◌, ◌^◌, ◌≤◌, ◌<◌, ◌≡◌, refl, Option, none, some, List, [], ◌∷◌,
  length, drop, arith, inl, inr, ap, ◌∙◌, Option-cases,
}

-- The contents of a file, one number below 256 for each byte.
abbrev pub Bytes : Type 0
Bytes = List ℕ

abbrev pub overwrite : Bytes → Bytes → Bytes
overwrite [] file = file
overwrite (b ∷ bs) file = b ∷ overwrite bs (drop 1 file)

-- `seek(SeekFrom::Start(offset))` and `write_all`: a gap behind the end of the file is filled with
-- zeros.
abbrev pub write_at : ℕ → Bytes → Bytes → Bytes
write_at zero bs file = overwrite bs file
write_at (suc offset) [] file = file
write_at (suc offset) (b ∷ bs) [] = 0 ∷ write_at offset (b ∷ bs) []
write_at (suc offset) (b ∷ bs) (x ∷ file) = x ∷ write_at offset (b ∷ bs) file

-- `read_exact` of a buffer of `n` bytes
abbrev pub read_exact : ℕ → Bytes → Option Bytes
read_exact zero file = some []
read_exact (suc n) [] = none
read_exact (suc n) (x ∷ file) = elim (read_exact n file) [ none ↦ none | some xs ↦ some (x ∷ xs) ]

-- `seek(SeekFrom::Start(offset))` and `read_exact`
abbrev pub read_at : ℕ → ℕ → Bytes → Option Bytes
read_at offset n file = read_exact n (drop offset file)

read_exact-overwrite : (bs file : Bytes) → read_exact (length bs) (overwrite bs file) ≡ some bs
read_exact-overwrite [] file = refl
read_exact-overwrite (b ∷ bs) file = ground (arith, read_exact-overwrite bs (drop 1 file))

-- What has been written at a place is read there.
pub read_at-write_at :
    (offset : ℕ) (bs file : Bytes) → read_at offset (length bs) (write_at offset bs file) ≡ some bs
read_at-write_at zero bs file = read_exact-overwrite bs file
read_at-write_at (suc offset) [] file = refl
read_at-write_at (suc offset) (b ∷ bs) [] = read_at-write_at offset (b ∷ bs) []
read_at-write_at (suc offset) (b ∷ bs) (x ∷ file) = read_at-write_at offset (b ∷ bs) file

read_exact-write_at :
    (n w : ℕ) (bs file xs : Bytes)
    → n ≤ w
    → read_exact n file ≡ some xs
    → read_exact n (write_at w bs file) ≡ some xs
read_exact-write_at zero w bs file xs le h = h
read_exact-write_at (suc n) zero bs file xs le h = absurd (omega arith)
read_exact-write_at (suc n) (suc w) [] file xs le h = h
read_exact-write_at (suc n) (suc w) (b ∷ bs) [] xs le h = absurd (ground arith)
read_exact-write_at (suc n) (suc w) (b ∷ bs) (x ∷ file) xs le h =
    elim (Option-cases (read_exact n file)) [
      | inl none_read ↦ absurd (ground arith)
      | inr (ys, e) ↦ ground (arith, read_exact-write_at n w (b ∷ bs) file ys (omega arith) e)
    ]

drop-nil : (k : ℕ) → drop {A = ℕ} k [] ≡ []
drop-nil zero = refl
drop-nil (suc k) = refl

read_at_end :
    (offset n : ℕ) (xs : Bytes) → read_exact n [] ≡ some xs → read_at offset n [] ≡ some xs
read_at_end offset n xs h = ap (read_exact n) (drop-nil offset) ∙ h

-- A read that ends before the place of a write is not changed by the write.
pub read_at-write_before :
    (offset n w : ℕ) (bs file xs : Bytes)
    → offset + n ≤ w
    → read_at offset n file ≡ some xs
    → read_at offset n (write_at w bs file) ≡ some xs
read_at-write_before zero n w bs file xs le h = read_exact-write_at n w bs file xs (omega arith) h
read_at-write_before (suc offset) n zero bs file xs le h = absurd (omega arith)
read_at-write_before (suc offset) n (suc w) [] file xs le h = h
read_at-write_before (suc offset) n (suc w) (b ∷ bs) [] xs le h =
    read_at-write_before offset n w (b ∷ bs) [] xs (omega arith) (read_at_end offset n xs h)
read_at-write_before (suc offset) n (suc w) (b ∷ bs) (x ∷ file) xs le h =
    read_at-write_before offset n w (b ∷ bs) file xs (omega arith) h

drop-overwrite :
    (k : ℕ) (bs file : Bytes) → length bs ≤ k → drop k (overwrite bs file) ≡ drop k file
drop-overwrite k [] file le = refl
drop-overwrite zero (b ∷ bs) file le = absurd (omega arith)
drop-overwrite (suc k) (b ∷ bs) [] le = drop-overwrite k bs [] (omega arith) ∙ drop-nil k
drop-overwrite (suc k) (b ∷ bs) (x ∷ file) le = drop-overwrite k bs file (omega arith)

-- Nor is a read that starts behind it.
pub read_at-write_after :
    (offset n w : ℕ) (bs file xs : Bytes)
    → w + length bs ≤ offset
    → read_at offset n file ≡ some xs
    → read_at offset n (write_at w bs file) ≡ some xs
read_at-write_after offset n zero bs file xs le h =
    ap (read_exact n) (drop-overwrite offset bs file (omega arith)) ∙ h
read_at-write_after zero n (suc w) bs file xs le h = absurd (omega arith)
read_at-write_after (suc offset) n (suc w) [] file xs le h = h
read_at-write_after (suc offset) n (suc w) (b ∷ bs) [] xs le h =
    read_at-write_after offset n w (b ∷ bs) [] xs (omega arith) (read_at_end offset n xs h)
read_at-write_after (suc offset) n (suc w) (b ∷ bs) (x ∷ file) xs le h =
    read_at-write_after offset n w (b ∷ bs) file xs (omega arith) h

length-overwrite :
    (bs file : Bytes)
    → (length bs ≤ length (overwrite bs file)) × (length file ≤ length (overwrite bs file))
length-overwrite [] file = (omega arith, omega arith)
length-overwrite (b ∷ bs) [] = let w = length-overwrite bs [] in (omega (arith, w.0), omega arith)
length-overwrite (b ∷ bs) (x ∷ file) =
    let w = length-overwrite bs file in (omega (arith, w.0), omega (arith, w.1))

-- After a write of at least one byte the file reaches to its end, and no write shortens a file.
pub length-write_at :
    (offset b : ℕ) (bs file : Bytes)
    → (offset + length (b ∷ bs) ≤ length (write_at offset (b ∷ bs) file))
      × (length file ≤ length (write_at offset (b ∷ bs) file))
length-write_at zero b bs file = let w = length-overwrite (b ∷ bs) file in (omega (arith, w.0), w.1)
length-write_at (suc offset) b bs [] =
    let w = length-write_at offset b bs [] in (omega (arith, w.0), omega arith)
length-write_at (suc offset) b bs (x ∷ file) =
    let w = length-write_at offset b bs file in (omega (arith, w.0), omega (arith, w.1))

pub write_at_grows : (offset : ℕ) (bs file : Bytes) → length file ≤ length (write_at offset bs file)
write_at_grows zero [] file = omega arith
write_at_grows (suc offset) [] file = omega arith
write_at_grows offset (b ∷ bs) file = (length-write_at offset b bs file).1

-- `to_le_bytes` of an integer of `width` bytes
abbrev pub to_le_bytes : ℕ → ℕ → Bytes
to_le_bytes zero v = []
to_le_bytes (suc width) v = v % 256 ∷ to_le_bytes width (v / 256)

-- `from_le_bytes`
abbrev pub from_le_bytes : Bytes → ℕ
from_le_bytes [] = 0
from_le_bytes (b ∷ bs) = b + 256 * from_le_bytes bs

pub from_le_bytes-to_le_bytes :
    (width v : ℕ) → v < 256 ^ width → from_le_bytes (to_le_bytes width v) ≡ v
from_le_bytes-to_le_bytes zero v lt = omega arith
from_le_bytes-to_le_bytes (suc width) v lt =
    let high : v / 256 < 256 ^ width = ground arith in
    ground (arith, from_le_bytes-to_le_bytes width (v / 256) high)
