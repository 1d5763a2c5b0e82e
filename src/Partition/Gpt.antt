-- ===== src/Partition/Gpt.antt =====
-- `read_gpt`. The CRC-32 (crc32fast) is a parameter.
pub mod Spec
pub mod Listed
pub mod Shape
pub mod Accepted
use latent_dfir.Common.{
  ℕ, suc, ◌+◌, ◌*◌, Bool, true, false, not, ◌&&◌, Option, none, some, List, [], ◌∷◌, ◌++◌, Bytes,
  bytes_eq, replicate, Outcome, ok, err, panic, ◌>>=◌, ◌>>◌, require, map_err, slice, length, mul64,
  checked_mul, checked_sub, checked_add, leb, ◌==◌, if◌then◌else◌,
}
use latent_dfir.Source.{Source, SourceError, read_exact_at}
use latent_dfir.Partition.{
  Partition, Absent, absent, sector_size, field, chunks_exact, guid_string, decode_name,
}

abbrev pub signature : Bytes
signature = b'E' ∷ b'F' ∷ b'I' ∷ b' ' ∷ b'P' ∷ b'A' ∷ b'R' ∷ b'T' ∷ []

-- `iter().all(|&b| b == 0)`
unfoldable pub all_zero : Bytes → Bool
all_zero [] = true
all_zero (b ∷ bs) = (b == 0) && all_zero bs

-- `option?` in a function that returns an `Option`.
abbrev pub some_or_absent {ℓ} : {A : Type ℓ} → Option A → Outcome Absent A
some_or_absent (some a) = ok a
some_or_absent none = err absent

-- `last.checked_sub(first).and_then(|span| span.checked_add(1)).and_then(|s| s.checked_mul(SECTOR))`
unfoldable pub extent_length : ℕ → ℕ → Option ℕ
extent_length first last = elim (checked_sub last first) [
  | none ↦ none
  | some distance ↦ elim (checked_add distance 1) [
    | none ↦ none
    | some sectors ↦ checked_mul sectors sector_size
  ]
]

-- The `let … else { continue }`: the start and the length in bytes.
unfoldable pub extent : ℕ → ℕ → Option (ℕ × ℕ)
unfolding extent_length
extent first last = elim (checked_mul first sector_size) [
  | none ↦ none
  | some start ↦ elim (extent_length first last) [ none ↦ none | some len ↦ some (start, len) ]
]

-- The partition that an entry with this start and length describes, or `continue`.
unfoldable pub gpt_partition : ℕ → Bytes → Option (ℕ × ℕ) → Outcome Absent (Option Partition)
gpt_partition index chunk none = ok none
gpt_partition index chunk (some (start, len)) = do
  kind ← slice chunk 0 16 >>= guid_string
  name ← slice chunk 56 128
  ok (
      some (record {
        index = index;
        kind = kind;
        start = start;
        length = len;
        name = decode_name name;
      }))

unfoldable pub used_entry : ℕ → Bytes → Outcome Absent (Option Partition)
used_entry index chunk = do
  first ← field chunk 32 8
  last ← field chunk 40 8
  gpt_partition index chunk (extent first last)

-- One round of the loop over the entries: a partition, or `continue`.
unfoldable pub gpt_entry : ℕ → Bytes → Outcome Absent (Option Partition)
gpt_entry index chunk = do
  type_guid ← slice chunk 0 16
  if all_zero type_guid then ok none else used_entry index chunk

abbrev pub push_some {ℓ} : {A : Type ℓ} → List A → Option A → List A
push_some xs none = xs
push_some xs (some x) = xs ++ (x ∷ [])

unfoldable pub gpt_entries : List Bytes → List Partition → Outcome Absent (List Partition)
gpt_entries [] partitions = ok partitions
gpt_entries (chunk ∷ chunks) partitions = do
  p ← gpt_entry (length partitions) chunk
  gpt_entries chunks (push_some partitions p)

module _ (crc32 : Bytes → ℕ) where
  -- The checks of the header: its signature, its size and its checksum.
  unfoldable pub check_header : Bytes → Outcome Absent (Unit {0})
  check_header header = do
    mark ← slice header 0 8
    require (bytes_eq mark signature) absent
    header_size ← field header 12 4
    require (leb 92 header_size && leb header_size sector_size) absent
    want_header_crc ← field header 16 4
    whole ← slice header 0 header_size
    front ← slice whole 0 16
    back ← slice whole 20 (length whole)
    require (crc32 (front ++ replicate 4 0 ++ back) == want_header_crc) absent

  -- The entries that the header names: the size of one, and the bytes of all.
  unfoldable pub read_entries : Source → Bytes → Outcome Absent (ℕ × Bytes)
  read_entries src header = do
    entry_lba ← field header 72 8
    count ← field header 80 4
    entry_size ← field header 84 4
    want_entries_crc ← field header 88 4
    require (leb 128 entry_size && leb entry_size 4096 && not (count == 0) && leb count 4096) absent
    entries_offset ← some_or_absent (checked_mul entry_lba sector_size)
    entries ← map_err (λ e. absent) (read_exact_at src entries_offset (mul64 count entry_size))
    require (crc32 entries == want_entries_crc) absent
    ok (entry_size, entries)

  unfoldable pub read_gpt : Source → Outcome Absent (List Partition)
  unfolding check_header read_entries
  read_gpt src = do
    header ← map_err (λ e. absent) (read_exact_at src sector_size sector_size)
    check_header header
    (entry_size, entries) ← read_entries src header
    gpt_entries (chunks_exact entry_size entries) []
