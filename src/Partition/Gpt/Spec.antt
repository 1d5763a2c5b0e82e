-- ===== src/Partition/Gpt/Spec.antt =====
-- What a GUID partition table is, read off the bytes `f` of the disk.
use latent_dfir.Common.{
  ℕ, suc, ◌+◌, ◌-◌, ◌*◌, ◌≤◌, ◌<◌, ◌≡◌, ◌≢◌, true, false, List, [], ◌∷◌, ◌++◌, Bytes, replicate, ok,
  span, u64_mod,
}
use latent_dfir.Vdisk.Fields.{le_at}
use latent_dfir.Partition.{Partition, guid_string, decode_name, sector_size}
use latent_dfir.Partition.Gpt.{signature, all_zero}

module _ (f : ℕ → ℕ) where
  -- The entry at `o`: its first and its last sector.
  abbrev pub first_lba : ℕ → ℕ
  first_lba o = le_at f (o + 32) 8

  abbrev pub last_lba : ℕ → ℕ
  last_lba o = le_at f (o + 40) 8

  -- An entry that is not a partition: its type is zero, or its extent is reversed or too large.
  pub data IsUnused (o : ℕ) : Type 0 where
    unused : all_zero (span f o 16) ≡ true → IsUnused o
    reversed : last_lba o < first_lba o → IsUnused o
    starts_too_far : u64_mod ≤ first_lba o * sector_size → IsUnused o
    too_long : u64_mod ≤ (last_lba o - first_lba o + 1) * sector_size → IsUnused o

  -- The entry at `o` is the partition `p`, with this number.
  pub record Describes (o number : ℕ) (p : Partition) : Type 0 where
    pub used : all_zero (span f o 16) ≡ false
    pub ordered : first_lba o ≤ last_lba o
    pub index : p.index ≡ number
    pub start : p.start ≡ first_lba o * sector_size
    pub start_fits : p.start < u64_mod
    pub length : p.length ≡ (last_lba o - first_lba o + 1) * sector_size
    pub length_fits : p.length < u64_mod
    pub kind : guid_string (span f o 16) ≡ ok p.kind
    pub name : p.name ≡ decode_name (span f (o + 56) 72)

  -- The `n` entries of `k` bytes from `o` on hold these partitions, numbered from `index`.
  pub data Listed (k : ℕ) : ℕ → ℕ → ℕ → List Partition → Type 0 where
    done : {o index : ℕ} → Listed k o index 0 []
    skip :
        {o index n : ℕ} {ps : List Partition}
        → IsUnused o
        → Listed k (o + k) index n ps
        → Listed k o index (suc n) ps
    keep :
        {o index n : ℕ} {p : Partition} {ps : List Partition}
        → Describes o index p
        → Listed k (o + k) (suc index) n ps
        → Listed k o index (suc n) (p ∷ ps)

  abbrev header : ℕ
  header = sector_size

  abbrev pub header_size : ℕ
  header_size = le_at f (header + 12) 4

  abbrev pub entries_offset : ℕ
  entries_offset = le_at f (header + 72) 8 * sector_size

  abbrev pub count : ℕ
  count = le_at f (header + 80) 4

  abbrev pub entry_size : ℕ
  entry_size = le_at f (header + 84) 4

  -- The header is in the second sector; its checksum is taken with its own field zeroed.
  pub record HasHeader (crc32 : Bytes → ℕ) : Type 0 where
    pub mark : span f header 8 ≡ signature
    pub header_low : 92 ≤ header_size
    pub header_high : header_size ≤ sector_size
    pub header_sum :
        crc32 (span f header 16 ++ replicate 4 0 ++ span f (header + 20) (header_size - 20))
        ≡ le_at f (header + 16) 4

  -- The array of entries that the header names.
  pub record HasEntries (crc32 : Bytes → ℕ) : Type 0 where
    pub entry_low : 128 ≤ entry_size
    pub entry_high : entry_size ≤ 4096
    pub some_entries : count ≢ 0
    pub few_entries : count ≤ 4096
    pub entries_fit : entries_offset < u64_mod
    pub entries_sum : crc32 (span f entries_offset (count * entry_size)) ≡ le_at f (header + 88) 4

  -- A disk of `size` bytes holds a GUID partition table: its header and its entries, inside the
  -- disk, with both checksums.
  pub record HasGpt (crc32 : Bytes → ℕ) (size : ℕ) : Type 0 where
    pub header_inside : header + sector_size ≤ size
    pub has_header : HasHeader crc32
    pub has_entries : HasEntries crc32
    pub entries_inside : entries_offset + count * entry_size ≤ size

  pub record IsGpt (crc32 : Bytes → ℕ) (ps : List Partition) : Type 0 where
    pub has_header : HasHeader crc32
    pub has_entries : HasEntries crc32
    pub listed : Listed entry_size entries_offset 0 count ps
