-- ===== src/Examples/Partitions.antt =====
-- Partition tables at concrete inputs.
use latent_dfir.Common.{
  min, ◌-◌, ◌+◌, ℕ, ◌≤◌, ◌<◌, ◌≡◌, refl, arith, none, some, List, [], ◌∷◌, ◌++◌, length, replicate,
  ok, Settles, both_ways, inl, inr, ◌==◌, if◌then◌else◌,
}
use latent_dfir.Source.{Source, read_exact_at, read_exact_loop}
use latent_dfir.Source.Reads.{Serves}
use latent_dfir.Source.Window.{Window, window_source}
use latent_dfir.Partition.{
  Partition, PartitionTable, mbr, gpt, get, len, window, decode_name, units, before_zero, field,
  byte_at, chunks_from, guid_string, primary, hex_fixed,
}
use latent_dfir.Partition.Names.{unit_bytes, decode_name-encode_utf16}
use latent_dfir.Partition.Gpt.{
  read_gpt, gpt_entries, gpt_entry, used_entry, gpt_partition, all_zero, extent, extent_length,
}
use latent_dfir.Partition.Gpt.Spec.{HasGpt, IsGpt}
use latent_dfir.Partition.Gpt.Accepted.{read_gpt-Settles}
use latent_dfir.Partition.Mbr.{
  read_mbr, mbr_entry, mbr_entries, is_marked, add_logical, next_ebr, marked_ebr, ebr_round,
  read_logical, logicals,
}
use latent_dfir.Partition.Mbr.Spec.{HasNoMbr, IsMbr}
use latent_dfir.Partition.Mbr.Accepted.{read_mbr-Settles}
use latent_dfir.Partition.Table.{read, or_next}
use latent_dfir.Partition.Found.{IsTableOf, read-total, read-get}
use latent_dfir.Text.{from_utf16_lossy}
use latent_dfir.Text.Utf16.{encode_utf16}
use latent_dfir.Examples.{memory, memory_read, memory-Serves}

-- The value at an offset, of a list of offsets and values; zero elsewhere.
abbrev pub sparse : List (ℕ × ℕ) → ℕ → ℕ
sparse [] i = 0
sparse ((o, b) ∷ rest) i = if i == o then b else sparse rest i

abbrev SmallValues : List (ℕ × ℕ) → Type 0
SmallValues [] = Unit
SmallValues ((o, b) ∷ rest) = b < 256 × SmallValues rest

sparse-small : (l : List (ℕ × ℕ)) (i : ℕ) → SmallValues l → sparse l i < 256
sparse-small [] i h = omega arith
sparse-small ((o, b) ∷ rest) i h =
    both_ways (λ v. v < 256) (i == o) b (sparse rest i) (λ e. h.0) λ e. sparse-small rest i h.1

-- A table with one entry, in the third sector; the checksum of the test is the length.
abbrev gpt_disk_byte : ℕ → ℕ
gpt_disk_byte = sparse (
    (512, b'E')
    ∷ (513, b'F')
    ∷ (514, b'I')
    ∷ (515, b' ')
    ∷ (516, b'P')
    ∷ (517, b'A')
    ∷ (518, b'R')
    ∷ (519, b'T')
    ∷ (524, 92)
    ∷ (528, 92)
    ∷ (584, 2)
    ∷ (592, 1)
    ∷ (596, 128)
    ∷ (600, 128)
    ∷ (1024, 1)
    ∷ (1056, 5)
    ∷ (1064, 6)
    ∷ (1080, b'A')
    ∷ [])

abbrev gpt_disk : Source
gpt_disk = memory gpt_disk_byte 1536

read_gpt-Settles_example :
    Settles
      (¬ HasGpt gpt_disk_byte length 1536)
      (IsGpt gpt_disk_byte length)
      (read_gpt length gpt_disk)
read_gpt-Settles_example =
    read_gpt-Settles length gpt_disk gpt_disk_byte (memory-Serves gpt_disk_byte 1536 (omega arith))

-- One primary partition, and an extended one with one logical partition.
abbrev mbr_disk_values : List (ℕ × ℕ)
mbr_disk_values =
    (450, 0x83)
    ∷ (454, 1)
    ∷ (458, 2)
    ∷ (466, 0x05)
    ∷ (470, 3)
    ∷ (510, 0x55)
    ∷ (511, 0xaa)
    ∷ (1986, 0x07)
    ∷ (1990, 1)
    ∷ (1994, 1)
    ∷ (2046, 0x55)
    ∷ (2047, 0xaa)
    ∷ []

abbrev mbr_disk_byte : ℕ → ℕ
mbr_disk_byte = sparse mbr_disk_values

abbrev mbr_disk : Source
mbr_disk = memory mbr_disk_byte 2048

mbr_disk-Serves : Serves mbr_disk mbr_disk_byte
mbr_disk-Serves = memory-Serves mbr_disk_byte 2048 (omega arith)

mbr_disk-small : (i : ℕ) → mbr_disk_byte i < 256
mbr_disk-small i = sparse-small mbr_disk_values i (ground arith)

read_mbr-Settles_example :
    Settles (HasNoMbr mbr_disk_byte 2048) (IsMbr mbr_disk_byte 2048) (read_mbr mbr_disk)
read_mbr-Settles_example = read_mbr-Settles mbr_disk-Serves mbr_disk-small

abbrev mbr_found : PartitionTable
mbr_found = record {
  scheme = mbr;
  partitions =
      record {
        index = 0;
        kind = b'0' ∷ b'x' ∷ b'8' ∷ b'3' ∷ [];
        start = 512;
        length = 1024;
        name = none;
      }
      ∷ record {
        index = 1;
        kind = b'0' ∷ b'x' ∷ b'0' ∷ b'7' ∷ [];
        start = 2048;
        length = 512;
        name = none;
      }
      ∷ [];
}

mbr_read : read length mbr_disk ≡ ok mbr_found
unfolding read or_next read_gpt read_mbr mbr_entry mbr_entries is_marked add_logical next_ebr
    marked_ebr ebr_round read_logical logicals read_exact_at read_exact_loop memory_read field
    byte_at chunks_from primary hex_fixed
mbr_read = refl

read-total_example :
    (t : PartitionTable) × (read length mbr_disk ≡ ok t) × IsTableOf mbr_disk_byte 2048 length t
read-total_example = read-total length mbr_disk mbr_disk_byte mbr_disk-Serves mbr_disk-small

read-get_example :
    (len mbr_found ≤ 4096)
    × ((i : ℕ) (p : Partition)
        → get mbr_found i ≡ some p
        → (p.index ≡ i)
          × (p.start ≤ 2048
              → (w : Window) × (window p mbr_disk ≡ ok w)
                × Serves (window_source w) (λ j. mbr_disk_byte (p.start + j))
                × (w.len ≡ min p.length (2048 - p.start))))
read-get_example =
    read-get length mbr_disk mbr_disk_byte mbr_disk-Serves mbr_disk-small mbr_found mbr_read

gpt_read :
    read length gpt_disk
    ≡ ok (record {
      scheme = gpt;
      partitions =
          record {
            index = 0;
            kind =
                b'0' ∷ b'0' ∷ b'0' ∷ b'0' ∷ b'0' ∷ b'0' ∷ b'0' ∷ b'1' ∷ b'-' ∷ replicate 4 b'0'
                ++ (b'-' ∷ replicate 4 b'0')
                ++ (b'-' ∷ replicate 4 b'0')
                ++ (b'-' ∷ replicate 12 b'0');
            start = 2560;
            length = 1024;
            name = some (b'A' ∷ []);
          }
          ∷ [];
    })
unfolding read or_next read_gpt gpt_entries gpt_entry used_entry gpt_partition all_zero extent
    extent_length read_exact_at read_exact_loop memory_read field byte_at chunks_from guid_string
    hex_fixed decode_name units before_zero from_utf16_lossy
gpt_read = refl

decode_name-encode_utf16_example :
    decode_name (unit_bytes (encode_utf16 (b'A' ∷ 0x1_f600 ∷ [])) ++ replicate 4 0)
    ≡ some (b'A' ∷ 0x1_f600 ∷ [])
decode_name-encode_utf16_example =
    decode_name-encode_utf16 b'A' (0x1_f600 ∷ []) 4
      ((inl (omega arith), omega arith), ((inr (omega arith, omega arith), omega arith), tt))
