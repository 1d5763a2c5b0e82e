-- ===== src/Partition.antt =====
-- latent-source/src/partition.rs: partition tables. This file has the data, the texts and the reads
-- that GPT and MBR share. A text is the list of its code points.
pub mod Gpt
pub mod Mbr
pub mod Table
pub mod Found
pub mod Numbered
pub mod Names
pub mod Fields
use latent_dfir.Common.{
  ℕ, zero, suc, ◌+◌, ◌*◌, ◌/◌, ◌%◌, Bool, true, false, ◌&&◌, Option, none, some, List, [], ◌∷◌,
  ◌++◌, map, Bytes, Outcome, ok, err, panic, ◌>>=◌, mul64, slice, from_le_bytes, length, get_elem?,
  take, drop, leb, ◌==◌, if◌then◌else◌,
}
use latent_dfir.Source.{Source, SourceError}
use latent_dfir.Source.Window.{Window, range}
use latent_dfir.Core.Hash.{hex_digit}
use latent_dfir.Text.{from_utf16_lossy}

abbrev pub sector_size : ℕ
sector_size = 512

pub data Scheme : Type 0 where
  mbr gpt unpartitioned : Scheme

pub record Partition : Type 0 where
  pub index : ℕ
  pub kind : List ℕ
  pub start : ℕ
  pub length : ℕ
  pub name : Option (List ℕ)

-- `Partition::window`
unfoldable pub window : Partition → Source → Outcome SourceError Window
window p disk = range disk p.start (some p.length)

pub record PartitionTable : Type 0 where
  pub scheme : Scheme
  pub partitions : List Partition

-- `PartitionTable::is_empty`, `len` and `get`
abbrev pub no_partitions : List Partition → Bool
no_partitions [] = true
no_partitions (p ∷ ps) = false

unfoldable pub is_empty : PartitionTable → Bool
is_empty t = no_partitions t.partitions

unfoldable pub len : PartitionTable → ℕ
len t = length t.partitions

unfoldable pub get : PartitionTable → ℕ → Option Partition
get t index = get_elem? t.partitions index

-- The `None` of `read_gpt` and `read_mbr`, as the error that their early returns give.
pub data Absent : Type 0 where
  absent : Absent

-- The little-endian field of `n` bytes at `at`, as in `data[at..at + n].try_into().unwrap()`.
unfoldable pub field : Bytes → ℕ → ℕ → Outcome Absent ℕ
field buf at n = do b ← slice buf at (at + n); ok (from_le_bytes b)

-- `data[i]`
unfoldable pub byte_at : Bytes → ℕ → Outcome Absent ℕ
byte_at buf i = elim (get_elem? buf i) [ some b ↦ ok b | none ↦ panic ]

-- `slice::chunks_exact`, on fuel: each chunk shortens what is left, so the length is enough.
unfoldable pub chunks_from : ℕ → ℕ → Bytes → List Bytes
chunks_from zero k xs = []
chunks_from (suc fuel) k xs =
    let rest = chunks_from fuel k (drop k xs) in if leb k (length xs) then take k xs ∷ rest else []

abbrev pub chunks_exact : ℕ → Bytes → List Bytes
chunks_exact k xs = chunks_from (length xs) k xs

-- `{:0wx}` of a number below 16^w.
unfoldable pub hex_fixed : ℕ → ℕ → List ℕ
hex_fixed zero n = []
hex_fixed (suc w) n = hex_fixed w (n / 16) ++ (hex_digit (n % 16) ∷ [])

unfoldable pub primary : ℕ → ℕ → ℕ → ℕ → Partition
unfolding hex_fixed
primary index kind start_lba count = record {
  index = index;
  kind = b'0' ∷ b'x' ∷ hex_fixed 2 kind;
  start = mul64 start_lba sector_size;
  length = mul64 count sector_size;
  name = none;
}

abbrev pub dash : ℕ
dash = b'-'

-- `guid_string`; every caller passes 16 bytes, and fewer would panic in `g[i]`.
unfoldable pub guid_string : Bytes → Outcome Absent (List ℕ)
unfolding hex_fixed
guid_string (g0 ∷ g1 ∷ g2 ∷ g3 ∷ g4 ∷ g5 ∷ g6 ∷ g7 ∷ g8 ∷ g9 ∷ ga ∷ gb ∷ gc ∷ gd ∷ ge ∷ gf ∷ gs) =
    ok (
      hex_fixed 8 (from_le_bytes (g0 ∷ g1 ∷ g2 ∷ g3 ∷ []))
      ++ (dash ∷ hex_fixed 4 (from_le_bytes (g4 ∷ g5 ∷ [])))
      ++ (dash ∷ hex_fixed 4 (from_le_bytes (g6 ∷ g7 ∷ [])))
      ++ (dash ∷ hex_fixed 2 g8)
      ++ hex_fixed 2 g9
      ++ (dash ∷ hex_fixed 2 ga)
      ++ hex_fixed 2 gb
      ++ hex_fixed 2 gc
      ++ hex_fixed 2 gd
      ++ hex_fixed 2 ge
      ++ hex_fixed 2 gf)
guid_string _ = panic

-- `take_while(|&u| u != 0)`
unfoldable pub before_zero : List ℕ → List ℕ
before_zero [] = []
before_zero (u ∷ us) = let rest = before_zero us in if u == 0 then [] else u ∷ rest

-- The 16-bit units of a byte string: `chunks_exact(2)` and `u16::from_le_bytes`.
unfoldable pub units : Bytes → List ℕ
units (a ∷ b ∷ bs) = from_le_bytes (a ∷ b ∷ []) ∷ units bs
units _ = []

abbrev pub unless_empty : List ℕ → Option (List ℕ)
unless_empty [] = none
unless_empty (u ∷ us) = some (from_utf16_lossy (u ∷ us))

unfoldable pub decode_name : Bytes → Option (List ℕ)
unfolding before_zero units
decode_name bytes = unless_empty (before_zero (units bytes))
