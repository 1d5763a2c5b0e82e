-- ===== src/Partition/Mbr.antt =====
-- `read_mbr` and `read_logical`.
pub mod Spec
pub mod Rows
pub mod Chains
pub mod Accepted
use latent_dfir.Common.{
  ℕ, zero, suc, ◌+◌, ◌*◌, Bool, true, false, not, ◌&&◌, ◌||◌, Option, none, some, List, [], ◌∷◌,
  ◌++◌, Bytes, Outcome, ok, err, panic, stuck, ◌>>=◌, ◌>>◌, require, map_err, slice, length, take,
  mul64, add64, leb, ◌==◌, if◌then◌else◌,
}
use latent_dfir.Source.{Source, SourceError, read_exact_at}
use latent_dfir.Partition.{
  Partition, Absent, absent, sector_size, field, byte_at, chunks_exact, primary, no_partitions,
}

-- `sector[510] != 0x55 || sector[511] != 0xAA`, the other way round.
unfoldable pub is_marked : Bytes → Outcome Absent Bool
is_marked sector = do
  a ← byte_at sector 510
  b ← byte_at sector 511
  ok ((a == 0x55) && (b == 0xaa))

-- One round of the loop over the four entries of the table: the partitions, and the base of the
-- extended partition if one was seen.
unfoldable pub mbr_entry :
    List Partition → Option ℕ → Bytes → Outcome Absent (List Partition × Option ℕ)
mbr_entry partitions extended entry = do
  kind ← byte_at entry 4
  start ← field entry 8 4
  count ← field entry 12 4
  ok (
      if (kind == 0x00) || (kind == 0xee)
      then (partitions, extended)
      else if (kind == 0x05) || (kind == 0x0f) || (kind == 0x85)
      then (partitions, some start)
      else if count == 0
      then (partitions, extended)
      else (partitions ++ (primary (length partitions) kind start count ∷ []), extended))

unfoldable pub mbr_entries :
    List Partition → Option ℕ → List Bytes → Outcome Absent (List Partition × Option ℕ)
mbr_entries partitions extended [] = ok (partitions, extended)
mbr_entries partitions extended (entry ∷ entries) = do
  (partitions', extended') ← mbr_entry partitions extended entry
  mbr_entries partitions' extended' entries

-- The partition that the first entry of an extended boot record adds.
unfoldable pub add_logical : List Partition → ℕ → Bytes → Outcome Absent (List Partition)
add_logical partitions ebr sector = do
  logical ← slice sector 446 462
  kind ← byte_at logical 4
  start ← field logical 8 4
  count ← field logical 12 4
  ok (
      if not (kind == 0) && not (count == 0)
      then partitions ++ (primary (length partitions) kind (add64 ebr start) count ∷ [])
      else partitions)

-- Where the second entry says that the next extended boot record is; `none` is a `break`.
unfoldable pub next_ebr : ℕ → ℕ → Bytes → Outcome Absent (Option ℕ)
next_ebr base ebr sector = do
  next ← slice sector 462 478
  rel ← field next 8 4
  ok (if rel == 0 then none else if add64 base rel == ebr then none else some (add64 base rel))

unfoldable pub marked_ebr :
    List Partition → ℕ → ℕ → Bytes → Outcome Absent (List Partition × Option ℕ)
marked_ebr partitions base ebr sector =
    let more = do
      partitions' ← add_logical partitions ebr sector
      next ← next_ebr base ebr sector
      ok (partitions', next)
    in do marked ← is_marked sector; if marked then more else ok (partitions, none)

-- One round of the `while`, from the read on.
unfoldable pub ebr_round :
    List Partition → ℕ → ℕ → Outcome SourceError Bytes → Outcome Absent (List Partition × Option ℕ)
unfolding marked_ebr
ebr_round partitions base ebr (ok sector) = marked_ebr partitions base ebr sector
ebr_round partitions base ebr (err e) = ok (partitions, none)
ebr_round partitions base ebr panic = panic
ebr_round partitions base ebr stuck = stuck

-- `read_logical`, with the rounds that `seen < 1024` leaves.
unfoldable pub read_logical : ℕ → Source → ℕ → ℕ → List Partition → Outcome Absent (List Partition)
read_logical zero src base ebr partitions = ok partitions
read_logical (suc rounds) src base ebr partitions = do
  (partitions', next) ←
      ebr_round partitions base ebr (read_exact_at src (mul64 ebr sector_size) sector_size)
  elim next [ none ↦ ok partitions' | some ebr' ↦ read_logical rounds src base ebr' partitions' ]

-- `if let Some(base) = extended_base`
unfoldable pub logicals : Source → List Partition × Option ℕ → Outcome Absent (List Partition)
logicals src (partitions, none) = ok partitions
logicals src (partitions, some base) = read_logical 1024 src base base partitions

unfoldable pub read_mbr : Source → Outcome Absent (List Partition)
read_mbr src = do
  sector ← map_err (λ e. absent) (read_exact_at src 0 sector_size)
  marked ← is_marked sector
  require marked absent
  table ← slice sector 446 510
  found ← mbr_entries [] none (take 4 (chunks_exact 16 table))
  partitions ← logicals src found
  require (not (no_partitions partitions)) absent
  ok partitions
