-- ===== src/Carve/Evtx.antt =====
-- latent-carve/src/evtx: format.rs, the structural validation of EVTX chunks, records and file
-- headers, and mod.rs, the extractor. The CRC-32 (crc32fast) is a parameter.
pub mod Spec
pub mod Next
pub mod Records
pub mod Chunks
pub mod FileHeaders
pub mod Magic
pub mod Structures
pub mod Extract
use latent_dfir.Common.{
  ℕ, zero, suc, ◌+◌, ◌-◌, ◌*◌, ◌%◌, ◌≤◌, ◌<◌, min, not, Bool, true, false, ◌&&◌, ◌||◌, Option, none,
  some, List, [], ◌∷◌, ◌++◌, Bytes, bytes_eq, starts_with, Outcome, require, ok, err, panic, ◌>>=◌,
  ◌>>◌, String, slice, get_range, from_le_bytes, length, ltb, leb, ◌==◌, if◌then◌else◌,
}
use latent_dfir.Core.Hash.{Digest}
use latent_dfir.Carve.Extractor.{
  Extractor, ExtractorMetadata, windows, Carved, new_carved, Rejection, not_this_format, truncated,
  length_out_of_bounds, failed_validation,
}

abbrev pub chunk_magic : Bytes
chunk_magic = b'E' ∷ b'l' ∷ b'f' ∷ b'C' ∷ b'h' ∷ b'n' ∷ b'k' ∷ 0 ∷ []

abbrev pub file_magic : Bytes
file_magic = b'E' ∷ b'l' ∷ b'f' ∷ b'F' ∷ b'i' ∷ b'l' ∷ b'e' ∷ 0 ∷ []

abbrev pub record_magic : Bytes
record_magic = 0x2a ∷ 0x2a ∷ 0x00 ∷ 0x00 ∷ []

abbrev pub chunk_size : ℕ
chunk_size = 64 * 1024

abbrev pub chunk_header_size : ℕ
chunk_header_size = 512

abbrev pub file_header_size : ℕ
file_header_size = 128

abbrev pub record_header_size : ℕ
record_header_size = 24

abbrev pub filetime_1990 : ℕ
filetime_1990 = 122_756_256_000_000_000

abbrev pub filetime_2100 : ℕ
filetime_2100 = 157_469_184_000_000_000

-- `.unwrap()`
abbrev pub unwrap : {E : Type 0} → Option ℕ → Outcome E ℕ
unwrap (some v) = ok v
unwrap none = panic

abbrev pub le_of : Option Bytes → Option ℕ
le_of (some b) = some (from_le_bytes b)
le_of none = none

unfoldable pub read_u32 : Bytes → ℕ → Option ℕ
read_u32 buf at = le_of (get_range buf at (at + 4))

unfoldable pub read_u64 : Bytes → ℕ → Option ℕ
read_u64 buf at = le_of (get_range buf at (at + 8))

pub record EvtxConfig : Type 0 where
  pub min_filetime : ℕ
  pub max_filetime : ℕ
  pub max_record_size : ℕ

abbrev pub default_config : EvtxConfig
default_config = record {
  min_filetime = filetime_1990;
  max_filetime = filetime_2100;
  max_record_size = chunk_size;
}

pub record FileHeaderMeta : Type 0 where
  pub first_chunk : ℕ
  pub last_chunk : ℕ
  pub next_record_id : ℕ
  pub chunk_count : ℕ
  pub flags : ℕ

pub record RecordFrame : Type 0 where
  pub size : ℕ
  pub record_id : ℕ

module _ (crc32 : Bytes → ℕ) where
  -- `validate_chunk`. Updating the hasher with two slices hashes them joined.
  unfoldable pub validate_chunk : Bytes → Outcome Rejection ℕ
  validate_chunk buf = do
    require (leb chunk_header_size (length buf)) (truncated chunk_header_size (length buf))
    head ← slice buf 0 8
    require (bytes_eq head chunk_magic) not_this_format
    free_space ← unwrap (read_u32 buf 48)
    require (leb chunk_header_size free_space && leb free_space chunk_size)
        (length_out_of_bounds "free_space_offset" free_space chunk_size)
    want_header ← unwrap (read_u32 buf 124)
    front ← slice buf 0 120
    back ← slice buf 128 chunk_header_size
    require (crc32 (front ++ back) == want_header) (failed_validation "chunk header CRC mismatch")
    require (leb free_space (length buf)) (truncated free_space (length buf))
    want_records ← unwrap (read_u32 buf 52)
    records ← slice buf chunk_header_size free_space
    require (crc32 records == want_records) (failed_validation "event records checksum mismatch")
    first_num ← unwrap (read_u64 buf 8)
    last_num ← unwrap (read_u64 buf 16)
    first_id ← unwrap (read_u64 buf 24)
    last_id ← unwrap (read_u64 buf 32)
    require (leb first_num last_num && leb first_id last_id)
        (failed_validation "first/last record identifier incoherent")
    ok (min chunk_size (length buf))

  -- `validate_file_header`
  unfoldable pub validate_file_header : Bytes → Outcome Rejection FileHeaderMeta
  validate_file_header buf = do
    require (leb file_header_size (length buf)) (truncated file_header_size (length buf))
    head ← slice buf 0 8
    require (bytes_eq head file_magic) not_this_format
    want ← unwrap (read_u32 buf 124)
    front ← slice buf 0 120
    require (crc32 front == want) (failed_validation "file header CRC mismatch")
    first_chunk ← unwrap (read_u64 buf 8)
    last_chunk ← unwrap (read_u64 buf 16)
    require (leb first_chunk last_chunk) (failed_validation "first/last chunk number incoherent")
    next_record_id ← unwrap (read_u64 buf 24)
    count ← slice buf 42 44
    flags ← unwrap (read_u32 buf 120)
    ok (record {
      first_chunk = first_chunk;
      last_chunk = last_chunk;
      next_record_id = next_record_id;
      chunk_count = from_le_bytes count;
      flags = flags;
    })

abbrev pub min_record_size : ℕ
min_record_size = record_header_size + 4

-- Whether the bytes that follow are a well-formed record, and then its identifier.
unfoldable pub next_record_id : Bytes → Outcome Rejection (Option ℕ)
next_record_id next =
    let sized = do
      next_size ← unwrap (read_u32 next 4)
      let tailed = do
        tail ← unwrap (read_u32 next (next_size - 4))
        let identified = do id ← unwrap (read_u64 next 8); ok (some id)
        if tail == next_size then identified else ok none
      if leb min_record_size next_size && (next_size % 8 == 0) && leb next_size (length next)
          then tailed
          else ok none
    in let marked = do head ← slice next 0 4; if bytes_eq head record_magic then sized else ok none
      in if leb min_record_size (length next) then marked else ok none

-- `if let Some(next) = data.get(size..)`
abbrev pub following : Option Bytes → Outcome Rejection (Option ℕ)
following (some next) = next_record_id next
following none = ok none

-- The identifier grows, where there is a next one.
abbrev pub grows : ℕ → Option ℕ → Bool
grows id none = true
grows id (some next_id) = ltb id next_id

-- `validate_record`
unfoldable pub validate_record : Bytes → EvtxConfig → Outcome Rejection RecordFrame
validate_record buf config = do
  require (leb min_record_size (length buf)) (truncated min_record_size (length buf))
  head ← slice buf 0 4
  require (bytes_eq head record_magic) not_this_format
  size ← unwrap (read_u32 buf 4)
  require (leb min_record_size size && leb size (config.max_record_size))
      (length_out_of_bounds "record size" size (config.max_record_size))
  require (size % 8 == 0) (failed_validation "record size is not 8-byte aligned")
  require (leb size (length buf)) (truncated size (length buf))
  tail ← unwrap (read_u32 buf (size - 4))
  require (tail == size) (failed_validation "record head/tail size mismatch")
  record_id ← unwrap (read_u64 buf 8)
  filetime ← unwrap (read_u64 buf 16)
  require (leb (config.min_filetime) filetime && leb filetime (config.max_filetime))
      (failed_validation "record FILETIME outside the plausibility window")
  next_id ← following (get_range buf size (length buf))
  require (grows record_id next_id)
      (failed_validation "record identifiers not monotonically increasing")
  ok (record { size = size; record_id = record_id })

module _ (crc32 : Bytes → ℕ) (d : Digest) where
  -- `EvtxExtractor::extract`
  unfoldable pub extract : EvtxConfig → ℕ → Bytes → Outcome Rejection (List Carved)
  extract config offset buf =
      let chunk = do
        len ← validate_chunk crc32 buf
        bytes ← slice buf 0 len
        carved ← new_carved d offset "evtx.chunk" "carve.evtx.chunk" bytes
        ok (carved ∷ [])
      in let file_header = do
        meta ← validate_file_header crc32 buf
        bytes ← slice buf 0 (min file_header_size (length buf))
        carved ← new_carved d offset "evtx.file_header" "carve.evtx.file_header" bytes
        ok (carved ∷ [])
        in let event_record = do
          frame ← validate_record buf config
          bytes ← slice buf 0 (frame.size)
          carved ← new_carved d offset "evtx.record" "carve.evtx.record" bytes
          ok (carved ∷ [])
          in if starts_with buf chunk_magic
            then chunk
            else if starts_with buf file_magic
            then file_header
            else if starts_with buf record_magic
            then event_record
            else err not_this_format

  -- `impl Extractor for EvtxExtractor`
  abbrev pub evtx_extractor : EvtxConfig → Extractor
  evtx_extractor config = record {
    metadata = record { name = "evtx"; platform = windows; method = "carve.evtx" };
    signatures = chunk_magic ∷ record_magic ∷ file_magic ∷ [];
    max_structure_size = chunk_size;
    extract = extract config;
  }

  -- `EvtxExtractor::new`
  abbrev pub new_extractor : Extractor
  new_extractor = evtx_extractor default_config
