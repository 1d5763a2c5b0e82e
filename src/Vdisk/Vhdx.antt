-- ===== src/Vdisk/Vhdx.antt =====
-- latent-source/src/vdisk/vhdx.rs: VHDX images, fixed and dynamic.
pub mod Header
pub mod Contents
use latent_dfir.Common.{
  ℕ, zero, suc, ◌+◌, ◌*◌, ◌/◌, ◌%◌, max, not, Bool, true, false, ◌&&◌, ◌||◌, Option, none, some,
  List, [], ◌∷◌, Bytes, bytes_eq, Outcome, require, ok, err, ◌>>=◌, ◌>>◌, String, bit_and, add64,
  saturating_add, saturating_mul, leb, ◌==◌, if◌then◌else◌,
}
use latent_dfir.Source.{
  Source, SourceError, Identity, Format, FilePath, read_exact_at, malformed, unsupported,
}
use latent_dfir.Vdisk.{Image, le_u16, le_u32, le_u64, image_source}

abbrev pub region_table_offset : ℕ
region_table_offset = 0x30000

abbrev pub bat_region : Bytes
bat_region =
    0x66 ∷ 0x77 ∷ 0xc2 ∷ 0x2d ∷ 0x23 ∷ 0xf6 ∷ 0x00 ∷ 0x42 ∷ 0x9d ∷ 0x64 ∷ 0x11 ∷ 0x5e ∷ 0x9b ∷ 0xfd
    ∷ 0x4a ∷ 0x08 ∷ []

abbrev pub metadata_region : Bytes
metadata_region =
    0x06 ∷ 0xa2 ∷ 0x7c ∷ 0x8b ∷ 0x90 ∷ 0x47 ∷ 0x9a ∷ 0x4b ∷ 0xb8 ∷ 0xfe ∷ 0x57 ∷ 0x5f ∷ 0x05 ∷ 0x0f
    ∷ 0x88 ∷ 0x6e ∷ []

abbrev pub file_parameters : Bytes
file_parameters =
    0x37 ∷ 0x67 ∷ 0xa1 ∷ 0xca ∷ 0x36 ∷ 0xfa ∷ 0x43 ∷ 0x4d ∷ 0xb3 ∷ 0xb6 ∷ 0x33 ∷ 0xf0 ∷ 0xaa ∷ 0x44
    ∷ 0xe7 ∷ 0x6b ∷ []

abbrev pub virtual_disk_size : Bytes
virtual_disk_size =
    0x24 ∷ 0x42 ∷ 0xa5 ∷ 0x2f ∷ 0x1b ∷ 0xcd ∷ 0x76 ∷ 0x48 ∷ 0xb2 ∷ 0x11 ∷ 0x5d ∷ 0xbe ∷ 0xd8 ∷ 0x3b
    ∷ 0xf4 ∷ 0xb8 ∷ []

abbrev pub logical_sector_size_id : Bytes
logical_sector_size_id =
    0x1d ∷ 0xbf ∷ 0x41 ∷ 0x81 ∷ 0x6f ∷ 0xa9 ∷ 0x09 ∷ 0x47 ∷ 0xba ∷ 0x47 ∷ 0xf2 ∷ 0x33 ∷ 0xa8 ∷ 0xfa
    ∷ 0xab ∷ 0x5f ∷ []

abbrev pub payload_block_fully_present : ℕ
payload_block_fully_present = 6

abbrev pub offset_mask : ℕ
offset_mask = 0xffff_ffff_fff0_0000

pub record VhdxSource : Type 0 where
  pub inner : Source
  pub identity : Identity
  pub bat_offset : ℕ
  pub block_size : ℕ
  pub chunk_ratio : ℕ
  pub virtual_size : ℕ

-- The loop over the region entries from `i` on: the last BAT and metadata offsets seen.
unfoldable pub regions :
    Source → ℕ → ℕ → Option ℕ → Option ℕ → Outcome SourceError (Option ℕ × Option ℕ)
regions src i zero bat metadata = ok (bat, metadata)
regions src i (suc n) bat metadata = do
  let entry = region_table_offset + 16 + i * 32
  guid ← read_exact_at src entry 16
  file_offset ← le_u64 src (entry + 16)
  regions src (i + 1) n (if bytes_eq guid bat_region then some file_offset else bat)
      (if bytes_eq guid metadata_region then some file_offset else metadata)

abbrev pub both : SourceError → Option ℕ × Option ℕ → Outcome SourceError (ℕ × ℕ)
both e (some b, some m) = ok (b, m)
both e (some b, none) = err e
both e (none, m) = err e

-- `region_table`
unfoldable pub region_table : Source → FilePath → Outcome SourceError (ℕ × ℕ)
unfolding regions
region_table src path = do
  let bad = λ (detail : String). malformed path "vhdx" detail
  sig ← read_exact_at src region_table_offset 4
  require (bytes_eq sig (b'r' ∷ b'e' ∷ b'g' ∷ b'i' ∷ [])) (bad "no region table")
  count ← le_u32 src (region_table_offset + 8)
  require (leb count 2047) (bad "absurd region entry count")
  found ← regions src 0 count none none
  both (bad "missing BAT or metadata region") found

-- What the metadata loop has found so far.
pub record Found : Type 0 where
  pub block_size : Option ℕ
  pub virtual_size : Option ℕ
  pub sector_size : Option ℕ
  pub has_parent : Bool

pub record Metadata : Type 0 where
  pub block_size : ℕ
  pub virtual_size : ℕ
  pub logical_sector_size : ℕ
  pub has_parent : Bool

-- The `match guid` of the metadata loop.
unfoldable pub metadata_item : Source → Bytes → ℕ → Found → Outcome SourceError Found
metadata_item src guid item found =
    if bytes_eq guid file_parameters
    then (do
      block_size ← le_u32 src item
      flags ← le_u32 src (add64 item 4)
      ok (record found { block_size = some block_size; has_parent = not (bit_and flags 2 == 0) }))
    else if bytes_eq guid virtual_disk_size
    then (do size ← le_u64 src item; ok (record found { virtual_size = some size }))
    else if bytes_eq guid logical_sector_size_id
    then (do size ← le_u32 src item; ok (record found { sector_size = some size }))
    else ok found

unfoldable pub metadata_items : Source → ℕ → ℕ → ℕ → Found → Outcome SourceError Found
unfolding metadata_item
metadata_items src region i zero found = ok found
metadata_items src region i (suc n) found = do
  let entry = add64 (add64 region 32) (i * 32)
  guid ← read_exact_at src entry 16
  at ← le_u32 src (add64 entry 16)
  found' ← metadata_item src guid (add64 region at) found
  metadata_items src region (i + 1) n found'

-- `option.ok_or_else(|| e)?`
abbrev pub present : Option ℕ → SourceError → Outcome SourceError ℕ
present (some v) e = ok v
present none e = err e

-- `Metadata::read`
unfoldable pub metadata_read : Source → ℕ → FilePath → Outcome SourceError Metadata
unfolding metadata_items
metadata_read src region path = do
  let bad = λ (detail : String). malformed path "vhdx" detail
  sig ← read_exact_at src region 8
  require (bytes_eq sig (b'm' ∷ b'e' ∷ b't' ∷ b'a' ∷ b'd' ∷ b'a' ∷ b't' ∷ b'a' ∷ []))
      (bad "no metadata table")
  count ← le_u16 src (add64 region 10)
  require (leb count 2047) (bad "absurd metadata entry count")
  found ←
      metadata_items src region 0 count
        (record { block_size = none; virtual_size = none; sector_size = none; has_parent = false })
  block_size ← present (found.block_size) (bad "no file parameters")
  virtual_size ← present (found.virtual_size) (bad "no virtual disk size")
  sector_size ← present (found.sector_size) (bad "no logical sector size")
  ok (record {
    block_size = block_size;
    virtual_size = virtual_size;
    logical_sector_size = sector_size;
    has_parent = found.has_parent;
  })

-- `VhdxSource::open`
unfoldable pub vhdx_open : Source → Outcome SourceError VhdxSource
unfolding region_table metadata_read
vhdx_open inner = do
  let path = inner.identity.path
  let bad = λ (detail : String). malformed path "vhdx" detail
  file_id ← read_exact_at inner 0 8
  require (bytes_eq file_id (b'v' ∷ b'h' ∷ b'd' ∷ b'x' ∷ b'f' ∷ b'i' ∷ b'l' ∷ b'e' ∷ []))
      (bad "bad file identifier")
  (bat_offset, metadata) ← region_table inner path
  meta ← metadata_read inner metadata path
  require (not (meta.has_parent))
      (unsupported path "vhdx" "differencing disk with a parent is not supported")
  require
      (leb 0x10_0000 (meta.block_size)
        && leb (meta.block_size) 0x1000_0000
        && not (meta.logical_sector_size == 0))
      (bad "implausible block or sector size")
  ok (record {
    inner = inner;
    identity = record { path = path; format = Format.vhdx };
    bat_offset = bat_offset;
    block_size = meta.block_size;
    chunk_ratio = max (8_388_608 * meta.logical_sector_size / meta.block_size) 1;
    virtual_size = meta.virtual_size;
  })

-- `block + block / self.chunk_ratio`: a sector bitmap entry follows every `chunk_ratio` payload
-- entries of the block allocation table.
unfoldable pub bat_index : VhdxSource → ℕ → ℕ
bat_index v block = add64 block (block / v.chunk_ratio)

-- `VhdxSource::locate`
unfoldable pub vhdx_locate : VhdxSource → ℕ → Outcome SourceError (Option ℕ)
unfolding bat_index
vhdx_locate v block = do
  let at = saturating_add (v.bat_offset) (saturating_mul (bat_index v block) 8)
  entry ← le_u64 (v.inner) at
  ok (
      if bit_and entry 7 == payload_block_fully_present
      then some (bit_and entry offset_mask)
      else none)

abbrev pub vhdx_image : VhdxSource → Image
vhdx_image v = record {
  inner = v.inner;
  block_size = v.block_size;
  virtual_size = v.virtual_size;
  locate = vhdx_locate v;
  join = saturating_add;
}

-- `impl Source for VhdxSource`
abbrev pub vhdx_source : VhdxSource → Source
vhdx_source v = image_source (vhdx_image v) v.identity
