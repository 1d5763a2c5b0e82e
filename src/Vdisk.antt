-- ===== src/Vdisk.antt =====
-- latent-source/src/vdisk/mod.rs, and the read loop that the three virtual disk readers share.
pub mod Blocks
pub mod Fields
pub mod Placed
pub mod Qcow2
pub mod Vhdx
pub mod Vmdk
use latent_dfir.Common.{
  ℕ, zero, suc, ◌+◌, ◌-◌, ◌/◌, ◌%◌, min, Bool, true, false, Option, none, some, List, [], ◌++◌,
  Bytes, Outcome, ok, err, panic, stuck, ◌>>=◌, from_be_bytes, from_le_bytes, replicate, add64, ltb,
  ◌==◌, if◌then◌else◌,
}
use latent_dfir.Source.{Source, SourceError, Identity, read_exact_at, out_of_range}

unfoldable pub be_u32 : Source → ℕ → Outcome SourceError ℕ
be_u32 src offset = do b ← read_exact_at src offset 4; ok (from_be_bytes b)

unfoldable pub be_u64 : Source → ℕ → Outcome SourceError ℕ
be_u64 src offset = do b ← read_exact_at src offset 8; ok (from_be_bytes b)

unfoldable pub le_u16 : Source → ℕ → Outcome SourceError ℕ
le_u16 src offset = do b ← read_exact_at src offset 2; ok (from_le_bytes b)

unfoldable pub le_u32 : Source → ℕ → Outcome SourceError ℕ
le_u32 src offset = do b ← read_exact_at src offset 4; ok (from_le_bytes b)

unfoldable pub le_u64 : Source → ℕ → Outcome SourceError ℕ
le_u64 src offset = do b ← read_exact_at src offset 8; ok (from_le_bytes b)

-- How an image is laid out in blocks: where in the inner source a block is, if it is allocated, and
-- how an offset inside the block is added to that place.
pub record Image : Type 0 where
  pub inner : Source
  pub block_size : ℕ
  pub virtual_size : ℕ
  pub locate : ℕ → Outcome SourceError (Option ℕ)
  pub join : ℕ → ℕ → ℕ

-- The `match` on what `locate` found: `len` bytes of a block from `within` on.
unfoldable pub block_part : Image → ℕ → ℕ → ℕ → Outcome SourceError Bytes
block_part d block within len = do
  slot ← d.locate block
  elim slot [
    | some host ↦ read_exact_at d.inner (d.join host within) len
    | none ↦ ok (replicate len 0)
  ]

-- `while done < n`, with `out` the part of the buffer that is filled. A zero block size would panic
-- in `%`; `open` refuses it.
unfoldable pub read_blocks : ℕ → Image → ℕ → ℕ → ℕ → Bytes → Outcome SourceError Bytes
read_blocks zero d offset n done out = if ltb done n then stuck else ok out
read_blocks (suc fuel) d offset n done out =
    let at = add64 offset done in
    let within = at % d.block_size in
    let len = min (d.block_size - within) (n - done) in
    let round = do
      part ← block_part d (at / d.block_size) within len
      read_blocks fuel d offset n (done + len) (out ++ part)
    in if ltb done n then (if d.block_size == 0 then panic else round) else ok out

-- `read_at`: each round fills a byte at least, so `n` rounds are enough.
unfoldable pub image_read_at : Image → ℕ → ℕ → Outcome SourceError Bytes
image_read_at d offset wanted =
    let n = min wanted (d.virtual_size - offset) in
    if ltb d.virtual_size offset
    then err (out_of_range offset d.virtual_size)
    else read_blocks n d offset n 0 []

abbrev pub image_source : Image → Identity → Source
image_source d identity = record {
  size = d.virtual_size;
  identity = identity;
  read_at = image_read_at d;
}
