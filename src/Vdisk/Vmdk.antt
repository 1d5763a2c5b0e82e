-- ===== src/Vdisk/Vmdk.antt =====
-- latent-source/src/vdisk/vmdk.rs: monolithic sparse VMDK images.
pub mod Contents
pub mod Header
use latent_dfir.Common.{
  Bool, true, false, not, ◌||◌, List, [], ◌∷◌, Bytes, bytes_eq, replicate, String, err, require,
  ◌>>◌, min, bit_and, checked_mul, ℕ, ◌*◌, ◌/◌, ◌%◌, Option, none, some, Outcome, ok, ◌>>=◌, add64,
  mul64, saturating_add, saturating_mul, ◌==◌, if◌then◌else◌,
}
use latent_dfir.Source.{
  Source, SourceError, Identity, Format, FilePath, read_exact_at, malformed, unsupported,
}
use latent_dfir.Text.{trim, trim_start_matches, strip_prefix, eq_ignore_ascii_case, lines}
use latent_dfir.Text.Utf8.{from_utf8_lossy}
use latent_dfir.Vdisk.{Image, le_u32, le_u64, image_source}

abbrev pub sector : ℕ
sector = 512

pub record VmdkSource : Type 0 where
  pub inner : Source
  pub identity : Identity
  pub grain_bytes : ℕ
  pub gtes_per_gt : ℕ
  pub gd_offset : ℕ
  pub virtual_size : ℕ

abbrev pub magic : Bytes
magic = 0x4b ∷ 0x44 ∷ 0x4d ∷ 0x56 ∷ []

abbrev pub flag_compressed : ℕ
flag_compressed = 0x1_0000

abbrev parent_key : List ℕ
parent_key = b'p' ∷ b'a' ∷ b'r' ∷ b'e' ∷ b'n' ∷ b't' ∷ b'C' ∷ b'I' ∷ b'D' ∷ []

abbrev no_parent : List ℕ
no_parent = replicate 8 b'f'

-- The line names a parent: `strip_prefix("parentCID")` and the test of its value.
unfoldable pub names_parent : List ℕ → Bool
names_parent line = elim (strip_prefix parent_key (trim line)) [
  | none ↦ false
  | some rest ↦ not (
      eq_ignore_ascii_case (trim (trim_start_matches (λ c. (c == b' ') || (c == b'=')) rest))
        no_parent)
]

unfoldable pub reject_lines : FilePath → List (List ℕ) → Outcome SourceError (Unit {0})
reject_lines path [] = ok tt
reject_lines path (line ∷ lines) =
    let rest = reject_lines path lines in
    if names_parent line
    then err
        (unsupported path "vmdk" "image references a parent; only standalone images are supported")
    else rest

unfoldable pub reject_if_has_parent : Source → FilePath → ℕ → ℕ → Outcome SourceError (Unit {0})
reject_if_has_parent src path descriptor_offset descriptor_size =
    let check = do
      text ←
          src.read_at (saturating_mul descriptor_offset sector)
            (min (saturating_mul descriptor_size sector) 0x1_0000)
      reject_lines path (lines (from_utf8_lossy text))
    in if (descriptor_offset == 0) || (descriptor_size == 0) then ok tt else check

-- `checked_mul(…).ok_or_else(…)`
abbrev pub some_or {ℓ} : {A : Type ℓ} → Option A → SourceError → Outcome SourceError A
some_or (some a) e = ok a
some_or none e = err e

-- `VmdkSource::open`
unfoldable pub vmdk_open : Source → Outcome SourceError VmdkSource
vmdk_open inner = do
  let path = inner.identity.path
  let bad = λ (detail : String). malformed path "vmdk" detail
  head ← read_exact_at inner 0 4
  require (bytes_eq head magic) (bad "bad magic")
  flags ← le_u32 inner 8
  require (bit_and flags flag_compressed == 0)
      (unsupported path "vmdk" "compressed grains are not supported")
  capacity ← le_u64 inner 12
  grain_sectors ← le_u64 inner 20
  descriptor_offset ← le_u64 inner 28
  descriptor_size ← le_u64 inner 36
  gtes_per_gt ← le_u32 inner 44
  gd_offset ← le_u64 inner 56
  require (not ((grain_sectors == 0) || (gtes_per_gt == 0) || (gd_offset == 0)))
      (bad "zero grain size, GT size or grain directory offset")
  grain_bytes ← some_or (checked_mul grain_sectors sector) (bad "grain size overflow")
  virtual_size ← some_or (checked_mul capacity sector) (bad "capacity overflow")
  reject_if_has_parent inner path descriptor_offset descriptor_size
  ok (record {
    inner = inner;
    identity = record { path = path; format = Format.vmdk };
    grain_bytes = grain_bytes;
    gtes_per_gt = gtes_per_gt;
    gd_offset = gd_offset;
    virtual_size = virtual_size;
  })

-- The grain's entry, once its grain table is known.
unfoldable pub vmdk_entry : VmdkSource → ℕ → ℕ → Outcome SourceError (Option ℕ)
vmdk_entry v gt_sector grain = do
  let gt_index = grain % v.gtes_per_gt
  grain_sector ←
      le_u32 (v.inner) (saturating_add (saturating_mul gt_sector sector) (mul64 gt_index 4))
  ok (if grain_sector == 0 then none else some (mul64 grain_sector sector))

-- `VmdkSource::locate`
unfoldable pub vmdk_locate : VmdkSource → ℕ → Outcome SourceError (Option ℕ)
unfolding vmdk_entry
vmdk_locate v grain = do
  let gd_index = grain / v.gtes_per_gt
  gt_sector ←
      le_u32 (v.inner) (saturating_add (saturating_mul (v.gd_offset) sector) (mul64 gd_index 4))
  if gt_sector == 0 then ok none else vmdk_entry v gt_sector grain

abbrev pub vmdk_image : VmdkSource → Image
vmdk_image v = record {
  inner = v.inner;
  block_size = v.grain_bytes;
  virtual_size = v.virtual_size;
  locate = vmdk_locate v;
  join = add64;
}

-- `impl Source for VmdkSource`
abbrev pub vmdk_source : VmdkSource → Source
vmdk_source v = image_source (vmdk_image v) v.identity
