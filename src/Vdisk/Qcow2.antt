-- ===== src/Vdisk/Qcow2.antt =====
-- latent-source/src/vdisk/qcow2.rs: QCOW2 version 3 images.
pub mod Header
pub mod Contents
use latent_dfir.Common.{
  ℕ, ◌+◌, ◌*◌, ◌/◌, ◌%◌, ◌^◌, ◌≤◌, ◌<◌, ◌≡◌, arith, not, Bool, true, false, ◌&&◌, Option, none,
  some, ◌⊎◌, List, [], ◌∷◌, Bytes, bytes_eq, Outcome, require, ok, err, ◌>>=◌, ◌>>◌, String,
  bit_and, add64, saturating_add, u64_mod, leb, ◌==◌, if◌then◌else◌,
}
use latent_dfir.Source.{
  Source, SourceError, Identity, Format, FilePath, read_exact_at, malformed, unsupported,
}
use latent_dfir.Vdisk.{Image, be_u32, be_u64, image_source}

abbrev pub magic : Bytes
magic = 0x51 ∷ 0x46 ∷ 0x49 ∷ 0xfb ∷ []

abbrev pub offset_mask : ℕ
offset_mask = 0x00ff_ffff_ffff_fe00

-- `1 << 62`
abbrev pub l2_compressed : ℕ
l2_compressed = 0x4000_0000_0000_0000

pub record Qcow2Source : Type 0 where
  pub inner : Source
  pub identity : Identity
  pub cluster_size : ℕ
  pub l2_entries : ℕ
  pub l1_offset : ℕ
  pub l1_size : ℕ
  pub virtual_size : ℕ

-- `Qcow2Source::open`
unfoldable pub qcow2_open : Source → Outcome SourceError Qcow2Source
qcow2_open inner = do
  let path = inner.identity.path
  let bad = λ (detail : String). malformed path "qcow2" detail
  let refused = λ (detail : String). unsupported path "qcow2" detail
  head ← read_exact_at inner 0 4
  require (bytes_eq head magic) (bad "bad magic")
  version ← be_u32 inner 4
  require (version == 3) (bad "only version 3 is handled")
  backing ← be_u64 inner 8
  require (backing == 0) (refused "image references a backing file")
  crypt ← be_u32 inner 32
  require (crypt == 0) (refused "encrypted images are not supported")
  snapshots ← be_u32 inner 60
  require (snapshots == 0) (refused "internal snapshots are not supported")
  cluster_bits ← be_u32 inner 20
  require (leb 9 cluster_bits && leb cluster_bits 21) (bad "cluster_bits out of range")
  let cluster_size = 2 ^ cluster_bits
  virtual_size ← be_u64 inner 24
  l1_size ← be_u32 inner 36
  l1_offset ← be_u64 inner 40
  ok (record {
    inner = inner;
    identity = record { path = path; format = Format.qcow2 };
    cluster_size = cluster_size;
    l2_entries = cluster_size / 8;
    l1_offset = l1_offset;
    l1_size = l1_size;
    virtual_size = virtual_size;
  })

-- The cluster's L2 entry, once its L2 table is known.
unfoldable pub qcow2_entry : Qcow2Source → ℕ → ℕ → Outcome SourceError (Option ℕ)
qcow2_entry q l2_table cluster = do
  let l2_index = cluster % q.l2_entries
  entry ← be_u64 (q.inner) (saturating_add l2_table (l2_index * 8))
  require (bit_and entry l2_compressed == 0)
      (unsupported (q.identity.path) "qcow2" "compressed clusters are not supported")
  let host = bit_and entry offset_mask
  ok (if host == 0 then none else some host)

-- `Qcow2Source::locate`
unfoldable pub qcow2_locate : Qcow2Source → ℕ → Outcome SourceError (Option ℕ)
unfolding qcow2_entry
qcow2_locate q cluster =
    let l1_index = cluster / q.l2_entries in
    let lookup = do
      l1_entry ← be_u64 (q.inner) (saturating_add (q.l1_offset) (l1_index * 8))
      let l2_table = bit_and l1_entry offset_mask
      if l2_table == 0 then ok none else qcow2_entry q l2_table cluster
    in if leb q.l1_size l1_index then ok none else lookup

abbrev pub qcow2_image : Qcow2Source → Image
qcow2_image q = record {
  inner = q.inner;
  block_size = q.cluster_size;
  virtual_size = q.virtual_size;
  locate = qcow2_locate q;
  join = add64;
}

-- `impl Source for Qcow2Source`
abbrev pub qcow2_source : Qcow2Source → Source
qcow2_source q = image_source (qcow2_image q) q.identity
