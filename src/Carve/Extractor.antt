-- ===== src/Carve/Extractor.antt =====
-- latent-carve/src/extractor.rs: the trait, its metadata, carved artefacts and rejections.
use latent_dfir.Common.{ℕ, List, Bytes, String, Outcome, ok, ◌>>=◌, expect, length, ◌+◌}
use latent_dfir.Core.Hash.{Digest, sha256_reader, slice_reader}

pub data Platform : Type 0 where
  windows linux mac_os cross_platform : Platform

-- The `Display` of `Platform`.
unfoldable pub platform_name : Platform → String
platform_name windows = "windows"
platform_name linux = "linux"
platform_name mac_os = "macos"
platform_name cross_platform = "cross-platform"

pub record ExtractorMetadata : Type 0 where
  pub name : String
  pub platform : Platform
  pub method : String

pub record Carved : Type 0 where
  pub offset : ℕ
  pub kind : String
  pub method : String
  pub raw_sha256 : Bytes
  pub bytes : Bytes

pub data Rejection : Type 0 where
  not_this_format : Rejection
  truncated : (needed available : ℕ) → Rejection
  length_out_of_bounds : (field : String) (value max : ℕ) → Rejection
  failed_validation : String → Rejection

-- `Carved::new`. Reading a slice of n bytes to its end takes at most n + 1 reads.
unfoldable pub new_carved : Digest → ℕ → String → String → Bytes → Outcome Rejection Carved
new_carved d offset kind method bytes = do
  raw_sha256 ← expect (sha256_reader d slice_reader (length bytes + 1) bytes)
  ok (record {
    offset = offset;
    kind = kind;
    method = method;
    raw_sha256 = raw_sha256;
    bytes = bytes;
  })

-- The trait.
pub record Extractor : Type 0 where
  pub metadata : ExtractorMetadata
  pub signatures : List Bytes
  pub max_structure_size : ℕ
  pub extract : ℕ → Bytes → Outcome Rejection (List Carved)
