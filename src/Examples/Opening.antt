-- ===== src/Examples/Opening.antt =====
-- Opening VMDK and EWF images, and paths, at concrete inputs.
use latent_dfir.Common.{ℕ, ◌≤◌, ◌<◌, ◌≡◌, refl, arith, true, none, some, [], ◌∷◌, span, ok, Meets}
use latent_dfir.Source.{Source}
use latent_dfir.Source.Raw.{
  raw_source, raw_open, raw_read_at, read_backing, open_file, open_readonly,
}
use latent_dfir.Vdisk.Vmdk.{vmdk_open}
use latent_dfir.Vdisk.Vmdk.Header.{IsHeader, vmdk_open-Meets}
use latent_dfir.Ewf.{Libewf, EwfSource, ewf_open}
use latent_dfir.Ewf.Ledger.{settle, nothing, all_calls, ewf_open-settle}
use latent_dfir.Ewf.Contents.{IsImage}
use latent_dfir.Open.{open_path, open_as}
use latent_dfir.Open.Kinds.{IsOpened, open_path-Meets}
use latent_dfir.Examples.{evidence, memory, memory-Serves}
use latent_dfir.Examples.Partitions.{sparse}
use latent_dfir.Examples.Sources.{host, file_byte, image, host-Holds, image_opened}

-- A header: 8 sectors, grains of one sector, 4 entries in a table, the directory in sector 2, no
-- descriptor.
abbrev vmdk_byte : ℕ → ℕ
vmdk_byte =
    sparse
      ((0, 0x4b) ∷ (1, 0x44) ∷ (2, 0x4d) ∷ (3, 0x56) ∷ (12, 8) ∷ (20, 1) ∷ (44, 4) ∷ (56, 2) ∷ [])

abbrev vmdk_file : Source
vmdk_file = memory vmdk_byte 1024

vmdk_open-Meets_example : Meets (IsHeader vmdk_byte 1024 vmdk_file) (vmdk_open vmdk_file)
vmdk_open-Meets_example =
    vmdk_open-Meets vmdk_file vmdk_byte (memory-Serves vmdk_byte 1024 (omega arith))

-- A library with one image, of four bytes, without hashes.
abbrev libewf : Libewf
libewf = record {
  Names = ℕ;
  Handle = ℕ;
  path_bytes = λ path. b'a' ∷ [];
  glob = λ path. some 1;
  handle_initialize = some 7;
  handle_open = λ handle names. true;
  get_media_size = λ handle. some 4;
  get_hash_value_size = λ handle id. none;
  get_hash_value = λ handle id size. none;
  read_random = λ handle o len. some (span (λ i. i) o len);
}

ewf_open-settle_example :
    settle (all_calls libewf "disk.E01" (ewf_open libewf "disk.E01")) nothing ≡ some nothing
ewf_open-settle_example = ewf_open-settle libewf "disk.E01"

abbrev disk : EwfSource libewf
disk = record { handle = 7; identity = evidence; media_size = 4; md5 = none; sha1 = none }

disk-IsImage : IsImage libewf 7 (λ i. i) 4
disk-IsImage = record {
  small = omega arith;
  read_random = λ o len p h. (len, refl, p, omega arith);
}

open_path-Meets_example :
    (k : ℕ) × (k ≤ 8)
    × (0 < 3 → 0 < k)
    × Meets
        (IsOpened
          (some libewf)
          "evidence.dd"
          file_byte
          (raw_source host image)
          (span file_byte 0 k))
        (open_path host (some libewf) "evidence.dd")
open_path-Meets_example =
    open_path-Meets host (some libewf) "evidence.dd" file_byte 3 image host-Holds image_opened

pub raw_opened : open_path host none "evidence.dd" ≡ ok (raw_source host image)
unfolding open_path open_as raw_open open_file open_readonly raw_read_at read_backing
raw_opened = refl
