-- ===== src/Examples/Disks.antt =====
-- Virtual disks at concrete inputs.
use latent_dfir.Common.{
  ℕ, zero, suc, ◌+◌, ◌-◌, ◌*◌, ◌/◌, ◌≤◌, ◌<◌, ◌≡◌, refl, arith, min, some, Meets, ok, true, bit_and,
  [], ◌∷◌, ◌++◌, Bytes, replicate, get_or, ltb, ◌==◌, if◌then◌else◌,
}
use latent_dfir.Source.{Source, Format, read_exact_at, read_exact_loop}
use latent_dfir.Vdisk.{be_u32, be_u64, le_u16, le_u32, le_u64}
use latent_dfir.Source.Reads.{Serves}
use latent_dfir.Vdisk.Placed.{placed_byte}
use latent_dfir.Vdisk.Qcow2.{Qcow2Source, l2_compressed, qcow2_open, qcow2_source}
use latent_dfir.Vdisk.Qcow2.Header.{IsHeader, qcow2_open-Meets}
use latent_dfir.Vdisk.Qcow2.Contents.{l2_at, l2_entry, qcow2_place, qcow2_source-Serves}
use latent_dfir.Vdisk.Vhdx.{
  VhdxSource, bat_region, metadata_region, file_parameters, virtual_disk_size,
  logical_sector_size_id, regions, region_table, metadata_item, metadata_items, metadata_read,
  vhdx_open, vhdx_source,
}
use latent_dfir.Vdisk.Vhdx.Header.{IsPlausible, vhdx_open-Meets}
use latent_dfir.Vdisk.Vhdx.Contents.{vhdx_place, vhdx_source-Serves}
use latent_dfir.Examples.{memory, memory_read, memory-Serves}

-- A QCOW2 header for clusters of 2^9 bytes.
abbrev header_byte : ℕ → ℕ
header_byte i =
    if i == 0
    then 0x51
    else if i == 1
    then 0x46
    else if i == 2
    then 0x49
    else if i == 3
    then 0xfb
    else if i == 7
    then 3
    else if i == 23
    then 9
    else 0

abbrev header_file : Source
header_file = memory header_byte 104

qcow2_open-Meets_example : Meets (IsHeader header_file header_byte) (qcow2_open header_file)
qcow2_open-Meets_example =
    qcow2_open-Meets header_file header_byte (memory-Serves header_byte 104 (omega arith))

-- An L1 table at 0, an L2 table at 512 and one cluster of 512 bytes at 1024.
abbrev qcow2_byte : ℕ → ℕ
qcow2_byte i = if i == 6 then 2 else if i == 518 then 4 else 0

abbrev qcow2_disk : Qcow2Source
qcow2_disk = record {
  inner = memory qcow2_byte 1536;
  identity = record { path = "disk.qcow2"; format = Format.qcow2 };
  cluster_size = 512;
  l2_entries = 64;
  l1_offset = 0;
  l1_size = 1;
  virtual_size = 512;
}

qcow2_l1 : (c : ℕ) → c * 512 < 512 → 0 + c / 64 * 8 + 8 ≤ 1536
qcow2_l1 zero h = omega arith
qcow2_l1 (suc c) h = absurd (omega arith)

qcow2_l2 :
    (c : ℕ)
    → c * 512 < 512
    → (l2_at qcow2_disk qcow2_byte c + 8 ≤ 1536)
      × ((bit_and (l2_entry qcow2_disk qcow2_byte c) l2_compressed == 0) ≡ true)
qcow2_l2 zero h = (omega arith, refl)
qcow2_l2 (suc c) h = absurd (omega arith)

qcow2_room :
    (c host : ℕ)
    → c * 512 < 512
    → qcow2_place qcow2_disk qcow2_byte c ≡ some host
    → host + min 512 (512 - c * 512) ≤ 1536
qcow2_room zero host h e = let same : 1024 ≡ host = cc in omega arith
qcow2_room (suc c) host h e = absurd (omega arith)

qcow2_source-Serves_example :
    Serves
      (qcow2_source qcow2_disk)
      (placed_byte 512 (qcow2_place qcow2_disk qcow2_byte) qcow2_byte)
qcow2_source-Serves_example =
    qcow2_source-Serves qcow2_disk qcow2_byte (memory-Serves qcow2_byte 1536 (omega arith))
      (record {
        positive = omega arith;
        small = omega arith;
        l1 = λ c h g. qcow2_l1 c h;
        l2 = λ c h g k. qcow2_l2 c h;
        room = qcow2_room;
      })

-- A block allocation table at 0 whose first entry places a block at 1 MiB.
abbrev vhdx_byte : ℕ → ℕ
vhdx_byte i = if i == 0 then 6 else if i == 2 then 16 else 0

abbrev vhdx_disk : VhdxSource
vhdx_disk = record {
  inner = memory vhdx_byte 0x10_0100;
  identity = record { path = "disk.vhdx"; format = Format.vhdx };
  bat_offset = 0;
  block_size = 0x10_0000;
  chunk_ratio = 4096;
  virtual_size = 256;
}

vhdx_table : (b : ℕ) → b * 0x10_0000 < 256 → 0 + (b + b / 4096) * 8 + 8 ≤ 0x10_0100
vhdx_table zero h = omega arith
vhdx_table (suc b) h = absurd (omega arith)

vhdx_room :
    (b host : ℕ)
    → b * 0x10_0000 < 256
    → vhdx_place vhdx_disk vhdx_byte b ≡ some host
    → host + min 0x10_0000 (256 - b * 0x10_0000) ≤ 0x10_0100
vhdx_room zero host h e = let same : 0x10_0000 ≡ host = cc in omega arith
vhdx_room (suc b) host h e = absurd (omega arith)

vhdx_source-Serves_example :
    Serves
      (vhdx_source vhdx_disk)
      (placed_byte 0x10_0000 (vhdx_place vhdx_disk vhdx_byte) vhdx_byte)
vhdx_source-Serves_example =
    vhdx_source-Serves vhdx_disk vhdx_byte (memory-Serves vhdx_byte 0x10_0100 (omega arith))
      (record { positive = omega arith; small = omega arith; table = vhdx_table; room = vhdx_room })

abbrev zeros : ℕ → Bytes
zeros n = replicate n 0

-- The region table, with the block allocation table at 3 MiB and the metadata at 0x40000.
abbrev region_bytes : Bytes
region_bytes =
    (b'r' ∷ b'e' ∷ b'g' ∷ b'i' ∷ [])
    ++ zeros 4
    ++ (2 ∷ zeros 7)
    ++ bat_region
    ++ (0 ∷ 0 ∷ 0x30 ∷ zeros 13)
    ++ metadata_region
    ++ (0 ∷ 0 ∷ 4 ∷ zeros 13)

-- The metadata: blocks of 1 MiB without a parent, a disk of 256 bytes, sectors of 512 bytes.
abbrev metadata_bytes : Bytes
metadata_bytes =
    (b'm' ∷ b'e' ∷ b't' ∷ b'a' ∷ b'd' ∷ b'a' ∷ b't' ∷ b'a' ∷ 0 ∷ 0 ∷ 3 ∷ zeros 21)
    ++ file_parameters
    ++ (128 ∷ zeros 15)
    ++ virtual_disk_size
    ++ (136 ∷ zeros 15)
    ++ logical_sector_size_id
    ++ (144 ∷ zeros 15)
    ++ (0 ∷ 0 ∷ 0x10 ∷ zeros 5)
    ++ (0 ∷ 1 ∷ zeros 6)
    ++ (0 ∷ 2 ∷ zeros 2)

abbrev vhdx_file_byte : ℕ → ℕ
vhdx_file_byte i =
    if ltb i 8
    then get_or (b'v' ∷ b'h' ∷ b'd' ∷ b'x' ∷ b'f' ∷ b'i' ∷ b'l' ∷ b'e' ∷ []) i 0
    else if ltb i 0x3_0000
    then 0
    else if ltb i 0x4_0000
    then get_or region_bytes (i - 0x3_0000) 0
    else get_or metadata_bytes (i - 0x4_0000) 0

abbrev vhdx_file : Source
vhdx_file = memory vhdx_file_byte 0x30_1000

vhdx_open-Meets_example : Meets (IsPlausible vhdx_file) (vhdx_open vhdx_file)
vhdx_open-Meets_example =
    vhdx_open-Meets vhdx_file vhdx_file_byte (memory-Serves vhdx_file_byte 0x30_1000 (omega arith))

-- The open succeeds.
vhdx_file_opens :
    vhdx_open vhdx_file
    ≡ ok (record {
      inner = vhdx_file;
      identity = record { path = "evidence.dd"; format = Format.vhdx };
      bat_offset = 0x30_0000;
      block_size = 0x10_0000;
      chunk_ratio = 4096;
      virtual_size = 256;
    })
unfolding vhdx_open region_table regions metadata_read metadata_items metadata_item le_u16 le_u32
    le_u64 read_exact_at read_exact_loop memory_read
vhdx_file_opens = refl

qcow2_file_opens :
    qcow2_open header_file
    ≡ ok (record {
      inner = header_file;
      identity = record { path = "evidence.dd"; format = Format.qcow2 };
      cluster_size = 512;
      l2_entries = 64;
      l1_offset = 0;
      l1_size = 0;
      virtual_size = 0;
    })
unfolding qcow2_open be_u32 be_u64 read_exact_at read_exact_loop memory_read
qcow2_file_opens = refl
