-- ===== src/Examples/Grains.antt =====
-- A VMDK image at a concrete input.
use latent_dfir.Common.{
  ℕ, zero, suc, ◌+◌, ◌-◌, ◌*◌, ◌/◌, ◌≤◌, ◌<◌, ◌≡◌, arith, min, some, ◌==◌, if◌then◌else◌,
}
use latent_dfir.Source.{Format}
use latent_dfir.Source.Reads.{Serves}
use latent_dfir.Vdisk.Placed.{placed_byte}
use latent_dfir.Vdisk.Vmdk.{VmdkSource, vmdk_source}
use latent_dfir.Vdisk.Vmdk.Contents.{table_at, grain_sector, vmdk_place, vmdk_source-Serves}
use latent_dfir.Examples.{memory, memory-Serves}

-- A grain directory in sector 1, a grain table in sector 2, and one grain in sector 3.
abbrev vmdk_byte : ℕ → ℕ
vmdk_byte i = if i == 512 then 2 else if i == 1024 then 3 else 0

abbrev vmdk_disk : VmdkSource
vmdk_disk = record {
  inner = memory vmdk_byte 2048;
  identity = record { path = "disk.vmdk"; format = Format.vmdk };
  grain_bytes = 512;
  gtes_per_gt = 128;
  gd_offset = 1;
  virtual_size = 512;
}

vmdk_directory : (g : ℕ) → g * 512 < 512 → 1 * 512 + g / 128 * 4 + 4 ≤ 2048
vmdk_directory zero h = omega arith
vmdk_directory (suc g) h = absurd (omega arith)

vmdk_table :
    (g : ℕ)
    → g * 512 < 512
    → (table_at vmdk_disk vmdk_byte g + 4 ≤ 2048)
      × (grain_sector vmdk_disk vmdk_byte g * 512 < 0x1_0000_0000_0000_0000)
vmdk_table zero h = (omega arith, omega arith)
vmdk_table (suc g) h = absurd (omega arith)

vmdk_room :
    (g host : ℕ)
    → g * 512 < 512
    → vmdk_place vmdk_disk vmdk_byte g ≡ some host
    → host + min 512 (512 - g * 512) ≤ 2048
vmdk_room zero host h e = let same : 1536 ≡ host = cc in omega arith
vmdk_room (suc g) host h e = absurd (omega arith)

vmdk_source-Serves_example :
    Serves (vmdk_source vmdk_disk) (placed_byte 512 (vmdk_place vmdk_disk vmdk_byte) vmdk_byte)
vmdk_source-Serves_example =
    vmdk_source-Serves vmdk_disk vmdk_byte (memory-Serves vmdk_byte 2048 (omega arith)) (record {
      positive = omega arith;
      small = omega arith;
      directory = vmdk_directory;
      table = λ g h k. vmdk_table g h;
      room = vmdk_room;
    })
