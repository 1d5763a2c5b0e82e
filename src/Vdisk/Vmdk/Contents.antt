-- ===== src/Vdisk/Vmdk/Contents.antt =====
-- What an opened VMDK image serves.
use latent_dfir.Common.{
  ℕ, ◌+◌, ◌-◌, ◌*◌, ◌/◌, ◌%◌, ◌≤◌, ◌<◌, ◌≡◌, arith, min, Bool-cases, false, inl, inr, Option, some,
  none, ok, u64_mod, mul64, saturating_add, saturating_mul, ◌==◌, if◌then◌else◌,
}
use latent_dfir.Source.Reads.{Serves}
use latent_dfir.Vdisk.Fields.{le_at, le_u32-span}
use latent_dfir.Vdisk.Placed.{IsPlaced, placed_byte, placed_source-Serves}
use latent_dfir.Vdisk.Vmdk.{VmdkSource, vmdk_entry, vmdk_locate, vmdk_image, vmdk_source}

-- Where the directory entry of a grain is, the grain table it names, where the table entry is, and
-- the sector it names.
abbrev pub directory_at : VmdkSource → ℕ → ℕ
directory_at v g = v.gd_offset * 512 + g / v.gtes_per_gt * 4

abbrev pub table_sector : VmdkSource → (ℕ → ℕ) → ℕ → ℕ
table_sector v f g = le_at f (directory_at v g) 4

abbrev pub table_at : VmdkSource → (ℕ → ℕ) → ℕ → ℕ
table_at v f g = table_sector v f g * 512 + g % v.gtes_per_gt * 4

abbrev pub grain_sector : VmdkSource → (ℕ → ℕ) → ℕ → ℕ
grain_sector v f g = le_at f (table_at v f g) 4

-- The place of a grain: none without a grain table or without a sector.
abbrev pub vmdk_place : VmdkSource → (ℕ → ℕ) → ℕ → Option ℕ
vmdk_place v f g =
    if table_sector v f g == 0
    then none
    else if grain_sector v f g == 0
    then none
    else some (grain_sector v f g * 512)

-- The tables that the grains of the disk need, and the grains placed, lie inside the file.
pub record IsLaidOut (v : VmdkSource) (f : ℕ → ℕ) : Type 0 where
  pub positive : 0 < v.grain_bytes
  pub small : v.virtual_size < u64_mod
  pub directory : (g : ℕ) → g * v.grain_bytes < v.virtual_size → directory_at v g + 4 ≤ v.inner.size
  pub table :
      (g : ℕ)
      → g * v.grain_bytes < v.virtual_size
      → (table_sector v f g == 0) ≡ false
      → (table_at v f g + 4 ≤ v.inner.size) × (grain_sector v f g * 512 < u64_mod)
  pub room :
      (g host : ℕ)
      → g * v.grain_bytes < v.virtual_size
      → vmdk_place v f g ≡ some host
      → host + min v.grain_bytes (v.virtual_size - g * v.grain_bytes) ≤ v.inner.size

module _ (v : VmdkSource) (f : ℕ → ℕ) (s : Serves v.inner f) (l : IsLaidOut v f) where
  locate-place :
      (g : ℕ) → g * v.grain_bytes < v.virtual_size → vmdk_locate v g ≡ ok (vmdk_place v f g)
  unfolding vmdk_locate vmdk_entry
  locate-place g h =
      let fits = l.directory g h in
      let at : saturating_add (saturating_mul v.gd_offset 512) (mul64 (g / v.gtes_per_gt) 4)
          ≡ directory_at v g =
        omega (arith, fits, s.small) in
      elim (Bool-cases (table_sector v f g == 0)) [
        | inl z ↦ rw (at, le_u32-span s (directory_at v g) fits, z)
        | inr nz ↦
            let (fits2, whole) = l.table g h nz in
            let at2 : saturating_add (saturating_mul (table_sector v f g) 512)
                  (mul64 (g % v.gtes_per_gt) 4)
                ≡ table_at v f g =
              omega (arith, fits2, s.small) in
            let exact : mul64 (grain_sector v f g) 512 ≡ grain_sector v f g * 512 =
              omega (arith, whole) in
            rw (
              at,
              le_u32-span s (directory_at v g) fits,
              nz,
              at2,
              le_u32-span s (table_at v f g) fits2,
              exact,
            )
      ]

  vmdk-IsPlaced : IsPlaced (vmdk_image v) (vmdk_place v f)
  vmdk-IsPlaced = record {
    positive = l.positive;
    small = l.small;
    located = locate-place;
    room = l.room;
    joins = λ h w le. omega (arith, s.small);
  }

-- An opened VMDK image whose tables and grains lie inside the file serves its virtual disk: a byte
-- of an allocated grain is read where the grain directory and its table put the grain, any other is
-- zero.
pub vmdk_source-Serves :
    (v : VmdkSource) (f : ℕ → ℕ)
    → Serves v.inner f
    → IsLaidOut v f
    → Serves (vmdk_source v) (placed_byte v.grain_bytes (vmdk_place v f) f)
vmdk_source-Serves v f s l =
    placed_source-Serves (vmdk_image v) (vmdk_place v f) (vmdk-IsPlaced v f s l) v.identity f s
