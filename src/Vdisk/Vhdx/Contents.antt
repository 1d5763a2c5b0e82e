-- ===== src/Vdisk/Vhdx/Contents.antt =====
-- What an opened VHDX image serves.
use latent_dfir.Common.{
  ℕ, ◌+◌, ◌-◌, ◌*◌, ◌/◌, ◌%◌, ◌≤◌, ◌<◌, ◌≡◌, ap, ◌∙◌, arith, min, Option, some, none, ok, u64_mod,
  add64, saturating_add, saturating_mul, bit_and, ◌==◌, if◌then◌else◌,
}
use latent_dfir.Source.Reads.{Serves}
use latent_dfir.Vdisk.Fields.{le_at, le_u64-span}
use latent_dfir.Vdisk.Placed.{IsPlaced, placed_byte, placed_source-Serves}
use latent_dfir.Vdisk.Vhdx.{
  VhdxSource, bat_index, vhdx_locate, vhdx_image, vhdx_source, offset_mask,
}
use native.Mathlib.Nat.{
  div-add-mod', mod-lt, add-mul-div_right, add-mul-mod_self_right, div-eq_of_lt, mod-eq_of_lt,
}

-- The table entry of a block: a sector bitmap entry follows every `chunk_ratio` payload entries.
abbrev pub entry : VhdxSource → (ℕ → ℕ) → ℕ → ℕ
entry v f b = le_at f (v.bat_offset + (b + b / v.chunk_ratio) * 8) 8

-- The place of a block: state 6 is fully present, at an offset in whole MiB.
abbrev pub vhdx_place : VhdxSource → (ℕ → ℕ) → ℕ → Option ℕ
vhdx_place v f b =
    if bit_and (entry v f b) 7 == 6 then some (bit_and (entry v f b) offset_mask) else none

-- The table covers the disk, and what it says of a present block lies inside the file.
pub record IsLaidOut (v : VhdxSource) (f : ℕ → ℕ) : Type 0 where
  pub positive : 0 < v.block_size
  pub small : v.virtual_size < u64_mod
  pub table :
      (b : ℕ)
      → b * v.block_size < v.virtual_size
      → v.bat_offset + (b + b / v.chunk_ratio) * 8 + 8 ≤ v.inner.size
  pub room :
      (b host : ℕ)
      → b * v.block_size < v.virtual_size
      → vhdx_place v f b ≡ some host
      → host + min v.block_size (v.virtual_size - b * v.block_size) ≤ v.inner.size

module _ (v : VhdxSource) (f : ℕ → ℕ) (s : Serves v.inner f) (l : IsLaidOut v f) where
  locate-place :
      (b : ℕ) → b * v.block_size < v.virtual_size → vhdx_locate v b ≡ ok (vhdx_place v f b)
  unfolding vhdx_locate bat_index
  locate-place b h =
      let k : ℕ = b + b / v.chunk_ratio in
      let fits : v.bat_offset + k * 8 + 8 ≤ v.inner.size = l.table b h in
      let at : saturating_add v.bat_offset (saturating_mul (add64 b (b / v.chunk_ratio)) 8)
          ≡ v.bat_offset + k * 8 =
        omega (arith, fits, s.small) in
      rw (at, le_u64-span s (v.bat_offset + k * 8) fits)

  vhdx-IsPlaced : IsPlaced (vhdx_image v) (vhdx_place v f)
  vhdx-IsPlaced = record {
    positive = l.positive;
    small = l.small;
    located = locate-place;
    room = l.room;
    joins = λ h w le. omega (arith, s.small);
  }

-- An opened VHDX image whose table and present blocks lie inside the file serves its virtual disk:
-- a byte of a fully present block is read where the table puts the block, any other is zero.
pub vhdx_source-Serves :
    (v : VhdxSource) (f : ℕ → ℕ)
    → Serves v.inner f
    → IsLaidOut v f
    → Serves (vhdx_source v) (placed_byte v.block_size (vhdx_place v f) f)
vhdx_source-Serves v f s l =
    placed_source-Serves (vhdx_image v) (vhdx_place v f) (vhdx-IsPlaced v f s l) v.identity f s

-- The table consists of groups of `chunk_ratio` payload entries and one sector bitmap entry. The
-- entry of a block is a payload entry, never the bitmap of its group, and it is the one with the
-- block's number counted without the bitmaps, as long as the index does not wrap.
pub bat_index-layout :
    (v : VhdxSource) (b : ℕ)
    → 0 < v.chunk_ratio
    → b + b / v.chunk_ratio < u64_mod
    → (bat_index v b / (v.chunk_ratio + 1) ≡ b / v.chunk_ratio)
      × (bat_index v b % (v.chunk_ratio + 1) ≡ b % v.chunk_ratio)
      × (bat_index v b % (v.chunk_ratio + 1) < v.chunk_ratio)
unfolding bat_index
bat_index-layout v b p h =
    let r : ℕ = v.chunk_ratio in
    let q : ℕ = b / r in
    let w : ℕ = b % r in
    let lt : w < r = mod-lt b p in
    let split : add64 b q ≡ w + q * (r + 1) = omega (arith, div-add-mod' b r, h) in
    let remainder : add64 b q % (r + 1) ≡ w =
      ap (λ k. k % (r + 1)) split
      ∙ add-mul-mod_self_right w q (r + 1)
      ∙ mod-eq_of_lt (omega arith) in
    (
      ap (λ k. k / (r + 1)) split
          ∙ add-mul-div_right w q (omega arith)
          ∙ omega (arith, div-eq_of_lt {n = w} {m = r + 1} (omega arith)),
      remainder,
      omega (arith, remainder),
    )
