-- ===== src/Vdisk/Vhdx/Header.antt =====
-- Which VHDX images are accepted.
use latent_dfir.Common.{
  ℕ, zero, suc, ◌+◌, ◌*◌, ◌≤◌, ◌≡◌, refl, arith, false, not, ◌&&◌, &&-true, Option, some, none, [],
  ◌∷◌, Bytes, bytes_eq, Bool-cases, inl, inr, leb, leb→le, ◌==◌, Outcome, ◌>>=◌, Meets, >>=-Meets,
  require-Meets, add64,
}
use latent_dfir.Source.{Source, SourceError, FilePath, malformed}
use latent_dfir.Source.Reads.{Serves}
use latent_dfir.Vdisk.Fields.{read-then, le_u16-then, le_u32-then, le_u64-then}
use latent_dfir.Vdisk.Vhdx.{
  VhdxSource, region_table_offset, regions, both, region_table, Found, metadata_item,
  metadata_items, present, metadata_read, vhdx_open, file_parameters, virtual_disk_size,
  logical_sector_size_id,
}

-- Block sizes from 1 MiB to 256 MiB, and a chunk ratio that can be divided by.
pub record IsPlausible (inner : Source) (v : VhdxSource) : Type 0 where
  pub block_size_low : 0x10_0000 ≤ v.block_size
  pub block_size_high : v.block_size ≤ 0x1000_0000
  pub chunk_ratio_low : 1 ≤ v.chunk_ratio
  pub inner_source : v.inner ≡ inner

abbrev nothing : Found
nothing = record { block_size = none; virtual_size = none; sector_size = none; has_parent = false }

abbrev Anything : {A : Type 0} → A → Type 0
Anything a = Unit {0}

module _ {src : Source} {f : ℕ → ℕ} (s : Serves src f) where
  regions-Meets :
      (i n : ℕ) (bat metadata : Option ℕ) → Meets Anything (regions src i n bat metadata)
  unfolding regions
  regions-Meets i zero bat metadata = tt
  regions-Meets i (suc n) bat metadata =
      read-then s Anything (region_table_offset + 16 + i * 32) 16 _ λ guid g.
        le_u64-then s Anything (region_table_offset + 16 + i * 32 + 16) _
          λ file_offset o. regions-Meets (i + 1) n _ _

  both-Meets : (e : SourceError) (found : Option ℕ × Option ℕ) → Meets Anything (both e found)
  both-Meets e (some b, some m) = tt
  both-Meets e (some b, none) = tt
  both-Meets e (none, m) = tt

  region_table-Meets : (path : FilePath) → Meets Anything (region_table src path)
  unfolding region_table
  region_table-Meets path = read-then s Anything region_table_offset 4 _ λ sig h.
      require-Meets Anything (bytes_eq sig (b'r' ∷ b'e' ∷ b'g' ∷ b'i' ∷ [])) _ _ λ r.
        le_u32-then s Anything (region_table_offset + 8) _ λ count c.
          require-Meets Anything (leb count 2047) _ _ λ k.
            >>=-Meets Anything Anything (regions src 0 count none none) _
              (regions-Meets 0 count none none)
              λ found t. both-Meets (malformed path "vhdx" "missing BAT or metadata region") found

  metadata_item-Meets :
      (guid : Bytes) (item : ℕ) (found : Found) → Meets Anything (metadata_item src guid item found)
  unfolding metadata_item
  metadata_item-Meets guid item found = elim (Bool-cases (bytes_eq guid file_parameters)) [
    | inl e ↦ rw e (
        le_u32-then s Anything item _
          λ block_size b. le_u32-then s Anything (add64 item 4) _ λ flags h. tt)
    | inr e ↦ rw e (elim (Bool-cases (bytes_eq guid virtual_disk_size)) [
      | inl g ↦ rw g (le_u64-then s Anything item _ λ size h. tt)
      | inr g ↦ rw g (elim (Bool-cases (bytes_eq guid logical_sector_size_id)) [
        | inl k ↦ rw k (le_u32-then s Anything item _ λ size h. tt)
        | inr k ↦ rw k tt
      ])
    ])
  ]

  metadata_items-Meets :
      (region i n : ℕ) (found : Found) → Meets Anything (metadata_items src region i n found)
  unfolding metadata_items
  metadata_items-Meets region i zero found = tt
  metadata_items-Meets region i (suc n) found =
      let entry = add64 (add64 region 32) (i * 32) in
      read-then s Anything entry 16 _ λ guid g. le_u32-then s Anything (add64 entry 16) _ λ at o.
        >>=-Meets Anything Anything (metadata_item src guid (add64 region at) found) _
          (metadata_item-Meets guid (add64 region at) found)
          λ found' t. metadata_items-Meets region (i + 1) n found'

  present-then {κ} :
      {B : Type κ} (P : B → Type 0) (o : Option ℕ) (e : SourceError) (k : ℕ → Outcome SourceError B)
      → ((v : ℕ) → Meets P (k v))
      → Meets P (present o e >>= k)
  present-then P (some v) e k h = h v
  present-then P none e k h = tt

  metadata_read-Meets :
      (region : ℕ) (path : FilePath) → Meets Anything (metadata_read src region path)
  unfolding metadata_read
  metadata_read-Meets region path = read-then s Anything region 8 _ λ sig h.
      require-Meets Anything
        (bytes_eq sig (b'm' ∷ b'e' ∷ b't' ∷ b'a' ∷ b'd' ∷ b'a' ∷ b't' ∷ b'a' ∷ [])) _ _
        λ r. le_u16-then s Anything (add64 region 10) _ λ count c.
          require-Meets Anything (leb count 2047) _ _ λ k.
            >>=-Meets Anything Anything (metadata_items src region 0 count nothing) _
              (metadata_items-Meets region 0 count nothing)
              λ found t. present-then Anything (found.block_size) _ _ λ b.
                present-then Anything (found.virtual_size) _ _
                  λ v. present-then Anything (found.sector_size) _ _ λ w. tt

-- Opening as VHDX any source that serves its bytes ends without a panic: with an error, or with an
-- image over that source whose blocks have from 1 MiB to 256 MiB and whose chunk ratio is not zero.
pub vhdx_open-Meets :
    (inner : Source) (f : ℕ → ℕ) → Serves inner f → Meets (IsPlausible inner) (vhdx_open inner)
unfolding vhdx_open
vhdx_open-Meets inner f s =
    let P = IsPlausible inner in
    let path = inner.identity.path in
    read-then s P 0 8 _ λ file_id h.
      require-Meets P
        (bytes_eq file_id (b'v' ∷ b'h' ∷ b'd' ∷ b'x' ∷ b'f' ∷ b'i' ∷ b'l' ∷ b'e' ∷ [])) _ _
        λ r. >>=-Meets Anything P (region_table inner path) _ (region_table-Meets s path) λ found t.
          let (bat_offset, metadata) = found in
          >>=-Meets Anything P (metadata_read inner metadata path) _
            (metadata_read-Meets s metadata path)
            λ meta u. require-Meets P (not (meta.has_parent)) _ _ λ alone.
              require-Meets P
                (leb 0x10_0000 (meta.block_size)
                  && leb (meta.block_size) 0x1000_0000
                  && not (meta.logical_sector_size == 0))
                _ _
                λ plausible.
                  let both_tests =
                    &&-true (leb 0x10_0000 meta.block_size && leb meta.block_size 0x1000_0000)
                      (not (meta.logical_sector_size == 0)) plausible in
                  let (low, high) =
                    &&-true (leb 0x10_0000 meta.block_size) (leb meta.block_size 0x1000_0000)
                      both_tests.0 in
                  record {
                    block_size_low = leb→le 0x10_0000 (meta.block_size) low;
                    block_size_high = leb→le (meta.block_size) 0x1000_0000 high;
                    chunk_ratio_low = omega arith;
                    inner_source = refl;
                  }
