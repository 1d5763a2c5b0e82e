-- ===== src/Vdisk/Qcow2/Contents.antt =====
-- What an opened QCOW2 image serves.
use latent_dfir.Common.{
  ℕ, ◌+◌, ◌-◌, ◌*◌, ◌/◌, ◌%◌, ◌≤◌, ◌<◌, ◌≡◌, arith, min, Bool-cases, true, false, inl, inr, Option,
  some, none, ok, u64_mod, saturating_add, bit_and, leb, ◌==◌, if◌then◌else◌,
}
use latent_dfir.Source.Reads.{Serves}
use latent_dfir.Vdisk.Fields.{be_at, be_u64-span}
use latent_dfir.Vdisk.Placed.{IsPlaced, placed_byte, placed_source-Serves}
use latent_dfir.Vdisk.Qcow2.{
  Qcow2Source, qcow2_entry, qcow2_locate, qcow2_image, qcow2_source, offset_mask, l2_compressed,
}

-- Where the L1 entry of a cluster is, the L2 table it names, where the L2 entry is, and that entry.
abbrev pub l1_at : Qcow2Source → ℕ → ℕ
l1_at q c = q.l1_offset + c / q.l2_entries * 8

abbrev pub l2_table : Qcow2Source → (ℕ → ℕ) → ℕ → ℕ
l2_table q f c = bit_and (be_at f (l1_at q c) 8) offset_mask

abbrev pub l2_at : Qcow2Source → (ℕ → ℕ) → ℕ → ℕ
l2_at q f c = l2_table q f c + c % q.l2_entries * 8

abbrev pub l2_entry : Qcow2Source → (ℕ → ℕ) → ℕ → ℕ
l2_entry q f c = be_at f (l2_at q f c) 8

-- The place of a cluster: none outside the L1 table, without an L2 table or without a host offset.
abbrev pub qcow2_place : Qcow2Source → (ℕ → ℕ) → ℕ → Option ℕ
qcow2_place q f c =
    if leb q.l1_size (c / q.l2_entries)
    then none
    else if l2_table q f c == 0
    then none
    else if bit_and (l2_entry q f c) offset_mask == 0
    then none
    else some (bit_and (l2_entry q f c) offset_mask)

-- The tables that the clusters of the disk need, and the clusters placed, lie inside the file, and
-- no cluster is compressed.
pub record IsLaidOut (q : Qcow2Source) (f : ℕ → ℕ) : Type 0 where
  pub positive : 0 < q.cluster_size
  pub small : q.virtual_size < u64_mod
  pub l1 :
      (c : ℕ)
      → c * q.cluster_size < q.virtual_size
      → leb q.l1_size (c / q.l2_entries) ≡ false
      → l1_at q c + 8 ≤ q.inner.size
  pub l2 :
      (c : ℕ)
      → c * q.cluster_size < q.virtual_size
      → leb q.l1_size (c / q.l2_entries) ≡ false
      → (l2_table q f c == 0) ≡ false
      → (l2_at q f c + 8 ≤ q.inner.size) × ((bit_and (l2_entry q f c) l2_compressed == 0) ≡ true)
  pub room :
      (c host : ℕ)
      → c * q.cluster_size < q.virtual_size
      → qcow2_place q f c ≡ some host
      → host + min q.cluster_size (q.virtual_size - c * q.cluster_size) ≤ q.inner.size

module _ (q : Qcow2Source) (f : ℕ → ℕ) (s : Serves q.inner f) (l : IsLaidOut q f) where
  locate-place :
      (c : ℕ) → c * q.cluster_size < q.virtual_size → qcow2_locate q c ≡ ok (qcow2_place q f c)
  unfolding qcow2_locate qcow2_entry
  locate-place c h = elim (Bool-cases (leb q.l1_size (c / q.l2_entries))) [
    | inl out ↦ rw out
    | inr inside ↦
        let fits = l.l1 c h inside in
        let at : saturating_add q.l1_offset (c / q.l2_entries * 8) ≡ l1_at q c =
          omega (arith, fits, s.small) in
        elim (Bool-cases (l2_table q f c == 0)) [
          | inl z ↦ rw (inside, at, be_u64-span s (l1_at q c) fits, z)
          | inr nz ↦
              let (fits2, plain) = l.l2 c h inside nz in
              let at2 : saturating_add (l2_table q f c) (c % q.l2_entries * 8) ≡ l2_at q f c =
                omega (arith, fits2, s.small) in
              rw (
                inside,
                at,
                be_u64-span s (l1_at q c) fits,
                nz,
                at2,
                be_u64-span s (l2_at q f c) fits2,
                plain,
              )
        ]
  ]

  qcow2-IsPlaced : IsPlaced (qcow2_image q) (qcow2_place q f)
  qcow2-IsPlaced = record {
    positive = l.positive;
    small = l.small;
    located = locate-place;
    room = l.room;
    joins = λ h w le. omega (arith, s.small);
  }

-- An opened QCOW2 image whose tables and clusters lie inside the file and are not compressed serves
-- its virtual disk: a byte of an allocated cluster is read where the two levels of tables put the
-- cluster, any other is zero.
pub qcow2_source-Serves :
    (q : Qcow2Source) (f : ℕ → ℕ)
    → Serves q.inner f
    → IsLaidOut q f
    → Serves (qcow2_source q) (placed_byte q.cluster_size (qcow2_place q f) f)
qcow2_source-Serves q f s l =
    placed_source-Serves (qcow2_image q) (qcow2_place q f) (qcow2-IsPlaced q f s l) q.identity f s
