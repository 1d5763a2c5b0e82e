-- ===== src/Partition/Mbr/Spec.antt =====
-- What an MBR partition table is, read off the bytes `f` of a disk of `size` bytes.
use latent_dfir.Common.{
  ℕ, suc, ◌+◌, ◌*◌, ◌≤◌, ◌<◌, ◌≡◌, ◌≢◌, ◌⊎◌, Option, none, some, List, [], ◌∷◌, ◌++◌, length,
}
use latent_dfir.Vdisk.Fields.{le_at}
use latent_dfir.Partition.{Partition, sector_size, hex_fixed}

module _ (f : ℕ → ℕ) where
  -- The entry at `o`: its type byte, its first sector and its number of sectors.
  abbrev pub kind : ℕ → ℕ
  kind o = f (o + 4)

  abbrev pub first_lba : ℕ → ℕ
  first_lba o = le_at f (o + 8) 4

  abbrev pub sectors : ℕ → ℕ
  sectors o = le_at f (o + 12) 4

  -- The signature of the sector at `o`.
  pub record IsMarked (o : ℕ) : Type 0 where
    pub mark_55 : f (o + 510) ≡ 0x55
    pub mark_aa : f (o + 511) ≡ 0xaa

  -- The types that stand for an extended partition, and those that stand for none.
  pub data IsContainer (o : ℕ) : Type 0 where
    chs_extended : kind o ≡ 0x05 → IsContainer o
    lba_extended : kind o ≡ 0x0f → IsContainer o
    linux_extended : kind o ≡ 0x85 → IsContainer o

  pub data IsVacant (o : ℕ) : Type 0 where
    unused : kind o ≡ 0 → IsVacant o
    protective : kind o ≡ 0xee → IsVacant o
    without_sectors : ¬ IsContainer o → sectors o ≡ 0 → IsVacant o

  -- The entry at `o`, whose sectors count from sector `base`, is the partition `p`.
  pub record Describes (base o number : ℕ) (p : Partition) : Type 0 where
    pub used : kind o ≢ 0
    pub has_sectors : sectors o ≢ 0
    pub index : p.index ≡ number
    pub kind_text : p.kind ≡ b'0' ∷ b'x' ∷ hex_fixed 2 (kind o)
    pub start : p.start ≡ (base + first_lba o) * sector_size
    pub length : p.length ≡ sectors o * sector_size
    pub name : p.name ≡ none

  -- The `n` entries from `o` on hold these partitions, numbered from `number`. The last two are the
  -- first sector of the extended partition seen before them, and after them.
  pub data Rows : ℕ → ℕ → ℕ → List Partition → Option ℕ → Option ℕ → Type 0 where
    done : {o number : ℕ} {extended : Option ℕ} → Rows o number 0 [] extended extended
    vacant :
        {o number n : ℕ} {ps : List Partition} {before after : Option ℕ}
        → IsVacant o
        → Rows (o + 16) number n ps before after
        → Rows o number (suc n) ps before after
    container :
        {o number n : ℕ} {ps : List Partition} {before after : Option ℕ}
        → IsContainer o
        → Rows (o + 16) number n ps (some (first_lba o)) after
        → Rows o number (suc n) ps before after
    volume :
        {o number n : ℕ} {p : Partition} {ps : List Partition} {before after : Option ℕ}
        → kind o ≢ 0xee
        → ¬ IsContainer o
        → Describes 0 o number p
        → Rows (o + 16) (suc number) n ps before after
        → Rows o number (suc n) (p ∷ ps) before after

  module _ (size : ℕ) where
    -- The sector `ebr` is an extended boot record.
    pub record IsEbr (ebr : ℕ) : Type 0 where
      pub inside : ebr * sector_size + sector_size ≤ size
      pub marked : IsMarked (ebr * sector_size)

    abbrev pub link : ℕ → ℕ
    link ebr = first_lba (ebr * sector_size + 462)

    -- The partition of an extended boot record, if it has one.
    pub data Logical (ebr number : ℕ) : List Partition → Type 0 where
      unused :
          kind (ebr * sector_size + 446) ≡ 0 ⊎ sectors (ebr * sector_size + 446) ≡ 0
          → Logical ebr number []
      used :
          {p : Partition}
          → Describes ebr (ebr * sector_size + 446) number p
          → Logical ebr number (p ∷ [])

    -- The chain of extended boot records from `ebr` on, followed for so many rounds at most.
    pub data Chain (base : ℕ) : ℕ → ℕ → ℕ → List Partition → Type 0 where
      spent : {ebr number : ℕ} → Chain base 0 ebr number []
      broken : {rounds ebr number : ℕ} → ¬ IsEbr ebr → Chain base (suc rounds) ebr number []
      last :
          {rounds ebr number : ℕ} {ps : List Partition}
          → IsEbr ebr
          → Logical ebr number ps
          → link ebr ≡ 0 ⊎ base + link ebr ≡ ebr
          → Chain base (suc rounds) ebr number ps
      linked :
          {rounds ebr number : ℕ} {ps qs : List Partition}
          → IsEbr ebr
          → Logical ebr number ps
          → link ebr ≢ 0
          → base + link ebr ≢ ebr
          → Chain base rounds (base + link ebr) (number + length ps) qs
          → Chain base (suc rounds) ebr number (ps ++ qs)

    -- The logical partitions, where an extended partition was seen.
    pub data Logicals (number : ℕ) : Option ℕ → List Partition → Type 0 where
      no_container : Logicals number none []
      in_container :
          {base : ℕ} {ps : List Partition}
          → Chain base 1024 base number ps
          → Logicals number (some base) ps

    pub record IsMbr (ps : List Partition) : Type 0 where
      pub marked : IsMarked 0
      pub extended : Option ℕ
      pub primaries : List Partition
      pub logicals : List Partition
      pub rows : Rows 446 0 4 primaries none extended
      pub chain : Logicals (length primaries) extended logicals
      pub all : ps ≡ primaries ++ logicals
      pub some_partition : ps ≢ []

    -- The disk has no first sector with a signature, or none of the entries of its table, nor the
    -- chain that they lead to, holds a partition.
    pub data HasNoMbr : Type 0 where
      too_small : size < sector_size → HasNoMbr
      unmarked : ¬ IsMarked 0 → HasNoMbr
      no_entries :
          {extended : Option ℕ} → Rows 446 0 4 [] none extended → Logicals 0 extended [] → HasNoMbr
