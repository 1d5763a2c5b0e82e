-- ===== src/Partition/Mbr/Rows.antt =====
-- The four entries of a partition table.
use latent_dfir.Common.{
  ℕ, zero, suc, ◌+◌, ◌<◌, ◌≡◌, ◌≢◌, inl, inr, refl, sym, ◌∙◌, arith, subst, true, false, Bool, ◌||◌,
  Bool-cases, Option, some, List, [], ◌∷◌, ◌++◌, length, length-append, span, ◌==◌, ==_iff,
  if◌then◌else◌, Settles, Settles-map, >>=-Settles,
}
use latent_dfir.Vdisk.Fields.{le_at}
use latent_dfir.Partition.{Partition, primary}
use latent_dfir.Partition.Fields.{field-then, byte_at-then, spans}
use latent_dfir.Partition.Mbr.{mbr_entry, mbr_entries}
use latent_dfir.Partition.Mbr.Spec.{
  kind, first_lba, sectors, IsContainer, chs_extended, lba_extended, linux_extended, IsVacant,
  unused, protective, without_sectors, Describes, Rows, done, vacant, container, volume,
}
use mathlib.Core.List.{append_assoc, append-nil}

-- What holds of each of four branches holds of what the tests choose.
four_ways {ℓ} :
    {A : Type ℓ} (P : A → Type 0) (a b c : Bool) (w x y z : A)
    → (a ≡ true → P w)
    → (a ≡ false → b ≡ true → P x)
    → (a ≡ false → b ≡ false → c ≡ true → P y)
    → (a ≡ false → b ≡ false → c ≡ false → P z)
    → P (if a then w else if b then x else if c then y else z)
four_ways P true b c w x y z h i j k = h refl
four_ways P false true c w x y z h i j k = i refl refl
four_ways P false false true w x y z h i j k = j refl refl refl
four_ways P false false false w x y z h i j k = k refl refl refl

module _ (f : ℕ → ℕ) (bytes : (i : ℕ) → f i < 256) where
  pub le_at-small : (o : ℕ) → le_at f o 4 < 0x1_0000_0000
  le_at-small o =
      omega (arith, bytes o, bytes (suc o), bytes (suc (suc o)), bytes (suc (suc (suc o))))

  -- A partition built from an entry.
  pub primary-Describes :
      (base o number first : ℕ)
      → first ≡ base + first_lba f o
      → base < 0x2_0000_0000
      → kind f o ≢ 0
      → sectors f o ≢ 0
      → Describes f base o number (primary number (kind f o) first (sectors f o))
  unfolding primary
  primary-Describes base o number first e small k c = record {
    used = k;
    has_sectors = c;
    index = refl;
    kind_text = refl;
    start = omega (arith, le_at-small (o + 8));
    length = omega (arith, le_at-small (o + 12));
    name = refl;
  }

  -- The pair that a round leaves.
  abbrev RowState : Type 0
  RowState = List Partition × Option ℕ

  -- What a round makes of an entry.
  data Next (o : ℕ) (ps : List Partition) (x : Option ℕ) : RowState → Type 0 where
    vacant_row : IsVacant f o → Next o ps x (ps, x)
    container_row : IsContainer f o → Next o ps x (ps, some (first_lba f o))
    volume_row :
        {p : Partition}
        → kind f o ≢ 0xee
        → ¬ IsContainer f o
        → Describes f 0 o (length ps) p
        → Next o ps x (ps ++ (p ∷ []), x)

  free : (o : ℕ) → ((kind f o == 0x00) || (kind f o == 0xee)) ≡ true → IsVacant f o
  free o h = elim (Bool-cases (kind f o == 0x00)) [
    | inl e ↦ unused ((==_iff _ _).0 e)
    | inr e ↦ protective (ground arith)
  ]

  boxed :
      (o : ℕ)
      → ((kind f o == 0x05) || (kind f o == 0x0f) || (kind f o == 0x85)) ≡ true
      → IsContainer f o
  boxed o h = elim (Bool-cases (kind f o == 0x05)) [
    | inl e ↦ chs_extended ((==_iff _ _).0 e)
    | inr e ↦ elim (Bool-cases (kind f o == 0x0f)) [
      | inl g ↦ lba_extended ((==_iff _ _).0 g)
      | inr g ↦ linux_extended (ground arith)
    ]
  ]

  unboxed :
      (o : ℕ)
      → ((kind f o == 0x05) || (kind f o == 0x0f) || (kind f o == 0x85)) ≡ false
      → ¬ IsContainer f o
  unboxed o h (chs_extended e) = ground arith
  unboxed o h (lba_extended e) = ground arith
  unboxed o h (linux_extended e) = ground arith

  mbr_entry-Settles :
      (o : ℕ) (ps : List Partition) (x : Option ℕ)
      → Settles ⊥ (Next o ps x) (mbr_entry ps x (span f o 16))
  unfolding mbr_entry
  mbr_entry-Settles o ps x =
      let P = Next o ps x in
      let k = kind f o in
      let c = sectors f o in
      byte_at-then f ⊥ P o 16 refl 4 _ (omega arith) (
        field-then f ⊥ P o 16 refl 8 4 _ (omega arith) (
          field-then f ⊥ P o 16 refl 12 4 _ (omega arith) (
            four_ways P ((k == 0x00) || (k == 0xee)) ((k == 0x05) || (k == 0x0f) || (k == 0x85))
              (c == 0) (ps, x) (ps, some (first_lba f o)) (ps, x) _ (λ h. vacant_row (free o h))
              (λ h i. container_row (boxed o i))
              (λ h i j. vacant_row (without_sectors (unboxed o i) (ground arith)))
              λ h i j. volume_row (ground arith) (unboxed o i) (
                primary-Describes 0 o (length ps) (first_lba f o) (omega arith) (omega arith)
                  (ground arith) (ground arith)))))

  -- The table's partitions, after those of the entries before.
  abbrev pub After : ℕ → ℕ → List Partition → Option ℕ → RowState → Type 0
  After o n before x r =
      (ps : List Partition) × (r.0 ≡ before ++ ps) × Rows f o (length before) n ps x r.1

  After-row :
      (o n : ℕ) (before : List Partition) (x : Option ℕ) {middle : RowState}
      → Next o before x middle
      → (r : RowState) → After (o + 16) n middle.0 middle.1 r
      → After o (suc n) before x r
  After-row o n before x (vacant_row free) r (ps, e, rows) = (ps, e, vacant free rows)
  After-row o n before x (container_row box) r (ps, e, rows) = (ps, e, container box rows)
  After-row o n before x {middle} (volume_row {p = p} other outside d) r (ps, e, rows) =
      let number : length (before ++ (p ∷ [])) ≡ suc (length before) =
        length-append before (p ∷ []) ∙ omega arith in
      (
        p ∷ ps,
        e ∙ append_assoc before (p ∷ []) ps,
        volume other outside d (subst (λ m. Rows f (o + 16) m n ps x r.1) number rows),
      )

  pub mbr_entries-Settles :
      (o n : ℕ) (before : List Partition) (x : Option ℕ)
      → Settles ⊥ (After o n before x) (mbr_entries before x (spans f o 16 n))
  unfolding mbr_entries spans
  mbr_entries-Settles o zero before x = ([], sym (append-nil before), done)
  mbr_entries-Settles o (suc n) before x =
      >>=-Settles ⊥ (Next o before x) (After o (suc n) before x) (mbr_entry before x (span f o 16))
        _ (mbr_entry-Settles o before x)
        λ middle round.
          Settles-map ⊥ (After (o + 16) n middle.0 middle.1) (After o (suc n) before x)
            (mbr_entries middle.0 middle.1 (spans f (o + 16) 16 n)) (After-row o n before x round)
            (mbr_entries-Settles (o + 16) n middle.0 middle.1)
