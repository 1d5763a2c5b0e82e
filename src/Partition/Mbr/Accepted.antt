-- ===== src/Partition/Mbr/Accepted.antt =====
-- Which disks `read_mbr` accepts.
use latent_dfir.Common.{
  ℕ, ◌+◌, ◌<◌, ◌≡◌, ◌≢◌, sym, ap, arith, true, not, Option, none, some, List, [], ◌∷◌, ◌++◌, length,
  take, subst, span, Settles, >>=-Settles, Settles-map, Settles-never, require-Settles, false, refl,
}
use mathlib.Core.List.{append-nil}
use latent_dfir.Source.{Source}
use latent_dfir.Source.Reads.{Serves}
use latent_dfir.Partition.{Partition, sector_size, chunks_exact, no_partitions}
use latent_dfir.Partition.Fields.{slice-then, read-absent, spans, chunks_exact-span}
use latent_dfir.Partition.Mbr.{is_marked, mbr_entries, logicals, read_logical, read_mbr}
use latent_dfir.Partition.Mbr.Spec.{
  Rows, done, vacant, container, volume, Logicals, no_container, in_container, IsMbr, HasNoMbr,
  too_small, unmarked, no_entries,
}
use latent_dfir.Partition.Mbr.Rows as Table
use latent_dfir.Partition.Mbr.Rows.{mbr_entries-Settles, le_at-small}
use latent_dfir.Partition.Mbr.Chains.{Tells, is_marked-Settles, read_logical-Settles}

not-no_partitions :
    (ps : List Partition) (p : Partition) (qs : List Partition)
    → ps ≡ p ∷ qs
    → not (no_partitions ps) ≡ true
not-no_partitions [] p qs e = absurd (cc)
not-no_partitions (q ∷ ps) p qs e = refl

module _ {src : Source} {f : ℕ → ℕ} (s : Serves src f) (bytes : (i : ℕ) → f i < 256) where
  -- The extended partition that the entries name starts below 2^32.
  abbrev IsBelow : Option ℕ → Type 0
  IsBelow none = Unit
  IsBelow (some base) = base < 0x1_0000_0000

  Rows-IsBelow :
      {o number n : ℕ} {ps : List Partition} {before extended : Option ℕ}
      → Rows f o number n ps before extended
      → IsBelow before
      → IsBelow extended
  Rows-IsBelow done h = h
  Rows-IsBelow (vacant v rows) h = Rows-IsBelow rows h
  Rows-IsBelow (container {o = o} c rows) h = Rows-IsBelow rows (le_at-small f bytes (o + 8))
  Rows-IsBelow (volume a b c rows) h = Rows-IsBelow rows h

  -- The logical partitions, after the primary ones.
  abbrev Ends : List Partition → Option ℕ → List Partition → Type 0
  Ends before extended r =
      (ps : List Partition) × (r ≡ before ++ ps) × Logicals f src.size (length before) extended ps

  logicals-Settles :
      (before : List Partition) (extended : Option ℕ)
      → IsBelow extended
      → Settles ⊥ (Ends before extended) (logicals src (before, extended))
  unfolding logicals
  logicals-Settles before none h = ([], sym (append-nil before), no_container)
  logicals-Settles before (some base) h =
      Settles-map ⊥ _ (Ends before (some base)) (read_logical 1024 src base base before)
        (λ r after. (after.0, after.1, in_container after.2))
        (read_logical-Settles s bytes base 1024 h base before (omega (arith, h)))

  not_none : (ps : List Partition) → not (no_partitions ps) ≡ true → ps ≢ []
  not_none [] h = absurd (cc)
  not_none (p ∷ ps) h = cc

  rows_of_table : take 4 (chunks_exact 16 (span f 446 64)) ≡ spans f 446 16 4
  unfolding spans
  rows_of_table = ap (take 4) (chunks_exact-span f 446 16 4 (omega arith))

  -- A table without partitions has no entry that holds one.
  empty_table :
      (extended : Option ℕ) (primaries logicals ps : List Partition)
      → Rows f 446 0 4 primaries none extended
      → Logicals f src.size (length primaries) extended logicals
      → ps ≡ primaries ++ logicals
      → not (no_partitions ps) ≡ false
      → HasNoMbr f src.size
  empty_table extended [] [] ps rows chain e h = no_entries rows chain
  empty_table extended [] (p ∷ qs) ps rows chain e h = absurd (cc (not-no_partitions ps p qs e, h))
  empty_table extended (p ∷ qs) rest ps rows chain e h =
      absurd (cc (not-no_partitions ps p (qs ++ rest) e, h))

  -- Reading an MBR partition table from a disk that serves its bytes ends without a panic: either it
  -- returns the partitions of the table in the bytes of the disk, the primary ones and the logical
  -- ones of the chain of extended boot records, or it fails, and then the disk has no signature in
  -- its first sector or no entry that holds a partition.
  pub read_mbr-Settles : Settles (HasNoMbr f src.size) (IsMbr f src.size) (read_mbr src)
  unfolding read_mbr
  read_mbr-Settles =
      let Q = HasNoMbr f src.size in
      let P = IsMbr f src.size in
      read-absent s Q P 0 sector_size _ (omega arith) (λ short. too_small (omega arith))
        λ inside b e.
          >>=-Settles Q (Tells f 0) P (is_marked b) _
            (Settles-never Q (Tells f 0) (is_marked b) (is_marked-Settles f 0 b e))
            λ marked t.
              require-Settles Q P marked _ _
                (λ m. slice-then f Q P 0 512 e 446 510 _ (omega arith) (omega arith) (
                  >>=-Settles Q (Table.After f bytes 446 4 [] none) P
                    (mbr_entries [] none (take 4 (chunks_exact 16 (span f 446 64)))) _
                    (Settles-never Q (Table.After f bytes 446 4 [] none) _ (
                      subst
                        (λ c. Settles ⊥ (Table.After f bytes 446 4 [] none) (mbr_entries [] none c))
                        (sym rows_of_table) (mbr_entries-Settles f bytes 446 4 [] none)))
                    λ found after.
                      let rows = subst (λ l. Rows f 446 0 4 l none found.1) (sym after.1) after.2 in
                      >>=-Settles Q (Ends found.0 found.1) P (logicals src found) _
                        (Settles-never Q (Ends found.0 found.1) (logicals src found)
                          (logicals-Settles found.0 found.1 (Rows-IsBelow after.2 tt)))
                        λ partitions ends.
                          require-Settles Q P (not (no_partitions partitions)) _ _
                            (λ some. record {
                              marked = subst (Tells f 0) m t;
                              extended = found.1;
                              primaries = found.0;
                              logicals = ends.0;
                              rows = rows;
                              chain = ends.2;
                              all = ends.1;
                              some_partition = not_none partitions some;
                            })
                            λ none_there.
                              empty_table found.1 found.0 ends.0 partitions rows ends.2 ends.1
                                none_there))
                λ m. unmarked (subst (Tells f 0) m t)
