-- ===== src/Partition/Gpt/Accepted.antt =====
-- Which disks `read_gpt` accepts.
use latent_dfir.Common.{
  ℕ, ◌+◌, ◌-◌, ◌*◌, ◌≡◌, refl, sym, ap, ◌∙◌, arith, not, ◌&&◌, &&-true, [], ◌++◌, Bytes, bytes_eq,
  bytes_eq→eq, replicate, subst, span, length-span, length, mul64, Settles, Settles-map,
  Settles-never, require-Settles, require-Settles_last, >>=-Settles, bytes_eq-same, ap₂, leb,
  leb→le, ◌==◌, ==_iff,
}
use latent_dfir.Source.{Source}
use latent_dfir.Source.Reads.{Serves}
use latent_dfir.Vdisk.Fields.{le_at}
use latent_dfir.Partition.{sector_size, chunks_exact}
use latent_dfir.Partition.Fields.{slice-then, field-then, read-absent, spans, chunks_exact-span}
use latent_dfir.Partition.Gpt.{signature, gpt_entries, check_header, read_entries, read_gpt}
use latent_dfir.Partition.Gpt.Spec.{
  HasHeader, HasEntries, HasGpt, IsGpt, Listed, header_size, entries_offset, count, entry_size,
}
use latent_dfir.Partition.Gpt.Listed.{After, gpt_entries-Settles}
use latent_dfir.Partition.Gpt.Shape.{
  offset-then, table_shape, shape_holds, sizes_hold, table_size, table_positive, too_short,
}

module _ (crc32 : Bytes → ℕ) (f : ℕ → ℕ) (size : ℕ) where
  -- What a failure means.
  abbrev NoGpt : Type 0
  NoGpt = ¬ HasGpt f crc32 size

  check_header-Settles :
      (b : Bytes)
      → b ≡ span f 512 512
      → Settles NoGpt (λ u. HasHeader f crc32) (check_header crc32 b)
  unfolding check_header
  check_header-Settles b e =
      let P = λ (u : Unit {0}). HasHeader f crc32 in
      let Q = NoGpt in
      let hs = header_size f in
      let long = length-span f 512 (hs - 0) in
      slice-then f Q P 512 512 e 0 8 _ (omega arith) (omega arith) (
        require-Settles Q P (bytes_eq (span f 512 8) signature) _ _
          (λ mark. field-then f Q P 512 512 e 12 4 _ (omega arith) (
            require-Settles Q P (leb 92 hs && leb hs sector_size) _ _
              (λ sizes.
                let (low, high) = &&-true (leb 92 hs) (leb hs sector_size) sizes in
                let hs_low = leb→le 92 hs low in
                let hs_high = leb→le hs sector_size high in
                field-then f Q P 512 512 e 16 4 _ (omega arith) (
                  slice-then f Q P 512 512 e 0 hs _ (omega arith) hs_high (
                    slice-then f Q P 512 (hs - 0) refl 0 16 _ (omega arith) (omega arith) (
                      slice-then f Q P 512 (hs - 0) refl 20 (length (span f 512 (hs - 0))) _
                        (omega (arith, long)) (omega (arith, long))
                        (require-Settles_last Q P
                          (crc32 (
                              span f 512 16
                              ++ replicate 4 0
                              ++ span f 532 (length (span f 512 (hs - 0)) - 20))
                            == le_at f 528 4)
                          _
                          (λ sum. record {
                            mark = bytes_eq→eq (span f 512 8) signature mark;
                            header_low = hs_low;
                            header_high = hs_high;
                            header_sum =
                                ap (λ n. crc32 (span f 512 16 ++ replicate 4 0 ++ span f 532 n))
                                  (omega (arith, long))
                                ∙ (==_iff _ _).0 sum;
                          })
                          λ bad gpt. absurd (
                            cc (
                              bad,
                              (==_iff _ _).1 (
                                  ap (λ n. crc32 (span f 512 16 ++ replicate 4 0 ++ span f 532 n))
                                    {x = length (span f 512 (hs - 0)) - 20} {y = hs - 20}
                                    (omega (arith, long))
                                  ∙ gpt.has_header.header_sum),
                            )))))))
              λ bad gpt.
                absurd
                  (cc (bad, sizes_hold hs gpt.has_header.header_low gpt.has_header.header_high))))
          λ bad gpt.
            absurd (
              cc
                (bad, bytes_eq-same signature, ap (λ m. bytes_eq m signature) gpt.has_header.mark)))

  -- The size of an entry, and the bytes of the entries.
  abbrev Array : ℕ × Bytes → Type 0
  Array r =
      (HasEntries f crc32)
      × (r.0 ≡ entry_size f)
      × (r.1 ≡ span f (entries_offset f) (count f * entry_size f))

  read_entries-Settles :
      (src : Source) (b : Bytes)
      → src.size ≡ size
      → Serves src f
      → b ≡ span f 512 512
      → Settles NoGpt Array (read_entries crc32 src b)
  unfolding read_entries
  read_entries-Settles src b same s e =
      let Q = NoGpt in
      let es = entry_size f in
      let n = count f in
      let eo = entries_offset f in
      field-then f Q Array 512 512 e 72 8 _ (omega arith) (
        field-then f Q Array 512 512 e 80 4 _ (omega arith) (
          field-then f Q Array 512 512 e 84 4 _ (omega arith) (
            field-then f Q Array 512 512 e 88 4 _ (omega arith) (
              require-Settles Q Array (leb 128 es && leb es 4096 && not (n == 0) && leb n 4096) _ _
                (λ shape.
                  let ((low, high), some_entries, few) = table_shape es n shape in
                  let all = table_size es n few high in
                  offset-then Q Array (le_at f (512 + 72) 8) sector_size _
                    (λ fits.
                      read-absent s Q Array eo (mul64 n es) _
                        (table_positive es n few high low some_entries)
                        (λ short gpt.
                          too_short src.size size eo (mul64 n es) (n * es) same all short
                            gpt.entries_inside)
                        λ inside entries g.
                          let whole : entries ≡ span f eo (n * es) = g ∙ ap (span f eo) all in
                          require-Settles Q Array (crc32 entries == le_at f 600 4) _ _
                            (λ sum. (
                              record {
                                entry_low = low;
                                entry_high = high;
                                some_entries = some_entries;
                                few_entries = few;
                                entries_fit = fits;
                                entries_sum = ap crc32 (sym whole) ∙ (==_iff _ _).0 sum;
                              },
                              refl,
                              whole,
                            ))
                            λ bad gpt. absurd (
                              cc (
                                bad,
                                (==_iff _ _).1 (ap crc32 whole ∙ gpt.has_entries.entries_sum),
                              )))
                    λ far gpt. far gpt.has_entries.entries_fit)
                λ bad gpt.
                  let has = gpt.has_entries in
                  absurd (
                    cc (
                      bad,
                      shape_holds es n has.entry_low has.entry_high has.some_entries
                          has.few_entries,
                    ))))))

  chunks-spans :
      (r : ℕ × Bytes)
      → Array r
      → chunks_exact r.0 r.1 ≡ spans f (entries_offset f) (entry_size f) (count f)
  chunks-spans r (has, size, whole) =
      ap₂ chunks_exact size whole
      ∙ chunks_exact-span f (entries_offset f) (entry_size f) (count f)
          (omega (arith, has.entry_low))

-- Reading a GUID partition table from a disk that serves its bytes ends without a panic: either it
-- returns the partitions of the table in the bytes of the disk, with its signature and both
-- checksums, or it fails, and then the disk holds no such table.
pub read_gpt-Settles :
    (crc32 : Bytes → ℕ) (src : Source) (f : ℕ → ℕ)
    → Serves src f
    → Settles (¬ HasGpt f crc32 src.size) (IsGpt f crc32) (read_gpt crc32 src)
unfolding read_gpt
read_gpt-Settles crc32 src f s =
    let Q = ¬ HasGpt f crc32 src.size in
    let P = IsGpt f crc32 in
    let o = entries_offset f in
    let k = entry_size f in
    let n = count f in
    read-absent s Q P sector_size sector_size _ (omega arith)
      (λ short gpt. omega (arith, gpt.header_inside))
      λ inside b e.
        >>=-Settles Q (λ u. HasHeader f crc32) P (check_header crc32 b) _
          (check_header-Settles crc32 f src.size b e)
          λ u header.
            >>=-Settles Q (Array crc32 f src.size) P (read_entries crc32 src b) _
              (read_entries-Settles crc32 f src.size src b refl s e)
              λ r array.
                subst (λ c. Settles Q P (gpt_entries c []))
                  (sym (chunks-spans crc32 f src.size r array))
                  (Settles-never Q P (gpt_entries (spans f o k n) []) (
                    Settles-map ⊥ (After f k o n []) P (gpt_entries (spans f o k n) [])
                      (λ ps after. record {
                        has_header = header;
                        has_entries = array.0;
                        listed = subst (Listed f k o 0 n) (sym after.1) after.2;
                      })
                      (gpt_entries-Settles f k o n [] array.0.entry_low)))
