-- ===== src/Carve/Evtx/Chunks.antt =====
-- What a candidate for a chunk must be, and `validate_chunk`.
use latent_dfir.Common.{
  ℕ, ◌-◌, ◌≤◌, ◌≡◌, refl, sym, ap, ap₂, ◌∙◌, arith, min, true, ◌&&◌, &&-true, ◌++◌, ◌↔◌, Bytes,
  bytes_eq, bytes_eq→eq, ok, slice-ok, length, length-take, take, drop, take-drop-take, leb, le→leb,
  le→leb_both, leb→le, ◌==◌, ==_iff, Meets, ok-Meets, require-Meets, Meets-ok,
}
use latent_dfir.Carve.Extractor.{Rejection}
use latent_dfir.Carve.Evtx.{chunk_magic, chunk_size, chunk_header_size, validate_chunk}
use latent_dfir.Carve.Evtx.Spec.{le_at, le_at-take, unwrap-read_u32, unwrap-read_u64}

module _ (crc32 : Bytes → ℕ) where
  -- A chunk whose header is whole and whose two checksums match, with `used` bytes in use.
  pub record IsChunk (buf : Bytes) (used : ℕ) : Type 0 where
    pub header : chunk_header_size ≤ length buf
    pub magic : take 8 buf ≡ chunk_magic
    pub free_space : le_at buf 48 4 ≡ used
    pub least : chunk_header_size ≤ used
    pub most : used ≤ chunk_size
    pub present : used ≤ length buf
    pub header_sum : crc32 (take 120 buf ++ take 384 (drop 128 buf)) ≡ le_at buf 124 4
    pub records_sum : crc32 (take (used - 512) (drop 512 buf)) ≡ le_at buf 52 4
    pub numbers : le_at buf 8 8 ≤ le_at buf 16 8
    pub ids : le_at buf 24 8 ≤ le_at buf 32 8

  -- What `validate_chunk` answers for a chunk: the length to carve.
  abbrev pub ChunkLength : Bytes → ℕ → Type 0
  ChunkLength buf len = IsChunk buf (le_at buf 48 4) × (len ≡ min chunk_size (length buf))

  pub validate_chunk-Meets : (buf : Bytes) → Meets (ChunkLength buf) (validate_chunk crc32 buf)
  unfolding validate_chunk
  validate_chunk-Meets buf =
      let P = ChunkLength buf in
      let used = le_at buf 48 4 in
      require-Meets P (leb chunk_header_size (length buf)) _ _ λ long.
        let header = leb→le _ _ long in
        ok-Meets P _ (slice-ok buf 0 8 (omega arith) (omega arith)) (
          require-Meets P (bytes_eq (take 8 buf) chunk_magic) _ _ λ magic.
            ok-Meets P _ (unwrap-read_u32 buf 48 (omega arith)) (
              require-Meets P (leb chunk_header_size used && leb used chunk_size) _ _ λ bounds.
                let least = leb→le _ _ (&&-true _ _ bounds).0 in
                ok-Meets P _ (unwrap-read_u32 buf 124 (omega arith)) (
                  ok-Meets P _ (slice-ok buf 0 120 (omega arith) (omega arith)) (
                    ok-Meets P _ (slice-ok buf 128 chunk_header_size (omega arith) (omega arith)) (
                      require-Meets P
                        (crc32 (take 120 buf ++ take 384 (drop 128 buf)) == le_at buf 124 4) _ _
                        λ header_sum. require-Meets P (leb used (length buf)) _ _ λ present.
                          let whole = leb→le _ _ present in
                          ok-Meets P _ (unwrap-read_u32 buf 52 (omega arith)) (
                            ok-Meets P _ (slice-ok buf chunk_header_size used least whole) (
                              require-Meets P
                                (crc32 (take (used - 512) (drop 512 buf)) == le_at buf 52 4) _ _
                                λ records_sum. ok-Meets P _ (unwrap-read_u64 buf 8 (omega arith)) (
                                  ok-Meets P _ (unwrap-read_u64 buf 16 (omega arith)) (
                                    ok-Meets P _ (unwrap-read_u64 buf 24 (omega arith)) (
                                      ok-Meets P _ (unwrap-read_u64 buf 32 (omega arith)) (
                                        require-Meets P
                                          (leb (le_at buf 8 8) (le_at buf 16 8)
                                            && leb (le_at buf 24 8) (le_at buf 32 8))
                                          _ _
                                          λ order. (
                                            record {
                                              header = header;
                                              magic = bytes_eq→eq (take 8 buf) chunk_magic magic;
                                              free_space = refl;
                                              least = least;
                                              most = leb→le _ _ (&&-true _ _ bounds).1;
                                              present = whole;
                                              header_sum = (==_iff _ _).0 header_sum;
                                              records_sum = (==_iff _ _).0 records_sum;
                                              numbers = leb→le _ _ (&&-true _ _ order).0;
                                              ids = leb→le _ _ (&&-true _ _ order).1;
                                            },
                                            refl,
                                          ))))))))))))

  validate_chunk_complete :
      (buf : Bytes) (used : ℕ)
      → IsChunk buf used
      → validate_chunk crc32 buf ≡ ok (min chunk_size (length buf))
  unfolding validate_chunk
  validate_chunk_complete buf used c =
      let header = c.header in
      let bounds : (leb chunk_header_size used && leb used chunk_size) ≡ true =
        le→leb_both _ _ _ _ c.least c.most in
      let order : (leb (le_at buf 8 8) (le_at buf 16 8) && leb (le_at buf 24 8) (le_at buf 32 8))
          ≡ true =
        le→leb_both _ _ _ _ c.numbers c.ids in
      rw (
        slice-ok {E = Rejection} buf 0 8 (omega arith) (omega arith),
        slice-ok {E = Rejection} buf 0 120 (omega arith) (omega arith),
        slice-ok {E = Rejection} buf 128 chunk_header_size (omega arith) (omega arith),
        le→leb chunk_header_size (length buf) header,
        ap (λ m. bytes_eq m chunk_magic) c.magic,
        unwrap-read_u32 {E = Rejection} buf 48 (omega arith) ∙ ap ok c.free_space,
        bounds,
        unwrap-read_u32 {E = Rejection} buf 124 (omega arith),
        (==_iff _ _).1 c.header_sum,
        slice-ok {E = Rejection} buf chunk_header_size used c.least c.present,
        le→leb used (length buf) c.present,
        unwrap-read_u32 {E = Rejection} buf 52 (omega arith),
        (==_iff _ _).1 c.records_sum,
        unwrap-read_u64 {E = Rejection} buf 8 (omega arith),
        unwrap-read_u64 {E = Rejection} buf 16 (omega arith),
        unwrap-read_u64 {E = Rejection} buf 24 (omega arith),
        unwrap-read_u64 {E = Rejection} buf 32 (omega arith),
        order,
      )

  -- `validate_chunk` accepts a candidate exactly if it is a chunk, and then answers the length to
  -- carve: the whole 64 KiB, or all there is.
  pub validate_chunk_iff :
      (buf : Bytes) (len : ℕ) → (validate_chunk crc32 buf ≡ ok len) ↔ ChunkLength buf len
  validate_chunk_iff buf len = (
    Meets-ok (ChunkLength buf) (validate_chunk-Meets buf),
    λ c. validate_chunk_complete buf (le_at buf 48 4) c.0 ∙ ap ok (sym c.1),
  )

  IsChunk-take :
      (buf : Bytes) (used n : ℕ)
      → used ≤ n
      → n ≤ length buf
      → IsChunk buf used
      → IsChunk (take n buf) used
  IsChunk-take buf used n h k c =
      let least = c.least in
      let same = λ (at : ℕ) (m : ℕ). le_at-take buf n at m in
      record {
        header = omega (arith, length-take n buf);
        magic = take-drop-take 8 0 n buf (omega arith) ∙ c.magic;
        free_space = le_at-take buf n 48 4 (omega arith) ∙ c.free_space;
        least = least;
        most = c.most;
        present = omega (arith, length-take n buf);
        header_sum =
            ap₂ (λ a b. crc32 (a ++ b)) (take-drop-take 120 0 n buf (omega arith))
              (take-drop-take 384 128 n buf (omega arith))
            ∙ c.header_sum
            ∙ sym (le_at-take buf n 124 4 (omega arith));
        records_sum =
            ap crc32 (take-drop-take (used - 512) 512 n buf (omega arith))
            ∙ c.records_sum
            ∙ sym (le_at-take buf n 52 4 (omega arith));
        numbers = omega (
          arith,
          c.numbers,
          le_at-take buf n 8 8 (omega arith),
          le_at-take buf n 16 8 (omega arith),
        );
        ids = omega (
          arith,
          c.ids,
          le_at-take buf n 24 8 (omega arith),
          le_at-take buf n 32 8 (omega arith),
        );
      }

  -- The bytes carved for an accepted chunk are accepted by themselves, at the same length.
  pub validate_chunk-take :
      (buf : Bytes) (len : ℕ)
      → validate_chunk crc32 buf ≡ ok len
      → validate_chunk crc32 (take len buf) ≡ ok len
  validate_chunk-take buf len e =
      let (c, l) = (validate_chunk_iff buf len).0 e in
      let most = c.most in
      let present = c.present in
      validate_chunk_complete (take len buf) (le_at buf 48 4)
        (IsChunk-take buf (le_at buf 48 4) len (omega arith) (omega arith) c)
      ∙ ap ok (omega (arith, length-take len buf))
