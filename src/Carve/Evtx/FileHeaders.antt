-- ===== src/Carve/Evtx/FileHeaders.antt =====
-- What a candidate for a file header must be, and `validate_file_header`.
use latent_dfir.Common.{
  ℕ, ◌≤◌, ◌≡◌, refl, ap, ◌∙◌, arith, ◌↔◌, Bytes, bytes_eq, bytes_eq→eq, ok, slice-ok, length, take,
  leb, le→leb, leb→le, ◌==◌, ==_iff, Meets, ok-Meets, require-Meets, Meets-ok,
}
use latent_dfir.Carve.Extractor.{Rejection}
use latent_dfir.Carve.Evtx.{file_magic, file_header_size, FileHeaderMeta, validate_file_header}
use latent_dfir.Carve.Evtx.Spec.{le_at, unwrap-read_u32, unwrap-read_u64}

module _ (crc32 : Bytes → ℕ) where
  -- What `validate_file_header` returns: the fields of the header, its checksum and order checked.
  pub record IsFileHeader (buf : Bytes) (meta : FileHeaderMeta) : Type 0 where
    pub header : file_header_size ≤ length buf
    pub magic : take 8 buf ≡ file_magic
    pub header_sum : crc32 (take 120 buf) ≡ le_at buf 124 4
    pub first_chunk : le_at buf 8 8 ≡ meta.first_chunk
    pub last_chunk : le_at buf 16 8 ≡ meta.last_chunk
    pub order : meta.first_chunk ≤ meta.last_chunk
    pub next_record_id : le_at buf 24 8 ≡ meta.next_record_id
    pub chunk_count : le_at buf 42 2 ≡ meta.chunk_count
    pub flags : le_at buf 120 4 ≡ meta.flags

  pub validate_file_header-Meets :
      (buf : Bytes) → Meets (IsFileHeader buf) (validate_file_header crc32 buf)
  unfolding validate_file_header
  validate_file_header-Meets buf =
      let P = IsFileHeader buf in
      require-Meets P (leb file_header_size (length buf)) _ _ λ long.
        let header = leb→le _ _ long in
        ok-Meets P _ (slice-ok buf 0 8 (omega arith) (omega arith)) (
          require-Meets P (bytes_eq (take 8 buf) file_magic) _ _ λ magic.
            ok-Meets P _ (unwrap-read_u32 buf 124 (omega arith)) (
              ok-Meets P _ (slice-ok buf 0 120 (omega arith) (omega arith)) (
                require-Meets P (crc32 (take 120 buf) == le_at buf 124 4) _ _ λ sum.
                  ok-Meets P _ (unwrap-read_u64 buf 8 (omega arith)) (
                    ok-Meets P _ (unwrap-read_u64 buf 16 (omega arith)) (
                      require-Meets P (leb (le_at buf 8 8) (le_at buf 16 8)) _ _ λ order.
                        ok-Meets P _ (unwrap-read_u64 buf 24 (omega arith)) (
                          ok-Meets P _ (slice-ok buf 42 44 (omega arith) (omega arith)) (
                            ok-Meets P _ (unwrap-read_u32 buf 120 (omega arith)) (record {
                              header = header;
                              magic = bytes_eq→eq (take 8 buf) file_magic magic;
                              header_sum = (==_iff _ _).0 sum;
                              first_chunk = refl;
                              last_chunk = refl;
                              order = leb→le _ _ order;
                              next_record_id = refl;
                              chunk_count = refl;
                              flags = refl;
                            }))))))))

  validate_file_header_complete :
      (buf : Bytes) (meta : FileHeaderMeta)
      → IsFileHeader buf meta
      → validate_file_header crc32 buf ≡ ok meta
  unfolding validate_file_header
  validate_file_header_complete buf meta h =
      let header = h.header in
      rw
        (
          slice-ok {E = Rejection} buf 0 8 (omega arith) (omega arith),
          slice-ok {E = Rejection} buf 0 120 (omega arith) (omega arith),
          slice-ok {E = Rejection} buf 42 44 (omega arith) (omega arith),
          le→leb file_header_size (length buf) header,
          ap (λ m. bytes_eq m file_magic) h.magic,
          unwrap-read_u32 {E = Rejection} buf 124 (omega arith),
          (==_iff _ _).1 h.header_sum,
          unwrap-read_u64 {E = Rejection} buf 8 (omega arith) ∙ ap ok h.first_chunk,
          unwrap-read_u64 {E = Rejection} buf 16 (omega arith) ∙ ap ok h.last_chunk,
          le→leb meta.first_chunk meta.last_chunk h.order,
          unwrap-read_u64 {E = Rejection} buf 24 (omega arith) ∙ ap ok h.next_record_id,
          unwrap-read_u32 {E = Rejection} buf 120 (omega arith) ∙ ap ok h.flags,
        )
        (ap (λ c. ok (record meta { chunk_count = c })) h.chunk_count)

  -- `validate_file_header` accepts a candidate exactly if its magic value and checksum are right and
  -- its chunk numbers are in order, and returns the fields that stand in it.
  pub validate_file_header_iff :
      (buf : Bytes) (meta : FileHeaderMeta)
      → (validate_file_header crc32 buf ≡ ok meta) ↔ IsFileHeader buf meta
  validate_file_header_iff buf meta = (
    Meets-ok (IsFileHeader buf) (validate_file_header-Meets buf),
    validate_file_header_complete buf meta,
  )
