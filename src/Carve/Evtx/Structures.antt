-- ===== src/Carve/Evtx/Structures.antt =====
-- latent-carve/src/evtx/mod.rs: the structures that `EvtxExtractor::extract` recognises, and the
-- artefact that it cuts out for each.
use latent_dfir.Common.{
  ℕ, ◌≤◌, ◌≡◌, refl, sym, subst, ap, ◌∙◌, arith, min, true, Bool-cases, inl, inr, List, [], ◌∷◌,
  Bytes, starts_with, ok, ◌>>=◌, String, slice, slice-ok, length, take, Meets, >>=-Meets,
}
use latent_dfir.Core.Hash.{Digest, sha256, sha256_reader-slice}
use latent_dfir.Carve.Extractor.{Carved, new_carved, Rejection}
use latent_dfir.Carve.Evtx.{
  EvtxConfig, FileHeaderMeta, RecordFrame, chunk_magic, chunk_size, file_magic, record_magic,
  file_header_size, validate_chunk, validate_file_header, validate_record, extract,
}
use latent_dfir.Carve.Evtx.Spec.{IsAcceptable}
use latent_dfir.Carve.Evtx.Records.{validate_record-Meets, validate_record_iff}
use latent_dfir.Carve.Evtx.Chunks.{IsChunk, ChunkLength, validate_chunk-Meets, validate_chunk_iff}
use latent_dfir.Carve.Evtx.FileHeaders.{
  IsFileHeader, validate_file_header-Meets, validate_file_header_iff,
}
use latent_dfir.Carve.Evtx.Magic.{starts_with-other, starts_with-take, magics_apart}

new_carved_lem :
    (d : Digest) (offset : ℕ) (kind method : String) (bytes : Bytes)
    → new_carved d offset kind method bytes
      ≡ ok (record {
        offset = offset;
        kind = kind;
        method = method;
        raw_sha256 = sha256 d bytes;
        bytes = bytes;
      })
unfolding new_carved
new_carved_lem d offset kind method bytes = rw (sha256_reader-slice d bytes)

whole :
    {E : Type 0} (buf : Bytes) (len : ℕ)
    → len ≤ length buf
    → slice {E = E} buf 0 len ≡ ok (take len buf)
whole buf len h =
    slice-ok buf 0 len (omega arith) h ∙ ap (λ k. ok (take k buf)) {y = len} (omega arith)

module _ (crc32 : Bytes → ℕ) (config : EvtxConfig) (buf : Bytes) where
  -- What may stand at the head of a candidate.
  pub data Structure : Type 0 where
    chunk : (used : ℕ) → IsChunk crc32 buf used → Structure
    file_header : (meta : FileHeaderMeta) → IsFileHeader crc32 buf meta → Structure
    event_record : (frame : RecordFrame) → IsAcceptable config buf frame → Structure

  abbrev pub kind_of : Structure → String
  kind_of (chunk used c) = "evtx.chunk"
  kind_of (file_header meta h) = "evtx.file_header"
  kind_of (event_record frame a) = "evtx.record"

  abbrev pub method_name : Structure → String
  method_name (chunk used c) = "carve.evtx.chunk"
  method_name (file_header meta h) = "carve.evtx.file_header"
  method_name (event_record frame a) = "carve.evtx.record"

  -- A chunk is cut out whole, or as much of it as there is.
  abbrev pub extent_of : Structure → ℕ
  extent_of (chunk used c) = min chunk_size (length buf)
  extent_of (file_header meta h) = file_header_size
  extent_of (event_record frame a) = frame.size

  abbrev pub magic_of : Structure → Bytes
  magic_of (chunk used c) = chunk_magic
  magic_of (file_header meta h) = file_magic
  magic_of (event_record frame a) = record_magic

  pub Structure-magic : (s : Structure) → starts_with buf (magic_of s) ≡ true
  Structure-magic (chunk used c) = starts_with-take chunk_magic buf c.magic
  Structure-magic (file_header meta h) = starts_with-take file_magic buf h.magic
  Structure-magic (event_record frame a) = starts_with-take record_magic buf a.well_formed.magic

  pub Structure-extent :
      (s : Structure)
      → (4 ≤ extent_of s) × (length (magic_of s) ≤ extent_of s) × (extent_of s ≤ length buf)
  Structure-extent (chunk used c) = omega (arith, c.header, c.most, c.present)
  Structure-extent (file_header meta h) = omega (arith, h.header)
  Structure-extent (event_record frame a) =
      omega (arith, a.well_formed.minimal, a.well_formed.present)

  -- The artefact for a structure at an offset.
  abbrev pub artefact : Digest → ℕ → Structure → Carved
  artefact d offset s = record {
    offset = offset;
    kind = kind_of s;
    method = method_name s;
    raw_sha256 = sha256 d (take (extent_of s) buf);
    bytes = take (extent_of s) buf;
  }

  -- What `extract` may return.
  abbrev pub OneOf : Digest → ℕ → List Carved → Type 0
  OneOf d offset cs = (s : Structure) × (cs ≡ artefact d offset s ∷ [])

  cut :
      (d : Digest) (offset : ℕ) (s : Structure)
      → (do
        bytes ← slice buf 0 (extent_of s)
        carved ← new_carved d offset (kind_of s) (method_name s) bytes
        ok (carved ∷ []))
        ≡ ok (artefact d offset s ∷ [])
  cut d offset s =
      rw
        (
          whole {E = Rejection} buf (extent_of s) (Structure-extent s).2,
          new_carved_lem d offset (kind_of s) (method_name s) (take (extent_of s) buf),
        )
        refl

  cut-OneOf :
      (d : Digest) (offset : ℕ) (s : Structure)
      → Meets (OneOf d offset) (do
        bytes ← slice buf 0 (extent_of s)
        carved ← new_carved d offset (kind_of s) (method_name s) bytes
        ok (carved ∷ []))
  cut-OneOf d offset s = rw (cut d offset s) (s, refl)

  file_extent : file_header_size ≤ length buf → min file_header_size (length buf) ≡ file_header_size
  file_extent h = omega arith

  -- Whatever the bytes, `extract` never panics: it rejects them, or returns the artefact of a
  -- structure that stands there.
  pub extract-OneOf :
      (d : Digest) (offset : ℕ) → Meets (OneOf d offset) (extract crc32 d config offset buf)
  unfolding extract
  extract-OneOf d offset = elim (Bool-cases (starts_with buf chunk_magic)) [
    | inl c ↦ rw c (
        >>=-Meets (ChunkLength crc32 buf) (OneOf d offset) (validate_chunk crc32 buf) _
          (validate_chunk-Meets crc32 buf) λ len (is, l). rw l (cut-OneOf d offset (chunk _ is)))
    | inr nc ↦ rw nc (elim (Bool-cases (starts_with buf file_magic)) [
      | inl f ↦ rw f (
          >>=-Meets (IsFileHeader crc32 buf) (OneOf d offset) (validate_file_header crc32 buf) _
            (validate_file_header-Meets crc32 buf)
            λ meta h. rw (file_extent h.header) (cut-OneOf d offset (file_header meta h)))
      | inr nf ↦ rw nf (elim (Bool-cases (starts_with buf record_magic)) [
        | inl r ↦ rw r (
            >>=-Meets (IsAcceptable config buf) (OneOf d offset) (validate_record buf config) _
              (validate_record-Meets config buf)
              λ frame a. cut-OneOf d offset (event_record frame a))
        | inr nr ↦ rw nr tt
      ])
    ])
  ]

  -- A structure that stands there is cut out.
  pub extract-Structure :
      (d : Digest) (offset : ℕ) (s : Structure)
      → extract crc32 d config offset buf ≡ ok (artefact d offset s ∷ [])
  unfolding extract
  extract-Structure d offset (chunk used c) =
      let at = Structure-magic (chunk used c) in
      rw
        (
          at,
          (validate_chunk_iff crc32 buf (min chunk_size (length buf))).1
              (subst (λ u. IsChunk crc32 buf u) (sym c.free_space) c, refl),
        )
        (cut d offset (chunk used c))
  extract-Structure d offset (file_header meta h) =
      let at = Structure-magic (file_header meta h) in
      rw
        (
          starts_with-other buf file_magic chunk_magic magics_apart.3 at,
          at,
          (validate_file_header_iff crc32 buf meta).1 h,
          file_extent h.header,
        )
        (cut d offset (file_header meta h))
  extract-Structure d offset (event_record frame a) =
      let at = Structure-magic (event_record frame a) in
      rw
        (
          starts_with-other buf record_magic chunk_magic magics_apart.4 at,
          starts_with-other buf record_magic file_magic magics_apart.5 at,
          at,
          (validate_record_iff config buf frame).1 a,
        )
        (cut d offset (event_record frame a))

  -- Whatever the bytes of a candidate, `extract` never panics: it rejects them or returns one
  -- artefact, that of a chunk, a file header or a record that stands at their head; and if one
  -- stands there, it returns its artefact.
  pub extract-Structures :
      (d : Digest) (offset : ℕ)
      → Meets (OneOf d offset) (extract crc32 d config offset buf)
        × ((s : Structure) → extract crc32 d config offset buf ≡ ok (artefact d offset s ∷ []))
  extract-Structures d offset = (extract-OneOf d offset, extract-Structure d offset)
