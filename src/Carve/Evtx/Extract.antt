-- ===== src/Carve/Evtx/Extract.antt =====
-- What the EVTX extractor cuts out.
use latent_dfir.Common.{ℕ, ◌≤◌, ◌≡◌, List, [], ◌∷◌, Bytes, String, length, take, Meets, Meets-map}
use latent_dfir.Core.Hash.{Digest, sha256}
use latent_dfir.Carve.Extractor.{Carved}
use latent_dfir.Carve.Evtx.{EvtxConfig, extract}
use latent_dfir.Carve.Evtx.Structures.{
  kind_of, method_name, extent_of, OneOf, Structure-extent, extract-OneOf,
}

module _ (crc32 : Bytes → ℕ) (d : Digest) where
  -- What `extract` may return: one artefact, cut by the validator of its magic value.
  abbrev pub Cut : EvtxConfig → ℕ → Bytes → List Carved → Type 0
  Cut config offset buf cs =
      (len : ℕ) × (kind : String) × (method : String) × (cs
        ≡ record {
          offset = offset;
          kind = kind;
          method = method;
          raw_sha256 = sha256 d (take len buf);
          bytes = take len buf;
        }
          ∷ [])
      × (len ≤ length buf)
      × (4 ≤ len)

  -- Whatever the bytes, `extract` never panics: it rejects them, or returns one artefact that is
  -- the first bytes of the candidate, at least its magic value, with the candidate's offset and the
  -- digest of exactly those bytes.
  pub extract-Meets :
      (config : EvtxConfig) (offset : ℕ) (buf : Bytes)
      → Meets (Cut config offset buf) (extract crc32 d config offset buf)
  extract-Meets config offset buf =
      Meets-map (OneOf crc32 config buf d offset) (Cut config offset buf) _
        (λ cs (s, e). (
          extent_of crc32 config buf s,
          kind_of crc32 config buf s,
          method_name crc32 config buf s,
          e,
          (Structure-extent crc32 config buf s).2,
          (Structure-extent crc32 config buf s).0,
        ))
        (extract-OneOf crc32 config buf d offset)
