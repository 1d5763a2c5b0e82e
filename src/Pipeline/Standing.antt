-- ===== src/Pipeline/Standing.antt =====
-- What stands in a source, and what the registry answers for a hit, with the extractor of
-- latent-carve/src/evtx alone.
use latent_dfir.Common.{
  ℕ, zero, suc, ◌-◌, ◌<◌, ◌≡◌, refl, sym, ap, ◌∙◌, arith, true, some, List, [], ◌∷◌, min, Bytes, ok,
  err, panic, stuck, Outcome, span, starts_with, get_elem?, Meets, Meets-weaken, Option-cases, inl,
  inr, Among, length-span, subst, Among-single,
}
use latent_dfir.Core.Hash.{Digest}
use latent_dfir.Scan.{Hit}
use latent_dfir.Scan.Reference.{hit_of, hits_in, starts_with-span}
use latent_dfir.Scan.Occurrences.{hits_in-Among}
use latent_dfir.Carve.Extractor.{Extractor, Carved, Rejection}
use latent_dfir.Carve.Registry.{build}
use latent_dfir.Carve.Registry.Dispatch.{IsTotal, answered}
use latent_dfir.Carve.Registry.Replies.{reply, extracted, owned_reply}
use latent_dfir.Carve.Evtx.{EvtxConfig, chunk_size, evtx_extractor, extract}
use latent_dfir.Carve.Evtx.Structures.{
  Structure, chunk, file_header, event_record, magic_of, Structure-magic, Structure-extent,
  artefact, OneOf, extract-OneOf, extract-Structure,
}

-- Where the registry is asked for the artefacts of a hit.
abbrev pub place : Hit → ℕ × ℕ
place h = (h.offset, h.pattern_id)

module _ (crc32 : Bytes → ℕ) (d : Digest) (config : EvtxConfig) (f : ℕ → ℕ) (size : ℕ) where
  -- What the extractor gets to see at an offset.
  abbrev pub candidate : ℕ → Bytes
  candidate offset = span f offset (min chunk_size (size - offset))

  -- The artefact of a structure that stands somewhere in the source.
  abbrev pub Stands : Carved → Type 0
  Stands c =
      (offset : ℕ) × (s : Structure crc32 config (candidate offset)) × (c
        ≡ artefact crc32 config (candidate offset) d offset s)

  abbrev pub extractors : List Extractor
  extractors = evtx_extractor crc32 d config ∷ []

  abbrev pub evtx_reply : ℕ × ℕ → List Carved
  evtx_reply = reply f size (build extractors).extractors (build extractors).pattern_owner

  answered-Stands :
      (offset : ℕ) (m : Outcome Rejection (List Carved)) (c : Carved)
      → Meets (OneOf crc32 config (candidate offset) d offset) m
      → Among c (answered m)
      → Stands c
  answered-Stands offset (ok cs) c (s, e) among =
      (offset, s, Among-single _ c (subst (Among c) e among))
  answered-Stands offset (err e) c m (i, at) = absurd (cc)
  answered-Stands offset panic c m (i, at) = absurd m
  answered-Stands offset stuck c m (i, at) = absurd m

  -- With one extractor, no owner but the first has artefacts.
  extracted-Stands :
      (offset owner : ℕ) (c : Carved)
      → Among c (
          extracted f size extractors
            (build extractors).pattern_owner
            offset
            (get_elem? extractors owner))
      → Stands c
  extracted-Stands offset zero c among =
      answered-Stands offset (extract crc32 d config offset (candidate offset)) c
        (extract-OneOf crc32 config (candidate offset) d offset) among
  extracted-Stands offset (suc owner) c (i, at) = absurd (cc)

  pub reply-Stands : (offset id : ℕ) (c : Carved) → Among c (evtx_reply (offset, id)) → Stands c
  unfolding build
  reply-Stands offset id c among =
      let answer = owned_reply f size extractors (build extractors).pattern_owner offset in
      elim (Option-cases (get_elem? (build extractors).pattern_owner id)) [
        | inl h ↦
            let (i, at) : Among {A = Carved} c [] = subst (λ o. Among c (answer o)) h among in
            absurd (cc)
        | inr (owner, h) ↦ extracted-Stands offset owner c (subst (λ o. Among c (answer o)) h among)
      ]

  magic_index : (buf : Bytes) → Structure crc32 config buf → ℕ
  magic_index buf (chunk used c) = 0
  magic_index buf (file_header meta h) = 2
  magic_index buf (event_record frame a) = 1

  magic_place :
      (buf : Bytes) (s : Structure crc32 config buf)
      → (get_elem? (build extractors).patterns (magic_index buf s)
          ≡ some (magic_of crc32 config buf s))
        × (get_elem? (build extractors).pattern_owner (magic_index buf s) ≡ some 0)
  unfolding build magic_index
  magic_place buf (chunk used c) = (refl, refl)
  magic_place buf (file_header meta h) = (refl, refl)
  magic_place buf (event_record frame a) = (refl, refl)

  -- A structure begins inside the source, and there with its magic value.
  Structure-begins :
      (offset : ℕ) (s : Structure crc32 config (candidate offset))
      → (offset < size)
        × (starts_with (span f offset (size - offset)) (magic_of crc32 config (candidate offset) s)
            ≡ true)
  Structure-begins offset s =
      let (least, long, within) = Structure-extent crc32 config (candidate offset) s in
      let magic = magic_of crc32 config (candidate offset) s in
      let shown = length-span f offset (min chunk_size (size - offset)) in
      (
        omega (arith, least, within, shown),
        sym (
              starts_with-span f magic offset (min chunk_size (size - offset)) (size - offset)
                (omega (arith, long, within, shown)) (omega (arith, long, within, shown)))
            ∙ Structure-magic crc32 config (candidate offset) s,
      )

  -- The hit that leads to a structure, and what the registry answers for it.
  pub Structure-hit :
      (offset : ℕ) (s : Structure crc32 config (candidate offset))
      → (id : ℕ) × Among (hit_of offset id) (hits_in (build extractors).patterns f size 0 size)
        × (evtx_reply (offset, id) ≡ artefact crc32 config (candidate offset) d offset s ∷ [])
  unfolding build
  Structure-hit offset s =
      let id = magic_index (candidate offset) s in
      let (at, owner) = magic_place (candidate offset) s in
      let (inside, begins) = Structure-begins offset s in
      (
        id,
        hits_in-Among (build extractors).patterns f size 0 size offset id
            (magic_of crc32 config (candidate offset) s) (omega arith) (omega arith) at begins,
        ap (owned_reply f size extractors (build extractors).pattern_owner offset) owner
            ∙ ap answered (extract-Structure crc32 config (candidate offset) d offset s),
      )

  pub evtx-IsTotal :
      (owner : ℕ) (e : Extractor)
      → get_elem? (build extractors).extractors owner ≡ some e
      → IsTotal e
  unfolding build
  evtx-IsTotal zero e at offset buf =
      let same : evtx_extractor crc32 d config ≡ e = cc in
      subst (λ e. Meets (λ cs. Unit) (e.extract offset buf)) same
        (Meets-weaken (OneOf crc32 config buf d offset) (extract crc32 d config offset buf)
          (extract-OneOf crc32 config buf d offset))
  evtx-IsTotal (suc owner) e at offset buf = absurd (cc)
