-- ===== src/Pipeline/Recovery.antt =====
-- The scan of latent-scan/src/engine.rs, the registry of latent-carve/src/registry.rs and the
-- extractor of latent-carve/src/evtx together: a source is scanned for the patterns of the
-- registry, and each hit is dispatched.
use latent_dfir.Common.{
  ℕ, ◌+◌, ◌≤◌, ◌<◌, ◌≡◌, sym, ap, ◌∙◌, ◌↔◌, arith, some, List, [], ◌∷◌, map, All, Bytes, ok, length,
  get_elem?, u64_mod, Among, Among-map, map-get_elem?, subst,
}
use latent_dfir.Core.Hash.{Digest}
use latent_dfir.Source.{Source}
use latent_dfir.Source.Reads.{Serves}
use latent_dfir.Scan.{Match, Hit, ScanConfig, Engine, Scanner, new, scan, min_block_size}
use latent_dfir.Scan.Reference.{hit_of, hits_in}
use latent_dfir.Scan.Blocks.{Finds, Collects}
use latent_dfir.Scan.Complete.{scan-hits_in}
use latent_dfir.Carve.Extractor.{Carved}
use latent_dfir.Carve.Registry.{Registry, build}
use latent_dfir.Carve.Registry.Dispatch.{build-IsConsistent}
use latent_dfir.Carve.Registry.Workers.{extract_all}
use latent_dfir.Carve.Registry.Replies.{extract_all-reply}
use latent_dfir.Carve.Evtx.{EvtxConfig, evtx_extractor}
use latent_dfir.Pipeline.Standing.{
  place, Stands, evtx_reply, reply-Stands, Structure-hit, evtx-IsTotal,
}

evtx_wide :
    (crc32 : Bytes → ℕ) (d : Digest) (evtx : EvtxConfig) (overlap : ℕ)
    → 7 ≤ overlap
    → All (λ p. length p ≤ overlap + 1) (build (evtx_extractor crc32 d evtx ∷ [])).patterns
unfolding build
evtx_wide crc32 d evtx overlap h = omega arith

-- The artefact is among those of a hit.
abbrev pub Carries : List (List Carved) → Carved → Type 0
Carries carved c = (cs : List Carved) × Among cs carved × Among c cs

-- The replies to the hits of a scan carry the artefacts of all that stands in the source, and no
-- others.
Carries-iff_Stands :
    (crc32 : Bytes → ℕ) (d : Digest) (evtx : EvtxConfig) (f : ℕ → ℕ) (size : ℕ) (c : Carved)
    → let es = evtx_extractor crc32 d evtx ∷ [] in
      Carries
        (map
          (evtx_reply crc32 d evtx f size)
          (map place (hits_in (build es).patterns f size 0 size)))
        c
      ↔ Stands crc32 d evtx f size c
Carries-iff_Stands crc32 d evtx f size c =
    let es = evtx_extractor crc32 d evtx ∷ [] in
    let hits = hits_in (build es).patterns f size 0 size in
    let answer = evtx_reply crc32 d evtx f size in
    (
      λ (cs, (i, at), among).
          let ((offset, id), _, same) = map-get_elem? answer (map place hits) i cs at in
          reply-Stands crc32 d evtx f size offset id c (subst (Among c) same among),
      λ (offset, s, e).
          let (id, found, answers) = Structure-hit crc32 d evtx f size offset s in
          (
            answer (offset, id),
            Among-map answer (map place hits) (offset, id)
                (Among-map place hits (hit_of offset id) found),
            (0, ap (λ cs. get_elem? cs 0) answers ∙ ap some (sym e)),
          ),
    )

-- With an automaton that reports every occurrence, a pool that starts and collects in order, a
-- source that serves its bytes, an overlap of at least seven bytes and sizes that do not overflow:
-- a scan by an accepted scanner for the patterns of a registry with the EVTX extractor alone, and
-- the dispatch of its hits one after the other, succeed, and an artefact is among those of the hits
-- exactly if it is that of a chunk, a file header or a record which stands somewhere in the source,
-- within the 64 KiB from its offset on: cut out with its offset and its digest.
pub run-recovers :
    (engine : Engine) (crc32 : Bytes → ℕ) (d : Digest) (evtx : EvtxConfig) (config : ScanConfig)
    (sc : Scanner) (src : Source) (f : ℕ → ℕ)
    → ((find : Bytes → List Match)
        → engine.build_automaton (build (evtx_extractor crc32 d evtx ∷ [])).patterns ≡ ok find
        → Finds (build (evtx_extractor crc32 d evtx ∷ [])).patterns find)
    → ((n : ℕ) → 0 < n → engine.build_pool n ≡ ok tt)
    → Collects engine
    → Serves src f
    → 7 ≤ config.overlap
    → src.size + config.block_size + config.overlap + min_block_size < u64_mod
    → new engine (build (evtx_extractor crc32 d evtx ∷ [])).patterns config ≡ ok sc
    → (hits : List Hit) × (carved : List (List Carved)) × (r : Registry) × (scan engine sc src
        ≡ ok hits)
      × (extract_all (build (evtx_extractor crc32 d evtx ∷ [])) src (map place hits)
          ≡ ok (carved, r))
      × ((c : Carved) → Carries carved c ↔ Stands crc32 d evtx f src.size c)
run-recovers engine crc32 d evtx config sc src f finds pool collects serves wide room made =
    let es = evtx_extractor crc32 d evtx ∷ [] in
    let hits = hits_in (build es).patterns f src.size 0 src.size in
    let (r, run) =
      extract_all-reply serves (build es) (map place hits) (build-IsConsistent es)
        (evtx-IsTotal crc32 d evtx f src.size) in
    (
      hits,
      map (evtx_reply crc32 d evtx f src.size) (map place hits),
      r,
      scan-hits_in engine (build es).patterns config sc src f finds pool collects serves
          (evtx_wide crc32 d evtx config.overlap wide) room made,
      run,
      Carries-iff_Stands crc32 d evtx f src.size,
    )
