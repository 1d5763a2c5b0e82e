-- ===== src/Carve/Registry/Replies.antt =====
-- What latent-carve/src/registry.rs answers for a list of hits, without its counters.
use latent_dfir.Common.{
  get_elem?-lt, Option, ℕ, ◌-◌, ◌≡◌, refl, ap, ap₂, ◌∙◌, sym, min, none, some, List, [], ◌∷◌, map,
  ok, span, get_elem?, Option-cases, inl, inr, >>=-eq-ok,
}
use latent_dfir.Source.{Source}
use latent_dfir.Source.Reads.{Serves}
use latent_dfir.Carve.Extractor.{Extractor, Carved}
use latent_dfir.Carve.Registry.{Registry, extract_hit}
use latent_dfir.Carve.Registry.Workers.{extract_all, hit_program, perform}
use latent_dfir.Carve.Registry.Dispatch.{IsConsistent, IsTotal, answered, extract_hit-IsConsistent}
use latent_dfir.Carve.Registry.Interleaved.{extract_all-cons, extract_hit-program}

module _ (f : ℕ → ℕ) (size : ℕ) (extractors : List Extractor) (owners : List ℕ) where
  abbrev pub extracted : ℕ → Option Extractor → List Carved
  extracted offset none = []
  extracted offset (some e) =
      answered (e.extract offset (span f offset (min e.max_structure_size (size - offset))))

  abbrev pub owned_reply : ℕ → Option ℕ → List Carved
  owned_reply offset none = []
  owned_reply offset (some owner) = extracted offset (get_elem? extractors owner)

  -- The artefacts of one hit: those that the owner of the pattern answers for the candidate.
  abbrev pub reply : ℕ × ℕ → List Carved
  reply (offset, id) = owned_reply offset (get_elem? owners id)

-- Dispatch leaves the numbering alone.
extract_hit-owners :
    (src : Source) (r r' : Registry) (offset id : ℕ) (cs : List Carved)
    → IsConsistent r
    → extract_hit r src offset id ≡ ok (cs, r')
    → r'.pattern_owner ≡ r.pattern_owner
extract_hit-owners src r r' offset id cs good run =
    let ((carved, actions), program, last) =
      >>=-eq-ok (hit_program r.extractors r.pattern_owner src offset id) _
        (sym (extract_hit-program r src offset id good) ∙ run) in
    let same : record r { counters = perform r.counters actions } ≡ r' = cc in
    sym (ap (λ (x : Registry). x.pattern_owner) same)

-- Over a source that serves its bytes, hits are all dispatched, and answered one by one.
pub extract_all-reply :
    {src : Source} {f : ℕ → ℕ} (serves : Serves src f) (r : Registry) (hits : List (ℕ × ℕ))
    → IsConsistent r
    → ((owner : ℕ) (e : Extractor) → get_elem? r.extractors owner ≡ some e → IsTotal e)
    → (r' : Registry) × (extract_all r src hits
        ≡ ok (map (reply f src.size r.extractors r.pattern_owner) hits, r'))
unfolding extract_all
extract_all-reply serves r [] good total = (r, refl)
extract_all-reply {src} {f} serves r ((offset, id) ∷ hits) good total =
    let (cs, r', run, good', same, unknown, known) =
      extract_hit-IsConsistent serves r good total offset id in
    let owners = extract_hit-owners src r r' offset id cs good run in
    let (r'', rest) =
      extract_all-reply serves r' hits good'
        (λ owner e at. total owner e (sym (ap (λ es. get_elem? es owner) same) ∙ at)) in
    let answer : cs ≡ reply f src.size r.extractors r.pattern_owner (offset, id) =
      elim (Option-cases (get_elem? r.pattern_owner id)) [
        | inl h ↦
            (unknown h).0 ∙ sym (ap (owned_reply f src.size r.extractors r.pattern_owner offset) h)
        | inr (owner, h) ↦
            let (e, at) = get_elem?-lt r.extractors owner (good.owned id owner h) in
            known owner e h at
            ∙ sym (
                ap (owned_reply f src.size r.extractors r.pattern_owner offset) h
                ∙ ap (extracted f src.size r.extractors r.pattern_owner offset) at)
      ] in
    (
      r'',
      extract_all-cons r r' r'' src offset id hits cs _ run rest
          ∙ ap (λ m. ok (m, r''))
              (ap₂ (λ c m. c ∷ m) answer
                (ap₂ (λ es os. map (reply f src.size es os) hits) same owners)),
    )
