-- ===== src/Pipeline.antt =====
-- The scan engine and the registry together: the patterns of latent-carve/src/registry.rs
-- (Registry::patterns) are what latent-scan/src/engine.rs scans for, and its pattern ids are what
-- Registry::extract_hit is asked for.
pub mod Standing
pub mod Recovery
use latent_dfir.Common.{
  ℕ, zero, suc, ◌+◌, ◌-◌, ◌≤◌, ◌<◌, ◌≡◌, refl, sym, ap, ◌∙◌, arith, true, some, List, [], ◌∷◌, map,
  All, All-append, Bytes, ok, span, starts_with, length, get_elem?, get_elem?-lt, lt-get_elem?,
  All-map, All-weaken, u64_mod, both_ways,
}
use latent_dfir.Source.{Source}
use latent_dfir.Source.Reads.{Serves}
use latent_dfir.Scan.{Match, Hit, ScanConfig, Engine, Scanner, new, scan, min_block_size}
use latent_dfir.Scan.Reference.{ids, hit_of, hits_in}
use latent_dfir.Scan.Blocks.{Finds, Collects}
use latent_dfir.Scan.Complete.{scan-hits_in}
use latent_dfir.Carve.Extractor.{Extractor}
use latent_dfir.Carve.Registry.{Registry, build}
use latent_dfir.Carve.Registry.Owners.{IsNumbering, build-IsNumbering}

-- The index is that of a pattern, counted from `i`, that the text begins with.
abbrev Names : ℕ → List Bytes → Bytes → ℕ → Type 0
Names i ps text k =
    (j : ℕ) × (s : Bytes) × (k ≡ i + j) × (get_elem? ps j ≡ some s) × (starts_with text s ≡ true)

ids-Names : (i : ℕ) (ps : List Bytes) (text : Bytes) → All (Names i ps text) (ids i ps text)
unfolding ids
ids-Names i [] text = tt
ids-Names i (p ∷ ps) text =
    let rest : All (Names i (p ∷ ps) text) (ids (suc i) ps text) =
      All-weaken (Names (suc i) ps text) (Names i (p ∷ ps) text) (ids (suc i) ps text)
        (λ k (j, s, e, at, begins). (suc j, s, e ∙ omega arith, at, begins))
        (ids-Names (suc i) ps text) in
    both_ways (All (Names i (p ∷ ps) text)) (starts_with text p) (i ∷ ids (suc i) ps text) _
      (λ t. ((0, p, omega arith, refl, t), rest)) λ t. rest

-- The pattern of the hit is there, and occurs at its offset.
abbrev Occurs : List Bytes → (ℕ → ℕ) → ℕ → Hit → Type 0
Occurs patterns f size h =
    (s : Bytes) × (get_elem? patterns h.pattern_id ≡ some s)
    × (starts_with (span f h.offset (size - h.offset)) s ≡ true)

hits_in-Occurs :
    (patterns : List Bytes) (f : ℕ → ℕ) (size o n : ℕ)
    → All (Occurs patterns f size) (hits_in patterns f size o n)
unfolding hits_in
hits_in-Occurs patterns f size o zero = tt
hits_in-Occurs patterns f size o (suc n) =
    let text = span f o (size - o) in
    All-append (Occurs patterns f size) (map (hit_of o) (ids 0 patterns text)) _
      (All-map (Names 0 patterns text) (Occurs patterns f size) (hit_of o) (ids 0 patterns text)
        (λ k (j, s, e, at, begins). (s, ap (get_elem? patterns) (e ∙ omega arith) ∙ at, begins))
        (ids-Names 0 patterns text))
      (hits_in-Occurs patterns f size (suc o) n)

-- The hit leads to an extractor, one of whose signatures occurs at the offset of the hit.
abbrev pub Leads : Registry → (ℕ → ℕ) → ℕ → Hit → Type 0
Leads r f size h =
    (owner : ℕ) × (e : Extractor) × (j : ℕ) × (s : Bytes) × (get_elem? r.pattern_owner h.pattern_id
      ≡ some owner)
    × (get_elem? r.extractors owner ≡ some e)
    × (get_elem? e.signatures j ≡ some s)
    × (starts_with (span f h.offset (size - h.offset)) s ≡ true)

Occurs-Leads :
    (r : Registry) (f : ℕ → ℕ) (size : ℕ) (h : Hit)
    → IsNumbering r
    → Occurs r.patterns f size h
    → Leads r f size h
Occurs-Leads r f size h n (s, at, begins) =
    let small = lt-get_elem? r.patterns h.pattern_id s at in
    let (owner, owned) =
      get_elem?-lt r.pattern_owner h.pattern_id (omega (arith, small, n.aligned)) in
    let (e, s', j, here, there, mine) = n.owned h.pattern_id owner owned in
    let same : s ≡ s' = cc in (owner, e, j, s, owned, here, mine ∙ ap some (sym same), begins)

-- With an automaton that reports every occurrence, a pool that starts and collects in order, a
-- source that serves its bytes, patterns of at most `overlap` + 1 bytes and sizes that do not
-- overflow, a scan by an accepted scanner for the patterns of a registry returns hits each of which
-- the registry leads to an extractor with a signature that occurs at the offset of the hit: no hit
-- of the scan has an unknown pattern id.
pub scan-Leads :
    (engine : Engine) (es : List Extractor) (config : ScanConfig) (sc : Scanner) (src : Source)
    (f : ℕ → ℕ)
    → ((find : Bytes → List Match)
        → engine.build_automaton (build es).patterns ≡ ok find
        → Finds (build es).patterns find)
    → ((n : ℕ) → 0 < n → engine.build_pool n ≡ ok tt)
    → Collects engine
    → Serves src f
    → All (λ p. length p ≤ config.overlap + 1) (build es).patterns
    → src.size + config.block_size + config.overlap + min_block_size < u64_mod
    → new engine (build es).patterns config ≡ ok sc
    → (hits : List Hit) × (scan engine sc src ≡ ok hits) × All (Leads (build es) f src.size) hits
scan-Leads engine es config sc src f finds pool collects serves wide room made =
    let r = build es in
    let hits = hits_in r.patterns f src.size 0 src.size in
    (
      hits,
      scan-hits_in engine r.patterns config sc src f finds pool collects serves wide room made,
      All-weaken (Occurs r.patterns f src.size) (Leads r f src.size) hits
          (λ h. Occurs-Leads r f src.size h (build-IsNumbering es))
          (hits_in-Occurs r.patterns f src.size 0 src.size),
    )
