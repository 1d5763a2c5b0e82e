-- ===== src/Examples/Scanning.antt =====
-- A scan and a block layout at concrete inputs.
use latent_dfir.Common.{
  ℕ, suc, min, ◌-◌, span, ltb, if◌then◌else◌, some, map, ap, get_elem?, Outcome, ◌↔◌, panic, stuck,
  ◌>>=◌, >>=-eq-ok, ◌∙◌, ◌+◌, ◌*◌, ◌≤◌, ◌<◌, ◌≡◌, refl, arith, All, err, List, [], ◌∷◌, Bytes,
  get_or, ok, subst,
}
use latent_dfir.Scan.{
  ScanError, Engine, Hit, Match, Scanner, ScanConfig, Plan, fit_block, layout, resolve, new, scan,
  source, scan_block, scan_blocks,
}
use latent_dfir.Scan.Budget.{resolve-bounds}
use latent_dfir.Scan.Reference.{hits_in, occurrences, ids}
use latent_dfir.Scan.Blocks.{Finds, Collects}
use latent_dfir.Scan.Reported.{Reported, block_read}
use latent_dfir.Scan.Failed.{scan-blocks}
use latent_dfir.Source.{Source, SourceError, io, os, read_exact_at, read_exact_loop}
use latent_dfir.Scan.Complete.{scan-hits_in}
use latent_dfir.Carve.Extractor.{Extractor, not_this_format, windows}
use latent_dfir.Carve.Registry.{build, flat_patterns}
use latent_dfir.Pipeline.{Leads, scan-Leads}
use latent_dfir.Examples.{evidence, memory, memory-Serves}
use mathlib.Core.List.{Perm}
use mathlib.Core.List.Permᴰ

-- The first error, or all results.
unfoldable pub collect : List (Outcome ScanError (List Hit)) → Outcome ScanError (List (List Hit))
collect [] = ok []
collect (r ∷ rs) = do hits ← r; per_block ← collect rs; ok (hits ∷ per_block)

collect-ok : (per_block : List (List Hit)) → collect (map ok per_block) ≡ ok per_block
unfolding collect
collect-ok [] = refl
collect-ok (hits ∷ per_block) = rw (collect-ok per_block)

collect_whole :
    (rs : List (Outcome ScanError (List Hit))) (per_block : List (List Hit))
    → collect rs ≡ ok per_block
    → rs ≡ map ok per_block
unfolding collect
collect_whole [] per_block h = ap (map ok) {x = []} {y = per_block} (cc)
collect_whole (err x ∷ rs) per_block h = absurd (cc)
collect_whole (panic ∷ rs) per_block h = absurd (cc)
collect_whole (stuck ∷ rs) per_block h = absurd (cc)
collect_whole (ok hits ∷ rs) per_block h =
    let (more, e, both) = >>=-eq-ok (collect rs) _ h in
    let same : hits ∷ more ≡ per_block = cc in
    ap (λ l. ok hits ∷ l) (collect_whole rs more e) ∙ ap (map ok) same

later_err :
    (hits : List Hit) (later : Outcome ScanError (List (List Hit))) (e : ScanError)
    → (later >>= λ per_block. ok (hits ∷ per_block)) ≡ err e
    → later ≡ err e
later_err hits (ok x) e h = absurd (cc)
later_err hits (err x) e h = let same : x ≡ e = cc in ap err same
later_err hits panic e h = absurd (cc)
later_err hits stuck e h = absurd (cc)

collect-err :
    (rs : List (Outcome ScanError (List Hit))) (e : ScanError)
    → collect rs ≡ err e
    → (i : ℕ) × (get_elem? rs i ≡ some (err e))
unfolding collect
collect-err [] e h = absurd (cc)
collect-err (err x ∷ rs) e h = (0, cc)
collect-err (panic ∷ rs) e h = absurd (cc)
collect-err (stuck ∷ rs) e h = absurd (cc)
collect-err (ok hits ∷ rs) e h =
    let (i, at) = collect-err rs e (later_err hits (collect rs) e h) in (suc i, at)

-- A search that tries every offset.
abbrev pub naive : Engine
naive = record {
  build_automaton = λ patterns. ok (occurrences patterns 0);
  build_pool = λ n. ok tt;
  collect = collect;
}

pub naive-Collects : Collects naive
naive-Collects = record { in_order = collect-ok; whole = collect_whole; one_error = collect-err }

-- Blocks of 4 bytes, so that a scan of 10 bytes has three of them.
abbrev small_blocks : ScanConfig
small_blocks = record { block_size = 4; overlap = 2; threads = 2; memory_budget = 100 }

abbrev patterns : List Bytes
patterns = (1 ∷ 2 ∷ []) ∷ (2 ∷ []) ∷ []

abbrev text : ℕ → ℕ
text i = get_or (0 ∷ 0 ∷ 0 ∷ 1 ∷ 2 ∷ 0 ∷ 0 ∷ 0 ∷ 2 ∷ 1 ∷ []) i 0

abbrev scanner : Scanner
scanner = record { find = occurrences patterns 0; config = small_blocks }

scanner_made : new naive patterns small_blocks ≡ ok scanner
unfolding new resolve fit_block
scanner_made = refl

perm_refl : {A : Type 0} (xs : List A) → Perm xs xs
unfolding Perm
perm_refl xs = ∣ Permᴰ.refl xs ∣₁

pub naive-Finds :
    (patterns : List Bytes) (find : Bytes → List Match)
    → naive.build_automaton patterns ≡ ok find
    → Finds patterns find
naive-Finds patterns find e buf =
    let same : occurrences patterns 0 ≡ find = cc in
    subst (λ g. Perm (g buf) (occurrences patterns 0 buf)) same
      (perm_refl (occurrences patterns 0 buf))

scan-hits_in_example : scan naive scanner (memory text 10) ≡ ok (hits_in patterns text 10 0 10)
scan-hits_in_example =
    scan-hits_in naive patterns small_blocks scanner (memory text 10) text (naive-Finds patterns)
      (λ n h. refl) naive-Collects (memory-Serves text 10 (omega arith))
      (omega arith, (omega arith, tt)) (omega arith) scanner_made

-- The pattern across the first two blocks is found once.
hits_in-text :
    hits_in patterns text 10 0 10
    ≡ record { offset = 3; pattern_id = 0 }
      ∷ record { offset = 4; pattern_id = 1 }
      ∷ record { offset = 8; pattern_id = 1 }
      ∷ []
unfolding hits_in ids
hits_in-text = refl

abbrev tight : ScanConfig
tight = record { block_size = 8_000_000; overlap = 65_536; threads = 8; memory_budget = 20_000_000 }

abbrev tight_plan : Plan
tight_plan = record {
  block_size = 8_000_000;
  overlap = 65_536;
  worker_threads = 2;
  block_count = 13;
  source_size = 100_000_000;
}

tight_resolved : resolve tight 100_000_000 ≡ ok tight_plan
unfolding resolve fit_block layout
tight_resolved = refl

resolve-bounds_example :
    (2 * (8_000_000 + 65_536) ≤ 20_000_000)
    × (1 ≤ 2)
    × (2 ≤ 8)
    × (1 ≤ 8_000_000)
    × (tight_plan.block_size ≤ tight.block_size)
    × (tight_plan.overlap ≡ tight.overlap)
    × (tight_plan.source_size ≡ 100_000_000)
    × (100_000_000 ≤ 13 * 8_000_000)
    × (13 * 8_000_000 < 100_000_000 + 8_000_000)
resolve-bounds_example =
    resolve-bounds tight 100_000_000 tight_plan (omega arith) (omega arith) tight_resolved

-- An extractor of the two patterns, which rejects everything.
abbrev finder : Extractor
finder = record {
  metadata = record { name = "finder"; platform = windows; method = "carve.finder" };
  signatures = patterns;
  max_structure_size = 4;
  extract = λ offset bytes. err not_this_format;
}

finder_patterns : (build (finder ∷ [])).patterns ≡ patterns
unfolding build flat_patterns
finder_patterns = refl

scan-Leads_example :
    (hits : List Hit) × (scan naive scanner (memory text 10) ≡ ok hits)
    × All (Leads (build (finder ∷ [])) text 10) hits
unfolding build flat_patterns
scan-Leads_example =
    scan-Leads naive (finder ∷ []) small_blocks scanner (memory text 10) text (naive-Finds patterns)
      (λ n h. refl) naive-Collects (memory-Serves text 10 (omega arith))
      (omega arith, (omega arith, tt)) (omega arith) scanner_made

-- Ten bytes of which those from the fourth on cannot be read.
abbrev half_read : ℕ → ℕ → Outcome SourceError Bytes
half_read o len = if ltb 3 o then err (io "half.dd" (os 5)) else ok (span text o (min len (10 - o)))

abbrev half : Source
half = record { size = 10; identity = evidence; read_at = half_read }

abbrev half_plan : Plan
half_plan = record {
  block_size = 4;
  overlap = 2;
  worker_threads = 2;
  block_count = 3;
  source_size = 10;
}

half_resolved : resolve small_blocks 10 ≡ ok half_plan
unfolding resolve fit_block layout
half_resolved = refl

scan-blocks_example :
    ((hits : List Hit)
      → scan naive scanner half ≡ ok hits ↔ Reported scanner half half_plan 0 3 hits)
    × ((e : ScanError)
        → scan naive scanner half ≡ err e
        → (block : ℕ) × (block < 3)
          × ((x : SourceError) × (block_read scanner half half_plan block ≡ err x)
              × (e ≡ source x)))
scan-blocks_example =
    scan-blocks naive scanner half half_plan naive-Collects refl half_resolved (omega arith)

half_fails : scan naive scanner half ≡ err (source (io "half.dd" (os 5)))
unfolding scan resolve fit_block layout scan_blocks scan_block collect read_exact_at read_exact_loop
half_fails = refl
