-- ===== src/Scan.antt =====
-- latent-scan/src/engine.rs and error.rs: the block layout and the scanner. The multi-pattern
-- automaton (aho-corasick) and the thread pool (rayon) are parameters.
pub mod Budget
pub mod Sort
pub mod Reference
pub mod Owned
pub mod Blocks
pub mod Complete
pub mod Reported
pub mod Failed
pub mod Occurrences
use latent_dfir.Common.{
  ℕ, zero, suc, ◌+◌, ◌-◌, ◌*◌, ◌/◌, ◌%◌, min, max, Bool, true, false, ◌&&◌, ◌||◌, String, Option,
  none, some, List, [], ◌∷◌, ◌++◌, Bytes, Outcome, ok, err, ◌>>=◌, ◌>>◌, map_err, add64, mul64,
  sub64, ltb, leb, ◌==◌, if◌then◌else◌,
}
use latent_dfir.Source.{Source, SourceError, read_exact_at}

abbrev pub evtx_chunk : ℕ
evtx_chunk = 64 * 1024

abbrev pub default_block_size : ℕ
default_block_size = 8 * 1024 * 1024

abbrev pub default_memory_budget : ℕ
default_memory_budget = 4 * 1024 * 1024 * 1024

abbrev pub min_block_size : ℕ
min_block_size = 4 * 1024

pub record Hit : Type 0 where
  pub offset : ℕ
  pub pattern_id : ℕ

-- The derived order: by `offset`, then by `pattern_id`.
unfoldable pub hit_leb : Hit → Hit → Bool
hit_leb h k = ltb h.offset k.offset || (h.offset == k.offset) && leb h.pattern_id k.pattern_id

pub record ScanConfig : Type 0 where
  pub block_size : ℕ
  pub overlap : ℕ
  pub threads : ℕ
  pub memory_budget : ℕ

-- `available_parallelism` is given; it may be unknown.
unfoldable pub default_config : Option ℕ → ScanConfig
default_config parallelism = record {
  block_size = default_block_size;
  overlap = evtx_chunk;
  threads = elim parallelism [ none ↦ 1 | some n ↦ n ];
  memory_budget = default_memory_budget;
}

-- The text of an invalid configuration. What `format!` puts into a text is kept as an argument.
pub data Fault : Type 0 where
  overlap_zero block_size_zero threads_zero : Fault
  budget_below : (memory_budget smallest_buffer : ℕ) → Fault
  pattern_set : String → Fault
  thread_pool : String → Fault

pub data ScanError : Type 0 where
  invalid_config : Fault → ScanError
  no_patterns : ScanError
  source : SourceError → ScanError

pub record Plan : Type 0 where
  pub block_size : ℕ
  pub overlap : ℕ
  pub worker_threads : ℕ
  pub block_count : ℕ
  pub source_size : ℕ

-- `a.div_ceil(b)`
abbrev pub div_ceil : ℕ → ℕ → ℕ
div_ceil a b = if a % b == 0 then a / b else a / b + 1

-- The block size: the one asked for, or what the budget leaves beside the overlap.
unfoldable pub fit_block : ScanConfig → Outcome ScanError ℕ
fit_block c =
    let smallest_buffer = add64 min_block_size c.overlap in
    if leb (add64 c.block_size c.overlap) c.memory_budget
    then ok c.block_size
    else if ltb c.memory_budget smallest_buffer
    then err (invalid_config (budget_below c.memory_budget smallest_buffer))
    else ok (sub64 c.memory_budget c.overlap)

-- The end of `Plan::resolve`: the layout with a given block size.
unfoldable pub layout : ScanConfig → ℕ → ℕ → Plan
layout c source_size block_size =
    let buffer = add64 block_size c.overlap in
    let by_budget = max (c.memory_budget / buffer) 1 in
    record {
      block_size = block_size;
      overlap = c.overlap;
      worker_threads = max (min c.threads by_budget) 1;
      block_count = div_ceil source_size block_size;
      source_size = source_size;
    }

-- `Plan::resolve`
unfoldable pub resolve : ScanConfig → ℕ → Outcome ScanError Plan
resolve c source_size =
    if c.overlap == 0
    then err (invalid_config overlap_zero)
    else if c.block_size == 0
    then err (invalid_config block_size_zero)
    else if c.threads == 0
    then err (invalid_config threads_zero)
    else (do block_size ← fit_block c; ok (layout c source_size block_size))

-- A match that the automaton reports.
pub record Match : Type 0 where
  pub start : ℕ
  pub pattern : ℕ

-- The crates that the scanner calls: `AhoCorasick::builder().build(patterns)`, whose result stands
-- for its `find_overlapping_iter`, `rayon::ThreadPoolBuilder::build`, and `collect` of a parallel
-- map into a `Result`, from what the items give. An error of the first two is its message.
pub record Engine : Type 0 where
  pub build_automaton : List Bytes → Outcome String (Bytes → List Match)
  pub build_pool : ℕ → Outcome String (Unit {0})
  pub collect : List (Outcome ScanError (List Hit)) → Outcome ScanError (List (List Hit))

pub record Scanner : Type 0 where
  pub find : Bytes → List Match
  pub config : ScanConfig

abbrev pub is_empty {ℓ} : {A : Type ℓ} → List A → Bool
is_empty [] = true
is_empty (x ∷ xs) = false

-- `Scanner::new`
unfoldable pub new : Engine → List Bytes → ScanConfig → Outcome ScanError Scanner
new engine patterns config = if is_empty patterns then err no_patterns else (do
  layout ← resolve config 0
  find ← map_err (λ m. invalid_config (pattern_set m)) (engine.build_automaton patterns)
  ok (record { find = find; config = config }))

-- The loop over the matches: those that start in the owned region become hits.
unfoldable pub keep_owned : ℕ → ℕ → List Match → List Hit
keep_owned start owned_len [] = []
keep_owned start owned_len (m ∷ ms) =
    let rest = keep_owned start owned_len ms in
    if ltb m.start owned_len
    then record { offset = add64 start m.start; pattern_id = m.pattern } ∷ rest
    else rest

-- `sort_unstable`, by the order of hits. Hits that compare equal are equal, so every sort gives this
-- list.
unfoldable pub insert : Hit → List Hit → List Hit
unfolding hit_leb
insert h [] = h ∷ []
insert h (k ∷ ks) = let rest = insert h ks in if hit_leb h k then h ∷ k ∷ ks else k ∷ rest

unfoldable pub sort : List Hit → List Hit
unfolding insert
sort [] = []
sort (h ∷ hs) = insert h (sort hs)

unfoldable pub scan_block : Scanner → Source → Plan → ℕ → Outcome ScanError (List Hit)
scan_block sc src plan block = do
  let start = mul64 block plan.block_size
  let owned_end = min (add64 start plan.block_size) plan.source_size
  let read_end = min (add64 owned_end plan.overlap) plan.source_size
  buf ← map_err source (read_exact_at src start (sub64 read_end start))
  ok (sort (keep_owned start (sub64 owned_end start) (sc.find buf)))

-- What `n` blocks from `block` on give.
unfoldable pub scan_blocks : Scanner → Source → Plan → ℕ → ℕ → List (Outcome ScanError (List Hit))
scan_blocks sc src plan block zero = []
scan_blocks sc src plan block (suc n) =
    scan_block sc src plan block ∷ scan_blocks sc src plan (suc block) n

-- The loop that appends the hits of the blocks.
unfoldable pub append_all : List (List Hit) → List Hit
append_all [] = []
append_all (hits ∷ per_block) = hits ++ append_all per_block

-- `Scanner::scan`
unfoldable pub scan : Engine → Scanner → Source → Outcome ScanError (List Hit)
scan engine sc src = do
  plan ← resolve sc.config src.size
  let blocks = do
    map_err (λ m. invalid_config (thread_pool m)) (engine.build_pool plan.worker_threads)
    per_block ← engine.collect (scan_blocks sc src plan 0 plan.block_count)
    ok (append_all per_block)
  if plan.block_count == 0 then ok [] else blocks

-- `Scanner::scan_arc`: the source behind an `Arc` is the source.
abbrev pub scan_arc : Engine → Scanner → Source → Outcome ScanError (List Hit)
scan_arc engine sc src = scan engine sc src
