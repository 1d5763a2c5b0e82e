-- ===== src/Carve/Registry.antt =====
-- latent-carve/src/registry.rs: the registry of extractors, dispatch of hits and diagnostics. The
-- atomic counters are a state that `extract_hit` passes on.
pub mod Owners
pub mod Dispatch
pub mod Diagnostics
pub mod Workers
pub mod Additions
pub mod Finishing
pub mod Interleaved
pub mod Pending
pub mod Replies
use latent_dfir.Common.{
  ℕ, zero, suc, ◌+◌, ◌-◌, min, max, Bool, true, false, Option, none, some, List, [], ◌∷◌, ◌++◌, map,
  Bytes, Outcome, ok, err, panic, stuck, ◌>>=◌, String, add64, length, get_elem?, set, ◌==◌,
}
use latent_dfir.Source.{Source, SourceError, read_exact_at}
use latent_dfir.Carve.Extractor.{Extractor, Carved, Rejection}

pub record Counters : Type 0 where
  pub seen : ℕ
  pub accepted : ℕ
  pub rejected : ℕ
  pub emitted : ℕ

abbrev pub zero_counters : Counters
zero_counters = record { seen = 0; accepted = 0; rejected = 0; emitted = 0 }

pub record ExtractorStats : Type 0 where
  pub name : String
  pub seen : ℕ
  pub accepted : ℕ
  pub rejected : ℕ
  pub emitted : ℕ

pub record Registry : Type 0 where
  pub extractors : List Extractor
  pub patterns : List Bytes
  pub pattern_owner : List ℕ
  pub counters : List Counters

-- The two loops of `build`: each signature is pushed with the index of its extractor.
unfoldable pub flat_patterns : List Extractor → List Bytes
flat_patterns [] = []
flat_patterns (e ∷ es) = e.signatures ++ flat_patterns es

unfoldable pub flat_owners : ℕ → List Extractor → List ℕ
flat_owners index [] = []
flat_owners index (e ∷ es) = map (λ s. index) e.signatures ++ flat_owners (suc index) es

-- `Registry::builder`, also the default of a builder.
abbrev pub builder : List Extractor
builder = []

-- `RegistryBuilder::register_boxed`, and `register`, which boxes first.
unfoldable pub register : List Extractor → Extractor → List Extractor
register extractors extractor = extractors ++ (extractor ∷ [])

-- `RegistryBuilder::build`
unfoldable pub build : List Extractor → Registry
unfolding flat_patterns flat_owners
build extractors = record {
  extractors = extractors;
  patterns = flat_patterns extractors;
  pattern_owner = flat_owners 0 extractors;
  counters = map (λ e. zero_counters) extractors;
}

-- `Registry::max_structure_size`
unfoldable pub max_structure_size : List Extractor → ℕ
max_structure_size [] = 0
max_structure_size (e ∷ es) = max e.max_structure_size (max_structure_size es)

-- `Registry::signatures`, `len` and `is_empty`
abbrev pub signatures : Registry → List Bytes
signatures r = r.patterns

unfoldable pub len : Registry → ℕ
len r = length r.extractors

unfoldable pub is_empty : Registry → Bool
is_empty r = length r.extractors == 0

-- `xs[i]`
unfoldable pub index {ℓ} : {E : Type 0} {A : Type ℓ} → List A → ℕ → Outcome E A
index xs i = elim (get_elem? xs i) [ some x ↦ ok x | none ↦ panic ]

abbrev pub count_rejected : Counters → Counters
count_rejected c = record c { rejected = add64 c.rejected 1 }

-- The `match` on the extractor's answer.
unfoldable pub count_answer :
    Counters → Outcome Rejection (List Carved) → Outcome SourceError (List Carved × Counters)
count_answer c (ok carved) =
    ok (
      carved,
      record c { accepted = add64 c.accepted 1; emitted = add64 c.emitted (length carved) },
    )
count_answer c (err rejection) = ok ([], count_rejected c)
count_answer c panic = panic
count_answer c stuck = stuck

-- From the read of the candidate's window on.
unfoldable pub dispatch :
    Counters
    → Outcome SourceError Bytes
    → (Bytes → Outcome Rejection (List Carved))
    → Outcome SourceError (List Carved × Counters)
unfolding count_answer
dispatch c (ok buf) extract = count_answer c (extract buf)
dispatch c (err e) extract = ok ([], count_rejected c)
dispatch c panic extract = panic
dispatch c stuck extract = stuck

-- `Registry::extract_hit` for a hit whose extractor is known.
unfoldable pub extract_owned :
    Registry → Source → ℕ → ℕ → Outcome SourceError (List Carved × Registry)
unfolding dispatch
extract_owned r src offset owner = do
  extractor ← index (r.extractors) owner
  counters ← index (r.counters) owner
  let seen = record counters { seen = add64 (counters.seen) 1 }
  let want = min (extractor.max_structure_size) (src.size - offset)
  (carved, counters') ← dispatch seen (read_exact_at src offset want) (extractor.extract offset)
  ok (carved, record r { counters = set (r.counters) owner counters' })

-- `Registry::extract_hit`
unfoldable pub extract_hit :
    Registry → Source → ℕ → ℕ → Outcome SourceError (List Carved × Registry)
extract_hit r src offset pattern_id = elim (get_elem? r.pattern_owner pattern_id) [
  | none ↦ ok ([], r)
  | some owner ↦ extract_owned r src offset owner
]

-- `Registry::diagnostics`, for extractors and counters zipped.
unfoldable pub stats : List Extractor → List Counters → List ExtractorStats
stats [] cs = []
stats (e ∷ es) [] = []
stats (e ∷ es) (c ∷ cs) =
    record {
      name = e.metadata.name;
      seen = c.seen;
      accepted = c.accepted;
      rejected = c.rejected;
      emitted = c.emitted;
    }
    ∷ stats es cs

unfoldable pub diagnostics : Registry → List ExtractorStats
unfolding stats
diagnostics r = stats r.extractors r.counters

-- `Diagnostics::total_seen`, `total_emitted` and `total_rejected`: `sum` of a field, which wraps.
unfoldable pub total : (ExtractorStats → ℕ) → List ExtractorStats → ℕ
total field [] = 0
total field (s ∷ ss) = add64 (field s) (total field ss)
