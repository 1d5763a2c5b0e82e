-- ===== src/Examples/Carving.antt =====
-- The EVTX validators and the registry at concrete inputs.
use latent_dfir.Common.{
  ℕ, zero, suc, ◌-◌, ◌≡◌, ◌↔◌, refl, arith, min, take, get_elem?, get_or, some, none, List, [], ◌∷◌,
  ◌++◌, replicate, span, Bytes, ok, Meets, Meets-weaken, subst, add64,
}
use latent_dfir.Carve.Extractor.{Carved, Extractor}
use latent_dfir.Carve.Evtx.{
  EvtxConfig, FileHeaderMeta, RecordFrame, chunk_magic, file_magic, record_magic, validate_chunk,
  validate_file_header, validate_record, read_u32, read_u64, next_record_id, extract,
  evtx_extractor,
}
use latent_dfir.Carve.Evtx.Spec.{IsAcceptable}
use latent_dfir.Carve.Evtx.Records.{validate_record_iff}
use latent_dfir.Carve.Evtx.Chunks.{ChunkLength, validate_chunk_iff}
use latent_dfir.Carve.Evtx.Structures.{Structure, OneOf, artefact, extract-Structures}
use latent_dfir.Carve.Evtx.Extract.{Cut, extract-Meets}
use latent_dfir.Carve.Registry.{Registry, build, flat_owners, flat_patterns, extract_hit}
use latent_dfir.Carve.Registry.Dispatch.{
  IsConsistent, IsTotal, answered, build-IsConsistent, extract_hit-IsConsistent,
}
use latent_dfir.Source.{Source}
use latent_dfir.Carve.Registry.{extract_owned, index, dispatch, count_answer}
use latent_dfir.Carve.Registry.Workers.{
  seen_one, accepted_one, rejected_one, emitted_more, Action, programs, extract_all, Pool, Steps,
  IsDone, add_at, one, start, then, fetch_add,
}
use latent_dfir.Carve.Registry.Interleaved.{Steps-extract_all}
use latent_dfir.Carve.Registry.Additions.{joined}
use latent_dfir.Carve.Registry.Pending.{seens, answers, Steps-pending}
use latent_dfir.Carve.Extractor.{new_carved}
use latent_dfir.Core.Hash.{sha256, sha256_reader, hash_loop}
use latent_dfir.Source.{read_exact_at, read_exact_loop}
use latent_dfir.Examples.{memory_read, memory, memory-Serves, recorder}

-- A checksum that is always zero.
abbrev pub no_sum : Bytes → ℕ
no_sum bytes = 0

abbrev pub any_time : EvtxConfig
any_time = record { min_filetime = 0; max_filetime = 1000; max_record_size = 65_536 }

-- A record of 32 bytes with identifier 7 and time 9, and eight bytes behind it.
abbrev pub record_bytes : Bytes
record_bytes =
    record_magic
    ++ (32 ∷ 0 ∷ 0 ∷ 0 ∷ 7 ∷ replicate 7 0)
    ++ (9 ∷ replicate 7 0)
    ++ replicate 4 1
    ++ (32 ∷ 0 ∷ 0 ∷ 0 ∷ replicate 8 5)

abbrev frame : RecordFrame
frame = record { size = 32; record_id = 7 }

record_valid : validate_record record_bytes any_time ≡ ok frame
unfolding validate_record read_u32 read_u64 next_record_id
record_valid = refl

validate_record_iff_example :
    (validate_record record_bytes any_time ≡ ok frame) ↔ IsAcceptable any_time record_bytes frame
validate_record_iff_example = validate_record_iff any_time record_bytes frame

extract-Structures_example :
    Meets
      (OneOf no_sum any_time record_bytes recorder 640)
      (extract no_sum recorder any_time 640 record_bytes)
    × ((s : Structure no_sum any_time record_bytes)
        → extract no_sum recorder any_time 640 record_bytes
          ≡ ok (artefact no_sum any_time record_bytes recorder 640 s ∷ []))
extract-Structures_example = extract-Structures no_sum any_time record_bytes recorder 640

-- A chunk with no records.
abbrev chunk_bytes : Bytes
chunk_bytes = chunk_magic ++ replicate 40 0 ++ (0 ∷ 2 ∷ 0 ∷ 0 ∷ replicate 460 0)

chunk_valid : validate_chunk no_sum chunk_bytes ≡ ok 512
unfolding validate_chunk read_u32 read_u64
chunk_valid = refl

validate_chunk_iff_example :
    (validate_chunk no_sum chunk_bytes ≡ ok 512) ↔ ChunkLength no_sum chunk_bytes 512
validate_chunk_iff_example = validate_chunk_iff no_sum chunk_bytes 512

abbrev header_bytes : Bytes
header_bytes = file_magic ++ replicate 120 0

abbrev header_meta : FileHeaderMeta
header_meta = record {
  first_chunk = 0;
  last_chunk = 0;
  next_record_id = 0;
  chunk_count = 0;
  flags = 0;
}

header_valid : validate_file_header no_sum header_bytes ≡ ok header_meta
unfolding validate_file_header read_u32 read_u64
header_valid = refl

abbrev pub evtx : Extractor
evtx = evtx_extractor no_sum recorder any_time

abbrev pub registry : Registry
registry = build (evtx ∷ [])

evtx-IsTotal : IsTotal evtx
evtx-IsTotal offset buf =
    Meets-weaken (Cut no_sum recorder any_time offset buf)
      (extract no_sum recorder any_time offset buf)
      (extract-Meets no_sum recorder any_time offset buf)

only_registered : (k : ℕ) (e : Extractor) → get_elem? (evtx ∷ []) k ≡ some e → IsTotal e
only_registered zero e h = let same : evtx ≡ e = cc in subst IsTotal same evtx-IsTotal
only_registered (suc k) e h = absurd (cc)

only_registered_here :
    (k : ℕ) (e : Extractor) → get_elem? registry.extractors k ≡ some e → IsTotal e
unfolding build
only_registered_here = only_registered

abbrev pub disk : Source
disk = memory (λ i. get_or record_bytes i 0) 40

extract_hit-IsConsistent_example :
    (cs : List Carved) × (r' : Registry) × (extract_hit registry disk 0 1 ≡ ok (cs, r'))
    × IsConsistent r'
    × (r'.extractors ≡ registry.extractors)
    × (get_elem? (registry.pattern_owner) 1 ≡ none → (cs ≡ []) × (r' ≡ registry))
    × ((owner : ℕ) (e : Extractor)
        → get_elem? (registry.pattern_owner) 1 ≡ some owner
        → get_elem? (registry.extractors) owner ≡ some e
        → cs
          ≡ answered (
              e.extract 0
                (span (λ i. get_or record_bytes i 0) 0 (min e.max_structure_size (40 - 0)))))
extract_hit-IsConsistent_example =
    extract_hit-IsConsistent (memory-Serves (λ i. get_or record_bytes i 0) 40 (omega arith))
      registry (build-IsConsistent (evtx ∷ [])) only_registered_here 0 1

-- The registry after the record on the disk is carved.
abbrev carved_once : Registry
carved_once = record {
  extractors = evtx ∷ [];
  patterns = chunk_magic ∷ record_magic ∷ file_magic ∷ [];
  pattern_owner = 0 ∷ 0 ∷ 0 ∷ [];
  counters = record { seen = 1; accepted = 1; rejected = 0; emitted = 1 } ∷ [];
}

abbrev pub carved_record : Carved
carved_record = record {
  offset = 0;
  kind = "evtx.record";
  method = "carve.evtx.record";
  raw_sha256 = sha256 recorder (take 32 record_bytes);
  bytes = take 32 record_bytes;
}

record_carved : extract_hit registry disk 0 1 ≡ ok (carved_record ∷ [], carved_once)
unfolding extract_hit extract_owned index dispatch count_answer build flat_patterns flat_owners
    extract validate_record read_u32 read_u64 next_record_id new_carved sha256_reader hash_loop
    read_exact_at read_exact_loop memory_read
record_carved = refl

-- The record is accepted, the second hit has no owner, and nothing is at the third.
abbrev three_hits : List (ℕ × ℕ)
three_hits = (0, 1) ∷ (0, 9) ∷ (4, 1) ∷ []

Steps-extract_all_example :
    (carved : List (List Carved)) × (threads : List (List Action)) × (r' : Registry) × (programs
        registry.extractors registry.pattern_owner disk three_hits
      ≡ ok (carved, threads))
    × (extract_all registry disk three_hits ≡ ok (carved, r'))
    × ((q : Pool) × Steps (record { threads = threads; counters = registry.counters }) q × IsDone q)
    × ((q : Pool)
        → Steps (record { threads = threads; counters = registry.counters }) q
        → IsDone q
        → q.counters ≡ r'.counters)
Steps-extract_all_example =
    Steps-extract_all (memory-Serves (λ i. get_or record_bytes i 0) 40 (omega arith)) registry
      three_hits (build-IsConsistent (evtx ∷ [])) only_registered_here

three_programs :
    programs registry.extractors registry.pattern_owner disk three_hits
    ≡ ok (
      (carved_record ∷ []) ∷ [] ∷ [] ∷ [],
      ((0, seen_one) ∷ (0, accepted_one) ∷ (0, emitted_more 1) ∷ [])
          ∷ []
          ∷ ((0, seen_one) ∷ (0, rejected_one) ∷ [])
          ∷ [],
    )
unfolding programs index build flat_patterns flat_owners extract validate_record validate_chunk
    read_u32 read_u64 next_record_id new_carved sha256_reader hash_loop read_exact_at
    read_exact_loop memory_read
three_programs = refl

abbrev record_thread : List Action
record_thread = (0, seen_one) ∷ (0, accepted_one) ∷ (0, emitted_more 1) ∷ []

abbrev three_threads : List (List Action)
three_threads = record_thread ∷ [] ∷ ((0, seen_one) ∷ (0, rejected_one) ∷ []) ∷ []

-- The last thread has counted its candidate as seen, the others have done nothing.
abbrev one_step_on : Pool
one_step_on = record {
  threads = record_thread ∷ [] ∷ ((0, rejected_one) ∷ []) ∷ [];
  counters = add_at registry.counters 0 seen_one;
}

one_step_counters :
    get_elem? one_step_on.counters 0
    ≡ some (record { seen = 1; accepted = 0; rejected = 0; emitted = 0 })
unfolding build add_at fetch_add
one_step_counters = refl

Steps-pending_example :
    add64 (add64 0 0) (answers 0 (joined one_step_on.threads))
    ≡ add64 1 (seens 0 (joined one_step_on.threads))
Steps-pending_example =
    Steps-pending (memory-Serves (λ i. get_or record_bytes i 0) 40 (omega arith)) registry
      three_hits ((carved_record ∷ []) ∷ [] ∷ [] ∷ []) three_threads one_step_on 0
      (record { seen = 1; accepted = 0; rejected = 0; emitted = 0 })
      (build-IsConsistent (evtx ∷ [])) only_registered_here three_programs
      (then start
        (one (record_thread ∷ [] ∷ []) [] 0 seen_one ((0, rejected_one) ∷ []) registry.counters))
      one_step_counters
