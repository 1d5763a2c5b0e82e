-- ===== src/Examples/Logs.antt =====
-- Collections and the audit log at concrete inputs.
use latent_dfir.Common.{
  ℕ, Option, ◌≡◌, refl, true, false, Bool, none, some, List, [], ◌∷◌, ◌++◌, Bytes, length, ok,
  Meets, ◌==◌, ◌+◌, ◌↔◌, leb, if◌then◌else◌,
}
use latent_dfir.Source.{os}
use latent_dfir.Collection.{
  FileNames, directory, file, special, Entries, no_more, failed, found, walk_root, walk, visit,
  visit_all, add_file, skip, readable, sort_entries, insert_entry, name_leb, kind_depth, depth,
}
use latent_dfir.Collection.Walk.{count, tally, kept, skipped, walk_root-tally}
use latent_dfir.Audit.{LogFile, create, close, Event, quiet}
use latent_dfir.Audit.Closing.{IsFile, IsDigestOf, lines_text, write_lines, close-Meets}
use latent_dfir.Audit.Failed.{Fails, later, text_fails, IsWriteFailed, close-IsWriteFailed}
use latent_dfir.Audit.Threads.{free, Shared, Steps, IsDone, Merge}
use latent_dfir.Audit.Threads.Closed.{Steps-close}
use latent_dfir.Text.{chars}
use latent_dfir.Integrity.{source_open, source_hash, source_close, at_open}
use latent_dfir.Audit.Lines.{Texts, Emitted, of_session, of_phase}
use latent_dfir.Audit.Entries.{IsJson, run_started, run_ended}
use latent_dfir.Audit.Trail.{IsTrail, said, audited, audited-Meets}
use latent_dfir.Examples.Codec.{text_of, value_of_text, value_of_text-text_of, text_of-Clear}
use latent_dfir.Core.Hash.{slice_reader, slice_reader-Delivers}
use latent_dfir.Examples.{recorder}

-- "b" with one byte, a directory "a" with the empty file "c", an entry that cannot be read, and a
-- device.
abbrev tree : Entries
tree = found (b'b' ∷ []) (file (some 1)) (
    found (b'a' ∷ []) (directory (found (b'c' ∷ []) (file (some 0)) no_more))
      (failed (found (b'd' ∷ []) special no_more)))

abbrev has_two_names : FileNames → Bool
has_two_names path = length path == 2

walk_root-tally_example :
    (count has_two_names (walk_root "case" (directory tree)).files
      ≡ tally has_two_names kept [] tree)
    × (count has_two_names (walk_root "case" (directory tree)).skipped
        ≡ tally has_two_names skipped [] tree)
walk_root-tally_example = walk_root-tally has_two_names "case" tree

tree_skipped :
    (walk_root "case" (directory tree)).skipped
    ≡ ((b'a' ∷ []) ∷ (b'c' ∷ []) ∷ []) ∷ ((b'd' ∷ []) ∷ []) ∷ []
unfolding walk_root walk visit visit_all add_file skip readable sort_entries insert_entry name_leb
    kind_depth depth
tree_skipped = refl

-- A file in memory, with nothing buffered.
abbrev pub memory_log : LogFile
memory_log = record {
  State = Bytes;
  write_all = λ s b. (s ++ b, none);
  flush = λ s. (s, none);
  metadata_len = λ s. ok (length s);
  Cursor = Bytes;
  start = λ s. s;
  reader = slice_reader;
}

abbrev pub memory_file : IsFile memory_log
memory_file = record {
  contents = λ s. s;
  on_disk = λ s. s;
  rest_at = λ s rest. s ≡ rest;
  written = λ s b h. refl;
  synced = λ s h. refl;
  sized = λ s. refl;
  started = λ s. refl;
  delivers = slice_reader-Delivers;
}

close-Meets_example :
    Meets
      (IsDigestOf memory_log memory_file recorder (
        ((b'x' ∷ []) ++ lines_text ((b'a' ∷ []) ∷ (b'b' ∷ []) ∷ [])) ++ ((b'z' ∷ []) ++ (10 ∷ []))))
      (close memory_log recorder "audit.jsonl"
        (b'z' ∷ [])
        (write_lines memory_log (create memory_log (b'x' ∷ [])) ((b'a' ∷ []) ∷ (b'b' ∷ []) ∷ [])))
close-Meets_example =
    close-Meets memory_log memory_file recorder "audit.jsonl" (b'x' ∷ [])
      ((b'a' ∷ []) ∷ (b'b' ∷ []) ∷ []) (b'z' ∷ [])

-- A file that takes two bytes and no more.
abbrev full_log : LogFile
full_log = record memory_log {
  write_all = λ s b. if leb (length s + length b) 2 then (s ++ b, none) else (s, some (os 28));
}

full_log-Fails : Fails full_log [] ((b'a' ∷ []) ∷ (b'z' ∷ []) ∷ [])
full_log-Fails = later refl refl (text_fails (os 28) refl)

-- The line "a" is written, and the last one is not.
close-IsWriteFailed_example :
    IsWriteFailed full_log (
      close full_log recorder "audit.jsonl"
        (b'z' ∷ [])
        (write_lines full_log (create full_log []) ((b'a' ∷ []) ∷ [])))
    ↔ Fails full_log [] ((b'a' ∷ []) ∷ (b'z' ∷ []) ∷ [])
close-IsWriteFailed_example =
    close-IsWriteFailed full_log recorder "audit.jsonl" [] ((b'a' ∷ []) ∷ []) (b'z' ∷ [])

abbrev events : List Event
events =
    record { is_audit = true; severity = 3; text = b'a' ∷ [] }
    ∷ record { is_audit = false; severity = 5; text = b'b' ∷ [] }
    ∷ []

abbrev pub texts : Texts
texts = record { to_string = λ v. some (text_of v); display = chars }

abbrev pub texts-IsJson : IsJson texts
texts-IsJson = record {
  from_str = value_of_text;
  text = text_of;
  writes = λ v. refl;
  reads = value_of_text-text_of;
  one_line = text_of-Clear;
}

abbrev pub at_noon : Option (List ℕ)
at_noon = some (chars "2024-03-01T12:30:00Z")

abbrev run_events : List (Option (List ℕ) × Emitted)
run_events =
    (at_noon, of_session (source_open "img.dd" 1048576))
    ∷ (at_noon, of_session (source_hash at_open "sha256" (b'd' ∷ [])))
    ∷ (none, of_phase (chars "scan"))
    ∷ (at_noon, of_session (source_close "img.dd"))
    ∷ []

audited-Meets_example :
    Meets
      (IsTrail texts texts-IsJson memory_log memory_file recorder [] (
        (at_noon, run_started (chars "0.1.0") (chars "latent scan img.dd"))
        ∷ (said texts texts-IsJson run_events ++ (at_noon, run_ended) ∷ [])))
      (audited texts memory_log recorder quiet "out" "out/audit.jsonl" [] at_noon at_noon
        (chars "0.1.0")
        (chars "latent scan img.dd")
        run_events)
audited-Meets_example =
    audited-Meets texts texts-IsJson memory_log memory_file recorder quiet "out" "out/audit.jsonl"
      [] at_noon at_noon (chars "0.1.0") (chars "latent scan img.dd") run_events

-- Two threads, one with two lines.
abbrev two_threads : List (List Bytes)
two_threads = ((b'a' ∷ []) ∷ (b'b' ∷ []) ∷ []) ∷ ((b'c' ∷ []) ∷ []) ∷ []

abbrev before : Shared memory_log
before = record { threads = two_threads; writer = create memory_log (b'x' ∷ []); lock = free }

Steps-close_example :
    ((s : Shared memory_log) × Steps memory_log before s × IsDone memory_log s)
    × ((s : Shared memory_log)
        → Steps memory_log before s
        → IsDone memory_log s
        → (order : List Bytes) × Merge two_threads order
          × Meets
              (IsDigestOf memory_log memory_file recorder
                (((b'x' ∷ []) ++ lines_text order) ++ ((b'z' ∷ []) ++ (10 ∷ []))))
              (close memory_log recorder "audit.jsonl" (b'z' ∷ []) s.writer))
Steps-close_example =
    Steps-close memory_log memory_file recorder "audit.jsonl" (b'x' ∷ []) two_threads (b'z' ∷ [])
