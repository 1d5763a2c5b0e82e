-- ===== src/Audit.antt =====
-- latent-core/src/audit.rs: the audit log. The file is a parameter, and so are the JSON text of a
-- line (serde_json, with the time) and the diagnostics' own format; a diagnostic is kept as its
-- event.
pub mod Closing
pub mod Failed
pub mod Threads
pub mod Lines
pub mod Entries
pub mod Trail
use latent_dfir.Common.{
  ℕ, zero, suc, ◌+◌, Bool, true, false, not, ◌&&◌, Option, none, some, List, [], ◌∷◌, ◌++◌, Bytes,
  Outcome, ok, err, ◌>>=◌, map_err, String, leb, if◌then◌else◌,
}
use latent_dfir.Source.{IoError, FilePath}
use latent_dfir.Core.Hash.{Digest, Reader, sha256_reader}
use latent_dfir.Integrity.{AuditEvent}

pub data Verbosity : Type 0 where
  quiet normal verbose very_verbose : Verbosity

-- `Verbosity::from_flags`
unfoldable pub from_flags : Bool → ℕ → Verbosity
from_flags true flags = quiet
from_flags false zero = normal
from_flags false (suc zero) = verbose
from_flags false (suc (suc n)) = very_verbose

-- `Verbosity::level`: a level filter as the number of levels it lets through, of ERROR, WARN, INFO,
-- DEBUG and TRACE.
unfoldable pub level : Verbosity → ℕ
level quiet = 2
level normal = 3
level verbose = 4
level very_verbose = 5

pub data AuditError : Type 0 where
  open_failed : (path : FilePath) (source : IoError) → AuditError
  write_failed : IoError → AuditError
  already_installed : AuditError

pub record AuditDigest : Type 0 where
  pub sha256 : Bytes
  pub bytes : ℕ

-- A buffered file that is open for appending, and what it says when it is read back. `none` is
-- success.
pub record LogFile : Type 1 where
  pub State : Type 0
  pub write_all : State → Bytes → State × Option IoError
  pub flush : State → State × Option IoError
  pub metadata_len : State → Outcome IoError ℕ
  pub Cursor : Type 0
  pub start : State → Cursor
  pub reader : Reader IoError Cursor

-- An event of `tracing`: whether its target is the audit log, its level, and its text.
pub record Event : Type 0 where
  pub is_audit : Bool
  pub severity : ℕ
  pub text : Bytes

module _ (log : LogFile) where
  -- `Inner`
  pub record AuditWriter : Type 0 where
    pub file : log.State
    pub failure : Option IoError

  -- The end of `AuditWriter::create`, and all of it, given how opening the file ends.
  abbrev pub create : log.State → AuditWriter
  create file = record { file = file; failure = none }

  abbrev pub create_at : FilePath → Outcome IoError log.State → Outcome AuditError AuditWriter
  create_at path opened = do file ← map_err (open_failed path) opened; ok (create file)

  -- `AuditWriter::line`, after the write of the line, and after the write of the line feed.
  unfoldable pub line_written : log.State × Option IoError → AuditWriter
  line_written (file, none) =
      let (file', failure) = log.write_all file (10 ∷ []) in
      record { file = file'; failure = failure }
  line_written (file, some e) = record { file = file; failure = some e }

  unfoldable pub line_to : log.State → Option IoError → Bytes → AuditWriter
  unfolding line_written
  line_to file (some e) text = record { file = file; failure = some e }
  line_to file none text = line_written (log.write_all file text)

  unfoldable pub line : AuditWriter → Bytes → AuditWriter
  unfolding line_to
  line w text = line_to w.file w.failure text

  -- `AuditLog::close`, from its last step back to its first.
  unfoldable pub digest_of : Digest → FilePath → log.State → Outcome AuditError AuditDigest
  digest_of d path file = do
    bytes ← map_err (open_failed path) (log.metadata_len file)
    sha256 ← map_err (open_failed path) (sha256_reader d log.reader (bytes + 1) (log.start file))
    ok (record { sha256 = sha256; bytes = bytes })

  unfoldable pub flushed :
      Digest
      → FilePath
      → log.State × Option IoError
      → Option IoError
      → Outcome AuditError AuditDigest
  flushed d path (file, some e) failure = err (write_failed e)
  flushed d path (file, none) (some e) = err (write_failed e)
  flushed d path (file, none) none = digest_of d path file

  -- `AuditWriter::flush` and `AuditWriter::take_err`
  abbrev pub flush : AuditWriter → AuditWriter × Option IoError
  flush w = let (file, failure) = log.flush w.file in (record w { file = file }, failure)

  abbrev pub take_err : AuditWriter → AuditWriter × Option IoError
  take_err w = (record w { failure = none }, w.failure)

  unfoldable pub close_from : Digest → FilePath → AuditWriter → Outcome AuditError AuditDigest
  unfolding flushed
  close_from d path w =
      let (w', failure) = flush w in
      let (w'', kept) = take_err w' in flushed d path (w''.file, failure) kept

  -- `run_end` is the text of the last line.
  unfoldable pub close : Digest → FilePath → Bytes → AuditWriter → Outcome AuditError AuditDigest
  unfolding close_from
  close d path run_end w = close_from d path (line w run_end)

  -- `build`: the directory, the file and the first line.
  unfoldable pub build :
      FilePath
      → Outcome IoError (Unit {0})
      → FilePath
      → Outcome IoError log.State
      → Bytes
      → Outcome AuditError AuditWriter
  build output_dir made path opened run_start = do
    made' ← map_err (open_failed output_dir) made
    w ← create_at path opened
    ok (line w run_start)

  -- `init`. Whether `set_global_default` succeeds is a parameter; the first line is written before.
  unfoldable pub init :
      FilePath
      → Outcome IoError (Unit {0})
      → FilePath
      → Outcome IoError log.State
      → Bytes
      → Bool
      → Outcome AuditError AuditWriter
  unfolding build
  init output_dir made path opened run_start is_first = do
    w ← build output_dir made path opened run_start
    if is_first then ok w else err already_installed

  -- The two layers of the subscriber, with their filters.
  unfoldable pub on_event : Verbosity → AuditWriter × List Event → Event → AuditWriter × List Event
  on_event verbosity (w, diagnostics) e = (
    if e.is_audit then line w (e.text) else w,
    if leb (e.severity) (level verbosity) && not (e.is_audit)
        then diagnostics ++ (e ∷ [])
        else diagnostics,
  )

  unfoldable pub on_events :
      Verbosity → AuditWriter × List Event → List Event → AuditWriter × List Event
  unfolding on_event
  on_events verbosity state [] = state
  on_events verbosity state (e ∷ es) = on_events verbosity (on_event verbosity state e) es
