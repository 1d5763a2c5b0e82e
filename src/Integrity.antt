-- ===== src/Integrity.antt =====
-- latent-source/src/integrity.rs: hashing a source, the expected hash, and the check at the end that
-- the source has not changed. The audit trail (audit.rs) is the list of its events, passed on.
pub mod Session
use latent_dfir.Common.{
  ℕ, zero, suc, ◌+◌, Bool, true, false, ◌&&◌, ◌||◌, Option, none, some, List, [], ◌∷◌, ◌++◌, map,
  Bytes, bytes_eq, Outcome, ok, err, panic, stuck, ◌>>=◌, map_err, length, String, add64, leb, ltb,
  ◌==◌, if◌then◌else◌,
}
use latent_dfir.Source.{
  Source, SourceError, IoError, FilePath, out_of_range, short_read, unrecognized, not_read_only,
  malformed, unsupported, io, other,
}
use latent_dfir.Text.{trim, to_ascii_lowercase}
use latent_dfir.Core.Hash.{Digest, Reader, sha256_reader}

-- `HashPhase`
pub data HashPhase : Type 0 where
  at_open at_close : HashPhase

-- The audit events that this module emits: `source_open`, `source_hash` and `source_close`.
pub data AuditEvent : Type 0 where
  source_open : (path : FilePath) (size : ℕ) → AuditEvent
  source_hash : (phase : HashPhase) (algorithm : String) (hash : Bytes) → AuditEvent
  source_close : (path : FilePath) → AuditEvent

pub data IntegrityError : Type 0 where
  expected_mismatch : (expected computed : Bytes) → IntegrityError
  source_changed : (opened closed : Bytes) → IntegrityError
  from_source : SourceError → IntegrityError

-- `IntegrityError::exit_code`, with the constants of `mod exit`.
unfoldable pub exit_code : IntegrityError → ℕ
exit_code (expected_mismatch expected computed) = 20
exit_code (source_changed opened closed) = 21
exit_code (from_source (not_read_only path)) = 22
exit_code (from_source (out_of_range offset size)) = 1
exit_code (from_source (short_read offset wanted got)) = 1
exit_code (from_source (unrecognized path)) = 1
exit_code (from_source (malformed path format detail)) = 1
exit_code (from_source (unsupported path format detail)) = 1
exit_code (from_source (io path e)) = 1

-- `impl Read for SourceReader`, whose state is `pos`.
abbrev pub source_reader : Source → Reader IoError ℕ
source_reader src = record {
  read = λ pos n. do
    chunk ← map_err other (src.read_at pos n)
    ok (chunk, add64 pos (length chunk));
}

-- A source of n bytes is read to its end in at most n + 1 reads.
unfoldable pub hash_source : Digest → Source → Outcome SourceError Bytes
hash_source d src =
    map_err (io (src.identity.path)) (sha256_reader d (source_reader src) (src.size + 1) 0)

pub record VerifiedSource : Type 0 where
  pub source : Source
  pub open_hash : Bytes

-- The `if let Some(want)` of `wrap`.
unfoldable pub expect_hash :
    Option (List ℕ) → Source → Bytes → Outcome IntegrityError VerifiedSource
expect_hash none src open_hash = ok (record { source = src; open_hash = open_hash })
expect_hash (some expected) src open_hash =
    let want = to_ascii_lowercase (trim expected) in
    if bytes_eq want open_hash
    then ok (record { source = src; open_hash = open_hash })
    else err (expected_mismatch want open_hash)

-- What follows the hash of the source in `wrap`: its audit event comes before the comparison.
unfoldable pub wrap_hashed :
    List AuditEvent
    → Outcome SourceError Bytes
    → Option (List ℕ)
    → Source
    → List AuditEvent × Outcome IntegrityError VerifiedSource
unfolding expect_hash
wrap_hashed log (ok open_hash) expected src =
    (log ++ (source_hash at_open "sha256" open_hash ∷ []), expect_hash expected src open_hash)
wrap_hashed log (err e) expected src = (log, err (from_source e))
wrap_hashed log panic expected src = (log, panic)
wrap_hashed log stuck expected src = (log, stuck)

-- `VerifiedSource::wrap`
unfoldable pub wrap :
    Digest
    → List AuditEvent
    → Source
    → Option (List ℕ)
    → List AuditEvent × Outcome IntegrityError VerifiedSource
unfolding wrap_hashed
wrap d log src expected = wrap_hashed log (hash_source d src) expected src

-- What follows the hash of the source in `finish`.
unfoldable pub finish_hashed :
    List AuditEvent
    → Outcome SourceError Bytes
    → VerifiedSource
    → List AuditEvent × Outcome IntegrityError Bytes
finish_hashed log (ok close_hash) v = (
  log ++ (source_hash at_close "sha256" close_hash ∷ source_close (v.source.identity.path) ∷ []),
  if bytes_eq close_hash (v.open_hash)
      then ok close_hash
      else err (source_changed (v.open_hash) close_hash),
)
finish_hashed log (err e) v = (log, err (from_source e))
finish_hashed log panic v = (log, panic)
finish_hashed log stuck v = (log, stuck)

-- `VerifiedSource::finish`. Reads of the source may have changed since it was opened: `now` is the
-- same source as it answers at the end.
unfoldable pub finish :
    Digest
    → List AuditEvent
    → Source
    → VerifiedSource
    → List AuditEvent × Outcome IntegrityError Bytes
unfolding finish_hashed
finish d log now v = finish_hashed log (hash_source d now) v
