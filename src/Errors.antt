-- ===== src/Errors.antt =====
-- The conversions of errors into latent-core's FatalError: latent-source/src/error.rs and
-- integrity.rs, and latent-scan/src/error.rs. The texts that thiserror derives are parameters.
use latent_dfir.Common.{◌≡◌, refl, Bool, true, false, ◌&&◌, leb, ◌==◌, String}
use latent_dfir.Source.{
  SourceError, out_of_range, short_read, unrecognized, not_read_only, malformed, unsupported, io,
}
use latent_dfir.Core.Record.{
  FatalError, integrity_violation, read_only_violation, unusable_source, fatal_io,
}
use latent_dfir.Integrity.{
  IntegrityError, expected_mismatch, source_changed, from_source, exit_code,
}
use latent_dfir.Scan.{ScanError}
use latent_dfir.Scan as Scan

module _ (source_text : SourceError → String) where
  -- `impl From<SourceError> for FatalError`
  unfoldable pub fatal_of_source : SourceError → FatalError
  fatal_of_source (io path e) = fatal_io e
  fatal_of_source (not_read_only path) = read_only_violation (source_text (not_read_only path))
  fatal_of_source other = unusable_source (source_text other)

  -- `impl From<IntegrityError> for FatalError`
  unfoldable pub fatal_of_integrity : (IntegrityError → String) → IntegrityError → FatalError
  fatal_of_integrity text (from_source e) = fatal_of_source e
  fatal_of_integrity text other = integrity_violation (text other)

  -- `impl From<ScanError> for FatalError`
  unfoldable pub fatal_of_scan : (ScanError → String) → ScanError → FatalError
  fatal_of_scan text (Scan.source e) = fatal_of_source e
  fatal_of_scan text other = unusable_source (text other)

  abbrev pub is_integrity_violation : FatalError → Bool
  is_integrity_violation (integrity_violation text) = true
  is_integrity_violation _ = false

  abbrev pub is_read_only_violation : FatalError → Bool
  is_read_only_violation (read_only_violation text) = true
  is_read_only_violation _ = false

  -- The exit codes 20 and 21 are those of the errors that become an integrity violation, and 22 is
  -- that of those that become a read-only violation.
  pub exit_code-fatal_of_integrity :
      (text : IntegrityError → String) (e : IntegrityError)
      → ((leb 20 (exit_code e) && leb (exit_code e) 21)
          ≡ is_integrity_violation (fatal_of_integrity text e))
        × ((exit_code e == 22) ≡ is_read_only_violation (fatal_of_integrity text e))
  unfolding exit_code fatal_of_integrity fatal_of_source
  exit_code-fatal_of_integrity text (expected_mismatch expected computed) = (refl, refl)
  exit_code-fatal_of_integrity text (source_changed opened closed) = (refl, refl)
  exit_code-fatal_of_integrity text (from_source (out_of_range offset size)) = (refl, refl)
  exit_code-fatal_of_integrity text (from_source (short_read offset wanted got)) = (refl, refl)
  exit_code-fatal_of_integrity text (from_source (unrecognized path)) = (refl, refl)
  exit_code-fatal_of_integrity text (from_source (not_read_only path)) = (refl, refl)
  exit_code-fatal_of_integrity text (from_source (malformed path format detail)) = (refl, refl)
  exit_code-fatal_of_integrity text (from_source (unsupported path format detail)) = (refl, refl)
  exit_code-fatal_of_integrity text (from_source (io path e)) = (refl, refl)
