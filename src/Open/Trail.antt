-- ===== src/Open/Trail.antt =====
-- The audit log of a verified session: what VerifiedSource::open and finish leave in the file.
use latent_dfir.Common.{ℕ, ◌≡◌, refl, Option, none, List, [], ◌∷◌, map, Meets, span, ok}
use latent_dfir.Source.{Source, FilePath}
use latent_dfir.Source.Reads.{Serves}
use latent_dfir.Source.Raw.{Host}
use latent_dfir.Ewf.{Libewf}
use latent_dfir.Text.{chars}
use latent_dfir.Core.Hash.{Digest, sha256}
use latent_dfir.Integrity.{
  AuditEvent, source_open, source_hash, source_close, at_open, at_close, VerifiedSource, finish,
}
use latent_dfir.Open.{open_path, verified_open}
use latent_dfir.Open.Sessions.{verified_open-finish}
use latent_dfir.Audit.{LogFile, Verbosity}
use latent_dfir.Audit.Lines.{Texts, Emitted, of_session}
use latent_dfir.Audit.Entries.{IsJson, run_started, run_ended, opened, hashed, closed}
use latent_dfir.Audit.Closing.{IsFile}
use latent_dfir.Audit.Trail.{IsTrail, audited, audited-Meets}

-- Events with the time at which each was written.
abbrev pub at_times :
    (AuditEvent → Option (List ℕ)) → List AuditEvent → List (Option (List ℕ) × Emitted)
at_times time = map (λ e. (time e, of_session e))

module _ (texts : Texts) (json : IsJson texts) (log : LogFile) (file : IsFile log) (d : Digest)
    (host : Host) (lib : Option Libewf) where
  -- If serde_json writes each object on one line that reads back, and the log file keeps what is
  -- written: a run that opens a session on a path whose source serves its bytes, with no hash
  -- expected, and finishes it with the source unchanged succeeds with the digest of all the bytes,
  -- and closing its audit log ends with an error or with the digest of a file to which six lines
  -- were added that read back, with their times, as the start of the run, the opening with the
  -- size, the digest at the opening, the same digest at the close, the closing of the source, and
  -- the end of the run.
  pub session-Meets :
      (path : FilePath) (src : Source) (f : ℕ → ℕ) (verbosity : Verbosity)
      (output_dir audit_path : FilePath) (s : log.State) (started ended : Option (List ℕ))
      (version command : List ℕ) (time : AuditEvent → Option (List ℕ))
      → open_path host lib path ≡ ok src
      → Serves src f
      → let hash = sha256 d (span f 0 src.size) in
        let v : VerifiedSource = record { source = src; open_hash = hash } in
        let begun = verified_open host lib d [] path none in
        let over = finish d begun.0 src v in
        (begun.1 ≡ ok v)
        × (over.1 ≡ ok hash)
        × Meets
            (IsTrail texts json log file d s (
              (started, run_started version command)
              ∷ (time (source_open path src.size), opened (texts.display path) src.size)
              ∷ (time (source_hash at_open "sha256" hash), hashed at_open (chars "sha256") hash)
              ∷ (time (source_hash at_close "sha256" hash), hashed at_close (chars "sha256") hash)
              ∷ (time (source_close src.identity.path), closed (texts.display src.identity.path))
              ∷ (ended, run_ended)
              ∷ []))
            (audited texts log d verbosity output_dir audit_path s started ended version command
              (at_times time over.0))
  session-Meets path src f verbosity output_dir audit_path s started ended version command time
        opens serves =
      let (begun, over) = verified_open-finish host lib d [] path src f opens serves in
      rw (begun, over)
        (
          refl,
          refl,
          audited-Meets texts json log file d verbosity output_dir audit_path s started ended
              version command
              (at_times time (
                source_open path src.size
                ∷ source_hash at_open "sha256" (sha256 d (span f 0 src.size))
                ∷ source_hash at_close "sha256" (sha256 d (span f 0 src.size))
                ∷ source_close src.identity.path
                ∷ [])),
        )
