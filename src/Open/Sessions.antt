-- ===== src/Open/Sessions.antt =====
-- A whole session on a source that does not change.
use latent_dfir.Common.{ℕ, ◌≡◌, refl, ap₂, Option, none, List, [], ◌∷◌, ◌++◌, span, ok}
use latent_dfir.Source.{Source, FilePath}
use latent_dfir.Source.Reads.{Serves}
use latent_dfir.Source.Raw.{Host}
use latent_dfir.Ewf.{Libewf}
use latent_dfir.Core.Hash.{Digest, sha256}
use latent_dfir.Integrity.{
  AuditEvent, source_open, source_hash, source_close, at_open, at_close, VerifiedSource, finish,
}
use latent_dfir.Integrity.Session.{wrap-Serves, finish-Serves}
use latent_dfir.Open.{open_path, open_session, verified_open}

-- A path whose source serves the bytes `f` is opened with the audit events of the opening and of
-- the hash, in this order; and finishing the session on the same bytes succeeds with the same hash,
-- and adds the closing hash and the close.
pub verified_open-finish :
    (host : Host) (lib : Option Libewf) (d : Digest) (log : List AuditEvent) (path : FilePath)
    (src : Source) (f : ℕ → ℕ)
    → open_path host lib path ≡ ok src
    → Serves src f
    → let hash = sha256 d (span f 0 src.size) in
      let v : VerifiedSource = record { source = src; open_hash = hash } in
      let log' =
        (log ++ (source_open path src.size ∷ [])) ++ (source_hash at_open "sha256" hash ∷ []) in
      (verified_open host lib d log path none ≡ (log', ok v))
      × (finish d log' src v ≡ (
        log' ++ (source_hash at_close "sha256" hash ∷ source_close src.identity.path ∷ []),
        ok hash,
      ))
unfolding verified_open open_session
verified_open-finish host lib d log path src f opened s =
    let hash = sha256 d (span f 0 src.size) in
    let closed =
      finish-Serves d
        ((log ++ (source_open path src.size ∷ [])) ++ (source_hash at_open "sha256" hash ∷ [])) src
        src f f s in
    (
      rw opened ((wrap-Serves d (log ++ (source_open path src.size ∷ [])) src f [] s).3),
      ap₂ (λ a b. (a, b)) closed.0 (closed.1.1 refl),
    )
