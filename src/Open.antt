-- ===== src/Open.antt =====
-- latent-source/src/lib.rs (open), and what follows it in a session: VerifiedSource::open, and the
-- conversions of errors into FatalError. libewf is there or not, as the build decides.
pub mod Kinds
pub mod Sessions
pub mod Trail
use latent_dfir.Common.{
  ℕ, zero, Bool, Option, none, some, List, [], ◌∷◌, ◌++◌, Bytes, Outcome, ok, err, panic, stuck,
  ◌>>=◌, String, starts_with, if◌then◌else◌,
}
use latent_dfir.Source.{Source, SourceError, FilePath, unsupported}
use latent_dfir.Source.Raw.{Host, RawSource, raw_open, raw_source}
use latent_dfir.Ewf as Ewf
use latent_dfir.Ewf.{Libewf, ewf_open, ewf_source}
use latent_dfir.Vdisk.Qcow2.{qcow2_open, qcow2_source}
use latent_dfir.Vdisk.Vmdk.{vmdk_open, vmdk_source}
use latent_dfir.Vdisk.Vhdx.{vhdx_open, vhdx_source}
use latent_dfir.Core.Hash.{Digest}
use latent_dfir.Integrity.{
  AuditEvent, source_open, IntegrityError, from_source, VerifiedSource, wrap,
}

-- `ewf::open`, in both builds.
unfoldable pub open_ewf : Option Libewf → FilePath → Outcome SourceError Source
open_ewf none path = err (unsupported path "ewf" "this build has no libewf; E01/EWF support is off")
open_ewf (some lib) path = do e ← (ewf_open lib path).1; ok (ewf_source lib e)

abbrev pub vmdk_magic : Bytes
vmdk_magic = b'K' ∷ b'D' ∷ b'M' ∷ b'V' ∷ []

abbrev pub qcow2_magic : Bytes
qcow2_magic = 0x51 ∷ 0x46 ∷ 0x49 ∷ 0xfb ∷ []

abbrev pub vhdx_magic : Bytes
vhdx_magic = b'v' ∷ b'h' ∷ b'd' ∷ b'x' ∷ b'f' ∷ b'i' ∷ b'l' ∷ b'e' ∷ []

-- What follows `open` in `VerifiedSource::open`.
unfoldable pub open_session :
    Digest
    → List AuditEvent
    → FilePath
    → Option (List ℕ)
    → Outcome SourceError Source
    → List AuditEvent × Outcome IntegrityError VerifiedSource
open_session d log path expected (ok src) =
    wrap d (log ++ (source_open path (src.size) ∷ [])) src expected
open_session d log path expected (err e) = (log, err (from_source e))
open_session d log path expected panic = (log, panic)
open_session d log path expected stuck = (log, stuck)

module _ (host : Host) (lib : Option Libewf) where
  -- The dispatch on the first bytes.
  unfoldable pub open_as : FilePath → Source → Bytes → Outcome SourceError Source
  open_as path raw magic =
      let qcow2 = do q ← qcow2_open raw; ok (qcow2_source q)
      in let vmdk = do v ← vmdk_open raw; ok (vmdk_source v)
        in let vhdx = do v ← vhdx_open raw; ok (vhdx_source v)
          in if starts_with magic Ewf.magic
            then open_ewf lib path
            else if starts_with magic qcow2_magic
            then qcow2
            else if starts_with magic vmdk_magic
            then vmdk
            else if starts_with magic vhdx_magic
            then vhdx
            else ok raw

  unfoldable pub open_path : FilePath → Outcome SourceError Source
  unfolding open_as
  open_path path = do
    raw ← raw_open host path
    magic ← (raw_source host raw).read_at 0 8
    open_as path (raw_source host raw) magic

  unfoldable pub verified_open :
      Digest
      → List AuditEvent
      → FilePath
      → Option (List ℕ)
      → List AuditEvent × Outcome IntegrityError VerifiedSource
  unfolding open_session
  verified_open d log path expected = open_session d log path expected (open_path path)
