-- ===== src/Examples/Sessions.antt =====
-- A run over three bytes, and its audit log.
use latent_dfir.Common.{◌≡◌, inl, none, [], ◌∷◌, span, ok, Meets}
use latent_dfir.Text.{chars}
use latent_dfir.Source.Raw.{raw_source}
use latent_dfir.Source.Raw.Contents.{raw_open-Serves}
use latent_dfir.Core.Hash.{sha256}
use latent_dfir.Integrity.{at_open, at_close, VerifiedSource, finish}
use latent_dfir.Open.{verified_open}
use latent_dfir.Open.Trail.{at_times, session-Meets}
use latent_dfir.Audit.{normal}
use latent_dfir.Audit.Entries.{run_started, run_ended, opened, hashed, closed}
use latent_dfir.Audit.Trail.{IsTrail, audited}
use latent_dfir.Examples.{recorder}
use latent_dfir.Examples.Sources.{host, file_byte, image, host-Holds, image_opened}
use latent_dfir.Examples.Opening.{raw_opened}
use latent_dfir.Examples.Logs.{memory_log, memory_file, texts, texts-IsJson, at_noon}

session-Meets_example :
    let hash = sha256 recorder (span file_byte 0 3) in
    let v : VerifiedSource = record { source = raw_source host image; open_hash = hash } in
    let begun = verified_open host none recorder [] "evidence.dd" none in
    let over = finish recorder begun.0 (raw_source host image) v in
    (begun.1 ≡ ok v)
    × (over.1 ≡ ok hash)
    × Meets
        (IsTrail texts texts-IsJson memory_log memory_file recorder [] (
          (at_noon, run_started (chars "0.1.0") (chars "latent scan"))
          ∷ (at_noon, opened (chars "evidence.dd") 3)
          ∷ (at_noon, hashed at_open (chars "sha256") hash)
          ∷ (at_noon, hashed at_close (chars "sha256") hash)
          ∷ (at_noon, closed (chars "evidence.dd"))
          ∷ (at_noon, run_ended)
          ∷ []))
        (audited texts memory_log recorder normal "out" "out/audit.jsonl" [] at_noon at_noon
          (chars "0.1.0")
          (chars "latent scan")
          (at_times (λ e. at_noon) over.0))
session-Meets_example =
    session-Meets texts texts-IsJson memory_log memory_file recorder host none "evidence.dd"
      (raw_source host image) file_byte normal "out" "out/audit.jsonl" [] at_noon at_noon
      (chars "0.1.0") (chars "latent scan") (λ e. at_noon) raw_opened
      (raw_open-Serves host "evidence.dd" host-Holds image (inl image_opened)).0
