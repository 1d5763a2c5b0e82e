-- ===== src/Audit/Closing.antt =====
-- What the digest of a closed audit log is the digest of, and what goes to it.
use latent_dfir.Common.{
  ◌+◌, ◌≡◌, refl, sym, ap, ◌∙◌, arith, false, Option, none, some, List, [], ◌∷◌, ◌++◌, Bytes,
  length, ok, Meets,
}
use latent_dfir.Source.{IoError, FilePath}
use latent_dfir.Core.Hash.{Digest, Delivers, sha256, sha256_reader-Delivers}
use latent_dfir.Audit.{
  LogFile, AuditWriter, create, line_written, line_to, line, AuditDigest, digest_of, flushed,
  close_from, close, Event,
}
use mathlib.Core.List.{append_assoc, append-nil}

-- What the log relies on of its file: a write that succeeds appends, a flush that succeeds puts all
-- of it on the disk, and what is on the disk can be read back, a part at a time.
pub record IsFile (log : LogFile) : Type 1 where
  pub contents : log.State → Bytes
  pub on_disk : log.State → Bytes
  pub rest_at : log.Cursor → Bytes → Type 0
  pub written :
      (s : log.State) (b : Bytes)
      → (log.write_all s b).1 ≡ none
      → contents (log.write_all s b).0 ≡ contents s ++ b
  pub synced : (s : log.State) → (log.flush s).1 ≡ none → on_disk (log.flush s).0 ≡ contents s
  pub sized : (s : log.State) → log.metadata_len s ≡ ok (length (on_disk s))
  pub started : (s : log.State) → rest_at (log.start s) (on_disk s)
  pub delivers : Delivers log.reader rest_at

-- The text of some lines.
abbrev pub lines_text : List Bytes → Bytes
lines_text [] = []
lines_text (t ∷ ts) = (t ++ (10 ∷ [])) ++ lines_text ts

module _ (log : LogFile) where
  unfoldable pub write_lines : AuditWriter log → List Bytes → AuditWriter log
  write_lines w [] = w
  write_lines w (t ∷ ts) = write_lines (line log w t) ts

  module _ (file : IsFile log) where
    -- Unless a write has failed, the file holds this.
    abbrev Held : AuditWriter log → Bytes → Type 0
    Held w b = w.failure ≡ none → file.contents w.file ≡ b

    line_written-Held :
        (r : log.State × Option IoError) (b : Bytes)
        → (r.1 ≡ none → file.contents r.0 ≡ b)
        → Held (line_written log r) (b ++ (10 ∷ []))
    unfolding line_written
    line_written-Held (s, none) b h e =
        file.written s (10 ∷ []) e ∙ ap (λ x. x ++ (10 ∷ [])) (h refl)
    line_written-Held (s, some x) b h e = absurd (cc)

    line_to-Held :
        (s : log.State) (failure : Option IoError) (t b : Bytes)
        → (failure ≡ none → file.contents s ≡ b)
        → Held (line_to log s failure t) (b ++ (t ++ (10 ∷ [])))
    unfolding line_to
    line_to-Held s (some x) t b h e = absurd (cc)
    line_to-Held s none t b h e =
        line_written-Held (log.write_all s t) (b ++ t)
          (λ g. file.written s t g ∙ ap (λ x. x ++ t) (h refl)) e
        ∙ append_assoc b t (10 ∷ [])

    write_lines-Held :
        (w : AuditWriter log) (ts : List Bytes) (b : Bytes)
        → Held w b
        → Held (write_lines w ts) (b ++ lines_text ts)
    unfolding write_lines line
    write_lines-Held w [] b h e = h e ∙ sym (append-nil b)
    write_lines-Held w (t ∷ ts) b h e =
        write_lines-Held (line log w t) ts (b ++ (t ++ (10 ∷ [])))
          (line_to-Held w.file w.failure t b h) e
        ∙ append_assoc b (t ++ (10 ∷ [])) (lines_text ts)

    -- The digest of these bytes, and how many they are.
    pub record IsDigestOf (d : Digest) (b : Bytes) (r : AuditDigest) : Type 0 where
      pub digest : r.sha256 ≡ sha256 d b
      pub size : r.bytes ≡ length b

    flushed-Meets :
        (d : Digest) (path : FilePath) (r : log.State × Option IoError) (failure : Option IoError)
        (b : Bytes)
        → (failure ≡ none → r.1 ≡ none → file.on_disk r.0 ≡ b)
        → Meets (IsDigestOf d b) (flushed log d path r failure)
    unfolding flushed digest_of
    flushed-Meets d path (s, some x) failure b h = tt
    flushed-Meets d path (s, none) (some x) b h = tt
    flushed-Meets d path (s, none) none b h =
        let e = h refl refl in
        let hashed =
          sha256_reader-Delivers d log.reader file.rest_at (length (file.on_disk s) + 1)
            (log.start s) (file.on_disk s) file.delivers (file.started s) (omega arith) in
        rw (file.sized s, hashed) (record { digest = ap (sha256 d) e; size = ap length e })

    -- Closing a log, whatever was written to it, ends with an error or with the digest and the
    -- length of a file that holds what was there before, then every line in order with a line feed
    -- behind it, and then the last line.
    pub close-Meets :
        (d : Digest) (path : FilePath) (s : log.State) (texts : List Bytes) (run_end : Bytes)
        → Meets
            (IsDigestOf d ((file.contents s ++ lines_text texts) ++ (run_end ++ (10 ∷ []))))
            (close log d path run_end (write_lines (create log s) texts))
    unfolding close close_from line
    close-Meets d path s texts run_end =
        let w = write_lines (create log s) texts in
        let w' = line log w run_end in
        flushed-Meets d path (log.flush w'.file) w'.failure _ λ e g.
          file.synced w'.file g
          ∙ line_to-Held w.file w.failure run_end (file.contents s ++ lines_text texts)
              (write_lines-Held (create log s) texts (file.contents s) (λ h. refl)) e

  abbrev pub IsDiagnostic : Event → Type 0
  IsDiagnostic e = e.is_audit ≡ false
