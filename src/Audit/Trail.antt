-- ===== src/Audit/Trail.antt =====
-- The audit log of a whole run: what its file holds at the end, and what each of its lines says.
use mathlib.Core.List.{append_assoc, append-nil}
use latent_dfir.Common.{
  true, ℕ, ◌≡◌, refl, sym, subst, ap, ◌∙◌, Option, List, [], ◌∷◌, ◌++◌, map, Bytes, Outcome, ok,
  ◌>>=◌, Meets, Meets-map,
}
use latent_dfir.Source.{FilePath}
use latent_dfir.Core.Hash.{Digest}
use latent_dfir.Audit.{
  LogFile, AuditWriter, create, line, AuditError, AuditDigest, Event, Verbosity, init, close,
  on_event, on_events,
}
use latent_dfir.Audit.Lines.{Texts, Emitted, audit_event, run_start, run_end}
use latent_dfir.Audit.Entries.{
  Entry, run_started, run_ended, shown, IsJson, Tells, audit_event-Tells, run_start-Tells,
  run_end-Tells,
}
use latent_dfir.Audit.Closing.{IsFile, IsDigestOf, lines_text, write_lines, close-Meets}

abbrev pub Stamped : Type 0 → Type 0
Stamped A = Option (List ℕ) × A

module _ (texts : Texts) where
  abbrev event_line : Stamped Emitted → Bytes
  event_line e = (audit_event texts e).text

  -- A log is begun in a directory that is there, by the first subscriber, events come, and it is
  -- closed.
  unfoldable pub audited :
      (log : LogFile)
      → Digest
      → Verbosity
      → (output_dir path : FilePath) → log.State
      → (started ended : Option (List ℕ)) → (version command : List ℕ) → List (Stamped Emitted)
      → Outcome AuditError AuditDigest
  audited log d verbosity output_dir path s started ended version command es = do
    w ← init log output_dir (ok tt) path (ok s) (run_start texts started version command) true
    let events = map (audit_event texts) es
    close log d path (run_end texts ended) (on_events log verbosity (w, []) events).0

module _ (texts : Texts) (json : IsJson texts) where
  -- Each line tells the entry in its place.
  pub data Told : List (Stamped Entry) → List Bytes → Type 0 where
    no_lines : Told [] []
    told :
        {e : Stamped Entry} {l : Bytes} {es : List (Stamped Entry)} {ls : List Bytes}
        → Tells texts json e l
        → Told es ls
        → Told (e ∷ es) (l ∷ ls)

  pub append-Told :
      (es fs : List (Stamped Entry)) (ls ks : List Bytes)
      → Told es ls
      → Told fs ks
      → Told (es ++ fs) (ls ++ ks)
  append-Told es fs ls ks no_lines t = t
  append-Told (e ∷ es) fs (l ∷ ls) ks (told h hs) t = told h (append-Told es fs ls ks hs t)

  -- What the events of a run say, in order.
  abbrev pub said : List (Stamped Emitted) → List (Stamped Entry)
  said = map (λ (now, e). (now, shown texts e))

  said-Told : (es : List (Stamped Emitted)) → Told (said es) (map (event_line texts) es)
  said-Told [] = no_lines
  said-Told ((now, e) ∷ es) = told (audit_event-Tells texts json now e) (said-Told es)

lines_text-append :
    (ls : List Bytes) (l : Bytes) → lines_text (ls ++ l ∷ []) ≡ lines_text ls ++ (l ++ (10 ∷ []))
lines_text-append [] l = append-nil (l ++ (10 ∷ []))
lines_text-append (k ∷ ls) l =
    ap (λ t. (k ++ (10 ∷ [])) ++ t) (lines_text-append ls l)
    ∙ sym (append_assoc (k ++ (10 ∷ [])) (lines_text ls) (l ++ (10 ∷ [])))

module _ (texts : Texts) (log : LogFile) where
  on_events-write_lines :
      (v : Verbosity) (es : List (Stamped Emitted)) (w : AuditWriter log) (a : List Event)
      → (on_events log v (w, a) (map (audit_event texts) es)).0
        ≡ write_lines log w (map (event_line texts) es)
  unfolding on_events on_event write_lines audit_event
  on_events-write_lines v [] w a = refl
  on_events-write_lines v ((now, e) ∷ es) w a = on_events-write_lines v es _ _

module _ (texts : Texts) (json : IsJson texts) (log : LogFile) (file : IsFile log)
    (d : Digest) where
  -- The digest is that of a file to which lines were added that tell these entries.
  pub record IsTrail (s : log.State) (entries : List (Stamped Entry)) (r : AuditDigest)
      : Type 0 where
    pub lines : List Bytes
    pub tells : Told texts json entries lines
    pub digest : IsDigestOf log file d (file.contents s ++ lines_text lines) r

  -- If serde_json writes each object on one line that reads back, and the file keeps what is
  -- written: a run that starts a log, emits events and closes the log ends with an error or with
  -- the digest and the length of a file that holds what was there before and then one line for each
  -- of these, in order: the start of the run, every event, the end of the run; each line reads back
  -- as what it was written for, with its time.
  pub audited-Meets :
      (verbosity : Verbosity) (output_dir path : FilePath) (s : log.State)
      (started ended : Option (List ℕ)) (version command : List ℕ) (es : List (Stamped Emitted))
      → Meets
          (IsTrail s (
            (started, run_started version command)
            ∷ (said texts json es ++ (ended, run_ended) ∷ [])))
          (audited texts log d verbosity output_dir path s started ended version command es)
  unfolding audited init write_lines
  audited-Meets verbosity output_dir path s started ended version command es =
      let start = run_start texts started version command in
      let ls = start ∷ map (event_line texts) es in
      let last = run_end texts ended in
      let bytes = (file.contents s ++ lines_text ls) ++ (last ++ (10 ∷ [])) in
      let whole : bytes ≡ file.contents s ++ lines_text (ls ++ last ∷ []) =
        append_assoc (file.contents s) (lines_text ls) (last ++ (10 ∷ []))
        ∙ ap (λ t. file.contents s ++ t) (sym (lines_text-append ls last)) in
      rw (on_events-write_lines texts log verbosity es (line log (create log s) start) []) (
        Meets-map (IsDigestOf log file d bytes)
          (IsTrail s (
            (started, run_started version command)
            ∷ (said texts json es ++ (ended, run_ended) ∷ [])))
          _
          (λ r digest. record {
            lines = ls ++ last ∷ [];
            tells = told (run_start-Tells texts json started version command) (
                append-Told texts json _ _ _ _ (said-Told texts json es)
                  (told (run_end-Tells texts json ended) no_lines));
            digest = subst (λ b. IsDigestOf log file d b r) whole digest;
          })
          (close-Meets log file d path s ls last))
