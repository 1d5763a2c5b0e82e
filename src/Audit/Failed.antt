-- ===== src/Audit/Failed.antt =====
-- The writes of an audit log that fail, and what closing it says of them.
use latent_dfir.Common.{
  ◌+◌, ◌≡◌, refl, sym, ap, ◌∙◌, none, some, List, [], ◌∷◌, ◌++◌, ◌⊎◌, inl, inr, Bytes, ◌↔◌, subst,
  Option-cases, ◌>>=◌, map_err, ok, err, panic, stuck, Outcome,
}
use latent_dfir.Source.{IoError, FilePath}
use latent_dfir.Core.Hash.{Digest, sha256_reader}
use latent_dfir.Audit.{
  LogFile, AuditWriter, create, line_written, line_to, line, write_failed, open_failed, AuditError,
  AuditDigest, digest_of, flushed, close_from, close,
}
use latent_dfir.Audit.Closing.{write_lines}

module _ (log : LogFile) where
  -- Writing these lines to the file and flushing it fails: the text of a line or the line feed
  -- behind it, all before it being written, or the flush, all of it being written.
  pub data Fails : log.State → List Bytes → Type 0 where
    text_fails :
        {s : log.State} {t : Bytes} {ts : List Bytes} (e : IoError)
        → (log.write_all s t).1 ≡ some e
        → Fails s (t ∷ ts)
    feed_fails :
        {s : log.State} {t : Bytes} {ts : List Bytes} (e : IoError)
        → (log.write_all s t).1 ≡ none
        → (log.write_all (log.write_all s t).0 (10 ∷ [])).1 ≡ some e
        → Fails s (t ∷ ts)
    later :
        {s : log.State} {t : Bytes} {ts : List Bytes}
        → (log.write_all s t).1 ≡ none
        → (log.write_all (log.write_all s t).0 (10 ∷ [])).1 ≡ none
        → Fails (log.write_all (log.write_all s t).0 (10 ∷ [])).0 ts
        → Fails s (t ∷ ts)
    flush_fails : {s : log.State} (e : IoError) → (log.flush s).1 ≡ some e → Fails s []

  -- A failed write stays known.
  write_lines-failure :
      (w : AuditWriter log) (ts : List Bytes) (e : IoError)
      → w.failure ≡ some e
      → (write_lines log w ts).failure ≡ some e
  unfolding write_lines line line_to
  write_lines-failure w [] e h = h
  write_lines-failure w (t ∷ ts) e h = write_lines-failure (line log w t) ts e (rw h)

  line-text_fails :
      (s : log.State) (t : Bytes) (e : IoError)
      → (log.write_all s t).1 ≡ some e
      → (line log (create log s) t).failure ≡ some e
  unfolding line line_to line_written
  line-text_fails s t e h = rw h

  line-written :
      (s : log.State) (t : Bytes)
      → (log.write_all s t).1 ≡ none
      → line log (create log s) t ≡ record {
        file = (log.write_all (log.write_all s t).0 (10 ∷ [])).0;
        failure = (log.write_all (log.write_all s t).0 (10 ∷ [])).1;
      }
  unfolding line line_to line_written
  line-written s t h = rw h

  line-all_written :
      (s : log.State) (t : Bytes)
      → (log.write_all s t).1 ≡ none
      → (log.write_all (log.write_all s t).0 (10 ∷ [])).1 ≡ none
      → line log (create log s) t ≡ create log (log.write_all (log.write_all s t).0 (10 ∷ [])).0
  line-all_written s t h h' =
      line-written s t h
      ∙ ap (λ e. record { file = (log.write_all (log.write_all s t).0 (10 ∷ [])).0; failure = e })
          h'

  -- A writer that says a write has failed, or whose file cannot be flushed.
  data Broken (w : AuditWriter log) : Type 0 where
    unflushed : (e : IoError) → (log.flush w.file).1 ≡ some e → Broken w
    unwritten : (e : IoError) → w.failure ≡ some e → Broken w

  write_lines-Broken :
      (s : log.State) (ts : List Bytes) → Fails s ts → Broken (write_lines log (create log s) ts)
  unfolding write_lines
  write_lines-Broken s [] (flush_fails e h) = unflushed e h
  write_lines-Broken s (t ∷ ts) (text_fails e h) =
      unwritten e (write_lines-failure (line log (create log s) t) ts e (line-text_fails s t e h))
  write_lines-Broken s (t ∷ ts) (feed_fails e h h') = unwritten e (
      write_lines-failure (line log (create log s) t) ts e
        (ap (λ w. w.failure) (line-written s t h) ∙ h'))
  write_lines-Broken s (t ∷ ts) (later h h' more) =
      subst (λ w. Broken (write_lines log w ts)) (sym (line-all_written s t h h'))
        (write_lines-Broken (log.write_all (log.write_all s t).0 (10 ∷ [])).0 ts more)

  -- Either a write or the flush fails, or there is nothing wrong with the writer.
  record IsSound (w : AuditWriter log) : Type 0 where
    kept : w.failure ≡ none
    flushes : (log.flush w.file).1 ≡ none

  write_lines-cases :
      (s : log.State) (ts : List Bytes) → Fails s ts ⊎ IsSound (write_lines log (create log s) ts)
  unfolding write_lines
  write_lines-cases s [] = elim (Option-cases (log.flush s).1) [
    | inl none_there ↦ inr (record { kept = refl; flushes = none_there })
    | inr (e, h) ↦ inl (flush_fails e h)
  ]
  write_lines-cases s (t ∷ ts) = elim (Option-cases (log.write_all s t).1) [
    | inr (e, h) ↦ inl (text_fails e h)
    | inl h ↦ elim (Option-cases (log.write_all (log.write_all s t).0 (10 ∷ [])).1) [
      | inr (e, h') ↦ inl (feed_fails e h h')
      | inl h' ↦ elim (write_lines-cases (log.write_all (log.write_all s t).0 (10 ∷ [])).0 ts) [
        | inl more ↦ inl (later h h' more)
        | inr sound ↦
            inr
              (subst (λ w. IsSound (write_lines log w ts)) (sym (line-all_written s t h h')) sound)
      ]
    ]
  ]

  -- It is an error of writing.
  abbrev pub IsWriteFailed : Outcome AuditError AuditDigest → Type 0
  IsWriteFailed m = (x : IoError) × (m ≡ err (write_failed x))

  close_from-Broken :
      (d : Digest) (path : FilePath) (w : AuditWriter log)
      → Broken w
      → IsWriteFailed (close_from log d path w)
  unfolding close_from flushed
  close_from-Broken d path w (unflushed e h) = (e, rw h)
  close_from-Broken d path w (unwritten e h) = elim (Option-cases (log.flush w.file).1) [
    | inl flushes ↦ (e, rw (flushes, h))
    | inr (e', h') ↦ (e', rw h')
  ]

  opened-not_written :
      {A : Type 0} (path : FilePath) (m : Outcome IoError A)
      (k : A → Outcome AuditError AuditDigest)
      → ((a : A) (x : IoError) → ¬ (k a ≡ err (write_failed x)))
      → (x : IoError) → ¬ ((map_err (open_failed path) m >>= k) ≡ err (write_failed x))
  opened-not_written path (ok a) k h x e = h a x e
  opened-not_written path (err y) k h x e = absurd (cc)
  opened-not_written path panic k h x e = absurd (cc)
  opened-not_written path stuck k h x e = absurd (cc)

  digest_of-not_written :
      (d : Digest) (path : FilePath) (s : log.State) → ¬ IsWriteFailed (digest_of log d path s)
  unfolding digest_of
  digest_of-not_written d path s (x, h) =
      opened-not_written path (log.metadata_len s)
        (λ bytes. do
          sha256 ← map_err (open_failed path) (sha256_reader d log.reader (bytes + 1) (log.start s))
          ok (record { sha256 = sha256; bytes = bytes }))
        (λ bytes.
          opened-not_written path (sha256_reader d log.reader (bytes + 1) (log.start s)) _
            (λ hash x h. absurd (cc)))
        x h

  close_from-IsSound :
      (d : Digest) (path : FilePath) (w : AuditWriter log)
      → IsSound w
      → close_from log d path w ≡ digest_of log d path (log.flush w.file).0
  unfolding close_from flushed
  close_from-IsSound d path w h = rw (h.flushes, h.kept)

  close-write_lines :
      (d : Digest) (path : FilePath) (w : AuditWriter log) (texts : List Bytes) (run_end : Bytes)
      → close log d path run_end (write_lines log w texts)
        ≡ close_from log d path (write_lines log w (texts ++ (run_end ∷ [])))
  unfolding close write_lines
  close-write_lines d path w [] run_end = refl
  close-write_lines d path w (t ∷ ts) run_end = close-write_lines d path (line log w t) ts run_end

  -- Closing a log after these lines reports an error of writing if and only if a write fails, of
  -- the text of a line, the last one included, or of the line feed behind it, all before it being
  -- written, or the flush fails, all lines being written. A failed write is not forgotten, whatever
  -- is written after it.
  pub close-IsWriteFailed :
      (d : Digest) (path : FilePath) (s : log.State) (texts : List Bytes) (run_end : Bytes)
      → IsWriteFailed (close log d path run_end (write_lines log (create log s) texts))
        ↔ Fails s (texts ++ (run_end ∷ []))
  close-IsWriteFailed d path s texts run_end =
      let ts = texts ++ (run_end ∷ []) in
      let w = write_lines log (create log s) ts in
      let same = close-write_lines d path (create log s) texts run_end in
      (
        λ failed. elim (write_lines-cases s ts) [
          | inl fails ↦ fails
          | inr sound ↦ absurd (
              digest_of-not_written d path (log.flush w.file).0
                (subst IsWriteFailed (same ∙ close_from-IsSound d path w sound) failed))
        ],
        λ fails.
            subst IsWriteFailed (sym same)
              (close_from-Broken d path w (write_lines-Broken s ts fails)),
      )
