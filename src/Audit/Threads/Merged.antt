-- ===== src/Audit/Threads/Merged.antt =====
-- The threads leave the writer as one thread leaves it that writes all the lines.
use latent_dfir.Common.{◌≡◌, refl, sym, ap, ◌∙◌, Option, none, some, List, [], ◌∷◌, Bytes}
use latent_dfir.Source.{IoError}
use latent_dfir.Audit.{LogFile, AuditWriter, line, line_to, line_written}
use latent_dfir.Audit.Closing.{write_lines}
use latent_dfir.Audit.Threads.{
  Lock, free, text_next, feed_next, Merge, nothing, one_of, Shared, take_lock, give_up, write_text,
  fail_text, write_feed, Steps, stop, next, IsDone,
}

module _ (log : LogFile) where
  -- The writer when the thread with the lock is through.
  abbrev finished : Lock → AuditWriter log → AuditWriter log
  finished free w = w
  finished (text_next t) w = line log w t
  finished feed_next w = record {
    file = (log.write_all w.file (10 ∷ [])).0;
    failure = (log.write_all w.file (10 ∷ [])).1;
  }

  -- What is left of `line` after each of its calls.
  line_to-given_up :
      (file : log.State) (failure : Option IoError) (t : Bytes) (e : IoError)
      → failure ≡ some e
      → line_to log file failure t ≡ record { file = file; failure = failure }
  unfolding line_to
  line_to-given_up file none t e h = absurd (cc)
  line_to-given_up file (some x) t e h = refl

  line_written-feed :
      (r : log.State × Option IoError) (failure : Option IoError)
      → r.1 ≡ none
      → line_written log r ≡ finished feed_next (record { file = r.0; failure = failure })
  unfolding line_written
  line_written-feed (file, none) failure h = refl
  line_written-feed (file, some e) failure h = absurd (cc)

  line_written-failed :
      (r : log.State × Option IoError) (e : IoError)
      → r.1 ≡ some e
      → line_written log r ≡ record { file = r.0; failure = some e }
  unfolding line_written
  line_written-failed (file, none) e h = absurd (cc)
  line_written-failed (file, some x) e h =
      let same : x ≡ e = cc in ap (λ e. record { file = file; failure = some e }) same

  line_to-line_written :
      (file : log.State) (failure : Option IoError) (t : Bytes)
      → failure ≡ none
      → line_to log file failure t ≡ line_written log (log.write_all file t)
  unfolding line_to
  line_to-line_written file none t h = refl
  line_to-line_written file (some x) t h = absurd (cc)

  -- The writer ends as one thread leaves it that writes the lines of all threads, each thread's in
  -- its order.
  pub Steps-merged :
      (s t : Shared log)
      → Steps log s t
      → IsDone log t
      → (order : List Bytes) × Merge s.threads order
        × (t.writer ≡ write_lines log (finished s.lock s.writer) order)
  unfolding write_lines line
  Steps-merged s _ (stop _) (none_left, unlocked) =
      ([], nothing s.threads none_left, ap (λ l. finished l s.writer) (sym unlocked))
  Steps-merged _ u (next (take_lock front back t rest w) more) done =
      let (order, merged, ends) = Steps-merged _ u more done in
      (t ∷ order, one_of front back t rest order merged, ends)
  Steps-merged _ u (next (give_up threads w t e failed) more) done =
      let (order, merged, ends) = Steps-merged _ u more done in
      (
        order,
        merged,
        ends
            ∙ ap (λ w. write_lines log w order)
                (sym (line_to-given_up w.file w.failure t e failed)),
      )
  Steps-merged _ u (next (write_text threads w t fine wrote) more) done =
      let (order, merged, ends) = Steps-merged _ u more done in
      (
        order,
        merged,
        ends
            ∙ ap (λ w. write_lines log w order)
                (sym (
                  line_to-line_written w.file w.failure t fine
                  ∙ line_written-feed (log.write_all w.file t) w.failure wrote)),
      )
  Steps-merged _ u (next (fail_text threads w t e fine failed) more) done =
      let (order, merged, ends) = Steps-merged _ u more done in
      (
        order,
        merged,
        ends
            ∙ ap (λ w. write_lines log w order)
                (sym (
                  line_to-line_written w.file w.failure t fine
                  ∙ line_written-failed (log.write_all w.file t) e failed)),
      )
  Steps-merged _ u (next (write_feed threads w) more) done =
      let (order, merged, ends) = Steps-merged _ u more done in (order, merged, ends)
