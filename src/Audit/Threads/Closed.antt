-- ===== src/Audit/Threads/Closed.antt =====
-- The digest of a log that threads have written to.
use latent_dfir.Common.{sym, List, [], ◌∷◌, ◌++◌, Bytes, Meets, subst}
use latent_dfir.Source.{FilePath}
use latent_dfir.Core.Hash.{Digest}
use latent_dfir.Audit.{LogFile, create, close}
use latent_dfir.Audit.Closing.{IsFile, IsDigestOf, lines_text, close-Meets}
use latent_dfir.Audit.Threads.{free, Merge, Shared, Steps, IsDone}
use latent_dfir.Audit.Threads.Merged.{Steps-merged}
use latent_dfir.Audit.Threads.Finishing.{run_threads}

module _ (log : LogFile) where
  -- Whatever lines threads write through the writer, whose lock one of them holds at a time: they
  -- can all come to an end; and however they take turns, once they have, closing the log ends with
  -- an error or with the digest and the length of a file that holds what was there before, then the
  -- lines of all threads, whole and each thread's in its order, with a line feed behind each, and
  -- then the last line.
  pub Steps-close :
      (file : IsFile log) (d : Digest) (path : FilePath) (state : log.State)
      (threads : List (List Bytes)) (run_end : Bytes)
      → ((s : Shared log) × Steps log
            (record { threads = threads; writer = create log state; lock = free })
            s
          × IsDone log s)
        × ((s : Shared log)
            → Steps log (record { threads = threads; writer = create log state; lock = free }) s
            → IsDone log s
            → (order : List Bytes) × Merge threads order
              × Meets
                  (IsDigestOf log file d
                    ((file.contents state ++ lines_text order) ++ (run_end ++ (10 ∷ []))))
                  (close log d path run_end s.writer))
  Steps-close file d path state threads run_end = (
    run_threads log [] threads (create log state) tt,
    λ s steps done.
        let (order, merged, ends) = Steps-merged log _ s steps done in
        (
          order,
          merged,
          subst
              (λ w.
                Meets
                  (IsDigestOf log file d
                    ((file.contents state ++ lines_text order) ++ (run_end ++ (10 ∷ []))))
                  (close log d path run_end w))
              (sym ends) (close-Meets log file d path state order run_end),
        ),
  )
