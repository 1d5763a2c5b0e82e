-- ===== src/Audit/Threads.antt =====
-- latent-core/src/audit.rs: AuditWriter::line as threads call it, who share the writer behind its
-- mutex. A thread takes the lock, writes the text of a line and the line feed, and lets the lock
-- go; another thread may come between any two calls. No thread panics with the lock.
pub mod Merged
pub mod Finishing
pub mod Closed
use latent_dfir.Common.{
  ◌≡◌, refl, sym, ap, ◌∙◌, Option, none, some, List, [], ◌∷◌, ◌++◌, All, Bytes, Meets, subst,
  Option-cases, inl, inr, All-append,
}
use mathlib.Core.List.{append_assoc}
use latent_dfir.Source.{IoError, FilePath}
use latent_dfir.Core.Hash.{Digest}
use latent_dfir.Audit.{LogFile, AuditWriter, create, line, line_to, line_written, close}
use latent_dfir.Audit.Closing.{IsFile, IsDigestOf, lines_text, write_lines, close-Meets}

-- What the thread with the lock has still to write.
pub data Lock : Type 0 where
  free : Lock
  text_next : Bytes → Lock
  feed_next : Lock

-- The lines of all threads, each thread's in its order.
pub data Merge : List (List Bytes) → List Bytes → Type 0 where
  nothing : (threads : List (List Bytes)) → All (λ ts. ts ≡ []) threads → Merge threads []
  one_of :
      (front back : List (List Bytes)) (t : Bytes) (rest order : List Bytes)
      → Merge (front ++ rest ∷ back) order
      → Merge (front ++ (t ∷ rest) ∷ back) (t ∷ order)

module _ (log : LogFile) where
  -- The lines that each thread has still to write, the writer, and its lock.
  pub record Shared : Type 0 where
    pub threads : List (List Bytes)
    pub writer : AuditWriter log
    pub lock : Lock

  -- The calls of `line`, up to the next one that other threads can see.
  pub data Step : Shared → Shared → Type 0 where
    take_lock :
        (front back : List (List Bytes)) (t : Bytes) (rest : List Bytes) (w : AuditWriter log)
        → Step
            (record { threads = front ++ (t ∷ rest) ∷ back; writer = w; lock = free })
            (record { threads = front ++ rest ∷ back; writer = w; lock = text_next t })
    give_up :
        (threads : List (List Bytes)) (w : AuditWriter log) (t : Bytes) (e : IoError)
        → w.failure ≡ some e
        → Step
            (record { threads = threads; writer = w; lock = text_next t })
            (record { threads = threads; writer = w; lock = free })
    write_text :
        (threads : List (List Bytes)) (w : AuditWriter log) (t : Bytes)
        → w.failure ≡ none
        → (log.write_all w.file t).1 ≡ none
        → Step
            (record { threads = threads; writer = w; lock = text_next t })
            (record {
              threads = threads;
              writer = record w { file = (log.write_all w.file t).0 };
              lock = feed_next;
            })
    fail_text :
        (threads : List (List Bytes)) (w : AuditWriter log) (t : Bytes) (e : IoError)
        → w.failure ≡ none
        → (log.write_all w.file t).1 ≡ some e
        → Step
            (record { threads = threads; writer = w; lock = text_next t })
            (record {
              threads = threads;
              writer = record { file = (log.write_all w.file t).0; failure = some e };
              lock = free;
            })
    write_feed :
        (threads : List (List Bytes)) (w : AuditWriter log)
        → Step
            (record { threads = threads; writer = w; lock = feed_next })
            (record {
              threads = threads;
              writer = record {
                file = (log.write_all w.file (10 ∷ [])).0;
                failure = (log.write_all w.file (10 ∷ [])).1;
              };
              lock = free;
            })

  pub data Steps : Shared → Shared → Type 0 where
    stop : (s : Shared) → Steps s s
    next : {s t u : Shared} → Step s t → Steps t u → Steps s u

  -- All lines are written, and no thread has the lock.
  abbrev pub IsDone : Shared → Type 0
  IsDone s = All (λ ts. ts ≡ []) s.threads × (s.lock ≡ free)
