-- ===== src/Audit/Threads/Finishing.antt =====
-- The threads can always go on until all lines are written.
use latent_dfir.Common.{
  ◌≡◌, refl, List, [], ◌∷◌, ◌++◌, All, Bytes, subst, Option-cases, inl, inr, All-append,
}
use mathlib.Core.List.{append_assoc}
use latent_dfir.Audit.{LogFile, AuditWriter, line}
use latent_dfir.Audit.Threads.{
  free, text_next, Shared, take_lock, give_up, write_text, fail_text, write_feed, Steps, stop, next,
  IsDone,
}

module _ (log : LogFile) where
  Steps-append : (s t u : Shared log) → Steps log s t → Steps log t u → Steps log s u
  Steps-append s _ u (stop _) more = more
  Steps-append s t u (next {t = v} step before) more = next step (Steps-append v t u before more)

  -- The thread with the lock goes on until it lets go.
  unlock :
      (threads : List (List Bytes)) (w : AuditWriter log) (t : Bytes)
      → (w' : AuditWriter log) × Steps log
          (record { threads = threads; writer = w; lock = text_next t })
          (record { threads = threads; writer = w'; lock = free })
  unlock threads w t = elim (Option-cases w.failure) [
    | inr (e, failed) ↦ (w, next (give_up threads w t e failed) (stop _))
    | inl fine ↦ elim (Option-cases (log.write_all w.file t).1) [
      | inl wrote ↦
          (_, next (write_text threads w t fine wrote) (next (write_feed threads _) (stop _)))
      | inr (e, failed) ↦ (_, next (fail_text threads w t e fine failed) (stop _))
    ]
  ]

  -- One thread writes all its lines.
  run_thread :
      (front back : List (List Bytes)) (ts : List Bytes) (w : AuditWriter log)
      → (w' : AuditWriter log) × Steps log
          (record { threads = front ++ ts ∷ back; writer = w; lock = free })
          (record { threads = front ++ [] ∷ back; writer = w'; lock = free })
  run_thread front back [] w = (w, stop _)
  run_thread front back (t ∷ rest) w =
      let (w₁, line) = unlock (front ++ rest ∷ back) w t in
      let (w₂, more) = run_thread front back rest w₁ in
      (w₂, next (take_lock front back t rest w) (Steps-append _ _ _ line more))

  pub run_threads :
      (front threads : List (List Bytes)) (w : AuditWriter log)
      → All (λ ts. ts ≡ []) front
      → (s : Shared log) × Steps log
          (record { threads = front ++ threads; writer = w; lock = free })
          s
        × IsDone log s
  run_threads front [] w done = (_, stop _, (All-append (λ ts. ts ≡ []) front [] done tt, refl))
  run_threads front (ts ∷ threads) w done =
      let (w', steps) = run_thread front threads ts w in
      let (s, more, all) =
        run_threads (front ++ [] ∷ []) threads w'
          (All-append (λ ts. ts ≡ []) front ([] ∷ []) done (refl, tt)) in
      (
        s,
        Steps-append _ _ _ steps (
            subst (λ ts. Steps log (record { threads = ts; writer = w'; lock = free }) s)
              (append_assoc front ([] ∷ []) threads) more),
        all,
      )
