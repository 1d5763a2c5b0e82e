-- ===== src/Carve/Registry/Finishing.antt =====
-- The threads can always go on until they all are done.
use mathlib.Core.List.{append_assoc}
use latent_dfir.Common.{◌≡◌, refl, subst, List, [], ◌∷◌, ◌++◌, All, All-append}
use latent_dfir.Carve.Registry.{Counters}
use latent_dfir.Carve.Registry.Workers.{Action, add_at, Pool, one, Steps, start, then, IsDone}

Steps-append : (p q r : Pool) → Steps p q → Steps q r → Steps p r
Steps-append p q _ before start = before
Steps-append p q r before (then {q = s} more step) = then (Steps-append p q s before more) step

-- One thread makes all its additions.
run_thread :
    (front back : List (List Action)) (actions : List Action) (cs : List Counters)
    → (cs' : List Counters) × Steps
        (record { threads = front ++ actions ∷ back; counters = cs })
        (record { threads = front ++ [] ∷ back; counters = cs' })
run_thread front back [] cs = (cs, start)
run_thread front back ((owner, a) ∷ rest) cs =
    let (cs', more) = run_thread front back rest (add_at cs owner a) in
    (cs', Steps-append _ _ _ (then start (one front back owner a rest cs)) more)

abbrev IsEmpty : List Action → Type 0
IsEmpty actions = actions ≡ []

run_threads :
    (front threads : List (List Action)) (cs : List Counters)
    → All IsEmpty front
    → (q : Pool) × Steps (record { threads = front ++ threads; counters = cs }) q × IsDone q
run_threads front [] cs done = (_, start, All-append IsEmpty front [] done tt)
run_threads front (actions ∷ threads) cs done =
    let (cs', steps) = run_thread front threads actions cs in
    let (q, more, all) =
      run_threads (front ++ [] ∷ []) threads cs'
        (All-append IsEmpty front ([] ∷ []) done (refl, tt)) in
    (
      q,
      Steps-append _ _ _ steps (
          subst (λ ts. Steps (record { threads = ts; counters = cs' }) q)
            (append_assoc front ([] ∷ []) threads) more),
      all,
    )

-- From every pool one can be reached in which every thread is done.
pub Steps-finish : (p : Pool) → (q : Pool) × Steps p q × IsDone q
Steps-finish p = run_threads [] p.threads p.counters tt
