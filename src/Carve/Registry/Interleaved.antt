-- ===== src/Carve/Registry/Interleaved.antt =====
-- However the threads that dispatch hits come between each other, they leave the counters as
-- dispatch one after the other does.
use latent_dfir.Common.{
  ℕ, ◌-◌, ◌≡◌, refl, sym, subst, ap, ◌∙◌, arith, min, Option-cases, inl, inr, some, List, [], ◌∷◌,
  Bytes, Outcome, ok, err, panic, stuck, ◌>>=◌, >>=-eq-ok, add64, length, get_elem?, get_elem?-lt,
  set, All,
}
use latent_dfir.Source.{Source, SourceError, read_exact_at}
use latent_dfir.Source.Reads.{Serves}
use latent_dfir.Carve.Extractor.{Extractor, Carved, Rejection}
use latent_dfir.Carve.Registry.{
  Counters, Registry, count_answer, dispatch, extract_owned, extract_hit,
}
use latent_dfir.Carve.Registry.Dispatch.{
  IsBalanced, IsConsistent, IsTotal, index-ok, extract_hit-IsConsistent,
}
use latent_dfir.Carve.Registry.Workers.{
  Addition, seen_one, accepted_one, rejected_one, emitted_more, fetch_add, Action, add_at, perform,
  Program, answer_program, read_program, hit_program, extract_all, programs, Pool, Steps, IsDone,
}
use latent_dfir.Carve.Registry.Finishing.{Steps-finish}
use latent_dfir.Carve.Registry.Additions.{
  perform-append, Steps-IsDone, add_at-set, add_at-get, joined,
}

-- An answer counts the same, by the counters passed on or by additions.
module _ (r : Registry) (owner : ℕ) (c : Counters)
    (here : get_elem? r.counters owner ≡ some c) where
  abbrev after_actions : Program → Outcome SourceError (List Carved × Registry)
  after_actions (carved, actions) = ok (carved, record r { counters = perform r.counters actions })

  abbrev after_counters : List Carved × Counters → Outcome SourceError (List Carved × Registry)
  after_counters (carved, c') = ok (carved, record r { counters = set r.counters owner c' })

  two_additions :
      (a b : Addition)
      → add_at (add_at r.counters owner a) owner b
        ≡ set r.counters owner (fetch_add b (fetch_add a c))
  two_additions a b =
      ap (λ ds. add_at ds owner b) (add_at-get r.counters owner c a here)
      ∙ add_at-set r.counters owner (fetch_add a c) b

  rejected_program :
      after_counters ([], record c { seen = add64 c.seen 1; rejected = add64 c.rejected 1 })
      ≡ after_actions ([], (owner, seen_one) ∷ (owner, rejected_one) ∷ [])
  unfolding perform fetch_add
  rejected_program =
      ap (λ ds. ok ([], record r { counters = ds })) (sym (two_additions seen_one rejected_one))

  accepted_program :
      (carved : List Carved)
      → after_counters (
        carved,
        record c {
          seen = add64 c.seen 1;
          accepted = add64 c.accepted 1;
          emitted = add64 c.emitted (length carved);
        },
      )
        ≡ after_actions (
          carved,
          (owner, seen_one) ∷ (owner, accepted_one) ∷ (owner, emitted_more (length carved)) ∷ [],
        )
  unfolding perform fetch_add
  accepted_program carved =
      let last = emitted_more (length carved) in
      ap (λ ds. ok (carved, record r { counters = ds }))
        (sym (
          ap (λ ds. add_at ds owner last) (two_additions seen_one accepted_one)
          ∙ add_at-set r.counters owner (fetch_add accepted_one (fetch_add seen_one c)) last))

  dispatch-program :
      (read : Outcome SourceError Bytes) (extract : Bytes → Outcome Rejection (List Carved))
      → (dispatch (record c { seen = add64 c.seen 1 }) read extract >>= after_counters)
        ≡ (read_program owner read extract >>= after_actions)
  unfolding dispatch read_program
  dispatch-program (err e) extract = rejected_program
  dispatch-program panic extract = refl
  dispatch-program stuck extract = refl
  dispatch-program (ok buf) extract = answered (extract buf)
    where
      answered :
          (a : Outcome Rejection (List Carved))
          → (count_answer (record c { seen = add64 c.seen 1 }) a >>= after_counters)
            ≡ (answer_program owner a >>= after_actions)
      answered (ok carved) = accepted_program carved
      answered (err e) = rejected_program
      answered panic = refl
      answered stuck = refl

-- A hit does to a consistent registry what its program does.
pub extract_hit-program :
    (r : Registry) (src : Source) (offset id : ℕ)
    → IsConsistent r
    → extract_hit r src offset id ≡ (
        hit_program r.extractors r.pattern_owner src offset id >>= λ (carved, actions).
        ok (carved, record r { counters = perform r.counters actions }))
unfolding extract_hit extract_owned hit_program perform
extract_hit-program r src offset id good = elim (Option-cases (get_elem? r.pattern_owner id)) [
  | inl unknown ↦ rw (unknown, extract_hit, hit_program) refl
  | inr (owner, known) ↦
      let (e, there) = get_elem?-lt r.extractors owner (good.owned id owner known) in
      let (c, here) =
        get_elem?-lt r.counters owner (omega (arith, good.counted, good.owned id owner known)) in
      rw
        (
          known,
          extract_hit,
          hit_program,
          index-ok {E = SourceError} r.extractors owner e there,
          index-ok {E = SourceError} r.counters owner c here,
        )
        (dispatch-program r owner c here
          (read_exact_at src offset (min e.max_structure_size (src.size - offset)))
          (e.extract offset))
]

programs-cons :
    (extractors : List Extractor) (owners : List ℕ) (src : Source) (offset id : ℕ)
    (hits : List (ℕ × ℕ)) (carved : List Carved) (actions : List Action) (more : List (List Carved))
    (threads : List (List Action))
    → hit_program extractors owners src offset id ≡ ok (carved, actions)
    → programs extractors owners src hits ≡ ok (more, threads)
    → programs extractors owners src ((offset, id) ∷ hits) ≡ ok (carved ∷ more, actions ∷ threads)
unfolding programs
programs-cons extractors owners src offset id hits carved actions more threads h k = rw (h, k)

pub extract_all-cons :
    (r r₁ r₂ : Registry) (src : Source) (offset id : ℕ) (hits : List (ℕ × ℕ)) (carved : List Carved)
    (more : List (List Carved))
    → extract_hit r src offset id ≡ ok (carved, r₁)
    → extract_all r₁ src hits ≡ ok (more, r₂)
    → extract_all r src ((offset, id) ∷ hits) ≡ ok (carved ∷ more, r₂)
unfolding extract_all
extract_all-cons r r₁ r₂ src offset id hits carved more h k = rw (h, k)

-- The hits one after the other leave a consistent registry with the counters that their programs
-- lead to.
pub programs-extract_all :
    {src : Source} {f : ℕ → ℕ} (serves : Serves src f) (r : Registry) (hits : List (ℕ × ℕ))
    → IsConsistent r
    → ((owner : ℕ) (e : Extractor) → get_elem? r.extractors owner ≡ some e → IsTotal e)
    → (carved : List (List Carved)) × (threads : List (List Action)) × (programs r.extractors
          r.pattern_owner src hits
        ≡ ok (carved, threads))
      × (extract_all r src hits
          ≡ ok (carved, record r { counters = perform r.counters (joined threads) }))
      × All IsBalanced (perform r.counters (joined threads))
unfolding programs extract_all perform
programs-extract_all serves r [] good total = ([], [], refl, refl, good.balanced)
programs-extract_all {src} serves r ((offset, id) ∷ hits) good total =
    let (carved, r', run, good', _, _, _) =
      extract_hit-IsConsistent serves r good total offset id in
    let whole = sym (extract_hit-program r src offset id good) ∙ run in
    let ((carved', actions), program, last) =
      >>=-eq-ok (hit_program r.extractors r.pattern_owner src offset id) _ whole in
    let r₁ : Registry = record r { counters = perform r.counters actions } in
    let same : r' ≡ r₁ = cc in
    let (more, threads, others, all, balanced) =
      programs-extract_all serves r₁ hits (subst IsConsistent same good') total in
    let first : extract_hit r src offset id ≡ ok (carved', r₁) = run ∙ sym last in
    (
      carved' ∷ more,
      actions ∷ threads,
      programs-cons r.extractors r.pattern_owner src offset id hits carved' actions more threads
          program others,
      extract_all-cons r r₁ _ src offset id hits carved' more first all
          ∙ ap (λ ds. ok (carved' ∷ more, record r { counters = ds }))
              (sym (perform-append r.counters actions (joined threads))),
      subst (All IsBalanced) (sym (perform-append r.counters actions (joined threads))) balanced,
    )

-- Over a source that serves its bytes, for a consistent registry whose extractors never panic, and
-- for any hits: they can all be dispatched, one after the other and by threads, with the same
-- artefacts for each hit; and if each hit is dispatched by a thread of its own, the threads can
-- come to an end, and in whatever order they make their atomic additions, once they all are done
-- the counters are those of dispatching the hits one after the other.
pub Steps-extract_all :
    {src : Source} {f : ℕ → ℕ} (serves : Serves src f) (r : Registry) (hits : List (ℕ × ℕ))
    → IsConsistent r
    → ((owner : ℕ) (e : Extractor) → get_elem? r.extractors owner ≡ some e → IsTotal e)
    → (carved : List (List Carved)) × (threads : List (List Action)) × (r' : Registry) × (programs
          r.extractors r.pattern_owner src hits
        ≡ ok (carved, threads))
      × (extract_all r src hits ≡ ok (carved, r'))
      × ((q : Pool) × Steps (record { threads = threads; counters = r.counters }) q × IsDone q)
      × ((q : Pool)
          → Steps (record { threads = threads; counters = r.counters }) q
          → IsDone q
          → q.counters ≡ r'.counters)
Steps-extract_all serves r hits good total =
    let (carved, threads, made, all, _) = programs-extract_all serves r hits good total in
    (
      carved,
      threads,
      record r { counters = perform r.counters (joined threads) },
      made,
      all,
      Steps-finish (record { threads = threads; counters = r.counters }),
      λ q steps done.
          Steps-IsDone (record { threads = threads; counters = r.counters }) q steps done,
    )
