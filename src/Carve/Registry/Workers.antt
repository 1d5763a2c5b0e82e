-- ===== src/Carve/Registry/Workers.antt =====
-- latent-carve/src/registry.rs: dispatch as worker threads run it, who share the registry. What a
-- thread does to the counters is a list of atomic additions, and another thread may come between
-- any two of them.
use latent_dfir.Common.{
  ℕ, zero, suc, ◌-◌, min, none, some, List, [], ◌∷◌, ◌++◌, Bytes, Outcome, ok, err, panic, stuck,
  ◌>>=◌, add64, length, get_elem?, All, ◌≡◌,
}
use latent_dfir.Source.{Source, SourceError, read_exact_at}
use latent_dfir.Carve.Extractor.{Extractor, Carved, Rejection}
use latent_dfir.Carve.Registry.{Counters, Registry, index, extract_hit}

-- The calls of `fetch_add`.
pub data Addition : Type 0 where
  seen_one accepted_one rejected_one : Addition
  emitted_more : ℕ → Addition

unfoldable pub fetch_add : Addition → Counters → Counters
fetch_add seen_one c = record c { seen = add64 c.seen 1 }
fetch_add accepted_one c = record c { accepted = add64 c.accepted 1 }
fetch_add rejected_one c = record c { rejected = add64 c.rejected 1 }
fetch_add (emitted_more n) c = record c { emitted = add64 c.emitted n }

-- An addition to the counters of an extractor.
abbrev pub Action : Type 0
Action = ℕ × Addition

unfoldable pub add_at : List Counters → ℕ → Addition → List Counters
unfolding fetch_add
add_at [] owner a = []
add_at (c ∷ cs) zero a = fetch_add a c ∷ cs
add_at (c ∷ cs) (suc owner) a = c ∷ add_at cs owner a

unfoldable pub perform : List Counters → List Action → List Counters
unfolding add_at
perform cs [] = cs
perform cs ((owner, a) ∷ more) = perform (add_at cs owner a) more

abbrev pub Program : Type 0
Program = List Carved × List Action

-- What `extract_hit` returns, and what it does to the counters on the way. It does not look at them.
unfoldable pub answer_program : ℕ → Outcome Rejection (List Carved) → Outcome SourceError Program
answer_program owner (ok carved) =
    ok (
      carved,
      (owner, seen_one) ∷ (owner, accepted_one) ∷ (owner, emitted_more (length carved)) ∷ [],
    )
answer_program owner (err rejection) = ok ([], (owner, seen_one) ∷ (owner, rejected_one) ∷ [])
answer_program owner panic = panic
answer_program owner stuck = stuck

unfoldable pub read_program :
    ℕ
    → Outcome SourceError Bytes
    → (Bytes → Outcome Rejection (List Carved))
    → Outcome SourceError Program
unfolding answer_program
read_program owner (ok buf) extract = answer_program owner (extract buf)
read_program owner (err e) extract = ok ([], (owner, seen_one) ∷ (owner, rejected_one) ∷ [])
read_program owner panic extract = panic
read_program owner stuck extract = stuck

unfoldable pub hit_program : List Extractor → List ℕ → Source → ℕ → ℕ → Outcome SourceError Program
unfolding read_program
hit_program extractors owners src offset id = elim (get_elem? owners id) [
  | none ↦ ok ([], [])
  | some owner ↦ do
    extractor ← index extractors owner
    let want = min extractor.max_structure_size (src.size - offset)
    read_program owner (read_exact_at src offset want) (extractor.extract offset)
]

-- The hits one after the other, and the programs of the hits.
unfoldable pub extract_all :
    Registry → Source → List (ℕ × ℕ) → Outcome SourceError (List (List Carved) × Registry)
extract_all r src [] = ok ([], r)
extract_all r src ((offset, id) ∷ hits) = do
  (carved, r') ← extract_hit r src offset id
  (more, r'') ← extract_all r' src hits
  ok (carved ∷ more, r'')

unfoldable pub programs :
    List Extractor
    → List ℕ
    → Source
    → List (ℕ × ℕ)
    → Outcome SourceError (List (List Carved) × List (List Action))
unfolding hit_program
programs extractors owners src [] = ok ([], [])
programs extractors owners src ((offset, id) ∷ hits) = do
  (carved, actions) ← hit_program extractors owners src offset id
  (more, others) ← programs extractors owners src hits
  ok (carved ∷ more, actions ∷ others)

-- What the threads have still to do, and the counters.
pub record Pool : Type 0 where
  pub threads : List (List Action)
  pub counters : List Counters

-- One thread makes its next addition.
pub data Step : Pool → Pool → Type 0 where
  one :
      (front back : List (List Action)) (owner : ℕ) (a : Addition) (rest : List Action)
      (cs : List Counters)
      → Step
          (record { threads = front ++ ((owner, a) ∷ rest) ∷ back; counters = cs })
          (record { threads = front ++ rest ∷ back; counters = add_at cs owner a })

pub data Steps (p : Pool) : Pool → Type 0 where
  start : Steps p p
  then : {q r : Pool} → Steps p q → Step q r → Steps p r

abbrev pub IsDone : Pool → Type 0
IsDone p = All (λ actions. actions ≡ []) p.threads
