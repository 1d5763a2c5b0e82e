-- ===== src/Carve/Registry/Pending.antt =====
-- The counters of latent-carve/src/registry.rs at a moment while threads dispatch hits: what is
-- still to be counted.
use latent_dfir.Common.{
  ℕ, zero, suc, ◌+◌, ◌≡◌, refl, sym, subst, ap, ◌∙◌, arith, Bool-cases, false, inl, inr, ==_iff,
  some, List, [], ◌∷◌, ok, All, All-get, get_elem?, add64, ◌==◌, if◌then◌else◌,
}
use latent_dfir.Source.{Source}
use latent_dfir.Source.Reads.{Serves}
use latent_dfir.Carve.Extractor.{Extractor, Carved}
use latent_dfir.Carve.Registry.{Counters, Registry}
use latent_dfir.Carve.Registry.Dispatch.{IsBalanced, IsConsistent, IsTotal}
use latent_dfir.Carve.Registry.Workers.{
  Addition, seen_one, accepted_one, rejected_one, emitted_more, fetch_add, Action, add_at, perform,
  programs, Pool, Steps,
}
use latent_dfir.Carve.Registry.Additions.{joined, outcome, Steps-outcome}
use latent_dfir.Carve.Registry.Interleaved.{programs-extract_all}

abbrev one_seen : Addition → ℕ
one_seen seen_one = 1
one_seen _ = 0

abbrev one_answer : Addition → ℕ
one_answer accepted_one = 1
one_answer rejected_one = 1
one_answer _ = 0

-- How many candidates of an extractor are still to be counted as seen, and as accepted or rejected.
abbrev still : (Addition → ℕ) → ℕ → List Action → ℕ
still count owner [] = 0
still count owner ((o, a) ∷ more) = (if o == owner then count a else 0) + still count owner more

abbrev pub seens : ℕ → List Action → ℕ
seens = still one_seen

abbrev pub answers : ℕ → List Action → ℕ
answers = still one_answer

-- With what is still to come, the counters of the extractor add up.
abbrev IsOwed : ℕ → List Counters → List Action → Type 0
IsOwed owner cs actions =
    (c : Counters)
    → get_elem? cs owner ≡ some c
    → add64 (add64 c.accepted c.rejected) (answers owner actions)
      ≡ add64 c.seen (seens owner actions)

add_at-get_same :
    (cs : List Counters) (i : ℕ) (a : Addition) (c : Counters)
    → get_elem? cs i ≡ some c
    → get_elem? (add_at cs i a) i ≡ some (fetch_add a c)
unfolding add_at
add_at-get_same [] i a c h = absurd (cc)
add_at-get_same (d ∷ cs) zero a c h = let e : d ≡ c = cc in ap (λ x. some (fetch_add a x)) e
add_at-get_same (d ∷ cs) (suc i) a c h = add_at-get_same cs i a c h

add_at-get_other :
    (cs : List Counters) (i j : ℕ) (a : Addition)
    → (i == j) ≡ false
    → get_elem? (add_at cs i a) j ≡ get_elem? cs j
unfolding add_at
add_at-get_other [] i j a h = refl
add_at-get_other (d ∷ cs) zero zero a h = absurd (cc)
add_at-get_other (d ∷ cs) zero (suc j) a h = refl
add_at-get_other (d ∷ cs) (suc i) zero a h = refl
add_at-get_other (d ∷ cs) (suc i) (suc j) a h = add_at-get_other cs i j a (ground arith)

fetch_add-owed :
    (a : Addition) (c : Counters) (n m : ℕ)
    → add64 (add64 (fetch_add a c).accepted (fetch_add a c).rejected) n
      ≡ add64 (fetch_add a c).seen m
    → add64 (add64 c.accepted c.rejected) (one_answer a + n) ≡ add64 c.seen (one_seen a + m)
unfolding fetch_add
fetch_add-owed seen_one c n m h = omega (arith, h)
fetch_add-owed accepted_one c n m h = omega (arith, h)
fetch_add-owed rejected_one c n m h = omega (arith, h)
fetch_add-owed (emitted_more k) c n m h = omega (arith, h)

perform-IsOwed :
    (owner : ℕ) (actions : List Action) (cs : List Counters)
    → IsOwed owner (perform cs actions) []
    → IsOwed owner cs actions
unfolding perform
perform-IsOwed owner [] cs h c here = h c here
perform-IsOwed owner ((o, a) ∷ more) cs h c here =
    let later = perform-IsOwed owner more (add_at cs o a) h in
    elim (Bool-cases (o == owner)) [
      | inl mine ↦
          let same : o ≡ owner = (==_iff o owner).0 mine in
          rw mine (
            fetch_add-owed a c (answers owner more) (seens owner more) (
              later (fetch_add a c) (
                subst (λ k. get_elem? (add_at cs k a) owner ≡ some (fetch_add a c)) (sym same)
                  (add_at-get_same cs owner a c here))))
      | inr other ↦ rw other (omega (arith, later c (add_at-get_other cs o owner a other ∙ here)))
    ]

All-IsOwed : (owner : ℕ) (cs : List Counters) → All IsBalanced cs → IsOwed owner cs []
All-IsOwed owner cs balanced c here =
    ap (λ n. add64 n 0) (All-get IsBalanced cs owner c balanced here)

-- Over a source that serves its bytes, for a consistent registry whose extractors never panic, and
-- hits that are each dispatched by a thread of its own: at every moment, in whatever order the
-- threads have made their atomic additions so far, what an extractor has accepted and rejected,
-- with the answers the threads have still to count for it, is what it has seen, with the candidates
-- they have still to count, as 64-bit numbers.
pub Steps-pending :
    {src : Source} {f : ℕ → ℕ} (serves : Serves src f) (r : Registry) (hits : List (ℕ × ℕ))
    (carved : List (List Carved)) (threads : List (List Action)) (q : Pool) (owner : ℕ)
    (c : Counters)
    → IsConsistent r
    → ((owner : ℕ) (e : Extractor) → get_elem? r.extractors owner ≡ some e → IsTotal e)
    → programs r.extractors r.pattern_owner src hits ≡ ok (carved, threads)
    → Steps (record { threads = threads; counters = r.counters }) q
    → get_elem? q.counters owner ≡ some c
    → add64 (add64 c.accepted c.rejected) (answers owner (joined q.threads))
      ≡ add64 c.seen (seens owner (joined q.threads))
Steps-pending serves r hits carved threads q owner c good total run steps here =
    let (_, threads', made, _, balanced) = programs-extract_all serves r hits good total in
    let same : threads' ≡ threads = cc in
    let ends : All IsBalanced (perform r.counters (joined threads)) =
      subst (λ ts. All IsBalanced (perform r.counters (joined ts))) same balanced in
    let settled =
      subst (All IsBalanced)
        (Steps-outcome (record { threads = threads; counters = r.counters }) q steps) ends in
    perform-IsOwed owner (joined q.threads) q.counters (All-IsOwed owner (outcome q) settled) c here
