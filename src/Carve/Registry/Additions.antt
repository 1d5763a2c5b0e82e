-- ===== src/Carve/Registry/Additions.antt =====
-- The atomic additions of several threads commute, so their order does not matter.
use latent_dfir.Common.{
  ℕ, zero, suc, ◌≡◌, refl, sym, ap, ◌∙◌, arith, some, List, [], ◌∷◌, ◌++◌, add64, get_elem?, set,
  All,
}
use latent_dfir.Carve.Registry.{Counters}
use latent_dfir.Carve.Registry.Workers.{
  Addition, seen_one, accepted_one, rejected_one, emitted_more, fetch_add, Action, add_at, perform,
  Pool, Step, one, Steps, start, then, IsDone,
}

fetch_add_comm :
    (a b : Addition) (c : Counters) → fetch_add a (fetch_add b c) ≡ fetch_add b (fetch_add a c)
unfolding fetch_add
fetch_add_comm (emitted_more n) (emitted_more k) c =
    ap (λ e. record c { emitted = e }) {x = add64 (add64 c.emitted k) n}
      {y = add64 (add64 c.emitted n) k} (omega arith)
fetch_add_comm (emitted_more n) _ c = refl
fetch_add_comm seen_one seen_one c = refl
fetch_add_comm seen_one _ c = refl
fetch_add_comm accepted_one accepted_one c = refl
fetch_add_comm accepted_one _ c = refl
fetch_add_comm rejected_one rejected_one c = refl
fetch_add_comm rejected_one _ c = refl

add_at_comm :
    (cs : List Counters) (i j : ℕ) (a b : Addition)
    → add_at (add_at cs i a) j b ≡ add_at (add_at cs j b) i a
unfolding add_at
add_at_comm [] i j a b = refl
add_at_comm (c ∷ cs) zero zero a b = ap (λ d. d ∷ cs) (fetch_add_comm b a c)
add_at_comm (c ∷ cs) zero (suc j) a b = refl
add_at_comm (c ∷ cs) (suc i) zero a b = refl
add_at_comm (c ∷ cs) (suc i) (suc j) a b = ap (λ ds. c ∷ ds) (add_at_comm cs i j a b)

perform-add_at :
    (cs : List Counters) (i : ℕ) (a : Addition) (actions : List Action)
    → perform (add_at cs i a) actions ≡ add_at (perform cs actions) i a
unfolding perform
perform-add_at cs i a [] = refl
perform-add_at cs i a ((j, b) ∷ more) =
    ap (λ ds. perform ds more) (add_at_comm cs i j a b) ∙ perform-add_at (add_at cs j b) i a more

pub perform-append :
    (cs : List Counters) (xs ys : List Action) → perform cs (xs ++ ys) ≡ perform (perform cs xs) ys
unfolding perform
perform-append cs [] ys = refl
perform-append cs ((j, b) ∷ xs) ys = perform-append (add_at cs j b) xs ys

-- What all the threads have still to do, one thread after the other.
abbrev pub joined : List (List Action) → List Action
joined [] = []
joined (actions ∷ threads) = actions ++ joined threads

-- The next addition of any thread can come first.
perform-joined :
    (cs : List Counters) (front back : List (List Action)) (i : ℕ) (a : Addition)
    (rest : List Action)
    → perform cs (joined (front ++ ((i, a) ∷ rest) ∷ back))
      ≡ perform (add_at cs i a) (joined (front ++ rest ∷ back))
unfolding perform
perform-joined cs [] back i a rest = refl
perform-joined cs (p ∷ front) back i a rest =
    perform-append cs p (joined (front ++ ((i, a) ∷ rest) ∷ back))
    ∙ perform-joined (perform cs p) front back i a rest
    ∙ ap (λ ds. perform ds (joined (front ++ rest ∷ back))) (sym (perform-add_at cs i a p))
    ∙ sym (perform-append (add_at cs i a) p (joined (front ++ rest ∷ back)))

-- What the counters will be when all is done.
abbrev pub outcome : Pool → List Counters
outcome p = perform p.counters (joined p.threads)

Step-outcome : (p q : Pool) → Step p q → outcome p ≡ outcome q
Step-outcome _ _ (one front back i a rest cs) = perform-joined cs front back i a rest

pub Steps-outcome : (p q : Pool) → Steps p q → outcome p ≡ outcome q
Steps-outcome p _ start = refl
Steps-outcome p r (then {q} before step) = Steps-outcome p q before ∙ Step-outcome q r step

joined-nil :
    (threads : List (List Action)) → All (λ actions. actions ≡ []) threads → joined threads ≡ []
joined-nil [] h = refl
joined-nil (actions ∷ threads) (e, h) = rw (e) (joined-nil threads h)

-- However the threads take turns, they end with the counters of one thread after the other.
pub Steps-IsDone : (p q : Pool) → Steps p q → IsDone q → q.counters ≡ outcome p
unfolding perform
Steps-IsDone p q steps done =
    sym (Steps-outcome p q steps ∙ ap (perform q.counters) (joined-nil q.threads done))

pub add_at-set :
    (cs : List Counters) (i : ℕ) (c : Counters) (a : Addition)
    → add_at (set cs i c) i a ≡ set cs i (fetch_add a c)
unfolding add_at
add_at-set [] i c a = refl
add_at-set (d ∷ cs) zero c a = refl
add_at-set (d ∷ cs) (suc i) c a = ap (λ ds. d ∷ ds) (add_at-set cs i c a)

pub add_at-get :
    (cs : List Counters) (i : ℕ) (c : Counters) (a : Addition)
    → get_elem? cs i ≡ some c
    → add_at cs i a ≡ set cs i (fetch_add a c)
unfolding add_at
add_at-get [] i c a h = refl
add_at-get (d ∷ cs) zero c a h = let e : d ≡ c = cc in rw e
add_at-get (d ∷ cs) (suc i) c a h = ap (λ ds. d ∷ ds) (add_at-get cs i c a h)
