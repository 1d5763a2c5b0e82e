-- ===== src/Scan/Occurrences.antt =====
-- Each occurrence of a pattern is among the hits.
use latent_dfir.Common.{
  ℕ, zero, suc, ◌+◌, ◌-◌, ◌≤◌, ◌<◌, ◌≡◌, sym, subst, ap, ◌∙◌, ◌++◌, arith, true, some, List, [],
  ◌∷◌, Bytes, starts_with, span, map, get_elem?, Among, Among-map, Among-append_left,
  Among-append_right, Bool-cases, inl, inr,
}
use latent_dfir.Scan.Reference.{ids, hit_of, hits_in}
use native.Mathlib.Decide.{ℕ_discrete}

-- The number of a pattern that the text begins with is among those found.
ids-Among :
    (i : ℕ) (ps : List Bytes) (text : Bytes) (j : ℕ) (p : Bytes)
    → get_elem? ps j ≡ some p
    → starts_with text p ≡ true
    → Among (i + j) (ids i ps text)
unfolding ids
ids-Among i [] text j p at begins = absurd (cc)
ids-Among i (q ∷ ps) text zero p at begins =
    let same : q ≡ p = cc in rw (same, begins) (0, ap some (omega arith))
ids-Among i (q ∷ ps) text (suc j) p at begins =
    let (k, there) = ids-Among (suc i) ps text j p at begins in
    elim (Bool-cases (starts_with text q)) [
      | inl t ↦ rw t (suc k, there ∙ ap some (omega arith))
      | inr t ↦ rw t (k, there ∙ ap some (omega arith))
    ]

hits_here :
    (patterns : List Bytes) (f : ℕ → ℕ) (size o j : ℕ) (p : Bytes)
    → get_elem? patterns j ≡ some p
    → starts_with (span f o (size - o)) p ≡ true
    → Among (hit_of o j) (map (hit_of o) (ids 0 patterns (span f o (size - o))))
hits_here patterns f size o j p at begins =
    let text = span f o (size - o) in
    Among-map (hit_of o) (ids 0 patterns text) j (
      subst (λ k. Among k (ids 0 patterns text)) {x = 0 + j} (omega arith)
        (ids-Among 0 patterns text j p at begins))

pub hits_in-Among :
    (patterns : List Bytes) (f : ℕ → ℕ) (size o n offset j : ℕ) (p : Bytes)
    → o ≤ offset
    → offset < o + n
    → get_elem? patterns j ≡ some p
    → starts_with (span f offset (size - offset)) p ≡ true
    → Among (hit_of offset j) (hits_in patterns f size o n)
unfolding hits_in
hits_in-Among patterns f size o zero offset j p lo hi at begins = absurd (omega arith)
hits_in-Among patterns f size o (suc n) offset j p lo hi at begins = elim (ℕ_discrete o offset) [
  | yes same ↦
      let begins' = subst (λ x. starts_with (span f x (size - x)) p ≡ true) (sym same) begins in
      let text = span f o (size - o) in
      subst
        (λ x.
          Among (hit_of x j)
            (map (hit_of o) (ids 0 patterns text) ++ hits_in patterns f size (suc o) n))
        same
        (Among-append_left (map (hit_of o) (ids 0 patterns text)) _ (hit_of o j)
          (hits_here patterns f size o j p at begins'))
  | no other ↦
      Among-append_right _ _ _
        (hits_in-Among patterns f size (suc o) n offset j p (omega arith) (omega arith) at begins)
]
