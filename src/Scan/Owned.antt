-- ===== src/Scan/Owned.antt =====
-- The hits that a block keeps.
use latent_dfir.Common.{
  ℕ, zero, suc, ◌+◌, ◌-◌, ◌≤◌, ◌<◌, ◌≡◌, refl, sym, ap, ap₂, subst, ◌∙◌, arith, min, Bool-cases,
  ◌⊎◌, inl, inr, List, [], ◌∷◌, ◌++◌, All, Bytes, span, map, length, ltb, lt→ltb, le→ltb, add64,
  add64-exact, u64_mod,
}
use latent_dfir.Scan.{Match, keep_owned}
use latent_dfir.Scan.Reference.{ids, ids-span, match_of, hit_of, occurrences, hits_in}
use native.Mathlib.Decide.{dec_le}

module _ (start owned : ℕ) where
  keep_owned-append :
      (ms ns : List Match)
      → keep_owned start owned (ms ++ ns) ≡ keep_owned start owned ms ++ keep_owned start owned ns
  unfolding keep_owned
  keep_owned-append [] ns = refl
  keep_owned-append (m ∷ ms) ns = elim (Bool-cases (ltb m.start owned)) [
    | inl t ↦ rw t (
        ap (λ l. record { offset = add64 start m.start; pattern_id = m.pattern } ∷ l)
          (keep_owned-append ms ns))
    | inr t ↦ rw t (keep_owned-append ms ns)
  ]

  -- The matches of one offset are kept together, or dropped together.
  keep_owned-map :
      (o : ℕ) (is : List ℕ)
      → o < owned
      → start + o < u64_mod
      → keep_owned start owned (map (match_of o) is) ≡ map (hit_of (start + o)) is
  unfolding keep_owned
  keep_owned-map o [] h w = refl
  keep_owned-map o (i ∷ is) h w =
      rw (lt→ltb o owned h, add64-exact start o w)
        (ap (λ l. hit_of (start + o) i ∷ l) (keep_owned-map o is h w))

  keep_owned-map_past :
      (o : ℕ) (is : List ℕ) → owned ≤ o → keep_owned start owned (map (match_of o) is) ≡ []
  unfolding keep_owned
  keep_owned-map_past o [] h = refl
  keep_owned-map_past o (i ∷ is) h = rw (le→ltb o owned h) (keep_owned-map_past o is h)

  keep_owned_past :
      (patterns : List Bytes) (o : ℕ) (text : Bytes)
      → owned ≤ o
      → keep_owned start owned (occurrences patterns o text) ≡ []
  unfolding occurrences
  keep_owned_past patterns o [] h = keep_owned-map_past o _ h
  keep_owned_past patterns o (b ∷ bs) h =
      keep_owned-append (map (match_of o) (ids 0 patterns (b ∷ bs)))
        (occurrences patterns (suc o) bs)
      ∙ rw (keep_owned-map_past o _ h) (keep_owned_past patterns (suc o) bs (omega arith))

-- The bytes seen from the last owned offset on hold every pattern whole, or reach the source's end.
abbrev pub Sees : List Bytes → ℕ → ℕ → ℕ → Type 0
Sees patterns seen_end size owned_end =
    (seen_end ≡ size) ⊎ (All (λ p. length p + owned_end ≤ seen_end + 1) patterns)

All-length-le :
    (m n : ℕ) (ps : List Bytes)
    → All (λ p. length p + m ≤ n + 1) ps
    → (k : ℕ) → n + 1 ≤ m + k
    → All (λ p. length p ≤ k) ps
All-length-le m n [] a k h = tt
All-length-le m n (p ∷ ps) (a, rest) k h = (omega arith, All-length-le m n ps rest k h)

module _ (patterns : List Bytes) (f : ℕ → ℕ) (size : ℕ) (small : size < u64_mod) where
  ids_here :
      (a m end : ℕ)
      → a + m ≤ size
      → a < end
      → Sees patterns (a + m) size end
      → ids 0 patterns (span f a m) ≡ ids 0 patterns (span f a (size - a))
  ids_here a m end h k (inl e) = ap (λ n. ids 0 patterns (span f a n)) (omega arith)
  ids_here a m end h k (inr fits) =
      ids-span f 0 patterns a m (size - a) (All-length-le end (a + m) patterns fits m (omega arith))
        (All-length-le end (a + m) patterns fits (size - a) (omega arith))

  pub keep_owned-occurrences :
      (start owned o k m a : ℕ)
      → o + k ≡ owned
      → k ≤ m
      → a ≡ start + o
      → a + m ≤ size
      → Sees patterns (a + m) size (start + owned)
      → keep_owned start owned (occurrences patterns o (span f a m)) ≡ hits_in patterns f size a k
  unfolding occurrences hits_in
  keep_owned-occurrences start owned o zero m a e h g w sees =
      keep_owned_past start owned patterns o (span f a m) (omega arith)
  keep_owned-occurrences start owned o (suc k) zero a e h g w sees = absurd (omega arith)
  keep_owned-occurrences start owned o (suc k) (suc m) a e h g w sees =
      keep_owned-append start owned (map (match_of o) (ids 0 patterns (span f a (suc m))))
        (occurrences patterns (suc o) (span f (suc a) m))
      ∙ ap₂ ◌++◌
          (keep_owned-map start owned o _ (omega arith) (omega arith)
            ∙ ap₂ (λ x l. map (hit_of x) l) (sym g)
                (ids_here a (suc m) (start + owned) w (omega arith) sees))
          (keep_owned-occurrences start owned (suc o) k m (suc a) (omega arith) (omega arith)
            (omega arith) (omega arith)
            (subst (λ z. Sees patterns z size (start + owned)) {x = a + suc m} (omega arith) sees))

All-length-add :
    (n m k : ℕ) (ps : List Bytes)
    → n + m ≤ k
    → All (λ p. length p ≤ n + 1) ps
    → All (λ p. length p + m ≤ k + 1) ps
All-length-add n m k [] h a = tt
All-length-add n m k (p ∷ ps) h (a, rest) = (omega arith, All-length-add n m k ps h rest)

pub overlap-Sees :
    (patterns : List Bytes) (end overlap size : ℕ)
    → All (λ p. length p ≤ overlap + 1) patterns
    → Sees patterns (min (end + overlap) size) size end
overlap-Sees patterns end overlap size wide = elim (dec_le size (end + overlap)) [
  | yes h ↦ inl (omega arith)
  | no h ↦ inr (All-length-add overlap end (min (end + overlap) size) patterns (omega arith) wide)
]
