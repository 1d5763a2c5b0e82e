-- ===== src/Carve/Registry/Dispatch.antt =====
-- What dispatching a hit does.
use latent_dfir.Common.{
  All-get, All-set, length-set, get_elem?-lt, lt-get_elem?, ℕ, suc, ◌-◌, ◌<◌, ◌≡◌, refl, ap, ◌∙◌,
  arith, min, some, none, List, [], ◌∷◌, map, Bytes, length, get_elem?, set, span, Outcome, ok, err,
  panic, stuck, Meets, add64, Option-cases, inl, inr, All,
}
use native.Mathlib.Decide.{dec_lt}
use latent_dfir.Source.{Source, SourceError, read_exact_at}
use latent_dfir.Source.Reads.{Serves, read_exact_at-span}
use latent_dfir.Carve.Extractor.{Extractor, Carved, Rejection}
use latent_dfir.Carve.Registry.{
  Counters, zero_counters, Registry, build, index, count_answer, dispatch, extract_owned,
  extract_hit,
}
use latent_dfir.Carve.Registry.Owners.{build-IsNumbering}

-- Every candidate was accepted or rejected.
abbrev pub IsBalanced : Counters → Type 0
IsBalanced c = add64 c.accepted c.rejected ≡ c.seen

-- A registry whose dispatch cannot go out of bounds, and whose counters add up.
pub record IsConsistent (r : Registry) : Type 0 where
  pub owned :
      (id owner : ℕ) → get_elem? (r.pattern_owner) id ≡ some owner → owner < length (r.extractors)
  pub counted : length r.counters ≡ length r.extractors
  pub balanced : All IsBalanced r.counters

-- The artefacts in an answer.
abbrev pub answered : Outcome Rejection (List Carved) → List Carved
answered (ok carved) = carved
answered _ = []

-- An extractor that never panics.
abbrev pub IsTotal : Extractor → Type 0
IsTotal e = (offset : ℕ) (buf : Bytes) → Meets (λ cs. Unit) (e.extract offset buf)

pub index-ok {ℓ} :
    {E : Type 0} {A : Type ℓ} (xs : List A) (i : ℕ) (x : A)
    → get_elem? xs i ≡ some x
    → index {E = E} xs i ≡ ok x
unfolding index
index-ok xs i x h = rw (h, index) refl

read_exact_at-nil : (src : Source) (offset : ℕ) → read_exact_at src offset 0 ≡ ok []
unfolding read_exact_at
read_exact_at-nil src offset = refl

-- One answer is counted once.
count_answer_lem :
    (c : Counters) (a : Outcome Rejection (List Carved))
    → Meets (λ cs. Unit) a
    → IsBalanced c
    → (c' : Counters) × (count_answer (record c { seen = add64 c.seen 1 }) a ≡ ok (answered a, c'))
      × IsBalanced c'
unfolding count_answer
count_answer_lem c (ok cs) h b = (_, refl, omega (arith, b))
count_answer_lem c (err e) h b = (_, refl, omega (arith, b))
count_answer_lem c panic h b = absurd h
count_answer_lem c stuck h b = absurd h

-- The counters of a fresh registry.
zero-IsBalanced : (es : List Extractor) → All IsBalanced (map (λ e. zero_counters) es)
zero-IsBalanced [] = tt
zero-IsBalanced (e ∷ es) = (refl, zero-IsBalanced es)

length-map_zero : (es : List Extractor) → length (map (λ e. zero_counters) es) ≡ length es
length-map_zero [] = refl
length-map_zero (e ∷ es) = ap suc (length-map_zero es)

-- A registry that has just been built is consistent.
pub build-IsConsistent : (es : List Extractor) → IsConsistent (build es)
unfolding build
build-IsConsistent es = record {
  owned = λ id owner h.
      let (e, s, j, p, q, t) = (build-IsNumbering es).owned id owner h in lt-get_elem? es owner e p;
  counted = length-map_zero es;
  balanced = zero-IsBalanced es;
}

module _ {src : Source} {f : ℕ → ℕ} (serves : Serves src f) (r : Registry)
    (good : IsConsistent r) where
  -- The bytes that an extractor gets to see of a candidate.
  abbrev pub window : Extractor → ℕ → Bytes
  window e offset = span f offset (min e.max_structure_size (src.size - offset))

  read_window :
      (e : Extractor) (offset : ℕ)
      → read_exact_at src offset (min e.max_structure_size (src.size - offset))
        ≡ ok (window e offset)
  read_window e offset = elim (dec_lt (src.size) offset) [
    | yes p ↦
        ap (λ n. read_exact_at src offset n) {y = 0} (omega arith)
        ∙ read_exact_at-nil src offset
        ∙ ap (λ n. ok (span f offset n)) {x = 0} (omega arith)
    | no p ↦
        read_exact_at-span serves offset (min e.max_structure_size (src.size - offset))
          (omega arith)
  ]

  counters_of :
      (owner : ℕ) (e : Extractor)
      → get_elem? (r.extractors) owner ≡ some e
      → (c : Counters) × (get_elem? (r.counters) owner ≡ some c)
  counters_of owner e h =
      get_elem?-lt (r.counters) owner
        (omega (arith, good.counted, lt-get_elem? (r.extractors) owner e h))

  owned-ok :
      (offset owner : ℕ) (e : Extractor)
      → get_elem? (r.extractors) owner ≡ some e
      → IsTotal e
      → (r' : Registry) × (extract_owned r src offset owner
          ≡ ok (answered (e.extract offset (window e offset)), r'))
        × (r'.extractors ≡ r.extractors)
        × IsConsistent r'
  unfolding extract_owned dispatch
  owned-ok offset owner e h t =
      let (c, at) = counters_of owner e h in
      let (c', counts, b) =
        count_answer_lem c (e.extract offset (window e offset)) (t offset (window e offset))
          (All-get IsBalanced (r.counters) owner c (good.balanced) at) in
      (
        record r { counters = set (r.counters) owner c' },
        rw
            (
              index-ok {E = SourceError} (r.extractors) owner e h,
              index-ok {E = SourceError} (r.counters) owner c at,
              read_window e offset,
              counts,
            )
            refl,
        refl,
        record {
          owned = good.owned;
          counted = length-set (r.counters) owner c' ∙ good.counted;
          balanced = All-set IsBalanced (r.counters) owner c' (good.balanced) b;
        },
      )

-- Over a source that serves its bytes, a hit of any pattern id at any offset never panics and never
-- fails, provided no extractor panics: a hit of an unknown pattern changes nothing; for a known one
-- the owner sees the bytes from the offset on, as many as it declares or as the source still has,
-- its artefacts are returned (none, if it rejects), and the registry stays consistent: each counted
-- candidate is either accepted or rejected.
pub extract_hit-IsConsistent :
    {src : Source} {f : ℕ → ℕ} (serves : Serves src f) (r : Registry)
    → IsConsistent r
    → ((owner : ℕ) (e : Extractor) → get_elem? (r.extractors) owner ≡ some e → IsTotal e)
    → (offset id : ℕ)
    → (cs : List Carved) × (r' : Registry) × (extract_hit r src offset id ≡ ok (cs, r'))
      × IsConsistent r'
      × (r'.extractors ≡ r.extractors)
      × (get_elem? (r.pattern_owner) id ≡ none → (cs ≡ []) × (r' ≡ r))
      × ((owner : ℕ) (e : Extractor)
          → get_elem? (r.pattern_owner) id ≡ some owner
          → get_elem? (r.extractors) owner ≡ some e
          → cs
            ≡ answered
                (e.extract offset (span f offset (min e.max_structure_size (src.size - offset)))))
unfolding extract_hit
extract_hit-IsConsistent {src} {f} serves r good total offset id =
    elim (Option-cases (get_elem? (r.pattern_owner) id)) [
      | inl h ↦ (
        [],
        r,
        rw (h, extract_hit) refl,
        good,
        refl,
        λ _. (refl, refl),
        λ owner e g p. absurd (cc),
      )
      | inr (owner, h) ↦
          let (e, at) = get_elem?-lt (r.extractors) owner (good.owned id owner h) in
          let (r', eq, same, good') = owned-ok serves r good offset owner e at (total owner e at) in
          (
            answered (e.extract offset (window serves r good e offset)),
            r',
            rw (h, extract_hit) eq,
            good',
            same,
            λ g. absurd (cc),
            λ owner' e' g p.
                let o : owner ≡ owner' = cc in
                let x : e ≡ e' = cc in
                ap (λ e. answered (e.extract offset (window serves r good e offset))) x,
          )
    ]
