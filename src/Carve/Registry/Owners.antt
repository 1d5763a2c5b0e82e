-- ===== src/Carve/Registry/Owners.antt =====
-- The numbering of signatures that `build` makes.
use latent_dfir.Common.{
  left, right, get_elem?-append, get_elem?-append_right, get_elem?-append_left, get_elem?-map_const,
  get_elem?-const, length-map_const, ℕ, zero, suc, ◌+◌, ◌≡◌, refl, sym, ap, ◌∙◌, arith, some, List,
  [], ◌∷◌, ◌++◌, map, Bytes, length, get_elem?, length-append,
}
use mathlib.Core.List.{append_assoc}
use mathlib.Core.Path.{subst}
use latent_dfir.Carve.Extractor.{Extractor}
use latent_dfir.Carve.Registry.{Registry, flat_patterns, flat_owners, register, build}

-- The index `owner` names an extractor, and the signature with the number `id` is one of its own.
abbrev pub Owns : List Extractor → List Bytes → ℕ → ℕ → Type 0
Owns extractors patterns id owner =
    (e : Extractor) × (s : Bytes) × (j : ℕ) × (get_elem? extractors owner ≡ some e)
    × (get_elem? patterns id ≡ some s)
    × (get_elem? e.signatures j ≡ some s)

-- The loop from extractor number `index` on.
flat-Owns :
    (es : List Extractor) (index id owner : ℕ)
    → get_elem? (flat_owners index es) id ≡ some owner
    → (k : ℕ) × (owner ≡ index + k) × Owns es (flat_patterns es) id k
unfolding flat_owners flat_patterns
flat-Owns [] index id owner h = absurd (cc)
flat-Owns (e ∷ es) index id owner h =
    elim (get_elem?-append (map (λ s. index) (e.signatures)) (flat_owners (suc index) es) id owner
      h) [
        | left g ↦
            let (s, at, same) = get_elem?-map_const index (e.signatures) id owner g in
            (
              0,
              omega (arith, same),
              (e, s, id, refl, get_elem?-append_left (e.signatures) (flat_patterns es) id s at, at),
            )
        | right j here g ↦
            let (k, same, (x, s, i, p, q, t)) = flat-Owns es (suc index) j owner g in
            let shift : id ≡ length (e.signatures) + j =
              omega (arith, here, length-map_const index (e.signatures)) in
            (
              suc k,
              omega (arith, same),
              (
                x,
                s,
                i,
                p,
                ap (get_elem? (e.signatures ++ flat_patterns es)) shift
                    ∙ get_elem?-append_right (e.signatures) (flat_patterns es) j
                    ∙ q,
                t,
              ),
            )
      ]

length-flat :
    (es : List Extractor) (index : ℕ) → length (flat_owners index es) ≡ length (flat_patterns es)
unfolding flat_owners flat_patterns
length-flat [] index = refl
length-flat (e ∷ es) index = omega (
  arith,
  length-append (map (λ s. index) (e.signatures)) (flat_owners (suc index) es),
  length-append (e.signatures) (flat_patterns es),
  length-map_const index (e.signatures),
  length-flat es (suc index),
)

-- Each signature is numbered, under the index of its extractor.
flat_covers :
    (es : List Extractor) (index k j : ℕ) (e : Extractor) (s : Bytes)
    → get_elem? es k ≡ some e
    → get_elem? e.signatures j ≡ some s
    → (id : ℕ) × (get_elem? (flat_owners index es) id ≡ some (index + k))
      × (get_elem? (flat_patterns es) id ≡ some s)
unfolding flat_owners flat_patterns
flat_covers [] index k j e s h g = absurd (cc)
flat_covers (x ∷ es) index zero j e s h g =
    let same : e.signatures ≡ x.signatures = cc in
    (
      j,
      get_elem?-append_left (map (λ s. index) (x.signatures)) (flat_owners (suc index) es) j
          (index + 0)
          (get_elem?-const index (x.signatures) j s (ap (λ l. get_elem? l j) (sym same) ∙ g)
            ∙ ap some {y = index + 0} (omega arith)),
      get_elem?-append_left (x.signatures) (flat_patterns es) j s
          (ap (λ l. get_elem? l j) (sym same) ∙ g),
    )
flat_covers (x ∷ es) index (suc k) j e s h g =
    let (id, p, q) = flat_covers es (suc index) k j e s h g in
    (
      length (x.signatures) + id,
      ap (λ n. get_elem? (map (λ s. index) (x.signatures) ++ flat_owners (suc index) es) (n + id))
            (sym (length-map_const index (x.signatures)))
          ∙ get_elem?-append_right (map (λ s. index) (x.signatures)) (flat_owners (suc index) es) id
          ∙ p
          ∙ ap some {y = index + suc k} (omega arith),
      get_elem?-append_right (x.signatures) (flat_patterns es) id ∙ q,
    )

flat_patterns-append :
    (es fs : List Extractor) → flat_patterns (es ++ fs) ≡ flat_patterns es ++ flat_patterns fs
unfolding flat_patterns
flat_patterns-append [] fs = refl
flat_patterns-append (e ∷ es) fs =
    ap (λ l. e.signatures ++ l) (flat_patterns-append es fs)
    ∙ sym (append_assoc (e.signatures) (flat_patterns es) (flat_patterns fs))

flat_owners-append :
    (es fs : List Extractor) (index : ℕ)
    → flat_owners index (es ++ fs) ≡ flat_owners index es ++ flat_owners (index + length es) fs
unfolding flat_owners
flat_owners-append [] fs index = ap (λ n. flat_owners n fs) {y = index + 0} (omega arith)
flat_owners-append (e ∷ es) fs index =
    ap (λ l. map (λ s. index) (e.signatures) ++ l)
      (flat_owners-append es fs (suc index)
        ∙ ap (λ n. flat_owners (suc index) es ++ flat_owners n fs) {y = index + suc (length es)}
            (omega arith))
    ∙ sym (
        append_assoc (map (λ s. index) (e.signatures)) (flat_owners (suc index) es)
          (flat_owners (index + suc (length es)) fs))

-- What the pattern ids of a registry mean.
pub record IsNumbering (r : Registry) : Type 0 where
  -- A pattern id with an owner is the number of a signature that the owner advertises.
  pub owned :
      (id owner : ℕ)
      → get_elem? (r.pattern_owner) id ≡ some owner
      → Owns r.extractors r.patterns id owner
  -- The owners are as many as the patterns handed to the scan engine.
  pub aligned : length r.pattern_owner ≡ length r.patterns
  -- No signature of any extractor is lost.
  pub complete :
      (k j : ℕ) (e : Extractor) (s : Bytes)
      → get_elem? (r.extractors) k ≡ some e
      → get_elem? (e.signatures) j ≡ some s
      → (id : ℕ) × (get_elem? (r.pattern_owner) id ≡ some k) × (get_elem? (r.patterns) id ≡ some s)

-- Whatever extractors are registered, `build` numbers their signatures so that a pattern id leads
-- back to the extractor that advertises the pattern, there is one owner per pattern, and every
-- signature of every extractor has a number.
pub build-IsNumbering : (es : List Extractor) → IsNumbering (build es)
unfolding build
build-IsNumbering es = record {
  owned = λ id owner h.
      let (k, same, o) = flat-Owns es 0 id owner h in
      subst (Owns es (flat_patterns es) id) (sym (same ∙ omega arith)) o;
  aligned = length-flat es 0;
  complete = λ k j e s h g.
      let (id, p, q) = flat_covers es 0 k j e s h g in (id, p ∙ ap some {y = k} (omega arith), q);
}

-- Registering one more extractor leaves the number and the owner of every pattern as they were.
pub register-keeps :
    (es : List Extractor) (e : Extractor) (id owner : ℕ) (s : Bytes)
    → get_elem? ((build es).pattern_owner) id ≡ some owner
    → get_elem? ((build es).patterns) id ≡ some s
    → (get_elem? ((build (register es e)).pattern_owner) id ≡ some owner)
      × (get_elem? ((build (register es e)).patterns) id ≡ some s)
unfolding build register
register-keeps es e id owner s h g = (
  ap (λ l. get_elem? l id) (flat_owners-append es (e ∷ []) 0)
      ∙ get_elem?-append_left (flat_owners 0 es) (flat_owners (0 + length es) (e ∷ [])) id owner h,
  ap (λ l. get_elem? l id) (flat_patterns-append es (e ∷ []))
      ∙ get_elem?-append_left (flat_patterns es) (flat_patterns (e ∷ [])) id s g,
)
