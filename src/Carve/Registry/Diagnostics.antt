-- ===== src/Carve/Registry/Diagnostics.antt =====
-- What the diagnostics report after a run of hits.
use latent_dfir.Common.{
  ℕ, suc, ◌≡◌, refl, sym, subst, ap, ◌∙◌, arith, some, List, [], ◌∷◌, All, ok, length, get_elem?,
  add64,
}
use latent_dfir.Source.{Source}
use latent_dfir.Source.Reads.{Serves}
use latent_dfir.Carve.Extractor.{Extractor, Carved}
use latent_dfir.Carve.Registry.{
  Counters, ExtractorStats, Registry, build, extract_hit, stats, diagnostics,
}
use latent_dfir.Carve.Registry.Dispatch.{
  IsBalanced, IsConsistent, IsTotal, build-IsConsistent, extract_hit-IsConsistent,
}

-- The registries that dispatching hits of `src`, one after the other, leads to from `r`.
pub data Dispatched (src : Source) (r : Registry) : Registry → Type 0 where
  fresh : Dispatched src r r
  after :
      (r₁ r₂ : Registry) (cs : List Carved) (offset id : ℕ)
      → Dispatched src r r₁
      → extract_hit r₁ src offset id ≡ ok (cs, r₂)
      → Dispatched src r r₂

-- A line of the report in which each candidate was accepted or rejected.
abbrev pub AddsUp : ExtractorStats → Type 0
AddsUp s = add64 s.accepted s.rejected ≡ s.seen

stats-AddsUp :
    (es : List Extractor) (cs : List Counters)
    → length cs ≡ length es
    → All IsBalanced cs
    → All AddsUp (stats es cs) × (length (stats es cs) ≡ length es)
unfolding stats
stats-AddsUp [] [] h b = (tt, refl)
stats-AddsUp [] (c ∷ cs) h b = (tt, refl)
stats-AddsUp (e ∷ es) [] h b = absurd (omega arith)
stats-AddsUp (e ∷ es) (c ∷ cs) h (b, bs) =
    let (a, n) = stats-AddsUp es cs (omega arith) bs in ((b, a), ap suc n)

module _ {src : Source} {f : ℕ → ℕ} (serves : Serves src f) (es : List Extractor)
    (total : (k : ℕ) (e : Extractor) → get_elem? es k ≡ some e → IsTotal e) where
  Dispatched-IsConsistent :
      (r₀ r : Registry)
      → IsConsistent r₀
      → r₀.extractors ≡ es
      → Dispatched src r₀ r
      → IsConsistent r × (r.extractors ≡ es)
  Dispatched-IsConsistent r₀ r good from fresh = (good, from)
  Dispatched-IsConsistent r₀ r good from (after r₁ _ cs offset id before run) =
      let (good₁, from₁) = Dispatched-IsConsistent r₀ r₁ good from before in
      let all_total : (k : ℕ) (e : Extractor) → get_elem? r₁.extractors k ≡ some e → IsTotal e =
        λ k e h. total k e (ap (λ l. get_elem? l k) (sym from₁) ∙ h) in
      let (cs', r', run', good', kept, unknown, known) =
        extract_hit-IsConsistent serves r₁ good₁ all_total offset id in
      let same : r' ≡ r = cc in
      (subst IsConsistent same good', ap (λ x. x.extractors) (sym same) ∙ kept ∙ from₁)

  -- After any run of hits over a source that serves its bytes, by a registry built from extractors
  -- that never panic, the diagnostics have one line for each extractor, and in each line the
  -- candidates accepted and rejected add up to those seen (modulo 2^64).
  pub diagnostics-AddsUp :
      (r : Registry)
      → Dispatched src (build es) r
      → All AddsUp (diagnostics r) × (length (diagnostics r) ≡ length es)
  unfolding diagnostics build
  diagnostics-AddsUp r run =
      let (good, from) = Dispatched-IsConsistent (build es) r (build-IsConsistent es) refl run in
      let (a, n) = stats-AddsUp r.extractors r.counters good.counted good.balanced in
      (a, n ∙ ap length from)
