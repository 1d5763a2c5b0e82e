-- ===== src/Source/Window.antt =====
-- latent-source/src/window.rs: a source that shows a range of another.
use latent_dfir.Common.{
  ℕ, ◌+◌, ◌-◌, ◌≤◌, ◌≡◌, arith, min, Option, none, some, Bytes, [], Outcome, ok, err, ltb, ◌==◌,
  if◌then◌else◌, add64, add64-exact, le→ltb, lt→ltb, Bool-cases, inl, inr, span-shift, sym, subst,
  ap, ◌∙◌,
}
use latent_dfir.Source.{Source, SourceError, Identity, out_of_range}
use latent_dfir.Source.Reads.{Serves, ReadsFront}

pub record Window : Type 0 where
  pub inner : Source
  pub offset : ℕ
  pub len : ℕ
  pub identity : Identity

-- `len.unwrap_or(available).min(available)`
abbrev pub clamp_len : Option ℕ → ℕ → ℕ
clamp_len none available = available
clamp_len (some len) available = min len available

-- `Window::range`
unfoldable pub range : Source → ℕ → Option ℕ → Outcome SourceError Window
range inner offset len =
    if ltb inner.size offset
    then err (out_of_range offset inner.size)
    else ok (record {
      inner = inner;
      offset = offset;
      len = clamp_len len (inner.size - offset);
      identity = inner.identity;
    })

unfoldable pub window_read_at : Window → ℕ → ℕ → Outcome SourceError Bytes
window_read_at w offset wanted =
    let n = min wanted (w.len - offset) in
    if ltb w.len offset
    then err (out_of_range offset w.len)
    else if n == 0
    then ok []
    else w.inner.read_at (add64 w.offset offset) n

-- `impl Source for Window`
abbrev pub window_source : Window → Source
window_source w = record { size = w.len; identity = w.identity; read_at = window_read_at w }

range_fields :
    (inner : Source) (offset : ℕ) (len : Option ℕ) (w : Window)
    → range inner offset len ≡ ok w
    → (w.inner ≡ inner)
      × (w.offset ≡ offset)
      × (w.len ≡ clamp_len len (inner.size - offset))
      × (w.offset + w.len ≤ w.inner.size)
unfolding range
range_fields inner offset len w e = ground arith

window_read_at-front :
    {f : ℕ → ℕ} (w : Window) (o wanted : ℕ)
    → Serves w.inner f
    → w.offset + w.len ≤ w.inner.size
    → o ≤ w.len
    → ReadsFront (window_read_at w o wanted) (λ i. f (w.offset + i)) o (min wanted (w.len - o))
unfolding window_read_at
window_read_at-front {f} w o wanted s fits h = elim (Bool-cases (min wanted (w.len - o) == 0)) [
  | inl z ↦ (0, rw (le→ltb w.len o h, z), omega arith, λ p. ground arith)
  | inr nz ↦
      let (n, e, le, pos) = s.front (w.offset + o) (min wanted (w.len - o)) (omega arith) in
      (
        n,
        rw (le→ltb w.len o h, nz, add64-exact w.offset o (omega (arith, s.small)))
            (e ∙ ap ok (sym (span-shift f w.offset o n))),
        omega arith,
        λ p. pos (omega arith),
      )
]

window_Serves :
    {f : ℕ → ℕ} (w : Window)
    → Serves w.inner f
    → w.offset + w.len ≤ w.inner.size
    → Serves (window_source w) (λ i. f (w.offset + i))
unfolding window_read_at
window_Serves w s fits = record {
  small = omega (arith, s.small);
  front = λ o wanted h. window_read_at-front w o wanted s fits h;
  past = λ o wanted h. rw (lt→ltb w.len o h);
}

pub range-Serves :
    {f : ℕ → ℕ} (inner : Source) (offset : ℕ) (len : Option ℕ) (w : Window)
    → Serves inner f
    → range inner offset len ≡ ok w
    → Serves (window_source w) (λ i. f (offset + i)) × (w.len ≡ clamp_len len (inner.size - offset))
range-Serves {f} inner offset len w s e =
    let (same, at, kept, fits) = range_fields inner offset len w e in
    (
      subst (λ a. Serves (window_source w) (λ i. f (a + i))) at
          (window_Serves w (subst (λ src. Serves src f) (sym same) s) fits),
      kept,
    )
