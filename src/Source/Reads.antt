-- ===== src/Source/Reads.antt =====
-- What a source promises, and what `read_exact_at` makes of it.
use latent_dfir.Common.{
  ℕ, zero, suc, ◌+◌, ◌-◌, ◌≤◌, ◌<◌, ◌≡◌, sym, ap, ap₂, ◌∙◌, arith, min, Bytes, ◌++◌, [], Meets,
  Outcome, ok, err, u64_mod, add64-exact, span, length-span, span-add,
}
use latent_dfir.Source.{
  Source, SourceError, short_read, out_of_range, read_exact_loop, read_exact_at,
}
use native.Mathlib.Decide.{dec_lt}
use mathlib.Core.List.{append_assoc, append-nil}

-- `r` is a successful read of a non-empty part, from the front, of the `avail` bytes of `f` from
-- `o`.
abbrev pub ReadsFront : Outcome SourceError Bytes → (ℕ → ℕ) → ℕ → ℕ → Type 0
ReadsFront r f o avail = (n : ℕ) × (r ≡ ok (span f o n)) × (n ≤ avail) × (0 < avail → 0 < n)

-- The source holds the bytes `f 0`, `f 1`, …, `f (size - 1)`.
pub record Serves (src : Source) (f : ℕ → ℕ) : Type 0 where
  pub small : src.size < u64_mod
  pub front :
      (o len : ℕ) → o ≤ src.size → ReadsFront (src.read_at o len) f o (min len (src.size - o))
  pub past : (o len : ℕ) → src.size < o → src.read_at o len ≡ err (out_of_range o src.size)

module _ {src : Source} {f : ℕ → ℕ} (s : Serves src f) where
  -- A round that reads `n` bytes, and one that reads none.
  read_round :
      (fuel o wanted rest n : ℕ) (got : Bytes)
      → src.read_at o (suc rest) ≡ ok (span f o n)
      → 0 < n
      → n ≤ suc rest
      → o + n < u64_mod
      → read_exact_loop (suc fuel) src o wanted (suc rest) got
        ≡ read_exact_loop fuel src (o + n) wanted (suc rest - n) (got ++ span f o n)
  unfolding read_exact_loop
  read_round fuel o wanted rest n got e p q w =
      rw e (rw (length-span f o n) (rw (add64-exact o n w) (ground arith)))

  read_none :
      (fuel o wanted rest : ℕ) (got : Bytes)
      → src.read_at o (suc rest) ≡ ok []
      → read_exact_loop (suc fuel) src o wanted (suc rest) got
        ≡ err (short_read o wanted (wanted - suc rest))
  unfolding read_exact_loop
  read_none fuel o wanted rest got e = rw e

  read_exact_loop-span :
      (fuel o wanted rest : ℕ) (got : Bytes)
      → rest ≤ fuel
      → o + rest ≤ src.size
      → read_exact_loop fuel src o wanted rest got ≡ ok (got ++ span f o rest)
  read_exact_loop-span fuel o wanted zero got h k =
      unfold read_exact_loop in ap ok (sym (append-nil got))
  read_exact_loop-span zero o wanted (suc rest) got h k = absurd (omega arith)
  read_exact_loop-span (suc fuel) o wanted (suc rest) got h k =
      let (n, e, le, pos) = s.front o (suc rest) (omega arith) in
      let joined : span f o n ++ span f (o + n) (suc rest - n) ≡ span f o (suc rest) =
        sym (span-add f o n (suc rest - n)) ∙ ap (span f o) {y = suc rest} (omega arith) in
      read_round fuel o wanted rest n got e (pos (omega arith)) (omega arith)
        (omega (arith, s.small))
      ∙ read_exact_loop-span fuel (o + n) wanted (suc rest - n) (got ++ span f o n)
          (omega (arith, pos (omega arith))) (omega arith)
      ∙ ap ok (append_assoc got (span f o n) (span f (o + n) (suc rest - n)))
      ∙ ap (λ l. ok (got ++ l)) joined

  read_exact_loop-short :
      (fuel o wanted rest : ℕ) (got : Bytes)
      → rest ≤ fuel
      → rest ≤ wanted
      → o ≤ src.size
      → src.size < o + rest
      → read_exact_loop fuel src o wanted rest got
        ≡ err (short_read src.size wanted (wanted - rest + (src.size - o)))
  read_exact_loop-short fuel o wanted zero got h w k l = absurd (omega arith)
  read_exact_loop-short zero o wanted (suc rest) got h w k l = absurd (omega arith)
  read_exact_loop-short (suc fuel) o wanted (suc rest) got h w k l =
      let (n, e, le, pos) = s.front o (suc rest) k in
      elim (dec_lt 0 n) [
        | yes p ↦
            read_round fuel o wanted rest n got e p (omega arith) (omega (arith, s.small))
            ∙ read_exact_loop-short fuel (o + n) wanted (suc rest - n) (got ++ span f o n)
                (omega arith) (omega arith) (omega arith) (omega arith)
            ∙ ap (λ g. err (short_read src.size wanted g)) (omega arith)
        | no p ↦
            read_none fuel o wanted rest got (e ∙ ap (λ m. ok (span f o m)) {y = 0} (omega arith))
            ∙ ap₂ (λ a g. err (short_read a wanted g)) {y = src.size} (grind arith) (grind arith)
      ]

  read_exact_past :
      (o len : ℕ) → src.size < o → 0 < len → read_exact_at src o len ≡ err (out_of_range o src.size)
  unfolding read_exact_at
  read_exact_past o zero h p = absurd (omega arith)
  read_exact_past o (suc len) h p = rw (s.past o (suc len) h)

  -- Inside the source an exact read returns the bytes asked for.
  pub read_exact_at-span :
      (o len : ℕ) → o + len ≤ src.size → read_exact_at src o len ≡ ok (span f o len)
  unfolding read_exact_at
  read_exact_at-span o len h = read_exact_loop-span len o len len [] (omega arith) h

  -- An exact read, on any input, of a source that serves `f`: the bytes asked for, where they all
  -- lie inside the source; else a short read, reported at the end of the source with the number of
  -- bytes read; and out of range for a non-empty read that starts behind the end.
  pub read_exact_at-cases :
      (o len : ℕ)
      → (o + len ≤ src.size → read_exact_at src o len ≡ ok (span f o len))
        × (o ≤ src.size
            → src.size < o + len
            → read_exact_at src o len ≡ err (short_read src.size len (src.size - o)))
        × (src.size < o → 0 < len → read_exact_at src o len ≡ err (out_of_range o src.size))
  unfolding read_exact_at
  read_exact_at-cases o len = (
    read_exact_at-span o len,
    λ h k.
        read_exact_loop-short len o len len [] (omega arith) (omega arith) h k
        ∙ ap (λ g. err (short_read src.size len g)) (omega arith),
    read_exact_past o len,
  )

  -- Beyond the source an exact read of anything fails.
  pub read_exact_at-fails :
      (o len : ℕ)
      → src.size < o + len
      → 0 < len
      → (e : SourceError) × (read_exact_at src o len ≡ err e)
  read_exact_at-fails o len h p = elim (dec_lt src.size o) [
    | yes k ↦ (out_of_range o src.size, read_exact_past o len k p)
    | no k ↦ (short_read src.size len (src.size - o), (read_exact_at-cases o len).1 (omega arith) h)
  ]

  -- An exact read of any length returns the bytes asked for, or an error.
  pub read_exact_at-Meets : (o len : ℕ) → Meets (λ b. b ≡ span f o len) (read_exact_at src o len)
  unfolding read_exact_at
  read_exact_at-Meets o zero = unfold read_exact_loop in λ i. []
  read_exact_at-Meets o (suc len) = elim (dec_lt src.size (o + suc len)) [
    | no h ↦ rw (read_exact_at-span o (suc len) (omega arith)) (λ i. span f o (suc len))
    | yes h ↦ rw ((read_exact_at-fails o (suc len) h (omega arith)).1) tt
  ]
