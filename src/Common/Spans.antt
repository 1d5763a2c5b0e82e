-- ===== src/Common/Spans.antt =====
-- Slices of the bytes of a source.
use Prim.Native.Nat.{ℕ, zero, suc, ◌+◌, ◌-◌, ◌≤◌, ◌<◌}
use mathlib.Core.Path.{◌≡◌, refl, ap, ap₂, ◌∙◌}
use mathlib.Core.List.{◌∷◌}
use mathlib.Core.Option.{some}
use native.Mathlib.Omega.{arith}
use latent_dfir.Common.Lists.{get_elem?, take, drop}
use latent_dfir.Common.Fallible.{ok}
use latent_dfir.Common.Buffers.{span, length-span, slice, slice-ok}

module _ {ℓ} {A : Type ℓ} (f : ℕ → A) where
  pub drop-span : (a o n : ℕ) → a ≤ n → drop a (span f o n) ≡ span f (o + a) (n - a)
  drop-span zero o n h = ap₂ (span f) (omega arith) (omega arith)
  drop-span (suc a) o zero h = absurd (omega arith)
  drop-span (suc a) o (suc n) h =
      drop-span a (suc o) n (omega arith) ∙ ap₂ (span f) (omega arith) (omega arith)

  pub take-span : (k o n : ℕ) → k ≤ n → take k (span f o n) ≡ span f o k
  take-span zero o n h = refl
  take-span (suc k) o zero h = absurd (omega arith)
  take-span (suc k) o (suc n) h = ap (◌∷◌ (f o)) (take-span k (suc o) n (omega arith))

  pub take-drop-span_part :
      (a k o n : ℕ) → a + k ≤ n → take k (drop a (span f o n)) ≡ span f (o + a) k
  take-drop-span_part a k o n h =
      ap (take k) (drop-span a o n (omega arith)) ∙ take-span k (o + a) (n - a) (omega arith)

  pub slice-span_part :
      {E : Type 0} (a b o n : ℕ)
      → a ≤ b
      → b ≤ n
      → slice {E = E} (span f o n) a b ≡ ok (span f (o + a) (b - a))
  slice-span_part a b o n h k =
      slice-ok (span f o n) a b h (omega (arith, length-span f o n))
      ∙ ap ok (take-drop-span_part a (b - a) o n (omega arith))

  pub get_elem?-span : (i o n : ℕ) → i < n → get_elem? (span f o n) i ≡ some (f (o + i))
  get_elem?-span i o zero h = absurd (omega arith)
  get_elem?-span zero o (suc n) h = ap (λ k. some (f k)) (omega arith)
  get_elem?-span (suc i) o (suc n) h =
      get_elem?-span i (suc o) n (omega arith) ∙ ap (λ k. some (f k)) (omega arith)
