-- ===== src/Common/Buffers.antt =====
-- Byte buffers: Rust's slicing, which panics or returns `None` out of range, and the integers that
-- `from_le_bytes` and `from_be_bytes` read.
use Prim.Native.Nat.{ℕ, zero, suc, ◌+◌, ◌-◌, ◌*◌, ◌≤◌, ◌<◌}
use mathlib.Core.Path.{◌≡◌, refl, sym, ap, ap₂, ◌∙◌, ◌≡⟨◌⟩◌, ◌∎}
use mathlib.Core.List.{List, [], ◌∷◌, ◌++◌, foldl}
use mathlib.Core.Bool.{Bool, true, false, ◌&&◌}
use mathlib.Core.Option.{Option, none, some}
use native.Mathlib.Omega.{arith}
use latent_dfir.Common.Tests.{leb, le→leb, ◌==◌, if◌then◌else◌}
use latent_dfir.Common.Lists.{length, take, drop, get_or, replicate}
use latent_dfir.Common.Fallible.{Outcome, ok, panic}

abbrev pub Bytes : Type 0
Bytes = List ℕ

-- `data[a..b]`
abbrev pub slice {ℓ} : {E : Type 0} {A : Type ℓ} → List A → ℕ → ℕ → Outcome E (List A)
slice buf a b = if leb a b && leb b (length buf) then ok (take (b - a) (drop a buf)) else panic

-- `data.get(a..b)`
abbrev pub get_range {ℓ} : {A : Type ℓ} → List A → ℕ → ℕ → Option (List A)
get_range buf a b = if leb a b && leb b (length buf) then some (take (b - a) (drop a buf)) else none

abbrev pub from_le_bytes : Bytes → ℕ
from_le_bytes [] = 0
from_le_bytes (b ∷ bs) = b + 256 * from_le_bytes bs

abbrev pub from_be_bytes : Bytes → ℕ
from_be_bytes = foldl (λ acc b. acc * 256 + b) 0

-- `==` on byte strings
abbrev pub bytes_eq : Bytes → Bytes → Bool
bytes_eq [] [] = true
bytes_eq [] (y ∷ ys) = false
bytes_eq (x ∷ xs) [] = false
bytes_eq (x ∷ xs) (y ∷ ys) = (x == y) && bytes_eq xs ys

-- `buf.starts_with(prefix)`
abbrev pub starts_with : Bytes → Bytes → Bool
starts_with buf [] = true
starts_with [] (p ∷ ps) = false
starts_with (x ∷ xs) (p ∷ ps) = (x == p) && starts_with xs ps

-- The `n` values of `f` from `o` on.
abbrev pub span {ℓ} : {A : Type ℓ} → (ℕ → A) → ℕ → ℕ → List A
span f o zero = []
span f o (suc n) = f o ∷ span f (suc o) n

module _ {ℓ} {A : Type ℓ} (f : ℕ → A) where
  pub length-span : (o n : ℕ) → length (span f o n) ≡ n
  length-span o zero = refl
  length-span o (suc n) = ap suc (length-span (suc o) n)

  pub span-add : (o m n : ℕ) → span f o (m + n) ≡ span f o m ++ span f (o + m) n
  span-add o zero n = ap₂ (span f) (omega arith) (omega arith)
  span-add o (suc m) n =
      span f o (suc m + n)
      ≡⟨ ap (span f o) {y = suc (m + n)} (omega arith) ⟩ span f o (suc (m + n))
      ≡⟨ ap (λ l. f o ∷ l) (span-add (suc o) m n) ⟩ span f o (suc m) ++ span f (suc o + m) n
      ≡⟨ ap (λ k. span f o (suc m) ++ span f k n) (omega arith) ⟩
        span f o (suc m) ++ span f (o + suc m) n ∎

  pub span-shift : (a o n : ℕ) → span (λ i. f (a + i)) o n ≡ span f (a + o) n
  span-shift a o zero = refl
  span-shift a o (suc n) =
      ap (λ l. f (a + o) ∷ l)
        (span-shift a (suc o) n ∙ ap (λ k. span f k n) {y = suc (a + o)} (omega arith))

-- A slice of a list reads the values that `get_or` reads.
module _ {ℓ} {A : Type ℓ} (d : A) where
  pub span-cons :
      (x : A) (xs : List A) (o n : ℕ)
      → span (λ i. get_or (x ∷ xs) i d) (suc o) n ≡ span (λ i. get_or xs i d) o n
  span-cons x xs o zero = refl
  span-cons x xs o (suc n) = ap (λ l. get_or xs o d ∷ l) (span-cons x xs (suc o) n)

  pub take-drop-span :
      (xs : List A) (o n : ℕ)
      → o + n ≤ length xs
      → take n (drop o xs) ≡ span (λ i. get_or xs i d) o n
  take-drop-span xs zero zero h = refl
  take-drop-span [] zero (suc n) h = absurd (omega arith)
  take-drop-span (x ∷ xs) zero (suc n) h =
      ap (λ l. x ∷ l) (take-drop-span xs zero n (omega arith) ∙ sym (span-cons x xs zero n))
  take-drop-span [] (suc o) zero h = refl
  take-drop-span [] (suc o) (suc n) h = absurd (omega arith)
  take-drop-span (x ∷ xs) (suc o) n h =
      take-drop-span xs o n (omega arith) ∙ sym (span-cons x xs o n)

module _ {ℓ} {A : Type ℓ} (f g : ℕ → A) where
  pub span-ext : (o n : ℕ) → ((i : ℕ) → o ≤ i → i < o + n → f i ≡ g i) → span f o n ≡ span g o n
  span-ext o zero h = refl
  span-ext o (suc n) h =
      ap₂ ◌∷◌ (h o (omega arith) (omega arith))
        (span-ext (suc o) n (λ i lo hi. h i (omega arith) (omega arith)))

module _ {ℓ} {E : Type 0} {A : Type ℓ} where
  -- A slice in range does not panic.
  pub slice-ok :
      (buf : List A) (a b : ℕ)
      → a ≤ b
      → b ≤ length buf
      → slice {E = E} buf a b ≡ ok (take (b - a) (drop a buf))
  slice-ok buf a b h k = rw (le→leb a b h, le→leb b (length buf) k)

  pub slice-span :
      (d : A) (buf : List A) (a n : ℕ)
      → a + n ≤ length buf
      → slice {E = E} buf a (a + n) ≡ ok (span (λ i. get_or buf i d) a n)
  slice-span d buf a n h =
      slice-ok buf a (a + n) (omega arith) h
      ∙ ap (λ k. ok (take k (drop a buf))) {y = n} (omega arith)
      ∙ ap ok (take-drop-span d buf a n h)

module _ {ℓ} {A : Type ℓ} (f g : ℕ → A) where
  pub span-match : (a b n : ℕ) → ((j : ℕ) → j < n → f (a + j) ≡ g (b + j)) → span f a n ≡ span g b n
  span-match a b zero h = refl
  span-match a b (suc n) h =
      ap₂ ◌∷◌ (ap f {y = a + 0} (omega arith) ∙ h 0 (omega arith) ∙ ap g {y = b} (omega arith)) (
        span-match (suc a) (suc b) n (λ j lt.
          ap f {y = a + suc j} (omega arith)
          ∙ h (suc j) (omega arith)
          ∙ ap g {y = suc b + j} (omega arith)))

pub replicate-span {ℓ} : {A : Type ℓ} (x : A) (o n : ℕ) → replicate n x ≡ span (λ i. x) o n
replicate-span x o zero = refl
replicate-span x o (suc n) = ap (λ l. x ∷ l) (replicate-span x (suc o) n)

pub bytes_eq→eq : (xs ys : Bytes) → bytes_eq xs ys ≡ true → xs ≡ ys
bytes_eq→eq [] [] h = refl
bytes_eq→eq [] (y ∷ ys) h = absurd (cc)
bytes_eq→eq (x ∷ xs) [] h = absurd (cc)
bytes_eq→eq (x ∷ xs) (y ∷ ys) h = ground (arith, bytes_eq→eq xs ys)

pub bytes_eq_refl : (xs : Bytes) → bytes_eq xs xs ≡ true
bytes_eq_refl [] = refl
bytes_eq_refl (x ∷ xs) = ground (arith, bytes_eq_refl xs)

pub bytes_eq-same : (xs : Bytes) → bytes_eq xs xs ≡ true
bytes_eq-same [] = refl
bytes_eq-same (x ∷ xs) = ground (arith, bytes_eq-same xs)
