-- ===== src/Partition/Fields.antt =====
-- The fields of a sector, and its entries.
use latent_dfir.Common.{
  ℕ, zero, suc, ◌+◌, ◌-◌, ◌*◌, ◌≤◌, ◌<◌, ◌≡◌, refl, ap, ◌∙◌, arith, false, List, [], ◌∷◌, Bytes,
  Outcome, ok, ◌>>=◌, slice, span, slice-span_part, get_elem?-span, drop-span, take-span,
  length-span, leb, le→leb, lt→leb, take, drop, if◌then◌else◌, Settles, ok-Settles, map_err, subst,
  sym,
}
use native.Mathlib.Nat.{le-mul_of_pos_right}
use native.Mathlib.Decide.{dec_lt}
use latent_dfir.Vdisk.Fields.{le_at}
use latent_dfir.Source.{Source, read_exact_at}
use latent_dfir.Source.Reads.{Serves, read_exact_at-span, read_exact_at-fails}
use latent_dfir.Partition.{Absent, absent, field, byte_at, chunks_from, chunks_exact}

chunks_from-nil : (fuel k : ℕ) → 0 < k → chunks_from (suc fuel) k [] ≡ []
unfolding chunks_from
chunks_from-nil fuel k p =
    let closed : leb k 0 ≡ false = lt→leb k 0 p in
    ap (λ b. if b then take k [] ∷ chunks_from fuel k (drop k []) else []) closed

module _ (f : ℕ → ℕ) where
  pub field-span : (a n o k : ℕ) → a + n ≤ k → field (span f o k) a n ≡ ok (le_at f (o + a) n)
  unfolding field
  field-span a n o k h =
      rw (slice-span_part f {E = Absent} a (a + n) o k (omega arith) h)
        (ap (λ m. ok (le_at f (o + a) m)) {x = a + n - a} (omega arith))

  pub byte_at-span : (i o k : ℕ) → i < k → byte_at (span f o k) i ≡ ok (f (o + i))
  unfolding byte_at
  byte_at-span i o k h = rw (get_elem?-span f i o k h, byte_at)

  -- `n` records of `k` bytes, from `o` on.
  unfoldable pub spans : ℕ → ℕ → ℕ → List Bytes
  spans o k zero = []
  spans o k (suc n) = span f o k ∷ spans (o + k) k n

  chunks_from-span :
      (fuel o k n : ℕ) → 0 < k → n ≤ fuel → chunks_from fuel k (span f o (n * k)) ≡ spans o k n
  unfolding chunks_from spans
  chunks_from-span zero o k zero p h = refl
  chunks_from-span (suc fuel) o k zero p h =
      ap (chunks_from (suc fuel) k) {x = span f o (0 * k)} {y = []}
        (ap (span f o) {y = 0} (omega arith))
      ∙ chunks_from-nil fuel k p
  chunks_from-span zero o k (suc n) p h = absurd (omega arith)
  chunks_from-span (suc fuel) o k (suc n) p h =
      let whole : span f o (suc n * k) ≡ span f o (k + n * k) = ap (span f o) (omega arith) in
      ap (chunks_from (suc fuel) k) whole
      ∙ rw
          (
            length-span f o (k + n * k),
            le→leb k (k + n * k) (omega arith),
            take-span f k o (k + n * k) (omega arith),
            drop-span f k o (k + n * k) (omega arith),
          )
          (ap (λ l. span f o k ∷ l)
            (ap (λ m. chunks_from fuel k (span f (o + k) m)) {x = k + n * k - k} {y = n * k}
                (omega arith)
              ∙ chunks_from-span fuel (o + k) k n p (omega arith)))

  pub chunks_exact-span : (o k n : ℕ) → 0 < k → chunks_exact k (span f o (n * k)) ≡ spans o k n
  chunks_exact-span o zero n p = absurd (omega arith)
  chunks_exact-span o (suc j) n p =
      rw (length-span f o (n * suc j))
        (chunks_from-span (n * suc j) o (suc j) n p (le-mul_of_pos_right n p))

-- What holds after the reads of the fields of a buffer that is a part of `f`.
module _ {ℓ} (f : ℕ → ℕ) {B : Type ℓ} (Q : Type 0) (P : B → Type 0) {buf : Bytes} (o n : ℕ)
    (e : buf ≡ span f o n) where
  pub slice-then :
      (a c : ℕ) (k : Bytes → Outcome Absent B)
      → a ≤ c
      → c ≤ n
      → Settles Q P (k (span f (o + a) (c - a)))
      → Settles Q P (slice buf a c >>= k)
  slice-then a c k h l m =
      ok-Settles Q P k
        (subst (λ b. slice {E = Absent} b a c ≡ ok (span f (o + a) (c - a))) (sym e)
          (slice-span_part f a c o n h l))
        m

  pub field-then :
      (a w : ℕ) (k : ℕ → Outcome Absent B)
      → a + w ≤ n
      → Settles Q P (k (le_at f (o + a) w))
      → Settles Q P (field buf a w >>= k)
  field-then a w k h m =
      ok-Settles Q P k
        (subst (λ b. field b a w ≡ ok (le_at f (o + a) w)) (sym e) (field-span f a w o n h)) m

  pub byte_at-then :
      (i : ℕ) (k : ℕ → Outcome Absent B)
      → i < n
      → Settles Q P (k (f (o + i)))
      → Settles Q P (byte_at buf i >>= k)
  byte_at-then i k h m =
      ok-Settles Q P k (subst (λ b. byte_at b i ≡ ok (f (o + i))) (sym e) (byte_at-span f i o n h))
        m

-- Reading a buffer in a function that returns an `Option`.
pub read-absent {κ} :
    {src : Source} {f : ℕ → ℕ} {B : Type κ} (s : Serves src f) (Q : Type 0) (P : B → Type 0)
    (o len : ℕ) (k : Bytes → Outcome Absent B)
    → 0 < len
    → (src.size < o + len → Q)
    → (o + len ≤ src.size → (b : Bytes) → b ≡ span f o len → Settles Q P (k b))
    → Settles Q P (map_err (λ e. absent) (read_exact_at src o len) >>= k)
read-absent {src = src} {f = f} s Q P o len k p q h = elim (dec_lt src.size (o + len)) [
  | no l ↦ rw (read_exact_at-span s o len (omega arith)) (h (omega arith) (span f o len) refl)
  | yes l ↦ rw ((read_exact_at-fails s o len l p).1) (q l)
]
