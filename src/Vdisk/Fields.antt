-- ===== src/Vdisk/Fields.antt =====
-- The integer fields that the virtual disk readers read.
use latent_dfir.Common.{
  ℕ, ◌+◌, ◌≤◌, ◌≡◌, ap, ◌>>=◌, Bytes, Outcome, ok, Meets, >>=-Meets, span, from_be_bytes,
  from_le_bytes,
}
use latent_dfir.Source.{Source, SourceError, read_exact_at}
use latent_dfir.Source.Reads.{Serves, read_exact_at-span, read_exact_at-Meets}
use latent_dfir.Vdisk.{be_u32, be_u64, le_u16, le_u32, le_u64}

-- The big-endian and the little-endian number in `n` bytes of `f` from `o` on.
abbrev pub be_at : (ℕ → ℕ) → ℕ → ℕ → ℕ
be_at f o n = from_be_bytes (span f o n)

abbrev pub le_at : (ℕ → ℕ) → ℕ → ℕ → ℕ
le_at f o n = from_le_bytes (span f o n)

module _ {src : Source} {f : ℕ → ℕ} (s : Serves src f) where
  be_u32-Meets : (o : ℕ) → Meets (λ n. n ≡ be_at f o 4) (be_u32 src o)
  unfolding be_u32
  be_u32-Meets o =
      >>=-Meets (λ b. b ≡ span f o 4) (λ n. n ≡ be_at f o 4) (read_exact_at src o 4) _
        (read_exact_at-Meets s o 4) λ b e. ap from_be_bytes e

  be_u64-Meets : (o : ℕ) → Meets (λ n. n ≡ be_at f o 8) (be_u64 src o)
  unfolding be_u64
  be_u64-Meets o =
      >>=-Meets (λ b. b ≡ span f o 8) (λ n. n ≡ be_at f o 8) (read_exact_at src o 8) _
        (read_exact_at-Meets s o 8) λ b e. ap from_be_bytes e

  -- What holds of every value of the field holds after its read.
  pub read-then {κ} :
      {B : Type κ} (P : B → Type 0) (o len : ℕ) (k : Bytes → Outcome SourceError B)
      → ((b : Bytes) → b ≡ span f o len → Meets P (k b))
      → Meets P (read_exact_at src o len >>= k)
  read-then P o len k h =
      >>=-Meets (λ b. b ≡ span f o len) P (read_exact_at src o len) k (read_exact_at-Meets s o len)
        h

  pub be_u32-then {κ} :
      {B : Type κ} (P : B → Type 0) (o : ℕ) (k : ℕ → Outcome SourceError B)
      → ((n : ℕ) → n ≡ be_at f o 4 → Meets P (k n))
      → Meets P (be_u32 src o >>= k)
  be_u32-then P o k h = >>=-Meets (λ n. n ≡ be_at f o 4) P (be_u32 src o) k (be_u32-Meets o) h

  pub be_u64-then {κ} :
      {B : Type κ} (P : B → Type 0) (o : ℕ) (k : ℕ → Outcome SourceError B)
      → ((n : ℕ) → n ≡ be_at f o 8 → Meets P (k n))
      → Meets P (be_u64 src o >>= k)
  be_u64-then P o k h = >>=-Meets (λ n. n ≡ be_at f o 8) P (be_u64 src o) k (be_u64-Meets o) h

  pub le_u16-then {κ} :
      {B : Type κ} (P : B → Type 0) (o : ℕ) (k : ℕ → Outcome SourceError B)
      → ((n : ℕ) → n ≡ le_at f o 2 → Meets P (k n))
      → Meets P (le_u16 src o >>= k)
  unfolding le_u16
  le_u16-then P o k h =
      >>=-Meets (λ n. n ≡ le_at f o 2) P (le_u16 src o) k
        (>>=-Meets (λ b. b ≡ span f o 2) (λ n. n ≡ le_at f o 2) (read_exact_at src o 2) _
          (read_exact_at-Meets s o 2) λ b e. ap from_le_bytes e)
        h

  pub le_u32-then {κ} :
      {B : Type κ} (P : B → Type 0) (o : ℕ) (k : ℕ → Outcome SourceError B)
      → ((n : ℕ) → n ≡ le_at f o 4 → Meets P (k n))
      → Meets P (le_u32 src o >>= k)
  unfolding le_u32
  le_u32-then P o k h =
      >>=-Meets (λ n. n ≡ le_at f o 4) P (le_u32 src o) k
        (>>=-Meets (λ b. b ≡ span f o 4) (λ n. n ≡ le_at f o 4) (read_exact_at src o 4) _
          (read_exact_at-Meets s o 4) λ b e. ap from_le_bytes e)
        h

  pub le_u64-then {κ} :
      {B : Type κ} (P : B → Type 0) (o : ℕ) (k : ℕ → Outcome SourceError B)
      → ((n : ℕ) → n ≡ le_at f o 8 → Meets P (k n))
      → Meets P (le_u64 src o >>= k)
  unfolding le_u64
  le_u64-then P o k h =
      >>=-Meets (λ n. n ≡ le_at f o 8) P (le_u64 src o) k
        (>>=-Meets (λ b. b ≡ span f o 8) (λ n. n ≡ le_at f o 8) (read_exact_at src o 8) _
          (read_exact_at-Meets s o 8) λ b e. ap from_le_bytes e)
        h

  -- Inside the source the field is read.
  pub be_u64-span : (o : ℕ) → o + 8 ≤ src.size → be_u64 src o ≡ ok (be_at f o 8)
  unfolding be_u64
  be_u64-span o h = rw (read_exact_at-span s o 8 h)

  pub le_u32-span : (o : ℕ) → o + 4 ≤ src.size → le_u32 src o ≡ ok (le_at f o 4)
  unfolding le_u32
  le_u32-span o h = rw (read_exact_at-span s o 4 h)

  pub le_u64-span : (o : ℕ) → o + 8 ≤ src.size → le_u64 src o ≡ ok (le_at f o 8)
  unfolding le_u64
  le_u64-span o h = rw (read_exact_at-span s o 8 h)
