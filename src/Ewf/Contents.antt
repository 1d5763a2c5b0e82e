-- ===== src/Ewf/Contents.antt =====
-- What an EWF source serves.
use latent_dfir.Common.{
  ℕ, ◌+◌, ◌-◌, ◌≤◌, ◌<◌, ◌≡◌, arith, Bool-cases, inl, inr, some, span, min, lt→ltb, le→ltb, ◌==◌,
  u64_mod,
}
use latent_dfir.Source.Reads.{Serves, ReadsFront}
use latent_dfir.Ewf.{Libewf, EwfSource, read_result, ewf_read_at, ewf_source}

-- The handle is open on an image of `size` bytes `f`: a read inside it returns a non-empty part
-- from its front.
pub record IsImage (lib : Libewf) (handle : lib.Handle) (f : ℕ → ℕ) (size : ℕ) : Type 0 where
  pub small : size < u64_mod
  pub read_random :
      (o len : ℕ)
      → 0 < len
      → o + len ≤ size
      → (n : ℕ) × (lib.read_random handle o len ≡ some (span f o n)) × (0 < n) × (n ≤ len)

module _ (lib : Libewf) (f : ℕ → ℕ) (e : EwfSource lib) where
  ewf_read_at-front :
      (o len : ℕ)
      → IsImage lib (e.handle) f (e.media_size)
      → o ≤ e.media_size
      → ReadsFront (ewf_read_at lib e o len) f o (min len (e.media_size - o))
  unfolding ewf_read_at read_result
  ewf_read_at-front o len i h = elim (Bool-cases (min len (e.media_size - o) == 0)) [
    | inl z ↦ (0, rw (le→ltb (e.media_size) o h, z), omega arith, λ p. ground arith)
    | inr nz ↦
        let (n, got, pos, le) =
          i.read_random o (min len (e.media_size - o)) (ground arith) (omega arith) in
        (n, rw (le→ltb (e.media_size) o h, nz, got), le, λ p. pos)
  ]

  -- An EWF source whose handle is open on an image of as many bytes as it says serves the bytes of
  -- the image.
  pub ewf_source-Serves : IsImage lib (e.handle) f (e.media_size) → Serves (ewf_source lib e) f
  unfolding ewf_read_at
  ewf_source-Serves i = record {
    small = i.small;
    front = λ o len h. ewf_read_at-front o len i h;
    past = λ o len h. rw (lt→ltb (e.media_size) o h);
  }
