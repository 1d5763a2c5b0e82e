-- ===== src/Core/Hash.antt =====
-- latent-core/src/hash.rs: streaming SHA-256. The hash function (sha2) is a parameter.
use latent_dfir.Source.{IoError}
use latent_dfir.Common.{
  ℕ, zero, suc, ◌+◌, ◌-◌, ◌*◌, ◌/◌, ◌%◌, ◌<◌, ◌≡◌, refl, sym, ap, ◌∙◌, arith, false, Bool-cases,
  inl, inr, [], ◌∷◌, ◌++◌, Bytes, Outcome, ok, stuck, ◌>>=◌, length, take, drop, ltb, ◌==◌,
  if◌then◌else◌, take-append-drop, length-append, eq-nil_of_length, ==_iff, length-take,
}

-- The `Digest` interface of sha2. Feeding two pieces is feeding them joined.
pub record Digest : Type 1 where
  pub State : Type 0
  pub new : State
  pub update : State → Bytes → State
  pub finalize : State → Bytes
  pub update-append : (s : State) (a b : Bytes) → update (update s a) b ≡ update s (a ++ b)
  pub update-nil : (s : State) → update s [] ≡ s

-- `std::io::Read` over a state: a read into a buffer of the given length returns the bytes read.
pub record Reader (E : Type 0) (S : Type 0) : Type 0 where
  pub read : S → ℕ → Outcome E (Bytes × S)

-- The code point of a hexadecimal digit.
abbrev pub hex_digit : ℕ → ℕ
hex_digit n = if ltb n 10 then b'0' + n else b'a' + (n - 10)

-- `hex`: two lower-case digits for each byte.
unfoldable pub hex : Bytes → Bytes
hex [] = []
hex (b ∷ bs) = hex_digit (b / 16) ∷ hex_digit (b % 16) ∷ hex bs

abbrev pub buffer_size : ℕ
buffer_size = 64 * 1024

module _ (d : Digest) {E S : Type 0} (r : Reader E S) where
  -- The `loop` of `sha256_reader`, on fuel.
  unfoldable pub hash_loop : ℕ → S → d.State → Outcome E Bytes
  hash_loop zero s h = stuck
  hash_loop (suc fuel) s h = do
    (chunk, s') ← r.read s buffer_size
    let more = hash_loop fuel s' (d.update h chunk)
    if length chunk == 0 then ok (hex (d.finalize h)) else more

  unfoldable pub sha256_reader : ℕ → S → Outcome E Bytes
  unfolding hash_loop
  sha256_reader fuel s = hash_loop fuel s d.new

-- The lower-case hexadecimal digest of a byte string.
abbrev pub sha256 : Digest → Bytes → Bytes
sha256 d bytes = hex (d.finalize (d.update d.new bytes))

-- The reader gives the bytes `rest` one after the other, and then none: `Inv s rest` holds of a
-- state from which `rest` is still to come.
abbrev pub Delivers : {E S : Type 0} → Reader E S → (S → Bytes → Type 0) → Type 0
Delivers {E} {S} r Inv =
    (s : S) (rest : Bytes)
    → Inv s rest
    → (chunk : Bytes) × (s' : S) × (after : Bytes) × (r.read s buffer_size ≡ ok (chunk, s'))
      × (rest ≡ chunk ++ after)
      × Inv s' after
      × (length chunk ≡ 0 → rest ≡ [])

module _ (d : Digest) {E S : Type 0} (r : Reader E S) (Inv : S → Bytes → Type 0)
    (delivers : Delivers r Inv) where
  hash_loop-Delivers :
      (fuel : ℕ) (s : S) (rest : Bytes) (h : d.State)
      → Inv s rest
      → length rest < fuel
      → hash_loop d r fuel s h ≡ ok (hex (d.finalize (d.update h rest)))
  unfolding hash_loop
  hash_loop-Delivers zero s rest h inv lt = absurd (omega arith)
  hash_loop-Delivers (suc fuel) s rest h inv lt =
      let (chunk, s', after, e, whole, inv', last) = delivers s rest inv in
      let pos : (length chunk == 0) ≡ false → 0 < length chunk = λ nz. ground arith in
      elim (Bool-cases (length chunk == 0)) [
        | inl z ↦
            rw (e, z, last ((==_iff (length chunk) 0).0 z))
              (ap (λ k. ok (hex (d.finalize k))) (sym (d.update-nil h)))
        | inr nz ↦
            rw (e, nz)
              (hash_loop-Delivers fuel s' after (d.update h chunk) inv'
                  (omega (arith, ap length whole, length-append chunk after, pos nz))
                ∙ ap (λ k. ok (hex (d.finalize k)))
                    (d.update-append h chunk after ∙ ap (d.update h) (sym whole)))
      ]

-- `&[u8]` as a reader: the slice is what is left.
abbrev pub slice_reader : Reader IoError Bytes
slice_reader = record { read = λ s n. ok (take n s, drop n s) }

pub sha256_reader-Delivers :
    (d : Digest) {E S : Type 0} (r : Reader E S) (Inv : S → Bytes → Type 0) (fuel : ℕ) (s : S)
    (rest : Bytes)
    → Delivers r Inv
    → Inv s rest
    → length rest < fuel
    → sha256_reader d r fuel s ≡ ok (sha256 d rest)
unfolding sha256_reader
sha256_reader-Delivers d r Inv fuel s rest delivers inv lt =
    hash_loop-Delivers d r Inv delivers fuel s rest d.new inv lt

pub slice_reader-Delivers : Delivers slice_reader (λ s rest. s ≡ rest)
slice_reader-Delivers s rest e = (
  take buffer_size s,
  drop buffer_size s,
  drop buffer_size s,
  refl,
  sym e ∙ sym (take-append-drop buffer_size s),
  refl,
  λ z. sym e ∙ eq-nil_of_length s (omega (arith, length-take buffer_size s)),
)

-- Hashing a byte string in memory gives its digest, however the buffer cuts it.
pub sha256_reader-slice :
    (d : Digest) (bytes : Bytes)
    → sha256_reader d slice_reader (length bytes + 1) bytes ≡ ok (sha256 d bytes)
sha256_reader-slice d bytes =
    sha256_reader-Delivers d slice_reader (λ s rest. s ≡ rest) (length bytes + 1) bytes bytes
      slice_reader-Delivers refl (omega arith)
