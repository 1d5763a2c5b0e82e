-- ===== src/Carve/Evtx/Magic.antt =====
-- The magic values of latent-carve/src/evtx/format.rs: a text begins with one of them at most.
use latent_dfir.Common.{
  ◌≡◌, refl, arith, Bool, true, false, Bool-cases, inl, inr, [], ◌∷◌, Bytes, starts_with, length,
  take, ◌==◌, ◌&&◌,
}
use latent_dfir.Carve.Evtx.{chunk_magic, file_magic, record_magic}

-- Two prefixes of one text agree as far as both go.
abbrev pub agree : Bytes → Bytes → Bool
agree [] q = true
agree (x ∷ p) [] = true
agree (x ∷ p) (y ∷ q) = (x == y) && agree p q

starts_with-agree :
    (buf p q : Bytes) → starts_with buf p ≡ true → starts_with buf q ≡ true → agree p q ≡ true
starts_with-agree buf [] q h k = refl
starts_with-agree buf (x ∷ p) [] h k = refl
starts_with-agree [] (x ∷ p) (y ∷ q) h k = absurd (cc)
starts_with-agree (b ∷ buf) (x ∷ p) (y ∷ q) h k = ground (arith, starts_with-agree buf p q)

pub starts_with-other :
    (buf p q : Bytes) → agree p q ≡ false → starts_with buf p ≡ true → starts_with buf q ≡ false
starts_with-other buf p q apart h = elim (Bool-cases (starts_with buf q)) [
  | inl k ↦ let both = starts_with-agree buf p q h k in absurd (cc)
  | inr k ↦ k
]

pub starts_with-take : (p buf : Bytes) → take (length p) buf ≡ p → starts_with buf p ≡ true
starts_with-take [] buf h = refl
starts_with-take (x ∷ p) [] h = absurd (cc)
starts_with-take (x ∷ p) (b ∷ buf) h = ground (arith, starts_with-take p buf)

-- A text begins with one magic value at most.
pub magics_apart :
    (agree chunk_magic file_magic ≡ false)
    × (agree chunk_magic record_magic ≡ false)
    × (agree file_magic record_magic ≡ false)
    × (agree file_magic chunk_magic ≡ false)
    × (agree record_magic chunk_magic ≡ false)
    × (agree record_magic file_magic ≡ false)
magics_apart = (refl, refl, refl, refl, refl, refl)
