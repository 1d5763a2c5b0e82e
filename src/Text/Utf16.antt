-- ===== src/Text/Utf16.antt =====
-- UTF-16, encoded and decoded.
use latent_dfir.Common.{
  ℕ, ◌+◌, ◌-◌, ◌/◌, ◌%◌, ◌≤◌, ◌<◌, ◌≡◌, refl, ap, ◌∙◌, arith, false, Bool-cases, inl, inr, ◌⊎◌,
  List, [], ◌∷◌, ◌++◌, All, ltb, if◌then◌else◌, ◌||◌,
}
use latent_dfir.Text.{from_utf16_lossy, is_high, is_low}

-- A Unicode scalar value: no surrogate, and not above the last code point.
abbrev pub IsScalar : ℕ → Type 0
IsScalar c = (c < 0xd800) ⊎ ((0xe000 ≤ c) × (c < 0x11_0000))

-- The units of one character, and of a text.
unfoldable pub encode_char : ℕ → List ℕ
encode_char c =
    if ltb c 0x1_0000
    then c ∷ []
    else (0xd800 + (c - 0x1_0000) / 0x400) ∷ (0xdc00 + (c - 0x1_0000) % 0x400) ∷ []

unfoldable pub encode_utf16 : List ℕ → List ℕ
unfolding encode_char
encode_utf16 [] = []
encode_utf16 (c ∷ cs) = encode_char c ++ encode_utf16 cs

from_utf16_lossy-cons :
    (u : ℕ) (us : List ℕ)
    → (is_high u || is_low u) ≡ false
    → from_utf16_lossy (u ∷ us) ≡ u ∷ from_utf16_lossy us
unfolding from_utf16_lossy
from_utf16_lossy-cons u [] h = rw h
from_utf16_lossy-cons u (v ∷ us) h = ground arith

from_utf16_lossy-pair :
    (c : ℕ) (us : List ℕ)
    → 0x1_0000 ≤ c
    → c < 0x11_0000
    → from_utf16_lossy ((0xd800 + (c - 0x1_0000) / 0x400) ∷ (0xdc00 + (c - 0x1_0000) % 0x400) ∷ us)
      ≡ c ∷ from_utf16_lossy us
unfolding from_utf16_lossy
from_utf16_lossy-pair c us lo hi = ground arith

from_utf16_lossy_nil : from_utf16_lossy [] ≡ []
unfolding from_utf16_lossy
from_utf16_lossy_nil = refl

-- A text of Unicode scalar values, encoded in UTF-16, is decoded to itself.
pub from_utf16_lossy-encode_utf16 :
    (cs : List ℕ) → All IsScalar cs → from_utf16_lossy (encode_utf16 cs) ≡ cs
unfolding encode_utf16
from_utf16_lossy-encode_utf16 [] h = from_utf16_lossy_nil
from_utf16_lossy-encode_utf16 (c ∷ cs) (s, ss) = elim (Bool-cases (ltb c 0x1_0000)) [
  | inl small ↦ rw small (
      from_utf16_lossy-cons c (encode_utf16 cs) (ground arith)
      ∙ ap (◌∷◌ c) (from_utf16_lossy-encode_utf16 cs ss))
  | inr large ↦ rw large (
      from_utf16_lossy-pair c (encode_utf16 cs) (ground arith) (ground arith)
      ∙ ap (◌∷◌ c) (from_utf16_lossy-encode_utf16 cs ss))
]
