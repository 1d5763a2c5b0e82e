-- ===== src/Partition/Names.antt =====
-- The names of GPT partitions.
use latent_dfir.Common.{
  ℕ, zero, suc, ◌/◌, ◌%◌, ◌<◌, ◌≡◌, refl, ap, ap₂, ◌∙◌, arith, Bool-cases, inl, inr, some, List, [],
  ◌∷◌, ◌++◌, All, Bytes, replicate, ltb, ltb→lt,
}
use latent_dfir.Text.Utf16.{IsScalar, encode_char, encode_utf16, from_utf16_lossy-encode_utf16}
use latent_dfir.Partition.{before_zero, units, decode_name, unless_empty}

-- The bytes of 16-bit units, low byte first.
unfoldable pub unit_bytes : List ℕ → Bytes
unit_bytes [] = []
unit_bytes (u ∷ us) = (u % 256) ∷ (u / 256) ∷ unit_bytes us

abbrev IsUnit : ℕ → Type 0
IsUnit u = (0 < u) × (u < 0x1_0000)

abbrev pub IsNameChar : ℕ → Type 0
IsNameChar c = IsScalar c × (0 < c)

encode_char-IsUnit :
    (c : ℕ) (us : List ℕ) → IsNameChar c → All IsUnit us → All IsUnit (encode_char c ++ us)
unfolding encode_char
encode_char-IsUnit c us (s, pos) h = elim (Bool-cases (ltb c 0x1_0000)) [
  | inl small ↦ rw small ((pos, ltb→lt c 0x1_0000 small), h)
  | inr large ↦ rw large ((omega arith, ground arith), ((omega arith, omega arith), h))
]

encode_utf16-IsUnit : (cs : List ℕ) → All IsNameChar cs → All IsUnit (encode_utf16 cs)
unfolding encode_utf16
encode_utf16-IsUnit [] h = tt
encode_utf16-IsUnit (c ∷ cs) (n, ns) =
    encode_char-IsUnit c (encode_utf16 cs) n (encode_utf16-IsUnit cs ns)

units-unit_bytes :
    (us : List ℕ) (rest : Bytes) → All IsUnit us → units (unit_bytes us ++ rest) ≡ us ++ units rest
unfolding units unit_bytes
units-unit_bytes [] rest h = refl
units-unit_bytes (u ∷ us) rest (n, ns) = ap₂ ◌∷◌ (omega arith) (units-unit_bytes us rest ns)

before_zero-append :
    (us zs : List ℕ) → All IsUnit us → before_zero zs ≡ [] → before_zero (us ++ zs) ≡ us
unfolding before_zero
before_zero-append [] zs h e = e
before_zero-append (u ∷ us) zs (n, ns) e = ground (arith, before_zero-append us zs ns e)

before_zero-zeros : (k : ℕ) → before_zero (units (replicate k 0)) ≡ []
unfolding before_zero units
before_zero-zeros zero = refl
before_zero-zeros (suc zero) = refl
before_zero-zeros (suc (suc k)) = refl

All-IsScalar : (cs : List ℕ) → All IsNameChar cs → All IsScalar cs
All-IsScalar [] h = tt
All-IsScalar (c ∷ cs) (n, ns) = (n.0, All-IsScalar cs ns)

unless_empty-encode_utf16 :
    (c : ℕ) (cs : List ℕ)
    → All IsNameChar (c ∷ cs)
    → unless_empty (encode_utf16 (c ∷ cs)) ≡ some (c ∷ cs)
unfolding encode_utf16 encode_char
unless_empty-encode_utf16 c cs h = elim (Bool-cases (ltb c 0x1_0000)) [
  | inl small ↦
      let e = from_utf16_lossy-encode_utf16 (c ∷ cs) (All-IsScalar (c ∷ cs) h) in
      rw small (ap some (rw small at e))
  | inr large ↦
      let e = from_utf16_lossy-encode_utf16 (c ∷ cs) (All-IsScalar (c ∷ cs) h) in
      rw large (ap some (rw large at e))
]

-- A partition name of non-zero Unicode scalar values, written as UTF-16 with zeros behind it, as
-- many as the field has left or none, is read back as it was written.
pub decode_name-encode_utf16 :
    (c : ℕ) (cs : List ℕ) (k : ℕ)
    → All IsNameChar (c ∷ cs)
    → decode_name (unit_bytes (encode_utf16 (c ∷ cs)) ++ replicate k 0) ≡ some (c ∷ cs)
unfolding decode_name
decode_name-encode_utf16 c cs k h =
    let us = encode_utf16 (c ∷ cs) in
    let small = encode_utf16-IsUnit (c ∷ cs) h in
    ap (λ l. unless_empty (before_zero l)) (units-unit_bytes us (replicate k 0) small)
    ∙ ap unless_empty (before_zero-append us (units (replicate k 0)) small (before_zero-zeros k))
    ∙ unless_empty-encode_utf16 c cs h
