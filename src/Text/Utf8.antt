-- ===== src/Text/Utf8.antt =====
-- `String::from_utf8_lossy`.
use latent_dfir.Common.{
  true, false, Option, some, none, ℕ, ◌+◌, ◌-◌, ◌*◌, Bool, ◌&&◌, ◌||◌, List, [], ◌∷◌, ◌++◌, Bytes,
  leb, ltb, ◌==◌, if◌then◌else◌,
}
use latent_dfir.Text.{replacement}

-- A character that is begun: its bits so far, the bytes that are missing, and the range of the next
-- one.
pub record Begun : Type 0 where
  pub bits : ℕ
  pub missing : ℕ
  pub low : ℕ
  pub high : ℕ

pub data Decoder : Type 0 where
  ready : Decoder
  inside : Begun → Decoder

abbrev pub begin : ℕ → ℕ → ℕ → ℕ → Decoder
begin bits missing low high =
    inside (record { bits = bits; missing = missing; low = low; high = high })

-- The first byte of a character: the texts it adds, and what it begins.
unfoldable pub first_byte : ℕ → List ℕ × Decoder
first_byte b =
    if ltb b 0x80
    then (b ∷ [], ready)
    else if leb 0xc2 b && leb b 0xdf
    then ([], begin (b - 0xc0) 1 0x80 0xbf)
    else if b == 0xe0
    then ([], begin 0 2 0xa0 0xbf)
    else if b == 0xed
    then ([], begin 13 2 0x80 0x9f)
    else if leb 0xe1 b && leb b 0xef
    then ([], begin (b - 0xe0) 2 0x80 0xbf)
    else if b == 0xf0
    then ([], begin 0 3 0x90 0xbf)
    else if leb 0xf1 b && leb b 0xf3
    then ([], begin (b - 0xf0) 3 0x80 0xbf)
    else if b == 0xf4
    then ([], begin 4 3 0x80 0x8f)
    else (replacement ∷ [], ready)

-- The next byte of a character. A byte out of range ends the character, and begins the next one.
unfoldable pub next_byte : Begun → ℕ → List ℕ × Decoder
unfolding first_byte
next_byte c b =
    let bits = c.bits * 64 + (b - 0x80) in
    let (more, state) = first_byte b in
    if leb (c.low) b && leb b (c.high)
    then (if c.missing == 1 then (bits ∷ [], ready) else ([], begin bits (c.missing - 1) 0x80 0xbf))
    else (replacement ∷ more, state)

unfoldable pub step : Decoder → ℕ → List ℕ × Decoder
step ready b = first_byte b
step (inside c) b = next_byte c b

abbrev pub finished : Decoder → List ℕ
finished ready = []
finished (inside c) = replacement ∷ []

unfoldable pub decode_from : Decoder → Bytes → List ℕ
decode_from d [] = finished d
decode_from d (b ∷ bs) = let (out, d') = step d b in out ++ decode_from d' bs

unfoldable pub from_utf8_lossy : Bytes → List ℕ
from_utf8_lossy = decode_from ready

-- `String::from_utf8`
abbrev pub is_expected : Decoder → ℕ → Bool
is_expected ready b = ltb b 0x80 || (leb 0xc2 b && leb b 0xf4)
is_expected (inside c) b = leb (c.low) b && leb b (c.high)

abbrev pub is_ready : Decoder → Bool
is_ready ready = true
is_ready (inside c) = false

unfoldable pub well_formed : Decoder → Bytes → Bool
well_formed d [] = is_ready d
well_formed d (b ∷ bs) = let (out, d') = step d b in is_expected d b && well_formed d' bs

unfoldable pub from_utf8 : Bytes → Option (List ℕ)
unfolding from_utf8_lossy
from_utf8 bs = if well_formed ready bs then some (from_utf8_lossy bs) else none
