-- ===== src/Text.antt =====
-- What the code uses of Rust's texts, on lists of code points: `char::is_whitespace`, `str::trim`,
-- `str::lines`, and the lossy decoders of `String`.
pub mod Utf16
pub mod Utf8
mod Literal
use latent_dfir.Text.Literal.{fold_chars}
use latent_dfir.Common.{
  String, ℕ, zero, suc, ◌+◌, ◌-◌, ◌*◌, ◌/◌, ◌%◌, Bool, true, false, ◌&&◌, ◌||◌, Option, none, some,
  List, [], ◌∷◌, ◌++◌, map, Bytes, leb, ltb, ◌==◌, if◌then◌else◌, bytes_eq, drop, length,
}

-- The characters of a literal.
abbrev pub chars : String → List ℕ
chars s = fold_chars (λ c cs. c ∷ cs) [] s

-- `char::is_whitespace`
unfoldable pub is_whitespace : ℕ → Bool
is_whitespace c =
    (leb 9 c && leb c 13)
    || (c == 32)
    || (c == 0x85)
    || (c == 0xa0)
    || (c == 0x1680)
    || (leb 0x2000 c && leb c 0x200a)
    || (c == 0x2028)
    || (c == 0x2029)
    || (c == 0x202f)
    || (c == 0x205f)
    || (c == 0x3000)

-- `str::trim_start_matches` and `str::trim_end_matches`, for a test on characters.
unfoldable pub trim_start_matches : (ℕ → Bool) → List ℕ → List ℕ
trim_start_matches p [] = []
trim_start_matches p (c ∷ cs) = let rest = trim_start_matches p cs in if p c then rest else c ∷ cs

unfoldable pub trim_end_matches : (ℕ → Bool) → List ℕ → List ℕ
trim_end_matches p [] = []
trim_end_matches p (c ∷ cs) = elim (trim_end_matches p cs) [
  | [] ↦ if p c then [] else c ∷ []
  | x ∷ xs ↦ c ∷ x ∷ xs
]

-- `str::trim`
unfoldable pub trim : List ℕ → List ℕ
unfolding trim_start_matches trim_end_matches is_whitespace
trim cs = trim_end_matches is_whitespace (trim_start_matches is_whitespace cs)

unfoldable pub to_ascii_lowercase : List ℕ → List ℕ
to_ascii_lowercase = map (λ c. if leb 65 c && leb c 90 then c + 32 else c)

-- `str::strip_prefix`
unfoldable pub strip_prefix : List ℕ → List ℕ → Option (List ℕ)
strip_prefix [] cs = some cs
strip_prefix (p ∷ ps) [] = none
strip_prefix (p ∷ ps) (c ∷ cs) = let rest = strip_prefix ps cs in if p == c then rest else none

-- `str::split_whitespace`: a word grows until a white-space character ends it.
unfoldable pub word_ended : List ℕ → List (List ℕ) → List (List ℕ)
word_ended [] words = words
word_ended (c ∷ cs) words = (c ∷ cs) ∷ words

unfoldable pub words_from : List ℕ → List ℕ → List (List ℕ)
unfolding word_ended
words_from word [] = word_ended word []
words_from word (c ∷ cs) =
    let ended = words_from [] cs in
    let grown = words_from (word ++ (c ∷ [])) cs in
    if is_whitespace c then word_ended word ended else grown

unfoldable pub split_whitespace : List ℕ → List (List ℕ)
unfolding words_from
split_whitespace cs = words_from [] cs

-- `str::lines`: the text is cut behind each line feed, and a line loses its line feed with a
-- carriage return before it.
abbrev pub join_first : ℕ → List (List ℕ) → List (List ℕ)
join_first c [] = (c ∷ []) ∷ []
join_first c (line ∷ more) = (c ∷ line) ∷ more

unfoldable pub split_inclusive : List ℕ → List (List ℕ)
split_inclusive [] = []
split_inclusive (c ∷ cs) =
    let rest = split_inclusive cs in if c == 10 then (c ∷ []) ∷ rest else join_first c rest

unfoldable pub strip_line : List ℕ → List ℕ
strip_line [] = []
strip_line (c ∷ []) = if c == 10 then [] else c ∷ []
strip_line (c ∷ d ∷ []) =
    if (c == 13) && (d == 10) then [] else if d == 10 then c ∷ [] else c ∷ d ∷ []
strip_line (c ∷ d ∷ e ∷ cs) = c ∷ strip_line (d ∷ e ∷ cs)

unfoldable pub lines : List ℕ → List (List ℕ)
lines cs = map strip_line (split_inclusive cs)

-- `str::eq_ignore_ascii_case`
unfoldable pub eq_ignore_ascii_case : List ℕ → List ℕ → Bool
eq_ignore_ascii_case cs ds = bytes_eq (to_ascii_lowercase cs) (to_ascii_lowercase ds)

abbrev pub replacement : ℕ
replacement = 0xfffd

-- `String::from_utf16_lossy`
abbrev pub is_high : ℕ → Bool
is_high u = leb 0xd800 u && ltb u 0xdc00

abbrev pub is_low : ℕ → Bool
is_low u = leb 0xdc00 u && ltb u 0xe000

abbrev pub pair : ℕ → ℕ → ℕ
pair high low = 0x1_0000 + (high - 0xd800) * 0x400 + (low - 0xdc00)

unfoldable pub from_utf16_lossy : List ℕ → List ℕ
from_utf16_lossy [] = []
from_utf16_lossy (u ∷ []) = (if is_high u || is_low u then replacement else u) ∷ []
from_utf16_lossy (u ∷ v ∷ us) =
    let one = from_utf16_lossy (v ∷ us) in
    let two = from_utf16_lossy us in
    if is_high u && is_low v
    then pair u v ∷ two
    else if is_high u || is_low u
    then replacement ∷ one
    else u ∷ one
