-- ===== src/Examples/Names.antt =====
-- The text of some characters, which takes back `chars`.
use Prim.Native.Nat.{ℕ, Ordering, compare}
use Prim.Native.Char.{Char, char, code, IsLt}
use Prim.Native.String.{String, [], ◌∷◌}
use mathlib.Core.Path.{◌≡◌, refl, ap}
use mathlib.Core.Option.{Option, none, some}
use mathlib.Core.List
use mathlib.Core.List.{List}
use mathlib.Core.Option
use latent_dfir.Text.{chars}

abbrev is_less : (o : Ordering) → Option (IsLt o)
is_less Ordering.lt = some tt
is_less Ordering.eq = none
is_less Ordering.gt = none

is_less-some : (o : Ordering) (h : IsLt o) → is_less o ≡ some h
is_less-some Ordering.lt h = refl
is_less-some Ordering.eq h = absurd h
is_less-some Ordering.gt h = absurd h

abbrev Both : Ordering → Ordering → Type 0
Both Ordering.lt o = IsLt o
Both Ordering.eq o = ⊥
Both Ordering.gt o = ⊥

abbrev Scalar : Ordering → Ordering → Ordering → Type 0
Scalar Ordering.lt o p = Unit
Scalar Ordering.eq o p = Both o p
Scalar Ordering.gt o p = Both o p

abbrev is_both : (o p : Ordering) → Option (Both o p)
is_both Ordering.lt p = is_less p
is_both Ordering.eq p = none
is_both Ordering.gt p = none

is_both-some : (o p : Ordering) (h : Both o p) → is_both o p ≡ some h
is_both-some Ordering.lt p h = is_less-some p h
is_both-some Ordering.eq p h = absurd h
is_both-some Ordering.gt p h = absurd h

abbrev is_scalar : (o p q : Ordering) → Option (Scalar o p q)
is_scalar Ordering.lt p q = some tt
is_scalar Ordering.eq p q = is_both p q
is_scalar Ordering.gt p q = is_both p q

is_scalar-some : (o p q : Ordering) (h : Scalar o p q) → is_scalar o p q ≡ some h
is_scalar-some Ordering.lt p q h = refl
is_scalar-some Ordering.eq p q h = is_both-some p q h
is_scalar-some Ordering.gt p q h = is_both-some p q h

unfoldable char_of : ℕ → Option Char
char_of n = Option.map (char n) (is_scalar (compare n 55296) (compare 57343 n) (compare n 1114112))

char_of-code : (c : Char) → char_of (code c) ≡ some c
unfolding char_of
char_of-code (char n p) =
    ap (Option.map (char n))
      (is_scalar-some (compare n 55296) (compare 57343 n) (compare n 1114112) p)

abbrev prepend : Option Char → String → String
prepend none s = s
prepend (some c) s = c ∷ s

unfoldable pub name_of : List ℕ → String
unfolding char_of
name_of cs = List.foldr (λ c s. prepend (char_of c) s) [] cs

pub name_of-chars : (s : String) → name_of (chars s) ≡ s
unfolding name_of
name_of-chars [] = refl
name_of-chars (c ∷ s) = rw (char_of-code c, name_of-chars s)
