-- ===== src/Text/Literal.antt =====
-- The characters of a native text, from the last to the first.
use Prim.Native.Nat.{ℕ}
use Prim.Native.Char.{code}
use Prim.Native.String.{String, [], ◌∷◌}

abbrev pub fold_chars {ℓ} : {A : Type ℓ} → (ℕ → A → A) → A → String → A
fold_chars f a [] = a
fold_chars f a (c ∷ s) = f (code c) (fold_chars f a s)
