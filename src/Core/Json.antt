-- ===== src/Core/Json.antt =====
-- JSON values, and the form of structs that serde's `Serialize` and `Deserialize` derive from the
-- fields and their attributes. A value is a tree with its members in the order of the text; there
-- are no arrays, which nothing here writes. `T` is the type of the texts.
pub mod Columns
pub mod Bounds
use mathlib.Core.Option
use text.Mathlib.Text
use text.Mathlib.TextEquality.{eq_iff}
use latent_dfir.Common.{
  ℕ, ◌+◌, ◌^◌, ◌-◌, ◌≡◌, refl, Bool, true, false, ◌&&◌, Option, none, some, List, [], ◌∷◌, String,
  ltb, if◌then◌else◌,
}

-- `neg_int n` is the number −n, and `fraction n` the `f64` with the bits n.
mutual
  pub data Json (T : Type 0) : Type 0 where
    null : Json T
    boolean : Bool → Json T
    pos_int neg_int : ℕ → Json T
    fraction : ℕ → Json T
    string : T → Json T
    object : Fields T → Json T

  pub data Fields (T : Type 0) : Type 0 where
    no_fields : Fields T
    field : String → Json T → Fields T → Fields T

-- The `?` of the reading code. The text of an error is not kept.
infixl 5 ◌>>=◌
abbrev pub ◌>>=◌ {ℓ κ} : {A : Type ℓ} {B : Type κ} → Option A → (A → Option B) → Option B
none >>= f = none
some a >>= f = f a

abbrev pub same_text : String → String → Bool
same_text s t = Text.◌==◌ s t

pub same_text_refl : (s : String) → same_text s s ≡ true
same_text_refl s = (eq_iff s s).1 refl

module _ {T : Type 0} where
  -- A member that is skipped is not written.
  unfoldable pub put_field : String → Option (Json T) → Fields T → Fields T
  put_field name none rest = rest
  put_field name (some v) rest = field name v rest

  -- What an object has under a name. A name that comes twice is an error, `none`.
  unfoldable pub first_of : Json T → Option (Option (Json T)) → Option (Option (Json T))
  first_of v none = none
  first_of v (some none) = some (some v)
  first_of v (some (some w)) = none

  unfoldable pub found_in : Bool → Json T → Option (Option (Json T)) → Option (Option (Json T))
  unfolding first_of
  found_in true v later = first_of v later
  found_in false v later = later

  unfoldable pub find : String → Fields T → Option (Option (Json T))
  unfolding found_in
  find name no_fields = some none
  find name (field other v rest) = found_in (same_text name other) v (find name rest)

  -- A member without attributes, with `default` for an `Option`, and with `default` for another
  -- type.
  unfoldable pub required : {A : Type 0} → (Json T → Option A) → Option (Option (Json T)) → Option A
  required read none = none
  required read (some none) = none
  required read (some (some v)) = read v

  unfoldable pub nullable : {A : Type 0} → (Json T → Option A) → Json T → Option (Option A)
  nullable read null = some none
  nullable read v = Option.map some (read v)

  unfoldable pub optional :
      {A : Type 0} → (Json T → Option A) → Option (Option (Json T)) → Option (Option A)
  unfolding nullable
  optional read none = none
  optional read (some none) = some none
  optional read (some (some v)) = nullable read v

  unfoldable pub defaulted :
      {A : Type 0} → A → (Json T → Option A) → Option (Option (Json T)) → Option A
  defaulted d read none = none
  defaulted d read (some none) = some d
  defaulted d read (some (some v)) = read v

  -- The primitive types. An integer of two's complement is its bit pattern.
  unfoldable pub read_string : Json T → Option T
  read_string (string t) = some t
  read_string _ = none

  unfoldable pub read_bool : Json T → Option Bool
  read_bool (boolean b) = some b
  read_bool _ = none

  unfoldable pub read_unsigned : ℕ → Json T → Option ℕ
  read_unsigned w (pos_int n) = if ltb n (2 ^ w) then some n else none
  read_unsigned w _ = none

  unfoldable pub put_i64 : ℕ → Json T
  put_i64 n = if ltb n (2 ^ 63) then pos_int n else neg_int (2 ^ 64 - n)

  unfoldable pub read_i64 : Json T → Option ℕ
  read_i64 (pos_int n) = if ltb n (2 ^ 63) then some n else none
  read_i64 (neg_int n) = if ltb 0 n && ltb n (2 ^ 63 + 1) then some (2 ^ 64 - n) else none
  read_i64 _ = none

  unfoldable pub read_object : {A : Type 0} → (Fields T → Option A) → Json T → Option A
  read_object read (object fs) = read fs
  read_object read _ = none

  -- `skip_serializing_if` with a test that has this answer.
  unfoldable pub unless : Bool → Json T → Option (Json T)
  unless true v = none
  unless false v = some v

-- The fields of a struct: the name of each, and what it is written as, or `none` where it is
-- skipped.
pub record Column (T R : Type 0) : Type 0 where
  pub name : String
  pub put : R → Option (Json T)

module _ {T R : Type 0} where
  unfoldable pub to_fields : List (Column T R) → R → Fields T
  unfolding put_field
  to_fields [] r = no_fields
  to_fields (c ∷ cs) r = put_field (c.name) (c.put r) (to_fields cs r)
