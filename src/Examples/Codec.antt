-- ===== src/Examples/Codec.antt =====
-- A text of JSON values that reads back: each kind of value has a number, and every number written
-- is above 10.
use latent_dfir.Common.{
  ℕ, zero, suc, ◌+◌, ◌-◌, ◌≤◌, ◌≡◌, refl, ap, arith, Bool, true, false, Option, none, some, List,
  [], ◌∷◌, All, Bytes, ◌==◌, if◌then◌else◌,
}
use latent_dfir.Text.{chars}
use latent_dfir.Core.Json.{
  ◌>>=◌, Fields, null, boolean, pos_int, neg_int, fraction, string, object, no_fields, field,
}
use latent_dfir.Examples.Names.{name_of, name_of-chars}
use latent_dfir.Audit.Lines.{Value}

unfoldable put_text : List ℕ → Bytes → Bytes
put_text [] r = 11 ∷ r
put_text (c ∷ cs) r = (c + 12) ∷ put_text cs r

unfoldable take_text : Bytes → List ℕ × Bytes
take_text [] = ([], [])
take_text (b ∷ bs) = let (cs, r) = take_text bs in if b == 11 then ([], bs) else ((b - 12) ∷ cs, r)

take-put_text : (cs : List ℕ) (r : Bytes) → take_text (put_text cs r) ≡ (cs, r)
unfolding take_text put_text
take-put_text [] r = refl
take-put_text (c ∷ cs) r = ground (arith, take-put_text cs r)

unfoldable mutual
  put : Value → Bytes → Bytes
  put null r = 11 ∷ r
  put (boolean false) r = 12 ∷ r
  put (boolean true) r = 13 ∷ r
  put (pos_int n) r = 14 ∷ (n + 11) ∷ r
  put (neg_int n) r = 15 ∷ (n + 11) ∷ r
  put (fraction n) r = 16 ∷ (n + 11) ∷ r
  put (string t) r = 17 ∷ put_text t r
  put (object fs) r = 18 ∷ put_fields fs r

  put_fields : Fields (List ℕ) → Bytes → Bytes
  put_fields no_fields r = 11 ∷ r
  put_fields (field k v fs) r = 12 ∷ put_text (chars k) (put v (put_fields fs r))

unfoldable mutual
  size : Value → ℕ
  size (object fs) = suc (size_fields fs)
  size _ = 1

  size_fields : Fields (List ℕ) → ℕ
  size_fields no_fields = 1
  size_fields (field k v fs) = suc (size v + size_fields fs)

unfoldable number : (ℕ → Value) → Bytes → Option (Value × Bytes)
number make [] = none
number make (b ∷ r) = some (make (b - 11), r)

unfoldable members : Option (Fields (List ℕ) × Bytes) → Option (Value × Bytes)
members none = none
members (some (fs, r)) = some (object fs, r)

-- What a kind of value and the rest give, and what the rest gives as members.
unfoldable take_kind : ℕ → Bytes → Option (Fields (List ℕ) × Bytes) → Option (Value × Bytes)
unfolding take_text number members
take_kind kind r fs =
    if kind == 11
    then some (null, r)
    else if kind == 12
    then some (boolean false, r)
    else if kind == 13
    then some (boolean true, r)
    else if kind == 14
    then number pos_int r
    else if kind == 15
    then number neg_int r
    else if kind == 16
    then number fraction r
    else if kind == 17
    then some (string (take_text r).0, (take_text r).1)
    else members fs

unfoldable mutual
  unfolding take_kind

  take : ℕ → Bytes → Option (Value × Bytes)
  take zero bs = none
  take (suc f) [] = none
  take (suc f) (kind ∷ r) = take_kind kind r (take_fields f r)

  take_fields : ℕ → Bytes → Option (Fields (List ℕ) × Bytes)
  take_fields zero bs = none
  take_fields (suc f) [] = none
  take_fields (suc f) (kind ∷ r) =
      let more = do
        (v, r') ← take f (take_text r).1
        (fs, r'') ← take_fields f r'
        some (field (name_of (take_text r).0) v fs, r'')
      in if kind == 11 then some (no_fields, r) else more

abbrev Takes : Value → Type 0
Takes v = (r : Bytes) (f : ℕ) → size v ≤ f → take f (put v r) ≡ some (v, r)

abbrev TakesFields : Fields (List ℕ) → Type 0
TakesFields fs =
    (r : Bytes) (f : ℕ) → size_fields fs ≤ f → take_fields f (put_fields fs r) ≡ some (fs, r)

number-add : (make : ℕ → Value) (n : ℕ) (r : Bytes) → number make ((n + 11) ∷ r) ≡ some (make n, r)
unfolding number
number-add make n r = ap (λ k. some (make k, r)) {x = n + 11 - 11} {y = n} (omega arith)

spend : {n : ℕ} (P : ℕ → Type 0) → ((f : ℕ) → n ≤ f → P (suc f)) → (f : ℕ) → suc n ≤ f → P f
spend P k zero h = absurd (omega arith)
spend P k (suc f) h = k f (omega arith)

boolean_taken :
    (b : Bool) (f : ℕ) (r : Bytes) → take (suc f) (put (boolean b) r) ≡ some (boolean b, r)
unfolding take put
boolean_taken false f r = refl
boolean_taken true f r = refl

take-put : (v : Value) → Takes v
unfolding take put size members
take-put v = elim v as Takes TakesFields [
  | pos_int n ↦ λ r. spend _ λ g h. number-add pos_int n r
  | neg_int n ↦ λ r. spend _ λ g h. number-add neg_int n r
  | fraction n ↦ λ r. spend _ λ g h. number-add fraction n r
  | string t ↦ λ r. spend _ λ g h. rw (take-put_text t r)
  | object (fs → ih) ↦ λ r. spend _ λ g h. rw (ih r g h)
  | no_fields ↦ λ r. spend _ λ g h. refl
  | field k (w → ih) (fs → ihs) ↦ λ r. spend _ λ g h. rw (
    take-put_text (chars k) (put w (put_fields fs r)),
    ih (put_fields fs r) g (omega arith),
    ihs r g (omega arith),
    name_of-chars k,
  )
  | boolean b ↦ λ r. spend _ λ g h. boolean_taken b g r
  | null ↦ λ r. spend _ λ g h. refl
]

abbrev pub Clear : Bytes → Type 0
Clear = All (λ b. (b == 10) ≡ false)

clear : (b : ℕ) → 11 ≤ b → (b == 10) ≡ false
clear b h = ground arith

put_text-Clear : (t : List ℕ) (r : Bytes) → Clear r → Clear (put_text t r)
unfolding put_text
put_text-Clear [] r h = (refl, h)
put_text-Clear (c ∷ cs) r h = (clear (c + 12) (omega arith), put_text-Clear cs r h)

abbrev Writes : Value → Type 0
Writes v = (r : Bytes) → Clear r → Clear (put v r)

abbrev WritesFields : Fields (List ℕ) → Type 0
WritesFields fs = (r : Bytes) → Clear r → Clear (put_fields fs r)

boolean_clear : (b : Bool) → Writes (boolean b)
unfolding put
boolean_clear false r h = (refl, h)
boolean_clear true r h = (refl, h)

put-Clear : (v : Value) → Writes v
unfolding put
put-Clear v = elim v as Writes WritesFields [
  | pos_int n ↦ λ r h. (refl, (clear (n + 11) (omega arith), h))
  | neg_int n ↦ λ r h. (refl, (clear (n + 11) (omega arith), h))
  | fraction n ↦ λ r h. (refl, (clear (n + 11) (omega arith), h))
  | string t ↦ λ r h. (refl, put_text-Clear t r h)
  | object (fs → ih) ↦ λ r h. (refl, ih r h)
  | no_fields ↦ λ r h. (refl, h)
  | field k (w → ih) (fs → ihs) ↦ λ r h. (refl, put_text-Clear (chars k) _ (ih _ (ihs r h)))
  | boolean b ↦ boolean_clear b
  | null ↦ λ r h. (refl, h)
]

-- The number of parts, and the parts.
unfoldable pub text_of : Value → Bytes
unfolding put size put_text
text_of v = (size v + 11) ∷ put v []

unfoldable pub value_of_text : Bytes → Option Value
unfolding take take_kind take_text number members
value_of_text [] = none
value_of_text (n ∷ bs) = do (v, r) ← take (n - 11) bs; some v

pub value_of_text-text_of : (v : Value) → value_of_text (text_of v) ≡ some v
unfolding value_of_text text_of
value_of_text-text_of v = rw (take-put v [] (size v + 11 - 11) (omega arith))

pub text_of-Clear : (v : Value) → Clear (text_of v)
unfolding text_of
text_of-Clear v = (clear (size v + 11) (omega arith), put-Clear v [] tt)
