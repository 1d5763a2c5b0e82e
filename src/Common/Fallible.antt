-- ===== src/Common/Fallible.antt =====
-- What a Rust function does: it returns `Ok`, returns `Err`, panics, or (in a model that runs on
-- fuel) has not finished when the fuel is spent.
use mathlib.Core.Path.{◌≡◌, refl, subst}
use mathlib.Core.Bool.{Bool, true, false}
use mathlib.Core.Option.{Option, none, some}

pub data Outcome {ℓ} (E : Type 0) (A : Type ℓ) : Type ℓ where
  ok : A → Outcome E A
  err : E → Outcome E A
  panic : Outcome E A
  stuck : Outcome E A

-- The `?` operator.
infixl 5 ◌>>=◌ ◌>>◌
abbrev pub ◌>>=◌ {ℓ κ} :
    {E : Type 0} {A : Type ℓ} {B : Type κ} → Outcome E A → (A → Outcome E B) → Outcome E B
ok a >>= f = f a
err e >>= f = err e
panic >>= f = panic
stuck >>= f = stuck

abbrev pub ◌>>◌ {κ} : {E : Type 0} {B : Type κ} → Outcome E (Unit {0}) → Outcome E B → Outcome E B
m >> k = m >>= λ _. k

-- `map_err`, and the conversion that `?` makes between error types.
abbrev pub map_err {ℓ} : {E F : Type 0} {A : Type ℓ} → (E → F) → Outcome E A → Outcome F A
map_err g (ok a) = ok a
map_err g (err e) = err (g e)
map_err g panic = panic
map_err g stuck = stuck

-- `if !good { return Err(e) }`
abbrev pub require : {E : Type 0} → Bool → E → Outcome E (Unit {0})
require true e = ok tt
require false e = err e

-- `.expect(…)`
abbrev pub expect {ℓ} : {E F : Type 0} {A : Type ℓ} → Outcome E A → Outcome F A
expect (ok a) = ok a
expect (err e) = panic
expect panic = panic
expect stuck = stuck

-- The call returns or fails with an error, and what it returns satisfies `P`: it neither panics nor
-- runs out of fuel.
abbrev pub Meets {ℓ} : {E : Type 0} {A : Type ℓ} → (A → Type 0) → Outcome E A → Type 0
Meets P (ok a) = P a
Meets P (err e) = Unit
Meets P panic = ⊥
Meets P stuck = ⊥

pub >>=-Meets {ℓ κ} :
    {E : Type 0} {A : Type ℓ} {B : Type κ} (Q : A → Type 0) (P : B → Type 0) (m : Outcome E A)
    (f : A → Outcome E B)
    → Meets Q m
    → ((a : A) → Q a → Meets P (f a))
    → Meets P (m >>= f)
>>=-Meets Q P (ok a) f h k = k a h
>>=-Meets Q P (err e) f h k = tt
>>=-Meets Q P panic f h k = absurd h
>>=-Meets Q P stuck f h k = absurd h

pub ok-Meets {ℓ κ} :
    {E : Type 0} {A : Type ℓ} {B : Type κ} (P : B → Type 0) {m : Outcome E A} {a : A}
    (f : A → Outcome E B)
    → m ≡ ok a
    → Meets P (f a)
    → Meets P (m >>= f)
ok-Meets P f e h = rw e h

pub require-Meets {κ} :
    {E : Type 0} {B : Type κ} (P : B → Type 0) (b : Bool) (e : E) (f : Unit {0} → Outcome E B)
    → (b ≡ true → Meets P (f tt))
    → Meets P (require b e >>= f)
require-Meets P true e f h = h refl
require-Meets P false e f h = tt

pub Meets-ok {ℓ} :
    {E : Type 0} {A : Type ℓ} (P : A → Type 0) {m : Outcome E A} {a : A}
    → Meets P m
    → m ≡ ok a
    → P a
Meets-ok P h e = subst (Meets P) e h

pub Meets-weaken {ℓ} :
    {E : Type 0} {A : Type ℓ} (P : A → Type 0) (m : Outcome E A)
    → Meets P m
    → Meets (λ a. Unit {0}) m
Meets-weaken P (ok a) h = tt
Meets-weaken P (err e) h = tt
Meets-weaken P panic h = h
Meets-weaken P stuck h = h

-- `.ok()?` in a function that returns an `Option`: an error is `None`.
abbrev pub ok_or_none {ℓ} : {E : Type 0} {A : Type ℓ} → Outcome E A → Option A
ok_or_none (ok a) = some a
ok_or_none _ = none

-- If the whole succeeds, so does the first call, and the rest with its value.
pub >>=-eq-ok {ℓ κ} :
    {E : Type 0} {A : Type ℓ} {B : Type κ} {b : B} (first : Outcome E A) (rest : A → Outcome E B)
    → (first >>= rest) ≡ ok b
    → (value : A) × (first ≡ ok value) × (rest value ≡ ok b)
>>=-eq-ok (ok value) rest whole = (value, refl, whole)
>>=-eq-ok (err e) rest whole = cc
>>=-eq-ok panic rest whole = cc
>>=-eq-ok stuck rest whole = cc

pub map_err-eq-ok {ℓ} :
    {E F : Type 0} {A : Type ℓ} (g : E → F) (m : Outcome E A) {a : A}
    → map_err g m ≡ ok a
    → m ≡ ok a
map_err-eq-ok g (ok a) h = cc
map_err-eq-ok g (err e) h = absurd (cc)
map_err-eq-ok g panic h = absurd (cc)
map_err-eq-ok g stuck h = absurd (cc)

pub Meets-map {ℓ} :
    {E : Type 0} {A : Type ℓ} (Q P : A → Type 0) (m : Outcome E A)
    → ((a : A) → Q a → P a)
    → Meets Q m
    → Meets P m
Meets-map Q P (ok a) k h = k a h
Meets-map Q P (err e) k h = tt
Meets-map Q P panic k h = h
Meets-map Q P stuck k h = h
