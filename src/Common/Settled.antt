-- ===== src/Common/Settled.antt =====
-- What a call returns, and what it means that it fails.
use mathlib.Core.Path.{◌≡◌, refl}
use mathlib.Core.Bool.{Bool, true, false}
use latent_dfir.Common.Fallible.{Outcome, ok, err, panic, stuck, ◌>>=◌, require}

-- The call returns or fails with an error: what it returns satisfies `P`, and `Q` holds where it
-- fails. It neither panics nor runs out of fuel.
abbrev pub Settles {ℓ} : {E : Type 0} {A : Type ℓ} → Type 0 → (A → Type 0) → Outcome E A → Type 0
Settles Q P (ok a) = P a
Settles Q P (err e) = Q
Settles Q P panic = ⊥
Settles Q P stuck = ⊥

pub >>=-Settles {ℓ κ} :
    {E : Type 0} {A : Type ℓ} {B : Type κ} (Q : Type 0) (R : A → Type 0) (P : B → Type 0)
    (m : Outcome E A) (f : A → Outcome E B)
    → Settles Q R m
    → ((a : A) → R a → Settles Q P (f a))
    → Settles Q P (m >>= f)
>>=-Settles Q R P (ok a) f h k = k a h
>>=-Settles Q R P (err e) f h k = h
>>=-Settles Q R P panic f h k = absurd h
>>=-Settles Q R P stuck f h k = absurd h

pub ok-Settles {ℓ κ} :
    {E : Type 0} {A : Type ℓ} {B : Type κ} (Q : Type 0) (P : B → Type 0) {m : Outcome E A} {a : A}
    (f : A → Outcome E B)
    → m ≡ ok a
    → Settles Q P (f a)
    → Settles Q P (m >>= f)
ok-Settles Q P f e h = rw e h

pub require-Settles {κ} :
    {E : Type 0} {B : Type κ} (Q : Type 0) (P : B → Type 0) (b : Bool) (e : E)
    (f : Unit {0} → Outcome E B)
    → (b ≡ true → Settles Q P (f tt))
    → (b ≡ false → Q)
    → Settles Q P (require b e >>= f)
require-Settles Q P true e f h k = h refl
require-Settles Q P false e f h k = k refl

-- The last check of a function.
pub require-Settles_last :
    {E : Type 0} (Q : Type 0) (P : Unit {0} → Type 0) (b : Bool) (e : E)
    → (b ≡ true → P tt)
    → (b ≡ false → Q)
    → Settles Q P (require b e)
require-Settles_last Q P true e h k = h refl
require-Settles_last Q P false e h k = k refl

pub Settles-map {ℓ} :
    {E : Type 0} {A : Type ℓ} (Q : Type 0) (R P : A → Type 0) (m : Outcome E A)
    → ((a : A) → R a → P a)
    → Settles Q R m
    → Settles Q P m
Settles-map Q R P (ok a) k h = k a h
Settles-map Q R P (err e) k h = h
Settles-map Q R P panic k h = h
Settles-map Q R P stuck k h = h

-- What never fails settles whatever would follow from a failure.
pub Settles-never {ℓ} :
    {E : Type 0} {A : Type ℓ} (Q : Type 0) (P : A → Type 0) (m : Outcome E A)
    → Settles ⊥ P m
    → Settles Q P m
Settles-never Q P (ok a) h = h
Settles-never Q P (err e) h = absurd h
Settles-never Q P panic h = h
Settles-never Q P stuck h = h
