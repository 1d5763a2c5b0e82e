-- ===== src/Core/Json/Bounds.antt =====
-- What the reading code of latent-core/src/record.rs lets through, for each kind of member.
use mathlib.Core.Option
use latent_dfir.Common.{
  Option-cases, ℕ, ◌^◌, ◌<◌, ◌≡◌, refl, subst, arith, Bool-cases, inl, inr, Option, none, some, ltb,
  ltb→lt, String,
}
use latent_dfir.Core.Json.{
  Fields, null, boolean, pos_int, neg_int, fraction, string, object, ◌>>=◌, optional, nullable,
  defaulted, required, read_unsigned, read_i64, read_object,
}
use latent_dfir.Core.Json.Columns.{HoldsOf}
use latent_dfir.Core.Record.Form.{Value}

pub >>=-eq-some {ℓ κ} :
    {A : Type ℓ} {B : Type κ} (m : Option A) (f : A → Option B) {b : B}
    → (m >>= f) ≡ some b
    → (a : A) × (m ≡ some a) × (f a ≡ some b)
>>=-eq-some none f h = absurd (cc)
>>=-eq-some (some a) f h = (a, refl, h)

module _ {A : Type 0} (read : Value → Option A) (P : A → Type 0)
    (reads : (v : Value) (a : A) → read v ≡ some a → P a) where
  mapped-HoldsOf : (v : Value) (x : Option A) → Option.map some (read v) ≡ some x → HoldsOf P x
  mapped-HoldsOf v none h = tt
  mapped-HoldsOf v (some a) h = elim (Option-cases (read v)) [
    | inl e ↦ absurd (Option.none-ne-some (some a) (rw e at h))
    | inr (b, e) ↦
        let same : some (some b) ≡ some (some a) = rw e at h in
        subst P (Option.some-injective _ _ (Option.some-injective _ _ same)) (reads v b e)
  ]

  pub nullable-HoldsOf : (v : Value) (x : Option A) → nullable read v ≡ some x → HoldsOf P x
  unfolding nullable
  nullable-HoldsOf null x h = subst (HoldsOf P) (Option.some-injective _ _ h) tt
  nullable-HoldsOf (boolean b) x h = mapped-HoldsOf (boolean b) x h
  nullable-HoldsOf (pos_int n) x h = mapped-HoldsOf (pos_int n) x h
  nullable-HoldsOf (neg_int n) x h = mapped-HoldsOf (neg_int n) x h
  nullable-HoldsOf (fraction n) x h = mapped-HoldsOf (fraction n) x h
  nullable-HoldsOf (string t) x h = mapped-HoldsOf (string t) x h
  nullable-HoldsOf (object fs) x h = mapped-HoldsOf (object fs) x h

  pub optional-HoldsOf :
      (o : Option (Option Value)) (x : Option A) → optional read o ≡ some x → HoldsOf P x
  unfolding optional
  optional-HoldsOf none x h = absurd (cc)
  optional-HoldsOf (some none) x h = subst (HoldsOf P) (Option.some-injective _ _ h) tt
  optional-HoldsOf (some (some v)) x h = nullable-HoldsOf v x h

pub read_unsigned-lt : (w : ℕ) (v : Value) (n : ℕ) → read_unsigned w v ≡ some n → n < 2 ^ w
unfolding read_unsigned
read_unsigned-lt w (pos_int m) n h = elim (Bool-cases (ltb m (2 ^ w))) [
  | inl t ↦
      let same : some m ≡ some n = rw t at h in
      subst (λ k. k < 2 ^ w) (Option.some-injective _ _ same) (ltb→lt m (2 ^ w) t)
  | inr t ↦ absurd (Option.none-ne-some n (rw t at h))
]
read_unsigned-lt w null n h = absurd (cc)
read_unsigned-lt w (boolean b) n h = absurd (cc)
read_unsigned-lt w (neg_int m) n h = absurd (cc)
read_unsigned-lt w (fraction m) n h = absurd (cc)
read_unsigned-lt w (string s) n h = absurd (cc)
read_unsigned-lt w (object fs) n h = absurd (cc)

pub read_i64-lt : (v : Value) (n : ℕ) → read_i64 v ≡ some n → n < 2 ^ 64
unfolding read_i64
read_i64-lt (pos_int m) n h = ground arith
read_i64-lt (neg_int m) n h = ground arith
read_i64-lt null n h = absurd (cc)
read_i64-lt (boolean b) n h = absurd (cc)
read_i64-lt (fraction m) n h = absurd (cc)
read_i64-lt (string s) n h = absurd (cc)
read_i64-lt (object fs) n h = absurd (cc)

pub read_object-holds :
    {A : Type 0} (read : Fields String → Option A) (P : A → Type 0)
    → ((fs : Fields String) (a : A) → read fs ≡ some a → P a)
    → (v : Value) (a : A) → read_object read v ≡ some a
    → P a
unfolding read_object
read_object-holds read P reads (object fs) a h = reads fs a h
read_object-holds read P reads null a h = absurd (cc)
read_object-holds read P reads (boolean b) a h = absurd (cc)
read_object-holds read P reads (pos_int n) a h = absurd (cc)
read_object-holds read P reads (neg_int n) a h = absurd (cc)
read_object-holds read P reads (fraction n) a h = absurd (cc)
read_object-holds read P reads (string t) a h = absurd (cc)

-- A group that is left out is the default.
pub defaulted-holds :
    {A : Type 0} (d : A) (read : Fields String → Option A) (P : A → Type 0)
    → P d
    → ((fs : Fields String) (a : A) → read fs ≡ some a → P a)
    → (o : Option (Option Value)) (a : A) → defaulted d (read_object read) o ≡ some a
    → P a
unfolding defaulted
defaulted-holds d read P base reads none a h = absurd (cc)
defaulted-holds d read P base reads (some none) a h = subst P (Option.some-injective _ _ h) base
defaulted-holds d read P base reads (some (some v)) a h = read_object-holds read P reads v a h

pub required-holds :
    {A : Type 0} (read : Value → Option A) (P : A → Type 0)
    → ((v : Value) (a : A) → read v ≡ some a → P a)
    → (o : Option (Option Value)) (a : A) → required read o ≡ some a
    → P a
unfolding required
required-holds read P reads none a h = absurd (cc)
required-holds read P reads (some none) a h = absurd (cc)
required-holds read P reads (some (some v)) a h = reads v a h
