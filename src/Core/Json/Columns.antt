-- ===== src/Core/Json/Columns.antt =====
-- Each member of a written struct is found under its name, and what was written is read back.
use mathlib.Core.Option
use latent_dfir.Common.{
  ℕ, zero, suc, ◌+◌, ◌^◌, ◌-◌, ◌<◌, ◌≡◌, refl, sym, subst, ap, ◌∙◌, arith, Bool, true, false, not,
  ◌&&◌, Bool-cases, &&-true, inl, inr, Option, none, some, List, [], ◌∷◌, String, ltb, lt→ltb,
  get_elem?,
}
use latent_dfir.Core.Json.{
  Json, Fields, pos_int, string, same_text, same_text_refl, put_field, first_of, find, nullable,
  optional, read_string, read_unsigned, put_i64, read_i64, Column, to_fields,
}

module _ {T R : Type 0} where
  abbrev fresh : String → List (Column T R) → Bool
  fresh name [] = true
  fresh name (c ∷ cs) =
      not (same_text name c.name) && (not (same_text c.name name) && fresh name cs)

  -- No two fields have the same name.
  abbrev pub distinct : List (Column T R) → Bool
  distinct [] = true
  distinct (c ∷ cs) = fresh c.name cs && distinct cs

module _ {T : Type 0} where
  find-put_other :
      (name other : String) (o : Option (Json T)) (rest : Fields T)
      → same_text name other ≡ false
      → find name (put_field other o rest) ≡ find name rest
  unfolding find put_field
  find-put_other name other none rest h = refl
  find-put_other name other (some v) rest h = rw h

  find-put_same :
      (name : String) (o : Option (Json T)) (rest : Fields T)
      → find name rest ≡ some none
      → find name (put_field name o rest) ≡ some o
  unfolding find put_field first_of
  find-put_same name none rest h = h
  find-put_same name (some v) rest h = rw (same_text_refl name, h)

not-true : (b : Bool) → not b ≡ true → b ≡ false
not-true true h = absurd (cc)
not-true false h = refl

module _ {T R : Type 0} (r : R) where
  find-fresh :
      (name : String) (cs : List (Column T R))
      → fresh name cs ≡ true
      → find name (to_fields cs r) ≡ some none
  unfolding to_fields find
  find-fresh name [] h = refl
  find-fresh name (c ∷ cs) h =
      let (one, more) = &&-true (not (same_text name c.name)) _ h in
      find-put_other name c.name (c.put r) (to_fields cs r) (not-true _ one)
      ∙ find-fresh name cs (&&-true (not (same_text c.name name)) _ more).1

  fresh-get :
      (name : String) (cs : List (Column T R)) (i : ℕ) (c : Column T R)
      → fresh name cs ≡ true
      → get_elem? cs i ≡ some c
      → same_text c.name name ≡ false
  fresh-get name [] i c h e = absurd (cc)
  fresh-get name (c' ∷ cs) zero c h e =
      let (one, more) = &&-true (not (same_text name c'.name)) _ h in
      ap (λ x. same_text x.name name) (sym (Option.some-injective _ _ e))
      ∙ not-true _ (&&-true (not (same_text c'.name name)) _ more).0
  fresh-get name (c' ∷ cs) (suc i) c h e =
      let (one, more) = &&-true (not (same_text name c'.name)) _ h in
      fresh-get name cs i c (&&-true (not (same_text c'.name name)) _ more).1 e

  pub find-to_fields :
      (cs : List (Column T R)) (i : ℕ) (c : Column T R)
      → distinct cs ≡ true
      → get_elem? cs i ≡ some c
      → find c.name (to_fields cs r) ≡ some (c.put r)
  unfolding to_fields
  find-to_fields [] i c h e = absurd (cc)
  find-to_fields (c' ∷ cs) zero c h e =
      let (one, more) = &&-true (fresh c'.name cs) _ h in
      subst (λ x. find x.name (put_field c'.name (c'.put r) (to_fields cs r)) ≡ some (x.put r))
        (Option.some-injective _ _ e)
        (find-put_same c'.name (c'.put r) (to_fields cs r) (find-fresh c'.name cs one))
  find-to_fields (c' ∷ cs) (suc i) c h e =
      let (one, more) = &&-true (fresh c'.name cs) _ h in
      find-put_other c.name c'.name (c'.put r) (to_fields cs r) (fresh-get c'.name cs i c one e)
      ∙ find-to_fields cs i c more e

-- An absent value, or one with the property.
abbrev pub HoldsOf {ℓ} : {A : Type 0} → (A → Type ℓ) → Option A → Type ℓ
HoldsOf P none = Unit
HoldsOf P (some a) = P a

module _ {T : Type 0} where
  pub optional-map :
      {A : Type 0} (read : Json T → Option A) (put : A → Json T) (P : A → Type 0) (o : Option A)
      → HoldsOf P o
      → ((a : A) → P a → nullable read (put a) ≡ some (some a))
      → optional read (some (Option.map put o)) ≡ some o
  unfolding optional
  optional-map read put P none h k = refl
  optional-map read put P (some a) h k = k a h

  pub optional-string : (o : Option T) → optional read_string (some (Option.map string o)) ≡ some o
  unfolding optional nullable read_string
  optional-string none = refl
  optional-string (some t) = refl

module _ (T : Type 0) where
  pub read_unsigned-pos_int : (w n : ℕ) → n < 2 ^ w → read_unsigned {T = T} w (pos_int n) ≡ some n
  unfolding read_unsigned
  read_unsigned-pos_int w n h = rw (lt→ltb n (2 ^ w) h)

  pub optional-unsigned :
      (w : ℕ) (o : Option ℕ)
      → HoldsOf (λ n. n < 2 ^ w) o
      → optional {T = T} (read_unsigned w) (some (Option.map pos_int o)) ≡ some o
  unfolding nullable
  optional-unsigned w o h =
      optional-map (read_unsigned w) pos_int (λ n. n < 2 ^ w) o h
        λ n lt. ap (Option.map some) (read_unsigned-pos_int w n lt)

  read_i64-put_i64 : (n : ℕ) → n < 2 ^ 64 → nullable {T = T} read_i64 (put_i64 n) ≡ some (some n)
  unfolding nullable read_i64 put_i64
  read_i64-put_i64 n h = elim (Bool-cases (ltb n (2 ^ 63))) [
    | inl small ↦ rw (small, small)
    | inr large ↦
        rw
          (
            large,
            lt→ltb 0 (2 ^ 64 - n) (omega arith),
            lt→ltb (2 ^ 64 - n) (2 ^ 63 + 1) (ground arith),
          )
          (ap (λ k. some (some k)) {x = 2 ^ 64 - (2 ^ 64 - n)} {y = n} (omega arith))
  ]

  pub optional-i64 :
      (o : Option ℕ)
      → HoldsOf (λ n. n < 2 ^ 64) o
      → optional {T = T} read_i64 (some (Option.map put_i64 o)) ≡ some o
  optional-i64 o h = optional-map read_i64 put_i64 (λ n. n < 2 ^ 64) o h read_i64-put_i64
