-- ===== src/Common/Access.antt =====
-- Reading and writing lists at an index.
use Prim.Native.Nat.{ℕ, zero, suc, ◌+◌, ◌<◌}
use mathlib.Core.Path.{◌≡◌, refl, ap, subst, ◌∙◌}
use mathlib.Core.List.{List, [], ◌∷◌, ◌++◌, map}
use mathlib.Core.Option.{some}
use native.Mathlib.Omega.{arith}
use latent_dfir.Common.Lists.{length, get_elem?, All, set}

-- Where `get` finds in `xs ++ ys`.
pub data Place {ℓ} {A : Type ℓ} (xs ys : List A) (i : ℕ) (x : A) : Type ℓ where
  left : get_elem? xs i ≡ some x → Place xs ys i x
  right : (j : ℕ) → i ≡ length xs + j → get_elem? ys j ≡ some x → Place xs ys i x

pub get_elem?-append {ℓ} :
    {A : Type ℓ} (xs ys : List A) (i : ℕ) (x : A)
    → get_elem? (xs ++ ys) i ≡ some x
    → Place xs ys i x
get_elem?-append [] ys i x h = right i (omega arith) h
get_elem?-append (z ∷ zs) ys zero x h = left h
get_elem?-append (z ∷ zs) ys (suc i) x h = elim (get_elem?-append zs ys i x h) [
  | left e ↦ left e
  | right j e k ↦ right j (omega arith) k
]

pub get_elem?-append_right {ℓ} :
    {A : Type ℓ} (xs ys : List A) (j : ℕ) → get_elem? (xs ++ ys) (length xs + j) ≡ get_elem? ys j
get_elem?-append_right [] ys j = ap (get_elem? ys) {y = j} (omega arith)
get_elem?-append_right (x ∷ xs) ys j =
    ap (get_elem? (x ∷ xs ++ ys)) {y = suc (length xs + j)} (omega arith)
    ∙ get_elem?-append_right xs ys j

pub get_elem?-append_left {ℓ} :
    {A : Type ℓ} (xs ys : List A) (i : ℕ) (x : A)
    → get_elem? xs i ≡ some x
    → get_elem? (xs ++ ys) i ≡ some x
get_elem?-append_left [] ys i x h = absurd (cc)
get_elem?-append_left (z ∷ zs) ys zero x h = h
get_elem?-append_left (z ∷ zs) ys (suc i) x h = get_elem?-append_left zs ys i x h

-- A constant map and the list it is made from.
pub get_elem?-map_const {ℓ} :
    {A : Type ℓ} (c : ℕ) (xs : List A) (i x : ℕ)
    → get_elem? (map (λ s. c) xs) i ≡ some x
    → (a : A) × (get_elem? xs i ≡ some a) × (x ≡ c)
get_elem?-map_const c [] i x h = absurd (cc)
get_elem?-map_const c (a ∷ xs) zero x h = (a, refl, cc)
get_elem?-map_const c (a ∷ xs) (suc i) x h = get_elem?-map_const c xs i x h

pub get_elem?-const {ℓ} :
    {A : Type ℓ} (c : ℕ) (xs : List A) (i : ℕ) (a : A)
    → get_elem? xs i ≡ some a
    → get_elem? (map (λ s. c) xs) i ≡ some c
get_elem?-const c [] i a h = absurd (cc)
get_elem?-const c (x ∷ xs) zero a h = refl
get_elem?-const c (x ∷ xs) (suc i) a h = get_elem?-const c xs i a h

pub length-map_const {ℓ} : {A : Type ℓ} (c : ℕ) (xs : List A) → length (map (λ s. c) xs) ≡ length xs
length-map_const c [] = refl
length-map_const c (x ∷ xs) = ap suc (length-map_const c xs)

pub All-get {ℓ κ} :
    {A : Type ℓ} (P : A → Type κ) (xs : List A) (i : ℕ) (x : A)
    → All P xs
    → get_elem? xs i ≡ some x
    → P x
All-get P [] i x h e = absurd (cc)
All-get P (y ∷ ys) zero x h e = let same : y ≡ x = cc in subst P same (h.0)
All-get P (y ∷ ys) (suc i) x h e = All-get P ys i x (h.1) e

pub All-set {ℓ κ} :
    {A : Type ℓ} (P : A → Type κ) (xs : List A) (i : ℕ) (x : A)
    → All P xs
    → P x
    → All P (set xs i x)
All-set P [] i x h p = h
All-set P (y ∷ ys) zero x h p = (p, h.1)
All-set P (y ∷ ys) (suc i) x h p = (h.0, All-set P ys i x (h.1) p)

pub length-set {ℓ} : {A : Type ℓ} (xs : List A) (i : ℕ) (x : A) → length (set xs i x) ≡ length xs
length-set [] i x = refl
length-set (y ∷ ys) zero x = refl
length-set (y ∷ ys) (suc i) x = ap suc (length-set ys i x)

pub get_elem?-lt {ℓ} :
    {A : Type ℓ} (xs : List A) (i : ℕ) → i < length xs → (x : A) × (get_elem? xs i ≡ some x)
get_elem?-lt [] i h = absurd (omega arith)
get_elem?-lt (x ∷ xs) zero h = (x, refl)
get_elem?-lt (x ∷ xs) (suc i) h = get_elem?-lt xs i (omega arith)

pub lt-get_elem? {ℓ} :
    {A : Type ℓ} (xs : List A) (i : ℕ) (x : A) → get_elem? xs i ≡ some x → i < length xs
lt-get_elem? [] i x h = absurd (cc)
lt-get_elem? (y ∷ xs) zero x h = omega arith
lt-get_elem? (y ∷ xs) (suc i) x h = omega (arith, lt-get_elem? xs i x h)

pub All-append {ℓ κ} :
    {A : Type ℓ} (P : A → Type κ) (xs ys : List A) → All P xs → All P ys → All P (xs ++ ys)
All-append P [] ys h k = k
All-append P (x ∷ xs) ys (a, b) k = (a, All-append P xs ys b k)

pub All-map {ℓ κ μ ν} :
    {A : Type ℓ} {B : Type κ} (P : A → Type μ) (Q : B → Type ν) (g : A → B) (xs : List A)
    → ((x : A) → P x → Q (g x))
    → All P xs
    → All Q (map g xs)
All-map P Q g [] h a = tt
All-map P Q g (x ∷ xs) h (a, rest) = (h x a, All-map P Q g xs h rest)

pub All-weaken {ℓ κ μ} :
    {A : Type ℓ} (P : A → Type κ) (Q : A → Type μ) (xs : List A)
    → ((x : A) → P x → Q x)
    → All P xs
    → All Q xs
All-weaken P Q [] h a = tt
All-weaken P Q (x ∷ xs) h (a, rest) = (h x a, All-weaken P Q xs h rest)

pub get_elem?-map {ℓ κ} :
    {A : Type ℓ} {B : Type κ} (f : A → B) (xs : List A) (i : ℕ) (x : A)
    → get_elem? xs i ≡ some x
    → get_elem? (map f xs) i ≡ some (f x)
get_elem?-map f [] i x h = absurd (cc)
get_elem?-map f (y ∷ xs) zero x h = let same : y ≡ x = cc in ap (λ z. some (f z)) same
get_elem?-map f (y ∷ xs) (suc i) x h = get_elem?-map f xs i x h

pub map-get_elem? {ℓ κ} :
    {A : Type ℓ} {B : Type κ} (f : A → B) (xs : List A) (i : ℕ) (y : B)
    → get_elem? (map f xs) i ≡ some y
    → (x : A) × (get_elem? xs i ≡ some x) × (y ≡ f x)
map-get_elem? f [] i y h = absurd (cc)
map-get_elem? f (x ∷ xs) zero y h = (x, refl, cc)
map-get_elem? f (x ∷ xs) (suc i) y h = map-get_elem? f xs i y h

-- The element stands somewhere in the list.
abbrev pub Among {ℓ} : {A : Type ℓ} → A → List A → Type ℓ
Among x xs = (i : ℕ) × (get_elem? xs i ≡ some x)

pub Among-map {ℓ κ} :
    {A : Type ℓ} {B : Type κ} (f : A → B) (xs : List A) (x : A)
    → Among x xs
    → Among (f x) (map f xs)
Among-map f xs x (i, at) = (i, get_elem?-map f xs i x at)

pub Among-append_left {ℓ} : {A : Type ℓ} (xs ys : List A) (x : A) → Among x xs → Among x (xs ++ ys)
Among-append_left [] ys x (i, at) = absurd (cc)
Among-append_left (y ∷ xs) ys x (zero, at) = (0, at)
Among-append_left (y ∷ xs) ys x (suc i, at) =
    let (j, there) = Among-append_left xs ys x (i, at) in (suc j, there)

pub Among-append_right {ℓ} : {A : Type ℓ} (xs ys : List A) (x : A) → Among x ys → Among x (xs ++ ys)
Among-append_right [] ys x h = h
Among-append_right (y ∷ xs) ys x h = let (j, there) = Among-append_right xs ys x h in (suc j, there)

pub Among-single {ℓ} : {A : Type ℓ} (x y : A) → Among y (x ∷ []) → y ≡ x
Among-single x y (zero, at) = cc
Among-single x y (suc i, at) = absurd (cc)
