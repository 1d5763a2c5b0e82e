-- ===== src/Scan/Reference.antt =====
-- What a scan should report: at each offset of the source, in order, each pattern that occurs there.
use latent_dfir.Common.{
  ℕ, zero, suc, ◌+◌, ◌-◌, ◌≤◌, ◌≡◌, refl, sym, ap, ap₂, ◌∙◌, arith, true, Bool-cases, inl, inr,
  List, [], ◌∷◌, ◌++◌, All, Bytes, starts_with, span, map, if◌then◌else◌, length, ◌==◌, ◌&&◌,
}
use latent_dfir.Scan.{Hit, hit_leb, Match}
use latent_dfir.Scan.Sort.{IsOrdered}
use mathlib.Core.List.{append_assoc}

-- The indices, from `i` on, of the patterns that `text` begins with.
unfoldable pub ids : ℕ → List Bytes → Bytes → List ℕ
ids i [] text = []
ids i (p ∷ ps) text =
    let rest = ids (suc i) ps text in if starts_with text p then i ∷ rest else rest

abbrev pub match_of : ℕ → ℕ → Match
match_of o i = record { start = o; pattern = i }

abbrev pub hit_of : ℕ → ℕ → Hit
hit_of o i = record { offset = o; pattern_id = i }

-- Every occurrence of a pattern in `text`, whose first byte is at `o`, overlapping ones included.
unfoldable pub occurrences : List Bytes → ℕ → Bytes → List Match
unfolding ids
occurrences patterns o [] = map (match_of o) (ids 0 patterns [])
occurrences patterns o (b ∷ bs) =
    map (match_of o) (ids 0 patterns (b ∷ bs)) ++ occurrences patterns (suc o) bs

-- The hits at the `n` offsets from `o` on in a source of `size` bytes `f`.
unfoldable pub hits_in : List Bytes → (ℕ → ℕ) → ℕ → ℕ → ℕ → List Hit
unfolding ids
hits_in patterns f size o zero = []
hits_in patterns f size o (suc n) =
    map (hit_of o) (ids 0 patterns (span f o (size - o))) ++ hits_in patterns f size (suc o) n

module _ (f : ℕ → ℕ) where
  -- A pattern is seen or not whatever follows the bytes that it covers.
  pub starts_with-span :
      (p : Bytes) (o m n : ℕ)
      → length p ≤ m
      → length p ≤ n
      → starts_with (span f o m) p ≡ starts_with (span f o n) p
  starts_with-span [] o m n h k = refl
  starts_with-span (b ∷ bs) o zero n h k = absurd (omega arith)
  starts_with-span (b ∷ bs) o (suc m) zero h k = absurd (omega arith)
  starts_with-span (b ∷ bs) o (suc m) (suc n) h k =
      ap (λ t. (f o == b) && t) (starts_with-span bs (suc o) m n (omega arith) (omega arith))

  pub ids-span :
      (i : ℕ) (ps : List Bytes) (o m n : ℕ)
      → All (λ p. length p ≤ m) ps
      → All (λ p. length p ≤ n) ps
      → ids i ps (span f o m) ≡ ids i ps (span f o n)
  unfolding ids
  ids-span i [] o m n h k = refl
  ids-span i (p ∷ ps) o m n (h, hs) (k, ks) =
      rw (starts_with-span p o m n h k, ids-span (suc i) ps o m n hs ks)

module _ (patterns : List Bytes) (f : ℕ → ℕ) (size : ℕ) where
  pub hits_in-add :
      (o m n : ℕ)
      → hits_in patterns f size o (m + n)
        ≡ hits_in patterns f size o m ++ hits_in patterns f size (o + m) n
  unfolding hits_in
  hits_in-add o zero n = ap₂ (hits_in patterns f size) (omega arith) (omega arith)
  hits_in-add o (suc m) n =
      ap (hits_in patterns f size o) {y = suc (m + n)} (omega arith)
      ∙ ap (λ l. here ++ l)
          (hits_in-add (suc o) m n
            ∙ ap (λ k. hits_in patterns f size (suc o) m ++ hits_in patterns f size k n)
                {y = o + suc m} (omega arith))
      ∙ sym (append_assoc here _ _)
    where
      here : List Hit
      here = map (hit_of o) (ids 0 patterns (span f o (size - o)))

-- All hits of the list are at or behind offset `o`, and those at `o` have an id of at least `i`.
abbrev From : ℕ → ℕ → List Hit → Type 0
From o i = All (λ h. (o ≤ h.offset) × (h.offset ≡ o → i ≤ h.pattern_id))

From-IsOrdered-cons :
    (o i : ℕ) (hs : List Hit) → From o (suc i) hs → All (λ k. hit_leb (hit_of o i) k ≡ true) hs
unfolding hit_leb
From-IsOrdered-cons o i [] a = tt
From-IsOrdered-cons o i (h ∷ hs) (a, rest) = (ground (arith, a.1), From-IsOrdered-cons o i hs rest)

From-weaken : (o i : ℕ) (hs : List Hit) → From o (suc i) hs → From o i hs
From-weaken o i [] a = tt
From-weaken o i (h ∷ hs) ((a, b), rest) = ((a, λ e. omega (arith, b e)), From-weaken o i hs rest)

From-next : (o i : ℕ) (hs : List Hit) → From (suc o) 0 hs → From o i hs
From-next o i [] a = tt
From-next o i (h ∷ hs) ((a, b), rest) = ((omega arith, λ e. omega arith), From-next o i hs rest)

-- The hits of one offset, before hits of later ones, are in order.
ids-IsOrdered :
    (i o : ℕ) (ps : List Bytes) (text : Bytes) (later : List Hit)
    → From (suc o) 0 later
    → IsOrdered later
    → From o i (map (hit_of o) (ids i ps text) ++ later)
      × IsOrdered (map (hit_of o) (ids i ps text) ++ later)
unfolding ids
ids-IsOrdered i o [] text later a s = (From-next o i later a, s)
ids-IsOrdered i o (p ∷ ps) text later a s =
    let (b, t) = ids-IsOrdered (suc i) o ps text later a s in
    elim (Bool-cases (starts_with text p)) [
      | inl y ↦
          rw y (
            ((omega arith, λ e. omega arith), From-weaken o i _ b),
            (From-IsOrdered-cons o i _ b, t),
          )
      | inr n ↦ rw n (From-weaken o i _ b, t)
    ]

pub hits_in-IsOrdered :
    (patterns : List Bytes) (f : ℕ → ℕ) (size o n : ℕ)
    → From o 0 (hits_in patterns f size o n) × IsOrdered (hits_in patterns f size o n)
unfolding hits_in
hits_in-IsOrdered patterns f size o zero = (tt, tt)
hits_in-IsOrdered patterns f size o (suc n) =
    let (a, s) = hits_in-IsOrdered patterns f size (suc o) n in
    ids-IsOrdered 0 o patterns (span f o (size - o)) (hits_in patterns f size (suc o) n) a s
