-- ===== src/Scan/Sort.antt =====
-- The order of hits, and `sort`.
use latent_dfir.Common.{
  ℕ, ◌≡◌, refl, sym, ap, ap₂, ◌∙◌, ltb, add64, if◌then◌else◌, arith, true, false, Bool-cases, inl,
  inr, List, [], ◌∷◌, All,
}
use latent_dfir.Scan.{Hit, hit_leb, insert, sort, Match, keep_owned}
use mathlib.Core.List.{Permᴰ}

-- In order: each hit is below or equal to all after it.
abbrev pub IsOrdered : List Hit → Type 0
IsOrdered [] = Unit
IsOrdered (h ∷ hs) = All (λ k. hit_leb h k ≡ true) hs × IsOrdered hs

insert-least : (h : Hit) (hs : List Hit) → All (λ k. hit_leb h k ≡ true) hs → insert h hs ≡ h ∷ hs
unfolding insert
insert-least h [] a = refl
insert-least h (k ∷ ks) a = ground arith

pub sort-IsOrdered : (hs : List Hit) → IsOrdered hs → sort hs ≡ hs
unfolding sort
sort-IsOrdered [] o = refl
sort-IsOrdered (h ∷ hs) (a, o) = ap (insert h) (sort-IsOrdered hs o) ∙ insert-least h hs a

hit_leb_trans : (h k l : Hit) → hit_leb h k ≡ true → hit_leb k l ≡ true → hit_leb h l ≡ true
unfolding hit_leb
hit_leb_trans h k l p q = ground arith

hit_leb-total : (h k : Hit) → hit_leb h k ≡ false → hit_leb k h ≡ true
unfolding hit_leb
hit_leb-total h k p = ground arith

hit_leb_antisymm : (h k : Hit) → hit_leb h k ≡ true → hit_leb k h ≡ true → h ≡ k
unfolding hit_leb
hit_leb_antisymm h k p q = ground arith

insert-insert : (h k : Hit) (hs : List Hit) → insert h (insert k hs) ≡ insert k (insert h hs)
unfolding insert
insert-insert h k [] = ground (arith, hit_leb-total h k, hit_leb_antisymm h k)
insert-insert h k (l ∷ ls) = ground (
  arith,
  hit_leb-total h k,
  hit_leb_antisymm h k,
  hit_leb-total h l,
  hit_leb-total k l,
  hit_leb_trans h k l,
  hit_leb_trans k h l,
  insert-insert h k ls,
)

module _ (start owned : ℕ) where
  -- What one match adds to the sorted hits.
  settle : Match → List Hit → List Hit
  settle m hs =
      if ltb m.start owned
      then insert (record { offset = add64 start m.start; pattern_id = m.pattern }) hs
      else hs

  sort-keep_owned-cons :
      (m : Match) (ms : List Match)
      → sort (keep_owned start owned (m ∷ ms)) ≡ settle m (sort (keep_owned start owned ms))
  unfolding keep_owned sort settle
  sort-keep_owned-cons m ms = elim (Bool-cases (ltb m.start owned)) [ inl t ↦ rw t | inr f ↦ rw f ]

  settle-settle : (m n : Match) (hs : List Hit) → settle m (settle n hs) ≡ settle n (settle m hs)
  unfolding settle
  settle-settle m n hs = elim (Bool-cases (ltb m.start owned)) [
    | inl t ↦ rw t (elim (Bool-cases (ltb n.start owned)) [
      | inl u ↦ rw u (insert-insert _ _ hs)
      | inr u ↦ rw u
    ])
    | inr f ↦ rw f
  ]

  -- Whatever order the matches come in, the hits kept and sorted are the same.
  pub sort-keep_owned-perm :
      {ms ns : List Match}
      → Permᴰ ms ns
      → sort (keep_owned start owned ms) ≡ sort (keep_owned start owned ns)
  sort-keep_owned-perm Permᴰ.nil = refl
  sort-keep_owned-perm (Permᴰ.cons {a = m} {b = n} e d) =
      sort-keep_owned-cons m _
      ∙ ap₂ settle e (sort-keep_owned-perm d)
      ∙ sym (sort-keep_owned-cons n _)
  sort-keep_owned-perm (Permᴰ.swap {a = m} {b = n} {a' = m'} {b' = n'} {l = l} e d) =
      sort-keep_owned-cons m (n ∷ l)
      ∙ ap (settle m) (sort-keep_owned-cons n l)
      ∙ settle-settle m n _
      ∙ ap₂ (λ a b. settle a (settle b (sort (keep_owned start owned l)))) d e
      ∙ ap (settle m') (sym (sort-keep_owned-cons n' l))
      ∙ sym (sort-keep_owned-cons m' (n' ∷ l))
  sort-keep_owned-perm (Permᴰ.trans d e) = sort-keep_owned-perm d ∙ sort-keep_owned-perm e
