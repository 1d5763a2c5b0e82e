-- ===== src/Partition/Numbered.antt =====
-- The numbers of the partitions, and how many there are.
use latent_dfir.Common.{
  ℕ, suc, ◌+◌, ◌≤◌, ◌≡◌, sym, arith, Option, List, [], ◌∷◌, ◌++◌, length, length-append, subst,
  Bytes,
}
use latent_dfir.Partition.{Partition}
use latent_dfir.Partition.Gpt.Spec.{Listed, done, skip, keep, IsGpt}
use latent_dfir.Partition.Mbr.Spec as Mbr
use latent_dfir.Partition.Mbr.Spec.{
  Rows, vacant, container, volume, Logical, unused, used, Chain, spent, broken, last, linked,
  Logicals, no_container, in_container, IsMbr,
}

-- The partitions carry the numbers from `first` on, in order.
pub data IsNumbered : ℕ → List Partition → Type 0 where
  none_left : {first : ℕ} → IsNumbered first []
  numbered :
      {first : ℕ} {p : Partition} {ps : List Partition}
      → p.index ≡ first
      → IsNumbered (suc first) ps
      → IsNumbered first (p ∷ ps)

append-IsNumbered :
    (ps qs : List Partition) (first : ℕ)
    → IsNumbered first ps
    → IsNumbered (first + length ps) qs
    → IsNumbered first (ps ++ qs)
append-IsNumbered [] qs first h k = subst (λ n. IsNumbered n qs) (omega arith) k
append-IsNumbered (p ∷ ps) qs first (numbered e h) k =
    numbered e
      (append-IsNumbered ps qs (suc first) h (subst (λ n. IsNumbered n qs) (omega arith) k))

module _ (f : ℕ → ℕ) where
  -- At most `n` partitions, numbered.
  abbrev Few : ℕ → ℕ → List Partition → Type 0
  Few n first ps = IsNumbered first ps × length ps ≤ n

  Listed-Few : {k o first n : ℕ} {ps : List Partition} → Listed f k o first n ps → Few n first ps
  Listed-Few done = (none_left, omega arith)
  Listed-Few (skip u rest) = let (a, b) = Listed-Few rest in (a, omega (arith, b))
  Listed-Few (keep d rest) =
      let (a, b) = Listed-Few rest in (numbered (d.index) a, omega (arith, b))

  Rows-Few :
      {o first n : ℕ} {ps : List Partition} {x y : Option ℕ}
      → Rows f o first n ps x y
      → Few n first ps
  Rows-Few Mbr.done = (none_left, omega arith)
  Rows-Few (vacant v rest) = let (a, b) = Rows-Few rest in (a, omega (arith, b))
  Rows-Few (container c rest) = let (a, b) = Rows-Few rest in (a, omega (arith, b))
  Rows-Few (volume m c d rest) =
      let (a, b) = Rows-Few rest in (numbered (d.index) a, omega (arith, b))

  module _ (size : ℕ) where
    Logical-Few :
        {ebr first : ℕ} {ps : List Partition} → Logical f size ebr first ps → Few 1 first ps
    Logical-Few (unused u) = (none_left, omega arith)
    Logical-Few (used d) = (numbered (d.index) none_left, omega arith)

    Chain-Few :
        {base rounds ebr first : ℕ} {ps : List Partition}
        → Chain f size base rounds ebr first ps
        → Few rounds first ps
    Chain-Few spent = (none_left, omega arith)
    Chain-Few (broken b) = (none_left, omega arith)
    Chain-Few (last i l e) = let (a, b) = Logical-Few l in (a, omega (arith, b))
    Chain-Few (linked {ps = ps} {qs = qs} i l a b rest) =
        let (m, n) = Logical-Few l in
        let (u, v) = Chain-Few rest in
        (append-IsNumbered ps qs _ m u, omega (arith, n, v, length-append ps qs))

    Logicals-Few :
        {first : ℕ} {x : Option ℕ} {ps : List Partition}
        → Logicals f size first x ps
        → Few 1024 first ps
    Logicals-Few no_container = (none_left, omega arith)
    Logicals-Few (in_container chain) = Chain-Few chain

    pub IsMbr-IsNumbered :
        (ps : List Partition) → IsMbr f size ps → IsNumbered 0 ps × length ps ≤ 1028
    IsMbr-IsNumbered ps m =
        let (a, b) = Rows-Few m.rows in
        let (c, d) = Logicals-Few m.chain in
        (
          subst (IsNumbered 0) (sym m.all) (
              append-IsNumbered m.primaries m.logicals 0 a
                (subst (λ n. IsNumbered n m.logicals) (omega arith) c)),
          subst (λ l. length l ≤ 1028) (sym m.all)
              (omega (arith, b, d, length-append m.primaries m.logicals)),
        )

  pub IsGpt-IsNumbered :
      (crc32 : Bytes → ℕ) (ps : List Partition)
      → IsGpt f crc32 ps
      → IsNumbered 0 ps × length ps ≤ 4096
  IsGpt-IsNumbered crc32 ps g =
      let (a, b) = Listed-Few g.listed in (a, omega (arith, b, g.has_entries.few_entries))
