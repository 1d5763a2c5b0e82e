-- ===== src/Partition/Mbr/Chains.antt =====
-- The chain of extended boot records.
use latent_dfir.Common.{
  ℕ, zero, suc, ◌+◌, ◌*◌, ◌≤◌, ◌<◌, ◌≡◌, ◌≢◌, ◌⊎◌, inl, inr, refl, sym, ◌∙◌, arith, subst, true,
  false, Bool, not, ◌&&◌, Option, none, some, List, [], ◌++◌, length, length-append, ok, Bytes,
  span, mul64, add64, ◌==◌, ==_iff, both_ways, if◌then◌else◌, add64-exact, Settles, Settles-map,
  >>=-Settles,
}
use latent_dfir.Source.{Source, read_exact_at}
use latent_dfir.Source.Reads.{Serves, read_exact_at-span, read_exact_at-fails}
use latent_dfir.Partition.{Partition, sector_size}
use latent_dfir.Partition.Fields.{field-then, byte_at-then, slice-then}
use latent_dfir.Partition.Mbr.{
  is_marked, add_logical, next_ebr, marked_ebr, ebr_round, read_logical,
}
use latent_dfir.Partition.Mbr.Spec.{
  kind, first_lba, sectors, IsMarked, IsEbr, link, Logical, unused, used, Chain, spent, broken,
  last, linked,
}
use latent_dfir.Partition.Mbr.Rows.{le_at-small, primary-Describes}
use mathlib.Core.List.{append_assoc, append-nil}
use native.Mathlib.Decide.{dec_lt}

module _ (f : ℕ → ℕ) where
  -- What the test of the signature tells of the sector at `o`.
  abbrev pub Tells : ℕ → Bool → Type 0
  Tells o true = IsMarked f o
  Tells o false = ¬ IsMarked f o

  told : (o : ℕ) (b : Bool) → b ≡ ((f (o + 510) == 0x55) && (f (o + 511) == 0xaa)) → Tells o b
  told o true e = record { mark_55 = ground arith; mark_aa = ground arith }
  told o false e = λ m. ground (arith, m.mark_55, m.mark_aa)

  pub is_marked-Settles : (o : ℕ) (b : Bytes) → b ≡ span f o 512 → Settles ⊥ (Tells o) (is_marked b)
  unfolding is_marked
  is_marked-Settles o b e =
      byte_at-then f ⊥ (Tells o) o 512 e 510 _ (omega arith)
        (byte_at-then f ⊥ (Tells o) o 512 e 511 _ (omega arith) (told o _ refl))

absent_entry : (k c : ℕ) → (not (k == 0) && not (c == 0)) ≡ false → k ≡ 0 ⊎ c ≡ 0
absent_entry k c h = elim (dec_lt 0 k) [ yes l ↦ inr (ground arith) | no l ↦ inl (omega arith) ]

module _ {src : Source} {f : ℕ → ℕ} (s : Serves src f) (bytes : (i : ℕ) → f i < 256) where
  -- The partitions after the round of one extended boot record.
  data Added (ebr : ℕ) (before : List Partition) : List Partition → Type 0 where
    added :
        {ps : List Partition}
        → Logical f src.size ebr (length before) ps
        → Added ebr before (before ++ ps)

  add_logical-Settles :
      (ebr : ℕ) (before : List Partition) (b : Bytes)
      → ebr < 0x2_0000_0000
      → b ≡ span f (ebr * sector_size) 512
      → Settles ⊥ (Added ebr before) (add_logical before ebr b)
  unfolding add_logical
  add_logical-Settles ebr before b h e =
      let P = Added ebr before in
      let o = ebr * sector_size in
      slice-then f ⊥ P o 512 e 446 462 _ (omega arith) (omega arith) (
        byte_at-then f ⊥ P (o + 446) 16 refl 4 _ (omega arith) (
          field-then f ⊥ P (o + 446) 16 refl 8 4 _ (omega arith) (
            field-then f ⊥ P (o + 446) 16 refl 12 4 _ (omega arith) (
              both_ways P (not (kind f (o + 446) == 0) && not (sectors f (o + 446) == 0)) _ before
                (λ t. added (
                  used (
                    primary-Describes f bytes ebr (o + 446) (length before)
                      (add64 ebr (first_lba f (o + 446)))
                      (omega (arith, le_at-small f bytes (o + 446 + 8))) h (ground arith)
                      (ground arith))))
                λ t.
                  subst P (append-nil before)
                    (added (unused (absent_entry (kind f (o + 446)) (sectors f (o + 446)) t)))))))

  -- Where the next one is.
  data Linked (base ebr : ℕ) : Option ℕ → Type 0 where
    ends_here : link f src.size ebr ≡ 0 ⊎ base + link f src.size ebr ≡ ebr → Linked base ebr none
    goes_on :
        link f src.size ebr ≢ 0
        → base + link f src.size ebr ≢ ebr
        → Linked base ebr (some (base + link f src.size ebr))

  next_ebr-Settles :
      (base ebr : ℕ) (b : Bytes)
      → base < 0x1_0000_0000
      → b ≡ span f (ebr * sector_size) 512
      → Settles ⊥ (Linked base ebr) (next_ebr base ebr b)
  unfolding next_ebr
  next_ebr-Settles base ebr b h e =
      let P = Linked base ebr in
      let o = ebr * sector_size in
      let rel = link f src.size ebr in
      slice-then f ⊥ P o 512 e 462 478 _ (omega arith) (omega arith) (
        field-then f ⊥ P (o + 462) 16 refl 8 4 _ (omega arith) (
          both_ways P (rel == 0) _ _ (λ t. ends_here (inl ((==_iff _ _).0 t)))
            λ t.
              subst (λ t. P (if t == ebr then none else some t))
                (sym (add64-exact base rel (omega (arith, le_at-small f bytes (o + 462 + 8)))))
                (both_ways P (base + rel == ebr) _ _ (λ k. ends_here (inr ((==_iff _ _).0 k)))
                  λ k. goes_on (ground arith) (ground arith))))

  -- What one round does.
  data Round (base ebr : ℕ) (before : List Partition) : List Partition × Option ℕ → Type 0 where
    broken_round : ¬ IsEbr f src.size ebr → Round base ebr before (before, none)
    ebr_done :
        {ps : List Partition} {next : Option ℕ}
        → IsEbr f src.size ebr
        → Logical f src.size ebr (length before) ps
        → Linked base ebr next
        → Round base ebr before (before ++ ps, next)

  ebr_done-Round :
      (base ebr : ℕ) (before : List Partition)
      → IsEbr f src.size ebr
      → (qs : List Partition) → Added ebr before qs
      → (next : Option ℕ) → Linked base ebr next
      → Round base ebr before (qs, next)
  ebr_done-Round base ebr before i qs (added l) next k = ebr_done i l k

  marked_ebr-Settles :
      (base ebr : ℕ) (before : List Partition) (b : Bytes)
      → base < 0x1_0000_0000
      → ebr < 0x2_0000_0000
      → ebr * sector_size + sector_size ≤ src.size
      → b ≡ span f (ebr * sector_size) 512
      → Settles ⊥ (Round base ebr before) (marked_ebr before base ebr b)
  unfolding marked_ebr
  marked_ebr-Settles base ebr before b h k inside e =
      let P = Round base ebr before in
      >>=-Settles ⊥ (Tells f (ebr * sector_size)) P (is_marked b) _
        (is_marked-Settles f (ebr * sector_size) b e)
        λ marked t.
          both_ways (Settles ⊥ P) marked _ (ok (before, none))
            (λ m.
              let i : IsEbr f src.size ebr = record {
                inside = inside;
                marked = subst (Tells f (ebr * sector_size)) m t;
              } in
              >>=-Settles ⊥ (Added ebr before) P (add_logical before ebr b) _
                (add_logical-Settles ebr before b k e)
                λ qs a.
                  >>=-Settles ⊥ (Linked base ebr) P (next_ebr base ebr b) _
                    (next_ebr-Settles base ebr b h e)
                    λ next l. ebr_done-Round base ebr before i qs a next l)
            λ m. broken_round λ i. subst (Tells f (ebr * sector_size)) m t i.marked

  ebr_round-Settles :
      (base ebr : ℕ) (before : List Partition)
      → base < 0x1_0000_0000
      → ebr < 0x2_0000_0000
      → Settles ⊥
          (Round base ebr before)
          (ebr_round before base ebr (read_exact_at src (mul64 ebr sector_size) sector_size))
  unfolding ebr_round
  ebr_round-Settles base ebr before h k =
      let o = ebr * sector_size in
      let P = λ (m : ℕ).
        Settles ⊥ (Round base ebr before)
          (ebr_round before base ebr (read_exact_at src m sector_size)) in
      subst P {x = o} (omega arith) (elim (dec_lt src.size (o + sector_size)) [
        | no l ↦
            rw (read_exact_at-span s o sector_size (omega arith))
              (marked_ebr-Settles base ebr before (span f o sector_size) h k (omega arith) refl)
        | yes l ↦
            rw ((read_exact_at-fails s o sector_size l (omega arith)).1)
              (broken_round λ i. omega (arith, l, i.inside))
      ])

  -- The logical partitions, after those that were there.
  abbrev pub After : ℕ → ℕ → ℕ → List Partition → List Partition → Type 0
  After base rounds ebr before r =
      (ps : List Partition) × (r ≡ before ++ ps)
      × Chain f src.size base rounds ebr (length before) ps

  abbrev pub Follows : ℕ → ℕ → Type 0
  Follows base rounds =
      (ebr : ℕ) (before : List Partition)
      → ebr < 0x2_0000_0000
      → Settles ⊥ (After base rounds ebr before) (read_logical rounds src base ebr before)

  next_link :
      (base rounds ebr : ℕ) (before ps : List Partition)
      → IsEbr f src.size ebr
      → Logical f src.size ebr (length before) ps
      → link f src.size ebr ≢ 0
      → base + link f src.size ebr ≢ ebr
      → (r : List Partition) → After base rounds (base + link f src.size ebr) (before ++ ps) r
      → After base (suc rounds) ebr before r
  next_link base rounds ebr before ps i l some_link other r (qs, e, chain) = (
    ps ++ qs,
    e ∙ append_assoc before ps qs,
    linked i l some_link other (
        subst (λ m. Chain f src.size base rounds (base + link f src.size ebr) m qs)
          (length-append before ps) chain),
  )

  -- What follows a round, from what holds of fewer rounds.
  follow :
      (base rounds ebr : ℕ) (before : List Partition)
      → base < 0x1_0000_0000
      → Follows base rounds
      → {found : List Partition × Option ℕ} → Round base ebr before found
      → Settles ⊥ (After base (suc rounds) ebr before) (elim found.1 [
        | none ↦ ok found.0
        | some ebr' ↦ read_logical rounds src base ebr' found.0
      ])
  follow base rounds ebr before h ih (broken_round b) = ([], sym (append-nil before), broken b)
  follow base rounds ebr before h ih (ebr_done {ps = ps} i l (ends_here e)) = (ps, refl, last i l e)
  follow base rounds ebr before h ih (ebr_done {ps = ps} i l (goes_on a b)) =
      let ebr' = base + link f src.size ebr in
      Settles-map ⊥ (After base rounds ebr' (before ++ ps)) (After base (suc rounds) ebr before)
        (read_logical rounds src base ebr' (before ++ ps))
        (next_link base rounds ebr before ps i l a b)
        (ih ebr' (before ++ ps)
          (omega (arith, h, le_at-small f bytes (ebr * sector_size + 462 + 8))))

  pub read_logical-Settles : (base rounds : ℕ) → base < 0x1_0000_0000 → Follows base rounds
  unfolding read_logical
  read_logical-Settles base zero h ebr before k = ([], sym (append-nil before), spent)
  read_logical-Settles base (suc rounds) h ebr before k =
      >>=-Settles ⊥ (Round base ebr before) (After base (suc rounds) ebr before)
        (ebr_round before base ebr (read_exact_at src (mul64 ebr sector_size) sector_size)) _
        (ebr_round-Settles base ebr before h k)
        λ found. follow base rounds ebr before h (read_logical-Settles base rounds h)
