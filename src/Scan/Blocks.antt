-- ===== src/Scan/Blocks.antt =====
-- What one block and a row of blocks report.
use latent_dfir.Common.{
  ℕ, zero, suc, ◌+◌, ◌-◌, ◌*◌, ◌≤◌, ◌<◌, ◌≡◌, refl, sym, ap, ap₂, ◌∙◌, arith, min, List, [], ◌∷◌,
  ◌++◌, map, All, Bytes, Outcome, ok, err, some, get_elem?, ◌>>=◌, map_err, span, length, add64,
  mul64, sub64, u64_mod,
}
use latent_dfir.Source.{Source, read_exact_at}
use latent_dfir.Source.Reads.{Serves, read_exact_at-span}
use latent_dfir.Scan.{
  Engine, Hit, Match, ScanError, Plan, Scanner, keep_owned, sort, scan_block, scan_blocks,
  append_all, source,
}
use latent_dfir.Scan.Sort.{sort-IsOrdered, sort-keep_owned-perm}
use latent_dfir.Scan.Reference.{occurrences, hits_in, hits_in-add, hits_in-IsOrdered}
use mathlib.Core.List.{Perm, append-nil}
use mathlib.Core.Logic.{∥∥₁_elim}
use native.Mathlib.Nat.{ℕ_set}
use native.Mathlib.Decide.{dec_le}
use mathlib.Core.Path.{subst₂}
use latent_dfir.Scan.Owned.{Sees, keep_owned-occurrences, overlap-Sees}

-- The documented behaviour of the automaton: it reports every occurrence once, overlapping ones
-- included, in an order of its own.
abbrev pub Finds : List Bytes → (Bytes → List Match) → Type 0
Finds patterns find = (buf : Bytes) → Perm (find buf) (occurrences patterns 0 buf)

-- The documented behaviour of `collect` on an indexed parallel iterator: if every item succeeds, so
-- does the whole, with the results in the order of the items, and if the whole succeeds, so does
-- every item; an error is that of an item.
pub record Collects (engine : Engine) : Type 0 where
  pub in_order : (per_block : List (List Hit)) → engine.collect (map ok per_block) ≡ ok per_block
  pub whole :
      (results : List (Outcome ScanError (List Hit))) (per_block : List (List Hit))
      → engine.collect results ≡ ok per_block
      → results ≡ map ok per_block
  pub one_error :
      (results : List (Outcome ScanError (List Hit))) (e : ScanError)
      → engine.collect results ≡ err e
      → (i : ℕ) × (get_elem? results i ≡ some (err e))

Hits-set : IsSet (List Hit)
Hits-set = hlevel ℕ_set

sort-keep_owned-Finds :
    (patterns : List Bytes) (find : Bytes → List Match) (start owned : ℕ) (buf : Bytes)
    → Finds patterns find
    → sort (keep_owned start owned (find buf))
      ≡ sort (keep_owned start owned (occurrences patterns 0 buf))
sort-keep_owned-Finds patterns find start owned buf finds =
    ∥∥₁_elim (finds buf) (Hits-set _ _) (sort-keep_owned-perm start owned)

-- The body of `scan_block`, once the bounds are known.
unfoldable pub scan_between : Scanner → Source → ℕ → ℕ → ℕ → Outcome ScanError (List Hit)
scan_between sc src start owned len = do
  buf ← map_err source (read_exact_at src start len)
  ok (sort (keep_owned start owned (sc.find buf)))

pub scan_block-between :
    (sc : Scanner) (src : Source) (plan : Plan) (block start owned len : ℕ)
    → mul64 block plan.block_size ≡ start
    → sub64
        (min (add64 (mul64 block plan.block_size) plan.block_size) plan.source_size)
        (mul64 block plan.block_size)
      ≡ owned
    → sub64
        (min
          (add64
            (min (add64 (mul64 block plan.block_size) plan.block_size) plan.source_size)
            plan.overlap)
          plan.source_size)
        (mul64 block plan.block_size)
      ≡ len
    → scan_block sc src plan block ≡ scan_between sc src start owned len
unfolding scan_block scan_between
scan_block-between sc src plan block start owned len a b c = λ i.
    ◌>>=◌ (map_err source (read_exact_at src (a i) (c i)))
      (λ buf. ok (sort (keep_owned (a i) (b i) (sc.find buf))))

module _ (patterns : List Bytes) (f : ℕ → ℕ) (sc : Scanner) (src : Source) (serves : Serves src f)
    (finds : Finds patterns sc.find) where
  scan_between-hits :
      (start owned len : ℕ)
      → owned ≤ len
      → start + len ≤ src.size
      → Sees patterns (start + len) src.size (start + owned)
      → scan_between sc src start owned len ≡ ok (hits_in patterns f src.size start owned)
  unfolding scan_between
  scan_between-hits start owned len h w sees = rw (read_exact_at-span serves start len w) (
      ap ok (
        sort-keep_owned-Finds patterns sc.find start owned (span f start len) finds
        ∙ ap sort (
            keep_owned-occurrences patterns f src.size serves.small start owned 0 owned len start
              (omega arith) h (omega arith) w sees)
        ∙ sort-IsOrdered _ (hits_in-IsOrdered patterns f src.size start owned).1))

  hits_in-join :
      (start k : ℕ)
      → hits_in patterns f src.size start (min k (src.size - start))
          ++ hits_in patterns f src.size (start + k) (src.size - (start + k))
        ≡ hits_in patterns f src.size start (src.size - start)
  hits_in-join start k = elim (dec_le (start + k) src.size) [
    | yes h ↦
        ap
          (λ n.
            hits_in patterns f src.size start n
            ++ hits_in patterns f src.size (start + k) (src.size - (start + k)))
          {y = k} (omega arith)
        ∙ sym (hits_in-add patterns f src.size start k (src.size - (start + k)))
        ∙ ap (hits_in patterns f src.size start) (omega arith)
    | no h ↦
        ap₂
          (λ n m. hits_in patterns f src.size start n ++ hits_in patterns f src.size (start + k) m)
          {y = src.size - start} {v = 0} (omega arith) (omega arith)
        ∙ (unfold hits_in in append-nil _)
  ]

  module _ (plan : Plan) (same_size : plan.source_size ≡ src.size)
      (wide : All (λ p. length p ≤ plan.overlap + 1) patterns)
      (room : src.size + plan.block_size + plan.overlap < u64_mod) where
    -- One block reports the hits at the offsets that it owns.
    scan_block-hits :
        (block start : ℕ)
        → start ≡ block * plan.block_size
        → start < src.size
        → scan_block sc src plan block
          ≡ ok (hits_in patterns f src.size start (min plan.block_size (src.size - start)))
    scan_block-hits block start e h =
        let end : ℕ = min (start + plan.block_size) src.size in
        scan_block-between sc src plan block start (min plan.block_size (src.size - start))
          (min (end + plan.overlap) src.size - start) (omega arith) (omega arith) (omega arith)
        ∙ scan_between-hits start (min plan.block_size (src.size - start))
            (min (end + plan.overlap) src.size - start) (omega arith) (omega arith)
            (subst₂ (λ a b. Sees patterns a src.size b) {x = min (end + plan.overlap) src.size}
              {u = end} (omega arith) (omega arith)
              (overlap-Sees patterns end plan.overlap src.size wide))

    -- Blocks from one on, as many as it takes to reach the end, report the hits at all later
    -- offsets.
    pub scan_blocks-hits :
        (n block start : ℕ)
        → start ≡ block * plan.block_size
        → 0 < plan.block_size
        → src.size ≤ start + n * plan.block_size
        → start + n * plan.block_size < src.size + plan.block_size
        → (per_block : List (List Hit)) × (scan_blocks sc src plan block n ≡ map ok per_block)
          × (append_all per_block ≡ hits_in patterns f src.size start (src.size - start))
    unfolding scan_blocks append_all
    scan_blocks-hits zero block start e p lo hi = (
      [],
      refl,
      unfold hits_in in ap (λ k. hits_in patterns f src.size start k) {x = 0} (omega arith),
    )
    scan_blocks-hits (suc n) block start e p lo hi =
        let (per_block, given, hits) =
          scan_blocks-hits n (suc block) (start + plan.block_size) (omega arith) p (omega arith)
            (omega arith) in
        let own = hits_in patterns f src.size start (min plan.block_size (src.size - start)) in
        (
          own ∷ per_block,
          ap₂ (λ r rs. r ∷ rs) (scan_block-hits block start e (omega arith)) given,
          ap (λ hs. own ++ hs) hits ∙ hits_in-join start plan.block_size,
        )
