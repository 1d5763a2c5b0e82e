-- ===== src/Scan/Failed.antt =====
-- A scan by blocks: what it reports of the blocks, and how it fails.
use latent_dfir.Common.{
  true, ℕ, ◌+◌, ◌*◌, ◌<◌, ◌≡◌, refl, sym, ap, ◌∙◌, arith, Bool-cases, false, inl, inr, List, [],
  Outcome, ok, err, panic, stuck, ◌>>=◌, ◌==◌, ==_iff, ◌↔◌, subst, u64_mod,
}
use latent_dfir.Source.{Source, SourceError}
use latent_dfir.Scan.{
  Engine, Hit, ScanError, Plan, Scanner, min_block_size, source, resolve, scan_blocks, append_all,
  scan,
}
use latent_dfir.Scan.Blocks.{Collects}
use latent_dfir.Scan.Budget.{resolve-bounds}
use latent_dfir.Scan.Reported.{
  block_read, Reported, no_blocks, Reported-zero, scan_blocks-Reported, Reported-scan_blocks,
  scan_blocks-err,
}

appended_ok :
    (m : Outcome ScanError (List (List Hit))) (hits : List Hit)
    → (m >>= λ per_block. ok (append_all per_block)) ≡ ok hits
    → (per_block : List (List Hit)) × (m ≡ ok per_block) × (append_all per_block ≡ hits)
appended_ok (ok x) hits h = (x, refl, cc)
appended_ok (err x) hits h = absurd (cc)
appended_ok panic hits h = absurd (cc)
appended_ok stuck hits h = absurd (cc)

appended_err :
    (m : Outcome ScanError (List (List Hit))) (e : ScanError)
    → (m >>= λ per_block. ok (append_all per_block)) ≡ err e
    → m ≡ err e
appended_err (ok x) e h = absurd (cc)
appended_err (err x) e h = let same : x ≡ e = cc in ap err same
appended_err panic e h = absurd (cc)
appended_err stuck e h = absurd (cc)

module _ (engine : Engine) (sc : Scanner) (src : Source) (plan : Plan) (collects : Collects engine)
    (pool : engine.build_pool plan.worker_threads ≡ ok tt)
    (planned : resolve sc.config src.size ≡ ok plan)
    (room : src.size + sc.config.block_size + sc.config.overlap + min_block_size < u64_mod) where
  abbrev results : List (Outcome ScanError (List Hit))
  results = scan_blocks sc src plan 0 plan.block_count

  -- What the layout says: the size, that the blocks are not empty, and how far they go.
  record Bounds : Type 0 where
    same_size : plan.source_size ≡ src.size
    small : src.size + plan.block_size + plan.overlap < u64_mod
    positive : 0 < plan.block_size
    high : 0 + plan.block_count * plan.block_size < src.size + plan.block_size

  bounds : Bounds
  bounds =
      let (_, _, _, pos, below, lap, same, _, hi) =
        resolve-bounds sc.config src.size plan (omega arith) (omega arith) planned in
      record { same_size = same; small = omega arith; positive = omega arith; high = omega arith }

  scan-results :
      (plan.block_count == 0) ≡ false
      → scan engine sc src ≡ (engine.collect results >>= λ per_block. ok (append_all per_block))
  unfolding scan
  scan-results nz = rw (planned, nz, pool)

  scan-nothing : (plan.block_count == 0) ≡ true → scan engine sc src ≡ ok []
  unfolding scan
  scan-nothing z = rw (planned, z)

  Reported-nothing :
      (hits : List Hit)
      → plan.block_count ≡ 0
      → Reported sc src plan 0 plan.block_count hits
      → hits ≡ []
  Reported-nothing hits z r = Reported-zero (subst (λ n. Reported sc src plan 0 n hits) z r)

  scan-Reported :
      (hits : List Hit)
      → scan engine sc src ≡ ok hits
      → Reported sc src plan 0 plan.block_count hits
  scan-Reported hits h = elim (Bool-cases (plan.block_count == 0)) [
    | inl z ↦
        let none_found : [] ≡ hits = cc (scan-nothing z, h) in
        subst (Reported sc src plan 0 plan.block_count) none_found
          (subst (λ n. Reported sc src plan 0 n []) (sym ((==_iff _ _).0 z)) no_blocks)
    | inr nz ↦
        let (per_block, e, all) =
          appended_ok (engine.collect results) hits (sym (scan-results nz) ∙ h) in
        subst (Reported sc src plan 0 plan.block_count) all (
          scan_blocks-Reported sc src plan bounds.same_size bounds.small plan.block_count 0 0
            per_block (omega arith) bounds.positive bounds.high
            (collects.whole results per_block e))
  ]

  Reported-scan :
      (hits : List Hit)
      → Reported sc src plan 0 plan.block_count hits
      → scan engine sc src ≡ ok hits
  Reported-scan hits r = elim (Bool-cases (plan.block_count == 0)) [
    | inl z ↦ scan-nothing z ∙ ap ok (sym (Reported-nothing hits ((==_iff _ _).0 z) r))
    | inr nz ↦
        let (per_block, given, all) =
          Reported-scan_blocks sc src plan bounds.same_size bounds.small plan.block_count 0 0 hits
            (omega arith) bounds.positive bounds.high r in
        scan-results nz
        ∙ ap (λ rs. engine.collect rs >>= λ per_block. ok (append_all per_block)) given
        ∙ ap (λ r. r >>= λ per_block. ok (append_all per_block)) (collects.in_order per_block)
        ∙ ap ok all
  ]

  scan-err :
      (e : ScanError)
      → scan engine sc src ≡ err e
      → (block : ℕ) × (block < plan.block_count)
        × ((x : SourceError) × (block_read sc src plan block ≡ err x) × (e ≡ source x))
  scan-err e h = elim (Bool-cases (plan.block_count == 0)) [
    | inl z ↦ absurd (cc (scan-nothing z, h))
    | inr nz ↦
        let failed = appended_err (engine.collect results) e (sym (scan-results nz) ∙ h) in
        let (i, at) = collects.one_error results e failed in
        let (block, lo, lt, why) =
          scan_blocks-err sc src plan bounds.same_size bounds.small plan.block_count 0 0 i e
            (omega arith) bounds.positive bounds.high at in
        (block, omega arith, why)
  ]

  -- If the pool starts and collects the results of the blocks in order, and the sizes do not
  -- overflow, a scan by an accepted layout succeeds with these hits if and only if every block,
  -- with its overlap, can be read and the hits are those that the automaton finds in what is read
  -- and that start in the block, each block's in order, one block behind the other; and it fails
  -- with an error only if the read of a block fails with it.
  pub scan-blocks :
      ((hits : List Hit)
        → scan engine sc src ≡ ok hits ↔ Reported sc src plan 0 plan.block_count hits)
      × ((e : ScanError)
          → scan engine sc src ≡ err e
          → (block : ℕ) × (block < plan.block_count)
            × ((x : SourceError) × (block_read sc src plan block ≡ err x) × (e ≡ source x)))
  scan-blocks = (λ hits. (scan-Reported hits, Reported-scan hits), scan-err)
