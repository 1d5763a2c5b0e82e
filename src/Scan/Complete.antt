-- ===== src/Scan/Complete.antt =====
-- A whole scan, against all occurrences of the patterns.
use latent_dfir.Common.{
  ℕ, ◌+◌, ◌*◌, ◌≤◌, ◌<◌, ◌≡◌, sym, ap, subst, ◌∙◌, arith, Bool-cases, inl, inr, List, [], ◌∷◌, All,
  Bytes, ok, map, ◌>>=◌, map_err, >>=-eq-ok, map_err-eq-ok, ==_iff, length, ◌==◌, u64_mod,
}
use latent_dfir.Source.{Source}
use latent_dfir.Source.Reads.{Serves}
use latent_dfir.Scan.{
  Match, ScanConfig, Plan, Engine, Scanner, resolve, new, scan, Hit, scan_blocks, append_all,
  min_block_size, invalid_config, pattern_set, layout,
}
use latent_dfir.Scan.Budget.{resolve-bounds, resolve-any_size}
use latent_dfir.Scan.Reference.{hits_in}
use latent_dfir.Scan.Blocks.{Finds, Collects, scan_blocks-hits}

new-ok :
    (engine : Engine) (patterns : List Bytes) (config : ScanConfig) (sc : Scanner)
    → new engine patterns config ≡ ok sc
    → (config ≡ sc.config)
      × (engine.build_automaton patterns ≡ ok sc.find)
      × ((p : Plan) × (resolve config 0 ≡ ok p))
unfolding new
new-ok engine [] config sc e = absurd (cc)
new-ok engine (p ∷ ps) config sc e =
    let (plan, resolved, e') = >>=-eq-ok (resolve config 0) _ e in
    let automaton = engine.build_automaton (p ∷ ps) in
    let (find, built, made) =
      >>=-eq-ok (map_err (λ m. invalid_config (pattern_set m)) automaton) _ e' in
    let same : ◌≡◌ {A = Scanner} (record { find = find; config = config }) sc = cc in
    (
      ap (λ s. s.config) same,
      map_err-eq-ok _ automaton built ∙ ap (λ s. ok s.find) same,
      (plan, resolved),
    )

-- The blocks that all succeed.
blocks_appended :
    (engine : Engine) (sc : Scanner) (src : Source) (plan : Plan) (per_block : List (List Hit))
    → Collects engine
    → scan_blocks sc src plan 0 plan.block_count ≡ map ok per_block
    → (engine.collect (scan_blocks sc src plan 0 plan.block_count) >>= λ per_block.
        ok (append_all per_block))
      ≡ ok (append_all per_block)
blocks_appended engine sc src plan per_block collects given =
    ap (λ rs. engine.collect rs >>= λ per_block. ok (append_all per_block)) given
    ∙ ap (λ r. r >>= λ per_block. ok (append_all per_block)) (collects.in_order per_block)

-- A scan of a source by a scanner whose configuration is accepted.
scan_plan :
    (engine : Engine) (patterns : List Bytes) (sc : Scanner) (src : Source) (f : ℕ → ℕ)
    (plan : Plan)
    → Finds patterns sc.find
    → ((n : ℕ) → 0 < n → engine.build_pool n ≡ ok tt)
    → Collects engine
    → Serves src f
    → All (λ p. length p ≤ sc.config.overlap + 1) patterns
    → src.size + sc.config.block_size + sc.config.overlap + min_block_size < u64_mod
    → resolve sc.config src.size ≡ ok plan
    → scan engine sc src ≡ ok (hits_in patterns f src.size 0 src.size)
unfolding scan
scan_plan engine patterns sc src f plan finds pool collects serves wide room e =
    let (_, workers, _, pos, small, lap, same, lo, hi) =
      resolve-bounds sc.config src.size plan (omega arith) (omega arith) e in
    rw e (elim (Bool-cases (plan.block_count == 0)) [
      | inl z ↦ rw z (
          unfold hits_in in
          ap (λ n. ok (hits_in patterns f src.size 0 n)) {x = 0}
            (omega (arith, ap (λ k. k * plan.block_size) ((==_iff plan.block_count 0).0 z))))
      | inr nz ↦
          let (per_block, given, hits) =
            scan_blocks-hits patterns f sc src serves finds plan same
              (subst (λ k. All (λ p. length p ≤ k + 1) patterns) (sym lap) wide) (omega arith)
              plan.block_count 0 0 (omega arith) pos (omega arith) (omega arith) in
          rw (nz, pool plan.worker_threads workers)
            (blocks_appended engine sc src plan per_block collects given
              ∙ ap ok hits
              ∙ ap (λ n. ok (hits_in patterns f src.size 0 n)) {y = src.size} (omega arith))
    ])

-- Given an automaton that reports every occurrence, a pool that starts and collects in order, a
-- source that serves `f`, patterns of at most `overlap` + 1 bytes and sizes that do not overflow, a
-- scan by an accepted scanner returns, in order, each offset and pattern such that the pattern
-- occurs there, and nothing else. The block size, the number of threads and the memory budget do
-- not show in the result.
pub scan-hits_in :
    (engine : Engine) (patterns : List Bytes) (config : ScanConfig) (sc : Scanner) (src : Source)
    (f : ℕ → ℕ)
    → ((find : Bytes → List Match)
        → engine.build_automaton patterns ≡ ok find
        → Finds patterns find)
    → ((n : ℕ) → 0 < n → engine.build_pool n ≡ ok tt)
    → Collects engine
    → Serves src f
    → All (λ p. length p ≤ config.overlap + 1) patterns
    → src.size + config.block_size + config.overlap + min_block_size < u64_mod
    → new engine patterns config ≡ ok sc
    → scan engine sc src ≡ ok (hits_in patterns f src.size 0 src.size)
scan-hits_in engine patterns config sc src f finds pool collects serves wide room e =
    let (same, built, (p, resolved)) = new-ok engine patterns config sc e in
    let (n, accepted) = resolve-any_size config 0 src.size p resolved in
    scan_plan engine patterns sc src f _ (finds sc.find built) pool collects serves
      (subst (λ c. All (λ p. length p ≤ c.overlap + 1) patterns) same wide)
      (subst (λ c. src.size + c.block_size + c.overlap + min_block_size < u64_mod) same room)
      (subst (λ c. resolve c src.size ≡ ok (layout config src.size n)) same accepted)
