-- ===== src/Scan/Reported.antt =====
-- Which reads the blocks of a scan make, and what they report of what is read.
use mathlib.Core.Option
use latent_dfir.Common.{
  ℕ, zero, suc, ◌+◌, ◌-◌, ◌*◌, ◌≤◌, ◌<◌, ◌≡◌, refl, sym, ap, ap₂, ◌∙◌, arith, min, some, List, [],
  ◌∷◌, ◌++◌, map, Bytes, Outcome, ok, err, panic, stuck, ◌>>=◌, map_err, map_err-eq-ok, >>=-eq-ok,
  get_elem?, u64_mod,
}
use latent_dfir.Source.{Source, SourceError, read_exact_at}
use latent_dfir.Scan.{
  Hit, ScanError, Plan, Scanner, source, keep_owned, sort, scan_block, scan_blocks, append_all,
}
use latent_dfir.Scan.Blocks.{scan_between, scan_block-between}

module _ (sc : Scanner) (src : Source) (plan : Plan) where
  -- What reading a block brings: from its start on, the block and the overlap, as far as the source
  -- goes.
  abbrev pub block_read : ℕ → Outcome SourceError Bytes
  block_read block =
      read_exact_at src (block * plan.block_size)
        (min (plan.block_size + plan.overlap) (src.size - block * plan.block_size))

  -- The block can be read, and these are the matches in it that start in the block itself, in
  -- order.
  pub record Reports (block : ℕ) (own : List Hit) : Type 0 where
    pub buf : Bytes
    pub read : block_read block ≡ ok buf
    pub found :
        own
        ≡ sort (
            keep_owned
              (block * plan.block_size)
              (min plan.block_size (src.size - block * plan.block_size))
              (sc.find buf))

  -- The hits of so many blocks from one on, one behind the other.
  pub data Reported : ℕ → ℕ → List Hit → Type 0 where
    no_blocks : {block : ℕ} → Reported block 0 []
    one_more :
        {block n : ℕ} {own rest : List Hit}
        → Reports block own
        → Reported (suc block) n rest
        → Reported block (suc n) (own ++ rest)

pub Reported-zero :
    {sc : Scanner} {src : Source} {plan : Plan} {block : ℕ} {hits : List Hit}
    → Reported sc src plan block 0 hits
    → hits ≡ []
Reported-zero no_blocks = refl

scan_between-ok :
    (sc : Scanner) (src : Source) (start owned len : ℕ) (own : List Hit)
    → scan_between sc src start owned len ≡ ok own
    → (buf : Bytes) × (read_exact_at src start len ≡ ok buf)
      × (own ≡ sort (keep_owned start owned (sc.find buf)))
unfolding scan_between
scan_between-ok sc src start owned len own h =
    let (buf, read, rest) = >>=-eq-ok (map_err source (read_exact_at src start len)) _ h in
    (buf, map_err-eq-ok source (read_exact_at src start len) read, cc)

sourced :
    (m : Outcome SourceError Bytes) (k : Bytes → List Hit) (e : ScanError)
    → (map_err source m >>= λ buf. ok (k buf)) ≡ err e
    → (x : SourceError) × (m ≡ err x) × (e ≡ source x)
sourced (ok buf) k e h = absurd (cc)
sourced (err x) k e h = (x, refl, cc)
sourced panic k e h = absurd (cc)
sourced stuck k e h = absurd (cc)

module _ (sc : Scanner) (src : Source) (plan : Plan) (same_size : plan.source_size ≡ src.size)
    (room : src.size + plan.block_size + plan.overlap < u64_mod) where
  scan_block-lem :
      (block start : ℕ)
      → start ≡ block * plan.block_size
      → start < src.size
      → scan_block sc src plan block
        ≡ scan_between sc src
            (block * plan.block_size)
            (min plan.block_size (src.size - block * plan.block_size))
            (min (plan.block_size + plan.overlap) (src.size - block * plan.block_size))
  scan_block-lem block start e h =
      scan_block-between sc src plan block _ _ _ (omega arith) (omega arith) (omega arith)

  scan_block-Reports :
      (block start : ℕ) (own : List Hit)
      → start ≡ block * plan.block_size
      → start < src.size
      → scan_block sc src plan block ≡ ok own
      → Reports sc src plan block own
  scan_block-Reports block start own e h given =
      let (buf, read, found) =
        scan_between-ok sc src _ _ _ own (sym (scan_block-lem block start e h) ∙ given) in
      record { buf = buf; read = read; found = found }

  Reports-scan_block :
      (block start : ℕ) (own : List Hit)
      → start ≡ block * plan.block_size
      → start < src.size
      → Reports sc src plan block own
      → scan_block sc src plan block ≡ ok own
  unfolding scan_between
  Reports-scan_block block start own e h r =
      scan_block-lem block start e h ∙ rw (r.read) (ap ok (sym r.found))

  scan_block-err :
      (block start : ℕ) (e : ScanError)
      → start ≡ block * plan.block_size
      → start < src.size
      → scan_block sc src plan block ≡ err e
      → (x : SourceError) × (block_read sc src plan block ≡ err x) × (e ≡ source x)
  unfolding scan_between
  scan_block-err block start e s h given =
      sourced (block_read sc src plan block) _ e (sym (scan_block-lem block start s h) ∙ given)

  pub scan_blocks-Reported :
      (n block start : ℕ) (per_block : List (List Hit))
      → start ≡ block * plan.block_size
      → 0 < plan.block_size
      → start + n * plan.block_size < src.size + plan.block_size
      → scan_blocks sc src plan block n ≡ map ok per_block
      → Reported sc src plan block n (append_all per_block)
  unfolding scan_blocks append_all
  scan_blocks-Reported zero block start [] e p hi h = no_blocks
  scan_blocks-Reported zero block start (x ∷ xs) e p hi h = absurd (cc)
  scan_blocks-Reported (suc n) block start [] e p hi h = absurd (cc)
  scan_blocks-Reported (suc n) block start (x ∷ xs) e p hi h =
      one_more (scan_block-Reports block start x e (omega arith) (cc)) (
        scan_blocks-Reported n (suc block) (start + plan.block_size) xs (omega arith) p
          (omega arith) (cc))

  pub Reported-scan_blocks :
      (n block start : ℕ) (hits : List Hit)
      → start ≡ block * plan.block_size
      → 0 < plan.block_size
      → start + n * plan.block_size < src.size + plan.block_size
      → Reported sc src plan block n hits
      → (per_block : List (List Hit)) × (scan_blocks sc src plan block n ≡ map ok per_block)
        × (append_all per_block ≡ hits)
  unfolding scan_blocks append_all
  Reported-scan_blocks zero block start hits e p hi no_blocks = ([], refl, refl)
  Reported-scan_blocks (suc n) block start hits e p hi (one_more {own = own} r more) =
      let (per_block, given, all) =
        Reported-scan_blocks n (suc block) (start + plan.block_size) _ (omega arith) p (omega arith)
          more in
      (
        own ∷ per_block,
        ap₂ (λ r rs. r ∷ rs) (Reports-scan_block block start own e (omega arith) r) given,
        ap (λ hs. own ++ hs) all,
      )

  pub scan_blocks-err :
      (n block start i : ℕ) (e : ScanError)
      → start ≡ block * plan.block_size
      → 0 < plan.block_size
      → start + n * plan.block_size < src.size + plan.block_size
      → get_elem? (scan_blocks sc src plan block n) i ≡ some (err e)
      → (failed : ℕ) × (block ≤ failed)
        × (failed < block + n)
        × ((x : SourceError) × (block_read sc src plan failed ≡ err x) × (e ≡ source x))
  unfolding scan_blocks
  scan_blocks-err zero block start i e s p hi h = absurd (cc)
  scan_blocks-err (suc n) block start zero e s p hi h = (
    block,
    omega arith,
    omega arith,
    scan_block-err block start e s (omega arith) (Option.some-injective _ _ h),
  )
  scan_blocks-err (suc n) block start (suc i) e s p hi h =
      let (failed, lo, lt, why) =
        scan_blocks-err n (suc block) (start + plan.block_size) i e (omega arith) p (omega arith)
          h in
      (failed, omega arith, omega arith, why)
