-- ===== src/Vdisk/Vmdk/Header.antt =====
-- Which VMDK images are accepted.
use latent_dfir.Common.{
  ℕ, ◌*◌, ◌≤◌, ◌<◌, ◌≡◌, ◌⊎◌, refl, sym, subst, ap, ◌∙◌, arith, min, bit_and, false, not, ◌||◌,
  List, [], ◌∷◌, All, bytes_eq, bytes_eq→eq, span, both_ways, ◌==◌, ==_iff, Outcome, ok, ◌>>=◌,
  Meets, Meets-map, >>=-Meets, require-Meets, u64_mod, checked_mul, checked_mul-some,
  checked_mul-none, saturating_mul,
}
use latent_dfir.Source.{Source, SourceError, FilePath}
use latent_dfir.Source.Reads.{Serves}
use latent_dfir.Text.{lines}
use latent_dfir.Text.Utf8.{from_utf8_lossy}
use latent_dfir.Vdisk.Fields.{le_at, read-then, le_u32-then, le_u64-then}
use latent_dfir.Vdisk.Vmdk.{
  VmdkSource, magic, sector, flag_compressed, names_parent, reject_lines, reject_if_has_parent,
  some_or, vmdk_open,
}
use native.Mathlib.Decide.{dec_lt}

-- No line of the text names a parent.
abbrev pub IsStandalone : List (List ℕ) → Type 0
IsStandalone = All (λ line. names_parent line ≡ false)

module _ (f : ℕ → ℕ) (size : ℕ) where
  -- The descriptor, where there is one: a part from its front, not empty if the source has any of
  -- it, that names no parent.
  pub data HasNoParent : ℕ → ℕ → Type 0 where
    no_descriptor : {at sectors : ℕ} → at ≡ 0 ⊎ sectors ≡ 0 → HasNoParent at sectors
    checked :
        {at sectors : ℕ} (n : ℕ)
        → saturating_mul at sector ≤ size
        → n ≤ min (saturating_mul sectors sector) 0x1_0000
        → (saturating_mul at sector < size → 0 < saturating_mul sectors sector → 0 < n)
        → IsStandalone (lines (from_utf8_lossy (span f (saturating_mul at sector) n)))
        → HasNoParent at sectors

  -- The image that the header describes.
  pub record IsHeader (inner : Source) (v : VmdkSource) : Type 0 where
    pub magical : span f 0 4 ≡ magic
    pub uncompressed : bit_and (le_at f 8 4) flag_compressed ≡ 0
    pub virtual_size : v.virtual_size ≡ le_at f 12 8 * sector
    pub virtual_size_fits : v.virtual_size < u64_mod
    pub grain_bytes : v.grain_bytes ≡ le_at f 20 8 * sector
    pub grain_bytes_fit : v.grain_bytes < u64_mod
    pub some_grain : 0 < v.grain_bytes
    pub gtes_per_gt : v.gtes_per_gt ≡ le_at f 44 4
    pub some_gtes : 0 < v.gtes_per_gt
    pub gd_offset : v.gd_offset ≡ le_at f 56 8
    pub some_directory : 0 < v.gd_offset
    pub standalone : HasNoParent (le_at f 28 8) (le_at f 36 8)
    pub inner_source : v.inner ≡ inner

reject_lines-Meets :
    (path : FilePath) (ls : List (List ℕ)) → Meets (λ u. IsStandalone ls) (reject_lines path ls)
unfolding reject_lines
reject_lines-Meets path [] = tt
reject_lines-Meets path (l ∷ ls) =
    both_ways (Meets (λ u. IsStandalone (l ∷ ls))) (names_parent l) _ (reject_lines path ls)
      (λ e. tt)
      λ e.
        Meets-map (λ u. IsStandalone ls) (λ u. IsStandalone (l ∷ ls)) (reject_lines path ls)
          (λ u h. (e, h)) (reject_lines-Meets path ls)

some_or-then {κ} :
    {B : Type κ} (P : B → Type 0) (a b : ℕ) (e : SourceError) (k : ℕ → Outcome SourceError B)
    → (a * b < u64_mod → Meets P (k (a * b)))
    → Meets P (some_or (checked_mul a b) e >>= k)
some_or-then P a b e k h = elim (dec_lt (a * b) u64_mod) [
  | yes l ↦ rw (checked_mul-some a b l) (h l)
  | no l ↦ rw (checked_mul-none a b (omega arith)) tt
]

module _ {src : Source} {f : ℕ → ℕ} (s : Serves src f) where
  reject_if_has_parent-Meets :
      (path : FilePath) (at sectors : ℕ)
      → Meets (λ u. HasNoParent f src.size at sectors) (reject_if_has_parent src path at sectors)
  unfolding reject_if_has_parent
  reject_if_has_parent-Meets path at sectors =
      let o = saturating_mul at sector in
      let len = min (saturating_mul sectors sector) 0x1_0000 in
      both_ways (Meets (λ u. HasNoParent f src.size at sectors)) ((at == 0) || (sectors == 0))
        (ok tt) _ (λ t. no_descriptor (ground arith))
        λ t. elim (dec_lt src.size o) [
          | yes k ↦ rw (s.past o len k) tt
          | no k ↦
              let (n, e, le, pos) = s.front o len (omega arith) in
              rw e (
                Meets-map (λ u. IsStandalone (lines (from_utf8_lossy (span f o n))))
                  (λ u. HasNoParent f src.size at sectors)
                  (reject_lines path (lines (from_utf8_lossy (span f o n))))
                  (λ u h. checked n (omega arith) (omega arith) (λ a b. pos (omega arith)) h)
                  (reject_lines-Meets path (lines (from_utf8_lossy (span f o n)))))
        ]

-- Opening as VMDK a source that serves its bytes ends without a panic: with an error, or with the
-- image that the header describes, which has the magic value, no compressed grains, grains, grain
-- tables and a directory, sizes below 2^64, and no line that names a parent in the part of the
-- descriptor that was read.
pub vmdk_open-Meets :
    (inner : Source) (f : ℕ → ℕ)
    → Serves inner f
    → Meets (IsHeader f inner.size inner) (vmdk_open inner)
unfolding vmdk_open
vmdk_open-Meets inner f s =
    let P = IsHeader f inner.size inner in
    let path = inner.identity.path in
    read-then s P 0 4 _ λ head h. require-Meets P (bytes_eq head magic) _ _ λ m.
      le_u32-then s P 8 _ λ flags g. require-Meets P (bit_and flags flag_compressed == 0) _ _ λ g0.
        le_u64-then s P 12 _ λ capacity c. le_u64-then s P 20 _ λ grain n.
          le_u64-then s P 28 _ λ at a. le_u64-then s P 36 _ λ sectors d.
            le_u32-then s P 44 _ λ gtes t. le_u64-then s P 56 _ λ gd u.
              require-Meets P (not ((grain == 0) || (gtes == 0) || (gd == 0))) _ _ λ nonzero.
                some_or-then P grain sector _ _ λ small. some_or-then P capacity sector _ _ λ fits.
                  >>=-Meets (λ u. HasNoParent f inner.size at sectors) P
                    (reject_if_has_parent inner path at sectors) _
                    (reject_if_has_parent-Meets s path at sectors)
                    λ accepted none_found. record {
                      magical = sym h ∙ bytes_eq→eq head magic m;
                      uncompressed =
                          ap (λ x. bit_and x flag_compressed) (sym g) ∙ (==_iff _ _).0 g0;
                      virtual_size = ap (λ x. x * sector) c;
                      virtual_size_fits = fits;
                      grain_bytes = ap (λ x. x * sector) n;
                      grain_bytes_fit = small;
                      some_grain = ground arith;
                      gtes_per_gt = t;
                      some_gtes = ground arith;
                      gd_offset = u;
                      some_directory = ground arith;
                      standalone =
                          subst (λ x. HasNoParent f inner.size x (le_at f 36 8)) a
                            (subst (HasNoParent f inner.size at) d none_found);
                      inner_source = refl;
                    }
