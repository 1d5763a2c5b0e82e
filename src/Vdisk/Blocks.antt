-- ===== src/Vdisk/Blocks.antt =====
-- The read loop of a virtual disk, against its block map.
use latent_dfir.Common.{
  ℕ, zero, suc, ◌+◌, ◌-◌, ◌*◌, ◌/◌, ◌%◌, ◌≤◌, ◌<◌, ◌≡◌, refl, sym, ap, ap₂, ◌∙◌, arith, min, false,
  none, some, ◌⊎◌, inl, inr, [], ◌++◌, Bytes, ok, span, span-add, span-match, replicate-span, add64,
  u64_mod, lt→ltb, le→ltb, ◌==◌,
}
use latent_dfir.Source.{Identity}
use latent_dfir.Source.Reads.{Serves, read_exact_at-span}
use latent_dfir.Vdisk.{Image, block_part, read_blocks, image_read_at, image_source}
use native.Mathlib.Nat.{
  div-add-mod', mod-lt, add-mul-div_right, add-mul-mod_self_right, div-eq_of_lt, mod-eq_of_lt,
}
use native.Mathlib.Decide.{dec_lt}
use mathlib.Core.List.{append_assoc, append-nil}

-- The bytes of the image, over an inner source that holds the bytes `f`: those of the allocated
-- blocks where `locate` puts them, and zero elsewhere.
unfoldable pub virtual_byte : Image → (ℕ → ℕ) → ℕ → ℕ
virtual_byte d f i = elim (d.locate (i / d.block_size)) [
  | ok (some host) ↦ f (host + i % d.block_size)
  | _ ↦ 0
]

-- Every block of the virtual disk is unallocated, or lies inside the inner source (the last one as
-- far as the virtual disk goes).
pub record IsMapped (d : Image) : Type 0 where
  pub positive : 0 < d.block_size
  pub small : d.virtual_size < u64_mod
  pub blocks :
      (b : ℕ)
      → b * d.block_size < d.virtual_size
      → (d.locate b ≡ ok none)
        ⊎ ((h : ℕ) × (d.locate b ≡ ok (some h))
            × (h + min d.block_size (d.virtual_size - b * d.block_size) ≤ d.inner.size))
  pub joins : (h w : ℕ) → h + w ≤ d.inner.size → d.join h w ≡ h + w

module _ (d : Image) (f : ℕ → ℕ) (serves : Serves d.inner f) (m : IsMapped d) where
  -- Inside a block the quotient stays and the remainder moves on.
  same_block :
      (at j : ℕ)
      → at % d.block_size + j < d.block_size
      → ((at + j) / d.block_size ≡ at / d.block_size)
        × ((at + j) % d.block_size ≡ at % d.block_size + j)
  same_block at j h =
      let q : ℕ = at / d.block_size in
      let w : ℕ = at % d.block_size + j in
      let split : at + j ≡ w + q * d.block_size = omega (arith, div-add-mod' at d.block_size) in
      (
        ap (λ k. k / d.block_size) split
            ∙ add-mul-div_right w q m.positive
            ∙ omega (arith, div-eq_of_lt h),
        ap (λ k. k % d.block_size) split ∙ add-mul-mod_self_right w q d.block_size ∙ mod-eq_of_lt h,
      )

  virtual_byte-none :
      (at j : ℕ)
      → at % d.block_size + j < d.block_size
      → d.locate (at / d.block_size) ≡ ok none
      → virtual_byte d f (at + j) ≡ 0
  unfolding virtual_byte
  virtual_byte-none at j h e = rw ((same_block at j h).0, e, virtual_byte)

  virtual_byte-some :
      (at j host : ℕ)
      → at % d.block_size + j < d.block_size
      → d.locate (at / d.block_size) ≡ ok (some host)
      → virtual_byte d f (at + j) ≡ f (host + at % d.block_size + j)
  unfolding virtual_byte
  virtual_byte-some at j host h e =
      rw ((same_block at j h).0, e, (same_block at j h).1, virtual_byte) (ap f (omega arith))

  block_part-span :
      (at len : ℕ)
      → at % d.block_size + len ≤ d.block_size
      → 0 < len
      → at + len ≤ d.virtual_size
      → block_part d (at / d.block_size) (at % d.block_size) len
        ≡ ok (span (virtual_byte d f) at len)
  unfolding block_part
  block_part-span at len fits pos inside =
      elim (m.blocks (at / d.block_size) (omega (arith, div-add-mod' at d.block_size))) [
        | inl e ↦ rw e (
            ap ok (
              replicate-span 0 at len
              ∙ span-match (λ i. 0) (virtual_byte d f) at at len
                  (λ j lt. sym (virtual_byte-none at j (omega arith) e))))
        | inr (host, e, room) ↦
            let last : at % d.block_size + len
                ≤ min d.block_size (d.virtual_size - at / d.block_size * d.block_size) =
              omega (arith, div-add-mod' at d.block_size) in
            rw (e, m.joins host (at % d.block_size) (omega arith))
              (read_exact_at-span serves (host + at % d.block_size) len (omega arith)
                ∙ ap ok (
                    span-match f (virtual_byte d f) (host + at % d.block_size) at len
                      (λ j lt. sym (virtual_byte-some at j host (omega arith) e))))
      ]

  read_blocks-step :
      (fuel offset n done at len : ℕ) (out : Bytes)
      → done < n
      → offset + n ≤ d.virtual_size
      → at ≡ offset + done
      → len ≡ min (d.block_size - at % d.block_size) (n - done)
      → read_blocks (suc fuel) d offset n done out
        ≡ read_blocks fuel d offset n (done + len) (out ++ span (virtual_byte d f) at len)
  unfolding read_blocks
  read_blocks-step fuel offset n done at len out lt inside a l =
      let here : add64 offset done ≡ at = omega (arith, m.small) in
      let nonzero : (d.block_size == 0) ≡ false = ground (arith, m.positive) in
      let part =
        block_part-span at len (omega (arith, mod-lt at m.positive))
          (omega (arith, mod-lt at m.positive)) (omega arith) in
      rw (lt→ltb done n lt, nonzero, here, ← l, part)

  read_blocks_end :
      (fuel offset n done : ℕ) (out : Bytes)
      → done ≡ n
      → read_blocks fuel d offset n done out
        ≡ ok (out ++ span (virtual_byte d f) (offset + done) (n - done))
  unfolding read_blocks
  read_blocks_end zero offset n done out e = rw (le→ltb done n (omega arith)) (
      ap ok (
        sym (append-nil out)
        ∙ ap (λ k. out ++ span (virtual_byte d f) (offset + done) k) {x = 0} (omega arith)))
  read_blocks_end (suc fuel) offset n done out e = rw (le→ltb done n (omega arith)) (
      ap ok (
        sym (append-nil out)
        ∙ ap (λ k. out ++ span (virtual_byte d f) (offset + done) k) {x = 0} (omega arith)))

  read_blocks-span :
      (fuel offset n done : ℕ) (out : Bytes)
      → n - done ≤ fuel
      → done ≤ n
      → offset + n ≤ d.virtual_size
      → read_blocks fuel d offset n done out
        ≡ ok (out ++ span (virtual_byte d f) (offset + done) (n - done))
  read_blocks-span zero offset n done out h le inside =
      read_blocks_end zero offset n done out (omega arith)
  read_blocks-span (suc fuel) offset n done out h le inside = elim (dec_lt done n) [
    | no stop ↦ read_blocks_end (suc fuel) offset n done out (omega arith)
    | yes lt ↦
        let g = virtual_byte d f in
        let at : ℕ = offset + done in
        let len : ℕ = min (d.block_size - at % d.block_size) (n - done) in
        let progress : 0 < len = omega (arith, mod-lt at m.positive) in
        read_blocks-step fuel offset n done at len out lt inside refl refl
        ∙ read_blocks-span fuel offset n (done + len) (out ++ span g at len) (omega arith)
            (omega arith) inside
        ∙ ap ok (
            append_assoc out (span g at len) (span g (offset + (done + len)) (n - (done + len)))
            ∙ ap (λ l. out ++ l)
                (ap (λ k. span g at len ++ span g k (n - (done + len))) {y = at + len} (omega arith)
                  ∙ sym (span-add g at len (n - (done + len)))
                  ∙ ap (span g at) (omega arith)))
  ]

-- A virtual disk whose blocks are all mapped serves the bytes of its block map: reads across blocks
-- return the bytes of each block, zeros for unallocated ones, and end.
pub image_source-Serves :
    (d : Image) (identity : Identity) (f : ℕ → ℕ)
    → Serves d.inner f
    → IsMapped d
    → Serves (image_source d identity) (virtual_byte d f)
unfolding image_read_at
image_source-Serves d identity f serves m = record {
  small = m.small;
  front = λ o wanted h. (
    min wanted (d.virtual_size - o),
    rw (le→ltb d.virtual_size o h) (
        read_blocks-span d f serves m (min wanted (d.virtual_size - o)) o
          (min wanted (d.virtual_size - o)) 0 [] (omega arith) (omega arith) (omega arith)
        ∙ ap₂ (λ a k. ok (span (virtual_byte d f) a k)) (omega arith) (omega arith)),
    omega arith,
    λ p. p,
  );
  past = λ o wanted h. rw (lt→ltb d.virtual_size o h);
}
