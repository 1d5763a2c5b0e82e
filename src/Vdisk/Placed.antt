-- ===== src/Vdisk/Placed.antt =====
-- Virtual disks whose block map is a function on block numbers.
use latent_dfir.Common.{
  ℕ, ◌+◌, ◌-◌, ◌*◌, ◌/◌, ◌%◌, ◌≤◌, ◌<◌, ◌≡◌, ap, ◌∙◌, arith, min, Option, some, none, Option-cases,
  inl, inr, span-ext, ok, u64_mod,
}
use latent_dfir.Source.{Source, Identity}
use latent_dfir.Source.Reads.{Serves}
use latent_dfir.Vdisk.{Image, image_source}
use latent_dfir.Vdisk.Blocks.{IsMapped, virtual_byte, image_source-Serves}
use native.Mathlib.Nat.{div-add-mod'}

-- The bytes of a disk of blocks: those of a placed block where it was put, zero elsewhere.
abbrev pub placed_byte : ℕ → (ℕ → Option ℕ) → (ℕ → ℕ) → ℕ → ℕ
placed_byte block_size place f i = elim (place (i / block_size)) [
  | some host ↦ f (host + i % block_size)
  | none ↦ 0
]

-- `locate` finds the place of each block of the disk, inside the inner source.
pub record IsPlaced (d : Image) (place : ℕ → Option ℕ) : Type 0 where
  pub positive : 0 < d.block_size
  pub small : d.virtual_size < u64_mod
  pub located : (b : ℕ) → b * d.block_size < d.virtual_size → d.locate b ≡ ok (place b)
  pub room :
      (b host : ℕ)
      → b * d.block_size < d.virtual_size
      → place b ≡ some host
      → host + min d.block_size (d.virtual_size - b * d.block_size) ≤ d.inner.size
  pub joins : (h w : ℕ) → h + w ≤ d.inner.size → d.join h w ≡ h + w

-- What a source serves is known by its bytes inside the source.
pub Serves-ext :
    {src : Source} (f g : ℕ → ℕ)
    → Serves src f
    → ((i : ℕ) → i < src.size → f i ≡ g i)
    → Serves src g
Serves-ext {src} f g s same = record {
  small = s.small;
  front = λ o len h.
      let (n, e, le, some_read) = s.front o len h in
      (n, e ∙ ap ok (span-ext f g o n (λ i lo hi. same i (omega arith))), le, some_read);
  past = s.past;
}

module _ (d : Image) (place : ℕ → Option ℕ) (p : IsPlaced d place) where
  placed-IsMapped : IsMapped d
  placed-IsMapped = record {
    positive = p.positive;
    small = p.small;
    blocks = λ b h. elim (Option-cases (place b)) [
      | inl e ↦ inl (p.located b h ∙ ap ok e)
      | inr (host, e) ↦ inr (host, p.located b h ∙ ap ok e, p.room b host h e)
    ];
    joins = p.joins;
  }

  virtual-placed :
      (f : ℕ → ℕ) (i : ℕ)
      → i < d.virtual_size
      → virtual_byte d f i ≡ placed_byte d.block_size place f i
  unfolding virtual_byte
  virtual-placed f i h =
      let at : d.locate (i / d.block_size) ≡ ok (place (i / d.block_size)) =
        p.located (i / d.block_size) (omega (arith, div-add-mod' i d.block_size)) in
      elim (Option-cases (place (i / d.block_size))) [
        | inl e ↦ rw (at, e, virtual_byte, placed_byte)
        | inr (host, e) ↦ rw (at, e, virtual_byte, placed_byte)
      ]

  pub placed_source-Serves :
      (identity : Identity) (f : ℕ → ℕ)
      → Serves d.inner f
      → Serves (image_source d identity) (placed_byte d.block_size place f)
  placed_source-Serves identity f serves =
      Serves-ext (virtual_byte d f) (placed_byte d.block_size place f)
        (image_source-Serves d identity f serves placed-IsMapped) (virtual-placed f)
