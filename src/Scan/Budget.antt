-- ===== src/Scan/Budget.antt =====
-- The bounds of a block layout that `Plan::resolve` accepts.
use latent_dfir.Common.{
  false, ℕ, ◌+◌, ◌*◌, ◌/◌, ◌%◌, ◌≤◌, ◌<◌, ◌≡◌, refl, subst, arith, Bool-cases, inl, inr, min, max,
  ok, u64_mod, add64-exact, ◌==◌, ==_iff, >>=-eq-ok,
}
use native.Mathlib.Nat.{
  le-div_iff_mul-le, le_trans, mul-le-mul_right, div-add-mod, mod-lt, div-mul-le_self,
}
use latent_dfir.Scan.{ScanConfig, Plan, fit_block, layout, resolve, div_ceil, min_block_size}

-- The block count is the least number of blocks that covers the source.
pub div_ceil-covers : (a b : ℕ) → 0 < b → (a ≤ div_ceil a b * b) × (div_ceil a b * b < a + b)
div_ceil-covers a b p = elim (Bool-cases (a % b == 0)) [
  | inl z ↦
      rw z
        (omega (arith, (==_iff (a % b) 0).0 z, div-add-mod a b), omega (arith, div-mul-le_self a b))
  | inr nz ↦ rw nz (omega (arith, div-add-mod a b, mod-lt a p), grind (arith, div-add-mod a b))
]

fit_block-ok :
    (c : ScanConfig) (n : ℕ)
    → 0 < c.block_size
    → c.block_size + c.overlap < u64_mod
    → min_block_size + c.overlap < u64_mod
    → fit_block c ≡ ok n
    → (0 < n) × (n ≤ c.block_size) × (n + c.overlap ≤ c.memory_budget)
unfolding fit_block
fit_block-ok c n p q r e = ground arith

resolve-layout :
    (c : ScanConfig) (size : ℕ) (p : Plan)
    → resolve c size ≡ ok p
    → (n : ℕ) × (0 < c.overlap)
      × (0 < c.block_size)
      × (0 < c.threads)
      × (fit_block c ≡ ok n)
      × (layout c size n ≡ p)
unfolding resolve
resolve-layout c size p e = elim (Bool-cases (c.overlap == 0)) [
  | inl t ↦ absurd (cc (rw t at e))
  | inr o ↦ elim (Bool-cases (c.block_size == 0)) [
    | inl t ↦ absurd (cc (rw (o, t) at e))
    | inr b ↦ elim (Bool-cases (c.threads == 0)) [
      | inl t ↦ absurd (cc (rw (o, b, t) at e))
      | inr t ↦
          let (n, fitted, made) = >>=-eq-ok (fit_block c) _ (rw (o, b, t) at e) in
          (n, ground arith, ground arith, ground arith, fitted, cc)
    ]
  ]
]

-- Whether a configuration is accepted does not depend on the size of the source.
pub resolve-any_size :
    (c : ScanConfig) (size size' : ℕ) (p : Plan)
    → resolve c size ≡ ok p
    → (n : ℕ) × (resolve c size' ≡ ok (layout c size' n))
unfolding resolve
resolve-any_size c size size' p e =
    let (n, lap, pos, t, fitted, made) = resolve-layout c size p e in
    (n, rw (pos→==0 c.overlap lap, pos→==0 c.block_size pos, pos→==0 c.threads t, fitted))
  where
    pos→==0 : (n : ℕ) → 0 < n → (n == 0) ≡ false
    pos→==0 n h = ground arith

-- The limits that the memory budget sets.
Limits : ScanConfig → ℕ → Plan → Type 0
Limits c size p =
    (p.worker_threads * (p.block_size + p.overlap) ≤ c.memory_budget)
    × (1 ≤ p.worker_threads)
    × (p.worker_threads ≤ c.threads)
    × (1 ≤ p.block_size)
    × (p.block_size ≤ c.block_size)
    × (p.overlap ≡ c.overlap)
    × (p.source_size ≡ size)
    × (size ≤ p.block_count * p.block_size)
    × (p.block_count * p.block_size < size + p.block_size)

workers-budget :
    (threads budget buffer : ℕ)
    → 0 < buffer
    → buffer ≤ budget
    → max (min threads (max (budget / buffer) 1)) 1 * buffer ≤ budget
workers-budget threads budget buffer p q =
    let one : 1 ≤ budget / buffer = (le-div_iff_mul-le p).1 (omega arith) in
    let few : max (min threads (max (budget / buffer) 1)) 1 ≤ budget / buffer = omega arith in
    le_trans (mul-le-mul_right buffer few) (div-mul-le_self budget buffer)

layout-Limits :
    (c : ScanConfig) (size n : ℕ)
    → 0 < c.threads
    → 0 < n
    → n ≤ c.block_size
    → n + c.overlap ≤ c.memory_budget
    → n + c.overlap < u64_mod
    → Limits c size (layout c size n)
unfolding layout Limits
layout-Limits c size n t p q r w = (
  rw (add64-exact n c.overlap w)
      (workers-budget c.threads c.memory_budget (n + c.overlap) (omega arith) r),
  omega arith,
  omega arith,
  p,
  q,
  refl,
  refl,
  (div_ceil-covers size n p).0,
  (div_ceil-covers size n p).1,
)

-- An accepted layout whose sizes do not overflow keeps the buffers within the memory budget, the
-- threads within those asked for, the block within the size asked for, and its blocks cover the
-- source with none to spare.
pub resolve-bounds :
    (c : ScanConfig) (size : ℕ) (p : Plan)
    → c.block_size + c.overlap < u64_mod
    → min_block_size + c.overlap < u64_mod
    → resolve c size ≡ ok p
    → (p.worker_threads * (p.block_size + p.overlap) ≤ c.memory_budget)
      × (1 ≤ p.worker_threads)
      × (p.worker_threads ≤ c.threads)
      × (1 ≤ p.block_size)
      × (p.block_size ≤ c.block_size)
      × (p.overlap ≡ c.overlap)
      × (p.source_size ≡ size)
      × (size ≤ p.block_count * p.block_size)
      × (p.block_count * p.block_size < size + p.block_size)
unfolding Limits
resolve-bounds c size p q r e =
    let (n, lap, pos, t, fitted, made) = resolve-layout c size p e in
    let (a, b, d) = fit_block-ok c n pos q r fitted in
    subst (Limits c size) made (layout-Limits c size n t a b d (omega arith))
