-- ===== src/Partition/Gpt/Shape.antt =====
-- The sizes that the header of a GUID partition table names.
use latent_dfir.Common.{
  ℕ, ◌+◌, ◌*◌, ◌≤◌, ◌<◌, ◌≡◌, ◌≢◌, arith, true, not, ◌&&◌, Outcome, ◌>>=◌, u64_mod, mul64, Settles,
  checked_mul, leb, checked_mul-some, checked_mul-none, ◌==◌,
}
use native.Mathlib.Nat.{mul-le-mul}
use native.Mathlib.Decide.{dec_lt}
use latent_dfir.Partition.{Absent, sector_size}
use latent_dfir.Partition.Gpt.{some_or_absent}

pub offset-then {κ} :
    {B : Type κ} (Q : Type 0) (P : B → Type 0) (a b : ℕ) (k : ℕ → Outcome Absent B)
    → (a * b < u64_mod → Settles Q P (k (a * b)))
    → (¬ (a * b < u64_mod) → Q)
    → Settles Q P (some_or_absent (checked_mul a b) >>= k)
offset-then Q P a b k h q = elim (dec_lt (a * b) u64_mod) [
  | yes l ↦ rw (checked_mul-some a b l) (h l)
  | no l ↦ rw (checked_mul-none a b (omega arith)) (q l)
]

pub table_shape :
    (es n : ℕ)
    → (leb 128 es && leb es 4096 && not (n == 0) && leb n 4096) ≡ true
    → ((128 ≤ es) × (es ≤ 4096)) × (n ≢ 0) × (n ≤ 4096)
table_shape es n h = ground arith

pub shape_holds :
    (es n : ℕ)
    → 128 ≤ es
    → es ≤ 4096
    → n ≢ 0
    → n ≤ 4096
    → (leb 128 es && leb es 4096 && not (n == 0) && leb n 4096) ≡ true
shape_holds es n a b c d = ground arith

pub sizes_hold : (hs : ℕ) → 92 ≤ hs → hs ≤ sector_size → (leb 92 hs && leb hs sector_size) ≡ true
sizes_hold hs a b = ground arith

pub table_size : (es n : ℕ) → n ≤ 4096 → es ≤ 4096 → mul64 n es ≡ n * es
table_size es n h k = omega (arith, mul-le-mul h k)

pub table_positive : (es n : ℕ) → n ≤ 4096 → es ≤ 4096 → 128 ≤ es → n ≢ 0 → 0 < mul64 n es
table_positive es n h k low some =
    let some_n : 1 ≤ n = omega arith in
    let some_es : 1 ≤ es = omega arith in
    let positive : 1 * 1 ≤ n * es = mul-le-mul some_n some_es in
    omega (arith, table_size es n h k, positive)

pub too_short : (a b o m n : ℕ) → a ≡ b → m ≡ n → a < o + m → ¬ (o + n ≤ b)
too_short a b o m n e g h k = omega arith
