-- ===== src/Carve/Evtx/Next.antt =====
-- What `validate_record` sees of the record that follows.
use latent_dfir.Common.{
  ℕ, ◌-◌, ◌%◌, ◌≤◌, ◌≡◌, refl, sym, ap, ◌∙◌, arith, Bool, true, ◌&&◌, Bool-cases, Option, none,
  some, inl, inr, ◌↔◌, Bytes, bytes_eq, ok, slice-ok, get_range, length, take, drop, leb, ◌==◌,
  bytes_eq→eq, bytes_eq_refl, ==_iff,
}
use latent_dfir.Carve.Extractor.{Rejection}
use latent_dfir.Carve.Evtx.{record_magic, min_record_size, next_record_id, following, grows}
use latent_dfir.Carve.Evtx.Spec.{
  le_at, unwrap-read_u32, unwrap-read_u64, IsRecord, IsUncontradicted, get_range_rest,
}

-- What is said of the record that follows.
unfoldable pub Follows : Bytes → Option ℕ → Type 0
Follows next (some id) = IsRecord next (le_at next 4 4) id
Follows next none = (size id : ℕ) → ¬ IsRecord next size id

-- What the look at the bytes that follow gives.
abbrev pub Look : Bytes → Type 0
Look next = (o : Option ℕ) × (next_record_id next ≡ ok o) × Follows next o

module _ (next : Bytes) (long : leb min_record_size (length next) ≡ true) where
  abbrev size_there : ℕ
  size_there = le_at next 4 4

  abbrev size_fits : Bool
  size_fits =
      leb min_record_size size_there && (size_there % 8 == 0) && leb size_there (length next)

  -- The magic value is there, and the size at the head fits: the size at the end decides.
  fitting-Look : bytes_eq (take 4 next) record_magic ≡ true → size_fits ≡ true → Look next
  unfolding next_record_id Follows
  fitting-Look marked fit =
      let head = slice-ok {E = Rejection} next 0 4 (omega arith) (ground arith) in
      let sized = unwrap-read_u32 {E = Rejection} next 4 (ground arith) in
      let tailed = unwrap-read_u32 {E = Rejection} next (size_there - 4) (ground arith) in
      elim (Bool-cases (le_at next (size_there - 4) 4 == size_there)) [
        | inr differ ↦ (
          none,
          rw (long, head, marked, sized, fit, tailed, differ),
          λ size id r.
              let tail = ap (λ k. le_at next (k - 4) 4) r.head_size ∙ r.tail_size in
              ground (arith, tail ∙ sym r.head_size),
        )
        | inl same ↦
            let identified = unwrap-read_u64 {E = Rejection} next 8 (ground arith) in
            (
              some (le_at next 8 8),
              rw (long, head, marked, sized, fit, tailed, same, identified),
              record {
                magic = bytes_eq→eq (take 4 next) record_magic marked;
                head_size = refl;
                tail_size = (==_iff _ _).0 same;
                record_id = refl;
                minimal = ground arith;
                aligned = (==_iff (size_there % 8) 0).0 (ground arith);
                present = ground arith;
              },
            )
      ]

  -- The magic value is there.
  marked-Look : bytes_eq (take 4 next) record_magic ≡ true → Look next
  unfolding next_record_id Follows
  marked-Look marked =
      let head = slice-ok {E = Rejection} next 0 4 (omega arith) (ground arith) in
      let sized = unwrap-read_u32 {E = Rejection} next 4 (ground arith) in
      elim (Bool-cases size_fits) [
        | inr unfit ↦ (
          none,
          rw (long, head, marked, sized, unfit),
          λ size id r. ground (arith, r.minimal, r.present, r.aligned, r.head_size),
        )
        | inl fit ↦ fitting-Look marked fit
      ]

-- Looking at the next record reads only what is there, and finds it exactly if it is well formed.
pub next_record_id-Follows : (next : Bytes) → Look next
unfolding next_record_id Follows
next_record_id-Follows next = elim (Bool-cases (leb min_record_size (length next))) [
  | inr short ↦ (none, rw short, λ size id r. ground (arith, r.minimal, r.present))
  | inl long ↦
      let head = slice-ok {E = Rejection} next 0 4 (omega arith) (ground arith) in
      elim (Bool-cases (bytes_eq (take 4 next) record_magic)) [
        | inr other ↦ (
          none,
          rw (long, head, other),
          λ size id r.
              ground (arith, bytes_eq_refl record_magic, ap (λ m. bytes_eq m record_magic) r.magic),
        )
        | inl marked ↦ marked-Look next long marked
      ]
]

pub Follows-grows :
    (buf : Bytes) (size id : ℕ) (o : Option ℕ)
    → Follows (drop size buf) o
    → (grows id o ≡ true) ↔ IsUncontradicted buf size id
unfolding Follows
Follows-grows buf size id none f = (λ e s i r. absurd (f s i r), λ u. refl)
Follows-grows buf size id (some next_id) f = (
  λ e s i r. let same : next_id ≡ i = sym f.record_id ∙ r.record_id in ground (arith, same),
  λ u. ground (arith, u _ next_id f),
)

-- The look at what follows the record, once its bounds are known.
pub following_rest :
    (buf : Bytes) (size : ℕ) (o : Option ℕ)
    → size ≤ length buf
    → next_record_id (drop size buf) ≡ ok o
    → following (get_range buf size (length buf)) ≡ ok o
following_rest buf size o h e = ap following (get_range_rest buf size h) ∙ e
