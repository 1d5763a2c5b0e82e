-- ===== src/Partition/Gpt/Listed.antt =====
-- The entries of a GUID partition table, as the loop of `read_gpt` meets them.
use latent_dfir.Common.{
  ℕ, zero, suc, ◌+◌, ◌-◌, ◌*◌, ◌≤◌, ◌<◌, ◌≡◌, refl, sym, ap₂, ◌∙◌, arith, true, false, Bool-cases,
  inl, inr, Option, none, some, List, [], ◌∷◌, ◌++◌, Bytes, subst, length-append, Settles-map, ok,
  span, slice, slice-span_part, u64_mod, Settles, >>=-Settles, length, checked_mul-some,
  checked_mul-none, checked_add-some, checked_add-none, checked_sub-some, checked_sub-none,
}
use latent_dfir.Partition.{Partition, Absent, guid_string, decode_name, sector_size, field}
use latent_dfir.Partition.Fields.{field-span, spans}
use latent_dfir.Partition.Gpt.{
  all_zero, extent_length, extent, gpt_partition, used_entry, gpt_entry, gpt_entries, push_some,
}
use latent_dfir.Partition.Gpt.Spec.{
  IsUnused, unused, reversed, starts_too_far, too_long, Describes, Listed, done, skip, keep,
  first_lba, last_lba,
}
use mathlib.Core.List.{append_assoc, append-nil}
use native.Mathlib.Decide.{dec_lt}

-- What the extent of two sector numbers is.
pub data ExtentView (first last : ℕ) : Type 0 where
  backward : last < first → extent first last ≡ none → ExtentView first last
  far : u64_mod ≤ first * sector_size → extent first last ≡ none → ExtentView first last
  long :
      u64_mod ≤ (last - first + 1) * sector_size → extent first last ≡ none → ExtentView first last
  fits :
      first ≤ last
      → first * sector_size < u64_mod
      → (last - first + 1) * sector_size < u64_mod
      → extent first last ≡ some (first * sector_size, (last - first + 1) * sector_size)
      → ExtentView first last

-- The length in bytes does not fit, perhaps because the number of sectors does not.
extent-long :
    (first last : ℕ)
    → first * sector_size < u64_mod
    → first ≤ last
    → u64_mod ≤ (last - first + 1) * sector_size
    → extent first last ≡ none
unfolding extent extent_length
extent-long first last h k l =
    let placed = checked_mul-some first sector_size h in
    let distance = checked_sub-some last first k in
    elim (dec_lt (last - first + 1) u64_mod) [
      | yes a ↦ rw (
        placed,
        distance,
        checked_add-some (last - first) 1 a,
        checked_mul-none (last - first + 1) sector_size l,
        extent,
        extent_length,
      )
      | no a ↦
          rw (
            placed,
            distance,
            checked_add-none (last - first) 1 (omega arith),
            extent,
            extent_length,
          )
    ]

pub extent-view : (first last : ℕ) → ExtentView first last
unfolding extent extent_length
extent-view first last = elim (dec_lt (first * sector_size) u64_mod) [
  | no h ↦ far (omega arith) (rw (checked_mul-none first sector_size (omega arith), extent))
  | yes h ↦
      let placed = checked_mul-some first sector_size h in
      elim (dec_lt last first) [
        | yes k ↦ backward k (rw (placed, checked_sub-none last first k, extent, extent_length))
        | no k ↦ elim (dec_lt ((last - first + 1) * sector_size) u64_mod) [
          | yes l ↦ fits (omega arith) h l (
              rw (
                placed,
                checked_sub-some last first (omega arith),
                checked_add-some (last - first) 1 (omega arith),
                checked_mul-some (last - first + 1) sector_size l,
                extent,
                extent_length,
              ))
          | no l ↦ long (omega arith) (extent-long first last h (omega arith) (omega arith))
        ]
      ]
]

-- What one round of the loop does with a chunk that has these fields.
module _ (number : ℕ) (chunk : Bytes) {guid : Bytes}
    (type_guid : slice {E = Absent} chunk 0 16 ≡ ok guid) where
  gpt_entry-zero : all_zero guid ≡ true → gpt_entry number chunk ≡ ok none
  unfolding gpt_entry
  gpt_entry-zero zeroed = rw (type_guid, zeroed)

  module _ {first last : ℕ} (used : all_zero guid ≡ false) (first_at : field chunk 32 8 ≡ ok first)
      (last_at : field chunk 40 8 ≡ ok last) where
    gpt_entry-bad : extent first last ≡ none → gpt_entry number chunk ≡ ok none
    unfolding gpt_entry used_entry gpt_partition
    gpt_entry-bad bad = rw (type_guid, used, first_at, last_at, bad)

    gpt_entry-good :
        {start len : ℕ} {kind : List ℕ} {name : Bytes}
        → extent first last ≡ some (start, len)
        → guid_string guid ≡ ok kind
        → slice {E = Absent} chunk 56 128 ≡ ok name
        → gpt_entry number chunk
          ≡ ok (
              some (record {
                index = number;
                kind = kind;
                start = start;
                length = len;
                name = decode_name name;
              }))
    unfolding gpt_entry used_entry gpt_partition
    gpt_entry-good good kind_at name_at =
        rw (type_guid, used, first_at, last_at, good, type_guid, kind_at, name_at)

module _ (f : ℕ → ℕ) where
  -- What one round of the loop finds.
  abbrev Round : ℕ → ℕ → Option Partition → Type 0
  Round o number none = IsUnused f o
  Round o number (some p) = Describes f o number p

  guid_string-span : (o : ℕ) → (kind : List ℕ) × (guid_string (span f o 16) ≡ ok kind)
  unfolding guid_string
  guid_string-span o = (_, λ i. guid_string (span f o 16))

  slice-front : (o k n : ℕ) → n ≤ k → slice {E = Absent} (span f o k) 0 n ≡ ok (span f o n)
  slice-front o k n h =
      slice-span_part f 0 n o k (omega arith) h
      ∙ ap₂ (λ a m. ok (span f a m)) {y = o} (omega arith) (omega arith)

  gpt_entry-Settles :
      (k o number : ℕ) → 128 ≤ k → Settles ⊥ (Round o number) (gpt_entry number (span f o k))
  gpt_entry-Settles k o number h =
      let type_guid = slice-front o k 16 (omega arith) in
      elim (Bool-cases (all_zero (span f o 16))) [
        | inl e ↦ rw (gpt_entry-zero number (span f o k) type_guid e) (unused e)
        | inr e ↦
            let first_at = field-span f 32 8 o k (omega arith) in
            let last_at = field-span f 40 8 o k (omega arith) in
            elim (extent-view (first_lba f o) (last_lba f o)) [
              | backward l x ↦
                  rw (gpt_entry-bad number (span f o k) type_guid e first_at last_at x) (reversed l)
              | far l x ↦
                  rw (gpt_entry-bad number (span f o k) type_guid e first_at last_at x)
                    (starts_too_far l)
              | long l x ↦
                  rw (gpt_entry-bad number (span f o k) type_guid e first_at last_at x) (too_long l)
              | fits l a b x ↦
                  let (kind, kind_at) = guid_string-span o in
                  rw
                    (gpt_entry-good number (span f o k) type_guid e first_at last_at x kind_at
                      (slice-span_part f 56 128 o k (omega arith) (omega arith)))
                    (record {
                      used = e;
                      ordered = l;
                      index = refl;
                      start = refl;
                      start_fits = a;
                      length = refl;
                      length_fits = b;
                      kind = kind_at;
                      name = refl;
                    })
            ]
      ]

  -- The partitions of `n` entries, after those that were there.
  abbrev pub After : ℕ → ℕ → ℕ → List Partition → List Partition → Type 0
  After k o n before r =
      (ps : List Partition) × (r ≡ before ++ ps) × Listed f k o (length before) n ps

  next_entry :
      (k o n : ℕ) (before : List Partition) (p : Option Partition)
      → Round o (length before) p
      → (r : List Partition) → After k (o + k) n (push_some before p) r
      → After k o (suc n) before r
  next_entry k o n before none free r (ps, e, rest) = (ps, e, skip free rest)
  next_entry k o n before (some p) used r (ps, e, rest) =
      let number : length (before ++ (p ∷ [])) ≡ suc (length before) =
        length-append before (p ∷ []) ∙ omega arith in
      (
        p ∷ ps,
        e ∙ append_assoc before (p ∷ []) ps,
        keep used (subst (λ m. Listed f k (o + k) m n ps) number rest),
      )

  pub gpt_entries-Settles :
      (k o n : ℕ) (before : List Partition)
      → 128 ≤ k
      → Settles ⊥ (After k o n before) (gpt_entries (spans f o k n) before)
  unfolding gpt_entries spans
  gpt_entries-Settles k o zero before h = ([], sym (append-nil before), done)
  gpt_entries-Settles k o (suc n) before h =
      >>=-Settles ⊥ (Round o (length before)) (After k o (suc n) before)
        (gpt_entry (length before) (span f o k)) _ (gpt_entry-Settles k o (length before) h)
        λ p round.
          Settles-map ⊥ (After k (o + k) n (push_some before p)) (After k o (suc n) before)
            (gpt_entries (spans f (o + k) k n) (push_some before p))
            (next_entry k o n before p round)
            (gpt_entries-Settles k (o + k) n (push_some before p) h)
