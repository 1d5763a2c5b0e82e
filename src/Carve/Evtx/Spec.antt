-- ===== src/Carve/Evtx/Spec.antt =====
-- What a well-formed EVTX record and chunk are, and what the bounded reads return.
use latent_dfir.Common.{
  ℕ, ◌+◌, ◌-◌, ◌%◌, ◌≤◌, ◌<◌, ◌≡◌, ap, ◌∙◌, arith, some, Bytes, ok, get_range, from_le_bytes,
  length, length-drop, length-take, take_all, take-drop-take, drop-take_self, take, drop, le→leb,
}
use latent_dfir.Carve.Evtx.{
  unwrap, read_u32, read_u64, EvtxConfig, RecordFrame, record_magic, min_record_size,
}

-- The little-endian number in the `n` bytes from `at` on.
abbrev pub le_at : Bytes → ℕ → ℕ → ℕ
le_at buf at n = from_le_bytes (take n (drop at buf))

pub get_range-some :
    (buf : Bytes) (at n : ℕ)
    → at + n ≤ length buf
    → get_range buf at (at + n) ≡ some (take n (drop at buf))
get_range-some buf at n h =
    rw (le→leb at (at + n) (omega arith), le→leb (at + n) (length buf) h)
      (ap (λ k. some (take k (drop at buf))) (omega arith))

pub unwrap-read_u32 :
    {E : Type 0} (buf : Bytes) (at : ℕ)
    → at + 4 ≤ length buf
    → unwrap {E = E} (read_u32 buf at) ≡ ok (le_at buf at 4)
unfolding read_u32
unwrap-read_u32 buf at h = rw (get_range-some buf at 4 h)

pub unwrap-read_u64 :
    {E : Type 0} (buf : Bytes) (at : ℕ)
    → at + 8 ≤ length buf
    → unwrap {E = E} (read_u64 buf at) ≡ ok (le_at buf at 8)
unfolding read_u64
unwrap-read_u64 buf at h = rw (get_range-some buf at 8 h)

-- A well-formed record of `size` bytes with identifier `id` at the head of `buf`.
pub record IsRecord (buf : Bytes) (size id : ℕ) : Type 0 where
  pub magic : take 4 buf ≡ record_magic
  pub head_size : le_at buf 4 4 ≡ size
  pub tail_size : le_at buf (size - 4) 4 ≡ size
  pub record_id : le_at buf 8 8 ≡ id
  pub minimal : min_record_size ≤ size
  pub aligned : size % 8 ≡ 0
  pub present : size ≤ length buf

-- Its size and time are within the limits of the configuration.
pub record IsPlausible (config : EvtxConfig) (buf : Bytes) (size : ℕ) : Type 0 where
  pub bounded : size ≤ config.max_record_size
  pub not_before : config.min_filetime ≤ le_at buf 16 8
  pub not_after : le_at buf 16 8 ≤ config.max_filetime

-- No well-formed record follows whose identifier is not above `id`.
abbrev pub IsUncontradicted : Bytes → ℕ → ℕ → Type 0
IsUncontradicted buf size id =
    (next_size next_id : ℕ) → IsRecord (drop size buf) next_size next_id → id < next_id

-- What `validate_record` looks for.
pub record IsAcceptable (config : EvtxConfig) (buf : Bytes) (frame : RecordFrame) : Type 0 where
  pub well_formed : IsRecord buf frame.size frame.record_id
  pub plausible : IsPlausible config buf frame.size
  pub uncontradicted : IsUncontradicted buf frame.size frame.record_id

pub get_range_rest :
    (buf : Bytes) (at : ℕ) → at ≤ length buf → get_range buf at (length buf) ≡ some (drop at buf)
get_range_rest buf at h =
    rw (le→leb at (length buf) h, le→leb (length buf) (length buf) (omega arith))
      (ap some (take_all (length buf - at) (drop at buf) (omega (arith, length-drop at buf))))

-- A range that a prefix covers reads the same in the prefix.
pub le_at-take : (buf : Bytes) (n at k : ℕ) → at + k ≤ n → le_at (take n buf) at k ≡ le_at buf at k
le_at-take buf n at k h = ap from_le_bytes (take-drop-take k at n buf h)

-- A record is a record by its own bytes, and these are not contradicted by what is cut off.
pub IsAcceptable-take :
    (config : EvtxConfig) (buf : Bytes) (frame : RecordFrame)
    → IsAcceptable config buf frame
    → IsAcceptable config (take frame.size buf) frame
IsAcceptable-take config buf frame a =
    let n = frame.size in
    let w = a.well_formed in
    let p = a.plausible in
    let least = w.minimal in
    let whole = w.present in
    record {
      well_formed = record {
        magic = take-drop-take 4 0 n buf (omega arith) ∙ w.magic;
        head_size = le_at-take buf n 4 4 (omega arith) ∙ w.head_size;
        tail_size = le_at-take buf n (n - 4) 4 (omega arith) ∙ w.tail_size;
        record_id = le_at-take buf n 8 8 (omega arith) ∙ w.record_id;
        minimal = least;
        aligned = w.aligned;
        present = omega (arith, length-take n buf);
      };
      plausible = record {
        bounded = p.bounded;
        not_before = omega (arith, le_at-take buf n 16 8 (omega arith), p.not_before);
        not_after = omega (arith, le_at-take buf n 16 8 (omega arith), p.not_after);
      };
      uncontradicted = λ s i r.
          let empty = rw (drop-take_self n buf) at r.present in absurd (omega (arith, r.minimal));
    }
