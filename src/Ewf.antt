-- ===== src/Ewf.antt =====
-- latent-source/src/ewf.rs, in a build with libewf. The library is a parameter: what each call
-- returns. Besides its result a function gives the calls that make or free something, in order.
pub mod Ledger
pub mod Contents
use latent_dfir.Common.{
  ℕ, zero, suc, ◌+◌, ◌-◌, ◌≤◌, ◌<◌, ◌≡◌, Bool, true, false, ◌||◌, not, Option, none, some, List, [],
  ◌∷◌, ◌++◌, Bytes, Outcome, ok, err, String, min, leb, ltb, ◌==◌, if◌then◌else◌,
}
use latent_dfir.Source.{Source, SourceError, Identity, Format, FilePath, malformed, out_of_range}
use latent_dfir.Text.Utf8.{from_utf8}

abbrev pub magic : Bytes
magic = 0x45 ∷ 0x56 ∷ 0x46 ∷ 0x09 ∷ 0x0d ∷ 0x0a ∷ 0xff ∷ 0x00 ∷ []

-- libewf, and the bytes of a path. `none` and `false` stand for a result other than 1, and for a
-- negative count of `libewf_handle_read_random`. An offset that is cast to `i64` keeps its bits.
pub record Libewf : Type 1 where
  pub Names : Type 0
  pub Handle : Type 0
  pub path_bytes : FilePath → Bytes
  pub glob : Bytes → Option Names
  pub handle_initialize : Option Handle
  pub handle_open : Handle → Names → Bool
  pub get_media_size : Handle → Option ℕ
  pub get_hash_value_size : Handle → Bytes → Option ℕ
  pub get_hash_value : Handle → Bytes → ℕ → Option Bytes
  pub read_random : Handle → ℕ → ℕ → Option Bytes

-- The calls. `try_open` says whether `libewf_handle_open` succeeded; `use_handle` is a query of an
-- open handle.
pub data Call : Type 0 where
  make_names free_names make_handle close_handle free_handle use_handle : Call
  try_open : Bool → Call

-- A result with the calls before it.
abbrev pub after {ℓ} : {A : Type ℓ} → List Call → List Call × A → List Call × A
after calls (more, a) = (calls ++ more, a)

-- `buf[..end]`, where `end` is the position of the first zero or the length.
unfoldable pub before_nul : Bytes → Bytes
before_nul [] = []
before_nul (b ∷ bs) = let rest = before_nul bs in if b == 0 then [] else b ∷ rest

unfoldable pub has_nul : Bytes → Bool
has_nul [] = false
has_nul (b ∷ bs) = (b == 0) || has_nul bs

module _ (lib : Libewf) where
  pub record EwfSource : Type 0 where
    pub handle : lib.Handle
    pub identity : Identity
    pub media_size : ℕ
    pub md5 : Option (List ℕ)
    pub sha1 : Option (List ℕ)

  -- `hash_value`, after the call for the size, and after the call for the value.
  unfoldable pub hash_text : Option Bytes → Option (List ℕ)
  unfolding before_nul from_utf8
  hash_text none = none
  hash_text (some buf) = from_utf8 (before_nul buf)

  unfoldable pub sized_hash : lib.Handle → Bytes → Option ℕ → List Call × Option (List ℕ)
  unfolding hash_text
  sized_hash handle id none = (use_handle ∷ [], none)
  sized_hash handle id (some size) =
      if leb size 1
      then (use_handle ∷ [], none)
      else (use_handle ∷ use_handle ∷ [], hash_text (lib.get_hash_value handle id size))

  unfoldable pub hash_value : lib.Handle → Bytes → List Call × Option (List ℕ)
  hash_value handle id = sized_hash handle id (lib.get_hash_value_size handle id)

  -- `EwfSource::open`, from its last call back to its first.
  module _ (path : FilePath) where
    abbrev pub bad : String → Outcome SourceError EwfSource
    bad detail = err (malformed path "ewf" detail)

    unfoldable pub measured : lib.Handle → Option ℕ → List Call × Outcome SourceError EwfSource
    measured handle none =
        (use_handle ∷ close_handle ∷ free_handle ∷ [], bad "could not read the media size")
    measured handle (some media_size) =
        let (calls, md5) = hash_value handle (b'M' ∷ b'D' ∷ b'5' ∷ []) in
        let (calls', sha1) = hash_value handle (b'S' ∷ b'H' ∷ b'A' ∷ b'1' ∷ []) in
        (
          use_handle ∷ calls ++ calls',
          ok (record {
            handle = handle;
            identity = record { path = path; format = Format.ewf };
            media_size = media_size;
            md5 = md5;
            sha1 = sha1;
          }),
        )

    unfoldable pub tried : lib.Handle → Bool → List Call × Outcome SourceError EwfSource
    tried handle true =
        after (try_open true ∷ free_names ∷ []) (measured handle (lib.get_media_size handle))
    tried handle false =
        (try_open false ∷ free_names ∷ free_handle ∷ [], bad "not a readable EWF image")

    unfoldable pub initialized :
        lib.Names → Option lib.Handle → List Call × Outcome SourceError EwfSource
    initialized names none = (free_names ∷ [], bad "libewf handle could not be created")
    initialized names (some handle) =
        after (make_handle ∷ []) (tried handle (lib.handle_open handle names))

    unfoldable pub globbed : Option lib.Names → List Call × Outcome SourceError EwfSource
    globbed none = ([], bad "could not enumerate EWF segments")
    globbed (some names) = after (make_names ∷ []) (initialized names lib.handle_initialize)

    unfoldable pub ewf_open : List Call × Outcome SourceError EwfSource
    ewf_open =
        let image = globbed (lib.glob (lib.path_bytes path)) in
        if has_nul (lib.path_bytes path) then ([], bad "path contains a NUL byte") else image

  -- `drop`
  abbrev pub ewf_drop : List Call
  ewf_drop = close_handle ∷ free_handle ∷ []

  abbrev pub acquisition_md5 : EwfSource → Option (List ℕ)
  acquisition_md5 e = e.md5

  abbrev pub acquisition_sha1 : EwfSource → Option (List ℕ)
  acquisition_sha1 e = e.sha1

  -- `read_at`, after the call.
  unfoldable pub read_result : FilePath → Option Bytes → Outcome SourceError Bytes
  read_result path none = err (malformed path "ewf" "read failed")
  read_result path (some bytes) = ok bytes

  unfoldable pub ewf_read_at : EwfSource → ℕ → ℕ → Outcome SourceError Bytes
  ewf_read_at e offset len =
      if ltb (e.media_size) offset
      then err (out_of_range offset (e.media_size))
      else (let n = min len (e.media_size - offset) in
          if n == 0
          then ok []
          else read_result (e.identity.path) (lib.read_random (e.handle) offset n))

  abbrev pub ewf_source : EwfSource → Source
  ewf_source e = record { size = e.media_size; identity = e.identity; read_at = ewf_read_at e }
