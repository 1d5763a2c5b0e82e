-- ===== src/Source/Raw.antt =====
-- latent-source/src/readonly.rs and raw.rs: opening evidence read-only, and raw images over a memory
-- map or positioned reads. The operating system is a parameter.
pub mod Contents
pub mod ReadOnly
use latent_dfir.Common.{
  ℕ, ◌+◌, ◌-◌, ◌≤◌, ◌<◌, ◌≡◌, refl, arith, min, Bool, true, false, Option, none, some, not, bit_and,
  bit_or, Bytes, [], Outcome, ok, err, panic, stuck, ◌>>=◌, ◌>>◌, map_err, ltb, ◌==◌, if◌then◌else◌,
  u64_mod, slice, length, get_or, span, le→ltb, lt→ltb, >>=-eq-ok, ap, sym, subst, ◌∙◌,
  take-drop-span, Bool-cases, inl, inr,
}
use latent_dfir.Source.{
  Source, SourceError, IoError, Identity, Format, FilePath, io, out_of_range, not_read_only,
}
use latent_dfir.Source.Reads.{Serves, ReadsFront}

-- What opening a file takes on Unix. A file descriptor is a number.
pub record Unix : Type 0 where
  -- `rustix::fs::open` with RDONLY | CLOEXEC | NOATIME, which there is on Linux alone, and without
  -- NOATIME
  pub open_noatime : Option (FilePath → Outcome IoError ℕ)
  pub open_plain : FilePath → Outcome IoError ℕ
  -- `fcntl_getfl`: the status flags, as bits
  pub getfl : ℕ → Outcome IoError ℕ

-- What it takes on Windows: `OpenOptions::open` with these `read`, `access_mode` and `share_mode`.
pub record Windows : Type 0 where
  pub open_options : Bool → (access_mode share_mode : ℕ) → FilePath → Outcome IoError ℕ

pub data System : Type 0 where
  unix : Unix → System
  windows : Windows → System

-- What the code asks of the operating system.
pub record Host : Type 0 where
  pub system : System
  -- `File::metadata().len()`
  pub file_len : ℕ → Outcome IoError ℕ
  -- `Mmap::map`: the bytes of the map
  pub mmap : ℕ → Outcome IoError Bytes
  -- `read_at fd buf offset`, on Windows `seek_read`, given the length of `buf`
  pub pread : ℕ → ℕ → ℕ → Outcome IoError Bytes

-- `OFlags::WRONLY | OFlags::RDWR`
abbrev pub write_flags : ℕ
write_flags = 3

-- `a.or_else(|_| b)`
abbrev pub or_else : {E A : Type 0} → Outcome E A → Outcome E A → Outcome E A
or_else (err e) b = b
or_else a b = a

abbrev pub generic_read : ℕ
generic_read = 0x8000_0000

abbrev pub file_share_read : ℕ
file_share_read = 0x0000_0001

abbrev pub file_share_write : ℕ
file_share_write = 0x0000_0002

abbrev pub file_share_delete : ℕ
file_share_delete = 0x0000_0004

-- On Linux the first attempt leaves the access time alone; elsewhere there is but one.
unfoldable pub open_attempts : Unix → FilePath → Outcome IoError ℕ
open_attempts u path = elim u.open_noatime [
  | none ↦ u.open_plain path
  | some open_noatime ↦ or_else (open_noatime path) (u.open_plain path)
]

unfoldable pub open_unix : Unix → FilePath → Outcome SourceError ℕ
unfolding open_attempts
open_unix u path = do
  fd ← map_err (io path) (open_attempts u path)
  flags ← map_err (io path) (u.getfl fd)
  if bit_and flags write_flags == 0 then ok fd else err (not_read_only path)

unfoldable pub open_windows : Windows → FilePath → Outcome SourceError ℕ
open_windows w path = map_err (io path) (
    w.open_options true generic_read
      (bit_or (bit_or file_share_read file_share_write) file_share_delete) path)

unfoldable pub open_on : System → FilePath → Outcome SourceError ℕ
unfolding open_unix open_windows
open_on (unix u) path = open_unix u path
open_on (windows w) path = open_windows w path

module _ (host : Host) where
  unfoldable pub open_readonly : FilePath → Outcome SourceError ℕ
  unfolding open_on
  open_readonly path = open_on host.system path

  unfoldable pub open_file : FilePath → Outcome SourceError (ℕ × ℕ)
  open_file path = do
    fd ← open_readonly path
    size ← map_err (io path) (host.file_len fd)
    ok (fd, size)

pub data Backing : Type 0 where
  mapped : Bytes → Backing
  positioned : (fd : ℕ) → Backing
  empty : Backing

pub record RawSource : Type 0 where
  pub backing : Backing
  pub size : ℕ
  pub identity : Identity

abbrev pub raw_identity : FilePath → Identity
raw_identity path = record { path = path; format = Format.raw }

-- `Err(_) => Backing::Positioned(file)`
abbrev pub choose_backing : Outcome IoError Bytes → ℕ → Outcome SourceError Backing
choose_backing (ok m) fd = ok (mapped m)
choose_backing (err e) fd = ok (positioned fd)
choose_backing panic fd = panic
choose_backing stuck fd = stuck

module _ (host : Host) where
  -- `RawSource::open`
  unfoldable pub raw_open : FilePath → Outcome SourceError RawSource
  raw_open path = do
    (fd, size) ← open_file host path
    let here = raw_identity path
    backing ← if size == 0 then ok empty else choose_backing (host.mmap fd) fd
    ok (record { backing = backing; size = size; identity = here })

  unfoldable pub open_positioned : FilePath → Outcome SourceError RawSource
  open_positioned path = do
    (fd, size) ← open_file host path
    let here = raw_identity path
    ok (record {
      backing = if size == 0 then empty else positioned fd;
      size = size;
      identity = here;
    })

  -- The `match` on the backing, for `n` bytes at `offset`.
  unfoldable pub read_backing : Backing → Identity → ℕ → ℕ → Outcome SourceError Bytes
  read_backing (mapped m) here offset n = slice m offset (offset + n)
  read_backing (positioned fd) here offset n = map_err (io (here.path)) (host.pread fd offset n)
  read_backing empty here offset n = ok []

  unfoldable pub raw_read_at : RawSource → ℕ → ℕ → Outcome SourceError Bytes
  raw_read_at r offset wanted =
      let n = min wanted (r.size - offset) in
      if ltb r.size offset
      then err (out_of_range offset r.size)
      else if n == 0
      then ok []
      else read_backing r.backing r.identity offset n

  -- `impl Source for RawSource`
  abbrev pub raw_source : RawSource → Source
  raw_source r = record { size = r.size; identity = r.identity; read_at = raw_read_at r }
