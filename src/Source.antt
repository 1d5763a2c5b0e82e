-- ===== src/Source.antt =====
-- latent-source/src/lib.rs and error.rs: the `Source` trait, its errors and the exact read.
pub mod Reads
pub mod Window
pub mod Raw
use latent_dfir.Common.{
  ℕ, zero, suc, ◌-◌, Bool, true, false, String, Bytes, length, drop, List, [], ◌++◌, Outcome, ok,
  err, stuck, panic, ◌>>=◌, add64, ltb, leb, if◌then◌else◌,
}

-- `PathBuf`.
abbrev pub FilePath : Type 0
FilePath = String

pub data Format : Type 0 where
  raw ewf qcow2 vmdk vhdx : Format

-- The `Display` of `Format`.
unfoldable pub format_name : Format → String
format_name raw = "raw"
format_name ewf = "ewf"
format_name qcow2 = "qcow2"
format_name vmdk = "vmdk"
format_name vhdx = "vhdx"

pub record Identity : Type 0 where
  pub path : FilePath
  pub format : Format

-- `SourceError`, and the two kinds of `std::io::Error` that the code meets: one of the operating
-- system, and one that wraps a `SourceError` (`io::Error::other`).
mutual
  pub data SourceError : Type 0 where
    out_of_range : (offset size : ℕ) → SourceError
    short_read : (offset wanted got : ℕ) → SourceError
    unrecognized : (path : FilePath) → SourceError
    not_read_only : (path : FilePath) → SourceError
    malformed : (path : FilePath) (format detail : String) → SourceError
    unsupported : (path : FilePath) (format detail : String) → SourceError
    io : (path : FilePath) (source : IoError) → SourceError

  pub data IoError : Type 0 where
    os : (code : ℕ) → IoError
    other : SourceError → IoError

-- The trait. `read_at offset len` stands for `read_at(offset, buf)` with `buf.len() == len`: it
-- returns the bytes written to the front of `buf`, whose number is what the Rust method returns.
pub record Source : Type 0 where
  pub size : ℕ
  pub identity : Identity
  pub read_at : ℕ → ℕ → Outcome SourceError Bytes

-- The loop of `read_exact_at`: `offset` moves on, `rest` is the length of what is left of `buf`, and
-- `got` is what was read. A source that reports more bytes than it was asked for panics in
-- `buf[n..]`.
unfoldable pub read_exact_loop : ℕ → Source → ℕ → ℕ → ℕ → Bytes → Outcome SourceError Bytes
read_exact_loop fuel src offset wanted zero got = ok got
read_exact_loop zero src offset wanted (suc rest) got = stuck
read_exact_loop (suc fuel) src offset wanted (suc rest) got = do
  chunk ← src.read_at offset (suc rest)
  let n = length chunk
  let next = read_exact_loop fuel src (add64 offset n) wanted (suc rest - n) (got ++ chunk)
  if leb n 0
      then err (short_read offset wanted (wanted - suc rest))
      else if ltb (suc rest) n
      then panic
      else next

-- Each round reads a byte at least, so `len` rounds are enough.
unfoldable pub read_exact_at : Source → ℕ → ℕ → Outcome SourceError Bytes
unfolding read_exact_loop
read_exact_at src offset len = read_exact_loop len src offset len len []
