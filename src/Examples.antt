-- ===== src/Examples.antt =====
-- Runs of the modelled code on concrete inputs: what the examples share, and one module for each
-- part.
pub mod Sources
pub mod Disks
pub mod Grains
pub mod Partitions
pub mod Opening
pub mod Logs
pub mod Sessions
pub mod Records
pub mod Building
mod Names
pub mod Codec
pub mod Carving
pub mod Scanning
pub mod Recovery
use latent_dfir.Common.{
  ℕ, zero, suc, ◌-◌, ◌≤◌, ◌<◌, ◌≡◌, refl, ap, arith, min, List, [], ◌++◌, Bytes, Outcome, ok, err,
  span, ltb, if◌then◌else◌, le→ltb, lt→ltb, u64_mod,
}
use latent_dfir.Source.{Source, SourceError, Identity, Format, out_of_range}
use latent_dfir.Source.Reads.{Serves}
use latent_dfir.Core.Hash.{Digest}
use mathlib.Core.List.{append_assoc, append-nil}

abbrev pub evidence : Identity
evidence = record { path = "evidence.dd"; format = Format.raw }

-- A source of `n` bytes `f` whose reads return what was asked for.
unfoldable pub memory_read : (ℕ → ℕ) → ℕ → ℕ → ℕ → Outcome SourceError Bytes
memory_read f n o len = if ltb n o then err (out_of_range o n) else ok (span f o (min len (n - o)))

abbrev pub memory : (ℕ → ℕ) → ℕ → Source
memory f n = record { size = n; identity = evidence; read_at = memory_read f n }

pub memory-Serves : (f : ℕ → ℕ) (n : ℕ) → n < u64_mod → Serves (memory f n) f
unfolding memory_read
memory-Serves f n small = record {
  small = small;
  front = λ o len h. (min len (n - o), rw (le→ltb n o h), omega arith, λ p. p);
  past = λ o len h. rw (lt→ltb n o h);
}

-- A digest that keeps all it was fed.
abbrev pub recorder : Digest
recorder = record {
  State = Bytes;
  new = [];
  update = λ s b. s ++ b;
  finalize = λ s. s;
  update-append = append_assoc;
  update-nil = append-nil;
}
