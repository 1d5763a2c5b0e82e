-- ===== src/Examples/Sources.antt =====
-- Sources, windows, raw images, hashing and sessions at concrete inputs.
use latent_dfir.Common.{
  ℕ, ◌+◌, ◌≤◌, ◌<◌, ◌≡◌, refl, sym, ap, length, arith, ◌↔◌, some, none, inl, List, [], ◌∷◌, Bytes,
  ok, err, span, get_or,
}
use latent_dfir.Source.{Source, read_exact_at, short_read, out_of_range}
use latent_dfir.Source.Reads.{Serves, read_exact_at-cases}
use latent_dfir.Source.Window.{Window}
use latent_dfir.Source.Raw.ReadOnly.{IsReadOnly, ComesFrom, raw_open-IsReadOnly}
use latent_dfir.Source.Raw.{
  Host, unix, RawSource, mapped, raw_open, raw_source, raw_identity, open_readonly, open_file,
}
use latent_dfir.Source.Raw.Contents.{Holds, raw_open-Serves}
use latent_dfir.Core.Hash.{sha256}
use latent_dfir.Integrity.{
  source_hash, source_close, at_open, at_close, VerifiedSource, expected_mismatch, source_changed,
  wrap, finish,
}
use latent_dfir.Text.{trim, to_ascii_lowercase}
use latent_dfir.Integrity.Session.{wrap-Serves, finish-Serves}
use latent_dfir.Examples.{evidence, memory, memory-Serves, recorder}

-- The bytes 10, 11, 12, …
abbrev counting : ℕ → ℕ
counting i = 10 + i

abbrev five : Source
five = memory counting 5

five-Serves : Serves five counting
five-Serves = memory-Serves counting 5 (omega arith)

read_exact_at-cases_example :
    (3 + 4 ≤ 5 → read_exact_at five 3 4 ≡ ok (span counting 3 4))
    × (3 ≤ 5 → 5 < 3 + 4 → read_exact_at five 3 4 ≡ err (short_read 5 4 2))
    × (5 < 3 → 0 < 4 → read_exact_at five 3 4 ≡ err (out_of_range 3 5))
read_exact_at-cases_example = read_exact_at-cases five-Serves 3 4

abbrev cut : Window
cut = record { inner = five; offset = 2; len = 3; identity = evidence }

abbrev contents : Bytes
contents = 10 ∷ 11 ∷ 12 ∷ []

abbrev pub file_byte : ℕ → ℕ
file_byte i = get_or contents i 0

-- A system with one file, of three bytes, on descriptor 3, that can be mapped.
abbrev pub host : Host
host = record {
  system = unix (record {
    open_noatime = some (λ path. ok 3);
    open_plain = λ path. ok 3;
    getfl = λ fd. ok 0;
  });
  file_len = λ fd. ok 3;
  mmap = λ fd. ok contents;
  pread = λ fd o len. ok (span file_byte o len);
}

abbrev pub image : RawSource
image = record { backing = mapped contents; size = 3; identity = raw_identity "evidence.dd" }

pub host-Holds : Holds host "evidence.dd" file_byte 3
host-Holds = record {
  small = omega arith;
  file_len = λ fd h. refl;
  whole_map = λ fd m e. let same : contents ≡ m = cc in ap length (sym same);
  map_bytes = λ fd m e i h. let same : contents ≡ m = cc in ap (λ l. get_or l i 0) (sym same);
  pread = λ fd o len h p q. (len, refl, p, omega arith);
}

pub image_opened : raw_open host "evidence.dd" ≡ ok image
unfolding raw_open open_file open_readonly
image_opened = refl

raw_open-Serves_example : Serves (raw_source host image) file_byte × (image.size ≡ 3)
raw_open-Serves_example = raw_open-Serves host "evidence.dd" host-Holds image (inl image_opened)

raw_open-IsReadOnly_example :
    (fd : ℕ) × IsReadOnly host.system "evidence.dd" fd
    × (host.file_len fd ≡ ok image.size)
    × ComesFrom host fd image.backing
raw_open-IsReadOnly_example = raw_open-IsReadOnly host "evidence.dd" image image_opened

-- " 0A0B ", of which the example expects the digest.
abbrev expected : List ℕ
expected = 32 ∷ 48 ∷ 65 ∷ 48 ∷ 66 ∷ 32 ∷ []

abbrev five_hash : Bytes
five_hash = sha256 recorder (span counting 0 5)

wrap-Serves_example :
    ((wrap recorder [] five (some expected)).0 ≡ source_hash at_open "sha256" five_hash ∷ [])
    × (to_ascii_lowercase (trim expected) ≡ five_hash
        → (wrap recorder [] five (some expected)).1
          ≡ ok (record { source = five; open_hash = five_hash }))
    × (¬ (to_ascii_lowercase (trim expected) ≡ five_hash)
        → (wrap recorder [] five (some expected)).1
          ≡ err (expected_mismatch (to_ascii_lowercase (trim expected)) five_hash))
    × (wrap recorder [] five none ≡ (
      source_hash at_open "sha256" five_hash ∷ [],
      ok (record { source = five; open_hash = five_hash }),
    ))
wrap-Serves_example = wrap-Serves recorder [] five counting expected five-Serves

abbrev opened : VerifiedSource
opened = record { source = five; open_hash = five_hash }

abbrev grown : Source
grown = memory counting 6

abbrev grown_hash : Bytes
grown_hash = sha256 recorder (span counting 0 6)

finish-Serves_example :
    ((finish recorder [] grown opened).0
      ≡ source_hash at_close "sha256" grown_hash ∷ source_close "evidence.dd" ∷ [])
    × (((finish recorder [] grown opened).1 ≡ ok grown_hash) ↔ (grown_hash ≡ five_hash))
    × (¬ (grown_hash ≡ five_hash)
        → (finish recorder [] grown opened).1 ≡ err (source_changed five_hash grown_hash))
finish-Serves_example =
    finish-Serves recorder [] five grown counting counting (memory-Serves counting 6 (omega arith))
