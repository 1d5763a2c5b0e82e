-- ===== src/Partition/Found.antt =====
-- What `read` finds on a disk, and the windows of the partitions.
use latent_dfir.Common.{
  min, le→ltb, ◌-◌, ℕ, zero, suc, ◌+◌, ◌≤◌, ◌<◌, ◌≡◌, refl, sym, ◌∙◌, arith, some, List, [], ◌∷◌,
  length, subst, Bytes, Outcome, ok, err, panic, stuck, Settles, get_elem?,
}
use latent_dfir.Source.{Source}
use latent_dfir.Source.Reads.{Serves}
use latent_dfir.Source.Window.{Window, range, window_source, range-Serves}
use latent_dfir.Partition.{
  Partition, PartitionTable, Scheme, gpt, mbr, unpartitioned, Absent, get, len, window,
}
use latent_dfir.Partition.Gpt.{read_gpt}
use latent_dfir.Partition.Gpt.Spec.{IsGpt, HasGpt}
use latent_dfir.Partition.Gpt.Accepted.{read_gpt-Settles}
use latent_dfir.Partition.Mbr.{read_mbr}
use latent_dfir.Partition.Mbr.Spec.{IsMbr, HasNoMbr}
use latent_dfir.Partition.Mbr.Accepted.{read_mbr-Settles}
use latent_dfir.Partition.Table.{or_next, read}
use latent_dfir.Partition.Numbered.{
  IsNumbered, none_left, numbered, IsGpt-IsNumbered, IsMbr-IsNumbered,
}

-- What a partition table says of the bytes `f` of a disk of `size` bytes.
abbrev pub IsSchemeOf : (ℕ → ℕ) → ℕ → (Bytes → ℕ) → Scheme → List Partition → Type 0
IsSchemeOf f size crc32 gpt ps = IsGpt f crc32 ps
IsSchemeOf f size crc32 mbr ps = ¬ HasGpt f crc32 size × IsMbr f size ps
IsSchemeOf f size crc32 unpartitioned ps = ¬ HasGpt f crc32 size × HasNoMbr f size × (ps ≡ [])

abbrev pub IsTableOf : (ℕ → ℕ) → ℕ → (Bytes → ℕ) → PartitionTable → Type 0
IsTableOf f size crc32 t = IsSchemeOf f size crc32 t.scheme t.partitions

or_next-ok :
    (P : PartitionTable → Type 0) (N : Type 0) (Q : List Partition → Type 0) (scheme : Scheme)
    (m : Outcome Absent (List Partition)) (next : Outcome Absent PartitionTable)
    → Settles N Q m
    → ((ps : List Partition) → Q ps → P (record { scheme = scheme; partitions = ps }))
    → (N → (t : PartitionTable) × (next ≡ ok t) × P t)
    → (t : PartitionTable) × (or_next scheme m next ≡ ok t) × P t
unfolding or_next
or_next-ok P N Q scheme (ok ps) next h k rest =
    (record { scheme = scheme; partitions = ps }, refl, k ps h)
or_next-ok P N Q scheme (err e) next h k rest = rest h
or_next-ok P N Q scheme panic next h k rest = absurd h
or_next-ok P N Q scheme stuck next h k rest = absurd h

-- Reading the partitions of a disk that serves its bytes always ends with a table: the GUID
-- partition table that the bytes hold, with both checksums; else, where the disk holds none, the
-- MBR table that the bytes hold; else, where it has no MBR signature or no entry with a partition
-- either, a table without partitions.
pub read-total :
    (crc32 : Bytes → ℕ) (src : Source) (f : ℕ → ℕ) (s : Serves src f) (bytes : (i : ℕ) → f i < 256)
    → (t : PartitionTable) × (read crc32 src ≡ ok t) × IsTableOf f src.size crc32 t
unfolding read
read-total crc32 src f s bytes =
    let P = IsTableOf f src.size crc32 in
    or_next-ok P (¬ HasGpt f crc32 src.size) (IsGpt f crc32) gpt (read_gpt crc32 src) _
      (read_gpt-Settles crc32 src f s) (λ ps h. h)
      λ no_gpt.
        or_next-ok P (HasNoMbr f src.size) (IsMbr f src.size) mbr (read_mbr src) _
          (read_mbr-Settles s bytes) (λ ps h. (no_gpt, h))
          λ no_mbr.
            (record { scheme = unpartitioned; partitions = [] }, refl, (no_gpt, no_mbr, refl))

IsNumbered-get_elem? :
    (ps : List Partition) (first i : ℕ) (p : Partition)
    → IsNumbered first ps
    → get_elem? ps i ≡ some p
    → p.index ≡ first + i
IsNumbered-get_elem? [] first i p h e = absurd (cc)
IsNumbered-get_elem? (q ∷ ps) first zero p (numbered n h) e =
    let same : q ≡ p = cc in subst (λ r. r.index ≡ first + 0) same (n ∙ omega arith)
IsNumbered-get_elem? (q ∷ ps) first (suc i) p (numbered n h) e =
    IsNumbered-get_elem? ps (suc first) i p h e ∙ omega arith

table-IsNumbered :
    (f : ℕ → ℕ) (size : ℕ) (crc32 : Bytes → ℕ) (scheme : Scheme) (ps : List Partition)
    → IsSchemeOf f size crc32 scheme ps
    → IsNumbered 0 ps × length ps ≤ 4096
table-IsNumbered f size crc32 gpt ps h = IsGpt-IsNumbered f crc32 ps h
table-IsNumbered f size crc32 mbr ps (no_gpt, h) =
    let (a, b) = IsMbr-IsNumbered f size ps h in (a, omega (arith, b))
table-IsNumbered f size crc32 unpartitioned ps (no_gpt, no_mbr, h) =
    (subst (IsNumbered 0) (sym h) none_left, subst (λ l. length l ≤ 4096) (sym h) (omega arith))

-- The window of a partition that starts inside the disk.
window-Serves :
    (src : Source) (f : ℕ → ℕ) (p : Partition)
    → Serves src f
    → p.start ≤ src.size
    → (w : Window) × (window p src ≡ ok w)
      × Serves (window_source w) (λ j. f (p.start + j))
      × (w.len ≡ min p.length (src.size - p.start))
unfolding window range
window-Serves src f p s inside =
    let w : Window = record {
      inner = src;
      offset = p.start;
      len = min p.length (src.size - p.start);
      identity = src.identity;
    } in
    let made : range src p.start (some p.length) ≡ ok w = rw (le→ltb src.size p.start inside) in
    let (serves, size) = range-Serves src p.start (some p.length) w s made in
    (w, made, serves, size)

-- A table that is read from a disk that serves its bytes has at most 4096 partitions, and the
-- partition that `get` returns for an index carries that index; its window, if it starts inside the
-- disk, serves the bytes of the disk from its start on, as many as its length says or as there are.
pub read-get :
    (crc32 : Bytes → ℕ) (src : Source) (f : ℕ → ℕ) (s : Serves src f) (bytes : (i : ℕ) → f i < 256)
    (t : PartitionTable)
    → read crc32 src ≡ ok t
    → (len t ≤ 4096)
      × ((i : ℕ) (p : Partition)
          → get t i ≡ some p
          → (p.index ≡ i)
            × (p.start ≤ src.size
                → (w : Window) × (window p src ≡ ok w)
                  × Serves (window_source w) (λ j. f (p.start + j))
                  × (w.len ≡ min p.length (src.size - p.start))))
unfolding get len
read-get crc32 src f s bytes t e =
    let (t', e', h) = read-total crc32 src f s bytes in
    let same : t' ≡ t = cc in
    let (ordered, few) =
      table-IsNumbered f src.size crc32 t.scheme t.partitions
        (subst (IsTableOf f src.size crc32) same h) in
    (
      few,
      λ i p g. (
        IsNumbered-get_elem? t.partitions 0 i p ordered g ∙ omega arith,
        λ inside. window-Serves src f p s inside,
      ),
    )
