-- ===== src/Source/Raw/Contents.antt =====
-- What a raw image serves, whichever backing `RawSource::open` chose.
use latent_dfir.Common.{
  ℕ, ◌+◌, ◌-◌, ◌≤◌, ◌<◌, ◌≡◌, refl, arith, min, Bytes, Outcome, ok, err, panic, stuck, ◌==◌,
  if◌then◌else◌, u64_mod, length, get_or, span, le→ltb, lt→ltb, >>=-eq-ok, ap, sym, subst, ◌∙◌,
  Bool-cases, ◌⊎◌, inl, inr, span-ext, slice-span,
}
use latent_dfir.Source.{SourceError, IoError, Identity, FilePath}
use latent_dfir.Source.Reads.{Serves, ReadsFront}
use latent_dfir.Source.Raw.{
  Host, Backing, mapped, positioned, empty, RawSource, open_readonly, open_file, raw_open,
  open_positioned, read_backing, raw_read_at, raw_source, raw_identity, choose_backing,
}

-- The behaviour of the system that reading a stable file of `n` bytes `f` relies on.
pub record Holds (host : Host) (path : FilePath) (f : ℕ → ℕ) (n : ℕ) : Type 0 where
  pub small : n < u64_mod
  pub file_len : (fd : ℕ) → open_readonly host path ≡ ok fd → host.file_len fd ≡ ok n
  pub whole_map : (fd : ℕ) (m : Bytes) → host.mmap fd ≡ ok m → length m ≡ n
  pub map_bytes : (fd : ℕ) (m : Bytes) → host.mmap fd ≡ ok m → (i : ℕ) → i < n → get_or m i 0 ≡ f i
  pub pread :
      (fd o len : ℕ)
      → open_readonly host path ≡ ok fd
      → 0 < len
      → o + len ≤ n
      → (k : ℕ) × (host.pread fd o len ≡ ok (span f o k)) × (0 < k) × (k ≤ len)

-- The backing holds the `n` bytes `f`.
Backs : Host → (ℕ → ℕ) → ℕ → Backing → Type 0
Backs host f n (mapped m) = (length m ≡ n) × ((i : ℕ) → i < n → get_or m i 0 ≡ f i)
Backs host f n (positioned fd) =
    (o len : ℕ)
    → 0 < len
    → o + len ≤ n
    → (k : ℕ) × (host.pread fd o len ≡ ok (span f o k)) × (0 < k) × (k ≤ len)
Backs host f n empty = n ≡ 0

module _ (host : Host) {f : ℕ → ℕ} where
  read_backing-front :
      (b : Backing) (here : Identity) (n o len : ℕ)
      → Backs host f n b
      → 0 < len
      → o + len ≤ n
      → ReadsFront (read_backing host b here o len) f o len
  unfolding Backs read_backing
  read_backing-front (mapped m) here n o len (whole, bytes) p h = (
    len,
    slice-span 0 m o len (omega arith)
        ∙ ap ok (span-ext (λ i. get_or m i 0) f o len (λ i lo hi. bytes i (omega arith))),
    omega arith,
    λ q. q,
  )
  read_backing-front (positioned fd) here n o len back p h =
      let (k, e, pos, le) = back o len p h in (k, rw e, le, λ q. pos)
  read_backing-front empty here n o len z p h = absurd (omega arith)

  raw_read_at-front :
      (r : RawSource) (o wanted : ℕ)
      → Backs host f r.size r.backing
      → o ≤ r.size
      → ReadsFront (raw_read_at host r o wanted) f o (min wanted (r.size - o))
  unfolding raw_read_at
  raw_read_at-front r o wanted back h = elim (Bool-cases (min wanted (r.size - o) == 0)) [
    | inl z ↦ (0, rw (le→ltb r.size o h, z), omega arith, λ p. ground arith)
    | inr nz ↦
        rw (le→ltb r.size o h, nz)
          (read_backing-front r.backing r.identity r.size o (min wanted (r.size - o)) back
            (ground arith) (omega arith))
  ]

  raw_source-Serves :
      (r : RawSource)
      → r.size < u64_mod
      → Backs host f r.size r.backing
      → Serves (raw_source host r) f
  unfolding raw_read_at
  raw_source-Serves r small back = record {
    small = small;
    front = λ o wanted h. raw_read_at-front r o wanted back h;
    past = λ o wanted h. rw (lt→ltb r.size o h);
  }

module _ (host : Host) (path : FilePath) {f : ℕ → ℕ} {n : ℕ} (file : Holds host path f n) where
  open_file_size :
      (p : ℕ × ℕ) → open_file host path ≡ ok p → (open_readonly host path ≡ ok p.0) × (p.1 ≡ n)
  unfolding open_file
  open_file_size p e =
      let (fd, opened, e') = >>=-eq-ok (open_readonly host path) _ e in
      let e'' = rw (file.file_len fd opened) at e' in (opened ∙ cc, cc)

  choose_backing-Backs :
      (fd : ℕ) (b : Backing) (m : Outcome IoError Bytes)
      → open_readonly host path ≡ ok fd
      → host.mmap fd ≡ m
      → choose_backing m fd ≡ ok b
      → Backs host f n b
  unfolding Backs
  choose_backing-Backs fd b (ok m) opened e c =
      let same : mapped m ≡ b = cc in
      subst (Backs host f n) same (file.whole_map fd m e, file.map_bytes fd m e)
  choose_backing-Backs fd b (err x) opened e c =
      let same : positioned fd ≡ b = cc in
      subst (Backs host f n) same (λ o len. file.pread fd o len opened)
  choose_backing-Backs fd b panic opened e c = absurd (cc)
  choose_backing-Backs fd b stuck opened e c = absurd (cc)

  built :
      (r : RawSource) (b : Backing) (size : ℕ)
      → ◌≡◌ {A = Outcome SourceError RawSource}
          (ok (record { backing = b; size = size; identity = raw_identity path }))
          (ok r)
      → size ≡ n
      → Backs host f n b
      → Serves (raw_source host r) f × (r.size ≡ n)
  built r b size e at back =
      let same : ◌≡◌ {A = RawSource}
          (record { backing = b; size = size; identity = raw_identity path }) r =
        cc in
      subst (λ q. Serves (raw_source host q) f × (q.size ≡ n)) same
        (
          raw_source-Serves host _ (omega (arith, file.small))
              (subst (λ k. Backs host f k b) (sym at) back),
          at,
        )

  -- Opened through a memory map or positioned, a raw image of a stable file of `n` bytes `f` serves
  -- exactly those bytes.
  pub raw_open-Serves :
      (r : RawSource)
      → (raw_open host path ≡ ok r) ⊎ (open_positioned host path ≡ ok r)
      → Serves (raw_source host r) f × (r.size ≡ n)
  unfolding raw_open open_positioned Backs
  raw_open-Serves r (inl e) =
      let ((fd, size), opened, e') = >>=-eq-ok (open_file host path) _ e in
      let (fd_open, at) = open_file_size (fd, size) opened in
      let first : Outcome SourceError Backing =
        if size == 0 then ok empty else choose_backing (host.mmap fd) fd in
      let (b, chosen, made) = >>=-eq-ok first _ e' in
      built r b size made at (elim (Bool-cases (size == 0)) [
        | inl z ↦
            let same : empty ≡ b = cc (rw z at chosen) in subst (Backs host f n) same (ground arith)
        | inr nz ↦ choose_backing-Backs fd b (host.mmap fd) fd_open refl (rw nz at chosen)
      ])
  raw_open-Serves r (inr e) =
      let ((fd, size), opened, e') = >>=-eq-ok (open_file host path) _ e in
      let (fd_open, at) = open_file_size (fd, size) opened in
      built r _ size e' at (elim (Bool-cases (size == 0)) [
        | inl z ↦ rw z (ground arith)
        | inr nz ↦ rw nz (λ o len. file.pread fd o len fd_open)
      ])
