-- ===== src/Source/Raw/ReadOnly.antt =====
-- latent-source/src/readonly.rs and raw.rs: how the file of a raw image was opened.
use latent_dfir.Common.{
  ℕ, ◌≡◌, ◌⊎◌, Option-cases, some, refl, ◌∙◌, ap, Bool-cases, inl, inr, true, Outcome, ok, err,
  panic, stuck, >>=-eq-ok, bit_and, ◌==◌, ==_iff, map_err, map_err-eq-ok, Bytes, Bool, false, subst,
  if◌then◌else◌,
}
use latent_dfir.Source.{SourceError, IoError, FilePath, io}
use latent_dfir.Source.Raw.{
  Host, System, unix, windows, Backing, mapped, positioned, empty, RawSource, Unix, write_flags,
  or_else, open_attempts, open_on, open_readonly, open_file, choose_backing, raw_open, raw_identity,
}

-- The system opened the file for this descriptor, on Linux perhaps without a change of the access
-- time.
abbrev pub Opens : Unix → FilePath → ℕ → Type 0
Opens u path fd =
    ((open_noatime : FilePath → Outcome IoError ℕ) × (u.open_noatime ≡ some open_noatime)
      × (open_noatime path ≡ ok fd))
    ⊎ (u.open_plain path ≡ ok fd)

-- The descriptor is of the file, and the system does not let it write: on Unix its flags have
-- neither WRONLY (1) nor RDWR (2), on Windows only reading was asked for, and others may do with
-- the file what they like.
abbrev pub IsReadOnly : System → FilePath → ℕ → Type 0
IsReadOnly (unix u) path fd =
    Opens u path fd × (flags : ℕ) × (u.getfl fd ≡ ok flags) × (bit_and flags 3 ≡ 0)
IsReadOnly (windows w) path fd = w.open_options true 0x8000_0000 7 path ≡ ok fd

-- The bytes that are read come from the descriptor.
abbrev pub ComesFrom : Host → ℕ → Backing → Type 0
ComesFrom host fd (mapped m) = host.mmap fd ≡ ok m
ComesFrom host fd (positioned fd') = fd' ≡ fd
ComesFrom host fd empty = host.file_len fd ≡ ok 0

or_else-either :
    {A : Type 0} (a b : Outcome IoError A) (x : A) → or_else a b ≡ ok x → (a ≡ ok x) ⊎ (b ≡ ok x)
or_else-either (ok y) b x h = inl h
or_else-either (err e) b x h = inr h
or_else-either panic b x h = absurd (cc)
or_else-either stuck b x h = absurd (cc)

open_attempts-Opens :
    (u : Unix) (path : FilePath) (fd : ℕ) → open_attempts u path ≡ ok fd → Opens u path fd
unfolding open_attempts
open_attempts-Opens u path fd h = elim (Option-cases u.open_noatime) [
  | inl e ↦ inr (rw e at h)
  | inr (open_noatime, e) ↦
      elim (or_else-either (open_noatime path) (u.open_plain path) fd (rw e at h)) [
        | inl first ↦ inl (open_noatime, e, first)
        | inr second ↦ inr second
      ]
]

checked :
    {A : Type 0} (b : Bool) (x y : A) (e : SourceError)
    → (if b then ok x else err e) ≡ ok y
    → (b ≡ true) × (x ≡ y)
checked true x y e h = (refl, cc)
checked false x y e h = absurd (cc)

open_on-IsReadOnly :
    (s : System) (path : FilePath) (fd : ℕ) → open_on s path ≡ ok fd → IsReadOnly s path fd
unfolding open_on
open_on-IsReadOnly (unix u) path fd h =
    let (fd', opened, h₁) = >>=-eq-ok (map_err (io path) (open_attempts u path)) _ h in
    let (flags, got, h₂) = >>=-eq-ok (map_err (io path) (u.getfl fd')) _ h₁ in
    let (clear, same) = checked (bit_and flags write_flags == 0) fd' fd _ h₂ in
    subst (IsReadOnly (unix u) path) same (
      open_attempts-Opens u path fd' (map_err-eq-ok (io path) (open_attempts u path) opened),
      flags,
      map_err-eq-ok (io path) (u.getfl fd') got,
      (==_iff _ _).0 clear,
    )
open_on-IsReadOnly (windows w) path fd h = map_err-eq-ok (io path) _ h

choose_backing-ComesFrom :
    (host : Host) (m : Outcome IoError Bytes) (fd : ℕ) (b : Backing)
    → host.mmap fd ≡ m
    → choose_backing m fd ≡ ok b
    → ComesFrom host fd b
choose_backing-ComesFrom host (ok m) fd b e h =
    let same : mapped m ≡ b = cc in subst (ComesFrom host fd) same e
choose_backing-ComesFrom host (err x) fd b e h =
    let same : positioned fd ≡ b = cc in subst (ComesFrom host fd) same refl
choose_backing-ComesFrom host panic fd b e h = absurd (cc)
choose_backing-ComesFrom host stuck fd b e h = absurd (cc)

backing-ComesFrom :
    (host : Host) (fd size : ℕ) (b : Backing)
    → host.file_len fd ≡ ok size
    → (if size == 0 then ok empty else choose_backing (host.mmap fd) fd) ≡ ok b
    → ComesFrom host fd b
backing-ComesFrom host fd size b long h = elim (Bool-cases (size == 0)) [
  | inl t ↦
      let same : Path (Outcome SourceError Backing) (ok empty) (ok b) = rw t at h in
      let none_there : empty ≡ b = cc in
      subst (ComesFrom host fd) none_there (long ∙ ap ok ((==_iff size 0).0 t))
  | inr t ↦ choose_backing-ComesFrom host (host.mmap fd) fd b refl (rw t at h)
]

opened_file :
    (host : Host) (path : FilePath) (p : ℕ × ℕ)
    → open_file host path ≡ ok p
    → (open_readonly host path ≡ ok p.0) × (host.file_len p.0 ≡ ok p.1)
unfolding open_file
opened_file host path p h =
    let (fd, here, h₁) = >>=-eq-ok (open_readonly host path) _ h in
    let (size, long, h₂) = >>=-eq-ok (map_err (io path) (host.file_len fd)) _ h₁ in
    let same : (fd, size) ≡ p = cc in
    subst (λ (p : ℕ × ℕ). (open_readonly host path ≡ ok p.0) × (host.file_len p.0 ≡ ok p.1)) same
      (here, map_err-eq-ok (io path) (host.file_len fd) long)

-- Whatever the system does: a raw image that was opened reads from a descriptor of the file at the
-- path that the system does not let write, through a map of it or by itself; on Unix the flags that
-- the system reports for it have no bit for writing, on Windows it was opened for reading alone.
pub raw_open-IsReadOnly :
    (host : Host) (path : FilePath) (r : RawSource)
    → raw_open host path ≡ ok r
    → (fd : ℕ) × IsReadOnly host.system path fd
      × (host.file_len fd ≡ ok r.size)
      × ComesFrom host fd r.backing
unfolding raw_open open_readonly
raw_open-IsReadOnly host path r h =
    let ((fd, size), file, h₁) = >>=-eq-ok (open_file host path) _ h in
    let (here, long) = opened_file host path (fd, size) file in
    let (b, chosen, h₂) =
      >>=-eq-ok (if size == 0 then ok empty else choose_backing (host.mmap fd) fd) _ h₁ in
    let made : RawSource = record { backing = b; size = size; identity = raw_identity path } in
    let same : made ≡ r = cc in
    subst
      (λ (r : RawSource).
        (fd : ℕ) × IsReadOnly host.system path fd
        × (host.file_len fd ≡ ok r.size)
        × ComesFrom host fd r.backing)
      same
      (
        fd,
        open_on-IsReadOnly host.system path fd here,
        long,
        backing-ComesFrom host fd size b long chosen,
      )
