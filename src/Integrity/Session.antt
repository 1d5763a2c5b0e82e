-- ===== src/Integrity/Session.antt =====
-- What a verified session promises about the bytes of its source.
use latent_dfir.Common.{
  ℕ, ◌+◌, ◌-◌, ◌≤◌, ◌≡◌, refl, sym, ap, ◌∙◌, subst, arith, true, min, Bool-cases, none, some, ◌↔◌,
  inl, inr, List, [], ◌∷◌, ◌++◌, Bytes, bytes_eq, bytes_eq→eq, bytes_eq_refl, ok, err, length,
  add64, add64-exact, span, span-add, length-span,
}
use native.Mathlib.Decide.{dec_lt}
use latent_dfir.Source.{Source}
use latent_dfir.Source.Reads.{Serves}
use latent_dfir.Core.Hash.{Digest, Delivers, sha256, sha256_reader-Delivers}
use latent_dfir.Integrity.{
  AuditEvent, source_hash, source_close, at_open, at_close, expected_mismatch, source_changed,
  VerifiedSource, source_reader, hash_source, expect_hash, wrap, finish,
}
use latent_dfir.Text.{trim, to_ascii_lowercase}

-- The reader is at a position inside the source, and the bytes from there on are to come.
AtPosition : Source → (ℕ → ℕ) → ℕ → Bytes → Type 0
AtPosition src f pos rest = (pos ≤ src.size) × (rest ≡ span f pos (src.size - pos))

source_reader-Delivers :
    (src : Source) (f : ℕ → ℕ) → Serves src f → Delivers (source_reader src) (AtPosition src f)
unfolding AtPosition
source_reader-Delivers src f serves pos rest (inside, bytes) =
    let (n, e, le, some_read) = serves.front pos 65536 inside in
    let moved : add64 pos (length (span f pos n)) ≡ pos + n =
      ap (add64 pos) (length-span f pos n) ∙ add64-exact pos n (omega (arith, serves.small)) in
    (
      span f pos n,
      pos + n,
      span f (pos + n) (src.size - (pos + n)),
      rw e (ap (λ p. ok (span f pos n, p)) moved),
      bytes
          ∙ ap (span f pos) {y = n + (src.size - (pos + n))} (omega arith)
          ∙ span-add f pos n (src.size - (pos + n)),
      (omega arith, refl),
      λ z.
          bytes
          ∙ ap (span f pos) {y = 0} (elim (dec_lt 0 (min 65536 (src.size - pos))) [
            | yes p ↦ omega (arith, length-span f pos n, some_read p)
            | no p ↦ omega arith
          ]),
    )

-- Hashing a source that serves `f` gives the digest of all its bytes in order, however its reads
-- cut them.
pub hash_source-Serves :
    (d : Digest) (src : Source) (f : ℕ → ℕ)
    → Serves src f
    → hash_source d src ≡ ok (sha256 d (span f 0 src.size))
unfolding hash_source AtPosition
hash_source-Serves d src f serves = rw (
    sha256_reader-Delivers d (source_reader src) (AtPosition src f) (src.size + 1) 0
      (span f 0 src.size) (source_reader-Delivers src f serves)
      (omega arith, ap (span f 0) (omega arith)) (omega (arith, length-span f 0 src.size)))

-- A source that serves `f` is opened with the digest of its contents, which is written to the audit
-- trail first; opening succeeds if no hash is expected, or if the expected one, trimmed and in
-- lower case, is that digest, and fails with both hashes otherwise.
pub wrap-Serves :
    (d : Digest) (log : List AuditEvent) (src : Source) (f : ℕ → ℕ) (expected : List ℕ)
    → Serves src f
    → let hash = sha256 d (span f 0 src.size) in
      let want = to_ascii_lowercase (trim expected) in
      ((wrap d log src (some expected)).0 ≡ log ++ (source_hash at_open "sha256" hash ∷ []))
      × (want ≡ hash
          → (wrap d log src (some expected)).1 ≡ ok (record { source = src; open_hash = hash }))
      × (¬ (want ≡ hash) → (wrap d log src (some expected)).1 ≡ err (expected_mismatch want hash))
      × (wrap d log src none ≡ (
        log ++ (source_hash at_open "sha256" hash ∷ []),
        ok (record { source = src; open_hash = hash }),
      ))
unfolding wrap expect_hash
wrap-Serves d log src f expected serves =
    let hash = sha256 d (span f 0 src.size) in
    let want = to_ascii_lowercase (trim expected) in
    rw (hash_source-Serves d src f serves) (
      refl,
      λ e. rw (ap (λ h. bytes_eq want h) (sym e) ∙ bytes_eq_refl want),
      λ ne. elim (Bool-cases (bytes_eq want hash)) [
        | inl t ↦ absurd (ne (bytes_eq→eq want hash t))
        | inr t ↦ rw t
      ],
      refl,
    )

-- At the end, when the source serves `g`, the digest of what it then holds is compared with the
-- digest of what it held when it was opened. The session ends well exactly if the two digests are
-- equal, so it does whenever the bytes have not changed, and a change of the digest is reported
-- with both hashes. The closing hash and the close are on the audit trail either way.
pub finish-Serves :
    (d : Digest) (log : List AuditEvent) (src now : Source) (f g : ℕ → ℕ)
    → Serves now g
    → let before = sha256 d (span f 0 src.size) in
      let after = sha256 d (span g 0 now.size) in
      let v : VerifiedSource = record { source = src; open_hash = before } in
      ((finish d log now v).0
        ≡ log ++ (source_hash at_close "sha256" after ∷ source_close (src.identity.path) ∷ []))
      × (((finish d log now v).1 ≡ ok after) ↔ (after ≡ before))
      × (¬ (after ≡ before) → (finish d log now v).1 ≡ err (source_changed before after))
unfolding finish
finish-Serves d log src now f g serves =
    let before = sha256 d (span f 0 src.size) in
    let after = sha256 d (span g 0 now.size) in
    rw (hash_source-Serves d now g serves) (
      refl,
      elim (Bool-cases (bytes_eq after before)) [
        | inl t ↦ rw t ((λ h. bytes_eq→eq after before t), λ e. refl)
        | inr t ↦
            let different : ¬ (after ≡ before) = λ e.
              let same : bytes_eq after before ≡ true =
                subst (λ h. bytes_eq after h ≡ true) e (bytes_eq_refl after) in
              absurd (cc) in
            rw t ((λ h. absurd (cc)), λ e. absurd (different e))
      ],
      λ ne. elim (Bool-cases (bytes_eq after before)) [
        | inl t ↦ absurd (ne (bytes_eq→eq after before t))
        | inr t ↦ rw t
      ],
    )
