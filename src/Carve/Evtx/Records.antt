-- ===== src/Carve/Evtx/Records.antt =====
-- What a candidate for a record must be, and `validate_record`.
use latent_dfir.Common.{
  ◌-◌, ◌%◌, ◌≡◌, refl, ap, ◌∙◌, arith, true, ◌&&◌, ◌↔◌, Bytes, bytes_eq, ok, slice-ok, length, take,
  drop, leb, ◌==◌, le→leb, leb→le, &&-true, Meets, ok-Meets, require-Meets, Meets-ok, bytes_eq→eq,
  ==_iff,
}
use latent_dfir.Carve.Extractor.{Rejection}
use latent_dfir.Carve.Evtx.{
  EvtxConfig, RecordFrame, record_magic, min_record_size, grows, validate_record,
}
use latent_dfir.Carve.Evtx.Next.{next_record_id-Follows, Follows-grows, following_rest}
use latent_dfir.Carve.Evtx.Spec.{
  le_at, unwrap-read_u32, unwrap-read_u64, IsAcceptable, IsAcceptable-take,
}

-- On every input `validate_record` returns or rejects, without a panic, and what it returns is
-- acceptable.
pub validate_record-Meets :
    (config : EvtxConfig) (buf : Bytes)
    → Meets (IsAcceptable config buf) (validate_record buf config)
unfolding validate_record
validate_record-Meets config buf =
    let P = IsAcceptable config buf in
    let size = le_at buf 4 4 in
    let time = le_at buf 16 8 in
    let (o, follow, follows) = next_record_id-Follows (drop size buf) in
    require-Meets P (leb min_record_size (length buf)) _ _ λ long.
      ok-Meets P _ (slice-ok buf 0 4 (omega arith) (ground arith)) (
        require-Meets P (bytes_eq (take 4 buf) record_magic) _ _ λ magic.
          ok-Meets P _ (unwrap-read_u32 buf 4 (ground arith)) (
            require-Meets P (leb min_record_size size && leb size config.max_record_size) _ _
              λ bounds. require-Meets P (size % 8 == 0) _ _ λ aligned.
                require-Meets P (leb size (length buf)) _ _ λ present.
                  let least = leb→le _ _ (&&-true _ _ bounds).0 in
                  let whole = leb→le _ _ present in
                  ok-Meets P _ (unwrap-read_u32 buf (size - 4) (omega arith)) (
                    require-Meets P (le_at buf (size - 4) 4 == size) _ _ λ tail.
                      ok-Meets P _ (unwrap-read_u64 buf 8 (omega arith)) (
                        ok-Meets P _ (unwrap-read_u64 buf 16 (omega arith)) (
                          require-Meets P
                            (leb config.min_filetime time && leb time config.max_filetime) _ _
                            λ window.
                              ok-Meets P _ (following_rest buf size o (leb→le _ _ present) follow) (
                                require-Meets P (grows (le_at buf 8 8) o) _ _ λ grown. record {
                                  well_formed = record {
                                    magic = bytes_eq→eq (take 4 buf) record_magic magic;
                                    head_size = refl;
                                    tail_size = (==_iff _ _).0 tail;
                                    record_id = refl;
                                    minimal = least;
                                    aligned = (==_iff _ _).0 aligned;
                                    present = whole;
                                  };
                                  plausible = record {
                                    bounded = leb→le _ _ (&&-true _ _ bounds).1;
                                    not_before = leb→le _ _ (&&-true _ _ window).0;
                                    not_after = leb→le _ _ (&&-true _ _ window).1;
                                  };
                                  uncontradicted =
                                      (Follows-grows buf size (le_at buf 8 8) o follows).0 grown;
                                }))))))

validate_record_complete :
    (config : EvtxConfig) (buf : Bytes) (frame : RecordFrame)
    → IsAcceptable config buf frame
    → validate_record buf config ≡ ok frame
unfolding validate_record
validate_record_complete config buf frame a =
    let w = a.well_formed in
    let p = a.plausible in
    let (o, follow, follows) = next_record_id-Follows (drop frame.size buf) in
    let bounds : (leb min_record_size frame.size && leb frame.size config.max_record_size) ≡ true =
      ground (arith, w.minimal, p.bounded) in
    let window : (leb config.min_filetime (le_at buf 16 8)
          && leb (le_at buf 16 8) config.max_filetime)
        ≡ true =
      ground (arith, p.not_before, p.not_after) in
    rw (
      le→leb min_record_size (length buf) (omega (arith, w.minimal, w.present)),
      slice-ok {E = Rejection} buf 0 4 (omega arith) (omega (arith, w.minimal, w.present)),
      ap (λ m. bytes_eq m record_magic) w.magic,
      unwrap-read_u32 {E = Rejection} buf 4 (omega (arith, w.minimal, w.present))
          ∙ ap ok w.head_size,
      bounds,
      (==_iff (frame.size % 8) 0).1 w.aligned,
      following_rest buf frame.size o w.present follow,
      le→leb frame.size (length buf) w.present,
      unwrap-read_u32 {E = Rejection} buf (frame.size - 4) (omega (arith, w.minimal, w.present))
          ∙ ap ok w.tail_size,
      (==_iff frame.size frame.size).1 refl,
      unwrap-read_u64 {E = Rejection} buf 8 (omega (arith, w.minimal, w.present))
          ∙ ap ok w.record_id,
      unwrap-read_u64 {E = Rejection} buf 16 (omega (arith, w.minimal, w.present)),
      window,
      (Follows-grows buf frame.size frame.record_id o follows).1 a.uncontradicted,
    )

-- `validate_record` accepts a record exactly if it is well formed, lies within the limits of the
-- configuration, and is not contradicted by a well-formed record behind it.
pub validate_record_iff :
    (config : EvtxConfig) (buf : Bytes) (frame : RecordFrame)
    → (validate_record buf config ≡ ok frame) ↔ IsAcceptable config buf frame
validate_record_iff config buf frame = (
  Meets-ok (IsAcceptable config buf) (validate_record-Meets config buf),
  validate_record_complete config buf frame,
)

-- The bytes cut out for an accepted record are accepted by themselves, as the same record.
pub validate_record-take :
    (config : EvtxConfig) (buf : Bytes) (frame : RecordFrame)
    → validate_record buf config ≡ ok frame
    → validate_record (take frame.size buf) config ≡ ok frame
validate_record-take config buf frame e =
    validate_record_complete config (take frame.size buf) frame
      (IsAcceptable-take config buf frame ((validate_record_iff config buf frame).0 e))
