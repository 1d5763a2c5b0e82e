-- ===== src/Audit/Entries.antt =====
-- A reader of the lines of an audit log, and that it reads back what was written, with its time.
use latent_dfir.Common.{
  String, ℕ, ◌≡◌, refl, sym, subst, false, Option, none, some, List, All, Bytes, bytes_eq, ◌==◌,
  if◌then◌else◌,
}
use latent_dfir.Text.{chars}
use latent_dfir.Integrity.{HashPhase, at_open, at_close, source_open, source_hash, source_close}
use latent_dfir.Core.Json.{
  ◌>>=◌, Fields, pos_int, object, no_fields, find, required, optional, read_string,
}
use latent_dfir.Audit.Lines.{
  Value, Recorded, visit, stamped, text_or_braces, Texts, line_text, emitted_fields, Emitted,
  of_session, of_phase, event_text, audit_event, start_fields, run_start, end_fields, run_end,
}

-- What a line says, besides its time.
pub data Entry : Type 0 where
  run_started : (version command : List ℕ) → Entry
  run_ended : Entry
  opened : (path : List ℕ) (size : ℕ) → Entry
  hashed : (phase : HashPhase) (algorithm digest : List ℕ) → Entry
  closed : (path : List ℕ) → Entry
  entered : (phase : List ℕ) → Entry

abbrev pub shown : Texts → Emitted → Entry
shown texts (of_session (source_open path size)) = opened (texts.display path) size
shown texts (of_session (source_hash phase algorithm digest)) =
    hashed phase (chars algorithm) digest
shown texts (of_session (source_close path)) = closed (texts.display path)
shown texts (of_phase name) = entered name

-- A reader of lines: the member `kind` says which other members there are.
abbrev member : String → Fields (List ℕ) → Option (List ℕ)
member name fs = required read_string (find name fs)

unfoldable read_size : Value → Option ℕ
read_size (pos_int n) = some n
read_size _ = none

unfoldable read_phase : List ℕ → Option HashPhase
read_phase t =
    if bytes_eq t (chars "open")
    then some at_open
    else if bytes_eq t (chars "close")
    then some at_close
    else none

unfoldable read_opened : Fields (List ℕ) → Option Entry
unfolding required read_size
read_opened fs = do
  path ← member "path" fs
  size ← required read_size (find "size" fs)
  some (opened path size)

unfoldable read_hashed : Fields (List ℕ) → Option Entry
unfolding read_phase
read_hashed fs = do
  phase ← member "phase" fs >>= read_phase
  algorithm ← member "algorithm" fs
  digest ← member "digest" fs
  some (hashed phase algorithm digest)

unfoldable read_started : Fields (List ℕ) → Option Entry
read_started fs = do
  version ← member "version" fs
  command ← member "command" fs
  some (run_started version command)

unfoldable read_kind : Fields (List ℕ) → List ℕ → Option Entry
unfolding read_opened read_hashed read_started
read_kind fs kind =
    if bytes_eq kind (chars "run_start")
    then read_started fs
    else if bytes_eq kind (chars "run_end")
    then some run_ended
    else if bytes_eq kind (chars "source_open")
    then read_opened fs
    else if bytes_eq kind (chars "source_hash")
    then read_hashed fs
    else if bytes_eq kind (chars "source_close")
    then (do path ← member "path" fs; some (closed path))
    else if bytes_eq kind (chars "phase")
    then (do name ← member "name" fs; some (entered name))
    else none

-- The time, which is left out where it cannot be formatted, with what the line says.
unfoldable pub read_line : Value → Option (Option (List ℕ) × Entry)
unfolding read_kind
read_line (object fs) = do
  now ← optional read_string (find "ts" fs)
  entry ← member "kind" fs >>= read_kind fs
  some (now, entry)
read_line _ = none

-- What is written for some fields.
abbrev pub written : Option (List ℕ) → List (String × Recorded) → Value
written now fields = object (stamped now (visit fields no_fields))

read_line-emitted_fields :
    (texts : Texts) (now : Option (List ℕ)) (e : Emitted)
    → read_line (written now (emitted_fields texts e)) ≡ some (now, shown texts e)
unfolding read_line stamped visit emitted_fields find optional read_string
read_line-emitted_fields texts none (of_session (source_open path size)) = refl
read_line-emitted_fields texts (some t) (of_session (source_open path size)) = refl
read_line-emitted_fields texts none (of_session (source_hash at_open algorithm digest)) = refl
read_line-emitted_fields texts none (of_session (source_hash at_close algorithm digest)) = refl
read_line-emitted_fields texts (some t) (of_session (source_hash at_open algorithm digest)) = refl
read_line-emitted_fields texts (some t) (of_session (source_hash at_close algorithm digest)) = refl
read_line-emitted_fields texts none (of_session (source_close path)) = refl
read_line-emitted_fields texts (some t) (of_session (source_close path)) = refl
read_line-emitted_fields texts none (of_phase name) = refl
read_line-emitted_fields texts (some t) (of_phase name) = refl

read_line-start_fields :
    (texts : Texts) (now : Option (List ℕ)) (version command : List ℕ)
    → read_line (written now (start_fields texts version command))
      ≡ some (now, run_started version command)
unfolding read_line stamped visit start_fields find optional read_string
read_line-start_fields texts none version command = refl
read_line-start_fields texts (some t) version command = refl

read_line-end_fields :
    (texts : Texts) (now : Option (List ℕ))
    → read_line (written now (end_fields texts)) ≡ some (now, run_ended)
unfolding read_line stamped visit end_fields find optional read_string
read_line-end_fields texts none = refl
read_line-end_fields texts (some t) = refl

-- What serde_json promises: a map with texts as its keys is written, on one line, and read back as
-- it was.
pub record IsJson (texts : Texts) : Type 0 where
  pub from_str : Bytes → Option Value
  pub text : Value → Bytes
  pub writes : (v : Value) → texts.to_string v ≡ some (text v)
  pub reads : (v : Value) → from_str (text v) ≡ some v
  pub one_line : (v : Value) → All (λ b. (b == 10) ≡ false) (text v)

module _ (texts : Texts) (json : IsJson texts) where
  -- The line is without a line feed, and says this.
  pub record Tells (entry : Option (List ℕ) × Entry) (line : Bytes) : Type 0 where
    pub alone : All (λ b. (b == 10) ≡ false) line
    pub says : (json.from_str line >>= read_line) ≡ some entry

  event_text-Tells :
      (now : Option (List ℕ)) (fields : List (String × Recorded)) (entry : Entry)
      → read_line (written now fields) ≡ some (now, entry)
      → Tells (now, entry) (event_text texts now fields)
  unfolding event_text line_text text_or_braces
  event_text-Tells now fields entry h =
      let e : event_text texts now fields ≡ json.text (written now fields) =
        rw (json.writes (written now fields)) in
      record {
        alone = subst (λ line. All (λ b. (b == 10) ≡ false) line) (sym e) (json.one_line _);
        says = rw (e, json.reads (written now fields)) h;
      }

  pub audit_event-Tells :
      (now : Option (List ℕ)) (e : Emitted)
      → Tells (now, shown texts e) (audit_event texts (now, e)).text
  unfolding audit_event
  audit_event-Tells now e =
      event_text-Tells now (emitted_fields texts e) _ (read_line-emitted_fields texts now e)

  pub run_start-Tells :
      (now : Option (List ℕ)) (version command : List ℕ)
      → Tells (now, run_started version command) (run_start texts now version command)
  unfolding run_start
  run_start-Tells now version command =
      event_text-Tells now (start_fields texts version command) _
        (read_line-start_fields texts now version command)

  pub run_end-Tells : (now : Option (List ℕ)) → Tells (now, run_ended) (run_end texts now)
  unfolding run_end
  run_end-Tells now = event_text-Tells now (end_fields texts) _ (read_line-end_fields texts now)
