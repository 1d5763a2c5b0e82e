-- ===== src/Audit/Lines.antt =====
-- latent-core/src/audit.rs: the line of an event. Its fields are collected in a `BTreeMap`, which
-- is kept in the order of the names, and written as a JSON object. The text of that (serde_json),
-- the time and the text of a path are parameters.
use Prim.Native.Nat.{Ordering}
use Prim.Native.String.{compare as compare_texts}
use latent_dfir.Common.{
  ℕ, ◌^◌, ◌/◌, ◌%◌, Bool, true, Option, none, some, List, [], ◌∷◌, String, Bytes, ◌==◌,
  if◌then◌else◌,
}
use latent_dfir.Source.{FilePath}
use latent_dfir.Text.{chars}
use latent_dfir.Integrity.{
  HashPhase, at_open, at_close, AuditEvent, source_open, source_hash, source_close,
}
use latent_dfir.Core.Json.{
  Json, Fields, null, boolean, pos_int, fraction, string, object, no_fields, field, put_i64,
}
use latent_dfir.Audit.{Event}

abbrev pub Value : Type 0
Value = Json (List ℕ)

-- `BTreeMap::insert`, which takes the place of a value under the same name.
unfoldable pub insert_at :
    Ordering → String → Value → String → Value → Fields (List ℕ) → Fields (List ℕ) → Fields (List ℕ)
insert_at Ordering.lt name v other w rest later = field name v (field other w rest)
insert_at Ordering.eq name v other w rest later = field name v rest
insert_at Ordering.gt name v other w rest later = field other w later

unfoldable pub insert : String → Value → Fields (List ℕ) → Fields (List ℕ)
unfolding insert_at
insert name v no_fields = field name v no_fields
insert name v (field other w rest) =
    insert_at (compare_texts name other) name v other w rest (insert name v rest)

-- What tracing gives of a field's value. A double is its bits; a value of another type is its
-- `Debug` text.
pub data Recorded : Type 0 where
  of_str of_debug : List ℕ → Recorded
  of_u64 of_i64 of_f64 : ℕ → Recorded
  of_bool : Bool → Recorded

-- `impl Visit for FieldVisitor`, before the insertion. A double that is not finite is null.
unfoldable pub value_of : Recorded → Value
value_of (of_str t) = string t
value_of (of_debug t) = string t
value_of (of_u64 n) = pos_int n
value_of (of_i64 n) = put_i64 n
value_of (of_f64 n) = if (n / 2 ^ 52 % 2 ^ 11) == 2047 then null else fraction n
value_of (of_bool b) = boolean b

unfoldable pub visit : List (String × Recorded) → Fields (List ℕ) → Fields (List ℕ)
unfolding insert value_of
visit [] fields = fields
visit ((name, r) ∷ more) fields = visit more (insert name (value_of r) fields)

-- `line`, before it is made a text. `none` is a time that cannot be formatted.
unfoldable pub stamped : Option (List ℕ) → Fields (List ℕ) → Fields (List ℕ)
unfolding insert
stamped none fields = fields
stamped (some ts) fields = insert "ts" (string ts) fields

unfoldable pub text_or_braces : Option Bytes → Bytes
text_or_braces none = b'{' ∷ b'}' ∷ []
text_or_braces (some text) = text

-- `HashPhase::as_str`
unfoldable pub as_str : HashPhase → List ℕ
as_str at_open = chars "open"
as_str at_close = chars "close"

-- `serde_json::to_string`, and `Path::display`.
pub record Texts : Type 0 where
  pub to_string : Value → Option Bytes
  pub display : FilePath → List ℕ

-- What the four functions `source_open`, `source_hash`, `source_close` and `phase` emit.
pub data Emitted : Type 0 where
  of_session : AuditEvent → Emitted
  of_phase : (name : List ℕ) → Emitted

module _ (texts : Texts) where
  unfoldable pub line_text : Option (List ℕ) → Fields (List ℕ) → Bytes
  unfolding stamped text_or_braces
  line_text now fields = text_or_braces (texts.to_string (object (stamped now fields)))

  -- The fields of each event.
  unfoldable pub event_fields : AuditEvent → List (String × Recorded)
  unfolding as_str
  event_fields (source_open path size) =
      ("kind", of_str (chars "source_open"))
      ∷ ("path", of_str (texts.display path))
      ∷ ("size", of_u64 size)
      ∷ []
  event_fields (source_hash phase algorithm digest) =
      ("kind", of_str (chars "source_hash"))
      ∷ ("phase", of_str (as_str phase))
      ∷ ("algorithm", of_str (chars algorithm))
      ∷ ("digest", of_str digest)
      ∷ []
  event_fields (source_close path) =
      ("kind", of_str (chars "source_close")) ∷ ("path", of_str (texts.display path)) ∷ []

  unfoldable pub emitted_fields : Emitted → List (String × Recorded)
  unfolding event_fields
  emitted_fields (of_session e) = event_fields e
  emitted_fields (of_phase name) = ("kind", of_str (chars "phase")) ∷ ("name", of_str name) ∷ []

  -- The text that `AuditLayer::on_event` writes for recorded fields.
  unfoldable pub event_text : Option (List ℕ) → List (String × Recorded) → Bytes
  unfolding visit line_text
  event_text now fields = line_text now (visit fields no_fields)

  -- An event with the target of the audit log, at the level INFO.
  unfoldable pub audit_event : Option (List ℕ) × Emitted → Event
  unfolding event_text emitted_fields
  audit_event (now, e) = record {
    is_audit = true;
    severity = 3;
    text = event_text now (emitted_fields e);
  }

  -- The first line of a log, and the last.
  unfoldable pub start_fields : (version command : List ℕ) → List (String × Recorded)
  start_fields version command =
      ("kind", of_str (chars "run_start"))
      ∷ ("version", of_str version)
      ∷ ("command", of_str command)
      ∷ []

  unfoldable pub run_start : Option (List ℕ) → (version command : List ℕ) → Bytes
  unfolding event_text start_fields
  run_start now version command = event_text now (start_fields version command)

  unfoldable pub end_fields : List (String × Recorded)
  end_fields = ("kind", of_str (chars "run_end")) ∷ []

  unfoldable pub run_end : Option (List ℕ) → Bytes
  unfolding event_text end_fields
  run_end now = event_text now end_fields
