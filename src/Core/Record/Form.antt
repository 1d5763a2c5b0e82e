-- ===== src/Core/Record/Form.antt =====
-- latent-core/src/record.rs and confidence.rs: the JSON form of a record, by the `Serialize` and
-- `Deserialize` that are derived from the fields and their attributes, and by the two that
-- `Timestamp` writes itself. Dates and their RFC 3339 form (the time crate) are a parameter.
use mathlib.Core.Option
use latent_dfir.Common.{ℕ, Option, none, some, List, [], ◌∷◌, String, if◌then◌else◌}
use latent_dfir.Core.Json.{
  Json, Fields, null, boolean, pos_int, string, object, no_fields, field, same_text, ◌>>=◌, find,
  required, optional, read_string, read_bool, read_unsigned, put_i64, read_i64, Column,
}
use latent_dfir.Core.Record.{
  Confidence, l0_intact, l1_local_template, l2_external_corpus, l3_structural, l4_raw, Method,
  local_template, same_source, external_corpus, structural_inference, raw_only, Event, HostField,
  User, Process, NetworkSource, Provenance,
}

abbrev pub Value : Type 0
Value = Json String

-- A unit variant is its name, and is also read from an object with that name and null.
unfoldable pub read_variant : Value → Option String
read_variant (string s) = some s
read_variant (object (field s null no_fields)) = some s
read_variant _ = none

unfoldable pub put_confidence : Confidence → Value
put_confidence l0_intact = string "L0Intact"
put_confidence l1_local_template = string "L1LocalTemplate"
put_confidence l2_external_corpus = string "L2ExternalCorpus"
put_confidence l3_structural = string "L3Structural"
put_confidence l4_raw = string "L4Raw"

unfoldable pub confidence_of : String → Option Confidence
confidence_of s =
    if same_text s "L0Intact"
    then some l0_intact
    else if same_text s "L1LocalTemplate"
    then some l1_local_template
    else if same_text s "L2ExternalCorpus"
    then some l2_external_corpus
    else if same_text s "L3Structural"
    then some l3_structural
    else if same_text s "L4Raw"
    then some l4_raw
    else none

unfoldable pub read_confidence : Value → Option Confidence
unfolding read_variant confidence_of
read_confidence v = read_variant v >>= confidence_of

unfoldable pub put_method : Method → Value
put_method local_template = string "LocalTemplate"
put_method same_source = string "SameSource"
put_method external_corpus = string "ExternalCorpus"
put_method structural_inference = string "StructuralInference"
put_method raw_only = string "RawOnly"

unfoldable pub method_of : String → Option Method
method_of s =
    if same_text s "LocalTemplate"
    then some local_template
    else if same_text s "SameSource"
    then some same_source
    else if same_text s "ExternalCorpus"
    then some external_corpus
    else if same_text s "StructuralInference"
    then some structural_inference
    else if same_text s "RawOnly"
    then some raw_only
    else none

unfoldable pub read_method : Value → Option Method
unfolding read_variant method_of
read_method v = read_variant v >>= method_of

abbrev pub put_string : Option String → Option Value
put_string = Option.map string

abbrev pub put_unsigned : Option ℕ → Option Value
put_unsigned = Option.map pos_int

abbrev pub event_columns : List (Column String Event)
event_columns =
    record { name = "code"; put = λ e. put_string e.code }
    ∷ record { name = "provider"; put = λ e. put_string e.provider }
    ∷ record { name = "action"; put = λ e. put_string e.action }
    ∷ record { name = "category"; put = λ e. put_string e.category }
    ∷ record { name = "outcome"; put = λ e. put_string e.outcome }
    ∷ []

unfoldable pub read_event : Fields String → Option Event
read_event fs = do
  code ← optional read_string (find "code" fs)
  provider ← optional read_string (find "provider" fs)
  action ← optional read_string (find "action" fs)
  category ← optional read_string (find "category" fs)
  outcome ← optional read_string (find "outcome" fs)
  some (record {
    code = code;
    provider = provider;
    action = action;
    category = category;
    outcome = outcome;
  })

abbrev pub host_columns : List (Column String HostField)
host_columns =
    record { name = "name"; put = λ h. put_string h.name }
    ∷ record { name = "id"; put = λ h. put_string h.id }
    ∷ []

unfoldable pub read_host : Fields String → Option HostField
read_host fs = do
  name ← optional read_string (find "name" fs)
  id ← optional read_string (find "id" fs)
  some (record { name = name; id = id })

abbrev pub user_columns : List (Column String User)
user_columns =
    record { name = "name"; put = λ u. put_string u.name }
    ∷ record { name = "id"; put = λ u. put_string u.id }
    ∷ record { name = "domain"; put = λ u. put_string u.domain }
    ∷ []

unfoldable pub read_user : Fields String → Option User
read_user fs = do
  name ← optional read_string (find "name" fs)
  id ← optional read_string (find "id" fs)
  domain ← optional read_string (find "domain" fs)
  some (record { name = name; id = id; domain = domain })

abbrev pub process_columns : List (Column String Process)
process_columns =
    record { name = "pid"; put = λ p. Option.map put_i64 p.pid }
    ∷ record { name = "name"; put = λ p. put_string p.name }
    ∷ record { name = "executable"; put = λ p. put_string p.executable }
    ∷ []

unfoldable pub read_process : Fields String → Option Process
read_process fs = do
  pid ← optional read_i64 (find "pid" fs)
  name ← optional read_string (find "name" fs)
  executable ← optional read_string (find "executable" fs)
  some (record { pid = pid; name = name; executable = executable })

abbrev pub source_columns : List (Column String NetworkSource)
source_columns =
    record { name = "ip"; put = λ s. put_string s.ip }
    ∷ record { name = "port"; put = λ s. put_unsigned s.port }
    ∷ record { name = "user"; put = λ s. put_string s.user }
    ∷ []

unfoldable pub read_source : Fields String → Option NetworkSource
read_source fs = do
  ip ← optional read_string (find "ip" fs)
  port ← optional (read_unsigned 16) (find "port" fs)
  user ← optional read_string (find "user" fs)
  some (record { ip = ip; port = port; user = user })

abbrev pub provenance_columns : List (Column String Provenance)
provenance_columns =
    record { name = "confidence"; put = λ p. some (put_confidence p.confidence) }
    ∷ record { name = "method"; put = λ p. some (put_method p.method) }
    ∷ record { name = "source_offset"; put = λ p. some (pos_int p.source_offset) }
    ∷ record { name = "source_hash"; put = λ p. put_string p.source_hash }
    ∷ record { name = "template_id"; put = λ p. put_string p.template_id }
    ∷ record { name = "raw_sha256"; put = λ p. put_string p.raw_sha256 }
    ∷ record { name = "record_id"; put = λ p. put_unsigned p.record_id }
    ∷ record { name = "channel"; put = λ p. put_string p.channel }
    ∷ record { name = "reconstructed"; put = λ p. some (boolean p.reconstructed) }
    ∷ []

unfoldable pub read_provenance : Fields String → Option Provenance
read_provenance fs = do
  confidence ← required read_confidence (find "confidence" fs)
  method ← required read_method (find "method" fs)
  source_offset ← required (read_unsigned 64) (find "source_offset" fs)
  source_hash ← optional read_string (find "source_hash" fs)
  template_id ← optional read_string (find "template_id" fs)
  raw_sha256 ← optional read_string (find "raw_sha256" fs)
  record_id ← optional (read_unsigned 64) (find "record_id" fs)
  channel ← optional read_string (find "channel" fs)
  reconstructed ← required read_bool (find "reconstructed" fs)
  some (record {
    confidence = confidence;
    method = method;
    source_offset = source_offset;
    source_hash = source_hash;
    template_id = template_id;
    raw_sha256 = raw_sha256;
    record_id = record_id;
    channel = channel;
    reconstructed = reconstructed;
  })
