-- ===== src/Examples/Records.antt =====
-- Records, their JSON form and the lines of the audit log at concrete inputs.
use latent_dfir.Common.{◌≡◌, refl, sym, arith, true, false, none, some, String}
use latent_dfir.Core.Json.{
  object, boolean, string, pos_int, neg_int, read_string, read_bool, read_unsigned, read_i64,
  read_object, required, optional, nullable, defaulted, find, no_fields, field, to_fields, unless,
}
use latent_dfir.Core.Record.{
  Record, new_record, new_provenance, l1_local_template, same_source, l4_raw, raw_only,
}
use latent_dfir.Core.Record.Form.{
  Value, put_confidence, put_method, read_process, read_provenance, read_confidence, read_method,
}
use latent_dfir.Core.Record.Document.{
  Rfc3339, Timestamp, new_timestamp, read_timestamp, to_json, from_json, event_is_default,
  host_is_default, user_is_default, process_is_default, source_is_default,
}
use latent_dfir.Core.Record.RoundTrip.{IsClock, Fits, from_json-to_json}

-- Times that are their own texts, all of them in UTC.
abbrev clock : Rfc3339
clock = record {
  OffsetDateTime = String;
  to_utc = λ t. t;
  format = λ t. some t;
  parse = λ s. some s;
}

clock_law : IsClock clock
clock_law = record { format-parse = λ t s h. sym h; to_utc_twice = λ t. refl }

abbrev noon : Timestamp clock
noon = record { when = "2024-03-01T12:30:00Z" }

abbrev base : Record (Timestamp clock)
base = new_record (new_provenance l1_local_template same_source 4096)

abbrev sample : Record (Timestamp clock)
sample = record {
  timestamp = some noon;
  event = record {
    code = some "4624";
    provider = some "Microsoft-Windows-Security-Auditing";
    action = none;
    category = none;
    outcome = none;
  };
  host = record { name = some "dc01"; id = none };
  user = record { name = some "svc_backup"; id = none; domain = none };
  process = record { pid = some 18446744073709551615; name = none; executable = none };
  source = record { ip = none; port = some 445; user = none };
  latent = record {
    confidence = l1_local_template;
    method = same_source;
    source_offset = 4096;
    source_hash = none;
    template_id = none;
    raw_sha256 = none;
    record_id = some 918273;
    channel = some "Security";
    reconstructed = true;
  };
}

sample-Fits : Fits clock sample
unfolding new_timestamp
sample-Fits = record {
  timestamp = record { from = noon.when; made = refl; shown = noon.when; shows = refl };
  pid = omega arith;
  port = omega arith;
  source_offset = omega arith;
  record_id = omega arith;
}

from_json-to_json_example :
    (v : Value) × (to_json clock sample ≡ some v) × (from_json clock v ≡ some sample)
from_json-to_json_example = from_json-to_json clock clock_law sample sample-Fits

abbrev bare : Record (Timestamp clock)
bare = new_record (new_provenance l4_raw raw_only 0)

abbrev bare_json : Value
bare_json = object (
    field "latent"
      (object (
        field "confidence" (string "L4Raw") (
          field "method" (string "RawOnly")
            (field "source_offset" (pos_int 0) (field "reconstructed" (boolean true) no_fields)))))
      no_fields)

bare-to_json : to_json clock bare ≡ some bare_json
unfolding to_json new_record new_provenance event_is_default host_is_default user_is_default
    process_is_default source_is_default put_confidence put_method to_fields unless
bare-to_json = refl

-- A record of another writer, with a negative process id, and what is read from it.
abbrev foreign_json : Value
foreign_json = object (
    field "process" (object (field "pid" (neg_int 1) no_fields)) (
      field "@timestamp" (string "2024-03-01T12:30:00Z") (
        field "latent"
          (object (
            field "method" (string "RawOnly") (
              field "confidence" (string "L4Raw") (
                field "source_offset" (pos_int 512)
                  (field "reconstructed" (boolean false) no_fields)))))
          no_fields)))

abbrev foreign : Record (Timestamp clock)
foreign = record bare {
  timestamp = some noon;
  process = record { pid = some 18446744073709551615; name = none; executable = none };
  latent = record bare.latent { source_offset = 512; reconstructed = false };
}

foreign_read : from_json clock foreign_json ≡ some foreign
unfolding from_json read_timestamp read_process read_i64 read_provenance read_confidence read_method
    read_unsigned read_bool read_string read_object required optional nullable defaulted find
    new_timestamp new_record new_provenance
foreign_read = refl
