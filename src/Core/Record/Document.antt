-- ===== src/Core/Record/Document.antt =====
-- latent-core/src/record.rs: timestamps, and the JSON form of a whole record, whose groups are left
-- out where they are the default.
use mathlib.Core.Option
use latent_dfir.Common.{Bool, ◌&&◌, Option, none, some, List, [], ◌∷◌, String, is_none}
use latent_dfir.Core.Json.{
  Fields, string, object, ◌>>=◌, find, required, optional, defaulted, read_string, read_object,
  unless, Column, to_fields,
}
use latent_dfir.Core.Record.{
  Event, HostField, User, Process, NetworkSource, Record, default_event, default_host, default_user,
  default_process, default_source,
}
use latent_dfir.Core.Record.Form.{
  Value, event_columns, host_columns, user_columns, process_columns, source_columns,
  provenance_columns, read_event, read_host, read_user, read_process, read_source, read_provenance,
}

-- `is_default`, by the derived `Default` and `PartialEq` of each group.
unfoldable pub event_is_default : Event → Bool
event_is_default e =
    is_none e.code
    && (is_none e.provider && (is_none e.action && (is_none e.category && is_none e.outcome)))

unfoldable pub host_is_default : HostField → Bool
host_is_default h = is_none h.name && is_none h.id

unfoldable pub user_is_default : User → Bool
user_is_default u = is_none u.name && (is_none u.id && is_none u.domain)

unfoldable pub process_is_default : Process → Bool
process_is_default p = is_none p.pid && (is_none p.name && is_none p.executable)

unfoldable pub source_is_default : NetworkSource → Bool
source_is_default s = is_none s.ip && (is_none s.port && is_none s.user)

-- `OffsetDateTime`, its `to_offset(UtcOffset::UTC)` where that does not panic, and `format` and
-- `parse` with the description `Rfc3339`.
pub record Rfc3339 : Type 1 where
  pub OffsetDateTime : Type 0
  pub to_utc : OffsetDateTime → OffsetDateTime
  pub format : OffsetDateTime → Option String
  pub parse : String → Option OffsetDateTime

module _ (clock : Rfc3339) where
  pub record Timestamp : Type 0 where
    pub when : clock.OffsetDateTime

  -- `Timestamp::new`, which `From` calls, and `get`
  unfoldable pub new_timestamp : clock.OffsetDateTime → Timestamp
  new_timestamp when = record { when = clock.to_utc when }

  abbrev pub timestamp_get : Timestamp → clock.OffsetDateTime
  timestamp_get t = t.when

  unfoldable pub put_timestamp : Timestamp → Option Value
  put_timestamp t = Option.map string (clock.format t.when)

  unfoldable pub read_timestamp : Value → Option Timestamp
  unfolding new_timestamp
  read_timestamp v = do text ← read_string v; when ← clock.parse text; some (new_timestamp when)

  -- A timestamp that is there is written, or is an error, `none`.
  unfoldable pub timestamp_member : Option Timestamp → Option (Option Value)
  timestamp_member none = some none
  timestamp_member (some t) = Option.map some (put_timestamp t)

  -- The first component is what the timestamp is written as.
  abbrev pub record_columns : List (Column String (Option Value × Record Timestamp))
  record_columns =
      record { name = "@timestamp"; put = λ (ts, r). ts }
      ∷ record {
        name = "event";
        put =
            λ (ts, r). unless (event_is_default r.event) (object (to_fields event_columns r.event));
      }
      ∷ record {
        name = "host";
        put = λ (ts, r). unless (host_is_default r.host) (object (to_fields host_columns r.host));
      }
      ∷ record {
        name = "user";
        put = λ (ts, r). unless (user_is_default r.user) (object (to_fields user_columns r.user));
      }
      ∷ record {
        name = "process";
        put = λ (ts, r).
            unless (process_is_default r.process) (object (to_fields process_columns r.process));
      }
      ∷ record {
        name = "source";
        put = λ (ts, r).
            unless (source_is_default r.source) (object (to_fields source_columns r.source));
      }
      ∷ record {
        name = "latent";
        put = λ (ts, r). some (object (to_fields provenance_columns r.latent));
      }
      ∷ []

  unfoldable pub to_json : Record Timestamp → Option Value
  unfolding timestamp_member
  to_json r = do ts ← timestamp_member r.timestamp; some (object (to_fields record_columns (ts, r)))

  unfoldable pub read_members : Fields String → Option (Record Timestamp)
  read_members fs = do
    timestamp ← optional read_timestamp (find "@timestamp" fs)
    event ← defaulted default_event (read_object read_event) (find "event" fs)
    host ← defaulted default_host (read_object read_host) (find "host" fs)
    user ← defaulted default_user (read_object read_user) (find "user" fs)
    process ← defaulted default_process (read_object read_process) (find "process" fs)
    source ← defaulted default_source (read_object read_source) (find "source" fs)
    latent ← required (read_object read_provenance) (find "latent" fs)
    some (record {
      timestamp = timestamp;
      event = event;
      host = host;
      user = user;
      process = process;
      source = source;
      latent = latent;
    })

  unfoldable pub from_json : Value → Option (Record Timestamp)
  unfolding read_members
  from_json v = read_object read_members v
