-- ===== src/Core/Record/RoundTrip.antt =====
-- A record reads back from its JSON form, and the form leaves out exactly the default groups.
use mathlib.Core.Option
use latent_dfir.Common.{
  ℕ, get_elem?, ◌^◌, ◌<◌, ◌↔◌, Option-cases, ◌≡◌, refl, sym, ap, ◌∙◌, inl, inr, Option, none, some,
  String,
}
use latent_dfir.Core.Json.{
  Fields, string, object, find, optional, nullable, read_string, read_object, required, Column,
  to_fields,
}
use latent_dfir.Core.Json.Columns.{find-to_fields, HoldsOf}
use latent_dfir.Core.Record.{
  Record, default_event, default_host, default_user, default_process, default_source,
}
use latent_dfir.Core.Record.Form.{Value}
use latent_dfir.Core.Record.Document.{
  event_is_default, host_is_default, user_is_default, process_is_default, source_is_default,
  Rfc3339, Timestamp, new_timestamp, put_timestamp, read_timestamp, timestamp_member,
  record_columns, to_json, read_members, from_json,
}
use latent_dfir.Core.Record.Defaults.{
  unless-none, event_read, host_read, user_read, process_read, source_read, event_is_default→eq,
  host_is_default→eq, user_is_default→eq, process_is_default→eq, source_is_default→eq,
}
use latent_dfir.Core.Record.Members.{read_provenance-to_fields}

-- What the time crate promises: what `format` writes `parse` reads, and a time in UTC stays as it
-- is.
pub record IsClock (clock : Rfc3339) : Type 0 where
  pub format-parse :
      (t : clock.OffsetDateTime) (s : String) → clock.format t ≡ some s → clock.parse s ≡ some t
  pub to_utc_twice : (t : clock.OffsetDateTime) → clock.to_utc (clock.to_utc t) ≡ clock.to_utc t

module _ (clock : Rfc3339) where
  -- A timestamp that `Timestamp::new` made, of a year that RFC 3339 can write.
  pub record IsWritable (t : Timestamp clock) : Type 0 where
    pub from : clock.OffsetDateTime
    pub made : new_timestamp clock from ≡ t
    pub shown : String
    pub shows : clock.format t.when ≡ some shown

  -- The integers are within the bounds of their Rust types.
  pub record Fits (r : Record (Timestamp clock)) : Type 0 where
    pub timestamp : HoldsOf IsWritable r.timestamp
    pub pid : HoldsOf (λ n. n < 2 ^ 64) r.process.pid
    pub port : HoldsOf (λ n. n < 2 ^ 16) r.source.port
    pub source_offset : r.latent.source_offset < 2 ^ 64
    pub record_id : HoldsOf (λ n. n < 2 ^ 64) r.latent.record_id

  module _ (law : IsClock clock) where
    again : (t : Timestamp clock) → IsWritable t → new_timestamp clock t.when ≡ t
    unfolding new_timestamp
    again t h =
        ap (λ u. new_timestamp clock (u.when)) (sym h.made)
        ∙ ap (λ w. record { when = w }) (law.to_utc_twice h.from)
        ∙ h.made

    -- How a timestamp is written, and that it is read.
    timestamp_member-read :
        (o : Option (Timestamp clock))
        → HoldsOf IsWritable o
        → (ts : Option Value) × (timestamp_member clock o ≡ some ts)
          × (optional (read_timestamp clock) (some ts) ≡ some o)
    unfolding timestamp_member put_timestamp optional nullable read_timestamp read_string
    timestamp_member-read none h = (none, refl, refl)
    timestamp_member-read (some t) h = (
      some (string h.shown),
      rw (h.shows),
      rw (law.format-parse t.when h.shown h.shows) (ap (λ u. some (some u)) (again t h)),
    )

    -- If RFC 3339 texts read back and UTC times stay as they are: a record whose integers lie
    -- within their Rust types and whose timestamp, if it has one, was made by `Timestamp::new` and
    -- can be formatted is written as JSON, and reading that gives the record.
    pub from_json-to_json :
        (r : Record (Timestamp clock))
        → Fits r
        → (v : Value) × (to_json clock r ≡ some v) × (from_json clock v ≡ some r)
    unfolding to_json from_json read_members read_object required
    from_json-to_json r h =
        let (ts, written, read) = timestamp_member-read r.timestamp h.timestamp in
        let x : Option Value × Record (Timestamp clock) = (ts, r) in
        (
          object (to_fields (record_columns clock) x),
          rw written,
          rw (
            find-to_fields x (record_columns clock) 0 _ refl refl,
            read,
            find-to_fields x (record_columns clock) 1 _ refl refl,
            event_read r.event,
            find-to_fields x (record_columns clock) 2 _ refl refl,
            host_read r.host,
            find-to_fields x (record_columns clock) 3 _ refl refl,
            user_read r.user,
            find-to_fields x (record_columns clock) 4 _ refl refl,
            process_read r.process h.pid,
            find-to_fields x (record_columns clock) 5 _ refl refl,
            source_read r.source h.port,
            find-to_fields x (record_columns clock) 6 _ refl refl,
            read_provenance-to_fields r.latent h.source_offset h.record_id,
          ),
        )

-- Under each group's name there is no member exactly if the group is the default, and there always
-- is one for the provenance.
pub record HasGroups {A : Type 0} (r : Record A) (fs : Fields String) : Type 0 where
  pub event : (find "event" fs ≡ some none) ↔ (r.event ≡ default_event)
  pub host : (find "host" fs ≡ some none) ↔ (r.host ≡ default_host)
  pub user : (find "user" fs ≡ some none) ↔ (r.user ≡ default_user)
  pub process : (find "process" fs ≡ some none) ↔ (r.process ≡ default_process)
  pub source : (find "source" fs ≡ some none) ↔ (r.source ≡ default_source)
  pub latent : (v : Value) × (find "latent" fs ≡ some (some v))

module _ (clock : Rfc3339) where
  -- A record that is written as JSON is written as an object in which each of the five groups has a
  -- member exactly if it is not the default group, and the provenance always has one.
  pub to_json-HasGroups :
      (r : Record (Timestamp clock)) (v : Value)
      → to_json clock r ≡ some v
      → (fs : Fields String) × (v ≡ object fs) × HasGroups r fs
  unfolding to_json event_is_default host_is_default user_is_default process_is_default
      source_is_default
  to_json-HasGroups r v e = elim (Option-cases (timestamp_member clock r.timestamp)) [
    | inl failed ↦ absurd (Option.none-ne-some v (rw failed at e))
    | inr (ts, written) ↦
        let fs = to_fields (record_columns clock) (ts, r) in
        let at_name : (i : ℕ) (c : Column String (Option Value × Record (Timestamp clock)))
            → get_elem? (record_columns clock) i ≡ some c
            → find (c.name) fs ≡ some (c.put (ts, r)) =
          λ i c e. find-to_fields (ts, r) (record_columns clock) i c refl e in
        let whole : some (object fs) ≡ some v = rw written at e in
        (
          fs,
          sym (Option.some-injective _ _ whole),
          record {
            event =
                unless-none default_event r.event event_is_default _ _ (at_name 1 _ refl)
                  (event_is_default→eq r.event) refl;
            host =
                unless-none default_host r.host host_is_default _ _ (at_name 2 _ refl)
                  (host_is_default→eq r.host) refl;
            user =
                unless-none default_user r.user user_is_default _ _ (at_name 3 _ refl)
                  (user_is_default→eq r.user) refl;
            process =
                unless-none default_process r.process process_is_default _ _ (at_name 4 _ refl)
                  (process_is_default→eq r.process) refl;
            source =
                unless-none default_source r.source source_is_default _ _ (at_name 5 _ refl)
                  (source_is_default→eq r.source) refl;
            latent = (_, find-to_fields (ts, r) (record_columns clock) 6 _ refl refl);
          },
        )
  ]
