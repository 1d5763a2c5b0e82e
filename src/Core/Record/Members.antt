-- ===== src/Core/Record/Members.antt =====
-- The groups of a record and its provenance read back from their JSON form.
use latent_dfir.Common.{
  ℕ, ◌^◌, ◌<◌, ◌≡◌, refl, ap, ◌∙◌, true, Option, some, List, String, get_elem?,
}
use latent_dfir.Core.Json.{
  find, required, optional, read_string, read_unsigned, read_bool, Column, to_fields,
}
use latent_dfir.Core.Json.Columns.{
  distinct, find-to_fields, HoldsOf, optional-string, optional-unsigned, optional-i64,
  read_unsigned-pos_int,
}
use latent_dfir.Core.Record.{
  Confidence, l0_intact, l1_local_template, l2_external_corpus, l3_structural, l4_raw, Method,
  local_template, same_source, external_corpus, structural_inference, raw_only, Event, HostField,
  User, Process, NetworkSource, Provenance,
}
use latent_dfir.Core.Record.Form.{
  put_string, put_unsigned, read_confidence, put_confidence, read_method, put_method, event_columns,
  host_columns, user_columns, process_columns, source_columns, provenance_columns, read_event,
  read_host, read_user, read_process, read_source, read_provenance,
}

read_confidence-put_confidence : (c : Confidence) → read_confidence (put_confidence c) ≡ some c
unfolding read_confidence put_confidence
read_confidence-put_confidence l0_intact = refl
read_confidence-put_confidence l1_local_template = refl
read_confidence-put_confidence l2_external_corpus = refl
read_confidence-put_confidence l3_structural = refl
read_confidence-put_confidence l4_raw = refl

read_method-put_method : (m : Method) → read_method (put_method m) ≡ some m
unfolding read_method put_method
read_method-put_method local_template = refl
read_method-put_method same_source = refl
read_method-put_method external_corpus = refl
read_method-put_method structural_inference = refl
read_method-put_method raw_only = refl

-- A column of texts is read back, and a column of `u64`s or `u16`s.
module _ {R : Type 0} (r : R) (cs : List (Column String R)) (names : distinct cs ≡ true) where
  string_at :
      (i : ℕ) (c : Column String R) (o : Option String)
      → get_elem? cs i ≡ some c
      → c.put r ≡ put_string o
      → optional read_string (find c.name (to_fields cs r)) ≡ some o
  string_at i c o e p =
      ap (optional read_string) (find-to_fields r cs i c names e ∙ ap some p) ∙ optional-string o

  unsigned_at :
      (w i : ℕ) (c : Column String R) (o : Option ℕ)
      → get_elem? cs i ≡ some c
      → c.put r ≡ put_unsigned o
      → HoldsOf (λ n. n < 2 ^ w) o
      → optional (read_unsigned w) (find c.name (to_fields cs r)) ≡ some o
  unsigned_at w i c o e p h =
      ap (optional (read_unsigned w)) (find-to_fields r cs i c names e ∙ ap some p)
      ∙ optional-unsigned String w o h

pub read_event-to_fields : (e : Event) → read_event (to_fields event_columns e) ≡ some e
unfolding read_event
read_event-to_fields e = rw (
  string_at e event_columns refl 0 _ e.code refl refl,
  string_at e event_columns refl 1 _ e.provider refl refl,
  string_at e event_columns refl 2 _ e.action refl refl,
  string_at e event_columns refl 3 _ e.category refl refl,
  string_at e event_columns refl 4 _ e.outcome refl refl,
)

pub read_host-to_fields : (h : HostField) → read_host (to_fields host_columns h) ≡ some h
unfolding read_host
read_host-to_fields h = rw (
  string_at h host_columns refl 0 _ h.name refl refl,
  string_at h host_columns refl 1 _ h.id refl refl,
)

pub read_user-to_fields : (u : User) → read_user (to_fields user_columns u) ≡ some u
unfolding read_user
read_user-to_fields u = rw (
  string_at u user_columns refl 0 _ u.name refl refl,
  string_at u user_columns refl 1 _ u.id refl refl,
  string_at u user_columns refl 2 _ u.domain refl refl,
)

pub read_process-to_fields :
    (p : Process)
    → HoldsOf (λ n. n < 2 ^ 64) p.pid
    → read_process (to_fields process_columns p) ≡ some p
unfolding read_process
read_process-to_fields p h = rw (
  find-to_fields p process_columns 0 _ refl refl,
  optional-i64 String p.pid h,
  string_at p process_columns refl 1 _ p.name refl refl,
  string_at p process_columns refl 2 _ p.executable refl refl,
)

pub read_source-to_fields :
    (s : NetworkSource)
    → HoldsOf (λ n. n < 2 ^ 16) s.port
    → read_source (to_fields source_columns s) ≡ some s
unfolding read_source
read_source-to_fields s h = rw (
  string_at s source_columns refl 0 _ s.ip refl refl,
  unsigned_at s source_columns refl 16 1 _ s.port refl refl h,
  string_at s source_columns refl 2 _ s.user refl refl,
)

pub read_provenance-to_fields :
    (p : Provenance)
    → p.source_offset < 2 ^ 64
    → HoldsOf (λ n. n < 2 ^ 64) p.record_id
    → read_provenance (to_fields provenance_columns p) ≡ some p
unfolding read_provenance required read_bool
read_provenance-to_fields p h k = rw (
  find-to_fields p provenance_columns 0 _ refl refl,
  read_confidence-put_confidence p.confidence,
  find-to_fields p provenance_columns 1 _ refl refl,
  read_method-put_method p.method,
  find-to_fields p provenance_columns 2 _ refl refl,
  read_unsigned-pos_int String 64 p.source_offset h,
  string_at p provenance_columns refl 3 _ p.source_hash refl refl,
  string_at p provenance_columns refl 4 _ p.template_id refl refl,
  string_at p provenance_columns refl 5 _ p.raw_sha256 refl refl,
  unsigned_at p provenance_columns refl 64 6 _ p.record_id refl refl k,
  string_at p provenance_columns refl 7 _ p.channel refl refl,
  find-to_fields p provenance_columns 8 _ refl refl,
)
