-- ===== src/Core/Record/Defaults.antt =====
-- The groups of a record that are left out where they are the default: that `is_default` says so,
-- and that they read back.
use mathlib.Core.Option
use latent_dfir.Common.{
  ◌↔◌, ◌∙◌, ◌^◌, ◌<◌, ◌≡◌, refl, sym, ap, Bool, true, false, &&-true, Option, none, some, is_none,
  is_none→eq, String,
}
use latent_dfir.Core.Json.{Fields, object, defaulted, read_object, unless, to_fields}
use latent_dfir.Core.Json.Columns.{HoldsOf}
use latent_dfir.Core.Record.{
  Event, HostField, User, Process, NetworkSource, default_event, default_host, default_user,
  default_process, default_source,
}
use latent_dfir.Core.Record.Form.{
  Value, event_columns, host_columns, user_columns, process_columns, source_columns, read_event,
  read_host, read_user, read_process, read_source,
}
use latent_dfir.Core.Record.Document.{
  event_is_default, host_is_default, user_is_default, process_is_default, source_is_default,
}
use latent_dfir.Core.Record.Members.{
  read_event-to_fields, read_host-to_fields, read_user-to_fields, read_process-to_fields,
  read_source-to_fields,
}

pub event_is_default→eq : (e : Event) → event_is_default e ≡ true → e ≡ default_event
unfolding event_is_default
event_is_default→eq e h =
    let (code, h₁) = &&-true (is_none e.code) _ h in
    let (provider, h₂) = &&-true (is_none e.provider) _ h₁ in
    let (action, h₃) = &&-true (is_none e.action) _ h₂ in
    let (category, outcome) = &&-true (is_none e.category) _ h₃ in
    λ i. record {
      code = is_none→eq e.code code i;
      provider = is_none→eq e.provider provider i;
      action = is_none→eq e.action action i;
      category = is_none→eq e.category category i;
      outcome = is_none→eq e.outcome outcome i;
    }

pub host_is_default→eq : (h : HostField) → host_is_default h ≡ true → h ≡ default_host
unfolding host_is_default
host_is_default→eq h e =
    let (name, id) = &&-true (is_none h.name) _ e in
    λ i. record { name = is_none→eq h.name name i; id = is_none→eq h.id id i }

pub user_is_default→eq : (u : User) → user_is_default u ≡ true → u ≡ default_user
unfolding user_is_default
user_is_default→eq u h =
    let (name, more) = &&-true (is_none u.name) _ h in
    let (id, domain) = &&-true (is_none u.id) _ more in
    λ i. record {
      name = is_none→eq u.name name i;
      id = is_none→eq u.id id i;
      domain = is_none→eq u.domain domain i;
    }

pub process_is_default→eq : (p : Process) → process_is_default p ≡ true → p ≡ default_process
unfolding process_is_default
process_is_default→eq p h =
    let (pid, more) = &&-true (is_none p.pid) _ h in
    let (name, executable) = &&-true (is_none p.name) _ more in
    λ i. record {
      pid = is_none→eq p.pid pid i;
      name = is_none→eq p.name name i;
      executable = is_none→eq p.executable executable i;
    }

pub source_is_default→eq : (s : NetworkSource) → source_is_default s ≡ true → s ≡ default_source
unfolding source_is_default
source_is_default→eq s h =
    let (ip, more) = &&-true (is_none s.ip) _ h in
    let (port, user) = &&-true (is_none s.port) _ more in
    λ i. record {
      ip = is_none→eq s.ip ip i;
      port = is_none→eq s.port port i;
      user = is_none→eq s.user user i;
    }

-- A group that is written only where it is not the default.
defaulted-unless :
    {A : Type 0} (d x : A) (b : Bool) (read : Fields String → Option A) (fs : Fields String)
    → (b ≡ true → x ≡ d)
    → read fs ≡ some x
    → defaulted d (read_object read) (some (unless b (object fs))) ≡ some x
unfolding defaulted unless read_object
defaulted-unless d x true read fs h e = ap some (sym (h refl))
defaulted-unless d x false read fs h e = e

pub event_read :
    (e : Event)
    → defaulted default_event
        (read_object read_event)
        (some (unless (event_is_default e) (object (to_fields event_columns e))))
      ≡ some e
event_read e =
    defaulted-unless default_event e (event_is_default e) read_event _ (event_is_default→eq e)
      (read_event-to_fields e)

pub host_read :
    (h : HostField)
    → defaulted default_host
        (read_object read_host)
        (some (unless (host_is_default h) (object (to_fields host_columns h))))
      ≡ some h
host_read h =
    defaulted-unless default_host h (host_is_default h) read_host _ (host_is_default→eq h)
      (read_host-to_fields h)

pub user_read :
    (u : User)
    → defaulted default_user
        (read_object read_user)
        (some (unless (user_is_default u) (object (to_fields user_columns u))))
      ≡ some u
user_read u =
    defaulted-unless default_user u (user_is_default u) read_user _ (user_is_default→eq u)
      (read_user-to_fields u)

pub process_read :
    (p : Process)
    → HoldsOf (λ n. n < 2 ^ 64) p.pid
    → defaulted default_process
        (read_object read_process)
        (some (unless (process_is_default p) (object (to_fields process_columns p))))
      ≡ some p
process_read p fits =
    defaulted-unless default_process p (process_is_default p) read_process _
      (process_is_default→eq p) (read_process-to_fields p fits)

pub source_read :
    (s : NetworkSource)
    → HoldsOf (λ n. n < 2 ^ 16) s.port
    → defaulted default_source
        (read_object read_source)
        (some (unless (source_is_default s) (object (to_fields source_columns s))))
      ≡ some s
source_read s fits =
    defaulted-unless default_source s (source_is_default s) read_source _ (source_is_default→eq s)
      (read_source-to_fields s fits)

unless-eq-none : (b : Bool) (v : Value) → unless b v ≡ none → b ≡ true
unfolding unless
unless-eq-none true v h = refl
unless-eq-none false v h = absurd (Option.some-ne-none v h)

-- What is found under a name is nothing exactly if the group is the default.
pub unless-none :
    {A : Type 0} (d x : A) (is_default : A → Bool) (v : Value) (o : Option (Option Value))
    → o ≡ some (unless (is_default x) v)
    → (is_default x ≡ true → x ≡ d)
    → is_default d ≡ true
    → (o ≡ some none) ↔ (x ≡ d)
unfolding unless
unless-none d x is_default v o e h k = (
  λ n. h (unless-eq-none (is_default x) v (Option.some-injective _ _ (sym e ∙ n))),
  λ p. e ∙ rw (p, k),
)
