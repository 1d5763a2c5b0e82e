-- ===== src/Core/Record.antt =====
-- latent-core/src/confidence.rs, error.rs and record.rs: the confidence scale, provenance and the
-- normalized record. A timestamp is a parameter type.
pub mod Form
pub mod Document
pub mod Members
pub mod Defaults
pub mod RoundTrip
use latent_dfir.Common.{ℕ, ◌≡◌, refl, ◌↔◌, Bool, true, false, Option, none, String}
use latent_dfir.Source.{IoError}

-- In the order of the derived `Ord`.
pub data Confidence : Type 0 where
  l0_intact l1_local_template l2_external_corpus l3_structural l4_raw : Confidence

unfoldable pub tag : Confidence → String
tag l0_intact = "L0"
tag l1_local_template = "L1"
tag l2_external_corpus = "L2"
tag l3_structural = "L3"
tag l4_raw = "L4"

unfoldable pub is_reconstructed : Confidence → Bool
is_reconstructed l0_intact = false
is_reconstructed _ = true

pub data Method : Type 0 where
  local_template same_source external_corpus structural_inference raw_only : Method

pub record Event : Type 0 where
  pub code : Option String
  pub provider : Option String
  pub action : Option String
  pub category : Option String
  pub outcome : Option String

pub record HostField : Type 0 where
  pub name : Option String
  pub id : Option String

pub record User : Type 0 where
  pub name : Option String
  pub id : Option String
  pub domain : Option String

-- `pid` is an `i64`, here its two's-complement bit pattern.
pub record Process : Type 0 where
  pub pid : Option ℕ
  pub name : Option String
  pub executable : Option String

pub record NetworkSource : Type 0 where
  pub ip : Option String
  pub port : Option ℕ
  pub user : Option String

pub record Provenance : Type 0 where
  pub confidence : Confidence
  pub method : Method
  pub source_offset : ℕ
  pub source_hash : Option String
  pub template_id : Option String
  pub raw_sha256 : Option String
  pub record_id : Option ℕ
  pub channel : Option String
  pub reconstructed : Bool

-- `Provenance::new`
unfoldable pub new_provenance : Confidence → Method → ℕ → Provenance
unfolding is_reconstructed
new_provenance confidence method source_offset = record {
  confidence = confidence;
  method = method;
  source_offset = source_offset;
  source_hash = none;
  template_id = none;
  raw_sha256 = none;
  record_id = none;
  channel = none;
  reconstructed = is_reconstructed confidence;
}

pub data RecoverableError : Type 0 where
  malformed_candidate rejected_by_validation : String → RecoverableError

-- A message made from another error by its `Display` is kept as a text.
pub data FatalError : Type 0 where
  integrity_violation read_only_violation unusable_source : String → FatalError
  fatal_io : IoError → FatalError

pub data Error : Type 0 where
  recoverable : RecoverableError → Error
  fatal : FatalError → Error

unfoldable pub is_fatal : Error → Bool
is_fatal (fatal e) = true
is_fatal (recoverable e) = false

pub record Record (Timestamp : Type 0) : Type 0 where
  pub timestamp : Option Timestamp
  pub event : Event
  pub host : HostField
  pub user : User
  pub process : Process
  pub source : NetworkSource
  pub latent : Provenance

abbrev pub default_event : Event
default_event = record {
  code = none;
  provider = none;
  action = none;
  category = none;
  outcome = none;
}

abbrev pub default_host : HostField
default_host = record { name = none; id = none }

abbrev pub default_user : User
default_user = record { name = none; id = none; domain = none }

abbrev pub default_process : Process
default_process = record { pid = none; name = none; executable = none }

abbrev pub default_source : NetworkSource
default_source = record { ip = none; port = none; user = none }

-- `Record::new`
unfoldable pub new_record : {Timestamp : Type 0} → Provenance → Record Timestamp
new_record latent = record {
  timestamp = none;
  event = default_event;
  host = default_host;
  user = default_user;
  process = default_process;
  source = default_source;
  latent = latent;
}

-- `Record::is_reconstructed`
unfoldable pub record_is_reconstructed : {Timestamp : Type 0} → Record Timestamp → Bool
record_is_reconstructed r = r.latent.reconstructed

-- A record is marked as reconstructed exactly if its provenance has a confidence level other than
-- L0, whatever the method and the offset.
pub new_record-reconstructed :
    (Timestamp : Type 0) (c : Confidence) (m : Method) (offset : ℕ)
    → (record_is_reconstructed (new_record {Timestamp = Timestamp} (new_provenance c m offset))
        ≡ false)
      ↔ (c ≡ l0_intact)
unfolding record_is_reconstructed new_record new_provenance
new_record-reconstructed Timestamp c m offset = (level c, λ e. rw e)
  where
    level : (c : Confidence) → is_reconstructed c ≡ false → c ≡ l0_intact
    level l0_intact e = refl
    level l1_local_template e = absurd (cc)
    level l2_external_corpus e = absurd (cc)
    level l3_structural e = absurd (cc)
    level l4_raw e = absurd (cc)
