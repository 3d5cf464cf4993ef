-- ===== src/Types/Job.antt =====
-- Background jobs, filing suggestions, and the health of the AI services.
use lesspaper_ngl.Prelude.{Bool, Eq, Option, String, false, nat_eq, option_eq, text_eq, true, ℕ}
use lesspaper_ngl.Types.Json.{Fields}

pub data JobStatus : Type 0 where
  queued running completed failed cancelled : JobStatus

abbrev job_status_beq : JobStatus → JobStatus → Bool
job_status_beq JobStatus.queued JobStatus.queued = true
job_status_beq JobStatus.running JobStatus.running = true
job_status_beq JobStatus.completed JobStatus.completed = true
job_status_beq JobStatus.failed JobStatus.failed = true
job_status_beq JobStatus.cancelled JobStatus.cancelled = true
job_status_beq _ _ = false

instance abbrev pub job_status_eq : Eq JobStatus
job_status_eq = record { beq = job_status_beq }

pub record Job : Type 0 where
  pub id : String
  pub job_type : String
  pub status : JobStatus
  pub document_id : Option String
  pub priority : ℕ
  pub retry_count : ℕ
  pub error : Option String
  pub created_at : String
  pub started_at : Option String
  pub completed_at : Option String

-- `confidence`, a float, is kept by the text that writes it: nothing modelled computes with it.
pub record Suggestion : Type 0 where
  pub id : String
  pub document_id : String
  pub field : String
  pub value : Fields
  pub status : String
  pub provider : Option String
  pub model : Option String
  pub confidence : Option String

pub data CapabilityStatus : Type 0 where
  available unavailable checking not_configured : CapabilityStatus

abbrev capability_status_beq : CapabilityStatus → CapabilityStatus → Bool
capability_status_beq CapabilityStatus.available CapabilityStatus.available = true
capability_status_beq CapabilityStatus.unavailable CapabilityStatus.unavailable = true
capability_status_beq CapabilityStatus.checking CapabilityStatus.checking = true
capability_status_beq CapabilityStatus.not_configured CapabilityStatus.not_configured = true
capability_status_beq _ _ = false

instance abbrev pub capability_status_eq : Eq CapabilityStatus
capability_status_eq = record { beq = capability_status_beq }
