-- ===== src/Control/Lifecycle.antt =====
-- The life of a Run: how its status and its phase may change, and what never changes.
use dsh_base_agent.Prelude.{ℕ, suc, ◌≤◌, ◌≡◌, String, Option, false, ◌==◌}
use dsh_base_agent.Models.{Json, RunRecord, RunStatus, run_status_eq, RunPhase, run_phase_eq}

-- One change of status and phase. The guards of the source are the premises: a Run settles from
-- every status but CANCELLED, and a Plan that awaits approval is not retried.
pub data Move : RunStatus → RunPhase → RunStatus → RunPhase → Type 0 where
  begin : {p : RunPhase} → Move RunStatus.queued p RunStatus.running p
  ask : {p : RunPhase} → Move RunStatus.running p RunStatus.waiting p
  answer : {p : RunPhase} → Move RunStatus.waiting p RunStatus.queued p
  approve : Move RunStatus.waiting RunPhase.waiting_approval RunStatus.queued RunPhase.executing
  cancel_queued : {p : RunPhase} → Move RunStatus.queued p RunStatus.cancelled p
  cancel_running : {p : RunPhase} → Move RunStatus.running p RunStatus.cancelled p
  cancel_waiting : {p : RunPhase} → Move RunStatus.waiting p RunStatus.cancelled p
  retry_failed :
      {p : RunPhase}
      → (p == RunPhase.waiting_approval) ≡ false
      → Move RunStatus.failed p RunStatus.queued p
  retry_cancelled :
      {p : RunPhase}
      → (p == RunPhase.waiting_approval) ≡ false
      → Move RunStatus.cancelled p RunStatus.queued p
  propose :
      {s : RunStatus} {p : RunPhase}
      → (s == RunStatus.cancelled) ≡ false
      → Move s p RunStatus.waiting RunPhase.waiting_approval
  succeed :
      {s : RunStatus} {p : RunPhase}
      → (s == RunStatus.cancelled) ≡ false
      → Move s p RunStatus.succeeded RunPhase.completed
  fail :
      {s : RunStatus} {p : RunPhase}
      → (s == RunStatus.cancelled) ≡ false
      → Move s p RunStatus.failed p

-- what was submitted
pub record Submission : Type 0 where
  pub run_id : String
  pub conversation_id : Option String
  pub sequence : Option ℕ
  pub tenant_id : String
  pub principal_id : String
  pub agent_id : String
  pub agent_version : String
  pub agent_fingerprint : String
  pub input : String
  pub metadata : Json
  pub created_at : ℕ

abbrev pub submission : RunRecord → Submission
submission run = record {
  run_id = run.run_id;
  conversation_id = run.conversation_id;
  sequence = run.sequence;
  tenant_id = run.tenant_id;
  principal_id = run.principal_id;
  agent_id = run.agent_id;
  agent_version = run.agent_version;
  agent_fingerprint = run.agent_fingerprint;
  input = run.input;
  metadata = run.metadata;
  created_at = run.created_at;
}

pub record Step (run run' : RunRecord) : Type 0 where
  pub submitted : submission run' ≡ submission run
  pub counted : run'.revision ≡ suc run.revision
  pub attempted : run.attempt_count ≤ run'.attempt_count
  pub moved : Move run.status run.phase run'.status run'.phase
