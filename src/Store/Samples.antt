-- ===== src/Store/Samples.antt =====
-- Small records and stores for the tests.
use dsh_base_agent.Prelude.{none, some, true, false, [], ◌∷◌}
use dsh_base_agent.Models.{
  Json, RunRecord, RunStatus, RunPhase, RunAttempt, AttemptStatus, DispatchState, ArtifactRecord,
}
use dsh_base_agent.Store.Connection.{SqliteControlStore}
use dsh_base_agent.Store.Operation.{Operation, new_store, perform_all}

abbrev pub run : RunRecord
run = record {
  run_id = "run_1";
  conversation_id = none;
  sequence = none;
  tenant_id = "acme";
  principal_id = "alice";
  agent_id = "orders";
  agent_version = "1.0.0";
  agent_fingerprint = "f0";
  input = "find order 7";
  metadata = Json.null;
  phase = RunPhase.direct;
  plan_id = none;
  status = RunStatus.queued;
  revision = 1;
  attempt_count = 0;
  active_attempt_id = none;
  required_action_id = none;
  output = none;
  error = none;
  cancel_requested = false;
  created_at = 10;
  updated_at = 10;
}

abbrev pub running : RunRecord
running = record run {
  status = RunStatus.running;
  revision = 2;
  attempt_count = 1;
  active_attempt_id = some "attempt_1";
}

abbrev pub cancelled : RunRecord
cancelled = record run { status = RunStatus.cancelled; revision = 2; cancel_requested = true }

abbrev pub attempt : RunAttempt
attempt = record {
  attempt_id = "attempt_1";
  run_id = "run_1";
  number = 1;
  dsh_session_id = "session_1";
  phase = RunPhase.direct;
  status = AttemptStatus.running;
  dispatch_state = DispatchState.not_sent;
  worker_id = none;
  lease_token = none;
  revision = 1;
  finish_reason = none;
  output = none;
  error = none;
  started_at = some 11;
  finished_at = none;
  created_at = 11;
  updated_at = 11;
}

-- an artifact of a Run that is not stored
abbrev pub orphan : ArtifactRecord
orphan = record {
  artifact_id = "artifact_1";
  run_id = "run_9";
  attempt_id = "attempt_9";
  name = "report";
  media_type = "text/plain";
  location = "file:report";
  sha256 = "a0";
  size_bytes = 3;
  created_at = 12;
}

abbrev pub opened : SqliteControlStore
opened = perform_all (Operation.initialize ∷ []) new_store

abbrev pub with_run : SqliteControlStore
with_run =
    perform_all (Operation.initialize ∷ Operation.create_run run (some "key") "digest" ∷ [])
      new_store

abbrev pub begin : Operation
begin = Operation.begin_attempt running attempt 1 none none none
