-- ===== src/Worker/Tests.antt =====
-- A Worker that takes two Runs at most and one Conversation.
use dsh_base_agent.Prelude.{
  ◌≡◌, refl, String, Bool, false, none, some, List, [], ◌∷◌, ok, err, value_error, ◌==◌, string_eq,
  arith, ◌*◌, Result, Error, lease_lost, revision_conflict, nat_eq, if◌then◌else◌,
}
use dsh_base_agent.Prelude.Text.{is_space, lstrip, rstrip, strip}
use dsh_base_agent.Sql.{sort_by, insert_by}
use dsh_base_agent.Models.{
  RunRecord, ConversationRecord, ConversationStatus, Json, WorkLease, WorkResourceType,
}
use dsh_base_agent.Store.Samples.{run}
use dsh_base_agent.Leases.Table.{take_lease, release_lease, assert_lease, lease_resource, Resource}
use dsh_base_agent.Leases.Claims.{candidates, take_first, claim_work, release_work_lease, Queue}
use dsh_base_agent.Worker.Config.{WorkerConfig, post_init}
use dsh_base_agent.Worker.Service.{
  Env, Service, Ending, owned_conversation_count, standalone_run_count, is_refused, release,
  start_task, claim, claim_round, claim_loop, claim_available_work, discard_finished_tasks, poll,
  run_forever,
}
use dsh_base_agent.Worker.Claiming.{Ended, claim_available_work-Ended}
use dsh_base_agent.Worker.Conversation.{
  Passes, serve_pass, serve_conversation, serve_conversation-idle,
}
use dsh_base_agent.Worker.Resource.{Raised, execute_resource, execute_resource-assert_lease}
use dsh_base_agent.Worker.Capacity.{IsWithin, IsRaised, run_forever-IsWithin}

-- what the tests compute with
abbrev program : Unit {0}
unfolding is_space lstrip rstrip strip sort_by insert_by take_lease release_lease candidates
    take_first claim_work release_work_lease post_init owned_conversation_count standalone_run_count
    is_refused release start_task claim claim_round claim_loop claim_available_work
    discard_finished_tasks poll run_forever serve_pass serve_conversation assert_lease
    execute_resource
program = tt

abbrev config : WorkerConfig
config = record {
  worker_id = "w";
  poll_interval_seconds = 1;
  lease_seconds = 30;
  heartbeat_interval_seconds = 10;
  heartbeat_timeout_seconds = 3;
  run_timeout_seconds = 600;
  conversation_idle_seconds = 60;
  max_concurrency = 2;
  max_owned_conversations = 1;
  shutdown_timeout_seconds = 15;
}

accepted : post_init config ≡ ok tt
unfolding program
accepted = refl

-- the heartbeat does not fit into the lease
late : post_init (record config { heartbeat_timeout_seconds = 20 }) ≡ err value_error
unfolding program
late = refl

abbrev env : Env
env = record {
  others = λ n queue. queue;
  now = λ n. n;
  locked = λ n r. false;
  stopping = λ n. false;
  collation = λ id. 0;
  reconcile_expired_worker_leases = λ n. if n == 9 then err revision_conflict else ok tt;
}

abbrev named : String → RunRecord
named id = record run { run_id = id }

abbrev idle : Service
idle = record {
  tasks = [];
  queue = record {
    conversations = [];
    runs = named "a" ∷ named "b" ∷ named "c" ∷ [];
    worker_leases = [];
  };
  awaits = 0;
}

abbrev tasks_of : Ending → List Resource
tasks_of none = []
tasks_of (some (_, s)) = s.tasks

abbrev identifiers : List Resource → List String
identifiers [] = []
identifiers (key ∷ rest) = key.id ∷ identifiers rest

-- The third Run is claimed and released.
two_runs : identifiers (tasks_of (claim_available_work config env idle)) ≡ "a" ∷ "b" ∷ []
unfolding program
two_runs = refl

-- When the first has finished there is room for one of those that are left.
one_more :
    identifiers
      (tasks_of (run_forever config env ((λ key. false) ∷ (λ key. key.id == "a") ∷ []) idle))
    ≡ "b" ∷ "c" ∷ []
unfolding program
one_more = refl

idle-IsWithin : IsWithin config idle.tasks
unfolding program
idle-IsWithin = record { distinct = tt; runs = omega arith; conversations = omega arith }

claim_available_work-Ended_example : Ended (claim_available_work config env idle)
claim_available_work-Ended_example = claim_available_work-Ended config env idle

run_forever-IsWithin_example :
    (r : Result Error Bool × Service) × (run_forever config env
        ((λ key. false) ∷ (λ key. key.id == "a") ∷ [])
        idle
      ≡ some r)
    × IsWithin config r.1.tasks
    × IsRaised env r.0
run_forever-IsWithin_example =
    run_forever-IsWithin config env ((λ key. false) ∷ (λ key. key.id == "a") ∷ []) idle accepted
      idle-IsWithin

abbrev conversation : ConversationRecord
conversation = record {
  conversation_id = "conv_1";
  tenant_id = "acme";
  principal_id = "alice";
  agent_id = "orders";
  agent_version = "1.0.0";
  agent_fingerprint = "f0";
  dsh_home_key = "home";
  dsh_session_id = "session";
  status = ConversationStatus.active;
  next_sequence = 1;
  revision = 1;
  blocked_reason = none;
  metadata = Json.null;
  created_at = 10;
  updated_at = 10;
}

-- a Conversation in which nothing is queued, looked at every 20 units of time
abbrev nothing_queued : Passes Error
nothing_queued = record {
  stopping = λ n. false;
  get_conversation = λ n. ok conversation;
  execute_with_timeout = λ n. ok false;
  list_conversation_runs = λ n. ok [];
  time = λ n. n * 20;
}

given_up : serve_conversation nothing_queued 60 4 0 0 ≡ some (ok tt)
unfolding program
given_up = refl

not_yet : serve_conversation nothing_queued 60 3 0 0 ≡ none
unfolding program
not_yet = refl

serve_conversation-idle_example :
    (r : Result Error (Unit {0})) × (serve_conversation nothing_queued 60 4 0 0 ≡ some r)
serve_conversation-idle_example =
    serve_conversation-idle nothing_queued 60 3 0 (λ i before. refl) (omega arith)

-- a lease on a Run that the Worker holds until 30
abbrev lease : WorkLease
lease = record {
  resource_type = WorkResourceType.run;
  resource_id = "a";
  worker_id = "w";
  lease_token = 1;
  expires_at = 30;
}

abbrev leased : Queue
leased = record {
  conversations = [];
  runs = [];
  worker_leases = (take_lease (lease_resource lease) "w" 30 0 []).1;
}

held : assert_lease lease 7 leased.worker_leases ≡ ok tt
unfolding program
held = refl

execute_resource-assert_lease_example :
    assert_lease lease 7
      (execute_resource lease (err Raised.timed_out) (ok tt) 5 leased).1.worker_leases
    ≡ err lease_lost
execute_resource-assert_lease_example =
    execute_resource-assert_lease lease (err Raised.timed_out) (ok tt) 5 7 leased (λ h. refl)
      (omega arith)
