-- ===== src/Control/Guarantees/Submit.antt =====
-- The guarantees of the operations that create Conversations and Runs.
use dsh_base_agent.Prelude.{subst, String, Bool, Option, none, some}
use dsh_base_agent.Models.{Json, RunRecord}
use dsh_base_agent.Store.Operation.{Operation, perform}
use dsh_base_agent.Store.Runs.{create_run}
use dsh_base_agent.Store.Conversations.{create_conversation_run, get_conversation}
use dsh_base_agent.Store.Revisions.LostUpdate.{report_state}
use dsh_base_agent.Control.Failures.{Principal, Agent}
use dsh_base_agent.Control.Calls.{await}
use dsh_base_agent.Control.Shared.{owned_conversation}
use dsh_base_agent.Control.Submit.{
  audit_denial, authorize, create_conversation, submit_to_conversation, submit, report_submission,
  report_run,
}
use dsh_base_agent.Control.Guarantee.{Advances, perform-Advances}
use dsh_base_agent.Control.Rules.{Guarantees, Guarantees-pure, Guarantees-await}
use dsh_base_agent.Control.Guarantees.Shared.{guarantee_rules, report_rules}

module _ (known : Option RunRecord) where
  Guarantees-audit_denial :
      (principal : Principal) (agent : Agent) (action : String) (details : String → Json)
      (denial : Option String)
      → Guarantees known (audit_denial principal agent action details denial)
  unfolding audit_denial
  Guarantees-audit_denial principal agent action details none = Guarantees-pure known tt
  Guarantees-audit_denial principal agent action details (some error_type) = search report_rules

  Guarantees-authorize :
      (principal : Principal) (agent : Agent) (action : String) (details : String → Json)
      → Guarantees known (authorize principal agent action details)
  unfolding authorize
  Guarantees-authorize principal agent action details =
      search (guarantee_rules, Guarantees-audit_denial)

  Guarantees-create_run :
      (run : RunRecord) (key : Option String) (digest : String)
      → Guarantees known (await (create_run run key digest))
  unfolding perform
  Guarantees-create_run run key digest = Guarantees-await known (create_run run key digest) (λ s.
      subst (Advances s) (report_state (create_run run key digest s))
        (perform-Advances (Operation.create_run run key digest) tt s))

  Guarantees-create_conversation_run :
      (id : String) (run : RunRecord) (key : Option String) (digest : String)
      → Guarantees known (await (create_conversation_run id run key digest))
  unfolding perform
  Guarantees-create_conversation_run id run key digest =
      Guarantees-await known (create_conversation_run id run key digest) (λ s.
        subst (Advances s) (report_state (create_conversation_run id run key digest s))
          (perform-Advances (Operation.create_conversation_run id run key digest) tt s))

  Guarantees-owned_conversation :
      (principal : Principal) (id : String) → Guarantees known (owned_conversation principal id)
  unfolding owned_conversation get_conversation
  Guarantees-owned_conversation principal id = search guarantee_rules depth 12

  Guarantees-report_submission :
      (principal : Principal) (agent : Agent) (id input : String) (run : RunRecord) (created : Bool)
      → Guarantees known (report_submission principal agent id input run created)
  unfolding report_submission
  Guarantees-report_submission principal agent id input run created = search report_rules depth 20

  Guarantees-report_run :
      (principal : Principal) (agent : Agent) (input : String) (run : RunRecord) (created : Bool)
      → Guarantees known (report_run principal agent input run created)
  unfolding report_run
  Guarantees-report_run principal agent input run created = search report_rules depth 20

ruleset submit_rules = (
  report_rules, Guarantees-authorize, Guarantees-create_run, Guarantees-create_conversation_run,
  Guarantees-owned_conversation, Guarantees-report_submission, Guarantees-report_run,
)

pub Guarantees-create_conversation :
    (principal : Principal) (agent_id : String) (metadata : Option Json)
    → Guarantees none (create_conversation principal agent_id metadata)
unfolding create_conversation
Guarantees-create_conversation principal agent_id metadata = search submit_rules depth 40

pub Guarantees-submit_to_conversation :
    (principal : Principal) (id input : String) (key : Option String) (metadata : Option Json)
    → Guarantees none (submit_to_conversation principal id input key metadata)
unfolding submit_to_conversation
Guarantees-submit_to_conversation principal id input key metadata = search submit_rules depth 60

pub Guarantees-submit :
    (principal : Principal) (agent_id input : String) (key : Option String) (metadata : Option Json)
    → Guarantees none (submit principal agent_id input key metadata)
unfolding submit
Guarantees-submit principal agent_id input key metadata = search submit_rules depth 60
