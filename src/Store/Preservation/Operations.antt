-- ===== src/Store/Preservation/Operations.antt =====
-- From the statements to the operations.
use dsh_base_agent.Prelude.{ℕ, ◌+◌, ◌≡◌, String, Option, none, some, ok, arith, nat_eq}
use dsh_base_agent.Models.{
  ConversationRecord, RunRecord, RunAttempt, PlanRecord, RequiredActionRecord, RequiredActionStatus,
  WorkLease,
}
use dsh_base_agent.Store.Tables.{Db, IdempotencyRow}
use dsh_base_agent.Store.Conversations.{
  replace_conversation, update_conversation, create_conversation_run, create_in_conversation,
}
use dsh_base_agent.Store.Runs.{create_run, create_or_replay, replace_run}
use dsh_base_agent.Store.Attempts.{
  begin_attempt, begin_attempt_checks, replace_attempt, settle_attempt, settle_attempt_checks,
  update_action_if, check_action,
}
use dsh_base_agent.Store.Actions.{
  enter_required_action, answer_required_action, enter_checks, answer_checks, waiting_run,
}
use dsh_base_agent.Store.Plans.{
  complete_planning, complete_planning_checks, decide_plan, decide_plan_checks,
}
use dsh_base_agent.Store.Keeps.{
  Keeps, keeps_rules, Keeps-pure, Maintains, Maintains-transaction, Maintains-update_one,
  Maintains-checked,
}
use dsh_base_agent.Store.Statements.{update_run_sync, update_attempt_sync}
use dsh_base_agent.Store.Preservation.{KeptByStatements}

module _ {Permit : RunRecord → ℕ → Type 0} {P : Db → Type 0} (k : KeptByStatements Permit P) where
  open k use {
    on_update_run, on_update_run_sync, on_insert_run, on_update_attempt, on_insert_attempt,
    on_update_plan, on_insert_plan, on_update_action, on_insert_action, on_insert_conversation,
    on_update_conversation, on_advance_conversation, on_insert_idempotency, on_append_event,
    on_insert_audit, on_insert_artifact,
  }

  on_update_action_if :
      (action : Option RequiredActionRecord) (e : Option ℕ) (status : RequiredActionStatus)
      → check_action action e ≡ ok tt
      → Keeps P (update_action_if action e status)
  on_update_action_if none none status h = Keeps-pure tt
  on_update_action_if (some action) (some e) status h =
      on_update_action action e status (ground arith)
  on_update_action_if none (some e) status h = Keeps-pure tt
  on_update_action_if (some action) none status h = Keeps-pure tt

  on_create_or_replay :
      (run : RunRecord) (key : Option String) (digest : String) (prior : Option IdempotencyRow)
      → Keeps P (create_or_replay run key digest prior)
  unfolding create_or_replay
  on_create_or_replay run key digest (some prior) = search keeps_rules
  on_create_or_replay run key digest none =
      search (keeps_rules, on_insert_run, on_insert_idempotency)

  on_create_in_conversation :
      (c : ConversationRecord) (run : RunRecord) (key : Option String) (digest : String)
      (prior : Option IdempotencyRow)
      → Keeps P (create_in_conversation c run key digest prior)
  unfolding create_in_conversation
  on_create_in_conversation c run key digest (some prior) = search keeps_rules
  on_create_in_conversation c run key digest none =
      search (keeps_rules, on_insert_run, on_insert_idempotency, on_advance_conversation) depth 12

  pub kept_begin_attempt :
      (run : RunRecord) (attempt : RunAttempt) (e : ℕ) (lease : Option WorkLease)
      (action : Option RequiredActionRecord) (f : Option ℕ)
      → Permit run e
      → Maintains P (begin_attempt run attempt e lease action f)
  unfolding begin_attempt
  kept_begin_attempt run attempt e lease action f allowed =
      Maintains-checked (begin_attempt_checks run e lease action f) _ λ passed.
        let counted : run.revision ≡ e + 1 = ground arith in
        let paired : check_action action f ≡ ok tt = ground arith in
        Maintains-transaction _ (
          search (keeps_rules, allowed, on_update_run, on_insert_attempt, on_update_action_if) depth
            8)

  pub kept_settle_attempt :
      (run : RunRecord) (attempt : RunAttempt) (e f : ℕ) (lease : Option WorkLease)
      (action : Option RequiredActionRecord) (g : Option ℕ)
      → Permit run e
      → Maintains P (settle_attempt run attempt e f lease action g)
  unfolding settle_attempt
  kept_settle_attempt run attempt e f lease action g allowed =
      Maintains-checked (settle_attempt_checks run attempt e f lease action g) _ λ passed.
        let counted : (run.revision ≡ e + 1) × (attempt.revision ≡ f + 1) = ground arith in
        let paired : check_action action g ≡ ok tt = ground arith in
        Maintains-transaction _ (
          search
            (
              keeps_rules, allowed, counted.0, counted.1, on_update_run, on_update_attempt,
              on_update_action_if,
            )
            depth 8)

  pub kept_enter_required_action :
      (action : RequiredActionRecord) (lease : Option WorkLease) (now : ℕ)
      → ((run : RunRecord) → Permit (waiting_run run action.action_id now) run.revision)
      → Maintains P (enter_required_action action lease now)
  unfolding enter_required_action
  kept_enter_required_action action lease now allowed =
      Maintains-checked (enter_checks action lease) _ λ passed. Maintains-transaction _ (
        search (keeps_rules, allowed, on_insert_action, on_update_run_sync, on_update_attempt) depth
          20)

  pub kept_answer_required_action :
      (run : RunRecord) (action : RequiredActionRecord) (e f : ℕ)
      → Permit run e
      → Maintains P (answer_required_action run action e f)
  unfolding answer_required_action
  kept_answer_required_action run action e f allowed =
      Maintains-checked (answer_checks run action e f) _ λ passed.
        let counted : (run.revision ≡ e + 1) × (action.revision ≡ f + 1) = ground arith in
        Maintains-transaction _ (
          search (keeps_rules, allowed, counted.0, counted.1, on_update_action, on_update_run_sync)
            depth 8)

  pub kept_complete_planning :
      (run : RunRecord) (attempt : RunAttempt) (plan : PlanRecord) (action : RequiredActionRecord)
      (e f : ℕ) (lease : Option WorkLease)
      → Permit run e
      → Maintains P (complete_planning run attempt plan action e f lease)
  unfolding complete_planning
  kept_complete_planning run attempt plan action e f lease allowed =
      Maintains-checked (complete_planning_checks run attempt plan action e f lease) _ λ passed.
        let counted : (run.revision ≡ e + 1) × (attempt.revision ≡ f + 1) = ground arith in
        Maintains-transaction _ (
          search
            (
              keeps_rules, allowed, counted.0, counted.1, on_update_attempt, on_update_run,
              on_insert_plan, on_insert_action,
            )
            depth 12)

  pub kept_decide_plan :
      (run : RunRecord) (plan : PlanRecord) (action : RequiredActionRecord) (e f g : ℕ)
      → Permit run e
      → Maintains P (decide_plan run plan action e f g)
  unfolding decide_plan
  kept_decide_plan run plan action e f g allowed =
      Maintains-checked (decide_plan_checks run plan action e f g) _ λ passed.
        let counted : (run.revision ≡ e + 1) × (plan.revision ≡ f + 1) × (action.revision ≡ g + 1) =
          ground arith in
        Maintains-transaction _ (
          search
            (
              keeps_rules, allowed, counted.0, counted.1, counted.2, on_update_plan, on_update_run,
              on_update_action,
            )
            depth 8)

  pub kept_replace_run : (run : RunRecord) (e : ℕ) → Permit run e → Maintains P (replace_run run e)
  unfolding replace_run update_run_sync
  kept_replace_run run e allowed =
      Maintains-checked _ _
        λ passed. Maintains-update_one _ (on_update_run_sync run e (ground arith) allowed).at

  pub kept_replace_attempt :
      (attempt : RunAttempt) (e : ℕ) (lease : Option WorkLease)
      → Maintains P (replace_attempt attempt e lease)
  unfolding replace_attempt update_attempt_sync
  kept_replace_attempt attempt e lease =
      Maintains-checked _ _
        λ passed. Maintains-update_one _ (on_update_attempt attempt e (ground arith)).at

  pub kept_replace_conversation :
      (c : ConversationRecord) (e : ℕ) → Maintains P (replace_conversation c e)
  unfolding replace_conversation update_conversation
  kept_replace_conversation c e =
      Maintains-checked _ _
        λ passed. Maintains-update_one _ (on_update_conversation c e (ground arith)).at

  pub kept_create_conversation_run :
      (id : String) (run : RunRecord) (key : Option String) (digest : String)
      → Maintains P (create_conversation_run id run key digest)
  unfolding create_conversation_run
  kept_create_conversation_run id run key digest =
      Maintains-transaction _ (search (keeps_rules, on_create_in_conversation) depth 20)

  pub kept_create_run :
      (run : RunRecord) (key : Option String) (digest : String)
      → Maintains P (create_run run key digest)
  unfolding create_run
  kept_create_run run key digest =
      Maintains-transaction _ (search (keeps_rules, on_create_or_replay))
