-- ===== src/Store/Consistency/Records.antt =====
-- The statements on attempts, plans, required actions and the other tables keep the
-- well-formedness.
use dsh_base_agent.Prelude.{ℕ, refl, ◌&&◌, arith, string_eq, nat_eq, ◌==◌}
use dsh_base_agent.Models.{RunAttempt, PlanRecord, action_status_eq}
use dsh_base_agent.Sql.{has_key}
use dsh_base_agent.Sql.Rows.{All-insert, All-update}
use dsh_base_agent.Sql.Keys.{IsTable-insert, IsTable-update, IsKeyed-insert, IsKeyed-update}
use dsh_base_agent.Store.Tables.{attempt_key, plan_key}
use dsh_base_agent.Store.Statements.{
  attempt_row, plan_at, plan_row, update_attempt_sync, update_plan, insert_attempt, insert_plan,
}
use dsh_base_agent.Store.Keeps.{OnOk-one_row, OnOk-insert, Keeps}
use dsh_base_agent.Store.Consistency.{AgreesAttempt, AgreesPlan, IsConsistent, plan_run}

module _ (attempt : RunAttempt) where
  pub Keeps-update_attempt_sync :
      (expected : ℕ) → Keeps IsConsistent (update_attempt_sync attempt expected)
  unfolding update_attempt_sync
  Keeps-update_attempt_sync expected = record {
    at = λ db h. OnOk-one_row IsConsistent _ _ (record {
      conversations = h.conversations;
      runs = h.runs;
      run_attempts =
          IsTable-update attempt_key AgreesAttempt attempt.attempt_id
            (λ row. row.revision == expected) _ db.run_attempts (λ row. refl)
            (λ row e. record { id = e; status = refl; revision = refl }) h.run_attempts;
      attempts_of_runs =
          All-update _
            (λ row. has_key attempt_key attempt.attempt_id row && row.revision == expected) _
            (λ row there _. there) db.run_attempts h.attempts_of_runs;
      plans = h.plans;
      plans_of_runs = h.plans_of_runs;
      one_plan = h.one_plan;
      required_actions = h.required_actions;
      actions_of_runs = h.actions_of_runs;
      one_pending_action = h.one_pending_action;
      events_of_runs = h.events_of_runs;
      artifacts_of_runs = h.artifacts_of_runs;
    });
  }

  pub Keeps-insert_attempt : Keeps IsConsistent (insert_attempt attempt)
  unfolding insert_attempt
  Keeps-insert_attempt = record {
    at = λ db h. OnOk-insert _ IsConsistent _ _ (λ fresh. record {
      conversations = h.conversations;
      runs = h.runs;
      run_attempts =
          IsTable-insert attempt_key AgreesAttempt (attempt_row attempt) db.run_attempts
            (ground arith) (record { id = refl; status = refl; revision = refl }) h.run_attempts;
      attempts_of_runs =
          All-insert _ (attempt_row attempt) db.run_attempts h.attempts_of_runs (ground arith);
      plans = h.plans;
      plans_of_runs = h.plans_of_runs;
      one_plan = h.one_plan;
      required_actions = h.required_actions;
      actions_of_runs = h.actions_of_runs;
      one_pending_action = h.one_pending_action;
      events_of_runs = h.events_of_runs;
      artifacts_of_runs = h.artifacts_of_runs;
    });
  }

module _ (plan : PlanRecord) where
  pub Keeps-update_plan : (expected : ℕ) → Keeps IsConsistent (update_plan plan expected)
  unfolding update_plan
  Keeps-update_plan expected = record {
    at = λ db h. OnOk-one_row IsConsistent _ _ (record {
      conversations = h.conversations;
      runs = h.runs;
      run_attempts = h.run_attempts;
      attempts_of_runs = h.attempts_of_runs;
      plans =
          IsTable-update plan_key AgreesPlan plan.plan_id (λ row. row.revision == expected) _
            db.plans (λ row. refl) (λ row e. record { id = e; status = refl; revision = refl })
            h.plans;
      plans_of_runs =
          All-update _ (λ row. has_key plan_key plan.plan_id row && row.revision == expected) _
            (λ row there _. there) db.plans h.plans_of_runs;
      one_plan =
          IsKeyed-update plan_run (plan_at plan.plan_id expected) _ (λ row. refl) db.plans
            h.one_plan;
      required_actions = h.required_actions;
      actions_of_runs = h.actions_of_runs;
      one_pending_action = h.one_pending_action;
      events_of_runs = h.events_of_runs;
      artifacts_of_runs = h.artifacts_of_runs;
    });
  }

  pub Keeps-insert_plan : Keeps IsConsistent (insert_plan plan)
  unfolding insert_plan
  Keeps-insert_plan = record {
    at = λ db h. OnOk-insert _ IsConsistent _ _ (λ fresh. record {
      conversations = h.conversations;
      runs = h.runs;
      run_attempts = h.run_attempts;
      attempts_of_runs = h.attempts_of_runs;
      plans =
          IsTable-insert plan_key AgreesPlan (plan_row plan) db.plans (ground arith)
            (record { id = refl; status = refl; revision = refl }) h.plans;
      plans_of_runs = All-insert _ (plan_row plan) db.plans h.plans_of_runs (ground arith);
      one_plan = IsKeyed-insert plan_run (plan_row plan) db.plans h.one_plan (ground arith);
      required_actions = h.required_actions;
      actions_of_runs = h.actions_of_runs;
      one_pending_action = h.one_pending_action;
      events_of_runs = h.events_of_runs;
      artifacts_of_runs = h.artifacts_of_runs;
    });
  }
