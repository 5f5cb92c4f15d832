-- ===== src/Store/Consistency/Others.antt =====
-- The statements on required actions and Conversations keep the well-formedness.
use dsh_base_agent.Prelude.{ℕ, refl, ◌&&◌, arith, string_eq, nat_eq, ◌==◌}
use dsh_base_agent.Models.{
  ConversationRecord, RequiredActionRecord, RequiredActionStatus, action_status_eq,
}
use dsh_base_agent.Sql.Rows.{All-insert, All-update}
use dsh_base_agent.Sql.Keys.{IsTable-insert, IsTable-update}
use dsh_base_agent.Store.Tables.{conversation_key, action_key}
use dsh_base_agent.Store.Statements.{
  action_at, action_row, set_action, conversation_row, update_action, insert_action, one_pending,
}
use dsh_base_agent.Store.Keeps.{OnOk-one_row, OnOk-insert, OnOk-if, Keeps}
use dsh_base_agent.Store.Consistency.{AgreesConversation, AgreesAction, IsConsistent}
use dsh_base_agent.Store.Conversations.{
  insert_conversation, update_conversation, advance_conversation,
}

module _ (action : RequiredActionRecord) where
  pub Keeps-update_action :
      (expected : ℕ) (status : RequiredActionStatus)
      → Keeps IsConsistent (update_action action expected status)
  unfolding update_action
  Keeps-update_action expected status = record {
    at = λ db h.
        OnOk-if _ IsConsistent (one_pending (set_action action expected status db.required_actions))
          _
          (λ pending. OnOk-one_row IsConsistent _ _ (record {
            conversations = h.conversations;
            runs = h.runs;
            run_attempts = h.run_attempts;
            attempts_of_runs = h.attempts_of_runs;
            plans = h.plans;
            plans_of_runs = h.plans_of_runs;
            one_plan = h.one_plan;
            required_actions =
                IsTable-update action_key AgreesAction action.action_id
                  (λ row. row.revision == expected && row.status == status) _ db.required_actions
                  (λ row. refl) (λ row e. record { id = e; status = refl; revision = refl })
                  h.required_actions;
            actions_of_runs =
                All-update _ (action_at action.action_id expected status) _ (λ row there _. there)
                  db.required_actions h.actions_of_runs;
            one_pending_action = pending;
            events_of_runs = h.events_of_runs;
            artifacts_of_runs = h.artifacts_of_runs;
          }));
  }

  pub Keeps-insert_action : Keeps IsConsistent (insert_action action)
  unfolding insert_action
  Keeps-insert_action = record {
    at = λ db h. OnOk-insert _ IsConsistent _ _ (λ fresh. record {
      conversations = h.conversations;
      runs = h.runs;
      run_attempts = h.run_attempts;
      attempts_of_runs = h.attempts_of_runs;
      plans = h.plans;
      plans_of_runs = h.plans_of_runs;
      one_plan = h.one_plan;
      required_actions =
          IsTable-insert action_key AgreesAction (action_row action) db.required_actions
            (ground arith) (record { id = refl; status = refl; revision = refl })
            h.required_actions;
      actions_of_runs =
          All-insert _ (action_row action) db.required_actions h.actions_of_runs (ground arith);
      one_pending_action = ground arith;
      events_of_runs = h.events_of_runs;
      artifacts_of_runs = h.artifacts_of_runs;
    });
  }

module _ (c : ConversationRecord) where
  pub Keeps-insert_conversation : Keeps IsConsistent (insert_conversation c)
  unfolding insert_conversation
  Keeps-insert_conversation = record {
    at = λ db h. OnOk-insert _ IsConsistent _ _ (λ fresh. record {
      conversations =
          IsTable-insert conversation_key AgreesConversation (conversation_row c) db.conversations
            fresh (record { id = refl; status = refl; next_sequence = refl; revision = refl })
            h.conversations;
      runs = h.runs;
      run_attempts = h.run_attempts;
      attempts_of_runs = h.attempts_of_runs;
      plans = h.plans;
      plans_of_runs = h.plans_of_runs;
      one_plan = h.one_plan;
      required_actions = h.required_actions;
      actions_of_runs = h.actions_of_runs;
      one_pending_action = h.one_pending_action;
      events_of_runs = h.events_of_runs;
      artifacts_of_runs = h.artifacts_of_runs;
    });
  }

  pub Keeps-update_conversation :
      (expected : ℕ) → Keeps IsConsistent (update_conversation c expected)
  unfolding update_conversation
  Keeps-update_conversation expected = record {
    at = λ db h. OnOk-one_row IsConsistent _ _ (record {
      conversations =
          IsTable-update conversation_key AgreesConversation c.conversation_id
            (λ row. row.revision == expected) _ db.conversations (λ row. refl)
            (λ row e. record { id = e; status = refl; next_sequence = refl; revision = refl })
            h.conversations;
      runs = h.runs;
      run_attempts = h.run_attempts;
      attempts_of_runs = h.attempts_of_runs;
      plans = h.plans;
      plans_of_runs = h.plans_of_runs;
      one_plan = h.one_plan;
      required_actions = h.required_actions;
      actions_of_runs = h.actions_of_runs;
      one_pending_action = h.one_pending_action;
      events_of_runs = h.events_of_runs;
      artifacts_of_runs = h.artifacts_of_runs;
    });
  }

  pub Keeps-advance_conversation :
      (expected : ℕ) → Keeps IsConsistent (advance_conversation c expected)
  unfolding advance_conversation
  Keeps-advance_conversation expected = record {
    at = λ db h. record {
      conversations =
          IsTable-update conversation_key AgreesConversation c.conversation_id
            (λ row. row.revision == expected) _ db.conversations (λ row. refl)
            (λ row e. record { id = e; status = refl; next_sequence = refl; revision = refl })
            h.conversations;
      runs = h.runs;
      run_attempts = h.run_attempts;
      attempts_of_runs = h.attempts_of_runs;
      plans = h.plans;
      plans_of_runs = h.plans_of_runs;
      one_plan = h.one_plan;
      required_actions = h.required_actions;
      actions_of_runs = h.actions_of_runs;
      one_pending_action = h.one_pending_action;
      events_of_runs = h.events_of_runs;
      artifacts_of_runs = h.artifacts_of_runs;
    };
  }
