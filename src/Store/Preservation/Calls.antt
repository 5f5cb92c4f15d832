-- ===== src/Store/Preservation/Calls.antt =====
-- From the operations to calls and to histories of calls.
use dsh_base_agent.Prelude.{ℕ, List, [], ◌∷◌, Result, ok, err, Error, nat_eq}
use dsh_base_agent.Prelude.Lists.{All}
use dsh_base_agent.Models.{RunRecord}
use dsh_base_agent.Store.Tables.{Db}
use dsh_base_agent.Store.Connection.{SqliteControlStore, Exec}
use dsh_base_agent.Store.Connection
use dsh_base_agent.Store.Conversations.{create_conversation}
use dsh_base_agent.Store.Logs.{append_event, append_audit, add_artifact}
use dsh_base_agent.Store.Operation.{Operation, report, perform, perform_all}
use dsh_base_agent.Store.Keeps.{
  Holds, Maintains, Maintains-transaction, Maintains-autocommit, Maintains-unguarded,
}
use dsh_base_agent.Store.Preservation.{KeptByStatements}
use dsh_base_agent.Store.Actions.{waiting_run}
use dsh_base_agent.Store.Preservation.Operations.{
  kept_begin_attempt, kept_settle_attempt, kept_enter_required_action, kept_answer_required_action,
  kept_complete_planning, kept_decide_plan, kept_replace_run, kept_replace_attempt,
  kept_replace_conversation, kept_create_conversation_run, kept_create_run,
}

-- Every method but `initialize`, which migrates old rows.
abbrev pub IsCall : Operation → Type 0
IsCall Operation.initialize = ⊥
IsCall _ = Unit

-- The Run that a call writes over a stored one is permitted.
abbrev pub IsPermitted : (RunRecord → ℕ → Type 0) → Operation → Type 0
IsPermitted Permit Operation.initialize = ⊥
IsPermitted Permit (Operation.replace_run run e) = Permit run e
IsPermitted Permit (Operation.begin_attempt run _ e _ _ _) = Permit run e
IsPermitted Permit (Operation.settle_attempt run _ e _ _ _ _) = Permit run e
IsPermitted Permit (Operation.enter_required_action action _ now) =
    (run : RunRecord) → Permit (waiting_run run action.action_id now) run.revision
IsPermitted Permit (Operation.answer_required_action run _ e _) = Permit run e
IsPermitted Permit (Operation.complete_planning run _ _ _ e _ _) = Permit run e
IsPermitted Permit (Operation.decide_plan run _ _ e _ _) = Permit run e
IsPermitted Permit _ = Unit

abbrev pub Anything : RunRecord → ℕ → Type 0
Anything run e = Unit

IsCall-IsPermitted : (op : Operation) → IsCall op → IsPermitted Anything op
IsCall-IsPermitted Operation.initialize c = c
IsCall-IsPermitted (Operation.enter_required_action action lease now) c = λ run. tt
IsCall-IsPermitted op c = tt

module _ {Permit : RunRecord → ℕ → Type 0} {P : Db → Type 0} (k : KeptByStatements Permit P) where
  open k use {on_insert_conversation, on_append_event, on_insert_audit, on_insert_artifact}

  of_report :
      {A : Type 0} (r : Result Error A) (s : SqliteControlStore)
      → Holds P s
      → Holds P (report (r, s)).1
  of_report (ok a) s h = h
  of_report (err e) s h = h

  reported :
      {A : Type 0} (m : Exec A)
      → Maintains P m
      → (s : SqliteControlStore) → Holds P s
      → Holds P (report (m s)).1
  reported m kept s h = of_report (m s).0 (m s).1 (kept.at s h)

  pub Holds-permitted :
      (op : Operation)
      → IsPermitted Permit op
      → (s : SqliteControlStore) → Holds P s
      → Holds P (perform op s).1
  unfolding perform create_conversation append_event append_audit add_artifact Connection.close
  Holds-permitted Operation.initialize c s h = absurd c
  Holds-permitted Operation.close c s h = record { on_disk = h.on_disk; in_working = h.on_disk }
  Holds-permitted (Operation.create_conversation c) _ s h =
      reported (create_conversation c) (Maintains-autocommit _ (on_insert_conversation c)) s h
  Holds-permitted (Operation.replace_conversation c e) _ s h =
      reported _ (kept_replace_conversation k c e) s h
  Holds-permitted (Operation.create_conversation_run id run key digest) _ s h =
      reported _ (kept_create_conversation_run k id run key digest) s h
  Holds-permitted (Operation.create_run run key digest) _ s h =
      reported _ (kept_create_run k run key digest) s h
  Holds-permitted (Operation.replace_run run e) allowed s h =
      reported _ (kept_replace_run k run e allowed) s h
  Holds-permitted (Operation.begin_attempt run attempt e lease action f) allowed s h =
      reported _ (kept_begin_attempt k run attempt e lease action f allowed) s h
  Holds-permitted (Operation.replace_attempt attempt e lease) _ s h =
      reported _ (kept_replace_attempt k attempt e lease) s h
  Holds-permitted (Operation.settle_attempt run attempt e f lease action g) allowed s h =
      reported _ (kept_settle_attempt k run attempt e f lease action g allowed) s h
  Holds-permitted (Operation.enter_required_action action lease now) allowed s h =
      reported _ (kept_enter_required_action k action lease now allowed) s h
  Holds-permitted (Operation.answer_required_action run action e f) allowed s h =
      reported _ (kept_answer_required_action k run action e f allowed) s h
  Holds-permitted (Operation.complete_planning run attempt plan action e f lease) allowed s h =
      reported _ (kept_complete_planning k run attempt plan action e f lease allowed) s h
  Holds-permitted (Operation.decide_plan run plan action e f g) allowed s h =
      reported _ (kept_decide_plan k run plan action e f g allowed) s h
  Holds-permitted (Operation.append_event run_id attempt_id source kind details event_id now) _ s
        h =
      reported (append_event run_id attempt_id source kind details event_id now)
        (Maintains-transaction _
          (on_append_event run_id attempt_id source kind details event_id now))
        s h
  Holds-permitted (Operation.append_audit audit) _ s h =
      reported (append_audit audit) (Maintains-unguarded _ (on_insert_audit audit)) s h
  Holds-permitted (Operation.add_artifact artifact) _ s h =
      reported (add_artifact artifact) (Maintains-unguarded _ (on_insert_artifact artifact)) s h

module _ {P : Db → Type 0} (k : KeptByStatements Anything P) where
  pub Holds-perform :
      (op : Operation) → IsCall op → (s : SqliteControlStore) → Holds P s → Holds P (perform op s).1
  Holds-perform op c s h = Holds-permitted k op (IsCall-IsPermitted op c) s h

  pub Holds-perform_all :
      (ops : List Operation)
      → All IsCall ops
      → (s : SqliteControlStore) → Holds P s
      → Holds P (perform_all ops s)
  unfolding perform_all
  Holds-perform_all [] c s h = h
  Holds-perform_all (op ∷ ops) c s h =
      Holds-perform_all ops c.1 (perform op s).1 (Holds-perform op c.0 s h)
