-- ===== src/Store/Settled.antt =====
-- Between two calls no open transaction has changed anything: what the connection sees is what is
-- committed.
use dsh_base_agent.Prelude.{
  ◌≡◌, refl, Option, none, some, Result, ok, err, Error, arith, Bool, subst, sym, ℕ,
}
use dsh_base_agent.Store.Tables.{Db}
use dsh_base_agent.Store.Connection.{
  SqliteControlStore, Exec, Tx, transaction, autocommit, update_one, unguarded, checked, working,
}
use dsh_base_agent.Store.Connection
use dsh_base_agent.Store.Conversations.{
  create_conversation, replace_conversation, create_conversation_run,
}
use dsh_base_agent.Store.Runs.{create_run, replace_run}
use dsh_base_agent.Store.Attempts.{begin_attempt, replace_attempt, settle_attempt}
use dsh_base_agent.Store.Actions.{enter_required_action, answer_required_action}
use dsh_base_agent.Store.Plans.{complete_planning, decide_plan}
use dsh_base_agent.Store.Logs.{append_event, append_audit, add_artifact}
use dsh_base_agent.Store.Operation.{Operation, perform, report}
use dsh_base_agent.Store.Preservation.Calls.{IsCall}

abbrev pub IsSettled : SqliteControlStore → Type 0
IsSettled s = working s ≡ s.disk

record Settles {A : Type 0} (m : Exec A) : Type 0 where
  at : (s : SqliteControlStore) → IsSettled s → IsSettled (report (m s)).1

-- by the transaction that is open before
split :
    {A : Type 0} (m : Exec A)
    → ((disk : Db) (connected : Bool)
        → IsSettled (report (m (record { disk = disk; connected = connected; pending = none }))).1)
    → ((disk : Db) (connected : Bool)
        → IsSettled
            (report (m (record { disk = disk; connected = connected; pending = some disk }))).1)
    → Settles m
split m closed open_ = record { at = λ s h. by_pending s.disk s.connected s.pending h }
  where
    by_pending :
        (disk : Db) (connected : Bool) (pending : Option Db)
        → IsSettled (record { disk = disk; connected = connected; pending = pending })
        → IsSettled
            (report (m (record { disk = disk; connected = connected; pending = pending }))).1
    by_pending disk connected none h = closed disk connected
    by_pending disk connected (some db) h =
        subst
          (λ p.
            IsSettled
              (report (m (record { disk = disk; connected = connected; pending = some p }))).1)
          (sym h) (open_ disk connected)

Settles-update_one : (statement : Db → ℕ × Db) → Settles (update_one statement)
unfolding update_one
Settles-update_one statement =
    split _ (λ disk connected. ground arith) (λ disk connected. ground arith)

module _ {A : Type 0} (body : Tx A) where
  Settles-transaction : Settles (transaction body)
  unfolding transaction
  Settles-transaction = split _ (λ disk connected. ground arith) (λ disk connected. ground arith)

  Settles-autocommit : Settles (autocommit body)
  unfolding autocommit
  Settles-autocommit = split _ (λ disk connected. ground arith) (λ disk connected. ground arith)

  Settles-unguarded : Settles (unguarded body)
  unfolding unguarded
  Settles-unguarded = split _ (λ disk connected. ground arith) (λ disk connected. ground arith)

Settles-checked :
    {A : Type 0} (c : Result Error (Unit {0})) (m : Exec A) → Settles m → Settles (checked c m)
Settles-checked (ok _) m k = k
Settles-checked (err e) m k = record { at = λ s h. h }

ruleset settled_rules = (
  Settles-transaction, Settles-autocommit, Settles-update_one, Settles-unguarded, Settles-checked,
)

pub perform-IsSettled :
    (op : Operation)
    → IsCall op
    → (s : SqliteControlStore) → IsSettled s
    → IsSettled (perform op s).1
unfolding perform Connection.initialize Connection.close create_conversation replace_conversation
    create_conversation_run create_run replace_run begin_attempt replace_attempt settle_attempt
    enter_required_action answer_required_action complete_planning decide_plan append_event
    append_audit add_artifact
perform-IsSettled Operation.initialize c s h = absurd c
perform-IsSettled Operation.close c s h = refl
perform-IsSettled (Operation.create_conversation c) _ s h =
    let k : Settles (create_conversation c) = search settled_rules in k.at s h
perform-IsSettled (Operation.replace_conversation c e) _ s h =
    let k : Settles (replace_conversation c e) = search settled_rules in k.at s h
perform-IsSettled (Operation.create_conversation_run id run key digest) _ s h =
    let k : Settles (create_conversation_run id run key digest) = search settled_rules in k.at s h
perform-IsSettled (Operation.create_run run key digest) _ s h =
    let k : Settles (create_run run key digest) = search settled_rules in k.at s h
perform-IsSettled (Operation.replace_run run e) _ s h =
    let k : Settles (replace_run run e) = search settled_rules in k.at s h
perform-IsSettled (Operation.begin_attempt run attempt e lease action f) _ s h =
    let k : Settles (begin_attempt run attempt e lease action f) = search settled_rules in k.at s h
perform-IsSettled (Operation.replace_attempt attempt e lease) _ s h =
    let k : Settles (replace_attempt attempt e lease) = search settled_rules in k.at s h
perform-IsSettled (Operation.settle_attempt run attempt e f lease action g) _ s h =
    let k : Settles (settle_attempt run attempt e f lease action g) = search settled_rules in
    k.at s h
perform-IsSettled (Operation.enter_required_action action lease now) _ s h =
    let k : Settles (enter_required_action action lease now) = search settled_rules in k.at s h
perform-IsSettled (Operation.answer_required_action run action e f) _ s h =
    let k : Settles (answer_required_action run action e f) = search settled_rules in k.at s h
perform-IsSettled (Operation.complete_planning run attempt plan action e f lease) _ s h =
    let k : Settles (complete_planning run attempt plan action e f lease) = search settled_rules in
    k.at s h
perform-IsSettled (Operation.decide_plan run plan action e f g) _ s h =
    let k : Settles (decide_plan run plan action e f g) = search settled_rules in k.at s h
perform-IsSettled (Operation.append_event run_id attempt_id source kind details event_id now) _ s
      h =
    let k : Settles (append_event run_id attempt_id source kind details event_id now) =
      search settled_rules in
    k.at s h
perform-IsSettled (Operation.append_audit audit) _ s h =
    let k : Settles (append_audit audit) = search settled_rules in k.at s h
perform-IsSettled (Operation.add_artifact artifact) _ s h =
    let k : Settles (add_artifact artifact) = search settled_rules in k.at s h
