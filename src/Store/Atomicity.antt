-- ===== src/Store/Atomicity.antt =====
-- All or nothing: what an operation that raises leaves behind.
use dsh_base_agent.Prelude.{
  ℕ, ◌≡◌, refl, String, Bool, true, false, Option, none, some, Result, ok, err, Error,
  operational_error, integrity_error, arith,
}
use dsh_base_agent.Models.{RunRecord, ArtifactRecord}
use dsh_base_agent.Store.Connection.{
  SqliteControlStore, Exec, Tx, transaction, autocommit, update_one, unguarded, checked, working,
}
use dsh_base_agent.Store.Connection
use dsh_base_agent.Store.Tables.{Db}
use dsh_base_agent.Store.Conversations.{
  create_conversation, replace_conversation, create_conversation_run,
}
use dsh_base_agent.Store.Runs.{create_run, replace_run}
use dsh_base_agent.Store.Attempts.{begin_attempt, replace_attempt, settle_attempt}
use dsh_base_agent.Store.Actions.{enter_required_action, answer_required_action}
use dsh_base_agent.Store.Plans.{complete_planning, decide_plan}
use dsh_base_agent.Store.Logs.{append_event, append_audit, add_artifact}
use dsh_base_agent.Store.Operation.{Operation, perform, report}

-- `m` commits nothing when it raises, and when no transaction was open, it gives up what it has
-- written before the exception; with `guarded` no transaction is left open by it.
pub record IsAtomic (guarded : Bool) {A : Type 0} (m : Exec A) : Type 0 where
  pub at :
      (s : SqliteControlStore) (e : Error)
      → (report (m s)).0 ≡ some e
      → (report (m s)).1.disk ≡ s.disk
  pub undone :
      (s : SqliteControlStore) (e : Error)
      → s.pending ≡ none
      → (report (m s)).0 ≡ some e
      → working (report (m s)).1 ≡ s.disk
  pub closes :
      (s : SqliteControlStore) → guarded ≡ true → s.pending ≡ none → (report (m s)).1.pending ≡ none

module _ {A : Type 0} (body : Tx A) where
  IsAtomic-transaction : (g : Bool) → IsAtomic g (transaction body)
  unfolding transaction
  IsAtomic-transaction g = record {
    at = λ s e h. ground arith;
    undone = λ s e idle h. ground arith;
    closes = λ s g h. ground arith;
  }

  IsAtomic-autocommit : (g : Bool) → IsAtomic g (autocommit body)
  unfolding autocommit
  IsAtomic-autocommit g = record {
    at = λ s e h. ground arith;
    undone = λ s e idle h. ground arith;
    closes = λ s g h. ground arith;
  }

  IsAtomic-unguarded : IsAtomic false (unguarded body)
  unfolding unguarded
  IsAtomic-unguarded = record {
    at = λ s e h. ground arith;
    undone = λ s e idle h. ground arith;
    closes = λ s g h. cc;
  }

IsAtomic-update_one : (g : Bool) (statement : Db → ℕ × Db) → IsAtomic g (update_one statement)
unfolding update_one
IsAtomic-update_one g statement = record {
  at = λ s e h. ground arith;
  undone = λ s e idle h. ground arith;
  closes = λ s g h. ground arith;
}

IsAtomic-checked :
    {A : Type 0} (g : Bool) (c : Result Error (Unit {0})) (m : Exec A)
    → IsAtomic g m
    → IsAtomic g (checked c m)
IsAtomic-checked g (ok _) m k = k
IsAtomic-checked g (err e) m k = record {
  at = λ s e h. refl;
  undone = λ s e idle h. ground arith;
  closes = λ s g h. h;
}

ruleset atomic_rules = (
  IsAtomic-transaction, IsAtomic-autocommit, IsAtomic-update_one, IsAtomic-unguarded,
  IsAtomic-checked,
)

-- `append_audit` and `add_artifact` have no handler round their INSERT.
abbrev pub is_guarded : Operation → Bool
is_guarded (Operation.append_audit _) = false
is_guarded (Operation.add_artifact _) = false
is_guarded _ = true

record IsAtomicCall (op : Operation) : Type 0 where
  at :
      (s : SqliteControlStore) (e : Error)
      → (perform op s).0 ≡ some e
      → (perform op s).1.disk ≡ s.disk
  undone :
      (s : SqliteControlStore) (e : Error)
      → s.pending ≡ none
      → (perform op s).0 ≡ some e
      → working (perform op s).1 ≡ s.disk
  closes :
      (s : SqliteControlStore)
      → is_guarded op ≡ true
      → s.pending ≡ none
      → (perform op s).1.pending ≡ none

IsAtomicCall-perform : (op : Operation) → IsAtomicCall op
unfolding perform Connection.initialize Connection.close create_conversation replace_conversation
    create_conversation_run create_run replace_run begin_attempt replace_attempt settle_attempt
    enter_required_action answer_required_action complete_planning decide_plan append_event
    append_audit add_artifact
IsAtomicCall-perform Operation.initialize = record {
  at = λ s e h. ground arith;
  undone = λ s e idle h. ground arith;
  closes = λ s g h. ground arith;
}
IsAtomicCall-perform Operation.close = record {
  at = λ s e h. cc;
  undone = λ s e idle h. cc;
  closes = λ s g h. refl;
}
IsAtomicCall-perform (Operation.create_conversation c) =
    let k : IsAtomic true (create_conversation c) = search atomic_rules in
    record { at = k.at; undone = k.undone; closes = k.closes }
IsAtomicCall-perform (Operation.replace_conversation c e) =
    let k : IsAtomic true (replace_conversation c e) = search atomic_rules in
    record { at = k.at; undone = k.undone; closes = k.closes }
IsAtomicCall-perform (Operation.create_conversation_run id run key digest) =
    let k : IsAtomic true (create_conversation_run id run key digest) = search atomic_rules in
    record { at = k.at; undone = k.undone; closes = k.closes }
IsAtomicCall-perform (Operation.create_run run key digest) =
    let k : IsAtomic true (create_run run key digest) = search atomic_rules in
    record { at = k.at; undone = k.undone; closes = k.closes }
IsAtomicCall-perform (Operation.replace_run run e) =
    let k : IsAtomic true (replace_run run e) = search atomic_rules in
    record { at = k.at; undone = k.undone; closes = k.closes }
IsAtomicCall-perform (Operation.begin_attempt run attempt e lease action f) =
    let k : IsAtomic true (begin_attempt run attempt e lease action f) = search atomic_rules in
    record { at = k.at; undone = k.undone; closes = k.closes }
IsAtomicCall-perform (Operation.replace_attempt attempt e lease) =
    let k : IsAtomic true (replace_attempt attempt e lease) = search atomic_rules in
    record { at = k.at; undone = k.undone; closes = k.closes }
IsAtomicCall-perform (Operation.settle_attempt run attempt e f lease action g) =
    let k : IsAtomic true (settle_attempt run attempt e f lease action g) = search atomic_rules in
    record { at = k.at; undone = k.undone; closes = k.closes }
IsAtomicCall-perform (Operation.enter_required_action action lease now) =
    let k : IsAtomic true (enter_required_action action lease now) = search atomic_rules in
    record { at = k.at; undone = k.undone; closes = k.closes }
IsAtomicCall-perform (Operation.answer_required_action run action e f) =
    let k : IsAtomic true (answer_required_action run action e f) = search atomic_rules in
    record { at = k.at; undone = k.undone; closes = k.closes }
IsAtomicCall-perform (Operation.complete_planning run attempt plan action e f lease) =
    let k : IsAtomic true (complete_planning run attempt plan action e f lease) =
      search atomic_rules in
    record { at = k.at; undone = k.undone; closes = k.closes }
IsAtomicCall-perform (Operation.decide_plan run plan action e f g) =
    let k : IsAtomic true (decide_plan run plan action e f g) = search atomic_rules in
    record { at = k.at; undone = k.undone; closes = k.closes }
IsAtomicCall-perform (Operation.append_event run_id attempt_id source kind details event_id now) =
    let k : IsAtomic true (append_event run_id attempt_id source kind details event_id now) =
      search atomic_rules in
    record { at = k.at; undone = k.undone; closes = k.closes }
IsAtomicCall-perform (Operation.append_audit audit) =
    let k : IsAtomic false (append_audit audit) = search atomic_rules in
    record { at = k.at; undone = k.undone; closes = λ s g h. cc }
IsAtomicCall-perform (Operation.add_artifact artifact) =
    let k : IsAtomic false (add_artifact artifact) = search atomic_rules in
    record { at = k.at; undone = k.undone; closes = λ s g h. cc }

-- An operation that is called with no transaction open and raises leaves the committed database as
-- it was, and later statements of the connection see that database too: what the operation has
-- written before the exception is given up.
pub perform_atomic :
    (op : Operation) (s : SqliteControlStore) (e : Error)
    → s.pending ≡ none
    → (perform op s).0 ≡ some e
    → ((perform op s).1.disk ≡ s.disk) × (working (perform op s).1 ≡ s.disk)
perform_atomic op s e idle h = let k = IsAtomicCall-perform op in (k.at s e h, k.undone s e idle h)

pub perform_closes :
    (op : Operation) (s : SqliteControlStore)
    → is_guarded op ≡ true
    → s.pending ≡ none
    → (perform op s).1.pending ≡ none
perform_closes op = (IsAtomicCall-perform op).closes

-- When the INSERT of `add_artifact` is refused, the transaction that it opened stays open, and
-- the next `create_run`, whatever its arguments, raises at its BEGIN and changes nothing.
pub create_run-add_artifact :
    (artifact : ArtifactRecord) (s : SqliteControlStore) (run : RunRecord) (key : Option String)
    (digest : String)
    → (perform (Operation.add_artifact artifact) s).0 ≡ some integrity_error
    → perform (Operation.create_run run key digest) (perform (Operation.add_artifact artifact) s).1
      ≡ (some operational_error, (perform (Operation.add_artifact artifact) s).1)
unfolding perform add_artifact unguarded create_run transaction
create_run-add_artifact artifact s run key digest h = ground arith
