-- ===== src/Store/Conversations.antt =====
-- The operations of `SqliteControlStore` on Conversations.
use dsh_base_agent.Prelude.{
  ℕ, ◌+◌, String, Bool, true, false, ◌&&◌, ◌||◌, Option, none, some, List, [], ◌∷◌, map, Result, ok,
  err, Error, store_error, not_active, identity_mismatch, pending_action, value_error,
  integrity_error, idempotency_conflict, ◌==◌, ◌!=◌, string_eq, nat_eq, option_eq, if◌then◌else◌,
  raise_if,
}
use dsh_base_agent.Prelude.Lists.{any}
use dsh_base_agent.Models.{
  ConversationRecord, ConversationStatus, conversation_status_eq, RunRecord, RunStatus,
  run_status_eq,
}
use dsh_base_agent.Sql.{fetch_one, fetch_all, rowcount, update, insert, has_key, sort_by}
use dsh_base_agent.Store.Tables.{Db, RunRow, IdempotencyRow, conversation_key}
use dsh_base_agent.Store.Connection.{
  Exec, Tx, ◌>>=◌, ◌>>◌, pure, lift, gets, transaction, autocommit, update_one, query, checked,
}
use dsh_base_agent.Store.Statements.{
  get_conversation_sync, get_run_sync, conversation_row, conversation_at, one_row, insert_run,
}

unfoldable pub insert_conversation : ConversationRecord → Tx (Unit {0})
insert_conversation c db =
    if any (has_key conversation_key c.conversation_id) db.conversations
    then err (integrity_error, db)
    else ok (tt, record db { conversations = insert (conversation_row c) db.conversations })

unfoldable pub create_conversation : ConversationRecord → Exec (Unit {0})
unfolding insert_conversation
create_conversation c = autocommit (insert_conversation c)

unfoldable pub get_conversation : String → Exec ConversationRecord
get_conversation id = query (get_conversation_sync id)

-- `WHERE status IN (...)`, or no filter when no status is given
unfoldable pub list_conversations : List ConversationStatus → Exec (List ConversationRecord)
list_conversations [] = query (λ db. ok (map (λ row. row.payload) db.conversations))
list_conversations (status ∷ rest) = query (λ db. ok (
    map (λ row. row.payload)
      (fetch_all (λ row. any (λ s. row.status == s) (status ∷ rest)) db.conversations)))

abbrev pub set_conversation : ConversationRecord → ℕ → Db → ℕ × Db
set_conversation c expected db = (
  rowcount (conversation_at c.conversation_id expected) db.conversations,
  record db {
    conversations =
        update (conversation_at c.conversation_id expected)
          (λ row. record row {
            tenant_id = c.tenant_id;
            principal_id = c.principal_id;
            status = c.status;
            next_sequence = c.next_sequence;
            revision = c.revision;
            payload = c;
          })
          db.conversations;
  },
)

-- the same UPDATE, which raises on a conflict
unfoldable pub update_conversation : ConversationRecord → ℕ → Tx (Unit {0})
update_conversation c expected db = one_row (set_conversation c expected db)

unfoldable pub replace_conversation : ConversationRecord → ℕ → Exec (Unit {0})
replace_conversation c expected =
    checked (raise_if (c.revision != expected + 1) value_error)
      (update_one (set_conversation c expected))

-- the row of an idempotency key
abbrev pub is_prior : String → String → IdempotencyRow → Bool
is_prior tenant_id key row = row.tenant_id == tenant_id && row.idempotency_key == key

abbrev pub find_prior : String → Option String → Db → Option IdempotencyRow
find_prior tenant_id none db = none
find_prior tenant_id (some key) db = fetch_one (is_prior tenant_id key) db.run_idempotency

-- The foreign key to `runs` holds: the row of the Run stands in the same transaction.
abbrev pub insert_idempotency : String → String → String → String → Tx (Unit {0})
insert_idempotency tenant_id key digest run_id db =
    if any (is_prior tenant_id key) db.run_idempotency
    then err (integrity_error, db)
    else ok (
      tt,
      record db {
        run_idempotency =
            insert
              (record {
                tenant_id = tenant_id;
                idempotency_key = key;
                request_digest = digest;
                run_id = run_id;
              })
              db.run_idempotency;
      },
    )

abbrev pub insert_idempotency_of : RunRecord → Option String → String → Tx (Unit {0})
insert_idempotency_of run none digest db = ok (tt, db)
insert_idempotency_of run (some key) digest db =
    insert_idempotency run.tenant_id key digest run.run_id db

-- The first answer to a request is returned again; another request under its key is refused.
abbrev pub replay_prior : IdempotencyRow → String → Tx (RunRecord × Bool)
replay_prior prior digest = do
  lift (raise_if (prior.request_digest != digest) idempotency_conflict)
  db ← gets (λ db. db)
  existing ← lift (get_run_sync prior.run_id db)
  pure (existing, false)

-- A waiting Run of the Conversation, by the `status` column and the payload.
abbrev pub is_waiting_in : String → RunRow → Bool
is_waiting_in id row = row.status == RunStatus.waiting && row.payload.conversation_id == some id

-- This UPDATE leaves `tenant_id` and `principal_id`, and its `rowcount` is not read.
unfoldable pub advance_conversation : ConversationRecord → ℕ → Tx (Unit {0})
advance_conversation updated expected db = ok (
  tt,
  record db {
    conversations =
        update (conversation_at updated.conversation_id expected)
          (λ row. record row {
            status = updated.status;
            next_sequence = updated.next_sequence;
            revision = updated.revision;
            payload = updated;
          })
          db.conversations;
  },
)

unfoldable pub persist_run :
    ConversationRecord → RunRecord → Option String → String → Tx (RunRecord × Bool)
unfolding advance_conversation
persist_run c run key digest = do
  let persisted = record run {
    conversation_id = some c.conversation_id;
    sequence = some c.next_sequence;
  }
  advance_conversation
      (record c {
        next_sequence = c.next_sequence + 1;
        revision = c.revision + 1;
        updated_at = run.created_at;
      })
      c.revision
  insert_run persisted
  insert_idempotency_of persisted key digest
  pure (persisted, true)

-- what follows the lookup of the idempotency key
unfoldable pub create_in_conversation :
    ConversationRecord
    → RunRecord
    → Option String
    → String
    → Option IdempotencyRow
    → Tx (RunRecord × Bool)
unfolding persist_run
create_in_conversation c run key digest (some prior) = replay_prior prior digest
create_in_conversation c run key digest none = do
  blocked ← gets (λ db. any (is_waiting_in c.conversation_id) db.runs)
  lift (raise_if blocked (store_error pending_action))
  persist_run c run key digest

unfoldable pub create_conversation_run_body :
    String → RunRecord → Option String → String → Tx (RunRecord × Bool)
unfolding create_in_conversation
create_conversation_run_body id run key digest = do
  db ← gets (λ db. db)
  c ← lift (get_conversation_sync id db)
  lift (raise_if (c.status != ConversationStatus.active) (store_error not_active))
  lift (
      raise_if
        (run.tenant_id != c.tenant_id
          || run.principal_id != c.principal_id
          || run.agent_id != c.agent_id
          || run.agent_fingerprint != c.agent_fingerprint)
        (store_error identity_mismatch))
  create_in_conversation c run key digest (find_prior run.tenant_id key db)

unfoldable pub create_conversation_run :
    String → RunRecord → Option String → String → Exec (RunRecord × Bool)
unfolding create_conversation_run_body
create_conversation_run id run key digest =
    transaction (create_conversation_run_body id run key digest)

-- `key=lambda run: run.sequence or 0`
abbrev pub sequence_key : RunRecord → ℕ
sequence_key run = elim run.sequence [ none ↦ 0 | some n ↦ n ]

abbrev pub runs_of : String → Db → List RunRecord
runs_of id db = fetch_all (λ run. run.conversation_id == some id) (map (λ row. row.payload) db.runs)

unfoldable pub list_conversation_runs : String → Exec (List RunRecord)
list_conversation_runs id = query (λ db. known_runs (get_conversation_sync id db) db)
  where
    known_runs : Result Error ConversationRecord → Db → Result Error (List RunRecord)
    known_runs (ok _) db = ok (sort_by sequence_key (runs_of id db))
    known_runs (err e) db = err e
