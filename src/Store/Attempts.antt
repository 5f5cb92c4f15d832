-- ===== src/Store/Attempts.antt =====
-- The operations of `SqliteControlStore` on the attempts of a Run.
use dsh_base_agent.Prelude.{
  ℕ, ◌+◌, String, Option, none, some, List, [], ◌∷◌, map, Result, ok, err, Error, store_error,
  requires_postgres, value_error, ◌==◌, ◌!=◌, string_eq, nat_eq, raise_if, in_order,
}
use dsh_base_agent.Models.{
  RunRecord, RunAttempt, RequiredActionRecord, RequiredActionStatus, WorkLease,
}
use dsh_base_agent.Sql.{fetch_all, sort_by}
use dsh_base_agent.Store.Connection.{Exec, Tx, ◌>>◌, pure, transaction, update_one, query, checked}
use dsh_base_agent.Store.Statements.{
  get_attempt_sync, update_run, set_attempt, update_attempt_sync, update_action, insert_attempt,
}

-- Worker fencing is refused: `if lease is not None: raise StoreError`.
abbrev pub refuse_lease : Option WorkLease → Result Error (Unit {0})
refuse_lease none = ok tt
refuse_lease (some _) = err (store_error requires_postgres)

-- An Action and its expected revision come together, and the revision counts on by one.
abbrev pub check_action : Option RequiredActionRecord → Option ℕ → Result Error (Unit {0})
check_action none none = ok tt
check_action (some action) (some expected) = raise_if (action.revision != expected + 1) value_error
check_action _ _ = err value_error

abbrev pub update_action_if :
    Option RequiredActionRecord → Option ℕ → RequiredActionStatus → Tx (Unit {0})
update_action_if (some action) (some expected) status = update_action action expected status
update_action_if _ _ status = pure tt

abbrev pub begin_attempt_checks :
    RunRecord
    → ℕ
    → Option WorkLease
    → Option RequiredActionRecord
    → Option ℕ
    → Result Error (Unit {0})
begin_attempt_checks run expected_run lease action expected_action = in_order (
    refuse_lease lease
    ∷ raise_if (run.revision != expected_run + 1) value_error
    ∷ check_action action expected_action
    ∷ [])

unfoldable pub begin_attempt :
    RunRecord
    → RunAttempt
    → ℕ
    → Option WorkLease
    → Option RequiredActionRecord
    → Option ℕ
    → Exec (Unit {0})
begin_attempt run attempt expected_run lease consumed expected_action =
    checked (begin_attempt_checks run expected_run lease consumed expected_action) (
      transaction (do
        update_run run expected_run
        insert_attempt attempt
        update_action_if consumed expected_action RequiredActionStatus.answered))

unfoldable pub get_attempt : String → Exec RunAttempt
get_attempt id = query (get_attempt_sync id)

unfoldable pub replace_attempt : RunAttempt → ℕ → Option WorkLease → Exec (Unit {0})
replace_attempt attempt expected lease =
    checked
      (in_order (refuse_lease lease ∷ raise_if (attempt.revision != expected + 1) value_error ∷ []))
      (update_one (set_attempt attempt expected))

abbrev pub settle_attempt_checks :
    RunRecord
    → RunAttempt
    → ℕ
    → ℕ
    → Option WorkLease
    → Option RequiredActionRecord
    → Option ℕ
    → Result Error (Unit {0})
settle_attempt_checks run attempt expected_run expected_attempt lease action expected_action =
    in_order (
      refuse_lease lease
      ∷ raise_if (run.revision != expected_run + 1) value_error
      ∷ raise_if (attempt.revision != expected_attempt + 1) value_error
      ∷ check_action action expected_action
      ∷ [])

unfoldable pub settle_attempt :
    RunRecord
    → RunAttempt
    → ℕ
    → ℕ
    → Option WorkLease
    → Option RequiredActionRecord
    → Option ℕ
    → Exec (Unit {0})
settle_attempt run attempt expected_run expected_attempt lease settled expected_action =
    checked
      (settle_attempt_checks run attempt expected_run expected_attempt lease settled
        expected_action)
      (transaction (do
        update_attempt_sync attempt expected_attempt
        update_run run expected_run
        update_action_if settled expected_action RequiredActionStatus.pending))

unfoldable pub list_attempts : String → Exec (List RunAttempt)
list_attempts run_id = query (λ db. ok (
    map (λ row. row.payload)
      (sort_by (λ row. row.number) (fetch_all (λ row. row.run_id == run_id) db.run_attempts))))
