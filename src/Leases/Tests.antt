-- ===== src/Leases/Tests.antt =====
-- The theorems on leases for two Workers that claim one Run in turn.
use dsh_base_agent.Prelude.{
  ℕ, ◌<◌, ◌≡◌, refl, String, false, none, some, List, [], ◌∷◌, err, lease_lost, arith,
}
use dsh_base_agent.Models.{RunRecord, RunStatus, WorkLease, WorkResourceType}
use dsh_base_agent.Leases.Table.{
  LeaseRow, Resource, resource_eq, lease_resource, take_lease, renew_lease, release_lease,
  expire_lease, assert_lease,
}
use dsh_base_agent.Leases.History.{Statement, execute, execute_all}
use dsh_base_agent.Leases.Fencing.{take_lease-take_lease, take_lease-assert_lease}
use dsh_base_agent.Prelude.Text.{is_space, lstrip, rstrip, strip}
use dsh_base_agent.Sql.{sort_by, insert_by}
use dsh_base_agent.Store.Samples.{run}
use dsh_base_agent.Leases.Claims.{Queue, candidates, take_first, claim_work}
use dsh_base_agent.Leases.Granting.{IsClaimable, claim_work-resource}
use dsh_base_agent.Leases.Exclusion.{assert_lease-take_lease, assert_lease-assert_lease}

-- what the tests compute with
abbrev program : Unit {0}
unfolding take_lease renew_lease release_lease expire_lease assert_lease execute execute_all
    claim_work candidates take_first is_space lstrip rstrip strip sort_by insert_by
program = tt

abbrev work : Resource
work = record { type = WorkResourceType.run; id = "run_1" }

abbrev lease : String → ℕ → ℕ → WorkLease
lease worker_id token expires_at = record {
  resource_type = WorkResourceType.run;
  resource_id = "run_1";
  worker_id = worker_id;
  lease_token = token;
  expires_at = expires_at;
}

-- held by `a` under token 1 until 110
abbrev taken : List LeaseRow
taken = execute_all (Statement.take work "a" 10 100 ∷ []) []

-- `a` releases at 105, then `b` takes the Run over
abbrev between : List Statement
between = Statement.release (lease "a" 1 110) 105 ∷ []

abbrev after : List Statement
after = Statement.renew (lease "b" 2 116) 20 110 ∷ []

taken_by_a : (take_lease work "a" 10 100 []).0 ≡ some (lease "a" 1 110)
unfolding program
taken_by_a = refl

take_lease-take_lease_example : (lease "a" 1 110).lease_token < (lease "b" 2 116).lease_token
unfolding program
take_lease-take_lease_example =
    take_lease-take_lease work "a" "b" 10 10 100 106 [] between (lease "a" 1 110) (lease "b" 2 116)
      refl refl

take_lease-assert_lease_example :
    (let rows =
        execute_all after
          (take_lease work "b" 10 106
            (execute_all between (take_lease work "a" 10 100 (execute_all [] [])).1)).1 in
      (assert_lease (lease "a" 1 110) 107 rows ≡ err lease_lost)
      × ((renew_lease (lease "a" 1 110) 10 107 rows).0 ≡ none)
      × ((release_lease (lease "a" 1 110) 107 rows).0 ≡ false))
unfolding program
take_lease-assert_lease_example =
    take_lease-assert_lease [] between after work "a" "b" 10 10 100 106 (lease "a" 1 110)
      (lease "b" 2 116) 10 107 refl refl

assert_lease-take_lease_example :
    take_lease
      (lease_resource (lease "a" 1 110))
      "b"
      10
      104
      (execute_all (Statement.take work "a" 10 100 ∷ []) [])
    ≡ (none, execute_all (Statement.take work "a" 10 100 ∷ []) [])
unfolding program
assert_lease-take_lease_example =
    assert_lease-take_lease (Statement.take work "a" 10 100 ∷ []) (lease "a" 1 110) 105 104 "b" 10
      refl (omega arith)

assert_lease-assert_lease_example :
    ((lease "a" 1 110).worker_id ≡ (lease "a" 1 120).worker_id)
    × ((lease "a" 1 110).lease_token ≡ (lease "a" 1 120).lease_token)
unfolding program
assert_lease-assert_lease_example =
    assert_lease-assert_lease (Statement.take work "a" 10 100 ∷ []) (lease "a" 1 110)
      (lease "a" 1 120) 105 106 refl refl refl

abbrev queued : RunRecord
queued = record run { status = RunStatus.queued; conversation_id = none }

abbrev queue : Queue
queue = record { conversations = []; runs = queued ∷ []; worker_leases = [] }

claim_work-resource_example :
    ((r : RunRecord) × (false ≡ false) × IsClaimable queue r (lease "a" 1 110))
    × ((claim_work (λ _. 0) "a" 10 (λ _. false) 100 queue).1.runs ≡ queue.runs)
    × ((claim_work (λ _. 0) "a" 10 (λ _. false) 100 queue).1.conversations ≡ queue.conversations)
unfolding program
claim_work-resource_example =
    claim_work-resource (λ _. 0) "a" 10 (λ _. false) 100 queue (lease "a" 1 110) refl
