-- ===== src/Control/Guarantees/Shared.antt =====
-- The guarantees of the operations that write over no Run.
use dsh_base_agent.Prelude.{String, Option, Bool, if◌then◌else◌}
use dsh_base_agent.Models.{RunRecord, EventSource, Json}
use dsh_base_agent.Control.Failures.{Principal}
use dsh_base_agent.Control.Calls.{Plane}
use dsh_base_agent.Control.Shared.{append_event, append_audit, audit_run, agent_of}
use dsh_base_agent.Control.Rules.{
  Guarantees, Guarantees-pure, Guarantees-raise, Guarantees-ask, Guarantees-or_raise,
  Guarantees-query, Guarantees-catching, Guarantees-new_id, Guarantees-utc_now, Guarantees-raise_if,
  Guarantees-call, Guarantees-if,
}
use dsh_base_agent.Control.Sequence.{Guarantees-bind}

pub Guarantees-cond :
    {A : Type 0} (known : Option RunRecord) (b : Bool) (m n : Plane A)
    → Guarantees known m
    → Guarantees known n
    → Guarantees known (if b then m else n)
Guarantees-cond known b m n g h = Guarantees-if known b m n (λ _. g) (λ _. h)

pub ruleset guarantee_rules = (
  Guarantees-pure, Guarantees-raise, Guarantees-ask, Guarantees-or_raise, Guarantees-query,
  Guarantees-catching, Guarantees-new_id, Guarantees-utc_now, Guarantees-raise_if, Guarantees-call,
  Guarantees-bind, Guarantees-cond,
)

module _ (known : Option RunRecord) where
  pub Guarantees-append_event :
      (run_id : String) (attempt_id : Option String) (source : EventSource) (kind : String)
      (details : Json)
      → Guarantees known (append_event run_id attempt_id source kind details)
  unfolding append_event
  Guarantees-append_event run_id attempt_id source kind details = search guarantee_rules depth 12

  pub Guarantees-append_audit :
      (principal : Principal) (action outcome : String) (run_id attempt_id agent_id : Option String)
      (details : Json)
      → Guarantees known (append_audit principal action outcome run_id attempt_id agent_id details)
  unfolding append_audit
  Guarantees-append_audit principal action outcome run_id attempt_id agent_id details =
      search guarantee_rules depth 12

  pub Guarantees-audit_run :
      (principal : Principal) (run : RunRecord) (action outcome : String)
      (attempt_id : Option String) (details : Json)
      → Guarantees known (audit_run principal run action outcome attempt_id details)
  unfolding audit_run
  Guarantees-audit_run principal run action outcome attempt_id details =
      Guarantees-append_audit principal action outcome _ attempt_id _ details

  pub Guarantees-agent_of : (agent_id : String) → Guarantees known (agent_of agent_id)
  unfolding agent_of
  Guarantees-agent_of agent_id = search guarantee_rules depth 12

pub ruleset report_rules = (
  guarantee_rules, Guarantees-append_event, Guarantees-append_audit, Guarantees-audit_run,
  Guarantees-agent_of,
)
