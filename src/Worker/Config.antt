-- ===== src/Worker/Config.antt =====
-- `WorkerConfig`. A duration is a number of microseconds, so that a duration which is not positive is
-- 0, and a capacity is not negative.
use dsh_base_agent.Prelude.{
  ℕ, ◌+◌, String, Bool, ◌||◌, [], ◌∷◌, Result, Error, value_error, raise_if, in_order, ◌==◌, nat_eq,
  leb,
}
use dsh_base_agent.Prelude.Text.{is_empty, strip}

pub record WorkerConfig : Type 0 where
  pub worker_id : String
  pub poll_interval_seconds : ℕ
  pub lease_seconds : ℕ
  pub heartbeat_interval_seconds : ℕ
  pub heartbeat_timeout_seconds : ℕ
  pub run_timeout_seconds : ℕ
  pub conversation_idle_seconds : ℕ
  pub max_concurrency : ℕ
  pub max_owned_conversations : ℕ
  pub shutdown_timeout_seconds : ℕ

abbrev refuse : Bool → Result Error (Unit {0})
refuse bad = raise_if bad value_error

-- `__post_init__`
unfoldable pub post_init : WorkerConfig → Result Error (Unit {0})
post_init c = in_order (
    refuse (is_empty (strip c.worker_id))
    ∷ refuse (c.poll_interval_seconds == 0)
    ∷ refuse (c.lease_seconds == 0)
    ∷ refuse (c.heartbeat_interval_seconds == 0)
    ∷ refuse (leb c.lease_seconds c.heartbeat_interval_seconds)
    ∷ refuse (c.heartbeat_timeout_seconds == 0)
    ∷ refuse (leb c.lease_seconds (c.heartbeat_interval_seconds + c.heartbeat_timeout_seconds))
    ∷ refuse (c.run_timeout_seconds == 0)
    ∷ refuse (c.conversation_idle_seconds == 0)
    ∷ refuse (c.max_concurrency == 0 || c.max_owned_conversations == 0)
    ∷ refuse (c.shutdown_timeout_seconds == 0)
    ∷ [])
