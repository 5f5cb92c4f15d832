-- ===== src/Plan/Errors.antt =====
-- `PlanCompilationError` of control/plan_react.py, one constructor for each place that raises it,
-- and the `ValueError` of sdk/plan_react.py.
pub data PlanError : Type 0 where
  blank_summary long_summary step_count invalid_step duplicate_ids : PlanError
  long_task duplicate_dependencies self_dependency unknown_dependency cyclic : PlanError
  blank_tool unknown_tool : PlanError
  script_changed args_changed plan_changed : PlanError
  value_error not_enabled : PlanError
  -- the model ran out of fuel, which no call of the source can do
  out_of_fuel : PlanError
