-- ===== src/Policy/Decisions.antt =====
-- policy/decisions.py and `PolicyResult` of policy/context.py.
use account_pool.Base.{String, Option, none, some, List, map}
use account_pool.Domain.Enums.{DecisionOutcome, DenialCode}
use account_pool.Domain.Models.{DecisionStep}

pub record Decision : Type 0 where
  pub guard : String
  pub outcome : DecisionOutcome
  pub denial_code : Option DenialCode

abbrev pub allow : String → Decision
allow guard = record { guard = guard; outcome = DecisionOutcome.allow; denial_code = none }

abbrev pub deny : String → DenialCode → Decision
deny guard code = record { guard = guard; outcome = DecisionOutcome.deny; denial_code = some code }

-- `route` with its default code, the only one that is used.
abbrev pub route : String → Decision
route guard = record {
  guard = guard;
  outcome = DecisionOutcome.route_to_approval;
  denial_code = some DenialCode.approval_required;
}

pub record PolicyResult : Type 0 where
  pub outcome : DecisionOutcome
  pub decision : Decision
  pub trace : List Decision

-- actions/service.py: `_to_steps`
unfoldable pub to_step : Decision → DecisionStep
to_step d = record { guard = d.guard; outcome = d.outcome; denial_code = d.denial_code }

unfoldable pub to_steps : List Decision → List DecisionStep
unfolding to_step
to_steps = map to_step

-- audit/log.py: `trace_snapshot`, the same four fields as a dump
unfoldable pub trace_snapshot : List Decision → List DecisionStep
unfolding to_step
trace_snapshot = map to_step
