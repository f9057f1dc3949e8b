-- ===== src/Actions/Reading.antt =====
-- actions/service.py: what `_run_read` leaves behind.
use account_pool.Base.{String, ◌≡◌, refl, none, some, arith, ap}
use account_pool.Domain.Enums.{ActionState, DecisionOutcome, verb_value}
use account_pool.Domain.Models.{Account, Action, ActionOutcome, ReadResult, found}
use account_pool.Adapters.Interface.{AdapterSession, Adapter}
use account_pool.Runtime.Errors.{ok}
use account_pool.Runtime.World.{World, Env}
use account_pool.Runtime.Monad.{Prog, get_adapter, ◌>>=◌, ◌>>◌}
use account_pool.Db.Records.{upsert_action}
use account_pool.Db.Audit.{record_event, append_event}
use account_pool.Policy.Decisions.{PolicyResult, to_steps}
use account_pool.Policy.Context.{GuardContext}
use account_pool.Policy.Engine.{evaluate}
use account_pool.Policy.Frame.{evaluate-Untouched}
use account_pool.Policy.RateLimit.{consume}
use account_pool.Actions.Context.{load_session, build_ctx}
use account_pool.Actions.Outcomes.{
  Logged, LogsOnce, LogsOnce-intro, LogsOnce-then, load_session-quiet, refuse-LogsOnce,
}
use account_pool.Actions.Logging.{get_adapter-audit, build_ctx-audit}
use account_pool.Actions.Reads.{
  ReadRequest, read_type, read_target, fetch, new_read, report, perform_read, read_outcome,
  run_read,
}

fetch-audit :
    (adapter : Adapter) (session : AdapterSession) (r : ReadRequest) (w : World)
    → (fetch adapter session r w).1.audit ≡ w.audit
fetch-audit adapter session (ReadRequest.target t) w = refl
fetch-audit adapter session (ReadRequest.query q n) w = refl

module _ (env : Env) (caller : String) (account : Account) (r : ReadRequest) where
  module _ (action : Action) (p : PolicyResult) where
    report-LogsOnce :
        (res : ReadResult) (w : World) → LogsOnce w (report env caller account action p res w)
    unfolding report upsert_action record_event append_event
    report-LogsOnce res w =
        LogsOnce-intro w (report env caller account action p res w)
          (record action {
            result = some (ActionOutcome.platform (found res));
            state = ActionState.done;
          })
          refl (_, refl, refl, refl)

    consume-audit :
        (w : World) → (consume env account.account_id (verb_value action.type) w).1.audit ≡ w.audit
    unfolding consume
    consume-audit w = ground arith

    with_result : ReadResult → Prog Action
    with_result res =
        consume env account.account_id (verb_value action.type)
        >> report env caller account action p res

    with_session : Adapter → AdapterSession → Prog Action
    with_session adapter session = fetch adapter session r >>= with_result

    with_adapter : Adapter → Prog Action
    with_adapter adapter = load_session env account >>= with_session adapter

    perform_read-LogsOnce : (w : World) → LogsOnce w (perform_read env caller account r action p w)
    unfolding perform_read with_result with_session with_adapter
    perform_read-LogsOnce w =
        LogsOnce-then w (get_adapter env account.platform w) with_adapter
          (get_adapter-audit env account w)
          λ adapter w1.
            LogsOnce-then w1 (load_session env account w1) (with_session adapter)
              (ap (λ u. u.audit) (load_session-quiet env w1 account))
              λ session w2.
                LogsOnce-then w2 (fetch adapter session r w2) with_result
                  (fetch-audit adapter session r w2)
                  λ res w3.
                    LogsOnce-then w3 (consume env account.account_id (verb_value action.type) w3)
                      (λ _. report env caller account action p res) (consume-audit w3)
                      λ _ w4. report-LogsOnce res w4

    read_outcome-LogsOnce :
        (o : DecisionOutcome) (w : World)
        → LogsOnce w (read_outcome env caller account r action p o w)
    read_outcome-LogsOnce DecisionOutcome.deny w = refuse-LogsOnce env caller action p w
    read_outcome-LogsOnce DecisionOutcome.allow w = perform_read-LogsOnce w
    read_outcome-LogsOnce DecisionOutcome.route_to_approval w = perform_read-LogsOnce w

  traced : Action → PolicyResult → Prog Action
  traced action p =
      read_outcome env caller account r (record action { decision_trace = to_steps p.trace }) p
        p.outcome

  with_context : Action → GuardContext → Prog Action
  with_context action ctx = evaluate env ctx >>= traced action

  build : Prog GuardContext
  build = build_ctx env account (read_type r) caller none none (read_target r) none

  with_action : Action → Prog Action
  with_action action = build >>= with_context action

  run_read-LogsOnce : (w : World) → LogsOnce w (run_read env caller account r w)
  unfolding run_read new_read traced with_context with_action build
  run_read-LogsOnce w =
      LogsOnce-then w (new_read env caller account r w) with_action refl λ action w1.
        LogsOnce-then w1 (build w1) (with_context action)
          (build_ctx-audit env account (read_type r) caller none none (read_target r) none w1)
          λ ctx w2.
            LogsOnce-then w2 (evaluate env ctx w2) (traced action)
              ((evaluate-Untouched env ctx w2).audit)
              λ p w3.
                read_outcome-LogsOnce (record action { decision_trace = to_steps p.trace }) p
                  p.outcome w3

  -- A read or a search that returns has appended exactly one event to the audit log, which names the action that
  -- is returned: a denial where the action is refused, and an allow where it is done.
  pub run_read-logs_once :
      (w : World) (a : Action)
      → (run_read env caller account r w).0 ≡ ok a
      → Logged w (run_read env caller account r w).1 a
  run_read-logs_once w a e = run_read-LogsOnce w a e
