-- ===== src/Actions/Logging.antt =====
-- Every call that the action service answers writes one event, true to the action.
use account_pool.Base.{String, ◌≡◌, refl, Option, none, some, List, arith, ap}
use account_pool.Domain.Enums.{ActionType, ActionState, DecisionOutcome}
use account_pool.Domain.Models.{
  Account, Action, ContentDraft, DecisionStep, TargetRef, ActionResult, PlatformPolicy,
}
use account_pool.Adapters.Interface.{AdapterSession, Adapter}
use account_pool.Runtime.Errors.{Result, ok}
use account_pool.Runtime.World.{World, Env}
use account_pool.Runtime.Monad.{Prog, get_adapter, ◌>>=◌}
use account_pool.Db.Records.{upsert_action, find_by_idempotency_key}
use account_pool.Policy.Decisions.{PolicyResult, to_steps, trace_snapshot}
use account_pool.Policy.Policies.{resolve_policy}
use account_pool.Policy.Context.{GuardContext}
use account_pool.Policy.Engine.{evaluate}
use account_pool.Policy.Frame.{evaluate-Untouched}
use account_pool.Actions.Context.{lift, load_session, build_ctx}
use account_pool.Actions.Execute.{attempt, dispatch, finish, execute}
use account_pool.Actions.Submit.{
  WriteRequest, by_outcome, replay, new_action, settle, submit_new, submit_write,
}
use account_pool.Actions.Outcomes.{
  Logged, LogsOnce, LogsOnce-then, load_session-quiet, dispatch-audit, finish-LogsOnce,
  refuse-LogsOnce, queue-LogsOnce,
}

module _ (env : Env) where
  pub get_adapter-audit :
      (a : Account) (w : World) → (get_adapter env a.platform w).1.audit ≡ w.audit
  get_adapter-audit a w = ground arith

  pub build_ctx-audit :
      (a : Account) (verb : ActionType) (caller : String) (token : Option String)
      (draft : Option ContentDraft) (target : Option TargetRef) (kind : Option String) (w : World)
      → (build_ctx env a verb caller token draft target kind w).1.audit ≡ w.audit
  unfolding build_ctx
  build_ctx-audit a verb caller token draft target kind w = ground arith

  pub execute-LogsOnce :
      (action : Action) (account : Account) (draft : Option ContentDraft)
      (target : Option TargetRef) (kind : Option String) (actor : String)
      (snapshot : Option (List DecisionStep)) (w : World)
      → LogsOnce w (execute env action account draft target kind actor snapshot w)
  unfolding execute upsert_action
  execute-LogsOnce action account draft target kind actor snapshot w =
      LogsOnce-then w (upsert_action executing w) (λ _. start) refl
        λ _ w1.
          LogsOnce-then w1 (get_adapter env account.platform w1) with_adapter
            (get_adapter-audit account w1)
            λ adapter w2.
              LogsOnce-then w2 (load_session env account w2) (with_session adapter)
                (ap (λ u. u.audit) (load_session-quiet env w2 account))
                λ session w3.
                  LogsOnce-then w3 (lift (resolve_policy account) w3) (with_policy adapter session)
                    refl
                    λ policy w4.
                      LogsOnce-then w4
                        (attempt
                          (dispatch adapter session action.type draft target kind policy
                            env.dry_run)
                          w4)
                        conclude
                        (dispatch-audit env action account actor snapshot draft target adapter
                          session action.type kind policy env.dry_run w4)
                        λ res w5.
                          finish-LogsOnce env executing account actor snapshot draft target res w5
    where
      executing : Action
      executing = record action { state = ActionState.executing }

      conclude : Result ActionResult → Prog Action
      conclude = finish env executing account actor snapshot draft target

      with_policy : Adapter → AdapterSession → PlatformPolicy → Prog Action
      with_policy adapter session policy =
          attempt (dispatch adapter session action.type draft target kind policy env.dry_run)
          >>= conclude

      with_session : Adapter → AdapterSession → Prog Action
      with_session adapter session = lift (resolve_policy account) >>= with_policy adapter session

      with_adapter : Adapter → Prog Action
      with_adapter adapter = load_session env account >>= with_session adapter

      start : Prog Action
      start = get_adapter env account.platform >>= with_adapter

module _ (env : Env) (caller : String) (account : Account) (r : WriteRequest) where
  by_outcome-LogsOnce :
      (o : DecisionOutcome) (action : Action) (p : PolicyResult) (w : World)
      → LogsOnce w (by_outcome env caller account r action p o w)
  by_outcome-LogsOnce DecisionOutcome.deny action p w = refuse-LogsOnce env caller action p w
  by_outcome-LogsOnce DecisionOutcome.route_to_approval action p w =
      queue-LogsOnce env caller action p w account r.draft
  by_outcome-LogsOnce DecisionOutcome.allow action p w =
      execute-LogsOnce env action account r.draft r.target r.react_kind caller
        (some (trace_snapshot p.trace)) w

  settle-LogsOnce :
      (action : Action) (p : PolicyResult) (w : World)
      → LogsOnce w (settle env caller account r action p w)
  unfolding settle
  settle-LogsOnce action p w = by_outcome-LogsOnce p.outcome action p w

  submit_new-LogsOnce : (w : World) → LogsOnce w (submit_new env caller account r w)
  unfolding submit_new new_action
  submit_new-LogsOnce w =
      LogsOnce-then w (new_action env caller account r w) with_action refl λ action w1.
        LogsOnce-then w1
          (build_ctx env account r.action_type caller (some r.lock_token) r.draft r.target
            r.react_kind w1)
          (with_context action)
          (build_ctx-audit env account r.action_type caller (some r.lock_token) r.draft r.target
            r.react_kind w1)
          λ ctx w2.
            LogsOnce-then w2 (evaluate env ctx w2) (with_result action)
              ((evaluate-Untouched env ctx w2).audit)
              λ p w3. settle-LogsOnce (record action { decision_trace = to_steps p.trace }) p w3
    where
      with_result : Action → PolicyResult → Prog Action
      with_result action p =
          settle env caller account r (record action { decision_trace = to_steps p.trace }) p

      with_context : Action → GuardContext → Prog Action
      with_context action ctx = evaluate env ctx >>= with_result action

      with_action : Action → Prog Action
      with_action action =
          build_ctx env account r.action_type caller (some r.lock_token) r.draft r.target
            r.react_kind
          >>= with_context action

  -- A write that returns, and is no replay of a stored request, has appended exactly one event to the
  -- audit log. The event names the action that is returned, and its outcome is true to the action's
  -- state: deny for refused or failed, route for an action that waits for approval, allow for done.
  pub submit_write-logs_once :
      (w : World) (a : Action)
      → replay r w ≡ none
      → (submit_write env caller account r w).0 ≡ ok a
      → Logged w (submit_write env caller account r w).1 a
  unfolding submit_write find_by_idempotency_key
  submit_write-logs_once w a new e = ground (arith, submit_new-LogsOnce w a)
