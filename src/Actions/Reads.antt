-- ===== src/Actions/Reads.antt =====
-- actions/service.py: `read`, `search` and `_run_read`.
use account_pool.Base.{String, Option, none, some, []}
use account_pool.Base.Int.{ℤ}
use account_pool.Domain.Enums.{ActionType, ActionState, DecisionOutcome, verb_value}
use account_pool.Domain.Models.{Account, Action, TargetRef, ReadResult, ActionOutcome, found}
use account_pool.Adapters.Interface.{AdapterSession, AdapterCall, Adapter}
use account_pool.Runtime.World.{Env}
use account_pool.Runtime.Monad.{Prog, pure, now, new_id, get_adapter, invoke, ◌>>=◌, ◌>>◌}
use account_pool.Db.Records.{upsert_action}
use account_pool.Db.Audit.{record_event}
use account_pool.Policy.Decisions.{PolicyResult, to_steps, trace_snapshot}
use account_pool.Policy.Engine.{evaluate}
use account_pool.Policy.RateLimit.{consume}
use account_pool.Locking.{require_account}
use account_pool.Actions.Context.{build_ctx, resolve, load_session}
use account_pool.Actions.Execute.{execution_entry}
use account_pool.Actions.Submit.{refuse}

-- What a read asks for: a target, or a query and a limit.
pub data ReadRequest : Type 0 where
  target : TargetRef → ReadRequest
  query : String → ℤ → ReadRequest

abbrev pub read_type : ReadRequest → ActionType
read_type (ReadRequest.target t) = ActionType.read
read_type (ReadRequest.query q n) = ActionType.search

abbrev pub read_target : ReadRequest → Option TargetRef
read_target (ReadRequest.target t) = some t
read_target (ReadRequest.query q n) = none

-- The call of the adapter.
abbrev pub fetch : Adapter → AdapterSession → ReadRequest → Prog ReadResult
fetch adapter session (ReadRequest.target t) =
    invoke (AdapterCall.read session t) (λ h. adapter.on_read h session t)
fetch adapter session (ReadRequest.query q n) =
    invoke (AdapterCall.search session q n) (λ h. adapter.on_search h session q n)

module _ (env : Env) where
  -- The `Action` that `_run_read` makes.
  unfoldable pub new_read : String → Account → ReadRequest → Prog Action
  new_read caller account r = do
    action_id ← new_id env "act"
    created_at ← now env
    updated_at ← now env
    pure (record {
      action_id = action_id;
      account_id = account.account_id;
      type = read_type r;
      target = read_target r;
      draft_id = none;
      react_kind = none;
      requested_by = caller;
      idempotency_key = none;
      state = ActionState.pending;
      decision_trace = [];
      result = none;
      scheduled_for = none;
      created_at = created_at;
      updated_at = updated_at;
    })

  -- The end of a read.
  unfoldable pub report : String → Account → Action → PolicyResult → ReadResult → Prog Action
  report caller account action result res = do
    let done = record action {
      result = some (ActionOutcome.platform (found res));
      state = ActionState.done;
    }
    upsert_action done
    record_event env (
        execution_entry action account caller (some (trace_snapshot result.trace))
          DecisionOutcome.allow none (some (found res)))
    pure done

  -- The branch of `_run_read` that reads. An exception of the adapter is not caught.
  unfoldable pub perform_read : String → Account → ReadRequest → Action → PolicyResult → Prog Action
  unfolding report
  perform_read caller account r action result = do
    adapter ← get_adapter env account.platform
    session ← load_session env account
    res ← fetch adapter session r
    consume env account.account_id (verb_value action.type)
    report caller account action result res

  -- Any outcome but a denial reads.
  abbrev pub read_outcome :
      String → Account → ReadRequest → Action → PolicyResult → DecisionOutcome → Prog Action
  read_outcome caller account r action result DecisionOutcome.deny = refuse env caller action result
  read_outcome caller account r action result _ = perform_read caller account r action result

  -- `_run_read`
  unfoldable pub run_read : String → Account → ReadRequest → Prog Action
  unfolding new_read perform_read
  run_read caller account r = do
    action ← new_read caller account r
    ctx ← build_ctx env account (read_type r) caller none none (read_target r) none
    result ← evaluate env ctx
    read_outcome caller account r (record action { decision_trace = to_steps result.trace }) result
        result.outcome

  -- `read`
  unfoldable pub read : String → String → String → Prog Action
  unfolding run_read require_account
  read caller account_id target_raw = do
    account ← require_account account_id
    t ← resolve env account target_raw
    run_read caller account (ReadRequest.target t)

  -- `search`
  unfoldable pub search : String → String → String → ℤ → Prog Action
  unfolding run_read require_account
  search caller account_id text limit = do
    account ← require_account account_id
    run_read caller account (ReadRequest.query text limit)
