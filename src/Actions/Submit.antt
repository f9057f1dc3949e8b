-- ===== src/Actions/Submit.antt =====
-- actions/service.py: `publish`, `comment`, `react`, `_submit_write`, `validate` and `_notify`.
use account_pool.Base.{select, ℕ, String, Option, none, some, List, [], ◌∷◌, ◌++◌, if◌then◌else◌}
use account_pool.Table.{rows}
use account_pool.Domain.Enums.{
  ActionType, ActionState, DecisionOutcome, DenialCode, verb_value, parse_verb,
}
use account_pool.Domain.Models.{
  Account, Action, ApprovalItem, ContentDraft, DecisionStep, TargetRef, ActionOutcome,
}
use account_pool.Runtime.Errors.{Error}
use account_pool.Runtime.World.{World, Env}
use account_pool.Runtime.Monad.{Prog, pure, modify, or_raise, now, new_id, ◌>>=◌, ◌>>◌}
use account_pool.Db.Records.{has_key, first_action, upsert_action, find_by_idempotency_key}
use account_pool.Db.Audit.{Entry, record_event}
use account_pool.Policy.Decisions.{PolicyResult, to_steps, trace_snapshot}
use account_pool.Policy.Engine.{evaluate}
use account_pool.Locking.{require_account}
use account_pool.Approvals.{submit}
use account_pool.Actions.Context.{given, require_draft, draft_if, build_ctx, resolve}
use account_pool.Actions.Execute.{draft_id_of, draft_revision, execute}

-- The arguments of `_submit_write` beside the caller and the account.
pub record WriteRequest : Type 0 where
  pub action_type : ActionType
  pub lock_token : String
  pub draft : Option ContentDraft
  pub target : Option TargetRef
  pub react_kind : Option String
  pub idempotency_key : Option String
  pub scheduled_for : Option ℕ

-- What `validate` returns.
pub record Verdict : Type 0 where
  pub outcome : DecisionOutcome
  pub denial_code : Option DenialCode
  pub trace : List DecisionStep

abbrev pub decision_entry :
    String → Action → DecisionOutcome → Option DenialCode → List DecisionStep → Entry
decision_entry caller action outcome code snapshot = record {
  actor = caller;
  verb = verb_value action.type;
  outcome = outcome;
  account_id = some action.account_id;
  action_id = some action.action_id;
  denial_code = code;
  platform_result = none;
  policy_snapshot = some snapshot;
}

-- The stored action that a request replays.
abbrev pub replay : WriteRequest → World → Option Action
replay r w = elim (given r.idempotency_key) [
  | none ↦ none
  | some key ↦ first_action (select (has_key key) (rows w.actions))
]

module _ (env : Env) where
  -- `_notify`: an exception of the notifier is swallowed.
  unfoldable pub notify : ApprovalItem → Account → Prog Unit
  notify approval account = modify λ w. record w {
    notified = if env.has_notifier then w.notified ++ (approval, account) ∷ [] else w.notified;
  }

  -- The `Action` that `_submit_write` makes.
  unfoldable pub new_action : String → Account → WriteRequest → Prog Action
  new_action caller account r = do
    action_id ← new_id env "act"
    created_at ← now env
    updated_at ← now env
    pure (record {
      action_id = action_id;
      account_id = account.account_id;
      type = r.action_type;
      target = r.target;
      draft_id = draft_id_of r.draft;
      react_kind = r.react_kind;
      requested_by = caller;
      idempotency_key = r.idempotency_key;
      state = ActionState.pending;
      decision_trace = [];
      result = none;
      scheduled_for = r.scheduled_for;
      created_at = created_at;
      updated_at = updated_at;
    })

  -- Records a decision of the guards that is not to execute.
  unfoldable pub record_decision :
      String → Action → DecisionOutcome → Option DenialCode → List DecisionStep → Prog Unit
  record_decision caller action outcome code snapshot =
      record_event env (decision_entry caller action outcome code snapshot) >>= λ _. pure tt

  -- The branch of `_submit_write` and `_run_read` for a denial.
  unfoldable pub refuse : String → Action → PolicyResult → Prog Action
  unfolding record_decision
  refuse caller action result = do
    let refused = record action { state = ActionState.refused }
    upsert_action refused
    record_decision caller refused DecisionOutcome.deny result.decision.denial_code
        (trace_snapshot result.trace)
    pure refused

  -- What follows once the approval is in the queue.
  unfoldable pub hold : String → Account → Action → PolicyResult → ApprovalItem → Prog Action
  unfolding record_decision notify
  hold caller account waiting result approval = do
    let queued = record waiting { result = some (ActionOutcome.queued approval.approval_id) }
    upsert_action queued
    record_decision caller queued DecisionOutcome.route_to_approval
        (some DenialCode.approval_required) (trace_snapshot result.trace)
    notify approval account
    pure queued

  -- The branch for an act that is queued.
  unfoldable pub queue :
      String → Account → Action → Option ContentDraft → PolicyResult → Prog Action
  unfolding hold
  queue caller account action draft result = do
    let waiting = record action { state = ActionState.needs_approval }
    approval ← submit env waiting (draft_revision draft)
    hold caller account waiting result approval

  module _ (caller : String) (account : Account) (r : WriteRequest) where
    -- The three outcomes.
    abbrev pub by_outcome : Action → PolicyResult → DecisionOutcome → Prog Action
    by_outcome action result DecisionOutcome.deny = refuse caller action result
    by_outcome action result DecisionOutcome.route_to_approval =
        queue caller account action r.draft result
    by_outcome action result DecisionOutcome.allow =
        execute env action account r.draft r.target r.react_kind caller
          (some (trace_snapshot result.trace))

    unfoldable pub settle : Action → PolicyResult → Prog Action
    unfolding refuse queue
    settle action result = by_outcome action result result.outcome

  -- `_submit_write` for a request that has not been seen.
  unfoldable pub submit_new : String → Account → WriteRequest → Prog Action
  unfolding new_action settle
  submit_new caller account r = do
    action ← new_action caller account r
    ctx ←
        build_ctx env account r.action_type caller (some r.lock_token) r.draft r.target r.react_kind
    result ← evaluate env ctx
    settle caller account r (record action { decision_trace = to_steps result.trace }) result

  -- `_submit_write`
  unfoldable pub submit_write : String → Account → WriteRequest → Prog Action
  unfolding submit_new
  submit_write caller account r = elim (given r.idempotency_key) [
    | none ↦ submit_new caller account r
    | some key ↦ find_by_idempotency_key key >>= λ existing. elim existing [
      | some action ↦ pure action
      | none ↦ submit_new caller account r
    ]
  ]

  -- `publish`
  unfoldable pub publish :
      String → String → String → String → Option String → Option ℕ → Prog Action
  unfolding submit_write require_account require_draft
  publish caller account_id lock_token draft_id idempotency_key scheduled_for = do
    account ← require_account account_id
    draft ← require_draft draft_id
    submit_write caller account (record {
      action_type = ActionType.publish;
      lock_token = lock_token;
      draft = some draft;
      target = none;
      react_kind = none;
      idempotency_key = idempotency_key;
      scheduled_for = scheduled_for;
    })

  -- `comment`
  unfoldable pub comment : String → String → String → String → String → Option String → Prog Action
  unfolding submit_write require_account require_draft
  comment caller account_id lock_token target_raw draft_id idempotency_key = do
    account ← require_account account_id
    draft ← require_draft draft_id
    target ← resolve env account target_raw
    submit_write caller account (record {
      action_type = ActionType.comment;
      lock_token = lock_token;
      draft = some draft;
      target = some target;
      react_kind = none;
      idempotency_key = idempotency_key;
      scheduled_for = none;
    })

  -- `react`
  unfoldable pub react : String → String → String → String → String → Option String → Prog Action
  unfolding submit_write require_account
  react caller account_id lock_token target_raw kind idempotency_key = do
    account ← require_account account_id
    target ← resolve env account target_raw
    submit_write caller account (record {
      action_type = ActionType.react;
      lock_token = lock_token;
      draft = none;
      target = some target;
      react_kind = some kind;
      idempotency_key = idempotency_key;
      scheduled_for = none;
    })

  -- `validate`
  unfoldable pub validate :
      String
      → String
      → String
      → Option String
      → Option String
      → Option String
      → Option String
      → Prog Verdict
  validate caller account_id action_type draft_id target_raw react_kind lock_token = do
    account ← require_account account_id
    verb ← or_raise (parse_verb action_type) Error.value_error
    draft ← draft_if draft_id
    target ← elim (given target_raw) [
      | none ↦ pure none
      | some raw ↦ resolve env account raw >>= λ t. pure (some t)
    ]
    ctx ← build_ctx env account verb caller lock_token draft target react_kind
    result ← evaluate env ctx
    pure (record {
      outcome = result.outcome;
      denial_code = result.decision.denial_code;
      trace = trace_snapshot result.trace;
    })
