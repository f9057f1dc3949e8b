-- ===== src/Actions/Decide.antt =====
-- actions/service.py: `decide_approval` and `resubmit_approval`.
use account_pool.Base.{
  ℕ, String, Bool, false, not, ◌||◌, Option, none, some, ◌==◌, str_eq, if◌then◌else◌,
}
use account_pool.Domain.Enums.{
  ActionState, ReviewState, DecisionOutcome, DenialCode, verb_value, action_consent,
}
use account_pool.Domain.Models.{
  Account, Action, ApprovalItem, ContentDraft, ActionOutcome, permits, is_active, is_expired,
}
use account_pool.Runtime.Errors.{Error}
use account_pool.Runtime.World.{Env}
use account_pool.Runtime.Monad.{Prog, pure, raise, or_raise, now, ◌>>=◌, ◌>>◌}
use account_pool.Db.Records.{upsert_action, get_action, get_approval}
use account_pool.Db.Audit.{Entry, record_event}
use account_pool.Locking.{require_account}
use account_pool.Approvals.{set_state, reopen}
use account_pool.Actions.Context.{draft_if}
use account_pool.Actions.Execute.{draft_revision, execute}
use account_pool.Actions.Submit.{notify}

-- The dict that a decision returns.
pub record Decided : Type 0 where
  pub approval_id : String
  pub review_state : Option ReviewState
  pub action_id : Option String
  pub action_state : Option ActionState
  pub denial_code : Option DenialCode
  pub result : Option ActionOutcome

-- The draft has moved on from the revision that was pinned.
abbrev pub is_stale : Option ContentDraft → Option ℕ → Bool
is_stale none pinned = false
is_stale (some d) none = false
is_stale (some d) (some r) = not (d.revision == r)

abbrev pub review_entry : String → Action → Account → DecisionOutcome → DenialCode → Entry
review_entry actor action account outcome code = record {
  actor = actor;
  verb = verb_value action.type;
  outcome = outcome;
  account_id = some account.account_id;
  action_id = some action.action_id;
  denial_code = some code;
  platform_result = none;
  policy_snapshot = none;
}

module _ (env : Env) where
  -- The event of a decision.
  unfoldable pub record_review :
      String → Action → Account → DecisionOutcome → DenialCode → Prog Unit
  record_review actor action account outcome code =
      record_event env (review_entry actor action account outcome code) >>= λ _. pure tt

  -- The lookups that both operations begin with.
  unfoldable pub load_review : String → Prog (ApprovalItem × Action × Account)
  unfolding require_account
  load_review approval_id = do
    found ← get_approval approval_id
    approval ← or_raise found Error.not_found
    stored ← get_action approval.action_id
    action ← or_raise stored Error.not_found
    account ← require_account action.account_id
    pure (approval, action, account)

  module _ (approval_id decided_by : String) where
    -- Sends an approval back and refuses its action: the four refusals of `decide_approval`.
    unfoldable pub turn_down :
        ApprovalItem → Action → Account → Option String → DenialCode → Prog Action
    unfolding record_review
    turn_down approval action account reason code = do
      set_state env approval ReviewState.changes_requested decided_by reason
      let refused = record action { state = ActionState.refused }
      upsert_action refused
      record_review decided_by refused account DecisionOutcome.deny code
      pure refused

    abbrev pub refusal : Option DenialCode → Decided
    refusal code = record {
      approval_id = approval_id;
      review_state = none;
      action_id = none;
      action_state = some ActionState.refused;
      denial_code = code;
      result = none;
    }

    -- `decision == "request_changes"`
    unfoldable pub request_changes : ApprovalItem → Option String → Prog Decided
    request_changes approval reason = do
      set_state env approval ReviewState.changes_requested decided_by reason
      pure (record {
        approval_id = approval_id;
        review_state = some ReviewState.changes_requested;
        action_id = none;
        action_state = none;
        denial_code = none;
        result = none;
      })

    -- `reason or "rejected"`
    abbrev pub reject_reason : Option String → Option String
    reject_reason none = some "rejected"
    reject_reason (some r) = some (if str_eq r "" then "rejected" else r)

    -- `decision == "reject"`
    unfoldable pub reject : ApprovalItem → Action → Account → Option String → Prog Decided
    unfolding turn_down
    reject approval action account reason =
        turn_down approval action account (reject_reason reason) DenialCode.approval_required
        >> pure (refusal none)

    -- The end of an approval: the action is executed.
    unfoldable pub approve_and_execute :
        ApprovalItem → Action → Account → Option ContentDraft → Option String → Prog Decided
    unfolding execute
    approve_and_execute approval action account draft reason = do
      set_state env approval ReviewState.approved decided_by reason
      executed ← execute env action account draft action.target action.react_kind decided_by none
      pure (record {
        approval_id = approval_id;
        review_state = some ReviewState.approved;
        action_id = some executed.action_id;
        action_state = some executed.state;
        denial_code = none;
        result = executed.result;
      })

    -- The last of the checks again: the account.
    unfoldable pub approve_eligible :
        ApprovalItem → Action → Account → Option ContentDraft → Option String → Prog Decided
    unfolding turn_down approve_and_execute
    approve_eligible approval action account draft reason = do
      scope ← or_raise (action_consent action.type) Error.key_error
      if not (is_active account) || not (permits account.authorization scope)
          then turn_down approval action account (some "account no longer eligible")
              DenialCode.not_authorized
            >> pure (refusal (some DenialCode.not_authorized))
          else approve_and_execute approval action account draft reason

    -- The second: the revision.
    unfoldable pub approve_current : ApprovalItem → Action → Account → Option String → Prog Decided
    unfolding turn_down approve_eligible
    approve_current approval action account reason = do
      draft ← draft_if action.draft_id
      if is_stale draft approval.pinned_revision
          then turn_down approval action account (some "draft changed after approval")
              DenialCode.approval_stale
            >> pure (refusal (some DenialCode.approval_stale))
          else approve_eligible approval action account draft reason

    -- `approval.is_expired()`, which reads the clock only where there is an expiry
    abbrev pub check_age : ApprovalItem → Prog Bool
    check_age approval = elim approval.expires_at [
      | none ↦ pure false
      | some e ↦ now env >>= λ t. pure (is_expired approval t)
    ]

    -- `decision == "approve"`: the age, the revision and the eligibility are checked again.
    unfoldable pub approve : ApprovalItem → Action → Account → Option String → Prog Decided
    unfolding turn_down approve_current
    approve approval action account reason = do
      expired ← check_age approval
      if expired
          then turn_down approval action account (some "approval expired") DenialCode.approval_stale
            >> pure (refusal (some DenialCode.approval_stale))
          else approve_current approval action account reason

  -- `decide_approval`
  unfoldable pub decide_approval : String → String → String → Option String → Prog Decided
  unfolding load_review request_changes reject approve
  decide_approval approval_id decision decided_by reason = do
    (approval, action, account) ← load_review approval_id
    if str_eq decision "request_changes"
        then request_changes approval_id decided_by approval reason
        else if str_eq decision "reject"
        then reject approval_id decided_by approval action account reason
        else if str_eq decision "approve"
        then approve approval_id decided_by approval action account reason
        else raise Error.invalid_state

  -- `resubmit_approval`
  unfoldable pub resubmit_approval : String → String → Prog ApprovalItem
  unfolding load_review record_review notify
  resubmit_approval caller approval_id = do
    (approval, action, account) ← load_review approval_id
    draft ← draft_if action.draft_id
    reopened ← reopen env approval (draft_revision draft)
    let waiting = record action { state = ActionState.needs_approval }
    upsert_action waiting
    record_review caller waiting account DecisionOutcome.route_to_approval
        DenialCode.approval_required
    notify env reopened account
    pure reopened
