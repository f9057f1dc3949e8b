-- ===== src/Approvals.antt =====
-- approvals/queue.py: `ApprovalQueue`.
use Prim.Native.String.{◌++◌ as append}
use text.Mathlib.Text.{starts_with}
use account_pool.Base.{
  ℕ, String, true, Option, none, some, List, select, str_eq, if◌then◌else◌, is_some,
}
use account_pool.Base.Int.{ℤ, not_positive}
use account_pool.Domain.Enums.{ReviewState}
use account_pool.Domain.Models.{Action, ApprovalItem, add_seconds}
use account_pool.Runtime.Errors.{Error}
use account_pool.Runtime.World.{Env}
use account_pool.Runtime.Monad.{Prog, pure, or_raise, now, new_id, ◌>>=◌}
use account_pool.Db.Records.{upsert_approval, list_open_rows}

-- `now + timedelta(seconds=ttl) if ttl > 0 else None`
unfoldable pub expiry : ℕ → ℤ → Prog (Option ℕ)
expiry t ttl =
    if not_positive ttl
    then pure none
    else or_raise (add_seconds t ttl) Error.overflow_error >>= λ e. pure (some e)

module _ (env : Env) where
  -- `ApprovalQueue.submit`
  unfoldable pub submit : Action → Option ℕ → Prog ApprovalItem
  unfolding expiry
  submit action pinned_revision = do
    t ← now env
    approval_id ← new_id env "appr"
    expires_at ← expiry t env.approval_ttl
    created_at ← now env
    upsert_approval env (record {
      approval_id = approval_id;
      action_id = action.action_id;
      account_id = action.account_id;
      review_state = ReviewState.opened;
      pinned_revision = pinned_revision;
      decided_by = none;
      decided_at = none;
      reason = none;
      created_at = created_at;
      expires_at = expires_at;
    })

  -- `ApprovalQueue.reopen`
  unfoldable pub reopen : ApprovalItem → Option ℕ → Prog ApprovalItem
  unfolding expiry
  reopen approval pinned_revision =
      if not_positive env.approval_ttl then upsert_approval env (fresh none) else do
        t ← now env
        expires_at ← expiry t env.approval_ttl
        upsert_approval env (fresh expires_at)
    where
      fresh : Option ℕ → ApprovalItem
      fresh expires_at = record approval {
        review_state = ReviewState.opened;
        pinned_revision = pinned_revision;
        decided_by = none;
        decided_at = none;
        reason = none;
        expires_at = expires_at;
      }

  -- `ApprovalQueue.set_state`; every caller names who decided.
  unfoldable pub set_state : ApprovalItem → ReviewState → String → Option String → Prog ApprovalItem
  set_state approval state decided_by reason = do
    t ← now env
    upsert_approval env (record approval {
      review_state = state;
      decided_by = some decided_by;
      decided_at = some t;
      reason = if is_some reason then reason else approval.reason;
    })

  -- `ApprovalQueue.list_open`, with its default of `include_expired`
  unfoldable pub list_open : Option String → Option String → Prog (List ApprovalItem)
  list_open platform account_id = list_open_rows >>= λ items. pure (
      select
        (λ (i : ApprovalItem). elim platform [
          | none ↦ true
          | some p ↦ starts_with i.account_id (append "acct_" (append p "_"))
        ])
        (select
          (λ (i : ApprovalItem). elim account_id [ none ↦ true | some a ↦ str_eq i.account_id a ])
          items))
