-- ===== src/Server/Views.antt =====
-- server/mcp_server.py and rest_admin.py: what the surfaces show of the state.
use account_pool.Base.{
  ℕ, ◌+◌, String, Bool, false, Option, none, some, List, [], ◌∷◌, ◌++◌, str_eq, if◌then◌else◌,
}
use account_pool.Domain.Enums.{Platform, LifecycleState, HealthStatus, ActionType, platform_value}
use account_pool.Domain.Models.{
  Account, Action, ApprovalItem, AuditEvent, Connection, ContentDraft, HealthState, LockLease,
  lease_active, is_expired,
}
use account_pool.Runtime.World.{Env, World}
use account_pool.Runtime.Monad.{Prog, pure, gets, now, ◌>>=◌}
use account_pool.Db.Accounts.{account_of}
use account_pool.Db.Records.{action_of}
use account_pool.Table.{find}
use account_pool.Actions.Context.{given}
use account_pool.Actions.Decide.{Decided}
use account_pool.Actions.Submit.{Verdict}
use account_pool.Support.{PlatformRow}

-- `LifecycleState.value`
abbrev pub status_value : LifecycleState → String
status_value LifecycleState.draft = "draft"
status_value LifecycleState.connected = "connected"
status_value LifecycleState.active = "active"
status_value LifecycleState.suspended = "suspended"
status_value LifecycleState.retired = "retired"

-- The dict of `_account_summary`.
pub record Summary : Type 0 where
  pub account_id : String
  pub platform : Platform
  pub handle : String
  pub status : LifecycleState
  pub health : HealthStatus
  pub requires_approval : Bool
  pub record_version : ℕ
  pub locked_by : Option String
  pub tags : List String
  pub pool : Option String

-- `approval.model_dump() | {...}` of `_approval_view`; the MCP surface shows the first two.
pub record ApprovalView : Type 0 where
  pub approval : ApprovalItem
  pub expired : Bool
  pub platform : Option Platform
  pub handle : Option String
  pub verb : Option ActionType
  pub target : Option String
  pub draft : Option (Option String × String)

pub record Inventory : Type 0 where
  pub total : ℕ
  pub by_status : List (String × ℕ)
  pub by_platform : List (String × ℕ)
  -- only of the MCP surface: the account and the holder
  pub locked : List (String × String)
  pub open_approvals : ℕ

-- What a route or a tool returns.
pub data Payload : Type 0 where
  account : Account → Payload
  summaries : List Summary → Payload
  connection : Option Connection → Payload
  health : String → HealthState → Payload
  lease : String → Option LockLease → ℕ → Payload
  -- the expiry of a lease that was extended
  extended : String → Option ℕ → Payload
  standing : String → LifecycleState → Payload
  inventory : Inventory → Payload
  platforms : List PlatformRow → Payload
  approvals : List ApprovalView → Payload
  approval : ApprovalView → Payload
  item : ApprovalItem → Payload
  items : List ApprovalItem → Payload
  decided : Decided → Payload
  events : List AuditEvent → Payload
  draft : ContentDraft → Payload
  action : Action → Payload
  verdict : Verdict → Payload
  error : String → Payload
  -- a page, or the settings
  page : Payload

-- `d[key] = d.get(key, 0) + 1`
unfoldable pub bump : String → List (String × ℕ) → List (String × ℕ)
bump k [] = (k, 1) ∷ []
bump k ((j, n) ∷ rest) = if str_eq j k then (j, n + 1) ∷ rest else (j, n) ∷ bump k rest

-- `d.get(key, 0)`
abbrev pub count_of : String → List (String × ℕ) → ℕ
count_of k [] = 0
count_of k ((j, n) ∷ rest) = if str_eq j k then n else count_of k rest

module _ (env : Env) where
  -- `a.lock and a.lock.is_active()`, which reads the clock only where there is a lease
  unfoldable pub active_holder : Account → Prog (Option String)
  active_holder a = elim a.lock [
    | none ↦ pure none
    | some l ↦ now env >>= λ t. pure (if lease_active l t then some l.holder else none)
  ]

  -- `_account_summary`
  unfoldable pub summary : Account → Prog Summary
  unfolding active_holder
  summary a = do
    holder ← active_holder a
    pure (record {
      account_id = a.account_id;
      platform = a.platform;
      handle = a.handle;
      status = a.status;
      health = a.health.status;
      requires_approval = a.requires_approval;
      record_version = a.record_version;
      locked_by = holder;
      tags = a.tags;
      pool = a.pool;
    })

  -- `[_account_summary(a) for a in accounts]`
  unfoldable pub summary_list : List Account → Prog (List Summary)
  unfolding summary
  summary_list [] = pure []
  summary_list (a ∷ rest) = do s ← summary a; others ← summary_list rest; pure (s ∷ others)

  abbrev pub with_account : Account → Option String → Inventory → Inventory
  with_account a holder i = record i {
    total = i.total + 1;
    by_status = bump (status_value a.status) i.by_status;
    by_platform = bump (platform_value a.platform) i.by_platform;
    locked = elim holder [ none ↦ i.locked | some h ↦ i.locked ++ (a.account_id, h) ∷ [] ];
  }

  -- The loop of `account_inventory`, which asks for the leases, and of `inventory`, which does not.
  unfoldable pub count_accounts : Bool → List Account → Inventory → Prog Inventory
  unfolding active_holder bump
  count_accounts leases [] i = pure i
  count_accounts leases (a ∷ rest) i = (if leases then active_holder a else pure none) >>= λ holder.
      count_accounts leases rest (with_account a holder i)

  -- `approval.is_expired()`
  unfoldable pub expired_now : ApprovalItem → Prog Bool
  expired_now a = elim a.expires_at [
    | none ↦ pure false
    | some e ↦ now env >>= λ t. pure (is_expired a t)
  ]

  abbrev target_text : Option Action → Option String
  target_text none = none
  target_text (some a) = elim a.target [ none ↦ none | some t ↦ some t.raw ]

  abbrev verb_shown : Option Action → Option ActionType
  verb_shown none = none
  verb_shown (some a) = some a.type

  abbrev draft_shown : Option Action → World → Option (Option String × String)
  draft_shown none w = none
  draft_shown (some a) w = elim (given a.draft_id) [
    | none ↦ none
    | some id ↦ elim (find id w.drafts) [ none ↦ none | some d ↦ some (d.title, d.body) ]
  ]

  abbrev owner_shown : Option Account → Option Platform × Option String
  owner_shown none = (none, none)
  owner_shown (some a) = (some a.platform, some a.handle)

  -- `_approval_view`
  unfoldable pub approval_view : ApprovalItem → Prog ApprovalView
  unfolding expired_now
  approval_view queued = do
    owner ← gets (λ w. owner_shown (account_of w.accounts queued.account_id))
    act ← gets (λ w. action_of w.actions queued.action_id)
    shown ← gets (draft_shown act)
    expired ← expired_now queued
    pure (record {
      approval = queued;
      expired = expired;
      platform = owner.0;
      handle = owner.1;
      verb = verb_shown act;
      target = target_text act;
      draft = shown;
    })

  -- What `approvals_list` shows of an item
  unfoldable pub item_view : ApprovalItem → Prog ApprovalView
  unfolding expired_now
  item_view queued = expired_now queued >>= λ expired. pure (record {
    approval = queued;
    expired = expired;
    platform = none;
    handle = none;
    verb = none;
    target = none;
    draft = none;
  })

  unfoldable pub each_view :
      (ApprovalItem → Prog ApprovalView) → List ApprovalItem → Prog (List ApprovalView)
  each_view f [] = pure []
  each_view f (i ∷ rest) = do v ← f i; others ← each_view f rest; pure (v ∷ others)
