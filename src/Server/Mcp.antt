-- ===== src/Server/Mcp.antt =====
-- server/mcp_server.py: `build_mcp`, what each tool and each resource does. `parse_time` is
-- `datetime.fromisoformat`, whose `none` is its ValueError.
use account_pool.Base.{ℕ, String, true, Option, none, some, length}
use account_pool.Domain.Json.{Fields}
use account_pool.Domain.Models.{Account, Action, Persona}
use account_pool.Runtime.Errors.{Error}
use account_pool.Runtime.World.{Env, World}
use account_pool.Runtime.Monad.{Prog, pure, gets, or_raise, ◌>>=◌}
use account_pool.Db.Accounts.{list_accounts, get_connection}
use account_pool.Db.Records.{get_approval}
use account_pool.Db.Audit.{query_events}
use account_pool.Approvals.{list_open}
use account_pool.Adapters.Net.{Network}
use account_pool.Support.{platform_overview}
use account_pool.Locking.{require_account, checkout, refresh, checkin}
use account_pool.Actions.Context.{given}
use account_pool.Actions.Decide.{decide_approval, resubmit_approval}
use account_pool.Actions.Drafts.{create_draft, update_draft}
use account_pool.Actions.Submit.{publish, comment, react, validate}
use account_pool.Actions.Reads.{read, search}
use account_pool.Accounts.Service.{
  register, authorize, revoke_authorization, connect, refresh_credentials, health_check, retire,
  disconnect,
}
use account_pool.Accounts.Patch.{patch}
use account_pool.Server.Views.{Payload, count_accounts, item_view, each_view}
use account_pool.Server.Bodies.{to_updates}
use account_pool.Server.Rest.{listed, no_accounts, some_version}
use account_pool.Server.Tools.{Tool, Question, normalize_agent}

abbrev shown : Prog Account → Prog Payload
shown m = m >>= λ a. pure (Payload.account a)

abbrev as_standing : Prog Account → Prog Payload
as_standing m = m >>= λ a. pure (Payload.standing a.account_id a.status)

abbrev as_action : Prog Action → Prog Payload
as_action m = m >>= λ a. pure (Payload.action a)

abbrev expiry_of : Account → Option ℕ
expiry_of a = elim a.lock [ none ↦ none | some l ↦ some l.expires_at ]

-- `_parse_dt`
abbrev pub parse_dt : (String → Option ℕ) → Option String → Prog (Option ℕ)
parse_dt parse_time value = elim (given value) [
  | none ↦ pure none
  | some s ↦ or_raise (parse_time s) Error.value_error >>= λ t. pure (some t)
]

module _ (parse_persona : Fields → Option Persona) (parse_time : String → Option ℕ) (net : Network)
    (env : Env) (meanwhile : ℕ → World → World) where
  -- `account_inventory`
  unfoldable pub fleet_overview : Prog Payload
  unfolding count_accounts
  fleet_overview = do
    accounts ← list_accounts none none none none
    counts ← count_accounts env true accounts no_accounts
    waiting ← list_open env none none
    pure (Payload.inventory (record counts { open_approvals = length waiting }))

  -- `account_connection`
  unfoldable pub connection_of : String → Prog Payload
  connection_of id = require_account id >>= λ a. elim (given a.connection_id) [
    | none ↦ pure (Payload.connection none)
    | some c ↦ get_connection c >>= λ found. pure (Payload.connection found)
  ]

  -- `approval_get`, which answers a missing item with a dict.
  unfoldable pub approval_of_id : String → Prog Payload
  approval_of_id id = get_approval id >>= λ found. elim found [
    | none ↦ pure (Payload.error "NotFound")
    | some queued ↦ pure (Payload.item queued)
  ]

  -- `action_validate` and `policy_explain`
  unfoldable pub explained : String → Question → Prog Payload
  explained who q = do
    v ← validate env who q.account_id q.verb q.draft_id q.target q.react_kind q.lock_token
    pure (Payload.verdict v)

  -- The tools
  unfoldable pub run_tool : Tool → Prog Payload
  unfolding normalize_agent fleet_overview connection_of approval_of_id explained listed each_view
      item_view to_updates
  run_tool (Tool.account_register platform handle name persona pool tags agent) =
      shown
        (register env (normalize_agent agent) parse_persona platform handle name persona pool tags)
  run_tool (Tool.account_authorize id owner scopes evidence attested agent) =
      shown (authorize env (normalize_agent agent) id owner scopes evidence attested)
  run_tool (Tool.account_connect id kind credentials scopes provider agent) =
      shown (connect env (normalize_agent agent) id kind credentials scopes provider)
  run_tool (Tool.account_refresh_credentials id agent) =
      shown (refresh_credentials env (normalize_agent agent) id)
  run_tool (Tool.account_health_check id agent) =
      health_check env (normalize_agent agent) id >>= λ a.
      pure (Payload.health a.account_id a.health)
  run_tool (Tool.account_disconnect id agent) =
      as_standing (disconnect env (normalize_agent agent) id)
  run_tool (Tool.account_list platform status pool tag) =
      listed parse_persona net env platform status pool tag
  run_tool (Tool.account_get id) = shown (require_account id)
  run_tool (Tool.account_resource id) = shown (require_account id)
  run_tool (Tool.account_connection id) = connection_of id
  run_tool Tool.account_inventory = fleet_overview
  run_tool Tool.inventory_resource = fleet_overview
  run_tool Tool.platforms = pure (Payload.platforms (platform_overview net))
  run_tool (Tool.account_checkout id ttl agent) =
      checkout env meanwhile id (normalize_agent agent) ttl >>= λ a.
      pure (Payload.lease a.account_id a.lock a.record_version)
  run_tool (Tool.account_refresh_lock id token ttl agent) =
      refresh env id (normalize_agent agent) token ttl >>= λ a.
      pure (Payload.extended a.account_id (expiry_of a))
  run_tool (Tool.account_checkin id token agent) =
      as_standing (checkin env id (normalize_agent agent) token)
  run_tool (Tool.account_patch id token version updates agent) =
      gets (some_version id version) >>= λ expected.
      shown (patch parse_persona env (normalize_agent agent) id token expected (to_updates updates))
  run_tool (Tool.account_retire id reason agent) =
      as_standing (retire env (normalize_agent agent) id)
  run_tool (Tool.account_revoke id reason agent) =
      as_standing (revoke_authorization env (normalize_agent agent) id)
  run_tool (Tool.draft_create id body title media disclosure) =
      create_draft env id body title media disclosure >>= λ d. pure (Payload.draft d)
  run_tool (Tool.draft_update id changes) =
      update_draft env id changes >>= λ d. pure (Payload.draft d)
  run_tool (Tool.action_validate q agent) = explained (normalize_agent agent) q
  run_tool (Tool.policy_explain q agent) = explained (normalize_agent agent) q
  run_tool (Tool.publish id token draft key at agent) = parse_dt parse_time at >>= λ t.
      as_action (publish env (normalize_agent agent) id token draft key t)
  run_tool (Tool.comment id token raw draft key agent) =
      as_action (comment env (normalize_agent agent) id token raw draft key)
  run_tool (Tool.react id token raw kind key agent) =
      as_action (react env (normalize_agent agent) id token raw kind key)
  run_tool (Tool.read id raw agent) = as_action (read env (normalize_agent agent) id raw)
  run_tool (Tool.monitor id query limit agent) =
      as_action (search env (normalize_agent agent) id query limit)
  run_tool (Tool.approvals_list platform account_id) = do
    items ← list_open env platform account_id
    views ← each_view env (item_view env) items
    pure (Payload.approvals views)
  run_tool (Tool.approval_get id) = approval_of_id id
  run_tool (Tool.approval_decide id decision by reason) =
      decide_approval env id decision by reason >>= λ d. pure (Payload.decided d)
  run_tool (Tool.approval_resubmit id agent) =
      resubmit_approval env (normalize_agent agent) id >>= λ queued. pure (Payload.item queued)
  run_tool Tool.approvals_resource = list_open env none none >>= λ items. pure (Payload.items items)
  run_tool (Tool.audit_query account_id action_id verb limit) =
      query_events account_id action_id verb limit >>= λ found. pure (Payload.events found)
