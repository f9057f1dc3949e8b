-- ===== src/Server/Answers.antt =====
-- server/rest_admin.py: `build_admin_app`, a request and its answer.
use account_pool.Base.{ℕ, String, ◌||◌, Option, none, some, if◌then◌else◌}
use account_pool.Domain.Json.{Fields}
use account_pool.Domain.Models.{Persona}
use account_pool.Runtime.Errors.{Error, Result, ok, raised}
use account_pool.Runtime.World.{Env, World}
use account_pool.Runtime.Monad.{Prog, pure, or_raise, ◌>>=◌}
use account_pool.Db.Accounts.{get_connection}
use account_pool.Db.Records.{get_approval}
use account_pool.Db.Audit.{query_events}
use account_pool.Approvals.{list_open}
use account_pool.Adapters.Net.{Network}
use account_pool.Support.{platform_overview}
use account_pool.Locking.{require_account}
use account_pool.Actions.Context.{given, lift}
use account_pool.Actions.Decide.{resubmit_approval}
use account_pool.Accounts.Service.{
  revoke_authorization, refresh_credentials, health_check, retire, disconnect,
}
use account_pool.Server.Views.{Payload, approval_view, each_view}
use account_pool.Server.Routes.{Route, Surface, is_open, may_enter}
use account_pool.Server.Rest.{
  agent, text_at?, created, listed, authorize_with, connect_with, checked_out, checked_in,
  patched_by, counted, decided_by,
}
use account_pool.Server.Bodies.{text_or}

-- `_ERROR_STATUS`; any other exception is not handled, and the server answers 500.
unfoldable pub error_status : Error → ℕ
error_status Error.not_found = 404
error_status Error.lock_held = 423
error_status Error.conflict = 409
error_status Error.invalid_state = 409
error_status _ = 500

-- `type(exc).__name__`
abbrev error_name : Error → String
error_name Error.not_found = "NotFound"
error_name Error.lock_held = "LockHeld"
error_name Error.conflict = "Conflict"
error_name Error.invalid_state = "InvalidState"
error_name _ = "Internal Server Error"

pub record Answer : Type 0 where
  pub code : ℕ
  pub content : Payload

unfoldable pub answer : Result Payload → Answer
unfolding error_status
answer (ok p) = record { code = 200; content = p }
answer (raised e) = record { code = error_status e; content = Payload.error (error_name e) }

-- `HTTPException(status_code=401)`
abbrev pub unauthorized : Answer
unauthorized = record { code = 401; content = Payload.error "HTTPException" }

module _ (parse_persona : Fields → Option Persona) (net : Network) (env : Env) where
  module _ (meanwhile : ℕ → World → World) where
    -- The handlers
    unfoldable pub handle : Route → Prog Payload
    unfolding created listed authorize_with connect_with checked_out checked_in patched_by counted
        decided_by each_view approval_view
    handle Route.dashboard = pure Payload.page
    handle Route.health = pure Payload.page
    handle Route.config = pure Payload.page
    handle (Route.list_accounts_by platform status pool tag) =
        listed parse_persona net env platform status pool tag
    handle (Route.get_account id) = require_account id >>= λ a. pure (Payload.account a)
    handle (Route.account_connection id) = require_account id >>= λ a.
        elim (given a.connection_id) [
          | none ↦ pure (Payload.connection none)
          | some c ↦ get_connection c >>= λ found. pure (Payload.connection found)
        ]
    handle (Route.create_account body) =
        created parse_persona net env body >>= λ a. pure (Payload.account a)
    handle (Route.authorize id body) = do
      caller ← agent body
      a ← authorize_with parse_persona net env caller id body
      pure (Payload.account a)
    handle (Route.connect id body) = do
      caller ← agent body
      a ← connect_with parse_persona net env caller id body
      pure (Payload.account a)
    handle (Route.refresh_credentials id body) = do
      caller ← agent body
      a ← refresh_credentials env caller id
      pure (Payload.account a)
    handle (Route.account_health id body) = do
      caller ← agent body
      a ← health_check env caller id
      pure (Payload.health a.account_id a.health)
    handle (Route.checkout id body) = checked_out parse_persona net env meanwhile id body
    handle (Route.checkin id body) = checked_in parse_persona net env meanwhile id body
    handle (Route.patch_account id body) =
        patched_by parse_persona net env meanwhile id body >>= λ a. pure (Payload.account a)
    handle (Route.retire id body) = do
      caller ← agent body
      reason ← text_at? "reason" body
      a ← retire env caller id
      pure (Payload.standing a.account_id a.status)
    handle (Route.revoke id body) = do
      caller ← agent body
      reason ← text_at? "reason" body
      a ← revoke_authorization env caller id
      pure (Payload.standing a.account_id a.status)
    handle (Route.disconnect id body) = do
      caller ← agent body
      a ← disconnect env caller id
      pure (Payload.standing a.account_id a.status)
    handle Route.inventory = counted parse_persona net env meanwhile
    handle Route.platforms = pure (Payload.platforms (platform_overview net))
    handle (Route.list_approvals platform account_id) = do
      items ← list_open env platform account_id
      shown ← each_view env (approval_view env) items
      pure (Payload.approvals shown)
    handle (Route.get_approval_of id) = do
      found ← get_approval id
      queued ← or_raise found Error.not_found
      shown ← approval_view env queued
      pure (Payload.approval shown)
    handle (Route.decide id body) = decided_by parse_persona net env meanwhile id body
    handle (Route.resubmit id body) = do
      caller ← lift (text_or "caller" "admin" body)
      queued ← resubmit_approval env caller id
      pure (Payload.item queued)
    handle (Route.audit account_id action_id verb limit) = do
      found ← query_events account_id action_id verb limit
      pure (Payload.events found)

    -- A request with its header
    unfoldable pub serve : Surface → Option String → Route → World → Answer × World
    unfolding handle may_enter answer
    serve s header route w =
        if is_open route || may_enter s header
        then (let (r, w') = handle route w in (answer r, w'))
        else (unauthorized, w)
