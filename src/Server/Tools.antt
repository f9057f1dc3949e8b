-- ===== src/Server/Tools.antt =====
-- server/mcp_server.py: the tools and the resources with their arguments, as FastMCP has validated them;
-- server/context.py: the name of the calling agent.
use account_pool.Base.{ℕ, String, Option, List, str_eq, if◌then◌else◌}
use account_pool.Base.Int.{ℤ}
use account_pool.Base.Chars.{strip_text}
use account_pool.Domain.Json.{Fields}
use account_pool.Actions.Drafts.{DraftChanges}

-- `normalize_agent`
unfoldable pub normalize_agent : String → String
unfolding strip_text
normalize_agent agent_name =
    let name = strip_text agent_name in if str_eq name "" then "anonymous-agent" else name

-- The arguments of `action_validate` and `policy_explain`
pub record Question : Type 0 where
  pub account_id : String
  pub verb : String
  pub draft_id : Option String
  pub target : Option String
  pub react_kind : Option String
  pub lock_token : Option String

-- A tool that names an agent has it last. A version `none` stands for any negative number.
pub data Tool : Type 0 where
  account_register :
      String
      → String
      → Option String
      → Option Fields
      → Option String
      → Option (List String)
      → String
      → Tool
  account_authorize : String → String → List String → Option String → Option String → String → Tool
  account_connect : String → String → Fields → Option (List String) → Option String → String → Tool
  account_refresh_credentials account_health_check account_disconnect : String → String → Tool
  account_list : Option String → Option String → Option String → Option String → Tool
  account_get account_connection account_resource approval_get : String → Tool
  account_inventory inventory_resource platforms approvals_resource : Tool
  account_checkout : String → Option ℤ → String → Tool
  account_refresh_lock : String → String → Option ℤ → String → Tool
  account_checkin : String → String → String → Tool
  account_patch : String → String → Option ℕ → Fields → String → Tool
  account_retire account_revoke : String → Option String → String → Tool
  draft_create : String → String → Option String → Option (List String) → Option String → Tool
  draft_update : String → DraftChanges → Tool
  action_validate policy_explain : Question → String → Tool
  publish : String → String → String → Option String → Option String → String → Tool
  comment react : String → String → String → String → Option String → String → Tool
  read : String → String → String → Tool
  monitor : String → String → ℤ → String → Tool
  approvals_list : Option String → Option String → Tool
  approval_decide : String → String → String → Option String → Tool
  approval_resubmit : String → String → Tool
  audit_query : Option String → Option String → Option String → ℤ → Tool
