-- ===== src/Server/Routes.antt =====
-- server/rest_admin.py: the routes of the administration, and who may use them.
use Prim.Native.String.{◌++◌ as append}
use account_pool.Base.{String, Bool, true, false, not, Option, none, some, str_eq}
use account_pool.Base.Int.{ℤ}
use account_pool.Domain.Json.{Fields}
use account_pool.Actions.Context.{given}

-- A request that was routed: the parts of its path, its query or its body.
pub data Route : Type 0 where
  dashboard health config : Route
  list_accounts_by : Option String → Option String → Option String → Option String → Route
  get_account account_connection : String → Route
  create_account : Fields → Route
  authorize connect refresh_credentials account_health : String → Fields → Route
  checkout checkin patch_account retire revoke disconnect : String → Fields → Route
  inventory platforms : Route
  list_approvals : Option String → Option String → Route
  get_approval_of : String → Route
  decide resubmit : String → Fields → Route
  audit : Option String → Option String → Option String → ℤ → Route

-- The routes without `dependencies=auth`
abbrev pub is_open : Route → Bool
is_open Route.dashboard = true
is_open Route.health = true
is_open Route.config = true
is_open _ = false

-- The settings that the surface reads; `bearer` is the variable that `admin_bearer_env` names.
pub record Surface : Type 0 where
  pub bearer : Option String
  pub is_prod : Bool

abbrev is_header : String → Option String → Bool
is_header expected none = false
is_header expected (some h) = str_eq h (append "Bearer " expected)

-- `require_auth`, which raises where this is false
unfoldable pub may_enter : Surface → Option String → Bool
may_enter s header = elim (given s.bearer) [
  | none ↦ not s.is_prod
  | some expected ↦ is_header expected header
]
