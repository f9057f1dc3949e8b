-- ===== src/Adapters/Interface.antt =====
-- adapters/base.py: the interface of `PlatformAdapter`. Adapters talk to a network, so what one
-- answers may depend on every call made before: an adapter is a function of that history.
use account_pool.Base.{String, Bool, true, false, Option, List}
use account_pool.Base.Int.{ℤ}
use account_pool.Domain.Json.{Fields}
use account_pool.Domain.Enums.{HealthStatus}
use account_pool.Domain.Models.{
  Account, Capabilities, ContentDraft, TargetRef, ActionResult, ReadResult,
}
use account_pool.Runtime.Errors.{Result}

pub record AdapterSession : Type 0 where
  pub account : Account
  pub credentials : Fields

pub record AuthState : Type 0 where
  pub ok : Bool
  pub platform_user_id : Option String
  pub display_name : Option String
  pub scopes : List String
  pub detail : Fields

pub record RefreshResult : Type 0 where
  pub auth : AuthState
  pub new_credentials : Option Fields

pub record HealthReport : Type 0 where
  pub status : HealthStatus
  pub error : Option String
  pub detail : Fields

pub record ComplianceState : Type 0 where
  pub ok : Bool
  pub bot_flag_set : Bool
  pub self_label : Option String
  pub detail : Fields

-- A call of an adapter's method, with all its arguments.
pub data AdapterCall : Type 0 where
  authenticate refresh_credentials health_check : AdapterSession → AdapterCall
  ensure_self_identification : AdapterSession → AdapterCall
  publish : AdapterSession → Option ContentDraft → Bool → AdapterCall
  comment : AdapterSession → Option TargetRef → Option ContentDraft → Bool → AdapterCall
  react : AdapterSession → Option TargetRef → String → Bool → AdapterCall
  read : AdapterSession → TargetRef → AdapterCall
  search : AdapterSession → String → ℤ → AdapterCall
  resolve_target : AdapterSession → String → AdapterCall

abbrev pub History : Type 0
History = List AdapterCall

pub record Adapter : Type 0 where
  pub capabilities : Capabilities
  pub on_authenticate : History → AdapterSession → Result AuthState
  pub on_refresh_credentials : History → AdapterSession → Result RefreshResult
  pub on_health_check : History → AdapterSession → Result HealthReport
  pub on_ensure_self_identification : History → AdapterSession → Result ComplianceState
  pub on_publish : History → AdapterSession → Option ContentDraft → Bool → Result ActionResult
  pub on_comment :
      History → AdapterSession → Option TargetRef → Option ContentDraft → Bool → Result ActionResult
  pub on_react : History → AdapterSession → Option TargetRef → String → Bool → Result ActionResult
  pub on_read : History → AdapterSession → TargetRef → Result ReadResult
  pub on_search : History → AdapterSession → String → ℤ → Result ReadResult
  pub on_resolve_target : History → AdapterSession → String → Result TargetRef

-- A call that asks the platform to change something.
abbrev pub is_write_call : AdapterCall → Bool
is_write_call (AdapterCall.publish s d dry) = true
is_write_call (AdapterCall.comment s t d dry) = true
is_write_call (AdapterCall.react s t k dry) = true
is_write_call _ = false
