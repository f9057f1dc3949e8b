-- ===== src/Adapters/Replay.antt =====
-- adapters/base.py over a network: an adapter whose methods make requests, and the `Adapter` that the
-- services see. An answer depends on the requests before it, and those follow from the calls before.
use account_pool.Base.{String, Bool, true, Option, none, some, [], ◌∷◌}
use account_pool.Base.Int.{ℤ}
use account_pool.Domain.Json.{end}
use account_pool.Domain.Enums.{Platform}
use account_pool.Domain.Models.{
  Account, Capabilities, ContentDraft, TargetRef, ActionResult, ReadResult,
}
use account_pool.Runtime.Errors.{Error}
use account_pool.Adapters.Interface.{
  Adapter, AdapterCall, AdapterSession, AuthState, RefreshResult, HealthReport, ComplianceState,
  History,
}
use account_pool.Adapters.Net.{Net, Requests, pure, raise}

-- `PlatformAdapter`, with its methods as programs over the network.
pub record NetAdapter : Type 0 where
  pub capabilities : Capabilities
  pub authenticate : AdapterSession → Net AuthState
  pub refresh_credentials : AdapterSession → Net RefreshResult
  pub health_check : AdapterSession → Net HealthReport
  pub ensure_self_identification : AdapterSession → Net ComplianceState
  pub publish : AdapterSession → Option ContentDraft → Bool → Net ActionResult
  pub comment : AdapterSession → Option TargetRef → Option ContentDraft → Bool → Net ActionResult
  pub react : AdapterSession → Option TargetRef → String → Bool → Net ActionResult
  pub read : AdapterSession → TargetRef → Net ReadResult
  pub search : AdapterSession → String → ℤ → Net ReadResult
  pub resolve_target : AdapterSession → String → Net TargetRef

-- The methods of the base class that an adapter may leave as they are.
abbrev pub unsupported : {A : Type 0} → Net A
unsupported = raise Error.unsupported_capability

-- `PlatformAdapter.refresh_credentials`
unfoldable pub base_refresh : AdapterSession → Net RefreshResult
base_refresh s = pure (record {
  auth = record {
    ok = true;
    platform_user_id = none;
    display_name = none;
    scopes = [];
    detail = end;
  };
  new_credentials = none;
})

-- The requests that a call makes, appended to those before.
unfoldable pub run_call : NetAdapter → AdapterCall → Requests → Requests
run_call a (AdapterCall.authenticate s) log = (a.authenticate s log).1
run_call a (AdapterCall.refresh_credentials s) log = (a.refresh_credentials s log).1
run_call a (AdapterCall.health_check s) log = (a.health_check s log).1
run_call a (AdapterCall.ensure_self_identification s) log = (a.ensure_self_identification s log).1
run_call a (AdapterCall.publish s d dry) log = (a.publish s d dry log).1
run_call a (AdapterCall.comment s t d dry) log = (a.comment s t d dry log).1
run_call a (AdapterCall.react s t k dry) log = (a.react s t k dry log).1
run_call a (AdapterCall.read s t) log = (a.read s t log).1
run_call a (AdapterCall.search s q n) log = (a.search s q n log).1
run_call a (AdapterCall.resolve_target s raw) log = (a.resolve_target s raw log).1

-- The account that a call is for.
abbrev pub call_account : AdapterCall → Account
call_account (AdapterCall.authenticate s) = s.account
call_account (AdapterCall.refresh_credentials s) = s.account
call_account (AdapterCall.health_check s) = s.account
call_account (AdapterCall.ensure_self_identification s) = s.account
call_account (AdapterCall.publish s d dry) = s.account
call_account (AdapterCall.comment s t d dry) = s.account
call_account (AdapterCall.react s t k dry) = s.account
call_account (AdapterCall.read s t) = s.account
call_account (AdapterCall.search s q n) = s.account
call_account (AdapterCall.resolve_target s raw) = s.account

-- The adapters that the platforms have on the network.
abbrev pub Fleet : Type 0
Fleet = Platform → Option NetAdapter

module _ (fleet : Fleet) where
  -- A call goes to the adapter of its account's platform, if that is on the network.
  unfoldable pub route_call : AdapterCall → Requests → Requests
  unfolding run_call
  route_call call log = elim (fleet (call_account call).platform) [
    | none ↦ log
    | some a ↦ run_call a call log
  ]

  -- The requests of a history of calls.
  unfoldable pub replay : Requests → History → Requests
  unfolding route_call
  replay log [] = log
  replay log (call ∷ rest) = replay (route_call call log) rest

  -- What the services see of an adapter on the network.
  unfoldable pub as_adapter : NetAdapter → Adapter
  unfolding replay
  as_adapter a = record {
    capabilities = a.capabilities;
    on_authenticate = λ h s. (a.authenticate s (replay [] h)).0;
    on_refresh_credentials = λ h s. (a.refresh_credentials s (replay [] h)).0;
    on_health_check = λ h s. (a.health_check s (replay [] h)).0;
    on_ensure_self_identification = λ h s. (a.ensure_self_identification s (replay [] h)).0;
    on_publish = λ h s d dry. (a.publish s d dry (replay [] h)).0;
    on_comment = λ h s t d dry. (a.comment s t d dry (replay [] h)).0;
    on_react = λ h s t k dry. (a.react s t k dry (replay [] h)).0;
    on_read = λ h s t. (a.read s t (replay [] h)).0;
    on_search = λ h s q n. (a.search s q n (replay [] h)).0;
    on_resolve_target = λ h s raw. (a.resolve_target s raw (replay [] h)).0;
  }
