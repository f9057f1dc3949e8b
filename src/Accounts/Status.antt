-- ===== src/Accounts/Status.antt =====
-- accounts/service.py: `_recompute_status`, and the values that the service parses.
use account_pool.Base.{
  String, Bool, true, false, ◌&&◌, Option, none, some, List, [], ◌∷◌, str_eq, is_some,
  if◌then◌else◌,
}
use account_pool.Domain.Enums.{
  Platform, ConsentScope, LifecycleState, AuthType, ConnectionProviderKind, platform_value,
}
use account_pool.Domain.Models.{Account, is_effective}
use account_pool.Actions.Context.{given}

abbrev pub is_final : LifecycleState → Bool
is_final LifecycleState.suspended = true
is_final LifecycleState.retired = true
is_final _ = false

abbrev pub is_connected : Account → Bool
is_connected a = is_some (given a.connection_id)

-- The status that a connection and an authorization make.
abbrev pub earned_status : Account → LifecycleState
earned_status a =
    if is_connected a && is_effective a.authorization
    then LifecycleState.active
    else if is_connected a
    then LifecycleState.connected
    else LifecycleState.draft

-- `_recompute_status`
unfoldable pub recompute_status : Account → Account
recompute_status a = if is_final a.status then a else record a { status = earned_status a }

abbrev all_platforms : List Platform
all_platforms =
    Platform.reddit ∷ Platform.mastodon ∷ Platform.bluesky ∷ Platform.twitter ∷ Platform.medium
    ∷ Platform.substack ∷ Platform.linkedin ∷ Platform.facebook ∷ Platform.instagram
    ∷ Platform.threads ∷ Platform.youtube ∷ Platform.tiktok ∷ Platform.discord ∷ Platform.telegram
    ∷ Platform.pinterest ∷ Platform.lemmy ∷ Platform.nostr ∷ []

abbrev first_named : String → List Platform → Option Platform
first_named s [] = none
first_named s (p ∷ rest) = if str_eq (platform_value p) s then some p else first_named s rest

-- `Platform(value)`: `none` stands for the `ValueError`, here and below.
unfoldable pub parse_platform : String → Option Platform
parse_platform s = first_named s all_platforms

-- `ConsentScope(value)`
unfoldable pub parse_scope : String → Option ConsentScope
parse_scope s =
    if str_eq s "publish"
    then some ConsentScope.publish
    else if str_eq s "comment"
    then some ConsentScope.comment
    else if str_eq s "react"
    then some ConsentScope.react
    else if str_eq s "read"
    then some ConsentScope.read
    else none

-- `[ConsentScope(s) for s in consent_scope]`
unfoldable pub parse_scopes : List String → Option (List ConsentScope)
unfolding parse_scope
parse_scopes [] = some []
parse_scopes (s ∷ rest) =
    let others = parse_scopes rest in
    elim (parse_scope s) [
      | none ↦ none
      | some scope ↦ elim others [ none ↦ none | some more ↦ some (scope ∷ more) ]
    ]

-- `LifecycleState(value)`
unfoldable pub parse_status : String → Option LifecycleState
parse_status s =
    if str_eq s "draft"
    then some LifecycleState.draft
    else if str_eq s "connected"
    then some LifecycleState.connected
    else if str_eq s "active"
    then some LifecycleState.active
    else if str_eq s "suspended"
    then some LifecycleState.suspended
    else if str_eq s "retired"
    then some LifecycleState.retired
    else none

-- `AuthType(value)`
unfoldable pub parse_auth_type : String → Option AuthType
parse_auth_type s =
    if str_eq s "oauth2"
    then some AuthType.oauth2
    else if str_eq s "app_password"
    then some AuthType.app_password
    else if str_eq s "api_key"
    then some AuthType.api_key
    else none

-- `ConnectionProviderKind(value)`
unfoldable pub parse_provider : String → Option ConnectionProviderKind
parse_provider s =
    if str_eq s "builtin"
    then some ConnectionProviderKind.builtin
    else if str_eq s "nango"
    then some ConnectionProviderKind.nango
    else if str_eq s "composio"
    then some ConnectionProviderKind.composio
    else none
