-- ===== src/Adapters/Mastodon.antt =====
-- adapters/mastodon.py: `MastodonAdapter` over Mastodon.py.
use account_pool.Base.{
  String, Bool, true, false, ◌||◌, Option, none, some, [], ◌∷◌, str_eq, if◌then◌else◌,
}
use account_pool.Base.Int.{ℤ}
use account_pool.Base.Chars.{lower_text}
use account_pool.Domain.Json.{
  Json, bool, text, arr, Fields, end, field, obj, get_field, truthy, nil,
}
use account_pool.Domain.Enums.{Platform, HealthStatus, PublishMode}
use account_pool.Domain.Models.{Capabilities, ContentDraft, TargetRef, ActionResult, ReadResult}
use account_pool.Runtime.Errors.{Error, Result, ok, raised}
use account_pool.Adapters.Interface.{
  AdapterSession, AuthState, RefreshResult, HealthReport, ComplianceState,
}
use account_pool.Adapters.Net.{
  Network, Net, Method, request, pure, lift, or_raise, on_exception, dict_get, or_json, as_opt_str,
  py_str, iterate, filled, simulated, acted, traverse, up_to, credential, ◌>>=◌, ◌>>◌,
}
use account_pool.Adapters.Replay.{NetAdapter}
use account_pool.Adapters.StatusIds.{status_id}

unfoldable pub mastodon_capabilities : Capabilities
mastodon_capabilities = record {
  platform = Platform.mastodon;
  publish_mode = PublishMode.api;
  can_publish = true;
  can_comment = true;
  can_read = true;
  can_search = true;
  can_react = true;
  can_vote = false;
  supports_media = false;
  requires_bot_flag = true;
  self_label_supported = false;
  max_text_len = some 500;
  reaction_kinds = "favourite" ∷ "boost" ∷ [];
}

-- `_default_client_factory`: what Mastodon.py is given
abbrev pub mastodon_kwargs : Fields → Fields
mastodon_kwargs credentials =
    field "access_token" (credential "access_token" credentials)
      (field "api_base_url" (credential "api_base_url" credentials) end)

-- `_BOOST_KINDS`
abbrev is_boost : String → Bool
is_boost k = str_eq k "boost" || str_eq k "reblog" || str_eq k "repost"

-- `target.parent_id or _status_id(target.raw)`
abbrev pub status_of : TargetRef → String
status_of t = elim (filled t.parent_id) [ some p ↦ p | none ↦ status_id t.raw ]

-- `resolve_target`
unfoldable pub mastodon_resolve : String → TargetRef
unfolding status_id
mastodon_resolve raw = record {
  raw = raw;
  platform = some Platform.mastodon;
  kind = some "status";
  container = none;
  parent_id = some (status_id raw);
  is_owned = false;
  resolved = true;
}

-- `_account_handle`
unfoldable pub account_handle : Json → Result Json
account_handle status = elim (dict_get "account" status) [
  | raised e ↦ raised e
  | ok v ↦
      let account = or_json v (obj end) in
      elim (dict_get "acct" account) [
        | raised e ↦ raised e
        | ok a ↦ elim (truthy a) [ true ↦ ok a | false ↦ dict_get "username" account ]
      ]
]

module _ (net : Network) where
  abbrev ask : AdapterSession → Method → Fields → Net Json
  ask s = request net (mastodon_kwargs s.credentials)

  abbrev open_client : AdapterSession → Net Json
  open_client s = ask s Method.open_mastodon end

  -- What `read` and `search` show of a status.
  unfoldable pub status_item : Json → Result Fields
  unfolding account_handle
  status_item status = elim (dict_get "id" status) [
    | raised e ↦ raised e
    | ok id ↦ elim (dict_get "content" status) [
      | raised e ↦ raised e
      | ok content ↦ elim (account_handle status) [
        | raised e ↦ raised e
        | ok author ↦ ok (
            field "id" (text (py_str net id)) (field "content" content (field "author" author end)))
      ]
    ]
  ]

  -- `authenticate`
  unfoldable pub mastodon_authenticate : AdapterSession → Net AuthState
  unfolding request
  mastodon_authenticate s = do
    open_client s
    acct ← ask s Method.account_verify_credentials end
    id ← lift (dict_get "id" acct)
    shown ← lift (dict_get "display_name" acct)
    username ← lift (dict_get "username" acct)
    name ← lift (dict_get "acct" acct)
    display_name ← lift (as_opt_str (or_json shown username))
    pure (record {
      ok = true;
      platform_user_id = some (py_str net id);
      display_name = display_name;
      scopes = "read" ∷ "write" ∷ [];
      detail = field "acct" name end;
    })

  -- `refresh_credentials`
  unfoldable pub mastodon_refresh : AdapterSession → Net RefreshResult
  unfolding mastodon_authenticate
  mastodon_refresh s = do
    auth ← mastodon_authenticate s
    pure (record { auth = auth; new_credentials = none })

  -- `health_check`
  unfoldable pub mastodon_health : AdapterSession → Net HealthReport
  unfolding request
  mastodon_health s =
      open_client s
      >> on_exception net
          (do
            acct ← ask s Method.account_verify_credentials end
            username ← lift (dict_get "username" acct)
            pure (record {
              status = HealthStatus.ok;
              error = none;
              detail = field "username" username end;
            }))
          λ shown. record { status = HealthStatus.degraded; error = some shown; detail = end }

  -- `bool(acct.get("bot", True))`
  abbrev bot_flag : Json → Result Bool
  bot_flag (obj fs) = ok (elim (get_field "bot" fs) [ none ↦ true | some v ↦ truthy v ])
  bot_flag _ = raised Error.attribute_error

  -- `ensure_self_identification`
  unfoldable pub mastodon_identify : AdapterSession → Net ComplianceState
  unfolding request
  mastodon_identify s = do
    open_client s
    acct ← ask s Method.account_update_credentials (field "bot" (bool true) end)
    flag ← lift (bot_flag acct)
    pure (record {
      ok = true;
      bot_flag_set = flag;
      self_label = none;
      detail = field "mechanism" (text "account bot flag") end;
    })

  -- The result of a post.
  abbrev posted_status : Json → Net ActionResult
  posted_status status = do
    id ← lift (dict_get "id" status)
    link ← lift (dict_get "url" status)
    url ← lift (as_opt_str link)
    pure (acted (some (py_str net id)) url end)

  -- `publish`
  unfoldable pub mastodon_publish : AdapterSession → Option ContentDraft → Bool → Net ActionResult
  unfolding request
  mastodon_publish s draft dry =
      if dry then pure (simulated (field "simulated" (bool true) end)) else do
        open_client s
        d ← or_raise draft Error.attribute_error
        status ←
            ask s Method.status_post
              (field "status" (text d.body) (field "visibility" (text "public") end))
        posted_status status

  -- What a dry run answers to a comment.
  abbrev simulated_comment : Option TargetRef → Net ActionResult
  simulated_comment target = do
    t ← or_raise target Error.attribute_error
    pure (simulated (field "target" (text t.raw) (field "simulated" (bool true) end)))

  -- `comment`
  unfoldable pub mastodon_comment :
      AdapterSession → Option TargetRef → Option ContentDraft → Bool → Net ActionResult
  unfolding request status_id
  mastodon_comment s target draft dry = if dry then simulated_comment target else do
    open_client s
    t ← or_raise target Error.attribute_error
    d ← or_raise draft Error.attribute_error
    status ←
        ask s Method.status_post
          (field "status" (text d.body) (field "in_reply_to_id" (text (status_of t)) end))
    posted_status status

  -- `read`
  unfoldable pub mastodon_read : AdapterSession → TargetRef → Net ReadResult
  unfolding request status_id status_item
  mastodon_read s t = do
    open_client s
    status ← ask s Method.status (field "id" (text (status_id t.raw)) end)
    item ← lift (status_item status)
    pure (record { items = item ∷ []; detail = end })

  -- `search`
  unfoldable pub mastodon_search : AdapterSession → String → ℤ → Net ReadResult
  unfolding request status_item traverse up_to
  mastodon_search s query limit = do
    open_client s
    res ← ask s Method.search_v2 (field "q" (text query) end)
    found ← lift (dict_get "statuses" res)
    statuses ← lift (iterate (or_json found (arr nil)))
    items ← lift (traverse status_item (up_to limit statuses))
    pure (record { items = items; detail = field "query" (text query) end })

  -- `react`
  unfoldable pub mastodon_react :
      AdapterSession → Option TargetRef → String → Bool → Net ActionResult
  unfolding request status_id lower_text
  mastodon_react s target kind dry =
      let k = lower_text kind in
      if dry
      then pure (simulated (field "kind" (text k) (field "simulated" (bool true) end)))
      else do
        open_client s
        t ← or_raise target Error.attribute_error
        ask s (if is_boost k then Method.status_reblog else Method.status_favourite)
            (field "id" (text (status_of t)) end)
        pure (acted (some (status_of t)) none (field "kind" (text k) end))

  -- `MastodonAdapter`
  unfoldable pub mastodon_adapter : NetAdapter
  unfolding mastodon_capabilities mastodon_authenticate mastodon_refresh mastodon_health
      mastodon_identify mastodon_publish mastodon_comment mastodon_react mastodon_read
      mastodon_search mastodon_resolve
  mastodon_adapter = record {
    capabilities = mastodon_capabilities;
    authenticate = mastodon_authenticate;
    refresh_credentials = mastodon_refresh;
    health_check = mastodon_health;
    ensure_self_identification = mastodon_identify;
    publish = mastodon_publish;
    comment = mastodon_comment;
    react = mastodon_react;
    read = mastodon_read;
    search = mastodon_search;
    resolve_target = λ s raw. pure (mastodon_resolve raw);
  }
