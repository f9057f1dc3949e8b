-- ===== src/Adapters/Bluesky.antt =====
-- adapters/bluesky.py: `BlueskyAdapter` over atproto.
use account_pool.Base.{
  String, Bool, true, false, ◌||◌, Option, none, some, List, [], ◌∷◌, map, str_eq, if◌then◌else◌,
}
use account_pool.Base.Int.{ℤ, pos, ltb_ℤ}
use account_pool.Base.Chars.{lower_text}
use account_pool.Domain.Json.{Json, bool, num, text, arr, Fields, end, field, obj, nil, cons}
use account_pool.Domain.Enums.{Platform, HealthStatus, PublishMode}
use account_pool.Domain.Models.{Capabilities, ContentDraft, TargetRef, ActionResult, ReadResult}
use account_pool.Runtime.Errors.{Error, Result, ok, raised}
use account_pool.Adapters.Interface.{
  AdapterSession, AuthState, RefreshResult, HealthReport, ComplianceState,
}
use account_pool.Adapters.Net.{
  Network, Net, Method, request, pure, lift, or_raise, on_exception, attr_or_null, attr, or_json,
  as_opt_str, iterate, simulated, acted, credential, ◌>>=◌, ◌>>◌,
}
use account_pool.Adapters.Replay.{NetAdapter}

unfoldable pub bluesky_capabilities : Capabilities
bluesky_capabilities = record {
  platform = Platform.bluesky;
  publish_mode = PublishMode.api;
  can_publish = true;
  can_comment = true;
  can_read = true;
  can_search = true;
  can_react = true;
  can_vote = false;
  supports_media = false;
  requires_bot_flag = false;
  self_label_supported = true;
  max_text_len = some 300;
  reaction_kinds = "like" ∷ "repost" ∷ [];
}

-- `_post_text`
abbrev post_text : Json → Json
post_text post = attr_or_null "text" (attr_or_null "record" post)

-- `_post_author`
abbrev post_author : Json → Json
post_author post = attr_or_null "handle" (attr_or_null "author" post)

abbrev post_item : Json → Fields
post_item p =
    field "uri" (attr_or_null "uri" p)
      (field "text" (post_text p) (field "author" (post_author p) end))

-- What the client logs in with.
unfoldable pub login_of : AdapterSession → Fields
login_of s =
    field "identifier"
      (or_json (credential "identifier" s.credentials)
        (or_json (credential "handle" s.credentials) (text s.account.handle)))
      (field "password"
        (or_json (credential "app_password" s.credentials) (credential "password" s.credentials))
        end)

-- `_REPOST_KINDS`
abbrev is_repost : String → Bool
is_repost k = str_eq k "repost" || str_eq k "boost"

abbrev first_of : List Json → Result Json
first_of [] = raised Error.adapter_failure
first_of (p ∷ ps) = ok p

-- `min(limit, 25)`
abbrev at_most_25 : ℤ → ℤ
at_most_25 n = if ltb_ℤ n (pos 25) then n else pos 25

-- `resolve_target`
unfoldable pub bluesky_resolve : String → TargetRef
bluesky_resolve raw = record {
  raw = raw;
  platform = some Platform.bluesky;
  kind = some "post";
  container = none;
  parent_id = none;
  is_owned = false;
  resolved = true;
}

module _ (net : Network) where
  abbrev ask : AdapterSession → Method → Fields → Net Json
  ask s = request net (login_of s)

  -- `_client`
  unfoldable pub bluesky_client : AdapterSession → Net Json
  unfolding request
  bluesky_client s = ask s Method.open_bluesky end >> ask s Method.login (login_of s)

  abbrev get_posts : AdapterSession → String → Net (List Json)
  get_posts s uri = do
    found ← ask s Method.get_posts (field "uris" (arr (cons (text uri) nil)) end)
    posts ← lift (attr "posts" found)
    lift (iterate posts)

  -- `_strong_ref`
  unfoldable pub strong_ref : AdapterSession → String → Net Json
  unfolding request
  strong_ref s uri = do
    posts ← get_posts s uri
    post ← lift (first_of posts)
    found_uri ← lift (attr "uri" post)
    cid ← lift (attr "cid" post)
    pure (obj (field "uri" found_uri (field "cid" cid end)))

  -- `authenticate`
  unfoldable pub bluesky_authenticate : AdapterSession → Net AuthState
  unfolding bluesky_client
  bluesky_authenticate s = do
    bluesky_client s
    me ← ask s Method.me end
    did ← lift (as_opt_str (attr_or_null "did" me))
    handle ← lift (as_opt_str (attr_or_null "handle" me))
    pure (record {
      ok = true;
      platform_user_id = did;
      display_name = handle;
      scopes = "atproto" ∷ [];
      detail = end;
    })

  -- `refresh_credentials`
  unfoldable pub bluesky_refresh : AdapterSession → Net RefreshResult
  unfolding bluesky_authenticate
  bluesky_refresh s = do
    auth ← bluesky_authenticate s
    pure (record { auth = auth; new_credentials = none })

  -- `health_check`
  unfoldable pub bluesky_health : AdapterSession → Net HealthReport
  unfolding bluesky_client
  bluesky_health s =
      on_exception net
        (do
          bluesky_client s
          me ← ask s Method.me end
          pure (record {
            status = HealthStatus.ok;
            error = none;
            detail = field "handle" (attr_or_null "handle" me) end;
          }))
        λ shown. record { status = HealthStatus.reauth_needed; error = some shown; detail = end }

  -- `ensure_self_identification`
  unfoldable pub bluesky_identify : AdapterSession → Net ComplianceState
  bluesky_identify s = pure (record {
    ok = true;
    bot_flag_set = false;
    self_label = some "automated";
    detail = field "mechanism" (text "self-label/profile disclosure") end;
  })

  -- The result of a post.
  abbrev sent_post : Json → Net ActionResult
  sent_post resp = do
    uri ← lift (as_opt_str (attr_or_null "uri" resp))
    pure (acted uri none (field "cid" (attr_or_null "cid" resp) end))

  -- `publish`
  unfoldable pub bluesky_publish : AdapterSession → Option ContentDraft → Bool → Net ActionResult
  unfolding bluesky_client
  bluesky_publish s draft dry =
      if dry then pure (simulated (field "simulated" (bool true) end)) else do
        bluesky_client s
        d ← or_raise draft Error.attribute_error
        resp ← ask s Method.send_post (field "text" (text d.body) end)
        sent_post resp

  abbrev simulated_comment : Option TargetRef → Net ActionResult
  simulated_comment target = do
    t ← or_raise target Error.attribute_error
    pure (simulated (field "target" (text t.raw) (field "simulated" (bool true) end)))

  -- `comment`
  unfoldable pub bluesky_comment :
      AdapterSession → Option TargetRef → Option ContentDraft → Bool → Net ActionResult
  unfolding bluesky_client strong_ref
  bluesky_comment s target draft dry = if dry then simulated_comment target else do
    bluesky_client s
    t ← or_raise target Error.attribute_error
    parent ← strong_ref s t.raw
    d ← or_raise draft Error.attribute_error
    resp ← ask s Method.send_post (
        field "text" (text d.body)
          (field "reply_to" (obj (field "parent" parent (field "root" parent end))) end))
    sent_post resp

  -- `read`
  unfoldable pub bluesky_read : AdapterSession → TargetRef → Net ReadResult
  unfolding bluesky_client
  bluesky_read s t = do
    bluesky_client s
    posts ← get_posts s t.raw
    pure (record { items = map post_item posts; detail = end })

  -- `search`
  unfoldable pub bluesky_search : AdapterSession → String → ℤ → Net ReadResult
  unfolding bluesky_client
  bluesky_search s query limit = do
    bluesky_client s
    res ←
        ask s Method.search_posts
          (field "q" (text query) (field "limit" (num (at_most_25 limit)) end))
    found ← lift (attr "posts" res)
    posts ← lift (iterate found)
    pure (record { items = map post_item posts; detail = field "query" (text query) end })

  -- `react`
  unfoldable pub bluesky_react :
      AdapterSession → Option TargetRef → String → Bool → Net ActionResult
  unfolding bluesky_client strong_ref lower_text
  bluesky_react s target kind dry =
      let k = lower_text kind in
      if dry
      then pure (simulated (field "kind" (text k) (field "simulated" (bool true) end)))
      else do
        bluesky_client s
        t ← or_raise target Error.attribute_error
        ref ← strong_ref s t.raw
        uri ← lift (attr "uri" ref)
        cid ← lift (attr "cid" ref)
        resp ←
            ask s (if is_repost k then Method.repost else Method.like)
              (field "uri" uri (field "cid" cid end))
        external_id ← lift (as_opt_str (attr_or_null "uri" resp))
        pure (acted external_id none (field "kind" (text k) end))

  -- `BlueskyAdapter`
  unfoldable pub bluesky_adapter : NetAdapter
  unfolding bluesky_capabilities bluesky_authenticate bluesky_refresh bluesky_health
      bluesky_identify bluesky_publish bluesky_comment bluesky_react bluesky_read bluesky_search
      bluesky_resolve
  bluesky_adapter = record {
    capabilities = bluesky_capabilities;
    authenticate = bluesky_authenticate;
    refresh_credentials = bluesky_refresh;
    health_check = bluesky_health;
    ensure_self_identification = bluesky_identify;
    publish = bluesky_publish;
    comment = bluesky_comment;
    react = bluesky_react;
    read = bluesky_read;
    search = bluesky_search;
    resolve_target = λ s raw. pure (bluesky_resolve raw);
  }
