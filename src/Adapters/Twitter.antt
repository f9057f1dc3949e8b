-- ===== src/Adapters/Twitter.antt =====
-- adapters/twitter.py: `TwitterAdapter` over tweepy.
use account_pool.Base.{
  String, Bool, true, false, not, ◌||◌, Option, none, some, List, [], ◌∷◌, map, str_eq,
  if◌then◌else◌,
}
use account_pool.Base.Int.{ℤ, pos, ltb_ℤ}
use account_pool.Base.Chars.{lower_text}
use account_pool.Domain.Json.{Json, bool, num, text, arr, Fields, end, field, truthy, nil}
use account_pool.Domain.Enums.{Platform, HealthStatus, PublishMode}
use account_pool.Domain.Models.{Capabilities, ContentDraft, TargetRef, ActionResult, ReadResult}
use account_pool.Runtime.Errors.{Error}
use account_pool.Adapters.Interface.{
  AdapterSession, AuthState, RefreshResult, HealthReport, ComplianceState,
}
use account_pool.Adapters.Net.{
  Network, Net, Method, request, pure, lift, or_raise, on_exception, attr_or_null, attr, or_json,
  as_opt_str, py_str, iterate, filled, simulated, acted, is_null, keep_keys, ◌>>=◌, ◌>>◌,
}
use account_pool.Adapters.Replay.{NetAdapter, unsupported}
use account_pool.Adapters.StatusIds.{status_id}

-- `TwitterAdapter.capabilities`, by the setting `reads_enabled`
unfoldable pub twitter_capabilities : Bool → Capabilities
twitter_capabilities reads = record {
  platform = Platform.twitter;
  publish_mode = PublishMode.api;
  can_publish = true;
  can_comment = true;
  can_read = reads;
  can_search = reads;
  can_react = true;
  can_vote = false;
  supports_media = false;
  requires_bot_flag = false;
  self_label_supported = false;
  max_text_len = some 280;
  reaction_kinds = "like" ∷ "retweet" ∷ [];
}

-- `_CLIENT_KWARGS`
abbrev twitter_keys : List String
twitter_keys =
    "bearer_token" ∷ "consumer_key" ∷ "consumer_secret" ∷ "access_token" ∷ "access_token_secret"
    ∷ []

-- `_default_client_factory`: what tweepy is given
unfoldable pub twitter_kwargs : Fields → Fields
unfolding keep_keys
twitter_kwargs credentials = keep_keys twitter_keys credentials

-- `_RETWEET_KINDS`
abbrev is_retweet : String → Bool
is_retweet k = str_eq k "retweet" || str_eq k "repost" || str_eq k "boost"

-- `target.parent_id or _tweet_id(target.raw)`
abbrev tweet_of : TargetRef → String
tweet_of t = elim (filled t.parent_id) [ some p ↦ p | none ↦ status_id t.raw ]

-- `min(max(limit, 10), 100)`
abbrev page_size : ℤ → ℤ
page_size n = if ltb_ℤ n (pos 10) then pos 10 else if ltb_ℤ (pos 100) n then pos 100 else n

-- `resolve_target`
unfoldable pub twitter_resolve : String → TargetRef
unfolding status_id
twitter_resolve raw = record {
  raw = raw;
  platform = some Platform.twitter;
  kind = some "tweet";
  container = none;
  parent_id = some (status_id raw);
  is_owned = false;
  resolved = true;
}

module _ (net : Network) (reads : Bool) where
  abbrev ask : AdapterSession → Method → Fields → Net Json
  ask s = request net (twitter_kwargs s.credentials)

  abbrev open_client : AdapterSession → Net Json
  open_client s = ask s Method.open_twitter end

  -- `resp.data` of an answer
  abbrev ask_data : AdapterSession → Method → Fields → Net Json
  ask_data s method args = ask s method args >>= λ resp. lift (attr "data" resp)

  -- `str(_get(value, key))`
  abbrev text_at : String → Json → String
  text_at k v = py_str net (attr_or_null k v)

  -- `authenticate`
  unfoldable pub twitter_authenticate : AdapterSession → Net AuthState
  unfolding request
  twitter_authenticate s = do
    open_client s
    user ← ask_data s Method.get_me end
    username ← lift (as_opt_str (attr_or_null "username" user))
    pure (record {
      ok = not (is_null user);
      platform_user_id = if truthy user then some (text_at "id" user) else none;
      display_name = username;
      scopes = "tweet.read" ∷ "tweet.write" ∷ "users.read" ∷ [];
      detail = end;
    })

  -- `refresh_credentials`
  unfoldable pub twitter_refresh : AdapterSession → Net RefreshResult
  unfolding twitter_authenticate
  twitter_refresh s = do
    auth ← twitter_authenticate s
    pure (record { auth = auth; new_credentials = none })

  -- `health_check`
  unfoldable pub twitter_health : AdapterSession → Net HealthReport
  unfolding request
  twitter_health s =
      open_client s
      >> on_exception net
          (do
            user ← ask_data s Method.get_me end
            pure (
                if is_null user
                then record {
                  status = HealthStatus.reauth_needed;
                  error = some "no authenticated user";
                  detail = end;
                }
                else record {
                  status = HealthStatus.ok;
                  error = none;
                  detail = field "username" (attr_or_null "username" user) end;
                }))
          λ shown. record { status = HealthStatus.degraded; error = some shown; detail = end }

  -- `ensure_self_identification`
  unfoldable pub twitter_identify : AdapterSession → Net ComplianceState
  twitter_identify s = pure (record {
    ok = true;
    bot_flag_set = false;
    self_label = none;
    detail = field "mechanism" (text "manual automated-account label") end;
  })

  -- `publish`
  unfoldable pub twitter_publish : AdapterSession → Option ContentDraft → Bool → Net ActionResult
  unfolding request
  twitter_publish s draft dry =
      if dry then pure (simulated (field "simulated" (bool true) end)) else do
        open_client s
        d ← or_raise draft Error.attribute_error
        tweet ← ask_data s Method.create_tweet (field "text" (text d.body) end)
        pure (acted (some (text_at "id" tweet)) none end)

  abbrev simulated_comment : Option TargetRef → Net ActionResult
  simulated_comment target = do
    t ← or_raise target Error.attribute_error
    pure (simulated (field "target" (text t.raw) (field "simulated" (bool true) end)))

  -- `comment`
  unfoldable pub twitter_comment :
      AdapterSession → Option TargetRef → Option ContentDraft → Bool → Net ActionResult
  unfolding request status_id
  twitter_comment s target draft dry = if dry then simulated_comment target else do
    open_client s
    t ← or_raise target Error.attribute_error
    d ← or_raise draft Error.attribute_error
    tweet ←
        ask_data s Method.create_tweet
          (field "text" (text d.body) (field "in_reply_to_tweet_id" (text (tweet_of t)) end))
    pure (acted (some (text_at "id" tweet)) none end)

  -- `read`
  unfoldable pub twitter_read : AdapterSession → TargetRef → Net ReadResult
  unfolding request status_id
  twitter_read s t = if not reads then unsupported else do
    open_client s
    tweet ← ask_data s Method.get_tweet (field "id" (text (status_id t.raw)) end)
    pure (record {
      items =
          field "id" (text (text_at "id" tweet)) (
            field "text" (attr_or_null "text" tweet)
              (field "author_id" (text (text_at "author_id" tweet)) end))
          ∷ [];
      detail = end;
    })

  abbrev tweet_item : Json → Fields
  tweet_item t = field "id" (text (text_at "id" t)) (field "text" (attr_or_null "text" t) end)

  -- `search`
  unfoldable pub twitter_search : AdapterSession → String → ℤ → Net ReadResult
  unfolding request
  twitter_search s query limit = if not reads then unsupported else do
    open_client s
    found ←
        ask_data s Method.search_recent_tweets
          (field "query" (text query) (field "max_results" (num (page_size limit)) end))
    tweets ← lift (iterate (or_json found (arr nil)))
    pure (record { items = map tweet_item tweets; detail = field "query" (text query) end })

  -- `react`
  unfoldable pub twitter_react :
      AdapterSession → Option TargetRef → String → Bool → Net ActionResult
  unfolding request status_id lower_text
  twitter_react s target kind dry =
      let k = lower_text kind in
      if dry
      then pure (simulated (field "kind" (text k) (field "simulated" (bool true) end)))
      else do
        open_client s
        t ← or_raise target Error.attribute_error
        ask s (if is_retweet k then Method.retweet else Method.like_tweet)
            (field "id" (text (tweet_of t)) end)
        pure (acted (some (tweet_of t)) none (field "kind" (text k) end))

  -- `TwitterAdapter`
  unfoldable pub twitter_adapter : NetAdapter
  unfolding twitter_capabilities twitter_authenticate twitter_refresh twitter_health
      twitter_identify twitter_publish twitter_comment twitter_react twitter_read twitter_search
      twitter_resolve
  twitter_adapter = record {
    capabilities = twitter_capabilities reads;
    authenticate = twitter_authenticate;
    refresh_credentials = twitter_refresh;
    health_check = twitter_health;
    ensure_self_identification = twitter_identify;
    publish = twitter_publish;
    comment = twitter_comment;
    react = twitter_react;
    read = twitter_read;
    search = twitter_search;
    resolve_target = λ s raw. pure (twitter_resolve raw);
  }
