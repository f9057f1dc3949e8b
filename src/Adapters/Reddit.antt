-- ===== src/Adapters/Reddit.antt =====
-- adapters/reddit.py: `RedditAdapter` over asyncpraw.
pub mod Refs
pub mod Posts
pub mod Links
pub mod Owned
use Prim.Native.String.{◌++◌ as append}
use account_pool.Base.{
  ℕ, String, Bool, true, false, not, ◌&&◌, Option, none, some, List, [], ◌∷◌, map, str_eq, any,
  if◌then◌else◌,
}
use account_pool.Base.Int.{ℤ, pos}
use account_pool.Base.Chars.{strip_text, lower_text}
use account_pool.Domain.Json.{Json, null, bool, num, text, Fields, end, field, get_field, truthy}
use account_pool.Domain.Enums.{Platform, HealthStatus, PublishMode}
use account_pool.Domain.Models.{Capabilities, ContentDraft, TargetRef, ActionResult, ReadResult}
use account_pool.Runtime.Errors.{Error, Result, ok, raised}
use account_pool.Adapters.Interface.{
  AdapterSession, AuthState, RefreshResult, HealthReport, ComplianceState,
}
use account_pool.Adapters.Net.{
  is_null, keep_keys, Network, Net, Method, request, pure, raise, lift, or_raise, proceed,
  on_exception, attr_or_null, attr, or_json, as_opt_str, py_str, iterate, json_opt, filled,
  simulated, acted, ◌>>=◌, ◌>>◌,
}
use account_pool.Adapters.Replay.{NetAdapter, unsupported}
use account_pool.Adapters.Reddit.Posts.{
  reddit_keys, set_default, reddit_kwargs, ext_id, author_of, reddit_capabilities, profile_of,
  text_or, reddit_resolve, title_of, permalink, subreddit_name, post_summary,
}
use account_pool.Adapters.Reddit.Refs.{Ref, parse_ref, split_query}

module _ (net : Network) where
  abbrev ask : AdapterSession → Method → Fields → Net Json
  ask s = request net (reddit_kwargs s.credentials)

  -- `finally: await _aclose(client)`
  unfoldable pub closing : {A : Type 0} → AdapterSession → Net A → Net A
  unfolding request
  closing s m log =
      let (r, log') = m log in
      proceed (λ _. lift r) (ask s Method.close end log').0 (ask s Method.close end log').1

  -- What is sent to the platform, with the client that is opened for it and closed after it.
  abbrev with_client : {A : Type 0} → AdapterSession → Net A → Net A
  with_client s m = ask s Method.open_reddit end >> closing s m

  -- `AuthState(...)` of an authenticated user
  abbrev user_state : Json → Net AuthState
  user_state me = do
    name ← lift (attr "name" me)
    user_id ←
        lift (
          as_opt_str (or_json (attr_or_null "fullname" me) (text (append "t2_" (py_str net name)))))
    display_name ← lift (as_opt_str name)
    pure (record {
      ok = true;
      platform_user_id = user_id;
      display_name = display_name;
      scopes = "identity" ∷ "submit" ∷ "read" ∷ "history" ∷ [];
      detail = end;
    })

  -- `authenticate`
  unfoldable pub reddit_authenticate : AdapterSession → Net AuthState
  unfolding closing
  reddit_authenticate s = with_client s (do
    me ← ask s Method.user_me end
    if is_null me
        then pure (record {
          ok = false;
          platform_user_id = none;
          display_name = none;
          scopes = [];
          detail = field "error" (text "no authenticated user") end;
        })
        else user_state me)

  -- `refresh_credentials`
  unfoldable pub reddit_refresh : AdapterSession → Net RefreshResult
  unfolding reddit_authenticate
  reddit_refresh s = do
    auth ← reddit_authenticate s
    pure (record { auth = auth; new_credentials = none })

  abbrev reddit_ask_health : AdapterSession → Net HealthReport
  reddit_ask_health s = do
    me ← ask s Method.user_me end
    if is_null me
        then pure (record {
          status = HealthStatus.reauth_needed;
          error = some "no authenticated user";
          detail = end;
        })
        else lift (attr "name" me) >>= λ name.
            pure (record {
              status = HealthStatus.ok;
              error = none;
              detail = field "username" name end;
            })

  -- `health_check`
  unfoldable pub reddit_health : AdapterSession → Net HealthReport
  unfolding closing
  reddit_health s = with_client s (
      on_exception net (reddit_ask_health s)
        λ shown. record { status = HealthStatus.degraded; error = some shown; detail = end })

  -- `ensure_self_identification`
  unfoldable pub reddit_identify : AdapterSession → Net ComplianceState
  reddit_identify s = pure (record {
    ok = true;
    bot_flag_set = false;
    self_label = none;
    detail =
        field "mechanism" (text "user_agent+subreddit_rules+ratelimit")
          (field "bot_flag" (text "n/a") end);
  })

  -- The result of a post or a reply.
  abbrev written : Json → Fields → Net ActionResult
  written o detail = do
    external_id ← lift (as_opt_str (ext_id o))
    pure (acted external_id (permalink net o) detail)

  -- The submission of `publish`
  abbrev submit_to_profile : AdapterSession → String → String → Net ActionResult
  submit_to_profile s title body = with_client s (do
    subreddit ← ask s Method.subreddit (field "display_name" (text (profile_of s)) end)
    submission ←
        ask s Method.submit
          (field "self" subreddit (field "title" (text title) (field "selftext" (text body) end)))
    written submission (field "subreddit" (text (profile_of s)) end))

  -- `publish`
  unfoldable pub reddit_publish : AdapterSession → Option ContentDraft → Bool → Net ActionResult
  unfolding closing strip_text
  reddit_publish s none dry = raise Error.attribute_error
  reddit_publish s (some d) dry =
      if str_eq (title_of d) ""
      then raise Error.adapter_content_invalid
      else if dry
      then pure (
          simulated (
            field "subreddit" (text (profile_of s))
              (field "title" (text (title_of d)) (field "simulated" (bool true) end))))
      else submit_to_profile s (title_of d) d.body

  -- `_fetch_parent`, by the kind of the target and what its text was parsed into
  abbrev pub ask_parent : AdapterSession → Option String → Ref → Net Json
  ask_parent s kind ref =
      let k : String = elim (filled kind) [ some k ↦ k | none ↦ ref.kind ] in
      if str_eq k "comment"
      then ask s Method.comment (field "id" (text ref.id) end)
      else ask s Method.submission (field "id" (text ref.id) end)

  unfoldable pub fetch_parent : AdapterSession → TargetRef → Net Json
  unfolding request
  fetch_parent s t = ask_parent s t.kind (parse_ref t.raw)

  -- The reply of `comment`
  abbrev reply_to : AdapterSession → TargetRef → Option ContentDraft → Net ActionResult
  reply_to s t draft = with_client s (do
    parent ← fetch_parent s t
    d ← or_raise draft Error.attribute_error
    reply ← ask s Method.reply (field "self" parent (field "body" (text d.body) end))
    written reply (field "target" (text t.raw) end))

  -- `comment`
  unfoldable pub reddit_comment :
      AdapterSession → Option TargetRef → Option ContentDraft → Bool → Net ActionResult
  unfolding closing fetch_parent
  reddit_comment s none draft dry =
      if dry then raise Error.attribute_error else with_client s (raise Error.attribute_error)
  reddit_comment s (some t) draft dry =
      if dry
      then pure (simulated (field "target" (text t.raw) (field "simulated" (bool true) end)))
      else reply_to s t draft

  -- `read`
  unfoldable pub reddit_read : AdapterSession → TargetRef → Net ReadResult
  unfolding closing parse_ref post_summary
  reddit_read s t =
      let ref = parse_ref t.raw in
      with_client s (
        if str_eq ref.kind "comment"
        then (do
          comment ← ask s Method.comment (field "id" (text ref.id) end)
          pure (record {
            items =
                field "id" (text ref.id) (
                  field "kind" (text "comment") (
                    field "body" (attr_or_null "body" comment)
                      (field "author" (author_of comment) end)))
                ∷ [];
            detail = end;
          }))
        else (do
          submission ← ask s Method.submission (field "id" (text ref.id) end)
          pure (record { items = post_summary net true submission ∷ []; detail = end })))

  -- `search`
  unfoldable pub reddit_search : AdapterSession → String → ℤ → Net ReadResult
  unfolding closing split_query post_summary
  reddit_search s query limit =
      let (sub, terms) = split_query query in
      let name : String = elim sub [ none ↦ "all" | some n ↦ n ] in
      with_client s (do
        subreddit ← ask s Method.subreddit (field "display_name" (text name) end)
        found ←
            ask s Method.subreddit_search
              (field "self" subreddit (field "query" (text terms) (field "limit" (num limit) end)))
        posts ← lift (iterate found)
        pure (record {
          items = map (post_summary net false) posts;
          detail = field "subreddit" (text name) (field "query" (text terms) end);
        }))

  -- `RedditAdapter`
  unfoldable pub reddit_adapter : NetAdapter
  unfolding reddit_capabilities reddit_resolve reddit_authenticate reddit_refresh reddit_health
      reddit_identify reddit_publish reddit_comment reddit_read reddit_search
  reddit_adapter = record {
    capabilities = reddit_capabilities;
    authenticate = reddit_authenticate;
    refresh_credentials = reddit_refresh;
    health_check = reddit_health;
    ensure_self_identification = reddit_identify;
    publish = reddit_publish;
    comment = reddit_comment;
    react = λ s t kind dry. unsupported;
    read = reddit_read;
    search = reddit_search;
    resolve_target = λ s raw. pure (reddit_resolve s raw);
  }
