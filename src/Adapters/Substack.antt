-- ===== src/Adapters/Substack.antt =====
-- adapters/substack.py: `SubstackAdapter`, which reads a feed and never posts.
use mathlib.Core.List.{reverse}
use account_pool.Base.{
  ℕ, ◌≡◌, refl, String, Bool, true, false, ◌==◌, Option, none, some, [], ◌++◌, if◌then◌else◌,
}
use account_pool.Base.Chars.{chars, of_chars, strip, rstrip, begins, is_space}
use account_pool.Domain.Json.{text, end, field}
use account_pool.Domain.Enums.{Platform, HealthStatus, PublishMode}
use account_pool.Domain.Models.{Capabilities, ContentDraft, TargetRef, ActionResult, ReadResult}
use account_pool.Runtime.Errors.{Error}
use account_pool.Adapters.Interface.{AdapterSession, AuthState, HealthReport, ComplianceState}
use account_pool.Adapters.Xml.{parse_feed}
use account_pool.Adapters.Net.{
  Network, Net, Method, request, pure, or_raise, text_value, filled, ◌>>=◌,
}
use account_pool.Adapters.Replay.{NetAdapter, unsupported, base_refresh}

abbrev is_slash : ℕ → Bool
is_slash c = c == b'/'

-- `_feed_url`
unfoldable pub substack_feed_url : String → String
unfolding strip begins rstrip
substack_feed_url text_given =
    let raw = strip (chars text_given) in
    let bare = rstrip is_slash raw in
    if begins (chars "http") raw
    then of_chars
        (if begins (reverse (chars "feed")) (reverse bare) then raw else bare ++ chars "/feed")
    else of_chars (chars "https://" ++ (raw ++ chars ".substack.com/feed"))

substack_site : substack_feed_url "https://ann.substack.com/" ≡ "https://ann.substack.com/feed"
unfolding substack_feed_url is_space
substack_site = refl

unfoldable pub substack_capabilities : Capabilities
substack_capabilities = record {
  platform = Platform.substack;
  publish_mode = PublishMode.manual;
  can_publish = true;
  can_comment = false;
  can_read = true;
  can_search = false;
  can_react = false;
  can_vote = false;
  supports_media = false;
  requires_bot_flag = false;
  self_label_supported = false;
  max_text_len = none;
  reaction_kinds = [];
}

-- `authenticate`
unfoldable pub substack_authenticate : AdapterSession → Net AuthState
substack_authenticate s = pure (record {
  ok = true;
  platform_user_id = some s.account.handle;
  display_name =
      some (elim (filled s.account.display_name) [ none ↦ s.account.handle | some n ↦ n ]);
  scopes = [];
  detail = field "note" (text "no official substack api; read-only + manual export") end;
})

-- `health_check`
unfoldable pub substack_health : AdapterSession → Net HealthReport
substack_health s =
    pure
      (record { status = HealthStatus.ok; error = none; detail = field "mode" (text "manual") end })

-- `ensure_self_identification`
unfoldable pub substack_identify : AdapterSession → Net ComplianceState
substack_identify s = pure (record {
  ok = true;
  bot_flag_set = false;
  self_label = none;
  detail = field "mechanism" (text "disclosure in newsletter") end;
})

-- `resolve_target`
unfoldable pub substack_resolve : String → TargetRef
unfolding substack_feed_url
substack_resolve raw = record {
  raw = substack_feed_url raw;
  platform = some Platform.substack;
  kind = some "feed";
  container = none;
  parent_id = none;
  is_owned = false;
  resolved = true;
}

-- `publish`
unfoldable pub substack_publish : AdapterSession → Option ContentDraft → Bool → Net ActionResult
substack_publish s draft dry = unsupported

module _ (net : Network) where
  -- `read`
  unfoldable pub substack_read : AdapterSession → TargetRef → Net ReadResult
  unfolding request parse_feed
  substack_read s t = do
    body ← request net end Method.get_feed (field "url" (text t.raw) end)
    xml ← or_raise (text_value body) Error.type_error
    root ← or_raise (net.parse_xml xml) Error.adapter_failure
    pure (record { items = parse_feed 25 root; detail = field "feed" (text t.raw) end })

  -- `SubstackAdapter`
  unfoldable pub substack_adapter : NetAdapter
  unfolding substack_capabilities substack_authenticate substack_health substack_identify
      substack_publish substack_read substack_resolve base_refresh
  substack_adapter = record {
    capabilities = substack_capabilities;
    authenticate = substack_authenticate;
    refresh_credentials = base_refresh;
    health_check = substack_health;
    ensure_self_identification = substack_identify;
    publish = substack_publish;
    comment = λ s t draft dry. unsupported;
    react = λ s t kind dry. unsupported;
    read = substack_read;
    search = λ s query limit. unsupported;
    resolve_target = λ s raw. pure (substack_resolve raw);
  }
