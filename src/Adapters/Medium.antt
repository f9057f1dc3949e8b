-- ===== src/Adapters/Medium.antt =====
-- adapters/medium.py: `MediumAdapter`, which reads a feed and never posts.
use account_pool.Base.{
  String, Bool, true, false, ◌≡◌, refl, Option, none, some, [], ◌∷◌, ◌++◌, if◌then◌else◌,
}
use account_pool.Base.Chars.{chars, of_chars, strip, begins, is_space}
use account_pool.Domain.Json.{text, end, field}
use account_pool.Domain.Enums.{Platform, HealthStatus, PublishMode}
use account_pool.Domain.Models.{Capabilities, ContentDraft, TargetRef, ActionResult, ReadResult}
use account_pool.Runtime.Errors.{Error}
use account_pool.Adapters.Interface.{AdapterSession, AuthState, HealthReport, ComplianceState}
use account_pool.Adapters.Xml.{parse_feed}
use account_pool.Adapters.Net.{
  Network, Net, Method, request, pure, or_raise, text_value, filled, ◌>>=◌,
}
use account_pool.Adapters.Replay.{NetAdapter, unsupported, base_refresh}

-- `_feed_url`
unfoldable pub medium_feed_url : String → String
unfolding strip begins
medium_feed_url text_given =
    let raw = strip (chars text_given) in
    if begins (chars "http") raw
    then of_chars raw
    else of_chars
        (chars "https://medium.com/feed/" ++ (if begins (chars "@") raw then raw else "@" ∷ raw))

medium_handle : medium_feed_url " ann " ≡ "https://medium.com/feed/@ann"
unfolding medium_feed_url is_space
medium_handle = refl

unfoldable pub medium_capabilities : Capabilities
medium_capabilities = record {
  platform = Platform.medium;
  publish_mode = PublishMode.draft_only;
  can_publish = true;
  can_comment = false;
  can_read = true;
  can_search = false;
  can_react = false;
  can_vote = false;
  supports_media = false;
  requires_bot_flag = false;
  self_label_supported = false;
  max_text_len = none;
  reaction_kinds = [];
}

-- `authenticate`
unfoldable pub medium_authenticate : AdapterSession → Net AuthState
medium_authenticate s = pure (record {
  ok = true;
  platform_user_id = some s.account.handle;
  display_name =
      some (elim (filled s.account.display_name) [ none ↦ s.account.handle | some n ↦ n ]);
  scopes = [];
  detail = field "note" (text "medium api tokens frozen for new apps; draft-only") end;
})

-- `health_check`
unfoldable pub medium_health : AdapterSession → Net HealthReport
medium_health s = pure (record {
  status = HealthStatus.ok;
  error = none;
  detail = field "mode" (text "draft_only") end;
})

-- `ensure_self_identification`
unfoldable pub medium_identify : AdapterSession → Net ComplianceState
medium_identify s = pure (record {
  ok = true;
  bot_flag_set = false;
  self_label = none;
  detail = field "mechanism" (text "disclosure in post text") end;
})

-- `resolve_target`
unfoldable pub medium_resolve : String → TargetRef
unfolding medium_feed_url
medium_resolve raw = record {
  raw = medium_feed_url raw;
  platform = some Platform.medium;
  kind = some "feed";
  container = none;
  parent_id = none;
  is_owned = false;
  resolved = true;
}

-- `publish`
unfoldable pub medium_publish : AdapterSession → Option ContentDraft → Bool → Net ActionResult
medium_publish s draft dry = unsupported

module _ (net : Network) where
  -- `read`
  unfoldable pub medium_read : AdapterSession → TargetRef → Net ReadResult
  unfolding request parse_feed
  medium_read s t = do
    body ← request net end Method.get_feed (field "url" (text t.raw) end)
    xml ← or_raise (text_value body) Error.type_error
    root ← or_raise (net.parse_xml xml) Error.adapter_failure
    pure (record { items = parse_feed 25 root; detail = field "feed" (text t.raw) end })

  -- `MediumAdapter`
  unfoldable pub medium_adapter : NetAdapter
  unfolding medium_capabilities medium_authenticate medium_health medium_identify medium_publish
      medium_read medium_resolve base_refresh
  medium_adapter = record {
    capabilities = medium_capabilities;
    authenticate = medium_authenticate;
    refresh_credentials = base_refresh;
    health_check = medium_health;
    ensure_self_identification = medium_identify;
    publish = medium_publish;
    comment = λ s t draft dry. unsupported;
    react = λ s t kind dry. unsupported;
    read = medium_read;
    search = λ s query limit. unsupported;
    resolve_target = λ s raw. pure (medium_resolve raw);
  }
