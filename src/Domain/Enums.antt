-- ===== src/Domain/Enums.antt =====
-- domain/enums.py. A member of a `StrEnum` is a constructor; equality of members is equality of
-- their positions, and `.value` is written out where the program reads it.
use account_pool.Base.{
  ℕ, String, Bool, true, false, Option, none, some, List, ◌==◌, str_eq, any, if◌then◌else◌,
}

pub data Platform : Type 0 where
  reddit mastodon bluesky twitter medium substack : Platform
  linkedin facebook instagram threads youtube tiktok : Platform
  discord telegram pinterest lemmy nostr : Platform

pub data ActionType : Type 0 where
  draft publish comment read monitor search react : ActionType

pub data ConsentScope : Type 0 where
  publish comment react read : ConsentScope

pub data LifecycleState : Type 0 where
  draft connected active suspended retired : LifecycleState

pub data ActionState : Type 0 where
  pending needs_approval approved executing done failed refused : ActionState

pub data ReviewState : Type 0 where
  opened changes_requested approved : ReviewState

pub data PublishMode : Type 0 where
  api draft_only manual : PublishMode

pub data HealthStatus : Type 0 where
  ok degraded reauth_needed blocked unknown : HealthStatus

pub data AuthType : Type 0 where
  oauth2 app_password api_key : AuthType

pub data ConnectionProviderKind : Type 0 where
  builtin nango composio : ConnectionProviderKind

pub data DecisionOutcome : Type 0 where
  allow deny route_to_approval : DecisionOutcome

pub data DenialCode : Type 0 where
  not_authorized account_not_active lock_required lock_held_by_other version_conflict : DenialCode
  capability_unsupported publish_mode_manual rate_limited self_promo_ratio : DenialCode
  subreddit_rule bot_identification_required vote_manipulation_blocked : DenialCode
  coordination_blocked approval_required approval_stale content_invalid target_invalid : DenialCode

-- `Platform.value`
abbrev pub platform_value : Platform → String
platform_value Platform.reddit = "reddit"
platform_value Platform.mastodon = "mastodon"
platform_value Platform.bluesky = "bluesky"
platform_value Platform.twitter = "twitter"
platform_value Platform.medium = "medium"
platform_value Platform.substack = "substack"
platform_value Platform.linkedin = "linkedin"
platform_value Platform.facebook = "facebook"
platform_value Platform.instagram = "instagram"
platform_value Platform.threads = "threads"
platform_value Platform.youtube = "youtube"
platform_value Platform.tiktok = "tiktok"
platform_value Platform.discord = "discord"
platform_value Platform.telegram = "telegram"
platform_value Platform.pinterest = "pinterest"
platform_value Platform.lemmy = "lemmy"
platform_value Platform.nostr = "nostr"

-- `ActionType.value`
abbrev pub verb_value : ActionType → String
verb_value ActionType.draft = "draft"
verb_value ActionType.publish = "publish"
verb_value ActionType.comment = "comment"
verb_value ActionType.read = "read"
verb_value ActionType.monitor = "monitor"
verb_value ActionType.search = "search"
verb_value ActionType.react = "react"

abbrev pub verb_index : ActionType → ℕ
verb_index ActionType.draft = 0
verb_index ActionType.publish = 1
verb_index ActionType.comment = 2
verb_index ActionType.read = 3
verb_index ActionType.monitor = 4
verb_index ActionType.search = 5
verb_index ActionType.react = 6

-- `at in allowed_verbs`
abbrev pub mem_verb : ActionType → List ActionType → Bool
mem_verb v = any (λ w. verb_index v == verb_index w)

abbrev pub scope_index : ConsentScope → ℕ
scope_index ConsentScope.publish = 0
scope_index ConsentScope.comment = 1
scope_index ConsentScope.react = 2
scope_index ConsentScope.read = 3

-- `scope in consent_scope`
abbrev pub mem_scope : ConsentScope → List ConsentScope → Bool
mem_scope s = any (λ t. scope_index s == scope_index t)

-- `action_type in WRITE_ACTIONS`
abbrev pub is_write_action : ActionType → Bool
is_write_action ActionType.publish = true
is_write_action ActionType.comment = true
is_write_action ActionType.react = true
is_write_action _ = false

-- `ACTION_CONSENT`: there is no entry for `draft`.
abbrev pub action_consent : ActionType → Option ConsentScope
action_consent ActionType.publish = some ConsentScope.publish
action_consent ActionType.comment = some ConsentScope.comment
action_consent ActionType.react = some ConsentScope.react
action_consent ActionType.read = some ConsentScope.read
action_consent ActionType.monitor = some ConsentScope.read
action_consent ActionType.search = some ConsentScope.read
action_consent ActionType.draft = none

-- `ActionType(value)`: `none` stands for the `ValueError`.
abbrev pub parse_verb : String → Option ActionType
parse_verb s =
    if str_eq s "draft"
    then some ActionType.draft
    else if str_eq s "publish"
    then some ActionType.publish
    else if str_eq s "comment"
    then some ActionType.comment
    else if str_eq s "read"
    then some ActionType.read
    else if str_eq s "monitor"
    then some ActionType.monitor
    else if str_eq s "search"
    then some ActionType.search
    else if str_eq s "react"
    then some ActionType.react
    else none

-- `DENIAL_HTTP_STATUS`
unfoldable pub http_status : DenialCode → ℕ
http_status DenialCode.not_authorized = 403
http_status DenialCode.account_not_active = 409
http_status DenialCode.lock_required = 423
http_status DenialCode.lock_held_by_other = 423
http_status DenialCode.version_conflict = 409
http_status DenialCode.capability_unsupported = 422
http_status DenialCode.publish_mode_manual = 422
http_status DenialCode.rate_limited = 429
http_status DenialCode.self_promo_ratio = 429
http_status DenialCode.subreddit_rule = 422
http_status DenialCode.bot_identification_required = 412
http_status DenialCode.vote_manipulation_blocked = 403
http_status DenialCode.coordination_blocked = 429
http_status DenialCode.approval_required = 202
http_status DenialCode.approval_stale = 409
http_status DenialCode.content_invalid = 422
http_status DenialCode.target_invalid = 422
