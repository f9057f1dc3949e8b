-- ===== src/Policy/Policies.antt =====
-- policy/policies.py: the baselines, and the overrides of an account.
use account_pool.Base.{
  ℕ, String, true, false, Option, none, some, List, [], ◌∷◌, str_eq, if◌then◌else◌,
}
use account_pool.Base.Int.{ℤ, pos, ltb_ℤ}
use account_pool.Domain.Json.{
  Json, Fields, end, field, num, obj, get_field, truthy, truthy_field, as_int,
}
use account_pool.Domain.Enums.{Platform, ActionType, PublishMode}
use account_pool.Domain.Models.{Account, PlatformPolicy}
use account_pool.Runtime.Errors.{Error, Result, ok, raised}

abbrev pub read_verbs : List ActionType
read_verbs = ActionType.read ∷ ActionType.monitor ∷ ActionType.search ∷ []

abbrev pub social_verbs : List ActionType
social_verbs = ActionType.publish ∷ ActionType.comment ∷ ActionType.react ∷ read_verbs

-- A literal dict of limits.
abbrev pub limits : List (String × ℕ) → Fields
limits [] = end
limits ((verb, n) ∷ rest) = field verb (num (pos n)) (limits rest)

-- `PlatformPolicy(...)` with the model's defaults for what the caller leaves out.
abbrev pub new_policy : Platform → PublishMode → List ActionType → Fields → PlatformPolicy
new_policy platform mode verbs rates = record {
  platform = platform;
  publish_mode = mode;
  allowed_verbs = verbs;
  rate_per_minute = rates;
  react_allowed = false;
  vote_allowed = false;
  requires_bot_flag = false;
  requires_self_label = false;
  disclosure_required = false;
  self_promo_ratio = pos 0;
}

abbrev pub reddit_policy : PlatformPolicy
reddit_policy =
    record (new_policy Platform.reddit PublishMode.api
      (ActionType.publish ∷ ActionType.comment ∷ read_verbs)
      (limits
        (("publish", 1) ∷ ("comment", 3) ∷ ("read", 30) ∷ ("monitor", 30) ∷ ("search", 10) ∷ []))) {
          self_promo_ratio = pos 9;
        }

abbrev pub social_limits : Fields
social_limits =
    limits (("publish", 5) ∷ ("comment", 10) ∷ ("react", 20) ∷ ("read", 60) ∷ ("search", 30) ∷ [])

abbrev pub mastodon_policy : PlatformPolicy
mastodon_policy = record (new_policy Platform.mastodon PublishMode.api social_verbs social_limits) {
  react_allowed = true;
  requires_bot_flag = true;
}

abbrev pub bluesky_policy : PlatformPolicy
bluesky_policy = record (new_policy Platform.bluesky PublishMode.api social_verbs social_limits) {
  react_allowed = true;
  requires_self_label = true;
}

abbrev pub twitter_policy : PlatformPolicy
twitter_policy =
    record (new_policy Platform.twitter PublishMode.api social_verbs (
      limits
        (("publish", 3) ∷ ("comment", 5) ∷ ("react", 10) ∷ ("read", 15) ∷ ("search", 10) ∷ []))) {
          react_allowed = true;
        }

abbrev pub medium_policy : PlatformPolicy
medium_policy =
    new_policy Platform.medium PublishMode.draft_only (ActionType.publish ∷ ActionType.read ∷ [])
      (limits (("publish", 2) ∷ ("read", 20) ∷ []))

abbrev pub substack_policy : PlatformPolicy
substack_policy =
    new_policy Platform.substack PublishMode.manual (ActionType.publish ∷ ActionType.read ∷ [])
      (limits (("publish", 1) ∷ ("read", 20) ∷ []))

unfoldable pub get_platform_policy : Platform → PlatformPolicy
get_platform_policy Platform.reddit = reddit_policy
get_platform_policy Platform.mastodon = mastodon_policy
get_platform_policy Platform.bluesky = bluesky_policy
get_platform_policy Platform.twitter = twitter_policy
get_platform_policy Platform.medium = medium_policy
get_platform_policy Platform.substack = substack_policy
get_platform_policy p = new_policy p PublishMode.manual read_verbs (limits (("read", 20) ∷ []))

-- `d[key] = value`
unfoldable pub set_field : String → Json → Fields → Fields
set_field k v end = field k v end
set_field k v (field j w rest) =
    if str_eq j k then field k v rest else field j w (set_field k v rest)

-- `min(current, limit)`, which raises where the two do not compare.
unfoldable pub min_limit : Json → Json → Result Json
min_limit current limit = elim (as_int current) [
  | none ↦ raised Error.type_error
  | some c ↦ elim (as_int limit) [
    | none ↦ raised Error.type_error
    | some l ↦ ok (if ltb_ℤ l c then limit else current)
  ]
]

-- One round of the loop over the overriding limits.
unfoldable pub lower_rate : String → Json → Fields → Result Fields
unfolding set_field min_limit
lower_rate verb limit rates = elim (get_field verb rates) [
  | none ↦ ok (set_field verb limit rates)
  | some current ↦ elim (min_limit current limit) [
    | raised e ↦ raised e
    | ok lower ↦ ok (set_field verb lower rates)
  ]
]

unfoldable pub lower_rates : Fields → Fields → Result Fields
unfolding lower_rate
lower_rates end rates = ok rates
lower_rates (field verb limit rest) rates = elim (lower_rate verb limit rates) [
  | raised e ↦ raised e
  | ok rates' ↦ lower_rates rest rates'
]

-- `(overrides.get("rate_per_minute") or {}).items()`
unfoldable pub rate_overrides : Fields → Result Fields
rate_overrides overrides = elim (get_field "rate_per_minute" overrides) [
  | none ↦ ok end
  | some (obj fs) ↦ ok fs
  | some v ↦ if truthy v then raised Error.attribute_error else ok end
]

-- The ratio that an override leaves: only a larger int replaces it.
unfoldable pub stricter_ratio : Option Json → ℤ → ℤ
stricter_ratio none r = r
stricter_ratio (some v) r = elim (as_int v) [ none ↦ r | some n ↦ if ltb_ℤ r n then n else r ]

-- What the overrides make of a baseline whose limits have been lowered.
unfoldable pub tighten : Fields → Fields → PlatformPolicy → PlatformPolicy
unfolding stricter_ratio
tighten overrides rates p = record p {
  rate_per_minute = rates;
  requires_bot_flag =
      if truthy_field "requires_bot_flag" overrides then true else p.requires_bot_flag;
  requires_self_label =
      if truthy_field "requires_self_label" overrides then true else p.requires_self_label;
  self_promo_ratio = stricter_ratio (get_field "self_promo_ratio" overrides) p.self_promo_ratio;
}

unfoldable pub resolve_policy : Account → Result PlatformPolicy
unfolding get_platform_policy rate_overrides lower_rates tighten
resolve_policy account =
    let baseline = get_platform_policy account.platform in
    elim (rate_overrides account.policy_overrides) [
      | raised e ↦ raised e
      | ok items ↦ elim (lower_rates items baseline.rate_per_minute) [
        | raised e ↦ raised e
        | ok rates ↦ ok (tighten account.policy_overrides rates baseline)
      ]
    ]
