-- ===== src/Support.antt =====
-- support.py: how far a platform is supported.
pub mod Coverage
use Prim.Native.Nat.{Ordering}
use Prim.Native.String.{compare}
use account_pool.Base.{
  ℕ, String, Bool, true, false, ◌&&◌, List, [], ◌∷◌, map, ◌==◌, ltb, is_some, if◌then◌else◌,
}
use account_pool.Base.Int.{ℤ}
use account_pool.Domain.Enums.{Platform, ActionType, PublishMode, platform_value, verb_value}
use account_pool.Domain.Models.{PlatformPolicy}
use account_pool.Adapters.Net.{Network}
use account_pool.Adapters.Registry.{platforms, real_adapter}
use account_pool.Policy.Policies.{get_platform_policy}

pub data Tier : Type 0 where
  live draft_only manual planned : Tier

-- `_TIER_ORDER`
abbrev pub tier_order : Tier → ℕ
tier_order Tier.live = 0
tier_order Tier.draft_only = 1
tier_order Tier.manual = 2
tier_order Tier.planned = 3

abbrev tier_by : Bool → PublishMode → Tier
tier_by true PublishMode.api = Tier.live
tier_by false PublishMode.api = Tier.planned
tier_by real PublishMode.draft_only = Tier.draft_only
tier_by true PublishMode.manual = Tier.manual
tier_by false PublishMode.manual = Tier.planned

-- A row of the overview.
pub record PlatformRow : Type 0 where
  pub platform : Platform
  pub tier : Tier
  pub publish_mode : PublishMode
  pub verbs : List String
  pub react_allowed : Bool
  pub requires_bot_flag : Bool
  pub requires_self_label : Bool
  pub self_promo_ratio : ℤ

-- `(order of the tier, platform) <= (order of the tier, platform)`
abbrev pub row_le : PlatformRow → PlatformRow → Bool
row_le a b =
    if tier_order a.tier == tier_order b.tier
    then (elim (compare (platform_value a.platform) (platform_value b.platform)) [
      | Ordering.gt ↦ false
      | _ ↦ true
    ])
    else ltb (tier_order a.tier) (tier_order b.tier)

unfoldable pub insert_row : PlatformRow → List PlatformRow → List PlatformRow
insert_row r [] = r ∷ []
insert_row r (s ∷ rest) = if row_le r s then r ∷ s ∷ rest else s ∷ insert_row r rest

-- `rows.sort`
unfoldable pub sort_rows : List PlatformRow → List PlatformRow
unfolding insert_row
sort_rows [] = []
sort_rows (r ∷ rest) = insert_row r (sort_rows rest)

module _ (net : Network) where
  -- `support_tier`
  unfoldable pub support_tier : Platform → Tier
  unfolding real_adapter get_platform_policy
  support_tier p = tier_by (is_some (real_adapter net p)) (get_platform_policy p).publish_mode

  -- A round of the loop of `platform_overview`
  unfoldable pub overview_row : Platform → PlatformRow
  unfolding support_tier get_platform_policy
  overview_row p =
      let policy = get_platform_policy p in
      record {
        platform = p;
        tier = support_tier p;
        publish_mode = policy.publish_mode;
        verbs = map verb_value policy.allowed_verbs;
        react_allowed = policy.react_allowed;
        requires_bot_flag = policy.requires_bot_flag;
        requires_self_label = policy.requires_self_label;
        self_promo_ratio = policy.self_promo_ratio;
      }

  -- `platform_overview`
  unfoldable pub platform_overview : List PlatformRow
  unfolding sort_rows overview_row
  platform_overview = sort_rows (map overview_row platforms)
