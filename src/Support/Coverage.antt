-- ===== src/Support/Coverage.antt =====
-- adapters/ beside policy/policies.py: what the policies allow, the adapters offer.
use mathlib.Core.Path.{subst}
use account_pool.Base.{◌≡◌, refl, Bool, true, not, ◌&&◌, ◌||◌, Option, none, some, arith}
use account_pool.Base.{false}
use account_pool.Domain.Enums.{Platform, ActionType, mem_verb}
use account_pool.Domain.Models.{Capabilities, PlatformPolicy}
use account_pool.Adapters.Net.{Network}
use account_pool.Adapters.Replay.{NetAdapter}
use account_pool.Adapters.Registry.{real_adapter}
use account_pool.Adapters.Reddit.Posts.{reddit_capabilities}
use account_pool.Adapters.Mastodon.{mastodon_capabilities}
use account_pool.Adapters.Bluesky.{bluesky_capabilities}
use account_pool.Adapters.Twitter.{twitter_capabilities}
use account_pool.Adapters.Medium.{medium_capabilities}
use account_pool.Adapters.Substack.{substack_capabilities}
use account_pool.Policy.Policies.{get_platform_policy}

-- The adapter's own word on a verb.
abbrev pub offers : Capabilities → ActionType → Bool
offers c ActionType.draft = true
offers c ActionType.publish = c.can_publish
offers c ActionType.comment = c.can_comment
offers c ActionType.read = c.can_read
offers c ActionType.monitor = c.can_read
offers c ActionType.search = c.can_search
offers c ActionType.react = c.can_react

-- An adapter fits a policy.
pub record Fits (p : Platform) (c : Capabilities) (policy : PlatformPolicy) : Type 0 where
  pub same_platform : c.platform ≡ p
  pub same_mode : c.publish_mode ≡ policy.publish_mode
  pub bot_flag : c.requires_bot_flag ≡ policy.requires_bot_flag
  pub self_label : policy.requires_self_label ≡ true → c.self_label_supported ≡ true
  pub offered : (v : ActionType) → mem_verb v policy.allowed_verbs ≡ true → offers c v ≡ true

abbrev verb_fits : Capabilities → PlatformPolicy → ActionType → Bool
verb_fits c policy v = not (mem_verb v policy.allowed_verbs) || offers c v

abbrev every_verb_fits : Capabilities → PlatformPolicy → Bool
every_verb_fits c policy =
    verb_fits c policy ActionType.publish
    && verb_fits c policy ActionType.comment
    && verb_fits c policy ActionType.read
    && verb_fits c policy ActionType.monitor
    && verb_fits c policy ActionType.search
    && verb_fits c policy ActionType.react

implied : (a b : Bool) → not a || b ≡ true → a ≡ true → b ≡ true
implied true b h k = h
implied false b h k = absurd (cc)

fits_each :
    (c : Capabilities) (policy : PlatformPolicy)
    → every_verb_fits c policy ≡ true
    → (v : ActionType) → verb_fits c policy v ≡ true
fits_each c policy all ActionType.draft = ground arith
fits_each c policy all v = ground arith

offered_by :
    (c : Capabilities) (policy : PlatformPolicy)
    → every_verb_fits c policy ≡ true
    → (v : ActionType) → mem_verb v policy.allowed_verbs ≡ true
    → offers c v ≡ true
offered_by c policy all ActionType.draft h = refl
offered_by c policy all v h =
    implied (mem_verb v policy.allowed_verbs) (offers c v) (fits_each c policy all v) h

reddit-Fits : Fits Platform.reddit reddit_capabilities (get_platform_policy Platform.reddit)
unfolding reddit_capabilities get_platform_policy
reddit-Fits = record {
  same_platform = refl;
  same_mode = refl;
  bot_flag = refl;
  self_label = λ h. ground arith;
  offered = offered_by reddit_capabilities (get_platform_policy Platform.reddit) refl;
}

mastodon-Fits : Fits Platform.mastodon mastodon_capabilities (get_platform_policy Platform.mastodon)
unfolding mastodon_capabilities get_platform_policy
mastodon-Fits = record {
  same_platform = refl;
  same_mode = refl;
  bot_flag = refl;
  self_label = λ h. ground arith;
  offered = offered_by mastodon_capabilities (get_platform_policy Platform.mastodon) refl;
}

bluesky-Fits : Fits Platform.bluesky bluesky_capabilities (get_platform_policy Platform.bluesky)
unfolding bluesky_capabilities get_platform_policy
bluesky-Fits = record {
  same_platform = refl;
  same_mode = refl;
  bot_flag = refl;
  self_label = λ h. ground arith;
  offered = offered_by bluesky_capabilities (get_platform_policy Platform.bluesky) refl;
}

twitter-Fits :
    Fits Platform.twitter (twitter_capabilities true) (get_platform_policy Platform.twitter)
unfolding twitter_capabilities get_platform_policy
twitter-Fits = record {
  same_platform = refl;
  same_mode = refl;
  bot_flag = refl;
  self_label = λ h. ground arith;
  offered = offered_by (twitter_capabilities true) (get_platform_policy Platform.twitter) refl;
}

medium-Fits : Fits Platform.medium medium_capabilities (get_platform_policy Platform.medium)
unfolding medium_capabilities get_platform_policy
medium-Fits = record {
  same_platform = refl;
  same_mode = refl;
  bot_flag = refl;
  self_label = λ h. ground arith;
  offered = offered_by medium_capabilities (get_platform_policy Platform.medium) refl;
}

substack-Fits : Fits Platform.substack substack_capabilities (get_platform_policy Platform.substack)
unfolding substack_capabilities get_platform_policy
substack-Fits = record {
  same_platform = refl;
  same_mode = refl;
  bot_flag = refl;
  self_label = λ h. ground arith;
  offered = offered_by substack_capabilities (get_platform_policy Platform.substack) refl;
}

-- What is said of the adapter of a platform, if it has one.
abbrev pub FitsIfReal : Platform → Option NetAdapter → Type 0
FitsIfReal p none = Unit {0}
FitsIfReal p (some a) = Fits p a.capabilities (get_platform_policy p)

all_fit : (net : Network) (p : Platform) → FitsIfReal p (real_adapter net p)
unfolding real_adapter
all_fit net Platform.reddit = reddit-Fits
all_fit net Platform.mastodon = mastodon-Fits
all_fit net Platform.bluesky = bluesky-Fits
all_fit net Platform.twitter = twitter-Fits
all_fit net Platform.medium = medium-Fits
all_fit net Platform.substack = substack-Fits
all_fit net Platform.linkedin = tt
all_fit net p = tt

-- The adapter of each platform that has one on the network reports that platform, has the mode of
-- publication and the bot flag of the platform's baseline policy, supports a self-label where the
-- policy requires one, and offers every verb that the policy allows.
pub real_adapter-Fits :
    (net : Network) (p : Platform) (a : NetAdapter)
    → real_adapter net p ≡ some a
    → Fits p a.capabilities (get_platform_policy p)
real_adapter-Fits net p a there = subst (FitsIfReal p) there (all_fit net p)
