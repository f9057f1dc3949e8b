-- ===== src/Adapters/Registry.antt =====
-- adapters/registry.py: which adapter a platform has, and which of them are real.
pub mod Built
use account_pool.Base.{
  String, Bool, true, false, not, Option, none, some, List, [], ◌∷◌, select, map, any, str_eq,
  is_some, if◌then◌else◌,
}
use account_pool.Base.Chars.{strip_text, lower_text}
use account_pool.Domain.Enums.{Platform, platform_value}
use account_pool.Runtime.Errors.{Error, Result, ok, raised}
use account_pool.Adapters.Interface.{Adapter}
use account_pool.Adapters.Fake.{fake_adapter}
use account_pool.Adapters.Net.{Network}
use account_pool.Adapters.Replay.{NetAdapter, Fleet, as_adapter}
use account_pool.Adapters.Reddit.{reddit_adapter}
use account_pool.Adapters.Mastodon.{mastodon_adapter}
use account_pool.Adapters.Bluesky.{bluesky_adapter}
use account_pool.Adapters.Twitter.{twitter_adapter}
use account_pool.Adapters.Medium.{medium_adapter}
use account_pool.Adapters.Substack.{substack_adapter}

-- The members of `Platform`, in their order.
abbrev pub platforms : List Platform
platforms =
    Platform.reddit ∷ Platform.mastodon ∷ Platform.bluesky ∷ Platform.twitter ∷ Platform.medium
    ∷ Platform.substack ∷ Platform.linkedin ∷ Platform.facebook ∷ Platform.instagram
    ∷ Platform.threads ∷ Platform.youtube ∷ Platform.tiktok ∷ Platform.discord ∷ Platform.telegram
    ∷ Platform.pinterest ∷ Platform.lemmy ∷ Platform.nostr ∷ []

-- `_real_adapter_factories`
unfoldable pub real_adapter : Network → Platform → Option NetAdapter
unfolding reddit_adapter mastodon_adapter bluesky_adapter twitter_adapter medium_adapter
    substack_adapter
real_adapter net Platform.reddit = some (reddit_adapter net)
real_adapter net Platform.mastodon = some (mastodon_adapter net)
real_adapter net Platform.bluesky = some (bluesky_adapter net)
real_adapter net Platform.twitter = some (twitter_adapter net true)
real_adapter net Platform.medium = some (medium_adapter net)
real_adapter net Platform.substack = some (substack_adapter net)
real_adapter net _ = none

-- The platforms of `_real_adapter_factories`, in its order.
abbrev pub real_platforms : List Platform
real_platforms =
    Platform.reddit ∷ Platform.mastodon ∷ Platform.bluesky ∷ Platform.twitter ∷ Platform.medium
    ∷ Platform.substack ∷ []

-- `AdapterRegistry`: what makes an adapter for a platform, and the adapters that were made.
pub record AdapterRegistry (A : Type 0) : Type 0 where
  pub factories : Platform → Option A
  pub cache : Platform → Option A

abbrev pub same_platform : Platform → Platform → Bool
same_platform p q = str_eq (platform_value p) (platform_value q)

module _ {A : Type 0} where
  abbrev pub empty_registry : AdapterRegistry A
  empty_registry = record { factories = λ p. none; cache = λ p. none }

  -- `AdapterRegistry.register`
  unfoldable pub register_adapter : Platform → A → AdapterRegistry A → AdapterRegistry A
  register_adapter p factory r = record {
    factories = λ q. if same_platform p q then some factory else r.factories q;
    cache = λ q. if same_platform p q then none else r.cache q;
  }

  -- `AdapterRegistry.get`
  unfoldable pub get_registered : Platform → AdapterRegistry A → Result A × AdapterRegistry A
  get_registered p r = elim (r.cache p) [
    | some a ↦ (ok a, r)
    | none ↦ elim (r.factories p) [
      | none ↦ (raised Error.key_error, r)
      | some a ↦ (ok a, record r { cache = λ q. if same_platform p q then some a else r.cache q })
    ]
  ]

-- `{s.strip().lower() for s in ... if s and s.strip()}`
unfoldable pub wanted_names : List String → List String
unfolding strip_text lower_text
wanted_names names =
    map (λ s. lower_text (strip_text s)) (select (λ s. not (str_eq (strip_text s) "")) names)

-- Whether the real adapter of a platform is asked for.
unfoldable pub is_wanted : List String → Platform → Bool
unfolding wanted_names
is_wanted names p = any (str_eq (platform_value p)) (wanted_names names)

module _ (net : Network) (names : List String) where
  -- The adapters that are on the network.
  unfoldable pub fleet : Fleet
  unfolding is_wanted real_adapter
  fleet p = if is_wanted names p then real_adapter net p else none

  -- The loop of `default_registry`
  unfoldable pub register_fakes : List Platform → AdapterRegistry Adapter → AdapterRegistry Adapter
  unfolding register_adapter
  register_fakes [] r = r
  register_fakes (p ∷ ps) r = register_fakes ps (register_adapter p (fake_adapter p) r)

  -- `default_registry`
  unfoldable pub default_registry : AdapterRegistry Adapter
  unfolding register_fakes
  default_registry = register_fakes platforms empty_registry

  -- The loop of `build_registry`
  unfoldable pub register_real : List Platform → AdapterRegistry Adapter → AdapterRegistry Adapter
  unfolding register_adapter is_wanted real_adapter
  register_real [] r = r
  register_real (p ∷ ps) r = elim (real_adapter net p) [
    | none ↦ register_real ps r
    | some a ↦
        register_real ps
          (if is_wanted names p then register_adapter p (as_adapter fleet a) r else r)
  ]

  -- `build_registry`
  unfoldable pub build_registry : AdapterRegistry Adapter
  unfolding default_registry register_real
  build_registry = register_real real_platforms default_registry
