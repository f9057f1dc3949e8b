-- ===== src/Adapters/DryRun.antt =====
-- adapters/: what a dry run asks of the platforms.
use account_pool.Base.{
  String, Bool, true, false, Option, none, some, List, [], ◌∷◌, ◌++◌, ◌≡◌, refl, arith, ◌∙◌,
  if◌then◌else◌,
}
use account_pool.Domain.Enums.{Platform}
use account_pool.Domain.Models.{ContentDraft, TargetRef}
use account_pool.Adapters.Interface.{AdapterCall, AdapterSession, History}
use account_pool.Adapters.Net.{Network, Requests}
use account_pool.Adapters.Replay.{NetAdapter, run_call, call_account, route_call, replay}
use account_pool.Adapters.Reddit.{reddit_adapter, reddit_publish, reddit_comment}
use account_pool.Adapters.Mastodon.{
  mastodon_adapter, mastodon_publish, mastodon_comment, mastodon_react,
}
use account_pool.Adapters.Bluesky.{bluesky_adapter, bluesky_publish, bluesky_comment, bluesky_react}
use account_pool.Adapters.Twitter.{twitter_adapter, twitter_publish, twitter_comment, twitter_react}
use account_pool.Adapters.Medium.{medium_adapter, medium_publish}
use account_pool.Adapters.Substack.{substack_adapter, substack_publish}
use account_pool.Adapters.Registry.{real_adapter, is_wanted, fleet}

-- A write with the dry run set, or the resolution of a reference.
abbrev pub is_quiet : AdapterCall → Bool
is_quiet (AdapterCall.publish s d dry) = dry
is_quiet (AdapterCall.comment s t d dry) = dry
is_quiet (AdapterCall.react s t k dry) = dry
is_quiet (AdapterCall.resolve_target s raw) = true
is_quiet _ = false

-- An adapter asks nothing of its platform for these.
record IsQuiet (a : NetAdapter) : Type 0 where
  publish :
      (s : AdapterSession) (d : Option ContentDraft) (log : Requests)
      → (a.publish s d true log).1 ≡ log
  comment :
      (s : AdapterSession) (t : Option TargetRef) (d : Option ContentDraft) (log : Requests)
      → (a.comment s t d true log).1 ≡ log
  react :
      (s : AdapterSession) (t : Option TargetRef) (kind : String) (log : Requests)
      → (a.react s t kind true log).1 ≡ log
  resolve :
      (s : AdapterSession) (raw : String) (log : Requests) → (a.resolve_target s raw log).1 ≡ log

module _ (net : Network) where
  reddit_publish-quiet :
      (s : AdapterSession) (d : Option ContentDraft) (log : Requests)
      → (reddit_publish net s d true log).1 ≡ log
  unfolding reddit_publish
  reddit_publish-quiet s none log = refl
  reddit_publish-quiet s (some d) log = ground arith

  reddit_comment-quiet :
      (s : AdapterSession) (t : Option TargetRef) (d : Option ContentDraft) (log : Requests)
      → (reddit_comment net s t d true log).1 ≡ log
  unfolding reddit_comment
  reddit_comment-quiet s none d log = refl
  reddit_comment-quiet s (some t) d log = refl

  reddit-IsQuiet : IsQuiet (reddit_adapter net)
  unfolding reddit_adapter
  reddit-IsQuiet = record {
    publish = reddit_publish-quiet;
    comment = reddit_comment-quiet;
    react = λ s t kind log. refl;
    resolve = λ s raw log. refl;
  }

  mastodon_comment-quiet :
      (s : AdapterSession) (t : Option TargetRef) (d : Option ContentDraft) (log : Requests)
      → (mastodon_comment net s t d true log).1 ≡ log
  unfolding mastodon_comment
  mastodon_comment-quiet s none d log = refl
  mastodon_comment-quiet s (some t) d log = refl

  mastodon-IsQuiet : IsQuiet (mastodon_adapter net)
  unfolding mastodon_adapter mastodon_publish mastodon_react
  mastodon-IsQuiet = record {
    publish = λ s d log. refl;
    comment = mastodon_comment-quiet;
    react = λ s t kind log. refl;
    resolve = λ s raw log. refl;
  }

  bluesky_comment-quiet :
      (s : AdapterSession) (t : Option TargetRef) (d : Option ContentDraft) (log : Requests)
      → (bluesky_comment net s t d true log).1 ≡ log
  unfolding bluesky_comment
  bluesky_comment-quiet s none d log = refl
  bluesky_comment-quiet s (some t) d log = refl

  bluesky-IsQuiet : IsQuiet (bluesky_adapter net)
  unfolding bluesky_adapter bluesky_publish bluesky_react
  bluesky-IsQuiet = record {
    publish = λ s d log. refl;
    comment = bluesky_comment-quiet;
    react = λ s t kind log. refl;
    resolve = λ s raw log. refl;
  }

  twitter_comment-quiet :
      (s : AdapterSession) (t : Option TargetRef) (d : Option ContentDraft) (log : Requests)
      → (twitter_comment net true s t d true log).1 ≡ log
  unfolding twitter_comment
  twitter_comment-quiet s none d log = refl
  twitter_comment-quiet s (some t) d log = refl

  twitter-IsQuiet : IsQuiet (twitter_adapter net true)
  unfolding twitter_adapter twitter_publish twitter_react
  twitter-IsQuiet = record {
    publish = λ s d log. refl;
    comment = twitter_comment-quiet;
    react = λ s t kind log. refl;
    resolve = λ s raw log. refl;
  }

  medium-IsQuiet : IsQuiet (medium_adapter net)
  unfolding medium_adapter medium_publish
  medium-IsQuiet = record {
    publish = λ s d log. refl;
    comment = λ s t d log. refl;
    react = λ s t kind log. refl;
    resolve = λ s raw log. refl;
  }

  substack-IsQuiet : IsQuiet (substack_adapter net)
  unfolding substack_adapter substack_publish
  substack-IsQuiet = record {
    publish = λ s d log. refl;
    comment = λ s t d log. refl;
    react = λ s t kind log. refl;
    resolve = λ s raw log. refl;
  }

-- What holds of the adapter of a platform, if it has one.
abbrev IfAny : (NetAdapter → Type 0) → Option NetAdapter → Type 0
IfAny P none = Unit
IfAny P (some a) = P a

module _ (net : Network) where
  real_adapter-IsQuiet : (p : Platform) → IfAny IsQuiet (real_adapter net p)
  unfolding real_adapter
  real_adapter-IsQuiet Platform.reddit = reddit-IsQuiet net
  real_adapter-IsQuiet Platform.mastodon = mastodon-IsQuiet net
  real_adapter-IsQuiet Platform.bluesky = bluesky-IsQuiet net
  real_adapter-IsQuiet Platform.twitter = twitter-IsQuiet net
  real_adapter-IsQuiet Platform.medium = medium-IsQuiet net
  real_adapter-IsQuiet Platform.substack = substack-IsQuiet net
  real_adapter-IsQuiet Platform.linkedin = tt
  real_adapter-IsQuiet Platform.facebook = tt
  real_adapter-IsQuiet Platform.instagram = tt
  real_adapter-IsQuiet Platform.threads = tt
  real_adapter-IsQuiet Platform.youtube = tt
  real_adapter-IsQuiet Platform.tiktok = tt
  real_adapter-IsQuiet Platform.discord = tt
  real_adapter-IsQuiet Platform.telegram = tt
  real_adapter-IsQuiet Platform.pinterest = tt
  real_adapter-IsQuiet Platform.lemmy = tt
  real_adapter-IsQuiet Platform.nostr = tt

  if_wanted :
      (b : Bool) (o : Option NetAdapter) → IfAny IsQuiet o → IfAny IsQuiet (if b then o else none)
  if_wanted true o h = h
  if_wanted false o h = tt

  fleet-IsQuiet : (names : List String) (p : Platform) → IfAny IsQuiet (fleet net names p)
  unfolding fleet
  fleet-IsQuiet names p =
      if_wanted (is_wanted names p) (real_adapter net p) (real_adapter-IsQuiet p)

run_call-quiet :
    (a : NetAdapter) (call : AdapterCall) (log : Requests)
    → IsQuiet a
    → is_quiet call ≡ true
    → run_call a call log ≡ log
unfolding run_call
run_call-quiet a (AdapterCall.publish s d true) log h q = h.publish s d log
run_call-quiet a (AdapterCall.publish s d false) log h q = absurd (cc)
run_call-quiet a (AdapterCall.comment s t d true) log h q = h.comment s t d log
run_call-quiet a (AdapterCall.comment s t d false) log h q = absurd (cc)
run_call-quiet a (AdapterCall.react s t k true) log h q = h.react s t k log
run_call-quiet a (AdapterCall.react s t k false) log h q = absurd (cc)
run_call-quiet a (AdapterCall.resolve_target s raw) log h q = h.resolve s raw log
run_call-quiet a (AdapterCall.authenticate s) log h q = absurd (cc)
run_call-quiet a (AdapterCall.refresh_credentials s) log h q = absurd (cc)
run_call-quiet a (AdapterCall.health_check s) log h q = absurd (cc)
run_call-quiet a (AdapterCall.ensure_self_identification s) log h q = absurd (cc)
run_call-quiet a (AdapterCall.read s t) log h q = absurd (cc)
run_call-quiet a (AdapterCall.search s query n) log h q = absurd (cc)

route-quiet :
    (o : Option NetAdapter) (call : AdapterCall) (log : Requests)
    → IfAny IsQuiet o
    → is_quiet call ≡ true
    → elim o as (λ _. Requests) [ none ↦ log | some a ↦ run_call a call log ] ≡ log
route-quiet none call log h q = refl
route-quiet (some a) call log h q = run_call-quiet a call log h q

module _ (net : Network) (names : List String) where
  -- The requests that the platforms have seen after a history of calls.
  abbrev pub requests : History → Requests
  requests h = replay (fleet net names) [] h

  pub route_call-quiet :
      (call : AdapterCall) (log : Requests)
      → is_quiet call ≡ true
      → route_call (fleet net names) call log ≡ log
  unfolding route_call
  route_call-quiet call log q =
      route-quiet (fleet net names (call_account call).platform) call log
        (fleet-IsQuiet net names (call_account call).platform) q

  replay-snoc :
      (h : History) (call : AdapterCall) (log : Requests)
      → replay (fleet net names) log (h ++ call ∷ [])
        ≡ route_call (fleet net names) call (replay (fleet net names) log h)
  unfolding replay
  replay-snoc [] call log = refl
  replay-snoc (c ∷ h) call log = replay-snoc h call (route_call (fleet net names) c log)

  -- A quiet call adds nothing to what the platforms have seen.
  pub requests-quiet :
      (h : History) (call : AdapterCall)
      → is_quiet call ≡ true
      → requests (h ++ call ∷ []) ≡ requests h
  requests-quiet h call q = replay-snoc h call [] ∙ route_call-quiet call (requests h) q
