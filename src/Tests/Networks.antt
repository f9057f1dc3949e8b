-- ===== src/Tests/Networks.antt =====
-- Runs of the adapters of the network, and of what is made of them.
use Prim.Native.Char.{Char}
use account_pool.Base.{◌≡◌, refl, ◌⊎◌, inr, String, true, none, some, List, [], ◌∷◌, ◌++◌, arith}
use account_pool.Base.Chars.{
  chars, of_chars, strip, is_digit, is_alnum, is_word, lstrip, rstrip, is_space,
}
use account_pool.Base.Runs.{AllIn}
use account_pool.Domain.Json.{null, text, end, field}
use account_pool.Domain.Enums.{Platform}
use account_pool.Runtime.Errors.{ok}
use account_pool.Adapters.Interface.{AdapterSession}
use account_pool.Adapters.Fake.{fake_adapter}
use account_pool.Adapters.Net.{Network, Method, request, take}
use account_pool.Adapters.Xml.{Element, Elements, parse_feed, iter}
use account_pool.Adapters.Xml.Limit.{entries, parse_feed-take}
use account_pool.Adapters.StatusIds.{status_id}
use account_pool.Adapters.StatusIds.Digits.{Apart, status_id-digits}
use account_pool.Adapters.Reddit.{fetch_parent}
use account_pool.Adapters.Reddit.Posts.{reddit_resolve, reddit_kwargs, profile_of}
use account_pool.Adapters.Reddit.Refs.{parse_ref, is_slug}
use account_pool.Adapters.Reddit.Links.{IsLink, comment_link, parse_ref-link}
use account_pool.Adapters.Reddit.Owned.{link_is_owned}
use account_pool.Adapters.Medium.{medium_adapter}
use account_pool.Adapters.Registry.{real_adapter, build_registry, get_registered}
use account_pool.Adapters.Registry.Built.{Named, network_or, get-build_registry}
use account_pool.Policy.Policies.{get_platform_policy}
use account_pool.Support.Coverage.{Fits, real_adapter-Fits}
use account_pool.Tests.Fixtures.{account}

-- A network on which every request is answered with nothing.
abbrev pub silence : Network
silence = record {
  answer = λ log q. ok null;
  error_text = λ log. "";
  object_text = λ v. "";
  parse_xml = λ s. none;
}

-- A feed of two items.
abbrev item : String → Element
item title =
    Element.element "item" [] none
      (Elements.cons (Element.element "title" [] (some title) Elements.nil) Elements.nil)

abbrev feed : Element
feed =
    Element.element "rss" [] none
      (Elements.cons (item "first") (Elements.cons (item "second") Elements.nil))

parse_feed-take_example : parse_feed 1 feed ≡ take 1 (entries (iter feed))
parse_feed-take_example = parse_feed-take 1 feed (omega arith)

-- A link to the comment "c1" that names the account's own profile.
abbrev profile : List Char
profile = "u" ∷ "_" ∷ "p" ∷ "o" ∷ "o" ∷ "l" ∷ []

abbrev submission : List Char
submission = "s" ∷ "1" ∷ []

abbrev reply : List Char
reply = "c" ∷ "1" ∷ []

own_comment-IsLink : IsLink profile submission [] reply
unfolding is_word is_alnum is_slug
own_comment-IsLink = record {
  sub_word = (refl, (refl, (refl, (refl, (refl, (refl, tt))))));
  sub_some = refl;
  id_alnum = (refl, (refl, tt));
  id_some = refl;
  slug_free = tt;
  cid_alnum = (refl, (refl, tt));
  cid_some = refl;
}

parse_ref-link_example : parse_ref (of_chars (comment_link profile submission [] reply)) ≡ record {
  kind = "comment";
  id = of_chars reply;
  subreddit = some (of_chars profile);
  parent_id = some (of_chars submission);
}
parse_ref-link_example = parse_ref-link profile submission [] reply own_comment-IsLink

abbrev session : AdapterSession
session = record { account = account; credentials = end }

own_profile : of_chars profile ≡ profile_of session
own_profile = refl

link_is_owned_example :
    let t = reddit_resolve session (of_chars (comment_link profile submission [] reply)) in
    (t.is_owned ≡ true)
    × (fetch_parent silence session t
        ≡ request silence
            (reddit_kwargs session.credentials)
            Method.comment
            (field "id" (text (of_chars reply)) end))
link_is_owned_example =
    link_is_owned silence session profile submission [] reply own_comment-IsLink own_profile

-- The address of a status, with a slash at its end.
abbrev before : List Char
before = "h" ∷ "t" ∷ "t" ∷ "p" ∷ ":" ∷ "/" ∷ []

stripped : strip (chars "http:/42/") ≡ before ++ "4" ∷ ("2" ∷ [] ++ "/" ∷ [])
unfolding strip lstrip rstrip is_space
stripped = refl

apart : Apart before
unfolding is_digit
apart = refl

digits : AllIn is_digit ("4" ∷ "2" ∷ [])
unfolding is_digit
digits = (refl, (refl, tt))

status_id-digits_example : status_id "http:/42/" ≡ of_chars ("4" ∷ "2" ∷ [])
status_id-digits_example =
    status_id-digits "http:/42/" before "4" ("2" ∷ []) ("/" ∷ []) stripped apart digits (inr refl)

abbrev names : List String
names = " Mastodon" ∷ []

get-build_registry_example :
    let got = (get_registered Platform.mastodon (build_registry silence names)).0 in
    (Named names Platform.mastodon
      × (got
          ≡ ok (
              network_or silence names
                (fake_adapter Platform.mastodon)
                (real_adapter silence Platform.mastodon))))
    ⊎ (¬ (Named names Platform.mastodon) × (got ≡ ok (fake_adapter Platform.mastodon)))
get-build_registry_example = get-build_registry silence names Platform.mastodon

on_medium : real_adapter silence Platform.medium ≡ some (medium_adapter silence)
unfolding real_adapter
on_medium = refl

real_adapter-Fits_example :
    Fits Platform.medium (medium_adapter silence).capabilities (get_platform_policy Platform.medium)
real_adapter-Fits_example =
    real_adapter-Fits silence Platform.medium (medium_adapter silence) on_medium
